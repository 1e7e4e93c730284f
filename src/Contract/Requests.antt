-- ===== src/Contract/Requests.antt =====
-- internal/supervisor/contract: which requests are valid, and how a refusal is reported.
use kanedias.Base.{◌≡◌, ◌↔◌, ◌⊎◌, Option, none, some, arith, is_blank, false, ok, err}
use kanedias.Contract.{
  ChildKind, ContextMode, Error, CreateChildRequest, ForkSpec, http_status, validate,
}

-- A fork that names its session file, its Pi session and its leaf entry.
abbrev pub Names : Option ForkSpec → Type 0
Names none = ⊥
Names (some f) =
    (is_blank f.session_file ≡ false)
    × (is_blank f.pi_session_id ≡ false)
    × (is_blank f.leaf_entry_id ≡ false)

-- A request is valid exactly if it names a worker type and a task, is of kind read or write, and
-- either has a fresh context and no fork or has a fork context with a fork that is named in full.
pub validate-ok_iff :
    (r : CreateChildRequest)
    → (validate r ≡ ok tt) ↔ (
        (is_blank r.worker_type ≡ false)
        × ((r.kind ≡ ChildKind.read) ⊎ (r.kind ≡ ChildKind.write))
        × (is_blank r.task ≡ false)
        × (((r.context ≡ ContextMode.fresh) × (r.fork_spec ≡ none))
            ⊎ ((r.context ≡ ContextMode.fork) × Names r.fork_spec)))
unfolding validate
validate-ok_iff r = ground arith

-- Every refusal of a request is reported as a bad request, with status 400.
pub validate-http_status :
    (r : CreateChildRequest) (e : Error) → validate r ≡ err e → http_status e.code ≡ 400
unfolding validate http_status
validate-http_status r e h = ground arith
