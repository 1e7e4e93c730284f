-- ===== src/Identity/Rules.antt =====
-- internal/supervisor/identity.go: which identities there are.
use kanedias.Base.{◌≡◌, ◌⊎◌, arith, is_blank, false, ok, String, str_eq_iff}
use kanedias.Contract.{ChildKind, ContextMode, CreateChildRequest, validate}
use kanedias.Contract.Requests.{validate-ok_iff}
use kanedias.Identity.{IdentitySpec, Identity, new_identity, snapshot}

-- What holds of every identity.
pub record IsIdentity (i : Identity) : Type 0 where
  pub named : (is_blank i.session_id ≡ false) × (is_blank i.root_id ≡ false)
  pub kinds :
      ((i.kind ≡ ChildKind.root)
        × (i.root_id ≡ i.session_id)
        × (i.parent_id ≡ "")
        × (i.context ≡ ContextMode.root)
        × (i.worker ≡ ""))
      ⊎ (((i.kind ≡ ChildKind.read) ⊎ (i.kind ≡ ChildKind.write))
          × (is_blank i.parent_id ≡ false)
          × ((i.context ≡ ContextMode.fresh) ⊎ (i.context ≡ ContextMode.fork))
          × (is_blank i.worker ≡ false))

-- An identity that `NewIdentity` returns has the fields of the specification, and is either a root
-- that owns itself, with no parent and no worker type, or a child with a parent and a worker type.
pub new_identity-IsIdentity :
    (spec : IdentitySpec) (i : Identity)
    → new_identity spec ≡ ok i
    → (snapshot i ≡ spec) × IsIdentity i
unfolding new_identity snapshot
new_identity-IsIdentity spec i h = ground (
  arith,
  str_eq_iff spec.root_id spec.session_id,
  str_eq_iff spec.parent_id "",
  str_eq_iff spec.worker "",
)

-- The other way round: every identity with these properties is accepted, from its own snapshot.
pub IsIdentity-new_identity : (i : Identity) → IsIdentity i → new_identity (snapshot i) ≡ ok i
unfolding new_identity snapshot
IsIdentity-new_identity i h =
    ground
      (arith, str_eq_iff i.root_id i.session_id, str_eq_iff i.parent_id "", str_eq_iff i.worker "")

-- A valid request for a child makes an identity, under any session, parent and root that are named:
-- no child that the interface accepts fails for its identity.
pub validate-new_identity :
    (r : CreateChildRequest) (session parent root : String)
    → validate r ≡ ok tt
    → is_blank session ≡ false
    → is_blank parent ≡ false
    → is_blank root ≡ false
    → let spec : IdentitySpec = record {
      session_id = session;
      parent_id = parent;
      root_id = root;
      kind = r.kind;
      context = r.context;
      worker = r.worker_type;
    } in
      (i : Identity) × (new_identity spec ≡ ok i)
unfolding new_identity
validate-new_identity r session parent root h s p o =
    let valid = (validate-ok_iff r).0 h in
    (
      record {
        session_id = session;
        parent_id = parent;
        root_id = root;
        kind = r.kind;
        context = r.context;
        worker = r.worker_type;
      },
      ground arith,
    )
