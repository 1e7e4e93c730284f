-- ===== src/Identity/Tests.antt =====
-- internal/supervisor/identity.go on one root and one child.
use kanedias.Base.{◌≡◌, refl, inl, is_blank, ok}
use kanedias.Contract.{ChildKind, ContextMode, validate}
use kanedias.Contract.{CreateChildRequest}
use kanedias.Identity.{IdentitySpec, Identity, new_identity, snapshot}
use kanedias.Identity.Rules.{
  IsIdentity, new_identity-IsIdentity, IsIdentity-new_identity, validate-new_identity,
}
use kanedias.Base.{none}

abbrev root_spec : IdentitySpec
root_spec = record {
  session_id = "r";
  parent_id = "";
  root_id = "r";
  kind = ChildKind.root;
  context = ContextMode.root;
  worker = "";
}

abbrev root : Identity
root = record {
  session_id = "r";
  parent_id = "";
  root_id = "r";
  kind = ChildKind.root;
  context = ContextMode.root;
  worker = "";
}

root_spec_test : (snapshot root ≡ root_spec) × IsIdentity root
unfolding new_identity is_blank
root_spec_test = new_identity-IsIdentity root_spec root refl

IsIdentity-kept_test : new_identity (snapshot root) ≡ ok root
unfolding is_blank
IsIdentity-kept_test =
    IsIdentity-new_identity root
      (record { named = (refl, refl); kinds = inl (refl, refl, refl, refl, refl) })

abbrev request : CreateChildRequest
request = record {
  worker_type = "coder";
  kind = ChildKind.read;
  context = ContextMode.fresh;
  task = "look";
  fork_spec = none;
}

validate-new_identity_test :
    (i : Identity) × (new_identity (record {
      session_id = "c";
      parent_id = "r";
      root_id = "r";
      kind = ChildKind.read;
      context = ContextMode.fresh;
      worker = "coder";
    })
      ≡ ok i)
unfolding validate is_blank
validate-new_identity_test = validate-new_identity request "c" "r" "r" refl refl refl refl
