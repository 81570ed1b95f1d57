-- ===== src/Domain/Haproxy/Valid.antt =====
-- What the `Validate` methods of frontends guarantee when they have no complaint.
use egress_manager.Base.{
  ◌≤◌, ◌≡◌, true, false, List, [], ◌∷◌, Bytes, bytes_eq, length, All, Pairs, Fresh, Fresh-nil,
  Fresh-cons, arith,
}
use egress_manager.Net.{is_valid}
use egress_manager.Domain.Issue.{join_errors-nil, issue_if-nil}
use egress_manager.Domain.Identifier.{matches_id, validate_id}
use egress_manager.Domain.Haproxy.{
  HaproxyFrontend, maximum_backends, validate_backend_ids, validate_frontend,
}

pub record IsValid (f : HaproxyFrontend) : Type 0 where
  pub bind_valid : is_valid f.bind ≡ true
  pub port_set : 1 ≤ f.port
  pub some_backend : 1 ≤ length f.backend_ids
  pub few_backends : length f.backend_ids ≤ maximum_backends
  pub backends_named : All (λ id. matches_id id ≡ true) f.backend_ids
  pub backends_distinct : Pairs (λ a b. bytes_eq b a ≡ false) f.backend_ids

validate_backend_ids-Fresh :
    (seen ids : List Bytes)
    → validate_backend_ids seen ids ≡ []
    → All (λ id. matches_id id ≡ true) ids × Fresh bytes_eq seen ids
unfolding validate_backend_ids validate_id
validate_backend_ids-Fresh seen [] h = (tt, Fresh-nil bytes_eq seen)
validate_backend_ids-Fresh seen (id ∷ ids) h =
    let e = join_errors-nil _ h in
    let (names, fresh) = validate_backend_ids-Fresh (id ∷ seen) ids e.1.1.0 in
    (
      (ground (arith, issue_if-nil _ _ e.0), names),
      Fresh-cons bytes_eq id seen ids (issue_if-nil _ _ e.1.0) fresh,
    )

-- A frontend without a complaint is bound to a valid address and a port and has one to 64 backends,
-- which are identifiers and distinct.
pub validate_frontend-IsValid : (f : HaproxyFrontend) → validate_frontend f ≡ [] → IsValid f
unfolding validate_frontend
validate_frontend-IsValid f h =
    let e = join_errors-nil _ h in
    let rest = e.1.1 in
    let (names, fresh) = validate_backend_ids-Fresh [] f.backend_ids rest.1.1.1.1.0 in
    record {
      bind_valid = ground (arith, issue_if-nil _ _ rest.0);
      port_set = ground (arith, issue_if-nil _ _ rest.1.0);
      some_backend = ground (arith, issue_if-nil _ _ rest.1.1.0);
      few_backends = ground (arith, issue_if-nil _ _ rest.1.1.1.0);
      backends_named = names;
      backends_distinct = fresh.distinct;
    }
