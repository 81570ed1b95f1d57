-- ===== src/Domain/Haproxy.antt =====
-- haproxy.go: the frontends and backends of HAProxy.
pub mod Valid
use egress_manager.Base.{
  ℕ, Bool, true, false, ◌||◌, not, List, [], ◌∷◌, ltb, ◌==◌, if◌then◌else◌, Bytes, bytes_eq, any,
  length,
}
use egress_manager.Net.{Addr, is_valid}
use egress_manager.Inventory.{AddrText}
use egress_manager.Domain.Issue.{
  Issue, issue_if, join_errors, bad_bind, bad_frontend_port, no_backend, too_many_backends,
  duplicate_backend, bad_algorithm, bad_weight,
}
use egress_manager.Domain.Identifier.{validate_id, validate_display_name}
use egress_manager.Domain.Health.{Health, validate_health}
use egress_manager.Domain.Endpoint.{Endpoint, validate_endpoint}

-- An algorithm is a string; `other_balance` holds what is none of the two constants.
pub data BalanceAlgorithm : Type 0 where
  balance_round_robin balance_least_conn : BalanceAlgorithm
  other_balance : Bytes → BalanceAlgorithm

abbrev balance_is_known : BalanceAlgorithm → Bool
balance_is_known (other_balance s) = false
balance_is_known _ = true

pub record HaproxyFrontend : Type 0 where
  pub id : Bytes
  pub name : Bytes
  pub bind : Addr
  pub port : ℕ
  pub backend_ids : List Bytes
  pub algorithm : BalanceAlgorithm
  pub enabled : Bool

abbrev pub maximum_backends : ℕ
maximum_backends = 64

-- The loop over the backends; the first argument holds those seen.
unfoldable pub validate_backend_ids : List Bytes → List Bytes → List Issue
validate_backend_ids seen [] = []
validate_backend_ids seen (id ∷ ids) = join_errors (
    validate_id id
    ∷ issue_if (any (bytes_eq id) seen) duplicate_backend
    ∷ validate_backend_ids (id ∷ seen) ids
    ∷ [])

unfoldable pub validate_frontend : HaproxyFrontend → List Issue
validate_frontend frontend = join_errors (
    validate_id frontend.id
    ∷ validate_display_name frontend.name
    ∷ issue_if (not (is_valid frontend.bind)) bad_bind
    ∷ issue_if (frontend.port == 0) bad_frontend_port
    ∷ issue_if (length frontend.backend_ids == 0) no_backend
    ∷ issue_if (ltb maximum_backends (length frontend.backend_ids)) too_many_backends
    ∷ validate_backend_ids [] frontend.backend_ids
    ∷ issue_if (not (balance_is_known frontend.algorithm)) bad_algorithm
    ∷ [])

pub record HaproxyBackend : Type 0 where
  pub id : Bytes
  pub name : Bytes
  pub server : Endpoint
  pub weight : ℕ
  pub backup : Bool
  pub health_check : Bool
  pub health : Health
  pub enabled : Bool

module _ (text : AddrText) where
  unfoldable pub validate_backend : HaproxyBackend → List Issue
  validate_backend backend = join_errors (
      validate_id backend.id
      ∷ validate_display_name backend.name
      ∷ validate_endpoint text backend.server
      ∷ issue_if (backend.weight == 0 || ltb 256 backend.weight) bad_weight
      ∷ validate_health backend.health
      ∷ [])
