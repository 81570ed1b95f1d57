-- ===== src/Domain/Health.antt =====
-- health.go. A latency is a signed number of nanoseconds: its sign and its magnitude.
use egress_manager.Base.{Bool, List, [], ◌∷◌, ltb, if◌then◌else◌, Bytes, length}
use egress_manager.Domain.Issue.{Issue, bad_health_status, negative_latency, long_health_detail}

-- A status is a string; `other` holds what is none of the five constants.
pub data HealthStatus : Type 0 where
  unknown healthy degraded unhealthy disabled : HealthStatus
  other : Bytes → HealthStatus

unfoldable pub validate_status : HealthStatus → List Issue
validate_status (other s) = bad_health_status ∷ []
validate_status _ = []

pub record Health : Type 0 where
  pub status : HealthStatus
  pub latency_negative : Bool
  pub detail : Bytes

unfoldable pub validate_health : Health → List Issue
validate_health health =
    if health.latency_negative
    then negative_latency ∷ []
    else if ltb 256 (length health.detail)
    then long_health_detail ∷ []
    else validate_status health.status
