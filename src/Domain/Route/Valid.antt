-- ===== src/Domain/Route/Valid.antt =====
-- What `Route.Validate` guarantees when it has no complaint.
use egress_manager.Base.{
  ℕ, zero, suc, ◌≤◌, ◌<◌, ◌≡◌, ◌⊎◌, inl, inr, refl, Bool, true, false, List, [], ◌∷◌, ◌==◌, Bytes,
  bytes_eq, any, length, not, All, Pairs, Fresh, Fresh-nil, Fresh-cons, arith,
}
use egress_manager.Net.{Addr, addr_eq}
use egress_manager.Domain.Issue.{
  issue_if, join_errors-nil, or_else-nil, issue_if-nil, unexpected_dns_servers,
}
use egress_manager.Domain.Identifier.{matches_id, validate_id}
use egress_manager.Domain.Route.{
  FailurePolicy, failure_block, failure_failover, failure_direct, other_failure, DnsPolicy,
  dns_follow_outbound, dns_system, dns_block, other_dns, Route, is_set, is_resolver,
  check_resolvers, dns_servers_error, fallback_error, mtu_error, mss_error, kill_switch_error,
  validate_failure_policy, validate_route,
}

-- The kill switch is off for a direct route and on for the others.
abbrev pub KillSwitchFits : FailurePolicy → Bool → Type 0
KillSwitchFits failure_direct on = on ≡ false
KillSwitchFits failure_block on = on ≡ true
KillSwitchFits failure_failover on = on ≡ true
KillSwitchFits (other_failure s) on = ⊥

-- A failover has an identifier of another outbound, the other policies have none.
abbrev pub FallbackFits : FailurePolicy → Bytes → Bytes → Type 0
FallbackFits failure_failover fallback primary =
    (matches_id fallback ≡ true) × (bytes_eq fallback primary ≡ false)
FallbackFits _ fallback primary = fallback ≡ []

-- One to four resolvers, each a unicast address in its canonical form, and no two the same.
abbrev pub DnsFits : DnsPolicy → List Addr → Type 0
DnsFits dns_follow_outbound servers =
    (1 ≤ length servers)
    × (length servers ≤ 4)
    × All (λ a. is_resolver a ≡ true) servers
    × Pairs (λ a b. addr_eq b a ≡ false) servers
DnsFits _ servers = servers ≡ []

pub record IsValid (r : Route) : Type 0 where
  pub kill_switch_fits : KillSwitchFits r.failure_policy r.kill_switch
  pub fallback_fits : FallbackFits r.failure_policy r.fallback_outbound_id r.outbound_id
  pub dns_fits : DnsFits r.dns_policy r.dns_servers
  pub mtu_fits : (r.mtu ≡ 0) ⊎ ((576 ≤ r.mtu) × (r.mtu ≤ 9000))
  pub mss_fits : (r.tcp_mss ≡ 0) ⊎ ((536 ≤ r.tcp_mss) × (r.tcp_mss ≤ 8960))
  pub mss_below_mtu : (r.mtu ≡ 0) ⊎ (r.tcp_mss < r.mtu)

kill_switch_fits_lem :
    (p : FailurePolicy) (on : Bool)
    → validate_failure_policy p ≡ []
    → kill_switch_error p on ≡ []
    → KillSwitchFits p on
unfolding kill_switch_error
kill_switch_fits_lem failure_direct on h k = issue_if-nil _ _ k
kill_switch_fits_lem failure_block on h k = ground (arith, issue_if-nil _ _ k)
kill_switch_fits_lem failure_failover on h k = ground (arith, issue_if-nil _ _ k)
kill_switch_fits_lem (other_failure s) on h k = absurd (cc)

unset : (text : Bytes) → is_set text ≡ false → text ≡ []
unset [] h = refl
unset (c ∷ cs) h = absurd (ground arith)

no_servers :
    (servers : List Addr)
    → issue_if (not (length servers == 0)) unexpected_dns_servers ≡ []
    → servers ≡ []
no_servers [] h = refl
no_servers (a ∷ rest) h = absurd (ground arith)

validate_id-nil : (id : Bytes) → validate_id id ≡ [] → matches_id id ≡ true
unfolding validate_id
validate_id-nil id h = ground (arith, issue_if-nil _ _ h)

fallback_fits_lem :
    (p : FailurePolicy) (fallback primary : Bytes)
    → fallback_error p fallback primary ≡ []
    → FallbackFits p fallback primary
unfolding fallback_error
fallback_fits_lem failure_direct fallback primary h = unset fallback (issue_if-nil _ _ h)
fallback_fits_lem failure_block fallback primary h = unset fallback (issue_if-nil _ _ h)
fallback_fits_lem (other_failure s) fallback primary h = unset fallback (issue_if-nil _ _ h)
fallback_fits_lem failure_failover fallback primary h =
    let (known, differs) = or_else-nil (validate_id fallback) _ h in
    (validate_id-nil fallback known, issue_if-nil _ _ differs)

check_resolvers-Fresh :
    (seen servers : List Addr)
    → check_resolvers seen servers ≡ []
    → All (λ a. is_resolver a ≡ true) servers × Fresh addr_eq seen servers
unfolding check_resolvers
check_resolvers-Fresh seen [] h = (tt, Fresh-nil addr_eq seen)
check_resolvers-Fresh seen (a ∷ rest) h =
    let resolves : is_resolver a ≡ true = ground arith in
    let new : any (addr_eq a) seen ≡ false = ground arith in
    let (resolvers, fresh) = check_resolvers-Fresh (a ∷ seen) rest (ground arith) in
    ((resolves, resolvers), Fresh-cons addr_eq a seen rest new fresh)

dns_fits_lem :
    (p : DnsPolicy) (servers : List Addr) → dns_servers_error p servers ≡ [] → DnsFits p servers
unfolding dns_servers_error
dns_fits_lem dns_follow_outbound servers h =
    let many : 1 ≤ length servers = ground arith in
    let few : length servers ≤ 4 = ground arith in
    let (resolvers, fresh) = check_resolvers-Fresh [] servers (ground arith) in
    (many, few, resolvers, fresh.distinct)
dns_fits_lem dns_system servers h = no_servers servers h
dns_fits_lem dns_block servers h = no_servers servers h
dns_fits_lem (other_dns s) servers h = no_servers servers h

mtu_fits_lem : (mtu : ℕ) → mtu_error mtu ≡ [] → (mtu ≡ 0) ⊎ ((576 ≤ mtu) × (mtu ≤ 9000))
unfolding mtu_error
mtu_fits_lem zero h = inl refl
mtu_fits_lem (suc n) h = inr (ground arith, ground arith)

mss_fits_lem : (mtu mss : ℕ) → mss_error mtu mss ≡ [] → (mss ≡ 0) ⊎ ((536 ≤ mss) × (mss ≤ 8960))
unfolding mss_error
mss_fits_lem mtu zero h = inl refl
mss_fits_lem mtu (suc n) h = inr (ground arith, ground arith)

mss_below_mtu_lem : (mtu mss : ℕ) → mss_error mtu mss ≡ [] → (mtu ≡ 0) ⊎ (mss < mtu)
unfolding mss_error
mss_below_mtu_lem zero mss h = inl refl
mss_below_mtu_lem (suc m) zero h = inr (omega arith)
mss_below_mtu_lem (suc m) (suc n) h = inr (ground arith)

-- A route without a complaint has its kill switch on exactly if its failure policy is not direct;
-- only with a failover has it a fallback, which is an identifier and not the primary outbound; it
-- has one to four distinct canonical unicast resolvers if its DNS follows the outbound, and else
-- none; its MTU and MSS are unset or in their bounds, and the MSS is below an MTU that is set.
pub validate_route-IsValid : (r : Route) → validate_route r ≡ [] → IsValid r
unfolding validate_route
validate_route-IsValid r h =
    let e = join_errors-nil _ h in
    let policy = e.1.1.1.1 in
    let sizes = policy.1.1.1.1.1.1 in
    record {
      kill_switch_fits = kill_switch_fits_lem r.failure_policy r.kill_switch policy.0 sizes.1.1.0;
      fallback_fits =
          fallback_fits_lem r.failure_policy r.fallback_outbound_id r.outbound_id policy.1.0;
      dns_fits = dns_fits_lem r.dns_policy r.dns_servers policy.1.1.1.0;
      mtu_fits = mtu_fits_lem r.mtu sizes.0;
      mss_fits = mss_fits_lem r.mtu r.tcp_mss sizes.1.0;
      mss_below_mtu = mss_below_mtu_lem r.mtu r.tcp_mss sizes.1.0;
    }
