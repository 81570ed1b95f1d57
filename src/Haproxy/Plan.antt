-- ===== src/Haproxy/Plan.antt =====
-- plan.go: `BuildPlan`. Of the list of actions, which is shown to the operator, only the first one's
-- kind is kept, as `replaces`.
pub mod Apart
pub mod Safe
use egress_manager.Base.{
  ℕ, ◌+◌, ◌*◌, Bool, true, false, ◌&&◌, ◌||◌, not, Option, none, some, List, [], ◌∷◌, ◌++◌, ltb,
  ◌==◌, if◌then◌else◌, Bytes, lit, bytes_eq, bytes_lt, has_prefix, any, length, select, sort_by,
  split_lines,
}
use egress_manager.Net.{Addr, addr_eq, unmap}
use egress_manager.Effect.{Result, ok, err}
use egress_manager.Inventory.{AddrText}
use egress_manager.Inventory.Conflict.{Listener, Binding, Conflict, to_lower, detect_conflicts}
use egress_manager.Domain.Issue.{Issue}
use egress_manager.Domain.Haproxy.{
  HaproxyFrontend, HaproxyBackend, validate_frontend, validate_backend,
}
use egress_manager.Haproxy.Text.{
  Settings, settings_valid, maximum_candidate, maximum_frontends, find_backend, render_haproxy,
}
use egress_manager.Haproxy.Parse.{State}

abbrev pub maximum_all_backends : ℕ
maximum_all_backends = 256

pub record Plan : Type 0 where
  pub engine : Bytes
  pub state_hash : Bytes
  pub enabled_frontends : ℕ
  pub enabled_backends : ℕ
  pub replaces : Bool
  pub candidate : Bytes

pub data PlanError : Type 0 where
  bad_settings no_state too_many invalid_backend duplicate_backend : PlanError
  invalid_frontend duplicate_frontend missing_backend no_enabled_backend protected_port : PlanError
  bad_binding frontends_overlap listener_conflict candidate_too_large : PlanError

abbrev pub is_clean : List Issue → Bool
is_clean [] = true
is_clean (e ∷ es) = false

-- The loop over the backends' ids of a frontend: how many are enabled, or `none` if one is missing.
unfoldable pub count_enabled : List HaproxyBackend → List Bytes → Option ℕ
count_enabled backends [] = some 0
count_enabled backends (id ∷ ids) =
    let rest = count_enabled backends ids in
    elim (find_backend id backends) [
      | none ↦ none
      | some b ↦ elim rest [ none ↦ none | some n ↦ some (if b.enabled then n + 1 else n) ]
    ]

-- `strings.EqualFold` with an ASCII text that has neither of k and s
abbrev equal_fold : Bytes → Bytes → Bool
equal_fold a b = bytes_eq (to_lower a) (to_lower b)

abbrev pub first_error : Option PlanError → Option PlanError → Option PlanError
first_error (some e) rest = some e
first_error none rest = rest

abbrev pub require_that : Bool → PlanError → Option PlanError
require_that b e = if b then none else some e

abbrev pub conflicts_error : PlanError → Option (List Conflict) → Option PlanError
conflicts_error e none = some bad_binding
conflicts_error e (some conflicts) = require_that (length conflicts == 0) e

module _ (text : AddrText) where
  abbrev same_address : Option Addr → Option Addr → Bool
  same_address (some a) (some b) = addr_eq (unmap a) (unmap b)
  same_address _ _ = false

  -- Does a binding of the running instance explain the listener?
  abbrev pub is_owned_by : Listener → Binding → Bool
  is_owned_by l b =
      same_address (text.parse_addr b.address) (text.parse_addr l.address)
      && b.port == l.port
      && equal_fold b.protocol l.protocol

  -- `filterOwnedListeners`
  unfoldable pub filter_owned : List Listener → List Binding → List Listener
  filter_owned listeners bindings =
      select (λ l. not (equal_fold l.process (lit "haproxy") && any (is_owned_by l) bindings))
        listeners

  abbrev pub binding_of : HaproxyFrontend → Binding
  binding_of f = record { protocol = lit "tcp"; address = text.addr_string f.bind; port = f.port }

  abbrev pub listener_of : HaproxyFrontend → Listener
  listener_of f = record {
    protocol = lit "tcp";
    address = text.addr_string f.bind;
    port = f.port;
    process = [];
  }

  -- A check of `DetectConflicts` for one binding: its own error, or the one for a conflict.
  abbrev pub conflict_error : PlanError → HaproxyFrontend → List Listener → Option PlanError
  conflict_error e f listeners =
      conflicts_error e (detect_conflicts text (binding_of f ∷ []) listeners)

  -- The loop over the backends; the first argument holds the ids seen.
  unfoldable pub check_backends : List Bytes → List HaproxyBackend → Option PlanError
  check_backends seen [] = none
  check_backends seen (b ∷ bs) =
      first_error (require_that (is_clean (validate_backend text b)) invalid_backend) (
        first_error (require_that (not (any (bytes_eq b.id) seen)) duplicate_backend)
          (check_backends (b.id ∷ seen) bs))

  module _ (settings : Settings) (backends : List HaproxyBackend) (listeners : List Listener)
      (owned : List Binding) where
    -- The checks on an enabled frontend.
    abbrev pub check_enabled : List Listener → HaproxyFrontend → Option PlanError
    check_enabled desired f =
        first_error
          (require_that (not (any (λ p. p == f.port) settings.protected_ports)) protected_port)
          (first_error (conflict_error frontends_overlap f desired)
            (conflict_error listener_conflict f (filter_owned listeners owned)))

    -- The checks that follow the count of its backends
    abbrev pub check_counted : Option ℕ → List Listener → HaproxyFrontend → Option PlanError
    check_counted none desired f = some missing_backend
    check_counted (some n) desired f =
        first_error (require_that (not (f.enabled && n == 0)) no_enabled_backend)
          (if f.enabled then check_enabled desired f else none)

    -- The checks on one frontend, with the ids and the listeners of those before it.
    abbrev pub check_frontend : List Bytes → List Listener → HaproxyFrontend → Option PlanError
    check_frontend seen desired f =
        first_error (require_that (is_clean (validate_frontend f)) invalid_frontend) (
          first_error (require_that (not (any (bytes_eq f.id) seen)) duplicate_frontend)
            (check_counted (count_enabled backends f.backend_ids) desired f))

    -- The loop over the frontends.
    unfoldable pub check_frontends :
        List Bytes → List Listener → List HaproxyFrontend → Option PlanError
    check_frontends seen desired [] = none
    check_frontends seen desired (f ∷ fs) =
        let desired' = if f.enabled then desired ++ listener_of f ∷ [] else desired in
        first_error (check_frontend seen desired f) (check_frontends (f.id ∷ seen) desired' fs)

  abbrev frontend_less : HaproxyFrontend → HaproxyFrontend → Bool
  frontend_less f g = bytes_lt f.id g.id

  abbrev enabled_frontends_of : List HaproxyFrontend → ℕ
  enabled_frontends_of fs = length (select (λ f. f.enabled) fs)

  abbrev enabled_backends_of : List HaproxyBackend → ℕ
  enabled_backends_of bs = length (select (λ b. b.enabled) bs)

  -- The end of `BuildPlan`, which sorts and renders.
  abbrev pub planned :
      Settings → List HaproxyFrontend → List HaproxyBackend → State → Result PlanError Plan
  planned settings frontends backends state =
      let sorted = sort_by frontend_less frontends in
      let candidate = render_haproxy text settings sorted backends in
      if ltb maximum_candidate (length candidate)
      then err candidate_too_large
      else ok (record {
        engine = lit "haproxy";
        state_hash = state.hash;
        enabled_frontends = enabled_frontends_of sorted;
        enabled_backends = enabled_backends_of backends;
        replaces = state.exists;
        candidate = candidate;
      })

  abbrev pub checks :
      Settings
      → List HaproxyFrontend
      → List HaproxyBackend
      → List Listener
      → List Binding
      → Option PlanError
  checks settings frontends backends listeners owned =
      first_error
        (require_that
          (not (
            ltb maximum_frontends (length frontends) || ltb maximum_all_backends (length backends)))
          too_many)
        (first_error (check_backends [] backends)
          (check_frontends settings backends listeners owned [] [] frontends))

  -- The rest of `BuildPlan` behind the checks
  abbrev pub build_checked :
      Settings
      → List HaproxyFrontend
      → List HaproxyBackend
      → State
      → Option PlanError
      → Result PlanError Plan
  build_checked settings frontends backends state (some e) = err e
  build_checked settings frontends backends state none = planned settings frontends backends state

  abbrev pub build_owned :
      Settings
      → List HaproxyFrontend
      → List HaproxyBackend
      → List Listener
      → State
      → Option (List Binding)
      → Result PlanError Plan
  build_owned settings frontends backends listeners state none = err no_state
  build_owned settings frontends backends listeners state (some owned) =
      build_checked settings frontends backends state
        (checks settings frontends backends listeners owned)

  -- `BuildPlan`
  unfoldable pub build_plan :
      Settings
      → List HaproxyFrontend
      → List HaproxyBackend
      → List Listener
      → State
      → Result PlanError Plan
  build_plan settings frontends backends listeners state =
      if not (settings_valid settings)
      then err bad_settings
      else if length state.hash == 0
      then err no_state
      else build_owned settings frontends backends listeners state state.bindings
