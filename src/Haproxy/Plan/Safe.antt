-- ===== src/Haproxy/Plan/Safe.antt =====
-- What a plan of `BuildPlan` guarantees.
use egress_manager.Base.{
  ℕ, ◌≡◌, ◌≤◌, refl, sym, subst, Bool, true, false, ◌&&◌, not, Option, none, some, List, [], ◌∷◌,
  ◌++◌, ◌==◌, if◌then◌else◌, Bytes, bytes_eq, any, length, select, All, All-imp, All-split, Pairs,
  arith,
}
use egress_manager.Effect.{ok}
use egress_manager.Inventory.{AddrText}
use egress_manager.Inventory.Conflict.{Listener, Binding}
use egress_manager.Domain.Haproxy.{HaproxyFrontend, HaproxyBackend, validate_frontend}
use egress_manager.Haproxy.Text.{Settings, maximum_candidate}
use egress_manager.Haproxy.Plan.Apart.{
  IsApart, conflict_error-All, first_error-none, require_that-none,
}
use egress_manager.Haproxy.Parse.{State}
use egress_manager.Haproxy.Plan.{
  Plan, PlanError, listener_of, filter_owned, count_enabled, conflict_error, check_enabled,
  check_counted, no_enabled_backend, protected_port, frontends_overlap, listener_conflict,
  duplicate_frontend, invalid_frontend, is_clean, check_frontend, check_frontends, check_backends,
  checks, first_error, require_that, build_plan, build_owned, build_checked,
}

module _ (text : AddrText) where
  module _ (settings : Settings) (backends : List HaproxyBackend) (listeners : List Listener)
      (owned : List Binding) where
    -- An enabled frontend has its backends, one of them enabled, captures no protected port, and is
    -- apart from the listeners that are not the instance's own.
    pub record IsSafe (f : HaproxyFrontend) : Type 0 where
      pub enabled_backends : ℕ
      pub backends_found : count_enabled backends f.backend_ids ≡ some enabled_backends
      pub some_enabled : 1 ≤ enabled_backends
      pub unprotected : any (λ p. p == f.port) settings.protected_ports ≡ false
      pub apart : All (IsApart text f) (filter_owned text listeners owned)

    check_counted-IsSafe :
        (o : Option ℕ) (desired : List Listener) (f : HaproxyFrontend)
        → f.enabled ≡ true
        → count_enabled backends f.backend_ids ≡ o
        → check_counted text settings backends listeners owned o desired f ≡ none
        → IsSafe f × All (IsApart text f) desired
    check_counted-IsSafe none desired f on e h = absurd (ground arith)
    check_counted-IsSafe (some n) desired f on e h =
        let (counted, enabled) =
          first_error-none (require_that (not (f.enabled && n == 0)) no_enabled_backend)
            (if f.enabled
              then check_enabled text settings backends listeners owned desired f
              else none)
            h in
        let checked =
          subst
            (λ b.
              (if b then check_enabled text settings backends listeners owned desired f else none)
              ≡ none)
            on enabled in
        let clear = conflict_error text frontends_overlap f desired in
        let free = conflict_error text listener_conflict f (filter_owned text listeners owned) in
        let protected = any (λ p. p == f.port) settings.protected_ports in
        let (open_port, others) =
          first_error-none (require_that (not protected) protected_port) (first_error clear free)
            checked in
        let (no_overlap, no_conflict) = first_error-none clear free others in
        let some_one = require_that-none (not (f.enabled && n == 0)) no_enabled_backend counted in
        let unlocked = require_that-none (not protected) protected_port open_port in
        (
          record {
            enabled_backends = n;
            backends_found = e;
            some_enabled = ground (arith, on, some_one);
            unprotected = ground (arith, unlocked);
            apart =
                conflict_error-All text listener_conflict f (filter_owned text listeners owned)
                  no_conflict;
          },
          conflict_error-All text frontends_overlap f desired no_overlap,
        )

    -- The enabled frontends, each apart from those before it.
    record Placed (desired : List Listener) (fs : List HaproxyFrontend) : Type 0 where
      all_safe : All IsSafe (select (λ f. f.enabled) fs)
      all_apart : All (λ f. All (IsApart text f) desired) (select (λ f. f.enabled) fs)
      pairwise : Pairs (λ f g. IsApart text g (listener_of text f)) (select (λ f. f.enabled) fs)

    Placed-cons :
        (b : Bool) (desired : List Listener) (f : HaproxyFrontend) (fs : List HaproxyFrontend)
        → f.enabled ≡ b
        → (f.enabled ≡ true → IsSafe f × All (IsApart text f) desired)
        → Placed (if b then desired ++ listener_of text f ∷ [] else desired) fs
        → Placed desired (f ∷ fs)
    Placed-cons true desired f fs on safe rest =
        let (is_safe, is_apart) = safe on in
        let enabled = select (λ f. f.enabled) fs in
        let split =
          All-imp enabled (λ g h. All-split (IsApart text g) desired (listener_of text f ∷ []) h)
            rest.all_apart in
        let expected : select (λ f. f.enabled) (f ∷ fs) ≡ f ∷ enabled = rw on refl in
        record {
          all_safe = subst (All IsSafe) (sym expected) (is_safe, rest.all_safe);
          all_apart =
              subst (All (λ f. All (IsApart text f) desired)) (sym expected)
                (is_apart, All-imp enabled (λ g h. h.0) split);
          pairwise =
              subst (Pairs (λ f g. IsApart text g (listener_of text f))) (sym expected)
                (All-imp enabled (λ g h. h.1.0) split, rest.pairwise);
        }
    Placed-cons false desired f fs off safe rest =
        let expected : select (λ f. f.enabled) (f ∷ fs) ≡ select (λ f. f.enabled) fs =
          rw off refl in
        record {
          all_safe = subst (All IsSafe) (sym expected) rest.all_safe;
          all_apart = subst (All (λ f. All (IsApart text f) desired)) (sym expected) rest.all_apart;
          pairwise =
              subst (Pairs (λ f g. IsApart text g (listener_of text f))) (sym expected)
                rest.pairwise;
        }

    check_frontends-Placed :
        (seen : List Bytes) (desired : List Listener) (fs : List HaproxyFrontend)
        → check_frontends text settings backends listeners owned seen desired fs ≡ none
        → Placed desired fs
    unfolding check_frontends
    check_frontends-Placed seen desired [] h = record {
      all_safe = tt;
      all_apart = tt;
      pairwise = tt;
    }
    check_frontends-Placed seen desired (f ∷ fs) h =
        let next = if f.enabled then desired ++ listener_of text f ∷ [] else desired in
        let counted =
          check_counted text settings backends listeners owned
            (count_enabled backends f.backend_ids) desired f in
        let (one, others) =
          first_error-none (check_frontend text settings backends listeners owned seen desired f)
            (check_frontends text settings backends listeners owned (f.id ∷ seen) next fs) h in
        let fresh = require_that (not (any (bytes_eq f.id) seen)) duplicate_frontend in
        let later =
          (first_error-none (require_that (is_clean (validate_frontend f)) invalid_frontend)
            (first_error fresh counted) one).1 in
        let last = (first_error-none fresh counted later).1 in
        Placed-cons f.enabled desired f fs refl
          (λ on. check_counted-IsSafe (count_enabled backends f.backend_ids) desired f on refl last)
          (check_frontends-Placed (f.id ∷ seen) next fs others)

    check_all-Placed :
        (frontends : List HaproxyFrontend)
        → checks text settings frontends backends listeners owned ≡ none
        → Placed [] frontends
    check_all-Placed frontends h =
        let framed = check_frontends text settings backends listeners owned [] [] frontends in
        let beyond = first_error (check_backends text [] backends) framed in
        let later = (first_error-none _ beyond h).1 in
        check_frontends-Placed [] [] frontends
          (first_error-none (check_backends text [] backends) framed later).1

  planned-ok :
      (settings : Settings) (frontends : List HaproxyFrontend) (backends : List HaproxyBackend)
      (state : State) (o : Option PlanError) (plan : Plan)
      → build_checked text settings frontends backends state o ≡ ok plan
      → (o ≡ none) × (length plan.candidate ≤ maximum_candidate)
  planned-ok settings frontends backends state none plan h = (refl, ground arith)
  planned-ok settings frontends backends state (some e) plan h = absurd (ground arith)

  -- If a plan is built, beside the running instance's own bindings, then each enabled frontend has
  -- all its backends, one of them enabled, has no protected port, and conflicts with no listener but
  -- the instance's own; of two enabled frontends the later conflicts not with the earlier; and the
  -- candidate is not too large.
  pub build_plan-IsSafe :
      (settings : Settings) (frontends : List HaproxyFrontend) (backends : List HaproxyBackend)
      (listeners : List Listener) (state : State) (owned : List Binding) (plan : Plan)
      → state.bindings ≡ some owned
      → build_plan text settings frontends backends listeners state ≡ ok plan
      → All (IsSafe settings backends listeners owned) (select (λ f. f.enabled) frontends)
        × Pairs (λ f g. IsApart text g (listener_of text f)) (select (λ f. f.enabled) frontends)
        × (length plan.candidate ≤ maximum_candidate)
  unfolding build_plan
  build_plan-IsSafe settings frontends backends listeners state owned plan known h =
      let built : build_owned text settings frontends backends listeners state state.bindings
          ≡ ok plan =
        ground (arith, h) in
      let checked =
        subst (λ o. build_owned text settings frontends backends listeners state o ≡ ok plan) known
          built in
      let (clean, small) = planned-ok settings frontends backends state _ plan checked in
      let placed = check_all-Placed settings backends listeners owned frontends clean in
      (placed.all_safe, placed.pairwise, small)
