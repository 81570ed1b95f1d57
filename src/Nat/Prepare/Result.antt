-- ===== src/Nat/Prepare/Result.antt =====
-- What `prepareForwards` of plan.go returns.
use egress_manager.Base.{
  ℕ, suc, ◌≤◌, ◌≡◌, ◌≢◌, refl, ap, subst, ◌⊎◌, false, none, List, [], ◌∷◌, length, All, Pairs,
  arith, bytes_lt, bytes_lt_asymm, bytes_ge_trans, sort_by, All-sort_by, Pairs-sort_by,
  length-sort_by, sort_by_ordered, Bool-cases, inl, inr,
}
use egress_manager.Domain.Forward.{PortForward, validate_forward}
use egress_manager.Domain.Forward.Valid.{Fits, validate_forward-IsValid}
use egress_manager.Inventory.{AddrText}
use egress_manager.Inventory.Conflict.{Listener}
use egress_manager.Nat.Ranges.Normal.{normalize_ranges-Apart, normalize_ranges-IsRange}
use egress_manager.Nat.Prepare.{
  AddressFamily, SafetyPolicy, Prepared, ok, err, PlanError, enforce_safety, reject_duplicates,
  normalize_forward, foreign_family, forward_less, prepare_one, prepare_all, finish_prepared,
  prepare_forwards, maximum_forwards,
}
use egress_manager.Nat.Prepare.Safe.{IsSafe, enforce_safety-IsSafe}
use egress_manager.Nat.Prepare.Exclusive.{
  Exclusive, Exclusive-symm, HasNormalExcept, reject_duplicates-Exclusive,
}

module _ (text : AddrText) where
  normalize_forward-HasNormalExcept :
      (f : PortForward)
      → Fits f
      → validate_forward f ≡ []
      → HasNormalExcept (normalize_forward text f)
  unfolding normalize_forward
  normalize_forward-HasNormalExcept f w h = (
    normalize_ranges-IsRange f.all_ports_except (validate_forward-IsValid f w h).except_ranges,
    normalize_ranges-Apart f.all_ports_except,
  )

  module _ (family : AddressFamily) (listeners : List Listener) (policy : SafetyPolicy) where
    -- What a prepared forward comes from.
    pub record Accepted (g : PortForward) : Type 0 where
      pub fits : Fits g
      pub no_issue : validate_forward g ≡ []
      pub own_family : foreign_family family g.listen_address ≡ false
      pub no_error : enforce_safety text (normalize_forward text g) listeners policy ≡ none

    -- A round that succeeds has succeeded on the rest, and adds its forward unless that is foreign.
    prepare_one-ok :
        (g : PortForward) (gs fs : List PortForward)
        → prepare_one text family listeners policy g (ok gs) ≡ ok fs
        → Fits g
        → (gs ≡ fs) ⊎ (Accepted g × ((normalize_forward text g ∷ gs) ≡ fs))
    unfolding prepare_one
    prepare_one-ok g gs fs h w = elim (Bool-cases (foreign_family family g.listen_address)) [
      | inl skip ↦ inl (ground arith)
      | inr own ↦ inr (
        record { fits = w; no_issue = ground arith; own_family = own; no_error = ground arith },
        ground arith,
      )
    ]

    prepare_one-err :
        (g : PortForward) (e : PlanError) (fs : List PortForward)
        → prepare_one text family listeners policy g (err e) ≢ ok fs
    unfolding prepare_one
    prepare_one-err g e fs h = ground arith

    module _ (P : PortForward → Type 0)
        (accepted : (g : PortForward) → Accepted g → P (normalize_forward text g)) where
      prepare_step :
          (g : PortForward) (rest : Prepared) (fs : List PortForward)
          → prepare_one text family listeners policy g rest ≡ ok fs
          → Fits g
          → ((gs : List PortForward) → rest ≡ ok gs → All P gs)
          → All P fs
      prepare_step g (err e) fs h w r = absurd (prepare_one-err g e fs h)
      prepare_step g (ok gs) fs h w r = elim (prepare_one-ok g gs fs h w) [
        | inl e ↦ subst (All P) e (r gs refl)
        | inr (a, e) ↦ subst (All P) e (accepted g a, r gs refl)
      ]

      -- What holds of every accepted forward once normalised holds of all that the loop returns.
      prepare_all-ok :
          (desired fs : List PortForward)
          → All Fits desired
          → prepare_all text family listeners policy desired ≡ ok fs
          → All P fs
      unfolding prepare_all
      prepare_all-ok [] [] w h = tt
      prepare_all-ok [] (f ∷ fs) w h = ground arith
      prepare_all-ok (g ∷ rest) fs w h =
          prepare_step g (prepare_all text family listeners policy rest) fs h w.0
            (λ gs e. prepare_all-ok rest gs w.1 e)

    prepare_step-length :
        (g : PortForward) (rest : Prepared) (fs : List PortForward) (n : ℕ)
        → prepare_one text family listeners policy g rest ≡ ok fs
        → ((gs : List PortForward) → rest ≡ ok gs → length gs ≤ n)
        → length fs ≤ suc n
    prepare_step-length g (err e) fs n h r = absurd (prepare_one-err g e fs h)
    prepare_step-length g (ok gs) fs n h r = unfold prepare_one in ground (arith, r gs refl)

    prepare_all-length :
        (desired fs : List PortForward)
        → prepare_all text family listeners policy desired ≡ ok fs
        → length fs ≤ length desired
    unfolding prepare_all
    prepare_all-length [] fs h = ground arith
    prepare_all-length (g ∷ rest) fs h =
        prepare_step-length g (prepare_all text family listeners policy rest) fs (length rest) h
          (λ gs e. prepare_all-length rest gs e)

    -- A success has passed every stage.
    record Stages (desired fs : List PortForward) : Type 0 where
      unsorted : List PortForward
      collected : prepare_all text family listeners policy desired ≡ ok unsorted
      distinct : reject_duplicates unsorted ≡ none
      sorted : sort_by forward_less unsorted ≡ fs
      few : length desired ≤ maximum_forwards

    finish_prepared-ok :
        (p : Prepared) (fs : List PortForward)
        → finish_prepared text family listeners policy p ≡ ok fs
        → (gs : List PortForward) × (p ≡ ok gs)
          × (reject_duplicates gs ≡ none)
          × (sort_by forward_less gs ≡ fs)
    unfolding finish_prepared
    finish_prepared-ok (err e) fs h = ground arith
    finish_prepared-ok (ok gs) fs h = (gs, refl, ground arith, ground arith)

    prepare_forwards-Stages :
        (desired fs : List PortForward)
        → prepare_forwards text family listeners policy desired ≡ ok fs
        → Stages desired fs
    unfolding prepare_forwards
    prepare_forwards-Stages desired fs h =
        let finished : finish_prepared text family listeners policy
              (prepare_all text family listeners policy desired)
            ≡ ok fs =
          ground arith in
        let (gs, c, d, e) =
          finish_prepared-ok (prepare_all text family listeners policy desired) fs finished in
        record { unsorted = gs; collected = c; distinct = d; sorted = e; few = ground arith }

    -- Every forward that `prepareForwards` returns satisfies the safety policy: it neither listens
    -- on nor targets a loopback address, lies in no protected prefix, matches no SSH port and not
    -- the panel's port, and, if enabled, overlaps with no listener whose port and protocol it
    -- matches. The desired forwards are assumed to hold numbers that fit their types.
    pub prepare_forwards-IsSafe :
        (desired fs : List PortForward)
        → All Fits desired
        → prepare_forwards text family listeners policy desired ≡ ok fs
        → All (IsSafe text listeners policy) fs
    prepare_forwards-IsSafe desired fs w h =
        let st = prepare_forwards-Stages desired fs h in
        subst (All (IsSafe text listeners policy)) st.sorted (
          All-sort_by forward_less (IsSafe text listeners policy) st.unsorted (
            prepare_all-ok (IsSafe text listeners policy)
              (λ g a.
                enforce_safety-IsSafe text (normalize_forward text g) listeners policy a.no_error)
              desired st.unsorted w st.collected))

    -- No packet with a port from 1 to 65535 is captured by two of the forwards that
    -- `prepareForwards` returns: by destination, source, protocol and port at most one enabled
    -- forward selects it. The desired forwards are assumed to hold numbers that fit their types.
    pub prepare_forwards-Exclusive :
        (desired fs : List PortForward)
        → All Fits desired
        → prepare_forwards text family listeners policy desired ≡ ok fs
        → Pairs Exclusive fs
    prepare_forwards-Exclusive desired fs w h =
        let st = prepare_forwards-Stages desired fs h in
        subst (Pairs Exclusive) st.sorted (
          Pairs-sort_by forward_less Exclusive-symm st.unsorted (
            reject_duplicates-Exclusive st.unsorted
              (prepare_all-ok HasNormalExcept
                (λ g a. normalize_forward-HasNormalExcept g a.fits a.no_issue) desired st.unsorted w
                st.collected)
              st.distinct))

    -- `prepareForwards` returns at most sixteen forwards, in the order of their identifiers.
    pub prepare_forwards-ordered :
        (desired fs : List PortForward)
        → prepare_forwards text family listeners policy desired ≡ ok fs
        → Pairs (λ a b. bytes_lt b.id a.id ≡ false) fs × (length fs ≤ maximum_forwards)
    prepare_forwards-ordered desired fs h =
        let st = prepare_forwards-Stages desired fs h in
        (
          subst (Pairs (λ a b. bytes_lt b.id a.id ≡ false)) st.sorted (
              sort_by_ordered forward_less (λ a b. bytes_lt_asymm a.id b.id)
                (λ a b c. bytes_ge_trans a.id b.id c.id) st.unsorted),
          omega (
            arith,
            ap (λ (gs : List PortForward). length gs) st.sorted,
            length-sort_by forward_less st.unsorted,
            prepare_all-length desired st.unsorted st.collected,
            st.few,
          ),
        )
