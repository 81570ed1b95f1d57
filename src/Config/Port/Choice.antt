-- ===== src/Config/Port/Choice.antt =====
-- Which port `Select` chooses, on a host where a port is free or is not.
use egress_manager.Base.{
  ℕ, zero, suc, ◌+◌, ◌-◌, ◌%◌, ◌^◌, ◌≤◌, ◌<◌, ◌≡◌, refl, ◌∙◌, subst, Bool, true, false, Option,
  none, some, List, ◌==◌, ==→eq, arith, Bool-cases, inl, inr,
}
use native.Mathlib.Nat.{mod-lt}
use egress_manager.Net.{Addr, is_valid}
use egress_manager.Effect.{Result, ok, err}
use egress_manager.Config.Port.{
  PortSelector, PortError, bad_address, bad_selector, no_randomness, no_available_port, is_excluded,
  width, candidate, available, attempt, selector_is_valid, try_random, scan_ports, chosen,
  after_random, select_port, random_attempts,
}

module _ {W : Type 0} (draw : W → Option ℕ × W) (listen : Addr → ℕ → W → Bool × W)
    (selector : PortSelector) (address : Addr) (excluded : List ℕ) (is_free : ℕ → Bool)
    (free : (port : ℕ) (w : W) → (listen address port w).0 ≡ is_free port) where
  -- A port that may be chosen.
  pub record IsUsable (port : ℕ) : Type 0 where
    pub not_excluded : is_excluded excluded port ≡ false
    pub can_listen : is_free port ≡ true

  pub record InRange (port : ℕ) : Type 0 where
    pub above : selector.min ≤ port
    pub below : port ≤ selector.max

  -- What becomes of a choice.
  pub data Outcome (r : Result PortError ℕ) : Type 0 where
    found : (port : ℕ) → r ≡ ok port → InRange port → IsUsable port → Outcome r
    exhausted :
        r ≡ err no_available_port → ((port : ℕ) → InRange port → IsUsable port → ⊥) → Outcome r
    no_address : is_valid address ≡ false → r ≡ err bad_address → Outcome r
    no_selector : selector_is_valid selector ≡ false → r ≡ err bad_selector → Outcome r
    no_draw : (w : W) → (draw w).0 ≡ none → r ≡ err no_randomness → Outcome r

  available-IsUsable :
      (port : ℕ) (w : W) → (available draw listen address excluded port w).0 ≡ true → IsUsable port
  unfolding available
  available-IsUsable port w h = elim (Bool-cases (is_excluded excluded port)) [
    | inl e ↦ absurd (ground arith)
    | inr e ↦ record { not_excluded = e; can_listen = ground (arith, free port w) }
  ]

  IsUsable-available :
      (port : ℕ) (w : W) → IsUsable port → (available draw listen address excluded port w).0 ≡ true
  unfolding available
  IsUsable-available port w u = rw (u.not_excluded) (free port w ∙ u.can_listen)

  -- The scan finds the first usable port, if there is one.
  data Scanned (n port : ℕ) : Option ℕ → Type 0 where
    hit : (p : ℕ) → port ≤ p → p < port + n → IsUsable p → Scanned n port (some p)
    missed : ((p : ℕ) → port ≤ p → p < port + n → IsUsable p → ⊥) → Scanned n port none

  Scanned-step :
      (n port : ℕ)
      → (IsUsable port → ⊥)
      → {o : Option ℕ} → Scanned n (port + 1) o
      → Scanned (suc n) port o
  Scanned-step n port busy (hit p above below usable) =
      hit p (omega (arith, above)) (omega (arith, below)) usable
  Scanned-step n port busy (missed nothing) = missed (λ p above below usable.
      elim (Bool-cases (p == port)) [
        | inl same ↦ busy (subst IsUsable (==→eq p port same) usable)
        | inr differs ↦ nothing p (ground (arith, above)) (omega (arith, below)) usable
      ])

  scan_ports-Scanned :
      (n port : ℕ) (w : W)
      → port + n ≤ 65536
      → Scanned n port (scan_ports draw listen address excluded n port w).0
  unfolding scan_ports
  scan_ports-Scanned zero port w fits = missed (λ p above below u. ground arith)
  scan_ports-Scanned (suc n) port w fits =
      elim (Bool-cases (available draw listen address excluded (port % 2 ^ 16) w).0) [
        | inl e ↦ rw e (
            hit (port % 2 ^ 16) (omega (arith, fits)) (omega (arith, fits))
              (available-IsUsable (port % 2 ^ 16) w e))
        | inr e ↦
            rw e (
              Scanned-step n port (busy e)
                (scan_ports-Scanned n (port + 1) _ (omega (arith, fits))))
      ]
    where
      busy :
          (available draw listen address excluded (port % 2 ^ 16) w).0 ≡ false → IsUsable port → ⊥
      busy e u =
          let here : port % 2 ^ 16 ≡ port = omega (arith, fits) in
          let opens = subst (λ p. (available draw listen address excluded p w).0 ≡ false) here e in
          ground (arith, opens, IsUsable-available port w u)

  module _ (positive : 1 ≤ selector.min) (ordered : selector.min ≤ selector.max)
      (fits : selector.max ≤ 65535) where
    candidate-InRange : (r : ℕ) → InRange (candidate selector r)
    candidate-InRange r =
        let below_width =
          mod-lt (r % 2 ^ 32) {m = width selector} (omega (arith, positive, ordered, fits)) in
        record {
          above = omega (arith, below_width, ordered, fits);
          below = omega (arith, below_width, ordered, fits);
        }

    -- How the attempts end: with a port that may be chosen, with none, or without randomness.
    data Tried : Result PortError (Option ℕ) → Type 0 where
      tried : (p : ℕ) → InRange p → IsUsable p → Tried (ok (some p))
      untried : Tried (ok none)
      stopped : (w : W) → (draw w).0 ≡ none → Tried (err no_randomness)

    attempt-Tried :
        (u : W) (o : Option ℕ) (w : W) (rest : W → Result PortError (Option ℕ) × W)
        → (draw u).0 ≡ o
        → ((v : W) → Tried (rest v).0)
        → Tried (attempt draw listen address excluded selector o w rest).0
    attempt-Tried u none w rest q h = stopped u q
    attempt-Tried u (some r) w rest q h =
        let port = candidate selector r in
        elim (Bool-cases (available draw listen address excluded port w).0) [
          | inl f ↦ rw f (tried port (candidate-InRange r) (available-IsUsable port w f))
          | inr f ↦ rw f (h _)
        ]

    try_random-Tried :
        (n : ℕ) (w : W) → Tried (try_random draw listen address excluded selector n w).0
    unfolding try_random
    try_random-Tried zero w = untried
    try_random-Tried (suc n) w =
        attempt-Tried w (draw w).0 (draw w).1 _ refl (λ v. try_random-Tried n v)

    after_random-Outcome :
        (r : Result PortError (Option ℕ)) (w : W)
        → Tried r
        → Outcome (after_random draw listen address excluded selector r w).0
    after_random-Outcome (ok (some p)) w (tried p' above below) = found p refl above below
    after_random-Outcome (err e) w (stopped u q) = no_draw u q refl
    after_random-Outcome (ok none) w t =
        ended _ (
          scan_ports-Scanned (selector.max + 1 - selector.min) selector.min w (omega (arith, fits)))
      where
        ended :
            (o : Option ℕ)
            → Scanned (selector.max + 1 - selector.min) selector.min o
            → Outcome (chosen draw listen address excluded o)
        ended (some p) (hit p' above below usable) =
            found p refl (record { above = above; below = omega (arith, below, ordered) }) usable
        ended none (missed nothing) =
            exhausted refl
              (λ p r usable. nothing p r.above (omega (arith, r.below, ordered)) usable)

    -- On a host where each port stays free or in use, for a selector with ports from 1 to 65535, the
    -- choice, from any draws, is a port in the selector's range that is free and not excluded; or it
    -- is the error that no port is available, and no port of the range is free and not excluded; or
    -- it is the error for an address or a selector that is not valid, or for a draw that failed.
    pub select_port-Outcome :
        (w : W) → Outcome (select_port draw listen selector address excluded w).0
    unfolding select_port
    select_port-Outcome w = elim (Bool-cases (is_valid address)) [
      | inr bad ↦ rw bad (no_address bad refl)
      | inl good ↦ rw good (elim (Bool-cases (selector_is_valid selector)) [
        | inr bad ↦ rw bad (no_selector bad refl)
        | inl well ↦ rw well (
            after_random-Outcome
              (try_random draw listen address excluded selector random_attempts w).0
              (try_random draw listen address excluded selector random_attempts w).1
              (try_random-Tried random_attempts w))
      ])
    ]
