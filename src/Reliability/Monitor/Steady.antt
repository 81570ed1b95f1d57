-- ===== src/Reliability/Monitor/Steady.antt =====
-- The shown health of one dependency over a history of observations.
use egress_manager.Base.{
  ℕ, zero, suc, ◌+◌, ◌≤◌, ◌≡◌, ◌≢◌, ◌⊎◌, inl, inr, Bool-cases, refl, sym, ap, ◌∙◌, subst, Bool,
  true, false, ◌&&◌, List, [], ◌∷◌, ltb, if◌then◌else◌, Bytes, arith,
}
use egress_manager.Domain.Health.{
  HealthStatus, unknown, healthy, degraded, unhealthy, disabled, other,
}
use egress_manager.Reliability.Monitor.{
  DependencyObservation, DependencyState, zero_state, observe, observe_as, is_unhealthy, recovering,
  weakened, recovery_threshold, failure_threshold,
}

-- What one run tells of the dependency, and when.
pub record Sighting : Type 0 where
  pub at : ℕ
  pub seen : DependencyObservation

-- The state after a history, the latest sighting first.
unfoldable pub state_after : Bytes → List Sighting → DependencyState
state_after name [] = zero_state
state_after name (x ∷ history) = observe x.at name x.seen (state_after name history)

abbrev pub shown : DependencyState → HealthStatus
shown s = s.status.observation.status

-- The sightings of trouble since the dependency was last seen healthy or disabled.
abbrev pub troubles_with : HealthStatus → ℕ → ℕ
troubles_with healthy n = 0
troubles_with disabled n = 0
troubles_with unhealthy n = n + 1
troubles_with degraded n = n + 1
troubles_with _ n = n

unfoldable pub troubles : List Sighting → ℕ
troubles [] = 0
troubles (x ∷ history) = troubles_with x.seen.status (troubles history)

-- What an observation does to a state: it counts, and which status may be shown.
record Steady (h : HealthStatus) (s t : DependencyState) : Type 0 where
  counted : t.status.consecutive_failures ≡ troubles_with h s.status.consecutive_failures
  confirmed : shown t ≡ unhealthy → (h ≡ unhealthy) × (2 ≤ t.status.consecutive_failures)
  uncredited : shown t ≡ unhealthy → t.consecutive_successes ≡ 0
  no_jump : shown s ≡ unhealthy → s.consecutive_successes ≡ 0 → shown t ≢ healthy

-- A healthy sighting is shown as such or as a recovery.
recovering_lem :
    (b : Bool) (o : DependencyObservation)
    → o.status ≡ healthy
    → (if b then recovering o else o).status ≢ unhealthy
recovering_lem true o e q = absurd (cc)
recovering_lem false o e q = absurd (cc)

recovering_first :
    (s : DependencyState) (o : DependencyObservation)
    → shown s ≡ unhealthy
    → s.consecutive_successes ≡ 0
    → (if is_unhealthy (shown s) && ltb (s.consecutive_successes + 1) recovery_threshold
        then recovering o
        else o).status
      ≢ healthy
recovering_first s o q z = rw (q, z) (λ k. absurd (cc))

weakened_lem :
    (b : Bool) (o : DependencyObservation)
    → o.status ≡ unhealthy
    → (if b then weakened o else o).status ≢ healthy
weakened_lem true o e q = absurd (cc)
weakened_lem false o e q = absurd (cc)

weakened_first :
    (n : ℕ) (o : DependencyObservation)
    → (if ltb (n + 1) failure_threshold then weakened o else o).status ≡ unhealthy
    → 2 ≤ n + 1
weakened_first zero o q = absurd (cc)
weakened_first (suc n) o q = omega arith

observe_as-Steady :
    (h : HealthStatus) (now : ℕ) (name : Bytes) (o : DependencyObservation) (s : DependencyState)
    → o.status ≡ h
    → Steady h s (observe_as h now name o s)
observe_as-Steady healthy now name o s e = record {
  counted = refl;
  confirmed = λ q. absurd (recovering_lem _ o e q);
  uncredited = λ q. absurd (recovering_lem _ o e q);
  no_jump = recovering_first s o;
}
observe_as-Steady unhealthy now name o s e = record {
  counted = refl;
  confirmed = λ q. (refl, weakened_first s.status.consecutive_failures o q);
  uncredited = λ q. refl;
  no_jump = λ q z. weakened_lem _ o e;
}
observe_as-Steady degraded now name o s e = record {
  counted = refl;
  confirmed = λ q. absurd (cc);
  uncredited = λ q. refl;
  no_jump = λ q z k. absurd (cc);
}
observe_as-Steady disabled now name o s e = record {
  counted = refl;
  confirmed = λ q. absurd (cc);
  uncredited = λ q. refl;
  no_jump = λ q z k. absurd (cc);
}
observe_as-Steady unknown now name o s e = record {
  counted = refl;
  confirmed = λ q. absurd (cc);
  uncredited = λ q. refl;
  no_jump = λ q z k. absurd (cc);
}
observe_as-Steady (other t) now name o s e = record {
  counted = refl;
  confirmed = λ q. absurd (cc);
  uncredited = λ q. refl;
  no_jump = λ q z k. absurd (cc);
}

-- Whatever was seen before.
state_after-Steady :
    (name : Bytes) (x : Sighting) (history : List Sighting)
    → Steady x.seen.status (state_after name history) (state_after name (x ∷ history))
unfolding state_after observe
state_after-Steady name x history =
    observe_as-Steady x.seen.status x.at name x.seen (state_after name history) refl

no_credit :
    (name : Bytes) (history : List Sighting)
    → shown (state_after name history) ≡ unhealthy
    → (state_after name history).consecutive_successes ≡ 0
unfolding state_after zero_state
no_credit name [] q = refl
no_credit name (x ∷ history) q = (state_after-Steady name x history).uncredited q

-- What is shown after one more sighting.
pub record Confirmed (name : Bytes) (x : Sighting) (history : List Sighting) : Type 0 where
  pub failures_counted :
      (state_after name (x ∷ history)).status.consecutive_failures ≡ troubles (x ∷ history)
  pub trouble_confirmed :
      (shown (state_after name (x ∷ history)) ≢ unhealthy)
      ⊎ ((x.seen.status ≡ unhealthy) × (2 ≤ troubles (x ∷ history)))
  pub recovery_confirmed : ¬ (
      (shown (state_after name history) ≡ unhealthy)
      × (shown (state_after name (x ∷ history)) ≡ healthy))

is_unhealthy→eq : (h : HealthStatus) → is_unhealthy h ≡ true → h ≡ unhealthy
is_unhealthy→eq unhealthy e = refl
is_unhealthy→eq unknown e = absurd (ground arith)
is_unhealthy→eq healthy e = absurd (ground arith)
is_unhealthy→eq degraded e = absurd (ground arith)
is_unhealthy→eq disabled e = absurd (ground arith)
is_unhealthy→eq (other t) e = absurd (ground arith)

counted_lem :
    (name : Bytes) (history : List Sighting)
    → (state_after name history).status.consecutive_failures ≡ troubles history
unfolding state_after zero_state troubles
counted_lem name [] = refl
counted_lem name (x ∷ history) =
    (state_after-Steady name x history).counted
    ∙ ap (troubles_with x.seen.status) (counted_lem name history)

-- After any history of sightings, the failures of a dependency are the sightings of trouble since it
-- was last healthy or disabled; it is shown as unhealthy only if it was seen so and this is at least
-- the second such sighting; and one that is shown as unhealthy is not shown as healthy next.
pub state_after-Confirmed :
    (name : Bytes) (x : Sighting) (history : List Sighting) → Confirmed name x history
state_after-Confirmed name x history = record {
  failures_counted = counted_lem name (x ∷ history);
  trouble_confirmed = elim (Bool-cases (is_unhealthy (shown (state_after name (x ∷ history))))) [
    | inl e ↦
        let (was, twice) = (state_after-Steady name x history).confirmed (is_unhealthy→eq _ e) in
        inr (was, subst (λ n. 2 ≤ n) (counted_lem name (x ∷ history)) twice)
    | inr e ↦ inl (λ q. ground (arith, ap is_unhealthy q))
  ];
  recovery_confirmed =
      λ q. (state_after-Steady name x history).no_jump q.0 (no_credit name history q.0) q.1;
}

-- The dependency is shown with the status, and has no failures if this is healthy or disabled.
abbrev pub Settled : HealthStatus → DependencyState → Type 0
Settled healthy s = (shown s ≡ healthy) × (s.status.consecutive_failures ≡ 0)
Settled disabled s = (shown s ≡ disabled) × (s.status.consecutive_failures ≡ 0)
Settled h s = shown s ≡ h

settled_lem :
    (h : HealthStatus) (later now : ℕ) (name : Bytes) (p o : DependencyObservation)
    (s : DependencyState)
    → p.status ≡ h
    → o.status ≡ h
    → Settled h (observe_as h later name p (observe_as h now name o s))
settled_lem healthy later now name p o s e f = (
  credited (is_unhealthy (shown (observe_as healthy now name o s))) s.consecutive_successes,
  refl,
)
  where
    credited :
        (b : Bool) (n : ℕ)
        → (if b && ltb (n + 1 + 1) recovery_threshold then recovering p else p).status ≡ healthy
    credited b n = ground (arith, e)
settled_lem unhealthy later now name p o s e f = persistent s.status.consecutive_failures
  where
    persistent :
        (n : ℕ) → (if ltb (n + 1 + 1) failure_threshold then weakened p else p).status ≡ unhealthy
    persistent n = ground (arith, e)
settled_lem degraded later now name p o s e f = e
settled_lem disabled later now name p o s e f = (e, refl)
settled_lem unknown later now name p o s e f = e
settled_lem (other t) later now name p o s e f = e

-- Two sightings with one status in a row are shown, whatever was seen before and whatever the status
-- is; after two healthy or two disabled ones the dependency has no failures.
pub state_after-Settled :
    (name : Bytes) (x y : Sighting) (history : List Sighting)
    → x.seen.status ≡ y.seen.status
    → let s = state_after name (x ∷ y ∷ history) in Settled y.seen.status s
unfolding state_after observe
state_after-Settled name x y history same =
    subst
      (λ h.
        let s =
          observe_as h x.at name x.seen (observe y.at name y.seen (state_after name history)) in
        Settled y.seen.status s)
      (sym same)
      (settled_lem y.seen.status x.at y.at name x.seen y.seen (state_after name history) same refl)
