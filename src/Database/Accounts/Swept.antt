-- ===== src/Database/Accounts/Swept.antt =====
-- What the clean-ups of store.go keep: the sessions that are active, and the failures that count.
use egress_manager.Base.{
  if_rule, ℕ, zero, suc, ◌+◌, ◌-◌, ◌/◌, ◌≤◌, ◌<◌, ==→eq, ◌≡◌, refl, sym, ◌∙◌, ap, Bool, true, false,
  ◌||◌, not, Option, none, some, List, [], ◌∷◌, map, ltb, leb, ◌==◌, Bytes, bytes_eq, bytes_eq→eq,
  bytes_eq_refl, select, take, sort_by, length, arith, All, All-imp, All-take, All-select,
  All-sort_by, select-All, Pairs-select,
}
use egress_manager.Effect.{Result, ok, err}
use egress_manager.Database.{StoreError, second}
use egress_manager.Database.Keyed.{
  is_among, IsDistinct, IsFound, IsDistinct-IsFound, without-spares, select-without,
}
use egress_manager.Database.Accounts.{
  Session, Attempt, Accounts, is_active, find_active, is_recent_failure,
}
use egress_manager.Database.Accounts.Sweep.{
  revocation, is_revoked, is_expired, revoked_sessions, expired_sessions, token_of,
  sessions_without, NumberedAttempt, id_of, attempt_of, numbered, is_old, old_attempts,
  attempts_without, commit, sweep_expired, delete_expired_sessions, delete_login_attempts,
}

-- The rows that a sub-query takes are rows with its property.
taken :
    {A : Type 0} (P : A → Type 0) (less : A → A → Bool) (p : A → Bool) (limit : ℕ) (rows : List A)
    → All P rows
    → All P (take limit (sort_by less (select p rows)))
taken P less p limit rows h =
    All-take P limit (sort_by less (select p rows))
      (All-sort_by less P (select p rows) (All-select P p rows h))

taken-passed :
    {A : Type 0} (P : A → Type 0) (less : A → A → Bool) (p : A → Bool) (limit : ℕ) (rows : List A)
    → ((a : A) → p a ≡ true → P a)
    → All P (take limit (sort_by less (select p rows)))
taken-passed P less p limit rows f =
    All-take P limit (sort_by less (select p rows))
      (All-sort_by less P (select p rows) (All-imp (select p rows) f (select-All p rows)))

abbrev first_of : List Session → Option Session
first_of [] = none
first_of (s ∷ sessions) = some s

find_active-select :
    (hash : Bytes) (now : ℕ) (rows : List Session)
    → find_active hash now rows ≡ first_of (select (is_active hash now) rows)
unfolding find_active
find_active-select hash now [] = refl
find_active-select hash now (s ∷ rows) = ground (arith, find_active-select hash now rows)

abbrev pub HasTokens : List Session → Type 0
HasTokens = IsDistinct token_of bytes_eq

sessions_without-HasTokens :
    (doomed rows : List Session) → HasTokens rows → HasTokens (sessions_without doomed rows)
sessions_without-HasTokens doomed rows u =
    Pairs-select (λ r q. bytes_eq (token_of r) (token_of q) ≡ false)
      (λ r. not (is_among token_of bytes_eq doomed (token_of r))) rows u

module _ (hash : Bytes) (now later : ℕ) (rows : List Session) (u : HasTokens rows) where
  sessions_without-active :
      (doomed : List Session)
      → All (IsFound token_of bytes_eq rows) doomed
      → All (λ d. is_active hash later d ≡ false) doomed
      → find_active hash later (sessions_without doomed rows) ≡ find_active hash later rows
  sessions_without-active doomed found other =
      find_active-select hash later (sessions_without doomed rows)
      ∙ ap first_of (
          select-without token_of bytes_eq (is_active hash later) doomed rows (
            without-spares token_of bytes_eq bytes_eq→eq bytes_eq_refl (is_active hash later) doomed
              rows u found other))
      ∙ sym (find_active-select hash later rows)

  rows-IsFound : All (IsFound token_of bytes_eq rows) rows
  rows-IsFound = IsDistinct-IsFound token_of bytes_eq bytes_eq→eq bytes_eq_refl rows u

  revoked_sessions-active :
      (limit : ℕ)
      → find_active hash later (sessions_without (revoked_sessions limit rows) rows)
        ≡ find_active hash later rows
  unfolding revoked_sessions
  revoked_sessions-active limit =
      sessions_without-active _ (taken _ _ is_revoked limit rows rows-IsFound)
        (taken-passed _ _ is_revoked limit rows (λ s h. ground (arith, h)))

  expired_sessions-active :
      (limit : ℕ)
      → leb now later ≡ true
      → find_active hash later (sessions_without (expired_sessions now limit rows) rows)
        ≡ find_active hash later rows
  unfolding expired_sessions
  expired_sessions-active limit le =
      sessions_without-active _ (taken _ _ (is_expired now) limit rows rows-IsFound)
        (taken-passed _ _ (is_expired now) limit rows (λ s h. ground (arith, h, le)))

take-shorter : {A : Type 0} (n : ℕ) (xs : List A) → length (take n xs) ≤ n
take-shorter zero xs = omega arith
take-shorter (suc n) [] = omega arith
take-shorter (suc n) (x ∷ xs) = ground (arith, take-shorter n xs)

-- No more rows than the limit are deleted.
abbrev pub IsWithin : ℕ → Result StoreError ℕ → Type 0
IsWithin limit (ok n) = n ≤ limit
IsWithin limit (err x) = Unit

module _ (fault : ℕ → Bool) (hash : Bytes) (now later limit : ℕ) (a : Accounts)
    (u : HasTokens a.sessions) (le : leb (now / second) later ≡ true) where
  pub record Kept (r : Result StoreError ℕ × Accounts) : Type 0 where
    pub active : find_active hash later r.1.sessions ≡ find_active hash later a.sessions
    pub tokens : HasTokens r.1.sessions
    pub within : IsWithin limit r.0

  unchanged : {x : StoreError} {n : ℕ} → Kept (err x, record a { statements = n })
  unchanged = record { active = refl; tokens = u; within = tt }

  commit-Kept :
      (n : ℕ) (swept : Accounts)
      → n ≤ limit
      → find_active hash later swept.sessions ≡ find_active hash later a.sessions
      → HasTokens swept.sessions
      → Kept (commit fault n a swept)
  unfolding commit
  commit-Kept n swept h same v =
      if_rule Kept (fault swept.statements) unchanged
        (record { active = same; tokens = v; within = h })

  sweep_expired-Kept :
      (n : ℕ) (swept : Accounts)
      → n ≤ limit
      → find_active hash later swept.sessions ≡ find_active hash later a.sessions
      → HasTokens swept.sessions
      → Kept (sweep_expired fault (now / second) limit n a swept)
  unfolding sweep_expired expired_sessions
  sweep_expired-Kept n swept h same v =
      if_rule Kept (not (ltb n limit)) (commit-Kept n swept h same v) (
        if_rule Kept (fault swept.statements) unchanged (
          commit-Kept _ _ within
            (expired_sessions-active hash (now / second) later swept.sessions v (limit - n) le
              ∙ same)
            (sessions_without-HasTokens _ swept.sessions v)))
    where
      within : n + length (expired_sessions (now / second) (limit - n) swept.sessions) ≤ limit
      within = omega (
        arith,
        h,
        take-shorter (limit - n) (
            sort_by (λ s q. ltb s.expires_at q.expires_at)
              (select (is_expired (now / second)) swept.sessions)),
      )

  -- The clean-up of sessions, whatever statement is refused, at a time that is not after `later`: the
  -- session that a token's hash finds active at `later` is the same as before, the hashes stay
  -- distinct, and no more rows are deleted than the limit says.
  pub delete_expired_sessions-Kept : Kept (delete_expired_sessions fault now limit a)
  unfolding delete_expired_sessions revoked_sessions
  delete_expired_sessions-Kept =
      let doomed = revoked_sessions limit a.sessions in
      if_rule Kept (ltb limit 1 || ltb 10000 limit) unchanged (
        if_rule Kept (fault a.statements) unchanged (
          if_rule Kept (fault (a.statements + 1)) unchanged (
            sweep_expired-Kept (length doomed) _ within
              (revoked_sessions-active hash (now / second) later a.sessions u limit)
              (sessions_without-HasTokens doomed a.sessions u))))
    where
      within : length (revoked_sessions limit a.sessions) ≤ limit
      within =
          take-shorter limit
            (sort_by (λ s q. ltb (revocation s) (revocation q)) (select is_revoked a.sessions))

numbered-after :
    (n k : ℕ) (xs : List Attempt) → n < k → All (λ q. (n == id_of q) ≡ false) (numbered k xs)
unfolding numbered
numbered-after n k [] h = tt
numbered-after n k (x ∷ xs) h = (ground (arith, h), numbered-after n (k + 1) xs (omega (arith, h)))

numbered-IsDistinct : (n : ℕ) (xs : List Attempt) → IsDistinct id_of (λ k j. k == j) (numbered n xs)
unfolding numbered
numbered-IsDistinct n [] = tt
numbered-IsDistinct n (x ∷ xs) =
    (numbered-after n (n + 1) xs (omega arith), numbered-IsDistinct (n + 1) xs)

map-numbered : (n : ℕ) (xs : List Attempt) → map attempt_of (numbered n xs) ≡ xs
unfolding numbered
map-numbered n [] = refl
map-numbered n (x ∷ xs) = ap (λ ys. x ∷ ys) (map-numbered (n + 1) xs)

select-map :
    (p : Attempt → Bool) (rows : List NumberedAttempt)
    → select p (map attempt_of rows) ≡ map attempt_of (select (λ r. p (attempt_of r)) rows)
select-map p [] = refl
select-map p (r ∷ rows) = ground (arith, select-map p rows)

-- The clean-up of the attempts to log in up to a time keeps every failure that is counted from that
-- time on or later: it never resets the throttle of a client.
pub delete_login_attempts-recent :
    (fault : ℕ → Bool) (before limit since : ℕ) (bucket : Bytes) (a : Accounts)
    → leb (before / second) since ≡ true
    → select
        (is_recent_failure bucket since)
        (delete_login_attempts fault before limit a).1.attempts
      ≡ select (is_recent_failure bucket since) a.attempts
unfolding delete_login_attempts old_attempts
delete_login_attempts-recent fault before limit since bucket a le =
    if_rule Same (ltb limit 1 || ltb 100000 limit) refl (
      if_rule Same (fault a.statements) refl (
        select-map recent (attempts_without doomed rows)
        ∙ ap (map attempt_of) (select-without id_of same recent_row doomed rows spared)
        ∙ sym (select-map recent rows)
        ∙ ap (select recent) (map-numbered 0 a.attempts)))
  where
    recent : Attempt → Bool
    recent = is_recent_failure bucket since

    recent_row : NumberedAttempt → Bool
    recent_row r = recent (attempt_of r)

    same : ℕ → ℕ → Bool
    same k j = k == j

    Same : Result StoreError ℕ × Accounts → Type 0
    Same r = select recent r.1.attempts ≡ select recent a.attempts

    rows : List NumberedAttempt
    rows = numbered 0 a.attempts

    doomed : List NumberedAttempt
    doomed = old_attempts (before / second) limit rows

    spared : All (λ r. recent_row r ≡ true → is_among id_of same doomed (id_of r) ≡ false) rows
    spared =
        without-spares id_of same ==→eq (λ k. ground arith) recent_row doomed rows
          (numbered-IsDistinct 0 a.attempts)
          (taken _ _ (is_old (before / second)) limit rows (
            IsDistinct-IsFound id_of same ==→eq (λ k. ground arith) rows
              (numbered-IsDistinct 0 a.attempts)))
          (taken-passed _ _ (is_old (before / second)) limit rows (λ r h. ground (arith, h, le)))
