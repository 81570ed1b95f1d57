-- ===== src/Database/Accounts/Sweep.antt =====
-- store.go: the clean-ups of the sessions and of the attempts to log in. Where SQL leaves the order of
-- rows with equal times open, they are taken in the order of their insertion.
use egress_manager.Base.{
  ℕ, ◌+◌, ◌-◌, ◌/◌, Bool, ◌&&◌, ◌||◌, not, none, some, List, [], ◌∷◌, map, ltb, leb, ◌==◌,
  if◌then◌else◌, Bytes, bytes_eq, select, take, sort_by, length,
}
use egress_manager.Effect.{Result, ok, err}
use egress_manager.Database.{StoreError, statement_failed, out_of_limits, second}
use egress_manager.Database.Keyed.{without}
use egress_manager.Database.Accounts.{Session, Attempt, Accounts, counted, is_unrevoked}

abbrev pub revocation : Session → ℕ
revocation s = elim s.revoked_at [ none ↦ 0 | some at ↦ at ]

abbrev pub is_revoked : Session → Bool
is_revoked s = not (is_unrevoked s)

-- `revoked_at IS NULL AND expires_at <= ?`
abbrev pub is_expired : ℕ → Session → Bool
is_expired now s = is_unrevoked s && leb s.expires_at now

-- The rows of the two sub-queries
unfoldable pub revoked_sessions : ℕ → List Session → List Session
revoked_sessions limit rows =
    take limit (sort_by (λ s q. ltb (revocation s) (revocation q)) (select is_revoked rows))

unfoldable pub expired_sessions : ℕ → ℕ → List Session → List Session
expired_sessions now limit rows =
    take limit (sort_by (λ s q. ltb s.expires_at q.expires_at) (select (is_expired now) rows))

abbrev pub token_of : Session → Bytes
token_of s = s.token_hash

-- `DELETE FROM sessions`
abbrev pub sessions_without : List Session → List Session → List Session
sessions_without doomed rows = without token_of bytes_eq doomed rows

-- An attempt with its `id`: the ids ascend in the order of insertion, and only their order and
-- their being distinct count.
abbrev pub NumberedAttempt : Type 0
NumberedAttempt = ℕ × Attempt

abbrev pub id_of : NumberedAttempt → ℕ
id_of r = r.0

abbrev pub attempt_of : NumberedAttempt → Attempt
attempt_of r = r.1

unfoldable pub numbered : ℕ → List Attempt → List NumberedAttempt
numbered n [] = []
numbered n (x ∷ attempts) = (n, x) ∷ numbered (n + 1) attempts

abbrev pub is_old : ℕ → NumberedAttempt → Bool
is_old before r = ltb (attempt_of r).attempted_at before

unfoldable pub old_attempts : ℕ → ℕ → List NumberedAttempt → List NumberedAttempt
old_attempts before limit rows = take limit (
    sort_by (λ r q. ltb (attempt_of r).attempted_at (attempt_of q).attempted_at)
      (select (is_old before) rows))

abbrev pub attempts_without : List NumberedAttempt → List NumberedAttempt → List NumberedAttempt
attempts_without doomed rows = without id_of (λ n m. n == m) doomed rows

module _ (fault : ℕ → Bool) where
  -- The end of the transaction: a refused `Commit` leaves the tables of `a` as they were.
  unfoldable pub commit : ℕ → Accounts → Accounts → Result StoreError ℕ × Accounts
  commit n a swept =
      if fault swept.statements
      then (err statement_failed, record a { statements = swept.statements + 1 })
      else (ok n, counted swept)

  -- The second half, behind `n` rows that the first one has deleted.
  unfoldable pub sweep_expired : ℕ → ℕ → ℕ → Accounts → Accounts → Result StoreError ℕ × Accounts
  sweep_expired now limit n a swept =
      let doomed = expired_sessions now (limit - n) swept.sessions in
      let rest =
        commit (n + length doomed) a
          (record (counted swept) { sessions = sessions_without doomed swept.sessions }) in
      let end = commit n a swept in
      if not (ltb n limit)
      then end
      else if fault swept.statements
      then (err statement_failed, record a { statements = swept.statements + 1 })
      else rest

  -- `DeleteExpiredSessions`: the number of deleted rows, or an error.
  unfoldable pub delete_expired_sessions : ℕ → ℕ → Accounts → Result StoreError ℕ × Accounts
  delete_expired_sessions now limit a =
      let begun = counted a in
      let doomed = revoked_sessions limit a.sessions in
      let swept = record (counted begun) { sessions = sessions_without doomed a.sessions } in
      if ltb limit 1 || ltb 10000 limit
      then (err out_of_limits, a)
      else if fault a.statements
      then (err statement_failed, begun)
      else if fault begun.statements
      then (err statement_failed, counted begun)
      else sweep_expired (now / second) limit (length doomed) a swept

  -- `DeleteLoginAttemptsBefore`
  unfoldable pub delete_login_attempts : ℕ → ℕ → Accounts → Result StoreError ℕ × Accounts
  delete_login_attempts before limit a =
      let rows = numbered 0 a.attempts in
      let doomed = old_attempts (before / second) limit rows in
      if ltb limit 1 || ltb 100000 limit
      then (err out_of_limits, a)
      else if fault a.statements
      then (err statement_failed, counted a)
      else (
        ok (length doomed),
        record (counted a) { attempts = map attempt_of (attempts_without doomed rows) },
      )
