-- ===== src/Scenarios/Sweeping.antt =====
-- Accounts with a revoked, an expired and an active session and with failures to log in, which the
-- clean-ups of store.go go over.
use egress_manager.Base.{
  ℕ, ◌*◌, ◌≡◌, refl, false, select, Option, none, some, [], ◌∷◌, sort_by, insert_by,
}
use egress_manager.Database.{second}
use egress_manager.Database.Accounts.{Session, Attempt, Accounts, is_recent_failure}
use egress_manager.Database.Accounts.Sweep.{
  revoked_sessions, expired_sessions, numbered, old_attempts, commit, sweep_expired,
  delete_expired_sessions, delete_login_attempts,
}
use egress_manager.Database.Accounts.Swept as Swept
use egress_manager.Scenarios.{no_fault}

abbrev session : ℕ → ℕ → Option ℕ → Session
session token expiry revoked_at = record {
  token_hash = token ∷ [];
  admin_id = [];
  csrf_hash = [];
  created_at = 1;
  expires_at = expiry;
  last_seen_at = 1;
  revoked_at = revoked_at;
}

abbrev attempt : ℕ → Attempt
attempt at = record { bucket_hash = []; succeeded = false; attempted_at = at }

abbrev active : Session
active = session 1 900 none

abbrev accounts : Accounts
accounts = record {
  admins = [];
  sessions = session 3 800 (some 50) ∷ active ∷ session 2 100 none ∷ session 4 90 none ∷ [];
  attempts = attempt 300 ∷ attempt 20 ∷ attempt 10 ∷ [];
  settings = [];
  statements = 0;
}

distinct : Swept.HasTokens accounts.sessions
distinct = ((refl, (refl, (refl, tt))), ((refl, (refl, tt)), ((refl, tt), (tt, tt))))

delete_expired_sessions-Kept_example :
    Swept.Kept no_fault
      (1 ∷ [])
      (200 * second)
      250
      2
      accounts
      distinct
      refl
      (delete_expired_sessions no_fault (200 * second) 2 accounts)
delete_expired_sessions-Kept_example =
    Swept.delete_expired_sessions-Kept no_fault (1 ∷ []) (200 * second) 250 2 accounts distinct refl

delete_login_attempts-recent_example :
    select
      (is_recent_failure [] 250)
      (delete_login_attempts no_fault (200 * second) 1 accounts).1.attempts
    ≡ select (is_recent_failure [] 250) accounts.attempts
delete_login_attempts-recent_example =
    Swept.delete_login_attempts-recent no_fault (200 * second) 1 250 [] accounts refl

-- With room for two, the revoked session and the one that expired first go.
swept :
    (delete_expired_sessions no_fault (200 * second) 2 accounts).1.sessions
    ≡ (active ∷ session 2 100 none ∷ [])
unfolding delete_expired_sessions sweep_expired commit revoked_sessions expired_sessions sort_by
    insert_by
swept = refl

-- With room for one, the oldest attempt goes.
forgotten :
    (delete_login_attempts no_fault (200 * second) 1 accounts).1.attempts
    ≡ (attempt 300 ∷ attempt 20 ∷ [])
unfolding delete_login_attempts old_attempts numbered sort_by insert_by
forgotten = refl
