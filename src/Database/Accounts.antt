-- ===== src/Database/Accounts.antt =====
-- database/store.go: the tables of the accounts, of their sessions, of the attempts to log in and of
-- the settings. As in Database, `fault n` refuses the statement numbered `n`, a table's rows stand in
-- the order of their insertion, and a time, in nanoseconds, is stored as seconds. The constraints are
-- those of migrations/0001_foundation.sql, foreign keys included.
pub mod Sweep
pub mod Swept
use egress_manager.Base.{
  ℕ, ◌+◌, ◌*◌, ◌/◌, Bool, true, false, ◌&&◌, ◌||◌, not, Option, none, some, List, [], ◌∷◌, ◌++◌,
  ltb, leb, ◌==◌, if◌then◌else◌, Bytes, bytes_eq, any, select, length,
}
use egress_manager.Inventory.Conflict.{to_lower}
use egress_manager.Effect.{Result, ok, err}
use egress_manager.Database.{StoreError, conflict, statement_failed, not_found, second}

pub record Admin : Type 0 where
  pub id : Bytes
  pub username : Bytes
  pub password_hash : Bytes
  pub created_at : ℕ
  pub updated_at : ℕ

pub record Session : Type 0 where
  pub token_hash : Bytes
  pub admin_id : Bytes
  pub csrf_hash : Bytes
  pub created_at : ℕ
  pub expires_at : ℕ
  pub last_seen_at : ℕ
  pub revoked_at : Option ℕ

pub record Attempt : Type 0 where
  pub bucket_hash : Bytes
  pub succeeded : Bool
  pub attempted_at : ℕ

pub record Setting : Type 0 where
  pub key : Bytes
  pub value : Bytes
  pub updated_at : ℕ

-- The times of the rows are in seconds.
pub record Accounts : Type 0 where
  pub admins : List Admin
  pub sessions : List Session
  pub attempts : List Attempt
  pub settings : List Setting
  pub statements : ℕ

abbrev pub counted : Accounts → Accounts
counted a = record a { statements = a.statements + 1 }

-- COLLATE NOCASE folds the ASCII letters.
abbrev pub same_name : Bytes → Bytes → Bool
same_name name other = bytes_eq (to_lower name) (to_lower other)

abbrev pub is_named : Bytes → Admin → Bool
is_named username admin = same_name admin.username username

abbrev pub has_token : Bytes → Session → Bool
has_token hash session = bytes_eq session.token_hash hash

abbrev stored_admin : Admin → Admin
stored_admin admin = record admin {
  created_at = admin.created_at / second;
  updated_at = admin.updated_at / second;
}

abbrev loaded_admin : Admin → Admin
loaded_admin row = record row {
  created_at = row.created_at * second;
  updated_at = row.updated_at * second;
}

abbrev pub stored_session : Session → Session
stored_session s = record s {
  created_at = s.created_at / second;
  expires_at = s.expires_at / second;
  last_seen_at = s.last_seen_at / second;
  revoked_at = none;
}

abbrev pub loaded_session : Session → Session
loaded_session row = record row {
  created_at = row.created_at * second;
  expires_at = row.expires_at * second;
  last_seen_at = row.last_seen_at * second;
  revoked_at = none;
}

abbrev admin_fits : Admin → List Admin → Bool
admin_fits admin admins =
    leb 3 (length admin.username)
    && leb (length admin.username) 64
    && not (any (λ a. bytes_eq a.id admin.id) admins)
    && not (any (is_named admin.username) admins)

-- A stored session keeps the constraints of its table.
abbrev pub session_fits : Session → Accounts → Bool
session_fits row a =
    length row.token_hash == 32
    && length row.csrf_hash == 32
    && ltb row.created_at row.expires_at
    && leb row.created_at row.last_seen_at
    && not (any (has_token row.token_hash) a.sessions)
    && any (λ admin. bytes_eq admin.id row.admin_id) a.admins

unfoldable pub find_admin : Bytes → List Admin → Option Admin
find_admin username [] = none
find_admin username (a ∷ admins) =
    let rest = find_admin username admins in if is_named username a then some a else rest

-- `revoked_at IS NULL`
abbrev pub is_unrevoked : Session → Bool
is_unrevoked s = elim s.revoked_at [ none ↦ true | some at ↦ false ]

abbrev pub is_active : Bytes → ℕ → Session → Bool
is_active hash now s = has_token hash s && is_unrevoked s && ltb now s.expires_at

unfoldable pub find_active : Bytes → ℕ → List Session → Option Session
find_active hash now [] = none
find_active hash now (s ∷ sessions) =
    let rest = find_active hash now sessions in if is_active hash now s then some s else rest

-- The scanned row, whose hashes are of the right length.
abbrev pub scan_session : Option Session → Result StoreError Session
scan_session none = err not_found
scan_session (some row) =
    if not (length row.token_hash == 32) || not (length row.csrf_hash == 32)
    then err statement_failed
    else ok (loaded_session row)

-- The rows after the update of `RevokeSession`.
unfoldable pub revoked_rows : Bytes → ℕ → List Session → List Session
revoked_rows hash now [] = []
revoked_rows hash now (s ∷ sessions) =
    let rest = revoked_rows hash now sessions in
    (if has_token hash s && is_unrevoked s then record s { revoked_at = some now } else s) ∷ rest

-- A failed attempt of a bucket at the second `since` or later
abbrev pub is_recent_failure : Bytes → ℕ → Attempt → Bool
is_recent_failure bucket since x =
    bytes_eq x.bucket_hash bucket && not x.succeeded && leb since x.attempted_at

unfoldable pub put_row : Setting → List Setting → List Setting
put_row s [] = s ∷ []
put_row s (row ∷ rows) =
    let rest = put_row s rows in if bytes_eq row.key s.key then s ∷ rows else row ∷ rest

unfoldable pub find_setting : Bytes → List Setting → Option Bytes
find_setting key [] = none
find_setting key (row ∷ rows) =
    let rest = find_setting key rows in if bytes_eq row.key key then some row.value else rest

module _ (fault : ℕ → Bool) where
  -- `CreateAdmin`: `none` is the nil error.
  unfoldable pub create_admin : Admin → Accounts → Option StoreError × Accounts
  create_admin admin a =
      if fault a.statements
      then (some statement_failed, counted a)
      else if admin_fits admin a.admins
      then (none, record (counted a) { admins = a.admins ++ stored_admin admin ∷ [] })
      else (some conflict, counted a)

  -- `AdminByUsername`
  unfoldable pub admin_by_username : Bytes → Accounts → Result StoreError Admin × Accounts
  admin_by_username username a = if fault a.statements then (err statement_failed, counted a) else (
    elim (find_admin username a.admins) [ none ↦ err not_found | some row ↦ ok (loaded_admin row) ],
    counted a,
  )

  -- `CreateSession`
  unfoldable pub create_session : Session → Accounts → Option StoreError × Accounts
  create_session session a =
      let row = stored_session session in
      if fault a.statements
      then (some statement_failed, counted a)
      else if session_fits row a
      then (none, record (counted a) { sessions = a.sessions ++ row ∷ [] })
      else (some conflict, counted a)

  -- `ActiveSession`
  unfoldable pub active_session : Bytes → ℕ → Accounts → Result StoreError Session × Accounts
  active_session hash now a =
      if fault a.statements
      then (err statement_failed, counted a)
      else (scan_session (find_active hash (now / second) a.sessions), counted a)

  -- `RevokeSession`
  unfoldable pub revoke_session : Bytes → ℕ → Accounts → Option StoreError × Accounts
  revoke_session hash now a = if fault a.statements then (some statement_failed, counted a) else (
    (if any (λ s. has_token hash s && is_unrevoked s) a.sessions then none else some not_found),
    record (counted a) { sessions = revoked_rows hash (now / second) a.sessions },
  )

  -- `RecordLoginAttempt`
  unfoldable pub record_login_attempt : Bytes → Bool → ℕ → Accounts → Option StoreError × Accounts
  record_login_attempt bucket succeeded at a =
      let row : Attempt = record {
        bucket_hash = bucket;
        succeeded = succeeded;
        attempted_at = at / second;
      } in
      if fault a.statements
      then (some statement_failed, counted a)
      else if length bucket == 32
      then (none, record (counted a) { attempts = a.attempts ++ row ∷ [] })
      else (some conflict, counted a)

  -- `CountRecentFailedAttempts`
  unfoldable pub count_recent_failures : Bytes → ℕ → Accounts → Result StoreError ℕ × Accounts
  count_recent_failures bucket since a =
      if fault a.statements
      then (err statement_failed, counted a)
      else (ok (length (select (is_recent_failure bucket (since / second)) a.attempts)), counted a)

  -- `PutSetting`
  unfoldable pub put_setting : Bytes → Bytes → ℕ → Accounts → Option StoreError × Accounts
  put_setting key value at a = if fault a.statements then (some statement_failed, counted a) else (
    none,
    record (counted a) {
      settings = put_row (record { key = key; value = value; updated_at = at / second }) a.settings;
    },
  )

  -- `Setting`
  unfoldable pub setting : Bytes → Accounts → Result StoreError Bytes × Accounts
  setting key a = if fault a.statements then (err statement_failed, counted a) else (
    elim (find_setting key a.settings) [ none ↦ err not_found | some value ↦ ok value ],
    counted a,
  )
