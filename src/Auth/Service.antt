-- ===== src/Auth/Service.antt =====
-- service.go: the accounts of operators and their logins. The keyed hash is a library's.
pub mod Login
use egress_manager.Base.{
  ℕ, zero, suc, ◌+◌, ◌-◌, ◌*◌, ◌/◌, Bool, true, false, ◌&&◌, ◌||◌, not, Option, none, some, List,
  [], ◌∷◌, ◌++◌, ltb, leb, ◌==◌, if◌then◌else◌, Bytes, lit, all, length, has_prefix, trim_space,
}
use egress_manager.Net.{Addr, is_valid}
use egress_manager.Inventory.{AddrText}
use egress_manager.Inventory.Conflict.{to_lower_byte}
use egress_manager.Domain.Identifier.{matches_id, id_head, id_rest}
use egress_manager.Effect.{Result, ok, err, Step}
use egress_manager.Database.{StoreError, not_found, second}
use egress_manager.Database.Accounts.{
  Admin, Accounts, create_admin, admin_by_username, record_login_attempt, count_recent_failures,
}
use egress_manager.Auth.Password.{
  Primitives, PasswordError, Argon2Params, hash_password, verify_password,
}
use egress_manager.Auth.Session.{
  Secrecy, AuthError, invalid_credentials, login_throttled, store_failed, bad_username,
  bad_admin_id, bad_password, World, SessionTokens, with_accounts, create_tokens,
}

pub record ThrottlePolicy : Type 0 where
  pub window : ℕ
  pub max_failures : ℕ

unfoldable pub default_policy : ThrottlePolicy
default_policy = record { window = 15 * 60 * second; max_failures = 5 }

-- `ThrottlePolicy.Validate`: whether its error is nil.
unfoldable pub policy_is_valid : ThrottlePolicy → Bool
policy_is_valid policy = not (
    ltb policy.window (60 * second)
    || ltb (24 * 60 * 60 * second) policy.window
    || ltb policy.max_failures 1
    || ltb 100 policy.max_failures)

-- `strings.ToLower`, as far as its result has ASCII letters: the Kelvin sign and the capital I with a
-- dot become such letters, and the other letters outside ASCII do not.
abbrev lowered_width : Bytes → ℕ
lowered_width cs =
    if has_prefix cs (0xc4 ∷ 0xb0 ∷ [])
    then 1
    else if has_prefix cs (0xe2 ∷ 0x84 ∷ 0xaa ∷ [])
    then 2
    else 0

abbrev lowered_letter : ℕ → ℕ → ℕ
lowered_letter width c = if width == 0 then to_lower_byte c else if width == 1 then b'i' else b'k'

-- The number counts the bytes that are still to be passed over.
lower_from : ℕ → Bytes → Bytes
lower_from skip [] = []
lower_from (suc skip) (c ∷ cs) = lower_from skip cs
lower_from zero (c ∷ cs) =
    let width = lowered_width (c ∷ cs) in lowered_letter width c ∷ lower_from width cs

-- ^[a-z0-9][a-z0-9_.-]{2,63}$
unfoldable pub matches_username : Bytes → Bool
matches_username [] = false
matches_username (c ∷ cs) =
    id_head c && all (λ d. id_rest d || d == b'.') cs && leb 2 (length cs) && leb (length cs) 63

-- `NormalizeUsername`: `none` is its error.
unfoldable pub normalize_username : Bytes → Option Bytes
unfolding lower_from
normalize_username username =
    let normalized = lower_from 0 (trim_space username) in
    if matches_username normalized then some normalized else none

-- What a service is made of: `NewService` fills the hash of a password that is never valid.
pub record Service : Type 0 where
  pub primitives : Primitives
  pub params : Argon2Params
  pub text : AddrText
  pub hmac : Bytes → Bytes → Bytes
  pub policy : ThrottlePolicy
  pub bucket_key : Bytes
  pub dummy_hash : Bytes
  pub lifetime : ℕ

abbrev pub name_or_dummy : Option Bytes → Bytes
name_or_dummy none = lit "invalid-user"
name_or_dummy (some name) = name

abbrev pub is_some : Option Bytes → Bool
is_some none = false
is_some (some name) = true

-- `loginBucket`
unfoldable pub login_bucket : Service → Bytes → Addr → Bytes
login_bucket service username client =
    service.hmac service.bucket_key (username ++ 0 ∷ service.text.addr_string client)

abbrev pub is_true : Result PasswordError Bool → Bool
is_true (ok b) = b
is_true (err e) = false

module _ {R : Type 0} (secrecy : Secrecy R) (fault : ℕ → Bool) (service : Service) where
  open service use {primitives, policy, dummy_hash, lifetime, params}

  -- The end of a login: the attempt was recorded or not.
  abbrev pub login_recorded :
      Option StoreError → Bool → Bytes → ℕ → Step (World R) AuthError SessionTokens
  login_recorded (some e) valid admin_id now w = (err store_failed, w)
  login_recorded none false admin_id now w = (err invalid_credentials, w)
  login_recorded none true admin_id now w = create_tokens secrecy fault lifetime admin_id now w

  -- The password was compared: `valid` says whether the account exists and the name is well formed.
  abbrev pub login_verified :
      Result PasswordError Bool → Bool → Bytes → Bytes → ℕ → Step (World R) AuthError SessionTokens
  login_verified (err e) known admin_id bucket now w = (err bad_password, w)
  login_verified (ok matches) known admin_id bucket now w =
      let valid = known && matches in
      let (failure, a) = record_login_attempt fault bucket valid now w.accounts in
      login_recorded failure valid admin_id now (with_accounts secrecy fault w a)

  -- The account was looked up. A name that has none is compared with the dummy hash.
  abbrev pub login_found :
      Result StoreError Admin → Bool → Bytes → Bytes → ℕ → Step (World R) AuthError SessionTokens
  login_found (ok admin) well_formed password bucket now w =
      login_verified (verify_password primitives admin.password_hash password) well_formed admin.id
        bucket now w
  login_found (err not_found) well_formed password bucket now w =
      login_verified (verify_password primitives dummy_hash password) false [] bucket now w
  login_found (err _) well_formed password bucket now w = (err store_failed, w)

  -- The recent failures were counted.
  abbrev pub login_counted :
      Result StoreError ℕ
      → Option Bytes
      → Bytes
      → Bytes
      → ℕ
      → Step (World R) AuthError SessionTokens
  login_counted (err e) name password bucket now w = (err store_failed, w)
  login_counted (ok failures) name password bucket now w =
      if leb policy.max_failures failures
      then (err login_throttled, w)
      else let (found, a) = admin_by_username fault (name_or_dummy name) w.accounts in
        login_found found (is_some name) password bucket now (with_accounts secrecy fault w a)

  -- `Login`
  unfoldable pub login : Bytes → Bytes → Addr → ℕ → Step (World R) AuthError SessionTokens
  login username password client now w =
      if not (is_valid client)
      then (err invalid_credentials, w)
      else let name = normalize_username username in
        let bucket = login_bucket service (name_or_dummy name) client in
        let (failures, a) = count_recent_failures fault bucket (now - policy.window) w.accounts in
        login_counted failures name password bucket now (with_accounts secrecy fault w a)

  abbrev pub created_result : Option StoreError → Result AuthError (Unit {0})
  created_result none = ok tt
  created_result (some e) = err store_failed

  abbrev pub provision_with :
      Result PasswordError Bytes → Bytes → Bytes → ℕ → Step (World R) AuthError (Unit {0})
  provision_with (err e) id name now w = (err bad_password, w)
  provision_with (ok hash) id name now w =
      let at = now / second * second in
      let (failure, a) =
        create_admin fault
          (record {
            id = id;
            username = name;
            password_hash = hash;
            created_at = at;
            updated_at = at;
          })
          w.accounts in
      (created_result failure, with_accounts secrecy fault w a)

  -- `ProvisionAdmin`; the source of salts fills the salt or fails.
  unfoldable pub provision_admin :
      Option (Option Bytes) → Bytes → Bytes → Bytes → ℕ → Step (World R) AuthError (Unit {0})
  provision_admin salts id username password now w =
      if not (matches_id id) then (err bad_admin_id, w) else elim (normalize_username username) [
        | none ↦ (err bad_username, w)
        | some name ↦ provision_with (hash_password primitives params salts password) id name now w
      ]
