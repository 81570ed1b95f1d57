-- ===== src/Auth/Session.antt =====
-- session.go: sessions of a logged-in operator. `R` is the state of the source of randomness; SHA-256
-- and base64 are libraries'.
pub mod Issued
pub mod Round
use egress_manager.Base.{
  ℕ, ◌+◌, ◌*◌, ◌≡◌, Bool, true, false, ◌||◌, not, Option, none, some, List, [], ltb, ◌==◌,
  if◌then◌else◌, Bytes, bytes_eq, length,
}
use egress_manager.Effect.{Result, ok, err, Step}
use egress_manager.Database.{StoreError, not_found, second}
use egress_manager.Database.Accounts.{
  Session, Accounts, create_session, active_session, revoke_session,
}

-- `sha256.Sum256`, and raw base64 for URLs, strict in decoding; `io.ReadFull` of 32 bytes of the
-- source, which fills them or fails.
pub record Secrecy (R : Type 0) : Type 0 where
  pub sha256 : Bytes → Bytes
  pub encode : Bytes → Bytes
  pub decode : Bytes → Option Bytes
  pub draw : R → Option Bytes × R
  pub length-sha256 : (text : Bytes) → length (sha256 text) ≡ 32
  pub decode-encode : (text : Bytes) → decode (encode text) ≡ some text
  pub length-draw : (r : R) (secret : Bytes) → (draw r).0 ≡ some secret → length secret ≡ 32

-- `store_failed` stands for the errors that wrap one of the database.
pub data AuthError : Type 0 where
  invalid_credentials login_throttled invalid_session invalid_csrf : AuthError
  no_randomness store_failed bad_username bad_admin_id bad_password : AuthError

-- What the operations work on.
pub record World (R : Type 0) : Type 0 where
  pub accounts : Accounts
  pub random : R

pub record SessionTokens : Type 0 where
  pub session_token : Bytes
  pub csrf_token : Bytes
  pub expires_at : ℕ

abbrev pub secret_bytes : ℕ
secret_bytes = 32

-- `NewSessionManager` accepts lifetimes from five minutes to seven days.
abbrev pub lifetime_is_valid : ℕ → Bool
lifetime_is_valid lifetime =
    not (ltb lifetime (5 * 60 * second) || ltb (7 * 24 * 60 * 60 * second) lifetime)

module _ {R : Type 0} (secrecy : Secrecy R) (fault : ℕ → Bool) where
  open secrecy use {sha256, encode, decode, draw}

  abbrev pub secret_pair : Option Bytes → Option (Bytes × Bytes)
  secret_pair none = none
  secret_pair (some secret) = some (encode secret, sha256 secret)

  -- `newSecret`: the encoded secret and its hash
  abbrev pub new_secret : R → Option (Bytes × Bytes) × R
  new_secret r = let (drawn, next) = draw r in (secret_pair drawn, next)

  abbrev pub hash_decoded : Option Bytes → Option Bytes
  hash_decoded none = none
  hash_decoded (some secret) = if length secret == secret_bytes then some (sha256 secret) else none

  -- `hashEncodedSecret`: `none` is its error.
  unfoldable pub hash_encoded : Bytes → Option Bytes
  hash_encoded encoded = hash_decoded (decode encoded)

  abbrev pub session_of : Bytes → Bytes → Bytes → ℕ → ℕ → Session
  session_of token_hash csrf_hash admin_id now expires = record {
    token_hash = token_hash;
    admin_id = admin_id;
    csrf_hash = csrf_hash;
    created_at = now;
    expires_at = expires;
    last_seen_at = now;
    revoked_at = none;
  }

  abbrev pub with_accounts : World R → Accounts → World R
  with_accounts w a = record w { accounts = a }

  abbrev pub issued : Option StoreError → SessionTokens → Result AuthError SessionTokens
  issued none tokens = ok tokens
  issued (some e) tokens = err store_failed

  -- What follows the two secrets.
  abbrev pub persist :
      Bytes
      → ℕ
      → ℕ
      → Option (Bytes × Bytes)
      → Option (Bytes × Bytes)
      → Step (World R) AuthError SessionTokens
  persist admin_id now lifetime none csrf w = (err no_randomness, w)
  persist admin_id now lifetime (some token) none w = (err no_randomness, w)
  persist admin_id now lifetime (some (token, token_hash)) (some (csrf, csrf_hash)) w =
      let expires = now + lifetime in
      let (failure, a) =
        create_session fault (session_of token_hash csrf_hash admin_id now expires) w.accounts in
      (
        issued failure (record { session_token = token; csrf_token = csrf; expires_at = expires }),
        with_accounts w a,
      )

  -- The second secret is drawn only if the first one was.
  abbrev pub second_secret : Option (Bytes × Bytes) → R → Option (Bytes × Bytes) × R
  second_secret none r = (none, r)
  second_secret (some token) r = new_secret r

  -- `SessionManager.Create`
  unfoldable pub create_tokens : ℕ → Bytes → ℕ → Step (World R) AuthError SessionTokens
  create_tokens lifetime admin_id now w =
      let (token, r1) = new_secret w.random in
      let (csrf, r2) = second_secret token r1 in
      persist admin_id now lifetime token csrf (record w { random = r2 })

  abbrev pub read_session : Result StoreError Session → Result AuthError Session
  read_session (ok session) = ok session
  read_session (err not_found) = err invalid_session
  read_session (err _) = err store_failed

  abbrev pub revoked_result : Option StoreError → Result AuthError (Unit {0})
  revoked_result none = ok tt
  revoked_result (some not_found) = err invalid_session
  revoked_result (some _) = err store_failed

  abbrev pub authenticate_hash : Option Bytes → ℕ → Step (World R) AuthError Session
  authenticate_hash none now w = (err invalid_session, w)
  authenticate_hash (some hash) now w =
      let (found, a) = active_session fault hash now w.accounts in
      (read_session found, with_accounts w a)

  -- `Authenticate`
  unfoldable pub authenticate : Bytes → ℕ → Step (World R) AuthError Session
  authenticate encoded now w = authenticate_hash (hash_encoded encoded) now w

  abbrev pub verify_csrf_hash : Session → Option Bytes → Result AuthError (Unit {0})
  verify_csrf_hash session none = err invalid_csrf
  verify_csrf_hash session (some hash) =
      if bytes_eq hash session.csrf_hash then ok tt else err invalid_csrf

  -- `VerifyCSRF`
  unfoldable pub verify_csrf : Session → Bytes → Result AuthError (Unit {0})
  verify_csrf session encoded = verify_csrf_hash session (hash_encoded encoded)

  abbrev pub revoke_hash : Option Bytes → ℕ → Step (World R) AuthError (Unit {0})
  revoke_hash none now w = (err invalid_session, w)
  revoke_hash (some hash) now w =
      let (failure, a) = revoke_session fault hash now w.accounts in
      (revoked_result failure, with_accounts w a)

  -- `Revoke`
  unfoldable pub revoke : Bytes → ℕ → Step (World R) AuthError (Unit {0})
  revoke encoded now w = revoke_hash (hash_encoded encoded) now w
