-- ===== src/Auth/Password.antt =====
-- password.go: Argon2id hashes of passwords. The hash function, base64 and the scanning of a format
-- are libraries'.
pub mod Round
use egress_manager.Base.{
  ℕ, ◌+◌, ◌*◌, ◌^◌, ◌%◌, ◌≡◌, ◌<◌, Bool, true, false, ◌&&◌, ◌||◌, not, Option, none, some, List, [],
  ◌∷◌, ◌++◌, ltb, ◌==◌, if◌then◌else◌, Bytes, lit, bytes_eq, any, length, join, split_on,
}
use egress_manager.Effect.{Result, ok, err}
use egress_manager.Nat.Render.{digits}

pub record Argon2Params : Type 0 where
  pub memory_kib : ℕ
  pub time : ℕ
  pub threads : ℕ
  pub salt_bytes : ℕ
  pub key_bytes : ℕ

unfoldable pub default_params : Argon2Params
default_params = record {
  memory_kib = 64 * 1024;
  time = 3;
  threads = 4;
  salt_bytes = 16;
  key_bytes = 32;
}

abbrev pub outside : ℕ → ℕ → ℕ → Bool
outside low high n = ltb n low || ltb high n

-- `Argon2Params.Validate`: whether its error is nil.
unfoldable pub params_are_valid : Argon2Params → Bool
params_are_valid p = not (
    outside 64 (2 ^ 20) p.memory_kib
    || outside 1 10 p.time
    || outside 1 16 p.threads
    || outside 16 64 p.salt_bytes
    || outside 16 64 p.key_bytes)

-- The decimal digits of a uint32.
abbrev pub decimal : ℕ → Bytes
decimal n = digits 10 n

-- "m=%d,t=%d,p=%d"
unfoldable pub cost_text : ℕ → ℕ → ℕ → Bytes
cost_text memory time threads =
    join (lit ",") (
      (lit "m=" ++ decimal memory)
      ∷ (lit "t=" ++ decimal time)
      ∷ (lit "p=" ++ decimal threads)
      ∷ [])

-- `argon2.IDKey` of a password, a salt, the time, the memory, the threads and a length; the raw
-- standard base64, strict in decoding; and `fmt.Sscanf` of the costs, which reads what is printed.
pub record Primitives : Type 0 where
  pub version : ℕ
  pub id_key : Bytes → Bytes → ℕ → ℕ → ℕ → ℕ → Bytes
  pub encode : Bytes → Bytes
  pub decode : Bytes → Option Bytes
  pub scan_costs : Bytes → Option (ℕ × ℕ × ℕ)
  pub length-id_key :
      (password salt : Bytes) (time memory threads size : ℕ)
      → length (id_key password salt time memory threads size) ≡ size
  pub decode-encode : (text : Bytes) → decode (encode text) ≡ some text
  pub encode-plain : (text : Bytes) → any (λ c. c == b'$') (encode text) ≡ false
  pub scan-cost_text :
      (memory time threads : ℕ)
      → memory < 2 ^ 32
      → time < 2 ^ 32
      → threads < 2 ^ 8
      → scan_costs (cost_text memory time threads) ≡ some (memory, time, threads)

pub data PasswordError : Type 0 where
  invalid_password invalid_params no_salt_source no_salt bad_hash : PasswordError

-- `validatePassword`
abbrev pub password_is_valid : Bytes → Bool
password_is_valid password = not (outside 12 1024 (length password))

module _ (primitives : Primitives) where
  open primitives use {version, id_key, encode, decode, scan_costs}

  abbrev pub version_text : Bytes
  version_text = lit "v=" ++ decimal version

  -- The text of `Sprintf`, as its parts between the dollar signs.
  abbrev pub hash_parts : Argon2Params → Bytes → Bytes → List Bytes
  hash_parts p salt digest =
      lit "argon2id"
      ∷ version_text
      ∷ cost_text p.memory_kib p.time p.threads
      ∷ encode salt
      ∷ encode digest
      ∷ []

  abbrev pub hash_text : Argon2Params → Bytes → Bytes → Bytes
  hash_text p salt digest = join (b'$' ∷ []) ([] ∷ hash_parts p salt digest)

  -- `Hash`: the source of salts, if there is one, fills the salt or fails.
  unfoldable pub hash_password :
      Argon2Params → Option (Option Bytes) → Bytes → Result PasswordError Bytes
  hash_password p source password =
      if not (password_is_valid password)
      then err invalid_password
      else if not (params_are_valid p)
      then err invalid_params
      else elim source [
        | none ↦ err no_salt_source
        | some drawn ↦ elim drawn [
          | none ↦ err no_salt
          | some salt ↦
              ok (hash_text p salt (id_key password salt p.time p.memory_kib p.threads p.key_bytes))
        ]
      ]

  pub record Parsed : Type 0 where
    pub params : Argon2Params
    pub salt : Bytes
    pub digest : Bytes

  -- The end of `parsePasswordHash`: the decoded parts with the costs.
  abbrev pub parsed_of : ℕ × ℕ × ℕ → Option Bytes → Option Bytes → Option Parsed
  parsed_of costs none digest = none
  parsed_of costs (some salt) none = none
  parsed_of (memory, time, threads) (some salt) (some digest) =
      let params : Argon2Params = record {
        memory_kib = memory;
        time = time;
        threads = threads;
        salt_bytes = length salt % 2 ^ 32;
        key_bytes = length digest % 2 ^ 32;
      } in
      if params_are_valid params
      then some (record { params = params; salt = salt; digest = digest })
      else none

  abbrev pub parsed_costs : Bytes → Option (ℕ × ℕ × ℕ) → Bytes → Bytes → Option Parsed
  parsed_costs text none salt digest = none
  parsed_costs text (some (memory, time, threads)) salt digest =
      if bytes_eq text (cost_text memory time threads)
      then parsed_of (memory, time, threads) (decode salt) (decode digest)
      else none

  -- The parts between the dollar signs: six of them, of which the first is empty.
  abbrev pub parsed_parts : List Bytes → Option Parsed
  parsed_parts (first ∷ kind ∷ shown_version ∷ costs ∷ salt ∷ digest ∷ []) =
      if bytes_eq first [] && bytes_eq kind (lit "argon2id") && bytes_eq shown_version version_text
      then parsed_costs costs (scan_costs costs) salt digest
      else none
  parsed_parts _ = none

  -- `parsePasswordHash`: `none` is its error.
  unfoldable pub parse_password_hash : Bytes → Option Parsed
  parse_password_hash encoded = parsed_parts (split_on b'$' encoded)

  abbrev pub compared : Option Parsed → Bytes → Result PasswordError Bool
  compared none password = err bad_hash
  compared (some p) password =
      let actual =
        id_key password p.salt p.params.time p.params.memory_kib p.params.threads
          (length p.digest % 2 ^ 32) in
      ok (bytes_eq actual p.digest)

  -- `Verify`
  unfoldable pub verify_password : Bytes → Bytes → Result PasswordError Bool
  verify_password encoded password =
      if ltb 1024 (length password)
      then err invalid_password
      else compared (parse_password_hash encoded) password
