-- ===== src/Scenarios/SigningIn.antt =====
-- A password, a session and a login at concrete values.
use egress_manager.Auth.Password.{params_are_valid}
use egress_manager.Base.{
  ℕ, zero, suc, ◌+◌, ◌-◌, ◌*◌, ◌/◌, ◌%◌, ◌^◌, ◌≡◌, ◌<◌, refl, ap, sym, ◌∙◌, Bool, true, false, ◌==◌,
  if◌then◌else◌, any, Option, none, some, List, [], ◌∷◌, ◌++◌, map, Bytes, lit, length, split_on,
  split_on-join, arith,
}
use egress_manager.Net.{v4}
use egress_manager.Effect.{ok}
use egress_manager.Database.{second}
use egress_manager.Database.Accounts.{Admin, Attempt, create_session}
use egress_manager.Nat.Render.{digits}
use egress_manager.Auth.Password.{
  Primitives, Argon2Params, decimal, cost_text, hash_text, hash_password, verify_password,
}
use egress_manager.Auth.Password.Round.{digits-plain, verify_password-hash_password}
use egress_manager.Auth.Session.{Secrecy, World, SessionTokens, create_tokens}
use egress_manager.Auth.Session.Round.{RoundTrip, create_tokens-RoundTrip}
use egress_manager.Auth.Service.{Service, default_policy, login}
use egress_manager.Auth.Service.Login.{Outcome, login-Outcome}
use egress_manager.Scenarios.{no_fault}
use egress_manager.Scenarios.Planning.{text}

-- Thirty-two bytes.
abbrev block : ℕ → Bytes
block c =
    c ∷ c ∷ c ∷ c ∷ c ∷ c ∷ c ∷ c ∷ c ∷ c ∷ c ∷ c ∷ c ∷ c ∷ c ∷ c ∷ c ∷ c ∷ c ∷ c ∷ c ∷ c ∷ c ∷ c
    ∷ c ∷ c ∷ c ∷ c ∷ c ∷ c ∷ c ∷ c ∷ []

-- Randomness that counts up, and a hash that keeps the first byte.
unfoldable counting : Secrecy ℕ
counting = record {
  sha256 = λ t. block (first t);
  encode = λ t. t;
  decode = λ t. some t;
  draw = λ n. (some (block n), n + 1);
  length-sha256 = λ t. refl;
  decode-encode = λ t. refl;
  length-draw = λ n secret h. ap (λ o. elim o [ none ↦ 32 | some t ↦ length t ]) (sym h);
}
  where
    first : Bytes → ℕ
    first [] = 0
    first (c ∷ cs) = c

-- The number that digits stand for, after those that were read.
value_from : ℕ → Bytes → ℕ
value_from n [] = n
value_from n (c ∷ cs) = value_from (n * 10 + (c - b'0')) cs

value_from-append :
    (n c : ℕ) (cs : Bytes) → value_from n (cs ++ c ∷ []) ≡ value_from n cs * 10 + (c - b'0')
unfolding value_from
value_from-append n c [] = refl
value_from-append n c (d ∷ cs) = value_from-append (n * 10 + (d - b'0')) c cs

-- A number of so many digits.
abbrev HasDigits : ℕ → ℕ → Type 0
HasDigits zero n = n ≡ 0
HasDigits (suc k) n = HasDigits k (n / 10)

value_from-digits : (k n : ℕ) → HasDigits k n → value_from 0 (digits k n) ≡ n
unfolding value_from digits
value_from-digits zero n h = sym h
value_from-digits (suc k) n h = last (n / 10 == 0) refl (value_from-digits k (n / 10) h)
  where
    last :
        (b : Bool)
        → (n / 10 == 0) ≡ b
        → value_from 0 (digits k (n / 10)) ≡ n / 10
        → value_from 0 ((if b then [] else digits k (n / 10)) ++ (b'0' + n % 10) ∷ []) ≡ n
    last true e rest = ground arith
    last false e rest =
        value_from-append 0 (b'0' + n % 10) (digits k (n / 10)) ∙ ground (arith, rest)

after_sign : Bytes → Bytes
after_sign (c ∷ d ∷ cs) = cs
after_sign cs = []

scanned_parts : List Bytes → Option (ℕ × ℕ × ℕ)
unfolding value_from after_sign
scanned_parts (m ∷ t ∷ p ∷ []) =
    some (value_from 0 (after_sign m), value_from 0 (after_sign t), value_from 0 (after_sign p))
scanned_parts _ = none

part_plain : (c n : ℕ) → (c == b',') ≡ false → any (λ d. d == b',') (c ∷ b'=' ∷ decimal n) ≡ false
part_plain c n h = ground (arith, h, digits-plain 10 n b',' (omega arith))

scanned_lem :
    (memory time threads : ℕ)
    → memory < 2 ^ 32
    → time < 2 ^ 32
    → threads < 2 ^ 8
    → scanned_parts (split_on b',' (cost_text memory time threads)) ≡ some (memory, time, threads)
unfolding scanned_parts cost_text
scanned_lem memory time threads hm ht hp =
    ap scanned_parts (
      split_on-join b',' (lit "m=" ++ decimal memory)
        ((lit "t=" ++ decimal time) ∷ (lit "p=" ++ decimal threads) ∷ [])
        (
          part_plain b'm' memory refl,
          (part_plain b't' time refl, (part_plain b'p' threads refl, tt)),
        ))
    ∙ cc (
      value_from-digits 10 memory (omega (arith, hm)),
      value_from-digits 10 time (omega (arith, ht)),
      value_from-digits 10 threads (omega (arith, hp)),
    )

-- Primitives of which the hash is a row of zeros.
unfoldable primitives : Primitives
primitives = record {
  version = 19;
  id_key = λ password salt time memory threads size. zeros size;
  encode = λ t. map (λ c. c + 64) t;
  decode = λ t. some (map (λ c. c - 64) t);
  scan_costs = λ t. scanned_parts (split_on b',' t);
  length-id_key = λ password salt time memory threads size. length-zeros size;
  decode-encode = λ t. ap some (shifted t);
  encode-plain = plain;
  scan-cost_text = scanned_lem;
}
  where
    zeros : ℕ → Bytes
    zeros zero = []
    zeros (suc n) = 0 ∷ zeros n

    length-zeros : (n : ℕ) → length (zeros n) ≡ n
    length-zeros zero = refl
    length-zeros (suc n) = ap suc (length-zeros n)

    shifted : (t : Bytes) → map (λ c. c - 64) (map (λ c. c + 64) t) ≡ t
    shifted [] = refl
    shifted (c ∷ t) = let here : c + 64 - 64 ≡ c = omega arith in cc (here, shifted t)

    plain : (t : Bytes) → any (λ c. c == b'$') (map (λ c. c + 64) t) ≡ false
    plain [] = refl
    plain (c ∷ t) = ground (arith, plain t)

abbrev salt : Bytes
salt = 1 ∷ 2 ∷ 3 ∷ 4 ∷ 5 ∷ 6 ∷ 7 ∷ 8 ∷ 9 ∷ 10 ∷ 11 ∷ 12 ∷ 13 ∷ 14 ∷ 15 ∷ 16 ∷ []

abbrev secret : Bytes
secret = lit "correct horse battery"

abbrev small_params : Argon2Params
small_params = record { memory_kib = 64; time = 1; threads = 1; salt_bytes = 16; key_bytes = 16 }

abbrev hashed : Bytes
hashed =
    hash_text primitives small_params salt
      (0 ∷ 0 ∷ 0 ∷ 0 ∷ 0 ∷ 0 ∷ 0 ∷ 0 ∷ 0 ∷ 0 ∷ 0 ∷ 0 ∷ 0 ∷ 0 ∷ 0 ∷ 0 ∷ [])

secret-hashed : hash_password primitives small_params (some (some salt)) secret ≡ ok hashed
unfolding hash_password primitives params_are_valid
secret-hashed = refl

verify_password-hash_password_example : verify_password primitives hashed secret ≡ ok true
verify_password-hash_password_example =
    verify_password-hash_password primitives small_params salt secret hashed refl secret-hashed

abbrev operator : Admin
operator = record {
  id = lit "admin";
  username = lit "alice";
  password_hash = hashed;
  created_at = 0;
  updated_at = 0;
}

-- Five failures in the first second, from the client below.
abbrev failure : Attempt
failure = record { bucket_hash = block 7; succeeded = false; attempted_at = 1 }

abbrev world : World ℕ
world = record {
  accounts = record {
    admins = operator ∷ [];
    sessions = [];
    attempts = failure ∷ failure ∷ failure ∷ failure ∷ failure ∷ [];
    settings = [];
    statements = 0;
  };
  random = 1;
}

abbrev tokens : SessionTokens
tokens = record { session_token = block 1; csrf_token = block 2; expires_at = 601 * second }

abbrev signed_in : World ℕ
signed_in = (create_tokens counting no_fault (600 * second) (lit "admin") second world).1

created :
    create_tokens counting no_fault (600 * second) (lit "admin") second world
    ≡ (ok tokens, signed_in)
unfolding create_tokens counting create_session
created = refl

create_tokens-RoundTrip_example :
    RoundTrip counting no_fault (lit "admin") (600 * second) (700 * second) signed_in tokens
create_tokens-RoundTrip_example =
    create_tokens-RoundTrip counting no_fault (λ n. refl) (600 * second) (lit "admin") second
      (600 * second) (700 * second) world signed_in tokens (omega arith) (omega arith) created

-- All attempts fall into one bucket.
abbrev service : Service
service = record {
  primitives = primitives;
  params = small_params;
  text = text;
  hmac = λ key message. block 7;
  policy = default_policy;
  bucket_key = block 1;
  dummy_hash = hashed;
  lifetime = 600 * second;
}

login-Outcome_example :
    Outcome counting no_fault service
      (lit " Alice")
      secret
      (v4 167772161)
      (2000 * second)
      world
      (login counting no_fault service (lit " Alice") secret (v4 167772161) (2000 * second) world)
login-Outcome_example =
    login-Outcome counting no_fault service (lit " Alice") secret (v4 167772161) (2000 * second)
      world
