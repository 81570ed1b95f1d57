-- ===== src/Auth/Password/Round.antt =====
-- A password that was hashed is verified.
use egress_manager.Base.{
  ℕ, zero, suc, ◌+◌, ◌≡◌, ◌≤◌, ◌<◌, ◌/◌, ◌%◌, ◌^◌, refl, ap, ◌∙◌, subst, Bool, true, false, some,
  [], ◌∷◌, ◌++◌, ltb, ◌==◌, if◌then◌else◌, Bytes, lit, bytes_eq_refl, any, any-append, length, join,
  split_on-join, arith, Bool-cases, inl, inr,
}
use egress_manager.Effect.{ok}
use egress_manager.Nat.Render.{digits}
use egress_manager.Auth.Password.{
  Argon2Params, Primitives, params_are_valid, password_is_valid, decimal, cost_text, hash_parts,
  hash_text, version_text, hash_password, parse_password_hash, parsed_parts, parsed_of,
  verify_password,
}

-- No digit is a sign that stands before the digits.
pub digits-plain : (k n sign : ℕ) → sign < b'0' → any (λ c. c == sign) (digits k n) ≡ false
unfolding digits
digits-plain zero n sign small = refl
digits-plain (suc k) n sign small =
    last (n / 10 == 0) (digits k (n / 10)) (digits-plain k (n / 10) sign small)
  where
    last :
        (b : Bool) (rest : Bytes)
        → any (λ c. c == sign) rest ≡ false
        → any (λ c. c == sign) ((if b then [] else rest) ++ (b'0' + n % 10) ∷ []) ≡ false
    last true rest h = ground (arith, small)
    last false rest h =
        any-append (λ c. c == sign) rest ((b'0' + n % 10) ∷ []) ∙ ground (arith, h, small)

append-plain :
    (x y : Bytes)
    → any (λ c. c == b'$') x ≡ false
    → any (λ c. c == b'$') y ≡ false
    → any (λ c. c == b'$') (x ++ y) ≡ false
append-plain x y hx hy = any-append (λ c. c == b'$') x y ∙ ground (arith, hx, hy)

decimal-plain : (n : ℕ) → any (λ c. c == b'$') (decimal n) ≡ false
decimal-plain n = digits-plain 10 n b'$' (omega arith)

cost_text-plain :
    (memory time threads : ℕ) → any (λ c. c == b'$') (cost_text memory time threads) ≡ false
unfolding cost_text join
cost_text-plain memory time threads =
    let costs = lit "p=" ++ decimal threads in
    let times = (lit "t=" ++ decimal time) ++ (lit "," ++ costs) in
    append-plain (lit "m=" ++ decimal memory) (lit "," ++ times)
      (append-plain (lit "m=") (decimal memory) refl (decimal-plain memory))
      (append-plain (lit ",") times refl (
        append-plain (lit "t=" ++ decimal time) (lit "," ++ costs)
          (append-plain (lit "t=") (decimal time) refl (decimal-plain time))
          (append-plain (lit ",") costs refl
            (append-plain (lit "p=") (decimal threads) refl (decimal-plain threads)))))

costs_fit :
    (p : Argon2Params)
    → params_are_valid p ≡ true
    → (p.memory_kib < 2 ^ 32) × (p.time < 2 ^ 32) × (p.threads < 2 ^ 8)
unfolding params_are_valid
costs_fit p valid = (ground arith, ground arith, ground arith)

sizes_fit :
    (p : Argon2Params) → params_are_valid p ≡ true → (p.salt_bytes ≤ 64) × (p.key_bytes ≤ 64)
unfolding params_are_valid
sizes_fit p valid = (ground arith, ground arith)

module _ (primitives : Primitives) where
  parsed_of-same :
      (p : Argon2Params) (salt digest : Bytes)
      → params_are_valid p ≡ true
      → length salt ≡ p.salt_bytes
      → length digest ≡ p.key_bytes
      → parsed_of primitives (p.memory_kib, p.time, p.threads) (some salt) (some digest)
        ≡ some (record { params = p; salt = salt; digest = digest })
  parsed_of-same p salt digest valid salted keyed =
      let (short, narrow) = sizes_fit p valid in
      let s : length salt % 2 ^ 32 ≡ p.salt_bytes = omega (arith, salted, short) in
      let k : length digest % 2 ^ 32 ≡ p.key_bytes = omega (arith, keyed, narrow) in
      rw (s, k) (rw valid refl)

  parse-hash_text :
      (p : Argon2Params) (salt digest : Bytes)
      → params_are_valid p ≡ true
      → length salt ≡ p.salt_bytes
      → length digest ≡ p.key_bytes
      → parse_password_hash primitives (hash_text primitives p salt digest)
        ≡ some (record { params = p; salt = salt; digest = digest })
  unfolding parse_password_hash
  parse-hash_text p salt digest valid salted keyed =
      let (memory, time, threads) = costs_fit p valid in
      ap (parsed_parts primitives) (
        split_on-join b'$' [] (hash_parts primitives p salt digest) (
          refl,
          (
            refl,
            (
              append-plain (lit "v=") (decimal primitives.version) refl
                  (decimal-plain primitives.version),
              (
                cost_text-plain p.memory_kib p.time p.threads,
                (primitives.encode-plain salt, (primitives.encode-plain digest, tt)),
              ),
            ),
          ),
        ))
      ∙ rw
          (
            bytes_eq_refl (version_text primitives),
            primitives.scan-cost_text p.memory_kib p.time p.threads memory time threads,
            bytes_eq_refl (cost_text p.memory_kib p.time p.threads),
            primitives.decode-encode salt,
            primitives.decode-encode digest,
          )
          (parsed_of-same p salt digest valid salted keyed)

  verified :
      (p : Argon2Params) (salt password : Bytes)
      → params_are_valid p ≡ true
      → length salt ≡ p.salt_bytes
      → ltb 1024 (length password) ≡ false
      → let digest = primitives.id_key password salt p.time p.memory_kib p.threads p.key_bytes in
        verify_password primitives (hash_text primitives p salt digest) password ≡ ok true
  unfolding verify_password
  verified p salt password valid salted short =
      let digest = primitives.id_key password salt p.time p.memory_kib p.threads p.key_bytes in
      let keyed =
        primitives.length-id_key password salt p.time p.memory_kib p.threads p.key_bytes in
      let size : length digest % 2 ^ 32 ≡ p.key_bytes =
        omega (arith, keyed, (sizes_fit p valid).1) in
      rw (short, parse-hash_text p salt digest valid salted keyed, size, bytes_eq_refl digest) refl

  -- A password that `Hash` has hashed, with a salt of the size that it asks for, is verified against
  -- the text that `Hash` returned.
  pub verify_password-hash_password :
      (p : Argon2Params) (salt password encoded : Bytes)
      → length salt ≡ p.salt_bytes
      → hash_password primitives p (some (some salt)) password ≡ ok encoded
      → verify_password primitives encoded password ≡ ok true
  unfolding hash_password verify_password
  verify_password-hash_password p salt password encoded salted h =
      elim (Bool-cases (password_is_valid password)) [
        | inr bad ↦ absurd (ground arith)
        | inl good ↦ elim (Bool-cases (params_are_valid p)) [
          | inr bad ↦ absurd (ground arith)
          | inl valid ↦
              let digest =
                primitives.id_key password salt p.time p.memory_kib p.threads p.key_bytes in
              let is : hash_text primitives p salt digest ≡ encoded = ground arith in
              subst (λ text. verify_password primitives text password ≡ ok true) is
                (verified p salt password valid salted (ground arith))
        ]
      ]
