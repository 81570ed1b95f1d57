-- ===== src/Net/Nested.antt =====
-- `netip.Prefix`: two prefixes that have an address in common.
use native.Mathlib.Nat.{
  div-div-eq-div-mul, pow-zero, pow-suc, add-zero, add-suc, mul-one, mul_assoc,
}
use egress_manager.Base.{
  ℕ, zero, suc, ◌+◌, ◌-◌, ◌*◌, ◌/◌, ◌^◌, ◌≤◌, ◌≡◌, sym, ap, ◌∙◌, true, ◌||◌, arith,
}
use egress_manager.Net.{Prefix, Addr, no_prefix, prefix4, prefix6, v4, v6, contains, prefix_addr}
use native.Mathlib.Decide.{dec_le}

pow-add : (b j k : ℕ) → b ^ (j + k) ≡ b ^ j * b ^ k
pow-add b j zero = simp (add-zero, pow-zero, mul-one)
pow-add b j (suc k) = rw (add-suc, pow-suc, pow-suc, pow-add b j k) (mul_assoc (b ^ j) (b ^ k) b)

-- Numbers that agree on their leading bits agree on fewer of them.
agree_above : (n m j k : ℕ) → j ≤ k → n / 2 ^ j ≡ m / 2 ^ j → n / 2 ^ k ≡ m / 2 ^ k
agree_above n m j k le h =
    let e : k ≡ j + (k - j) = omega arith in
    rw (e, pow-add 2 j (k - j), ← div-div-eq-div-mul n, ← div-div-eq-div-mul m)
      (ap (λ q. q / 2 ^ (k - j)) h)

nested_numbers :
    (n m s j k : ℕ) → j ≤ k → n / 2 ^ j ≡ s / 2 ^ j → m / 2 ^ k ≡ s / 2 ^ k → m / 2 ^ k ≡ n / 2 ^ k
nested_numbers n m s j k le h g = g ∙ sym (agree_above n s j k le h)

-- The bits of both prefixes are leading bits of one address, so the shorter prefix holds the
-- address of the longer one.
pub contains-nested :
    (l r : Prefix) (a : Addr)
    → contains l a ≡ true
    → contains r a ≡ true
    → (contains l (prefix_addr r) || contains r (prefix_addr l)) ≡ true
unfolding contains
contains-nested (prefix4 n b) (prefix4 m c) (v4 s) h k = elim (dec_le (32 - b) (32 - c)) [
  | yes le ↦ ground (arith, nested_numbers n m s (32 - b) (32 - c) le)
  | no gt ↦ ground (arith, nested_numbers m n s (32 - c) (32 - b) (omega arith))
]
contains-nested (prefix6 n b) (prefix6 m c) (v6 s zone) h k = elim (dec_le (128 - b) (128 - c)) [
  | yes le ↦ ground (arith, nested_numbers n m s (128 - b) (128 - c) le)
  | no gt ↦ ground (arith, nested_numbers m n s (128 - c) (128 - b) (omega arith))
]
contains-nested no_prefix r a h k = cc
contains-nested (prefix4 n b) no_prefix a h k = cc
contains-nested (prefix6 n b) no_prefix a h k = cc
contains-nested _ _ _ h k = ground arith
