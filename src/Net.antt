-- ===== src/Net.antt =====
-- `netip.Addr` and `netip.Prefix` of the standard library, as far as the program uses them: an
-- address is the invalid value, 32 bits, or 128 bits with a zone; a prefix never holds a zone.
pub mod Nested
use egress_manager.Base.{
  ℕ, ◌+◌, ◌-◌, ◌*◌, ◌/◌, ◌%◌, ◌^◌, Bool, true, false, ◌&&◌, ◌||◌, not, [], ◌==◌, ltb, Bytes,
  bytes_eq, if◌then◌else◌,
}

pub data Addr : Type 0 where
  invalid : Addr
  v4 : ℕ → Addr
  v6 : ℕ → Bytes → Addr

abbrev pub is_valid : Addr → Bool
is_valid invalid = false
is_valid _ = true

abbrev pub bit_len : Addr → ℕ
bit_len invalid = 0
bit_len (v4 n) = 32
bit_len (v6 n zone) = 128

abbrev pub is4 : Addr → Bool
is4 (v4 n) = true
is4 _ = false

abbrev pub is6 : Addr → Bool
is6 (v6 n zone) = true
is6 _ = false

-- `a == b` on the comparable struct
abbrev pub addr_eq : Addr → Addr → Bool
addr_eq invalid invalid = true
addr_eq (v4 n) (v4 m) = n == m
addr_eq (v6 n z) (v6 m w) = n == m && bytes_eq z w
addr_eq _ _ = false

-- The high 96 bits are those of ::ffff:0:0/96.
abbrev pub is_4in6 : ℕ → Bool
is_4in6 n = n / 2 ^ 32 == 0xffff

abbrev pub unmap : Addr → Addr
unmap (v6 n zone) = if is_4in6 n then v4 (n % 2 ^ 32) else v6 n zone
unmap a = a

abbrev pub is_unspecified : Addr → Bool
is_unspecified invalid = false
is_unspecified (v4 n) = n == 0
is_unspecified (v6 n zone) = n == 0 && bytes_eq zone []

-- 127.0.0.0/8, ::1, and the mapped form of the former
abbrev pub is_loopback : Addr → Bool
is_loopback invalid = false
is_loopback (v4 n) = n / 2 ^ 24 == 127
is_loopback (v6 n zone) = if is_4in6 n then n % 2 ^ 32 / 2 ^ 24 == 127 else n == 1

-- 224.0.0.0/4, ff00::/8, and the mapped form of the former
abbrev pub is_multicast : Addr → Bool
is_multicast invalid = false
is_multicast (v4 n) = n / 2 ^ 28 == 14
is_multicast (v6 n zone) = if is_4in6 n then n % 2 ^ 32 / 2 ^ 28 == 14 else n / 2 ^ 120 == 255

-- 169.254.0.0/16, fe80::/10, and the mapped form of the former
abbrev pub is_link_local_unicast : Addr → Bool
is_link_local_unicast invalid = false
is_link_local_unicast (v4 n) = n / 2 ^ 16 == 43518
is_link_local_unicast (v6 n zone) =
    if is_4in6 n then n % 2 ^ 32 / 2 ^ 16 == 43518 else n / 2 ^ 118 == 1018

pub data Prefix : Type 0 where
  no_prefix : Prefix
  prefix4 : ℕ → ℕ → Prefix
  prefix6 : ℕ → ℕ → Prefix

abbrev pub prefix_is_valid : Prefix → Bool
prefix_is_valid no_prefix = false
prefix_is_valid _ = true

abbrev pub prefix_addr : Prefix → Addr
prefix_addr no_prefix = invalid
prefix_addr (prefix4 n bits) = v4 n
prefix_addr (prefix6 n bits) = v6 n []

-- Clears the bits behind the first `bits` of `width`.
abbrev pub mask : ℕ → ℕ → ℕ → ℕ
mask width bits n = n / 2 ^ (width - bits) * 2 ^ (width - bits)

abbrev pub masked : Prefix → Prefix
masked no_prefix = no_prefix
masked (prefix4 n bits) = prefix4 (mask 32 bits n) bits
masked (prefix6 n bits) = prefix6 (mask 128 bits n) bits

abbrev pub prefix_eq : Prefix → Prefix → Bool
prefix_eq no_prefix no_prefix = true
prefix_eq (prefix4 n b) (prefix4 m c) = n == m && b == c
prefix_eq (prefix6 n b) (prefix6 m c) = n == m && b == c
prefix_eq _ _ = false

-- `prefix.Contains(address)`: same family, no zone, same leading bits.
pub contains : Prefix → Addr → Bool
contains (prefix4 n bits) (v4 m) = n / 2 ^ (32 - bits) == m / 2 ^ (32 - bits)
contains (prefix6 n bits) (v6 m zone) =
    bytes_eq zone [] && (n / 2 ^ (128 - bits) == m / 2 ^ (128 - bits))
contains _ _ = false
