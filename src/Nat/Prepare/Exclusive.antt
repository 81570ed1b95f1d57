-- ===== src/Nat/Prepare/Exclusive.antt =====
-- `rejectDuplicates` of plan.go: the packets that two forwards are meant for.
use egress_manager.Base.{
  ℕ, ◌≤◌, ◌≡◌, refl, true, false, ◌&&◌, none, List, [], ◌∷◌, any, All, Pairs, Pairs-imp_of_All,
  arith, Bytes, bytes_eq, bytes_eq_refl,
}
use egress_manager.Net.{Addr, invalid, v4, v6, addr_eq}
use egress_manager.Domain.Forward.{IsRange, PortForward}
use egress_manager.Nat.Ranges.{matches_port, allowed_ranges}
use egress_manager.Nat.Ranges.Normal.{Apart}
use egress_manager.Nat.Ranges.Allowed.{allowed_ranges-matches_port}
use egress_manager.Nat.Ranges.Overlap.{ranges_overlap-none}
use egress_manager.Nat.Prepare.{forwards_clash, reject_duplicates}
use egress_manager.Nat.Prepare.Sources.{admits, sources_overlap-false, protocols_overlap-false}

pub record Packet : Type 0 where
  pub destination : Addr
  pub source : Addr
  pub protocol : Bytes
  pub port : ℕ

-- The packets that an enabled forward is meant for, by its listen address, sources, protocols and
-- ports.
pub record Captures (f : PortForward) (k : Packet) : Type 0 where
  pub is_enabled : f.enabled ≡ true
  pub at_address : f.listen_address ≡ k.destination
  pub from_source : admits f.source_cidrs k.source ≡ true
  pub by_protocol : any (λ p. bytes_eq p k.protocol) f.protocols ≡ true
  pub on_port : matches_port f k.port ≡ true

-- No packet with a real port is captured by both.
abbrev pub Exclusive : PortForward → PortForward → Type 0
Exclusive a b = (k : Packet) → 1 ≤ k.port → k.port ≤ 65535 → Captures a k → Captures b k → ⊥

pub Exclusive-symm : (a b : PortForward) → Exclusive a b → Exclusive b a
Exclusive-symm a b e k one top ca cb = e k one top cb ca

-- The exclusions as normalising leaves them.
abbrev pub HasNormalExcept : PortForward → Type 0
HasNormalExcept f = All IsRange f.all_ports_except × Apart f.all_ports_except

addr_eq_refl : (a : Addr) → addr_eq a a ≡ true
addr_eq_refl invalid = refl
addr_eq_refl (v4 n) = ground arith
addr_eq_refl (v6 n zone) = ground (arith, bytes_eq_refl zone)

-- Both take packets to the same address, so their addresses pass the test of equality.
same_destination :
    (a b : PortForward) (k : Packet)
    → Captures a k
    → Captures b k
    → addr_eq a.listen_address b.listen_address ≡ true
same_destination a b k ca cb = rw (ca.at_address, cb.at_address) (addr_eq_refl k.destination)

forwards_clash-Exclusive :
    (a b : PortForward)
    → HasNormalExcept a
    → HasNormalExcept b
    → (a.enabled && forwards_clash a b) ≡ false
    → Exclusive a b
unfolding forwards_clash
forwards_clash-Exclusive a b na nb h k one top ca cb = ground (
  arith,
  same_destination a b k ca cb,
  sources_overlap-false a.source_cidrs b.source_cidrs k.source,
  protocols_overlap-false a.protocols b.protocols k.protocol,
  ranges_overlap-none (allowed_ranges a) (allowed_ranges b) k.port,
  allowed_ranges-matches_port a k.port na.0 na.1 one top,
  allowed_ranges-matches_port b k.port nb.0 nb.1 one top,
)

reject_duplicates-none :
    (fs : List PortForward)
    → reject_duplicates fs ≡ none
    → Pairs (λ a b. (a.enabled && forwards_clash a b) ≡ false) fs
unfolding reject_duplicates
reject_duplicates-none [] h = tt
reject_duplicates-none (f ∷ fs) h =
    (row f fs (ground arith), reject_duplicates-none fs (ground arith))
  where
    row :
        (a : PortForward) (bs : List PortForward)
        → (a.enabled && any (forwards_clash a) bs) ≡ false
        → All (λ b. (a.enabled && forwards_clash a b) ≡ false) bs
    row a [] h = tt
    row a (b ∷ bs) h = (ground arith, row a bs (ground arith))

-- A list that `rejectDuplicates` passes is exclusive, where normalising has made the exclusions.
pub reject_duplicates-Exclusive :
    (fs : List PortForward)
    → All HasNormalExcept fs
    → reject_duplicates fs ≡ none
    → Pairs Exclusive fs
reject_duplicates-Exclusive fs n h =
    Pairs-imp_of_All HasNormalExcept (λ a b. (a.enabled && forwards_clash a b) ≡ false) Exclusive fs
      forwards_clash-Exclusive n (reject_duplicates-none fs h)
