-- ===== src/Domain/Forward/Valid.antt =====
-- What `PortForward.Validate` guarantees when it has no complaint.
use egress_manager.Base.{
  ℕ, zero, suc, ◌+◌, ◌-◌, ◌≤◌, ◌≡◌, true, false, List, [], ◌∷◌, ◌++◌, ◌&&◌, ltb, ◌==◌, length, All,
  All-append, All-split, arith,
}
use egress_manager.Net.{is_valid, is_unspecified, bit_len}
use egress_manager.Domain.Issue.{join_errors-nil, issue_if-nil}
use egress_manager.Domain.Forward.{
  PortRange, PortForward, validate_range, validate_ranges, validate_remap, validate_forward,
  maximum_source_cidrs, IsRange,
}

-- The numbers of the struct fit their machine type.
abbrev pub FitsRange : PortRange → Type 0
FitsRange r = (r.from ≤ 65535) × (r.to ≤ 65535)

pub record Fits (f : PortForward) : Type 0 where
  pub listen_fits : All FitsRange f.listen_ports
  pub except_fits : All FitsRange f.all_ports_except
  pub start_fits : f.remote_port_start ≤ 65535

validate_ranges-IsRange :
    (rs : List PortRange) → All FitsRange rs → validate_ranges rs ≡ [] → All IsRange rs
unfolding validate_ranges validate_range
validate_ranges-IsRange [] w h = tt
validate_ranges-IsRange (r ∷ rs) w h =
    let e = join_errors-nil (validate_range r ∷ validate_ranges rs ∷ []) h in
    (one r w.0 e.0, validate_ranges-IsRange rs w.1 e.1.0)
  where
    one : (r : PortRange) → FitsRange r → validate_range r ≡ [] → IsRange r
    one r w h = ground arith

-- A remapped forward has one listen range, and the last remote port is a port.
abbrev pub RemapFits : ℕ → List PortRange → Type 0
RemapFits zero ranges = Unit
RemapFits (suc n) (r ∷ []) = suc n + (r.to - r.from) ≤ 65535
RemapFits (suc n) _ = ⊥

validate_remap-RemapFits :
    (start : ℕ) (ranges : List PortRange)
    → start ≤ 65535
    → All IsRange ranges
    → validate_remap start ranges ≡ []
    → RemapFits start ranges
unfolding validate_remap
validate_remap-RemapFits zero ranges s w h = tt
validate_remap-RemapFits (suc n) (r ∷ []) s w h = ground (arith, w.0)
validate_remap-RemapFits (suc n) (r ∷ q ∷ rest) s w h = ground arith
validate_remap-RemapFits (suc n) [] s w h = ground arith

-- Either the ports are listed, or those that are left out are.
abbrev pub OneMode : List PortRange → List PortRange → Type 0
OneMode [] [] = ⊥
OneMode (r ∷ rs) (e ∷ es) = ⊥
OneMode _ _ = Unit

pub record IsValid (f : PortForward) : Type 0 where
  pub listen_valid : is_valid f.listen_address ≡ true
  pub listen_specific : is_unspecified f.listen_address ≡ false
  pub remote_valid : is_valid f.remote_address ≡ true
  pub remote_specific : is_unspecified f.remote_address ≡ false
  pub same_family : bit_len f.listen_address ≡ bit_len f.remote_address
  pub one_mode : OneMode f.listen_ports f.all_ports_except
  pub listen_ranges : All IsRange f.listen_ports
  pub except_ranges : All IsRange f.all_ports_except
  pub remap_fits : RemapFits f.remote_port_start f.listen_ports
  pub few_sources : length f.source_cidrs ≤ maximum_source_cidrs

one_mode_lem :
    (xs ys : List PortRange)
    → (length xs == 0 && length ys == 0) ≡ false
    → (ltb 0 (length xs) && ltb 0 (length ys)) ≡ false
    → OneMode xs ys
one_mode_lem [] [] h k = ground arith
one_mode_lem (x ∷ xs) (y ∷ ys) h k = ground arith
one_mode_lem [] (y ∷ ys) h k = tt
one_mode_lem (x ∷ xs) [] h k = tt

-- A forward without a complaint, with numbers that fit their types, has specific addresses of one
-- family, lists its ports or the ports left out but not both, has only ranges of real ports in
-- order, if it remaps, has one listen range whose image ends at 65535 or below, and has at most 64
-- sources.
pub validate_forward-IsValid : (f : PortForward) → Fits f → validate_forward f ≡ [] → IsValid f
unfolding validate_forward
validate_forward-IsValid f w h =
    let e = join_errors-nil _ h in
    let from4 = e.1.1.1.1 in
    let from7 = from4.1.1.1 in
    let listen = issue_if-nil _ _ from4.0 in
    let remote = issue_if-nil _ _ from4.1.0 in
    let family = issue_if-nil _ _ from4.1.1.0 in
    let some_mode = issue_if-nil _ _ from7.0 in
    let not_both = issue_if-nil _ _ from7.1.0 in
    let few = issue_if-nil _ _ from7.1.1.1.1.1.0 in
    let ranges =
      validate_ranges-IsRange (f.listen_ports ++ f.all_ports_except)
        (All-append FitsRange f.listen_ports f.all_ports_except w.listen_fits w.except_fits)
        from7.1.1.1.0 in
    let (listed, excepted) = All-split IsRange f.listen_ports f.all_ports_except ranges in
    record {
      listen_valid = ground arith;
      listen_specific = ground arith;
      remote_valid = ground arith;
      remote_specific = ground arith;
      same_family = ground arith;
      one_mode = one_mode_lem f.listen_ports f.all_ports_except some_mode not_both;
      listen_ranges = listed;
      except_ranges = excepted;
      remap_fits =
          validate_remap-RemapFits f.remote_port_start f.listen_ports w.start_fits listed
            from7.1.1.1.1.0;
      few_sources = ground arith;
    }
