-- ===== src/Nat/Render/Candidate.antt =====
-- What a candidate defines, and what its rules select.
use egress_manager.Base.{
  ◌≡◌, refl, Bool, true, false, some, List, Bytes, lit, fields, split_lines, arith, subst, ◌++◌,
  not, has_infix, Option-cases, inl, inr, Bool-cases, ◌==◌, ◌*◌, ◌∷◌, bytes_eq_refl, length, ltb,
  ◌^◌, [],
}
use egress_manager.Domain.Forward.{PortForward}
use egress_manager.Inventory.{AddrText}
use egress_manager.Inventory.Conflict.{Listener, to_lower}
use egress_manager.Nat.Plan.{Plan, owned_table_from_candidate, validate_executable_plan}
use egress_manager.Nat.Prepare.{
  AddressFamily, ipv4, ipv6, other, native_name, SafetyPolicy, Prepared, ok, err, prepare_forwards,
}
use egress_manager.Nat.Render.{render_nft, sized, finish_plan, plan_of, build_nft_plan}

some_inj : (x y : Bytes × Bytes) → some x ≡ some y → x ≡ y
some_inj x y h = ground (arith, h)

-- The first line that defines a table is the first or the second, whatever the chains are.
module _ (text : AddrText) (forwards : List PortForward) where
  ip4_replaced :
      owned_table_from_candidate (render_nft text (lit "ip") (lit "egm_nat4") forwards true)
      ≡ some (lit "ip", lit "egm_nat4")
  unfolding owned_table_from_candidate split_lines fields render_nft
  ip4_replaced = refl

  ip4_created :
      owned_table_from_candidate (render_nft text (lit "ip") (lit "egm_nat4") forwards false)
      ≡ some (lit "ip", lit "egm_nat4")
  unfolding owned_table_from_candidate split_lines fields render_nft
  ip4_created = refl

  ip6_replaced :
      owned_table_from_candidate (render_nft text (lit "ip6") (lit "egm_nat6") forwards true)
      ≡ some (lit "ip6", lit "egm_nat6")
  unfolding owned_table_from_candidate split_lines fields render_nft
  ip6_replaced = refl

  ip6_created :
      owned_table_from_candidate (render_nft text (lit "ip6") (lit "egm_nat6") forwards false)
      ≡ some (lit "ip6", lit "egm_nat6")
  unfolding owned_table_from_candidate split_lines fields render_nft
  ip6_created = refl

  render_nft-table :
      (family : AddressFamily) (existed : Bool) (owned : Bytes × Bytes)
      → native_name family ≡ some owned
      → owned_table_from_candidate (render_nft text owned.0 owned.1 forwards existed) ≡ some owned
  unfolding native_name
  render_nft-table ipv4 true owned h =
      subst (λ o. owned_table_from_candidate (render_nft text o.0 o.1 forwards true) ≡ some o)
        (some_inj (lit "ip", lit "egm_nat4") owned h) ip4_replaced
  render_nft-table ipv4 false owned h =
      subst (λ o. owned_table_from_candidate (render_nft text o.0 o.1 forwards false) ≡ some o)
        (some_inj (lit "ip", lit "egm_nat4") owned h) ip4_created
  render_nft-table ipv6 true owned h =
      subst (λ o. owned_table_from_candidate (render_nft text o.0 o.1 forwards true) ≡ some o)
        (some_inj (lit "ip6", lit "egm_nat6") owned h) ip6_replaced
  render_nft-table ipv6 false owned h =
      subst (λ o. owned_table_from_candidate (render_nft text o.0 o.1 forwards false) ≡ some o)
        (some_inj (lit "ip6", lit "egm_nat6") owned h) ip6_created
  render_nft-table (other s) existed owned h = absurd (ground arith)

-- The candidate of a family, for any forwards and whether it replaces a table or not, defines the
-- table of that family.
pub render_nft-owned_table :
    (text : AddrText) (family : AddressFamily) (forwards : List PortForward) (existed : Bool)
    (f t : Bytes)
    → native_name family ≡ some (f, t)
    → owned_table_from_candidate (render_nft text f t forwards existed) ≡ some (f, t)
render_nft-owned_table text family forwards existed f t h =
    render_nft-table text forwards family existed (f, t) h

nonempty :
    (candidate f t : Bytes)
    → owned_table_from_candidate candidate ≡ some (f, t)
    → (length candidate == 0) ≡ false
unfolding owned_table_from_candidate split_lines fields
nonempty [] f t h = absurd (ground arith)
nonempty (c ∷ cs) f t h = ground arith

-- What the executor's tests say of a plan: only the destructive command is left to test.
abbrev PassesBut : Plan → Type 0
PassesBut plan =
    validate_executable_plan plan ≡ not (has_infix (to_lower plan.candidate) (lit "flush ruleset"))

module _ (text : AddrText) (forwards : List PortForward) (existed : Bool) (f t : Bytes) where
  plan_of-PassesBut :
      owned_table_from_candidate (render_nft text f t forwards existed) ≡ some (f, t)
      → ltb (20 * 2 ^ 10) (length (render_nft text f t forwards existed)) ≡ false
      → PassesBut (plan_of text (f, t) forwards existed)
  unfolding validate_executable_plan
  plan_of-PassesBut c small =
      let big : ltb (2 ^ 20) (length (render_nft text f t forwards existed)) ≡ false =
        ground arith in
      rw (nonempty _ f t c, big, c, bytes_eq_refl (f ++ (lit " " ++ t))) (ground arith)

  sized-PassesBut :
      (plan : Plan)
      → owned_table_from_candidate (render_nft text f t forwards existed) ≡ some (f, t)
      → sized text (plan_of text (f, t) forwards existed) ≡ some plan
      → PassesBut plan
  unfolding sized
  sized-PassesBut plan c h =
      elim (Bool-cases (ltb (20 * 2 ^ 10) (length (render_nft text f t forwards existed)))) [
        | inl big ↦ absurd (ground arith)
        | inr small ↦ subst PassesBut (ground (arith, h)) (plan_of-PassesBut c small)
      ]

finish_plan-PassesBut :
    (text : AddrText) (family : AddressFamily) (owned : Bytes × Bytes) (prepared : Prepared)
    (existed : Bool) (plan : Plan)
    → native_name family ≡ some owned
    → finish_plan text owned prepared existed ≡ some plan
    → PassesBut plan
unfolding finish_plan
finish_plan-PassesBut text family owned (err e) existed plan named h = absurd (ground arith)
finish_plan-PassesBut text family (f, t) (ok forwards) existed plan named h =
    sized-PassesBut text forwards existed f t plan
      (render_nft-table text forwards family existed (f, t) named) h

-- A plan that `BuildNFTPlan` returns passes the tests of `Execute`, unless its candidate has the
-- words `flush ruleset`.
pub build_nft_plan-validate_executable_plan :
    (text : AddrText) (family : AddressFamily) (desired : List PortForward)
    (listeners : List Listener) (policy : SafetyPolicy) (existed : Bool) (plan : Plan)
    → build_nft_plan text family desired listeners policy existed ≡ some plan
    → validate_executable_plan plan
      ≡ not (has_infix (to_lower plan.candidate) (lit "flush ruleset"))
unfolding build_nft_plan
build_nft_plan-validate_executable_plan text family desired listeners policy existed plan h =
    elim (Option-cases (native_name family)) [
      | inl unnamed ↦ absurd (ground arith)
      | inr (owned, named) ↦
          finish_plan-PassesBut text family owned
            (prepare_forwards text family listeners policy desired) existed plan named
            (ground (arith, h, named))
    ]
