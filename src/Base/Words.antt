-- ===== src/Base/Words.antt =====
-- `strings.Split` at line ends, `strings.Fields` and `strings.Contains` on bytes.
use Prim.Native.Nat.{ℕ, zero, suc, ◌-◌}
use mathlib.Core.Path.{◌≡◌, refl}
use mathlib.Core.Bool.{Bool, false, ◌||◌}
use mathlib.Core.List.{List, [], ◌∷◌, ◌++◌, map, reverse}
use native.Mathlib.Omega.{arith}
use egress_manager.Base.Tests.{◌==◌, if◌then◌else◌}
use egress_manager.Base.Lists.{length, any, All}
use egress_manager.Base.Text.{Bytes, has_prefix}

-- The encodings of the code points that `unicode.IsSpace` accepts.
abbrev pub spaces : List Bytes
spaces =
    (9 ∷ [])
    ∷ (10 ∷ [])
    ∷ (11 ∷ [])
    ∷ (12 ∷ [])
    ∷ (13 ∷ [])
    ∷ (32 ∷ [])
    ∷ (0xc2 ∷ 0x85 ∷ [])
    ∷ (0xc2 ∷ 0xa0 ∷ [])
    ∷ (0xe1 ∷ 0x9a ∷ 0x80 ∷ [])
    ∷ (0xe2 ∷ 0x80 ∷ 0x80 ∷ [])
    ∷ (0xe2 ∷ 0x80 ∷ 0x81 ∷ [])
    ∷ (0xe2 ∷ 0x80 ∷ 0x82 ∷ [])
    ∷ (0xe2 ∷ 0x80 ∷ 0x83 ∷ [])
    ∷ (0xe2 ∷ 0x80 ∷ 0x84 ∷ [])
    ∷ (0xe2 ∷ 0x80 ∷ 0x85 ∷ [])
    ∷ (0xe2 ∷ 0x80 ∷ 0x86 ∷ [])
    ∷ (0xe2 ∷ 0x80 ∷ 0x87 ∷ [])
    ∷ (0xe2 ∷ 0x80 ∷ 0x88 ∷ [])
    ∷ (0xe2 ∷ 0x80 ∷ 0x89 ∷ [])
    ∷ (0xe2 ∷ 0x80 ∷ 0x8a ∷ [])
    ∷ (0xe2 ∷ 0x80 ∷ 0xa8 ∷ [])
    ∷ (0xe2 ∷ 0x80 ∷ 0xa9 ∷ [])
    ∷ (0xe2 ∷ 0x80 ∷ 0xaf ∷ [])
    ∷ (0xe2 ∷ 0x81 ∷ 0x9f ∷ [])
    ∷ (0xe3 ∷ 0x80 ∷ 0x80 ∷ [])
    ∷ []

-- How many bytes the space at the head takes; 0 if there is none.
unfoldable pub space_width_in : List Bytes → Bytes → ℕ
space_width_in [] text = 0
space_width_in (s ∷ ss) text = if has_prefix text s then length s else space_width_in ss text

emit : Bytes → List Bytes → List Bytes
emit [] rest = rest
emit (c ∷ cs) rest = (c ∷ cs) ∷ rest

-- The number counts the bytes of a space that are still to be passed over.
fields_from : ℕ → Bytes → Bytes → List Bytes
unfolding space_width_in emit
fields_from skip word [] = emit word []
fields_from (suc skip) word (c ∷ cs) = fields_from skip word cs
fields_from zero word (c ∷ cs) =
    let longer = fields_from zero (word ++ c ∷ []) cs in
    let ended = emit word (fields_from (space_width_in spaces (c ∷ cs) - 1) [] cs) in
    if space_width_in spaces (c ∷ cs) == 0 then longer else ended

-- `strings.Fields(text)`
unfoldable pub fields : Bytes → List Bytes
unfolding fields_from
fields text = fields_from 0 [] text

split_from : Bytes → Bytes → List Bytes
split_from line [] = line ∷ []
split_from line (c ∷ cs) =
    let more = split_from (line ++ c ∷ []) cs in
    let next = line ∷ split_from [] cs in if c == 10 then next else more

-- `strings.Split(text, "\n")`
unfoldable pub split_lines : Bytes → List Bytes
unfolding split_from
split_lines text = split_from [] text

-- `strings.Contains(text, part)`
unfoldable pub has_infix : Bytes → Bytes → Bool
has_infix [] part = has_prefix [] part
has_infix (c ∷ cs) part = has_prefix (c ∷ cs) part || has_infix cs part

-- `strings.HasSuffix(text, "\n")`
unfoldable pub ends_line : Bytes → Bool
ends_line [] = false
ends_line (c ∷ []) = c == 10
ends_line (c ∷ d ∷ cs) = ends_line (d ∷ cs)

-- `strings.Join`
unfoldable pub join : Bytes → List Bytes → Bytes
join separator [] = []
join separator (x ∷ []) = x
join separator (x ∷ y ∷ ys) = x ++ (separator ++ join separator (y ∷ ys))

extend_head : ℕ → List Bytes → List Bytes
extend_head c [] = (c ∷ []) ∷ []
extend_head c (part ∷ parts) = (c ∷ part) ∷ parts

-- `strings.Split` at one byte
unfoldable pub split_on : ℕ → Bytes → List Bytes
unfolding extend_head
split_on separator [] = [] ∷ []
split_on separator (c ∷ cs) =
    let rest = split_on separator cs in if c == separator then [] ∷ rest else extend_head c rest

split_on-whole :
    (separator : ℕ) (part : Bytes)
    → any (λ c. c == separator) part ≡ false
    → split_on separator part ≡ part ∷ []
unfolding split_on extend_head
split_on-whole separator [] h = refl
split_on-whole separator (c ∷ cs) h = ground (arith, split_on-whole separator cs)

split_on-append :
    (separator : ℕ) (part rest : Bytes)
    → any (λ c. c == separator) part ≡ false
    → split_on separator (part ++ separator ∷ rest) ≡ part ∷ split_on separator rest
unfolding split_on extend_head
split_on-append separator [] rest h = ground arith
split_on-append separator (c ∷ cs) rest h = ground (arith, split_on-append separator cs rest)

-- What is joined is split again, if the separator stands in no part.
pub split_on-join :
    (separator : ℕ) (part : Bytes) (parts : List Bytes)
    → All (λ p. any (λ c. c == separator) p ≡ false) (part ∷ parts)
    → split_on separator (join (separator ∷ []) (part ∷ parts)) ≡ part ∷ parts
unfolding join
split_on-join separator part [] h = split_on-whole separator part h.0
split_on-join separator part (next ∷ parts) h =
    rw
      (
        split_on-append separator part (join (separator ∷ []) (next ∷ parts)) h.0,
        split_on-join separator next parts h.1,
      )
      refl

-- The number counts the bytes of a space that are still to be passed over.
drop_spaces : List Bytes → ℕ → Bytes → Bytes
drop_spaces blanks skip [] = []
drop_spaces blanks (suc skip) (c ∷ cs) = drop_spaces blanks skip cs
drop_spaces blanks zero (c ∷ cs) =
    let w = space_width_in blanks (c ∷ cs) in
    let rest = drop_spaces blanks (w - 1) cs in if w == 0 then c ∷ cs else rest

-- `strings.TrimSpace`
unfoldable pub trim_space : Bytes → Bytes
unfolding drop_spaces
trim_space text = reverse (drop_spaces (map reverse spaces) 0 (reverse (drop_spaces spaces 0 text)))
