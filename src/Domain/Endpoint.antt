-- ===== src/Domain/Endpoint.antt =====
-- outbound.go: `Endpoint` and the pattern of host names.
use egress_manager.Base.{
  ℕ, zero, suc, has_prefix, Bool, true, false, ◌&&◌, ◌||◌, not, none, some, List, [], ◌∷◌, ltb, leb,
  ◌==◌, if◌then◌else◌, Bytes, all, length, split_on,
}
use mathlib.Core.List.{reverse}
use egress_manager.Inventory.{AddrText}
use egress_manager.Domain.Issue.{Issue, issue_if, bad_host, not_a_host, bad_endpoint_port}
use egress_manager.Domain.Identifier.{is_trimmed, is_lower, is_upper, is_digit}

pub record Endpoint : Type 0 where
  pub host : Bytes
  pub port : ℕ

-- The letters outside ASCII that `(?i:[a-z])` accepts, the long s and the Kelvin sign, are read as
-- the letters that they fold to: how many bytes follow the first one of such a letter, and the letter.
abbrev folded_width : Bytes → ℕ
folded_width cs =
    if has_prefix cs (0xc5 ∷ 0xbf ∷ [])
    then 1
    else if has_prefix cs (0xe2 ∷ 0x84 ∷ 0xaa ∷ [])
    then 2
    else 0

abbrev folded_letter : ℕ → ℕ → ℕ
folded_letter width c = if width == 0 then c else if width == 1 then b's' else b'k'

-- The number counts the bytes that are still to be passed over.
fold_from : ℕ → Bytes → Bytes
fold_from skip [] = []
fold_from (suc skip) (c ∷ cs) = fold_from skip cs
fold_from zero (c ∷ cs) =
    let width = folded_width (c ∷ cs) in folded_letter width c ∷ fold_from width cs

unfoldable pub fold_letters : Bytes → Bytes
unfolding fold_from
fold_letters host = fold_from 0 host

abbrev is_alphanumeric : ℕ → Bool
is_alphanumeric c = is_lower c || is_upper c || is_digit c

abbrev head_is_alphanumeric : Bytes → Bool
head_is_alphanumeric [] = false
head_is_alphanumeric (c ∷ cs) = is_alphanumeric c

-- [a-z0-9](?:[a-z0-9-]{0,61}[a-z0-9])?
unfoldable pub is_label : Bytes → Bool
is_label label =
    head_is_alphanumeric label
    && head_is_alphanumeric (reverse label)
    && all (λ c. is_alphanumeric c || c == b'-') label
    && leb (length label) 63

-- `hostnamePattern`
unfoldable pub matches_hostname : Bytes → Bool
matches_hostname host = all is_label (split_on b'.' (fold_letters host))

module _ (text : AddrText) where
  abbrev pub is_address : Bytes → Bool
  is_address host = elim (text.parse_addr host) [ none ↦ false | some a ↦ true ]

  unfoldable pub validate_endpoint : Endpoint → List Issue
  validate_endpoint endpoint =
      if length endpoint.host == 0
        || not (is_trimmed endpoint.host)
        || ltb 253 (length endpoint.host)
      then bad_host ∷ []
      else if not (is_address endpoint.host) && not (matches_hostname endpoint.host)
      then not_a_host ∷ []
      else issue_if (endpoint.port == 0) bad_endpoint_port
