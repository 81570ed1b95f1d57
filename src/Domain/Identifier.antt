-- ===== src/Domain/Identifier.antt =====
-- common.go: the patterns of identifiers and names, as tests on bytes.
use egress_manager.Base.{
  ℕ, Bool, false, ◌&&◌, ◌||◌, not, List, [], ◌∷◌, ltb, leb, ◌==◌, if◌then◌else◌, Bytes, any, all,
  length, has_prefix, spaces,
}
use mathlib.Core.List.{reverse}
use egress_manager.Domain.Issue.{
  Issue, issue_if, bad_id, bad_display_name, control_characters, bad_linux_name, bad_config_name,
}

abbrev pub is_lower : ℕ → Bool
is_lower c = leb b'a' c && leb c b'z'

abbrev pub is_upper : ℕ → Bool
is_upper c = leb b'A' c && leb c b'Z'

abbrev pub is_digit : ℕ → Bool
is_digit c = leb b'0' c && leb c b'9'

-- [a-z0-9]
abbrev pub id_head : ℕ → Bool
id_head c = is_lower c || is_digit c

-- [a-z0-9_-]
abbrev pub id_rest : ℕ → Bool
id_rest c = id_head c || c == b'_' || c == b'-'

-- [a-zA-Z0-9_.-]
abbrev pub name_rest : ℕ → Bool
name_rest c = id_rest c || is_upper c || c == b'.'

-- ^[a-z0-9][a-z0-9_-]{0,63}$
unfoldable pub matches_id : Bytes → Bool
matches_id [] = false
matches_id (c ∷ cs) = id_head c && all id_rest cs && leb (length cs) 63

-- ^[a-zA-Z0-9_.-]{1,15}$
unfoldable pub matches_linux_name : Bytes → Bool
matches_linux_name cs = all name_rest cs && leb 1 (length cs) && leb (length cs) 15

-- ^[a-zA-Z0-9][a-zA-Z0-9_.-]{0,62}$
unfoldable pub matches_config_name : Bytes → Bool
matches_config_name [] = false
matches_config_name (c ∷ cs) = (id_head c || is_upper c) && all name_rest cs && leb (length cs) 62

-- `value == strings.TrimSpace(value)`: no space stands first or last.
unfoldable pub is_trimmed : Bytes → Bool
is_trimmed value =
    not (any (λ s. has_prefix value s) spaces)
    && not (any (λ s. has_prefix (reverse value) (reverse s)) spaces)

-- A control character is a byte of its own in UTF-8.
abbrev pub is_control : ℕ → Bool
is_control r = ltb r 0x20 || r == 0x7f

unfoldable pub validate_id : Bytes → List Issue
validate_id id = issue_if (not (matches_id id)) bad_id

unfoldable pub validate_display_name : Bytes → List Issue
validate_display_name value =
    if not (is_trimmed value) || length value == 0 || ltb 96 (length value)
    then bad_display_name ∷ []
    else issue_if (any is_control value) control_characters

unfoldable pub validate_linux_name : Bytes → List Issue
validate_linux_name value = issue_if (not (matches_linux_name value)) bad_linux_name

unfoldable pub validate_config_name : Bytes → List Issue
validate_config_name value = issue_if (not (matches_config_name value)) bad_config_name
