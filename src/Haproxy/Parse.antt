-- ===== src/Haproxy/Parse.antt =====
-- plan.go: `ParseState`, which reads the bindings of a configuration again, with `net.SplitHostPort`
-- and `strconv.ParseUint`. The hash of a configuration is a library's.
use egress_manager.Base.{
  ℕ, ◌+◌, ◌-◌, ◌*◌, Bool, true, false, ◌&&◌, ◌||◌, not, Option, none, some, List, [], ◌∷◌, ltb,
  ◌==◌, if◌then◌else◌, Bytes, lit, bytes_eq, has_prefix, all, length, split_lines, fields,
  trim_space,
}
use egress_manager.Inventory.{AddrText}
use egress_manager.Inventory.Conflict.{Binding}
use egress_manager.Domain.Identifier.{is_digit}
use egress_manager.Effect.{Result, ok, err}
use egress_manager.Haproxy.Text.{has_byte, maximum_candidate, maximum_frontends}

-- What stands before and behind the last colon.
unfoldable pub split_last_colon : Bytes → Option (Bytes × Bytes)
split_last_colon [] = none
split_last_colon (c ∷ cs) = elim (split_last_colon cs) [
  | some (before, port) ↦ some (c ∷ before, port)
  | none ↦ if c == b':' then some ([], cs) else none
]

-- The text between the brackets, if it begins and ends with them and has no other.
unfoldable pub inside_brackets : Bytes → Option Bytes
inside_brackets [] = none
inside_brackets (c ∷ []) = if c == b']' then some [] else none
inside_brackets (c ∷ d ∷ cs) = elim (inside_brackets (d ∷ cs)) [
  | none ↦ none
  | some rest ↦ if c == b'[' || c == b']' then none else some (c ∷ rest)
]

abbrev has_bracket : Bytes → Bool
has_bracket text = has_byte b'[' text || has_byte b']' text

abbrev pub host_part : Bytes → Option Bytes
host_part [] = some []
host_part (c ∷ cs) =
    if c == b'['
    then inside_brackets cs
    else if has_byte b':' (c ∷ cs) || has_bracket (c ∷ cs)
    then none
    else some (c ∷ cs)

-- `net.SplitHostPort`: `none` is its error.
unfoldable pub split_host_port : Bytes → Option (Bytes × Bytes)
split_host_port text = elim (split_last_colon text) [
  | none ↦ none
  | some (before, port) ↦ elim (host_part before) [
    | none ↦ none
    | some host ↦ if has_bracket port then none else some (host, port)
  ]
]

-- The number that digits stand for.
unfoldable pub value_of : ℕ → Bytes → ℕ
value_of n [] = n
value_of n (c ∷ cs) = value_of (n * 10 + (c - b'0')) cs

-- `strconv.ParseUint(text, 10, 16)`
unfoldable pub parse_port : Bytes → Option ℕ
parse_port text =
    if length text == 0 || not (all is_digit text) || ltb 65535 (value_of 0 text)
    then none
    else some (value_of 0 text)

-- `none` is the nil slice of bindings.
pub record State : Type 0 where
  pub exists : Bool
  pub hash : Bytes
  pub bindings : Option (List Binding)

pub data ParseError : Type 0 where
  unexpected_data bad_size bad_bind too_many_frontends : ParseError

module _ (text : AddrText) where
  -- The binding of a `bind` line: `none` is an error.
  unfoldable pub parse_bind : Bytes → Option Binding
  parse_bind place = elim (split_host_port place) [
    | none ↦ none
    | some (host, port_text) ↦ elim (text.parse_addr host) [
      | none ↦ none
      | some address ↦ elim (parse_port port_text) [
        | none ↦ none
        | some port ↦
            if port == 0
            then none
            else some
                (record { protocol = lit "tcp"; address = text.addr_string address; port = port })
      ]
    ]
  ]

  abbrev pub is_section : Bytes → Bool
  is_section word =
      bytes_eq word (lit "backend")
      || bytes_eq word (lit "global")
      || bytes_eq word (lit "defaults")
      || bytes_eq word (lit "listen")

  -- One line by its words: whether an owned frontend is open behind it, and the place of a binding.
  abbrev pub read_line : Bool → List Bytes → Bool × Option Bytes
  read_line owned [] = (owned, none)
  read_line owned (word ∷ []) = (owned && not (is_section word), none)
  read_line owned (word ∷ second ∷ rest) =
      if bytes_eq word (lit "frontend")
      then (has_prefix second (lit "egm_fe_"), none)
      else if owned && not (is_section word) && length rest == 0 && bytes_eq word (lit "bind")
      then (true, some second)
      else (owned && not (is_section word), none)

  abbrev pub words_of : Bytes → List Bytes
  words_of raw =
      let line = trim_space raw in
      if length line == 0 || has_prefix line (lit "#") then [] else fields line

  -- The loop over the lines; the number counts the bindings read so far.
  unfoldable pub parse_lines : Bool → ℕ → List Bytes → Result ParseError (List Binding)
  parse_lines owned n [] = ok []
  parse_lines owned n (raw ∷ lines) =
      let (open_, place) = read_line owned (words_of raw) in
      let rest = parse_lines open_ (elim place [ none ↦ n | some p ↦ n + 1 ]) lines in
      elim place [
        | none ↦ rest
        | some p ↦ elim (parse_bind p) [
          | none ↦ err bad_bind
          | some b ↦
              if ltb maximum_frontends (n + 1)
              then err too_many_frontends
              else elim rest [ err e ↦ err e | ok bindings ↦ ok (b ∷ bindings) ]
        ]
      ]

  -- `ParseState`, by the hash of a content that exists or not.
  unfoldable pub parse_state : (Bytes → Bool → Bytes) → Bytes → Bool → Result ParseError State
  parse_state hash content exists =
      if not exists
      then (if not (length content == 0)
          then err unexpected_data
          else ok (record { exists = false; hash = hash [] false; bindings = some [] }))
      else if length content == 0 || ltb maximum_candidate (length content)
      then err bad_size
      else elim (parse_lines false 0 (split_lines content)) [
        | err e ↦ err e
        | ok bindings ↦
            ok (record { exists = true; hash = hash content true; bindings = some bindings })
      ]
