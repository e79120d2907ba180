-- ===== src/Http/Multipart/Meta.antt =====
-- The grammars of source/http/parser_v2/http_parser_v3.cpp for the lines of a multipart body, as
-- Boost.Parser documents its combinators. A skipper takes white space in front of every character and
-- literal, so a run of characters loses the white space inside. `ws` tells the bytes that Boost.Parser
-- counts as white space. An expectation point that fails ends the parse, so failures need not be told apart.
pub mod Printed
use obelisk_asio_coro.Base.{
  ℕ, zero, suc, Bytes, Bool, true, false, List, [], ◌∷◌, Option, none, some, length, take, drop,
  codes, starts_with, is_empty, if◌then◌else◌, ◌==◌, ◌||◌, ◌≡◌, ◌≤◌,
}
use mathlib.Core.Option
use obelisk_asio_coro.Http.Io.Message.{iequals}

-- The characters that end a name, a value and a line.
abbrev pub ends_name : ℕ → Bool
ends_name c = c == b';' || c == b'='

abbrev pub ends_value : ℕ → Bool
ends_value c = c == b';' || c == b'"'

abbrev pub ends_line : ℕ → Bool
ends_line c = c == 13 || c == 10

-- `+(char_ - char_("\r\n"))` without a skipper.
unfoldable pub line_run : Bytes → Bytes × Bytes
line_run [] = ([], [])
line_run (c ∷ s) =
    let (cs, rest) = line_run s in if ends_line c then ([], c ∷ s) else (c ∷ cs, rest)

module _ (ws : ℕ → Bool) where
  -- `*ws`, and what the skipper does.
  unfoldable pub skip : Bytes → Bytes
  skip [] = []
  skip (c ∷ s) = if ws c then skip s else c ∷ s

  -- `*(char_ - char_(set))` under the skipper: the characters, and the text behind them.
  unfoldable pub run : (ℕ → Bool) → Bytes → Bytes × Bytes
  run stop [] = ([], [])
  run stop (c ∷ s) =
      let (cs, rest) = run stop s in
      if ws c then (cs, rest) else if stop c then ([], c ∷ s) else (c ∷ cs, rest)

  -- `-lit("\"")`
  unfoldable pub optional_quote : Bytes → Bytes
  unfolding skip
  optional_quote s = elim (skip s) [ [] ↦ [] | c ∷ rest ↦ if c == b'"' then rest else c ∷ rest ]

  -- What stands behind the `=` of an item.
  unfoldable pub parse_value : Bytes → Option (Bytes × Bytes)
  unfolding optional_quote run
  parse_value s =
      let (value, rest) = run ends_value (optional_quote s) in
      if is_empty value then none else some (value, optional_quote rest)

  -- `MultipartMetaParser`: a name, and a value that may be missing.
  unfoldable pub parse_named : Bytes × Bytes → Option ((Bytes × Bytes) × Bytes)
  unfolding parse_value
  parse_named (name, []) = if is_empty name then none else some ((name, []), [])
  parse_named (name, c ∷ behind) =
      if is_empty name
      then none
      else if c == b'='
      then Option.map (λ r. ((name, r.0), r.1)) (parse_value behind)
      else some ((name, []), c ∷ behind)

  unfoldable pub parse_meta : Bytes → Option ((Bytes × Bytes) × Bytes)
  unfolding parse_named run
  parse_meta s = parse_named (run ends_name s)

  -- `MultipartMetaParser % ';'`, up to the end of the text.
  unfoldable pub parse_metas : ℕ → Bytes → Option (List (Bytes × Bytes))
  unfolding parse_meta skip
  parse_metas zero s = none
  parse_metas (suc fuel) s = elim (parse_meta s) [
    | none ↦ none
    | some (item, rest) ↦ elim (skip rest) [
      | [] ↦ some (item ∷ [])
      | c ∷ behind ↦
          let items = parse_metas fuel behind in
          if c == b';' then Option.map (◌∷◌ item) items else none
    ]
  ]

  -- A literal behind the skipper.
  unfoldable pub parse_literal : Bytes → Bytes → Option Bytes
  unfolding skip
  parse_literal text s =
      if starts_with (skip s) text then some (drop (length text) (skip s)) else none

  unfoldable pub parse_literal_no_case : Bytes → Bytes → Option Bytes
  unfolding skip iequals
  parse_literal_no_case text s =
      if iequals (take (length text) (skip s)) text
      then some (drop (length text) (skip s))
      else none

  infixl 5 ◌then_parse◌
  abbrev pub ◌then_parse◌ {ℓ} : {A : Type ℓ} → Option Bytes → (Bytes → Option A) → Option A
  none then_parse f = none
  (some s) then_parse f = f s

  -- `lit("Content-Disposition") > ':' > (MultipartMetaParser % ';')`
  unfoldable pub parse_disposition : Bytes → Option (List (Bytes × Bytes))
  unfolding parse_literal parse_metas
  parse_disposition line = parse_literal (codes "Content-Disposition") line then_parse λ s1.
      parse_literal (codes ":") s1 then_parse λ s2. parse_metas (suc (length s2)) s2

  -- A run that is not empty and behind which only white space stands.
  unfoldable pub whole_run : Bytes × Bytes → Option Bytes
  unfolding skip
  whole_run (text, rest) =
      if is_empty text then none else if is_empty (skip rest) then some text else none

  -- `ContentTypeParser`
  unfoldable pub parse_content_type : Bytes → Option Bytes
  unfolding parse_literal_no_case parse_literal run whole_run
  parse_content_type line = parse_literal_no_case (codes "Content-Type") line then_parse λ s1.
      parse_literal (codes ":") s1 then_parse λ s2. whole_run (run ends_line s2)

  -- `parse_boundary`: `none` is the exception.
  unfoldable pub parse_boundary : Bytes → Option Bytes
  unfolding parse_literal_no_case skip line_run whole_run
  parse_boundary content_type =
      parse_literal_no_case (codes "multipart/form-data;") content_type then_parse λ s1.
      parse_literal_no_case (codes "boundary=") s1 then_parse λ s2. whole_run (line_run (skip s2))
