-- ===== src/Http/Multipart/Meta/Printed.antt =====
-- The lines that browsers write for the parts of a form, and what the grammars of Meta make of them.
use obelisk_asio_coro.Base.{
  ℕ, suc, Bytes, Bool, true, false, [], ◌∷◌, ◌++◌, some, length, codes, starts_with_refl,
  drop-length-append, take-length-append, take, is_empty, All, all, leb, not, ◌&&◌, Bool-cases, inl,
  inr, ◌≡◌, ◌≤◌, arith, refl, ap, ◌∙◌,
}
use mathlib.Core.Option
use obelisk_asio_coro.Http.Io.Message.{iequals}
use obelisk_asio_coro.Http.Multipart.Meta.{
  skip, run, optional_quote, parse_value, parse_named, parse_meta, parse_metas, parse_literal,
  parse_disposition, ends_name, ends_value, ends_line, whole_run, parse_content_type,
  parse_literal_no_case,
}

-- What is used of Boost.Parser's `ws`.
pub record IsSkipper (ws : ℕ → Bool) : Type 0 where
  pub blank : ws 32 ≡ true
  pub line_end : ws 13 ≡ true
  pub graphic : (c : ℕ) → 33 ≤ c → c ≤ 126 → ws c ≡ false

-- A visible character that does not end what it stands in.
abbrev pub visible : (ℕ → Bool) → ℕ → Bool
visible stop c = (leb 33 c && leb c 126) && not (stop c)

-- A text between quotes: visible characters, without a semicolon or a quote.
abbrev pub Quotable : Bytes → Type 0
Quotable s = (all (visible ends_value) s ≡ true) × (is_empty s ≡ false)

-- Visible characters alone.
abbrev pub Visible : Bytes → Type 0
Visible s = (all (visible ends_line) s ≡ true) × (is_empty s ≡ false)

module _ (ws : ℕ → Bool) (is_ws : IsSkipper ws) where
  Plain : (ℕ → Bool) → Bytes → Type 0
  Plain stop s = All (λ c. (ws c ≡ false) × (stop c ≡ false)) s

  visible-solid :
      (stop : ℕ → Bool) (c : ℕ) → visible stop c ≡ true → (ws c ≡ false) × (stop c ≡ false)
  visible-solid stop c h = (is_ws.graphic c (ground arith) (ground arith), ground arith)

  visible-Plain : (stop : ℕ → Bool) (s : Bytes) → all (visible stop) s ≡ true → Plain stop s
  unfolding Plain
  visible-Plain stop [] h = tt
  visible-Plain stop (c ∷ s) h = elim (Bool-cases (visible stop c)) [
    | inl seen ↦ (visible-solid stop c seen, visible-Plain stop s (let e = (rw (seen) at h) in e))
    | inr hidden ↦ absurd (let e = (rw (hidden) at h) in cc)
  ]

  run-Plain :
      (stop : ℕ → Bool) (s : Bytes) (c : ℕ) (rest : Bytes)
      → Plain stop s
      → ws c ≡ false
      → stop c ≡ true
      → run ws stop (s ++ c ∷ rest) ≡ (s, c ∷ rest)
  unfolding run Plain
  run-Plain stop [] c rest h solid ends = rw (solid, ends) refl
  run-Plain stop (x ∷ s) c rest ((visible, goes_on), h) solid ends =
      rw (visible, goes_on, run-Plain stop s c rest h solid ends) refl

  skip-solid : (c : ℕ) (rest : Bytes) → ws c ≡ false → skip ws (c ∷ rest) ≡ c ∷ rest
  unfolding skip
  skip-solid c rest solid = rw (solid) refl

  optional_quote-quote : (rest : Bytes) → optional_quote ws (34 ∷ rest) ≡ rest
  unfolding optional_quote
  optional_quote-quote rest =
      rw (skip-solid 34 rest (is_ws.graphic 34 (omega arith) (omega arith)), optional_quote) refl

  parse_value-quoted :
      (v rest : Bytes) → Quotable v → parse_value ws (34 ∷ (v ++ 34 ∷ rest)) ≡ some (v, rest)
  unfolding parse_value
  parse_value-quoted v rest (h, full) =
      rw
        (
          optional_quote-quote (v ++ 34 ∷ rest),
          run-Plain ends_value v 34 rest (visible-Plain ends_value v h)
              (is_ws.graphic 34 (omega arith) (omega arith)) refl,
          parse_value,
        )
        (rw (full, optional_quote-quote rest) refl)

  parse_meta-named :
      (name v rest : Bytes)
      → Plain ends_name name
      → is_empty name ≡ false
      → Quotable v
      → parse_meta ws (name ++ 61 ∷ 34 ∷ (v ++ 34 ∷ rest)) ≡ some ((name, v), rest)
  unfolding parse_meta parse_named
  parse_meta-named name v rest h full quotable =
      ap (parse_named ws) (
        run-Plain ends_name name 61 (34 ∷ (v ++ 34 ∷ rest)) h
          (is_ws.graphic 61 (omega arith) (omega arith)) refl)
      ∙ rw (full) (rw (parse_value-quoted v rest quotable) refl)

  parse_meta-bare :
      (name rest : Bytes)
      → Plain ends_name name
      → is_empty name ≡ false
      → parse_meta ws (name ++ 59 ∷ rest) ≡ some ((name, []), 59 ∷ rest)
  unfolding parse_meta parse_named
  parse_meta-bare name rest h full =
      ap (parse_named ws)
        (run-Plain ends_name name 59 rest h (is_ws.graphic 59 (omega arith) (omega arith)) refl)
      ∙ rw (full) refl

  run-blank : (s : Bytes) → run ws ends_name (32 ∷ s) ≡ run ws ends_name s
  unfolding run
  run-blank s = rw (is_ws.blank) refl

  parse_meta-blank : (s : Bytes) → parse_meta ws (32 ∷ s) ≡ parse_meta ws s
  unfolding parse_meta
  parse_meta-blank s = ap (parse_named ws) (run-blank s)

  parse_metas-more :
      (fuel : ℕ) (s behind : Bytes) (item : Bytes × Bytes)
      → parse_meta ws s ≡ some (item, 59 ∷ behind)
      → parse_metas ws (suc fuel) s ≡ Option.map (◌∷◌ item) (parse_metas ws fuel behind)
  unfolding parse_metas
  parse_metas-more fuel s behind item h =
      rw (h, skip-solid 59 behind (is_ws.graphic 59 (omega arith) (omega arith)), parse_metas) refl

  parse_metas-last :
      (fuel : ℕ) (s : Bytes) (item : Bytes × Bytes)
      → parse_meta ws s ≡ some (item, 13 ∷ [])
      → parse_metas ws (suc fuel) s ≡ some (item ∷ [])
  unfolding parse_metas skip
  parse_metas-last fuel s item h = rw (h, parse_metas) (rw (is_ws.line_end) refl)

  parse_literal-at :
      (c : ℕ) (text rest : Bytes)
      → ws c ≡ false
      → parse_literal ws (c ∷ text) ((c ∷ text) ++ rest) ≡ some rest
  unfolding parse_literal
  parse_literal-at c text rest solid =
      rw (skip-solid c (text ++ rest) solid, starts_with_refl (c ∷ text) rest)
        (ap some (drop-length-append (c ∷ text) rest))

  name-Plain : Plain ends_name (codes "name")
  name-Plain = visible-Plain ends_name (codes "name") refl

  filename-Plain : Plain ends_name (codes "filename")
  filename-Plain = visible-Plain ends_name (codes "filename") refl

  form_data-Plain : Plain ends_name (codes "form-data")
  form_data-Plain = visible-Plain ends_name (codes "form-data") refl

  -- ` name="..."` behind a semicolon, in front of the line end.
  meta_name :
      (n rest : Bytes)
      → Quotable n
      → parse_meta ws (codes " name=\"" ++ (n ++ 34 ∷ rest)) ≡ some ((codes "name", n), rest)
  meta_name n rest h =
      parse_meta-blank (codes "name=\"" ++ (n ++ 34 ∷ rest))
      ∙ parse_meta-named (codes "name") n rest name-Plain refl h

  meta_filename :
      (f rest : Bytes)
      → Quotable f
      → parse_meta ws (codes " filename=\"" ++ (f ++ 34 ∷ rest))
        ≡ some ((codes "filename", f), rest)
  meta_filename f rest h =
      parse_meta-blank (codes "filename=\"" ++ (f ++ 34 ∷ rest))
      ∙ parse_meta-named (codes "filename") f rest filename-Plain refl h

  meta_form_data :
      (rest : Bytes)
      → parse_meta ws (codes " form-data;" ++ rest) ≡ some ((codes "form-data", []), 59 ∷ rest)
  meta_form_data rest =
      parse_meta-blank (codes "form-data;" ++ rest)
      ∙ parse_meta-bare (codes "form-data") rest form_data-Plain refl

  -- The line of a part with a value.
  pub parse_disposition-name :
      (n : Bytes)
      → Quotable n
      → parse_disposition ws
          (codes "Content-Disposition: form-data; name=\"" ++ (n ++ codes "\"\r"))
        ≡ some ((codes "form-data", []) ∷ (codes "name", n) ∷ [])
  unfolding parse_disposition
  parse_disposition-name n h =
      let tail : Bytes = codes " name=\"" ++ (n ++ codes "\"\r") in
      rw
        (
          parse_literal-at 67 (codes "ontent-Disposition") (codes ": form-data;" ++ tail)
              (is_ws.graphic 67 (omega arith) (omega arith)),
          parse_literal-at 58 [] (codes " form-data;" ++ tail)
              (is_ws.graphic 58 (omega arith) (omega arith)),
          parse_metas-more (length (codes " form-data;" ++ tail)) (codes " form-data;" ++ tail) tail
              (codes "form-data", []) (meta_form_data tail),
        )
        (ap (Option.map (◌∷◌ (codes "form-data", []))) (
          parse_metas-last (length (codes "form-data;" ++ tail)) tail (codes "name", n)
            (meta_name n (13 ∷ []) h)))

  -- The line of a part with a file.
  pub parse_disposition-filename :
      (n f : Bytes)
      → Quotable n
      → Quotable f
      → parse_disposition ws (
          codes "Content-Disposition: form-data; name=\""
          ++ (n ++ (codes "\"; filename=\"" ++ (f ++ codes "\"\r"))))
        ≡ some ((codes "form-data", []) ∷ (codes "name", n) ∷ (codes "filename", f) ∷ [])
  unfolding parse_disposition
  parse_disposition-filename n f h k =
      let last : Bytes = codes " filename=\"" ++ (f ++ codes "\"\r") in
      let tail : Bytes = codes " name=\"" ++ (n ++ (codes "\";" ++ last)) in
      rw
        (
          parse_literal-at 67 (codes "ontent-Disposition") (codes ": form-data;" ++ tail)
              (is_ws.graphic 67 (omega arith) (omega arith)),
          parse_literal-at 58 [] (codes " form-data;" ++ tail)
              (is_ws.graphic 58 (omega arith) (omega arith)),
          parse_metas-more (length (codes " form-data;" ++ tail)) (codes " form-data;" ++ tail) tail
              (codes "form-data", []) (meta_form_data tail),
          parse_metas-more (length (codes "form-data;" ++ tail)) tail last (codes "name", n)
              (meta_name n (59 ∷ last) h),
        )
        (ap (λ z. Option.map (◌∷◌ (codes "form-data", [])) (Option.map (◌∷◌ (codes "name", n)) z))
          (parse_metas-last (length (codes "orm-data;" ++ tail)) last (codes "filename", f)
            (meta_filename f (13 ∷ []) k)))

  run-line : (stop : ℕ → Bool) (s : Bytes) → Plain stop s → run ws stop (s ++ 13 ∷ []) ≡ (s, [])
  unfolding run Plain
  run-line stop [] h = rw (is_ws.line_end) refl
  run-line stop (x ∷ s) ((solid, goes_on), h) = rw (solid, goes_on, run-line stop s h) refl

  run-blank_line : (s : Bytes) → run ws ends_line (32 ∷ s) ≡ run ws ends_line s
  unfolding run
  run-blank_line s = rw (is_ws.blank) refl

  parse_literal_no_case-at :
      (c : ℕ) (text rest : Bytes)
      → ws c ≡ false
      → iequals (c ∷ text) (c ∷ text) ≡ true
      → parse_literal_no_case ws (c ∷ text) ((c ∷ text) ++ rest) ≡ some rest
  unfolding parse_literal_no_case
  parse_literal_no_case-at c text rest solid same =
      let front : take (length text) (text ++ rest) ≡ text = take-length-append text rest in
      rw (skip-solid c (text ++ rest) solid, front, same)
        (ap some (drop-length-append (c ∷ text) rest))

  -- The line with the type of a file.
  pub parse_content_type-line :
      (t : Bytes)
      → Visible t
      → parse_content_type ws (codes "Content-Type: " ++ (t ++ codes "\r")) ≡ some t
  unfolding parse_content_type iequals whole_run skip
  parse_content_type-line t (h, full) =
      rw
        (
          parse_literal_no_case-at 67 (codes "ontent-Type") (codes ": " ++ (t ++ codes "\r"))
              (is_ws.graphic 67 (omega arith) (omega arith)) refl,
          parse_literal-at 58 [] (codes " " ++ (t ++ codes "\r"))
              (is_ws.graphic 58 (omega arith) (omega arith)),
          run-blank_line (t ++ codes "\r"),
          run-line ends_line t (visible-Plain ends_line t h),
        )
        (rw (full) refl)
