-- ===== src/Http/Multipart/Form/Parts.antt =====
-- parse_multipart_body of source/http/parser_v2/http_parser_v3.cpp on one part of the text of a form.
use obelisk_asio_coro.Base.{
  ℕ, Bytes, List, [], ◌∷◌, ◌++◌, ◌+◌, ◌-◌, ◌<◌, ◌≤◌, Lacks, length, take, drop, codes, beq, beq→eq,
  is_empty, false, ◌≡◌, arith, refl, ap, sym, ◌∙◌, Bool-cases, inl, inr, length-append,
  take-length-append,
}
use obelisk_asio_coro.Http.Header.{lookup}
use obelisk_asio_coro.Http.Io.{block}
use obelisk_asio_coro.Http.Multipart.Stream.{InStream, opened}
use obelisk_asio_coro.Http.Multipart.Upload.{copy_file, kept, line_and_split}
use obelisk_asio_coro.Http.Multipart.Upload.Whole.{IsContent, copy_file-content}
use obelisk_asio_coro.Http.Multipart.Meta.Printed.{
  IsSkipper, Quotable, Visible, parse_disposition-name, parse_disposition-filename,
  parse_content_type-line,
}
use obelisk_asio_coro.Http.Multipart.Body.{
  Outside, Work, next, parse_part, read_part, read_value, store_value, read_file, check_type,
  choose_part, read_content, store_file, put_file, new_path, boundary_end_data,
}
use obelisk_asio_coro.Http.Multipart.Form.{
  boundary_line, name_line, filename_line, type_line, getline-line, drop-line, boundary_line-Lacks,
  name_line-Lacks, filename_line-Lacks, type_line-Lacks, value_line-Lacks,
}

-- What a file part leaves.
unfoldable pub file_stored : Outside → Bytes → Bytes → Bytes → Bytes → Bytes → Work → Work
file_stored o b n f t content w =
    put_file n (record { temp_path = new_path o b f w; filename = f; mime_type = t })
      (record w { disk = w.disk ++ (new_path o b f w, content) ∷ []; made = w.made + 1 })

value-not_empty : (t : Bytes) → is_empty (t ++ codes "\r") ≡ false
value-not_empty [] = refl
value-not_empty (x ∷ t) = refl

-- `resize(length() - 1)` takes the carriage return off.
value_of_line : (t : Bytes) → take (length (t ++ codes "\r") - 1) (t ++ codes "\r") ≡ t
value_of_line t =
    let size = length-append t (codes "\r") in
    let n : length (t ++ codes "\r") - 1 ≡ length t = omega arith in
    ap (λ k. take k (t ++ codes "\r")) n ∙ take-length-append t (codes "\r")

module _ (o : Outside) (is_ws : IsSkipper o.ws) (b : Bytes) (plain : Lacks 10 b) where
  pub not_last : beq (boundary_line b) (boundary_end_data o b) ≡ false
  not_last = elim (Bool-cases (beq (boundary_line b) (boundary_end_data o b))) [
    | inl same ↦
        let e = ap length (beq→eq (boundary_line b) (boundary_end_data o b) same) in
        let size = length-append b (codes "\r") in
        let size2 = length-append b (codes "--\r") in absurd (omega arith)
    | inr other ↦ other
  ]

  -- The line of the boundary.
  pub parse_part-boundary :
      (fuel : ℕ) (w : Work) (text rest : Bytes) (p : ℕ)
      → drop p text ≡ boundary_line b ++ 10 ∷ rest
      → parse_part o b fuel w (opened text p)
        ≡ read_part o b fuel (boundary_line b) w (opened text (p + length (boundary_line b) + 1))
  unfolding parse_part
  parse_part-boundary fuel w text rest p at =
      rw
        (getline-line text p (boundary_line b) rest [] at (boundary_line-Lacks b plain), parse_part)
        (rw (not_last) refl)

  abbrev pub value_meta : Bytes → List (Bytes × Bytes)
  value_meta n = (codes "form-data", []) ∷ (codes "name", n) ∷ []

  abbrev pub file_meta : Bytes → Bytes → List (Bytes × Bytes)
  file_meta n f = (codes "form-data", []) ∷ (codes "name", n) ∷ (codes "filename", f) ∷ []

  pub read_part-name :
      (fuel : ℕ) (w : Work) (text n rest held : Bytes) (p : ℕ)
      → Quotable n
      → drop p text ≡ name_line n ++ 10 ∷ rest
      → read_part o b fuel held w (opened text p)
        ≡ read_value o b (value_meta n) (name_line n) w (opened text (p + length (name_line n) + 1))
  unfolding read_part choose_part lookup beq
  read_part-name fuel w text n rest held p h at =
      let line = getline-line text p (name_line n) rest held at (name_line-Lacks n h) in
      rw (line, read_part) (rw (parse_disposition-name o.ws is_ws n h, choose_part) refl)

  pub read_part-filename :
      (fuel : ℕ) (w : Work) (text n f rest held : Bytes) (p : ℕ)
      → Quotable n
      → Quotable f
      → drop p text ≡ filename_line n f ++ 10 ∷ rest
      → read_part o b fuel held w (opened text p)
        ≡ read_file o b fuel
            (file_meta n f)
            f
            (filename_line n f)
            w
            (opened text (p + length (filename_line n f) + 1))
  unfolding read_part choose_part lookup beq
  read_part-filename fuel w text n f rest held p h k at =
      let line =
        getline-line text p (filename_line n f) rest held at (filename_line-Lacks n f h k) in
      rw (line, read_part) (rw (parse_disposition-filename o.ws is_ws n f h k, choose_part) refl)

  pub read_value-line :
      (w : Work) (text n t rest held : Bytes) (p : ℕ)
      → Lacks 10 t
      → drop p text ≡ codes "\r" ++ 10 ∷ ((t ++ codes "\r") ++ 10 ∷ rest)
      → read_value o b (value_meta n) held w (opened text p)
        ≡ store_value o b
            (value_meta n)
            t
            w
            (opened text (p + 1 + 1 + length (t ++ codes "\r") + 1))
  unfolding read_value beq
  read_value-line w text n t rest held p h at =
      let blank_at : drop p text ≡ (13 ∷ []) ++ 10 ∷ ((t ++ codes "\r") ++ 10 ∷ rest) = at in
      let blank =
        getline-line text p (13 ∷ []) ((t ++ codes "\r") ++ 10 ∷ rest) held at (refl, tt) in
      let later = drop-line text p (13 ∷ []) ((t ++ codes "\r") ++ 10 ∷ rest) held at (refl, tt) in
      let line =
        getline-line text (p + 1 + 1) (t ++ codes "\r") rest (codes "\r") later
          (value_line-Lacks t h) in
      rw (blank, read_value) (rw (line) (rw (value-not_empty t, value_of_line t) refl))

  check_type-line :
      (fuel : ℕ) (w : Work) (n f t : Bytes) (s : InStream)
      → Visible t
      → check_type o b fuel (file_meta n f) f (type_line t) w s
        ≡ read_content o b fuel (file_meta n f) f t (type_line t) w s
  unfolding check_type beq
  check_type-line fuel w n f t s h = rw (parse_content_type-line o.ws is_ws t h) refl

  pub read_file-type :
      (fuel : ℕ) (w : Work) (text n f t rest held : Bytes) (p : ℕ)
      → Visible t
      → drop p text ≡ type_line t ++ 10 ∷ rest
      → read_file o b fuel (file_meta n f) f held w (opened text p)
        ≡ read_content o b fuel
            (file_meta n f)
            f
            t
            (type_line t)
            w
            (opened text (p + length (type_line t) + 1))
  unfolding read_file
  read_file-type fuel w text n f t rest held p h at =
      rw (getline-line text p (type_line t) rest held at (type_line-Lacks t h), read_file)
        (check_type-line fuel w n f t (opened text (p + length (type_line t) + 1)) h)

  pub read_content-blank :
      (fuel : ℕ) (w : Work) (text n f t content rest held : Bytes) (p : ℕ)
      → kept b ≤ block
      → IsContent b content
      → length (content ++ (line_and_split b ++ rest)) < fuel
      → drop p text ≡ codes "\r" ++ 10 ∷ (content ++ (line_and_split b ++ rest))
      → read_content o b fuel (file_meta n f) f t held w (opened text p)
        ≡ next (file_stored o b n f t content w) (opened text (p + 1 + 1 + (length content + 2)))
  unfolding read_content store_file beq lookup file_stored
  read_content-blank fuel w text n f t content rest held p fits h enough at =
      let blank_at : drop p text ≡ (13 ∷ []) ++ 10 ∷ (content ++ (line_and_split b ++ rest)) = at in
      let blank =
        getline-line text p (13 ∷ []) (content ++ (line_and_split b ++ rest)) held at (refl, tt) in
      let later =
        drop-line text p (13 ∷ []) (content ++ (line_and_split b ++ rest)) held at (refl, tt) in
      let start : p + 1 + 1 + 0 ≡ p + 1 + 1 = omega arith in
      let copy =
        ap (λ q. copy_file fuel b [] [] (opened text q)) (sym start)
        ∙ copy_file-content b rest fits fuel [] text content (p + 1 + 1) 0 h later (omega arith)
            (omega arith) in
      rw (blank, read_content) (rw (copy, store_file) refl)
