-- ===== src/Http/Multipart/Form/RoundTrip.antt =====
-- What is written as a form is read as that form: parse_multipart_body of
-- source/http/parser_v2/http_parser_v3.cpp on the text of a form.
use obelisk_asio_coro.Base.{
  ℕ, zero, suc, Bytes, List, [], ◌∷◌, ◌++◌, ◌+◌, ◌<◌, ◌≤◌, Lacks, Lacks-append, length, drop, codes,
  beq, beq_refl, All, ◌≡◌, arith, refl, ap, sym, ◌∙◌, length-append, drop-add, drop-length-append,
  append_assoc, length-drop,
}
use obelisk_asio_coro.Http.Header.{lookup}
use obelisk_asio_coro.Http.Json.{string, set_param}
use obelisk_asio_coro.Http.Io.{block}
use obelisk_asio_coro.Http.Multipart.Stream.{InStream, opened}
use obelisk_asio_coro.Http.Multipart.Upload.{kept, split_data, line_and_split}
use obelisk_asio_coro.Http.Multipart.Meta.Printed.{IsSkipper}
use obelisk_asio_coro.Http.Multipart.Body.{
  Outside, Work, next, finished, parse_part, store_value, parse_parts, parse_multipart_body,
  put_file, boundary_end_data,
}
use obelisk_asio_coro.Http.Multipart.Form.{
  Part, value, file, print_part, print_form, IsPart, boundary_line, name_line, filename_line,
  type_line, getline-line, drop-line, boundary_line-Lacks, name_line-Lacks, filename_line-Lacks,
  type_line-Lacks, value_line-Lacks, all-Lacks,
}
use obelisk_asio_coro.Http.Multipart.Form.Parts.{
  parse_part-boundary, read_part-name, read_part-filename, read_value-line, read_file-type,
  read_content-blank, file_stored,
}
use obelisk_asio_coro.Http.Multipart.Form.Values.{NoArrays, set_param-NoArrays, put_value-plain}

-- What a form leaves: a value is set, the last one of a name counts; a file is put on the disk and noted.
unfoldable pub store_part : Outside → Bytes → Part → Work → Work
store_part o b (value n t) w = record w {
  request = record w.request { params = set_param n (string t) w.request.params };
}
store_part o b (file n f t content) w = file_stored o b n f t content w

unfoldable pub store_form : Outside → Bytes → List Part → Work → Work
store_form o b [] w = w
store_form o b (p ∷ ps) w = store_form o b ps (store_part o b p w)

store_part-NoArrays :
    (o : Outside) (b : Bytes) (p : Part) (w : Work)
    → NoArrays w.request.params
    → NoArrays (store_part o b p w).request.params
unfolding store_part file_stored put_file
store_part-NoArrays o b (value n t) w h = set_param-NoArrays n t w.request.params h
store_part-NoArrays o b (file n f t content) w h = h

module _ (o : Outside) (is_ws : IsSkipper o.ws) (b : Bytes) (plain : Lacks 10 b)
    (fits : kept b ≤ block) where
  -- Behind a part the next one begins, or the end of the form.
  BeginsWith : Bytes → Type 0
  BeginsWith rest = (behind : Bytes) × (rest ≡ split_data b ++ behind)

  print_form-BeginsWith : (ps : List Part) → BeginsWith (print_form b ps)
  unfolding BeginsWith print_form print_part
  print_form-BeginsWith [] = (codes "--\r\n", refl)
  print_form-BeginsWith (value n t ∷ ps) = (_, append_assoc (codes "--" ++ b) (codes "\r") _)
  print_form-BeginsWith (file n f t content ∷ ps) =
      (_, append_assoc (codes "--" ++ b) (codes "\r") _)

  -- What a turn of the loop makes of a part.
  record Turn (fuel : ℕ) (p : Part) (w : Work) (text rest : Bytes) (from : ℕ) : Type 0 where
    to : ℕ
    turned : parse_part o b fuel w (opened text from) ≡ next (store_part o b p w) (opened text to)
    left : drop to text ≡ rest

  Turn-value :
      (fuel : ℕ) (n t : Bytes) (w : Work) (text rest : Bytes) (from : ℕ)
      → IsPart b (value n t)
      → NoArrays w.request.params
      → drop from text ≡ print_part b (value n t) rest
      → Turn fuel (value n t) w text rest from
  unfolding print_part store_part store_value lookup beq
  Turn-value fuel n t w text rest from (quotable, bare, one_line) no_arrays at =
      let blank : Bytes = codes "\r" in
      let rest3 : Bytes = (t ++ codes "\r") ++ 10 ∷ rest in
      let rest2 : Bytes = blank ++ 10 ∷ rest3 in
      let rest1 : Bytes = name_line n ++ 10 ∷ rest2 in
      let p1 = from + length (boundary_line b) + 1 in
      let p2 = p1 + length (name_line n) + 1 in
      let at1 = drop-line text from (boundary_line b) rest1 [] at (boundary_line-Lacks b plain) in
      let at2 = drop-line text p1 (name_line n) rest2 [] at1 (name_line-Lacks n quotable) in
      let at3 = drop-line text p2 (13 ∷ []) rest3 [] at2 (refl, tt) in
      record {
        to = p2 + 1 + 1 + length (t ++ codes "\r") + 1;
        turned =
            parse_part-boundary o is_ws b plain fuel w text rest1 from at
            ∙ (read_part-name o is_ws b plain fuel w text n rest2 (boundary_line b) p1 quotable at1
                ∙ (read_value-line o is_ws b plain w text n t rest (name_line n) p2 one_line at2
                    ∙ rw (put_value-plain n t w.request.params bare no_arrays, store_value) refl));
        left =
            drop-line text (p2 + 1 + 1) (t ++ codes "\r") rest [] at3 (value_line-Lacks t one_line);
      }

  Turn-file :
      (fuel : ℕ) (n f t content : Bytes) (w : Work) (text rest : Bytes) (from : ℕ)
      → IsPart b (file n f t content)
      → BeginsWith rest
      → length text < fuel
      → drop from text ≡ print_part b (file n f t content) rest
      → Turn fuel (file n f t content) w text rest from
  unfolding print_part store_part BeginsWith
  Turn-file fuel n f t content w text rest from (quotable, quotable2, visible_type, whole)
        (behind, begins) enough at =
      let shape : content ++ (codes "\r\n" ++ rest) ≡ content ++ (line_and_split b ++ behind) =
        ap (λ z. content ++ (codes "\r\n" ++ z)) begins in
      let rest3 : Bytes = content ++ (codes "\r\n" ++ rest) in
      let rest2 : Bytes = codes "\r" ++ 10 ∷ rest3 in
      let rest1 : Bytes = type_line t ++ 10 ∷ rest2 in
      let rest0 : Bytes = filename_line n f ++ 10 ∷ rest1 in
      let p1 = from + length (boundary_line b) + 1 in
      let p2 = p1 + length (filename_line n f) + 1 in
      let p3 = p2 + length (type_line t) + 1 in
      let at1 = drop-line text from (boundary_line b) rest0 [] at (boundary_line-Lacks b plain) in
      let at2 =
        drop-line text p1 (filename_line n f) rest1 [] at1
          (filename_line-Lacks n f quotable quotable2) in
      let at3 = drop-line text p2 (type_line t) rest2 [] at2 (type_line-Lacks t visible_type) in
      let at4 = drop-line text p3 (13 ∷ []) rest3 [] at3 (refl, tt) in
      let size = ap length (sym at4 ∙ refl) in
      let size2 = length-drop (p3 + 1 + 1) text in
      let size3 = ap length shape in
      record {
        to = p3 + 1 + 1 + (length content + 2);
        turned =
            parse_part-boundary o is_ws b plain fuel w text rest0 from at
            ∙ (read_part-filename o is_ws b plain fuel w text n f rest1 (boundary_line b) p1
                  quotable quotable2 at1
                ∙ (read_file-type o is_ws b plain fuel w text n f t rest2 (filename_line n f) p2
                      visible_type at2
                    ∙ read_content-blank o is_ws b plain fuel w text n f t content behind
                        (type_line t) p3 fits whole (omega arith)
                        (at3 ∙ ap (λ z. codes "\r" ++ 10 ∷ z) shape)));
        left =
            sym (drop-add (p3 + 1 + 1) (length content + 2) text)
            ∙ (ap (drop (length content + 2)) at4
                ∙ (sym (drop-add (length content) 2 rest3)
                    ∙ ap (drop 2) (drop-length-append content (codes "\r\n" ++ rest))));
      }

  -- The line behind the last part ends the loop.
  parse_part-end :
      (fuel : ℕ) (w : Work) (text : Bytes) (from : ℕ)
      → drop from text ≡ print_form b []
      → (s : InStream) × (parse_part o b fuel w (opened text from) ≡ finished w s)
  unfolding print_form parse_part
  parse_part-end fuel w text from at =
      let line = boundary_end_data o b in
      let shape : drop from text ≡ line ++ 10 ∷ [] =
        at ∙ ap (λ z. codes "--" ++ z) (sym (append_assoc b (codes "--\r") (10 ∷ []))) in
      let last : Lacks 10 line =
        Lacks-append 10 (codes "--") (b ++ codes "--\r") (all-Lacks (codes "--") refl)
          (Lacks-append 10 b (codes "--\r") plain (all-Lacks (codes "--\r") refl)) in
      (
        opened text (from + length line + 1),
        rw (getline-line text from line [] [] shape last, parse_part) (rw (beq_refl line) refl),
      )

  turn :
      (fuel : ℕ) (p : Part) (w : Work) (text rest : Bytes) (from : ℕ)
      → IsPart b p
      → NoArrays w.request.params
      → BeginsWith rest
      → length text < fuel
      → drop from text ≡ print_part b p rest
      → Turn fuel p w text rest from
  turn fuel (value n t) w text rest from good no_arrays begins enough at =
      Turn-value fuel n t w text rest from good no_arrays at
  turn fuel (file n f t content) w text rest from good no_arrays begins enough at =
      Turn-file fuel n f t content w text rest from good begins enough at

  parse_parts-form :
      (fuel turns : ℕ) (ps : List Part) (w : Work) (text : Bytes) (from : ℕ)
      → All (IsPart b) ps
      → NoArrays w.request.params
      → length text < fuel
      → length ps < turns
      → drop from text ≡ print_form b ps
      → (s : InStream) × (parse_parts o b fuel turns w (opened text from)
          ≡ finished (store_form o b ps w) s)
  unfolding parse_parts store_form print_form
  parse_parts-form fuel zero ps w text from good no_arrays enough more at = absurd (omega arith)
  parse_parts-form fuel (suc turns) [] w text from good no_arrays enough more at =
      let (s, ended) = parse_part-end fuel w text from at in (s, rw (ended, parse_parts) refl)
  parse_parts-form fuel (suc turns) (p ∷ ps) w text from (good, goods) no_arrays enough more at =
      let t =
        turn fuel p w text (print_form b ps) from good no_arrays (print_form-BeginsWith ps) enough
          at in
      let (s, ended) =
        parse_parts-form fuel turns ps (store_part o b p w) text t.to goods
          (store_part-NoArrays o b p w no_arrays) enough (omega arith) t.left in
      (s, rw (t.turned, parse_parts) ended)

length-append_right : (xs ys : Bytes) → length ys ≤ length (xs ++ ys)
length-append_right xs ys = omega (arith, length-append xs ys)

length-print_part :
    (b : Bytes) (p : Part) (rest : Bytes) → length rest < length (print_part b p rest)
unfolding print_part
length-print_part b (value n t) rest =
    let l3 = length-append_right (t ++ codes "\r") (10 ∷ rest) in
    let l1 =
      length-append_right (name_line n)
        (10 ∷ (codes "\r" ++ 10 ∷ ((t ++ codes "\r") ++ 10 ∷ rest))) in
    let l0 =
      length-append_right (boundary_line b)
        (10 ∷ (name_line n ++ 10 ∷ (codes "\r" ++ 10 ∷ ((t ++ codes "\r") ++ 10 ∷ rest)))) in
    omega arith
length-print_part b (file n f t content) rest =
    let last : Bytes = content ++ (codes "\r\n" ++ rest) in
    let l4 = length-append_right content (codes "\r\n" ++ rest) in
    let l2 = length-append_right (type_line t) (10 ∷ (codes "\r" ++ 10 ∷ last)) in
    let l1 =
      length-append_right (filename_line n f)
        (10 ∷ (type_line t ++ 10 ∷ (codes "\r" ++ 10 ∷ last))) in
    let l0 =
      length-append_right (boundary_line b)
        (10 ∷ (filename_line n f ++ 10 ∷ (type_line t ++ 10 ∷ (codes "\r" ++ 10 ∷ last)))) in
    omega arith

length-print_form : (b : Bytes) (ps : List Part) → length ps ≤ length (print_form b ps)
unfolding print_form
length-print_form b [] = omega arith
length-print_form b (p ∷ ps) =
    omega (arith, length-print_form b ps, length-print_part b p (print_form b ps))

-- The text of a form is read as that form: every value is the parameter of its name, the last one
-- where a name comes twice, and every file is written to the disk, byte by byte, and noted under its
-- name. Asked for are a boundary without a line break that fits in a block with five bytes more, names
-- and file names of visible characters without a quote or a semicolon, value names without `[]`, values of
-- one line, types of visible characters, files that do not hold the boundary, no parameter that is an array
-- before, and more fuel than the text is long.
pub parse_multipart_body-print_form :
    (o : Outside) (b : Bytes) (ps : List Part) (w : Work) (fuel : ℕ)
    → IsSkipper o.ws
    → Lacks 10 b
    → kept b ≤ block
    → All (IsPart b) ps
    → NoArrays w.request.params
    → length (print_form b ps) < fuel
    → (s : InStream) × (parse_multipart_body o b fuel (print_form b ps) w
        ≡ finished (store_form o b ps w) s)
unfolding parse_multipart_body
parse_multipart_body-print_form o b ps w fuel is_ws plain fits good no_arrays enough =
    let long = length-print_form b ps in
    parse_parts-form o is_ws b plain fits fuel (suc (length (print_form b ps))) ps w
      (print_form b ps) 0 good no_arrays enough (omega arith) refl
