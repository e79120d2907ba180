-- ===== src/Http/Multipart/Upload/Cut.antt =====
-- A body that ends inside of a file part: the loop of parse_multipart_body then does not end, or its
-- count of bytes goes below zero. Nothing in the loop looks at the end of the stream.
use obelisk_asio_coro.Base.{
  ℕ, zero, suc, Bytes, ◌++◌, ◌-◌, ◌≤◌, ◌<◌, length, take, drop, find, none, ◌≡◌, arith, sym, ap,
  ◌∙◌, append_assoc, length-append, find-none_left, find-none-drop, take-append-drop, length-take,
  length-drop, drop-add, take-long, drop-append_le, refl, inl, inr, ltb, [], if◌then◌else◌, ◌||◌,
  append-nil, Bool-cases,
}
use native.Mathlib.Decide.{dec_lt}
use obelisk_asio_coro.Http.Io.{block}
use obelisk_asio_coro.Http.Multipart.Stream.{InStream, opened, read, remaining}
use obelisk_asio_coro.Http.Multipart.Upload.{copy_file, out_of_fuel, split_data, kept}
use obelisk_asio_coro.Http.Multipart.Upload.Whole.{copy_block-missed}

-- What reads can still take from a stream.
abbrev available : InStream → Bytes
available s = if s.eof || s.fail then [] else remaining s

module _ (n : ℕ) (s : InStream) where
  read-available : (read n s).0 ++ available (read n s).1 ≡ available s
  unfolding read
  read-available = elim (Bool-cases (s.eof || s.fail)) [
    | inl over ↦ rw (over) (ground arith)
    | inr good ↦ elim (Bool-cases (ltb (length (remaining s)) n)) [
      | inl short ↦ rw (good) (
          rw (short) (append-nil (take n (remaining s)) ∙ take-long n (remaining s) (ground arith)))
      | inr full ↦
          let size = length-take n (remaining s) in
          let le : n ≤ length (remaining s) = ground arith in
          let got : length (take n (remaining s)) ≡ n = omega arith in
          rw (good) (
            rw (full, got)
              (ap (◌++◌ (take n (remaining s))) (sym (drop-add s.position n s.text))
                ∙ take-append-drop n (remaining s)))
    ]
  ]

  -- A read that takes less than a block takes everything.
  read-short : length (read n s).0 < n → available (read n s).1 ≡ []
  unfolding read
  read-short h = elim (Bool-cases (s.eof || s.fail)) [
    | inl over ↦ rw (over) (ground arith)
    | inr good ↦ elim (Bool-cases (ltb (length (remaining s)) n)) [
      | inl short ↦ rw (good) (rw (short) refl)
      | inr full ↦
          let size = length-take n (remaining s) in
          let le : n ≤ length (remaining s) = ground arith in
          absurd (let less = (rw (good) at h) in omega arith)
    ]
  ]

-- A turn holds enough for its count of bytes, if all that can be read is enough.
buffer-long :
    (boundary held : Bytes) (s : InStream)
    → kept boundary ≤ block
    → kept boundary ≤ length (held ++ available s)
    → (held ++ (read block s).0) ++ available (read block s).1 ≡ held ++ available s
    → kept boundary ≤ length (held ++ (read block s).0)
buffer-long boundary held s fits long whole =
    let size = length-append held (read block s).0 in
    elim (dec_lt (length (read block s).0) block) [
      | yes short ↦
          let nothing = ap length (read-short block s short) in
          let all = ap length whole in
          let size2 = length-append (held ++ (read block s).0) (available (read block s).1) in
          omega arith
      | no full ↦ omega arith
    ]

copy_file-loops :
    (boundary : Bytes) (fuel : ℕ) (out held : Bytes) (s : InStream)
    → kept boundary ≤ block
    → find (held ++ available s) (split_data boundary) ≡ none
    → kept boundary ≤ length (held ++ available s)
    → copy_file fuel boundary out held s ≡ out_of_fuel
unfolding copy_file
copy_file-loops boundary zero out held s fits missing long = refl
copy_file-loops boundary (suc fuel) out held s fits missing long =
    let buffer = held ++ (read block s).0 in
    let s' = (read block s).1 in
    let whole : buffer ++ available s' ≡ held ++ available s =
      append_assoc held (read block s).0 (available s') ∙ ap (◌++◌ held) (read-available block s) in
    let absent = ap (λ z. find z (split_data boundary)) whole ∙ missing in
    let holds = buffer-long boundary held s fits long whole in
    let turn =
      copy_block-missed boundary out buffer s'
        (find-none_left buffer (available s') (split_data boundary) absent) holds in
    let m = length buffer - kept boundary in
    rw (turn, copy_file)
      (copy_file-loops boundary fuel (out ++ take m buffer) (drop m buffer) s' fits
        (ap (λ z. find z (split_data boundary))
            (sym (drop-append_le m buffer (available s') (omega arith)))
          ∙ find-none-drop m (buffer ++ available s') (split_data boundary) absent)
        (let size = length-drop m buffer in
          let size2 = length-append (drop m buffer) (available s') in omega arith))

-- When a body ends inside of a file part, the loop does not end: if no boundary follows, the boundary
-- fits in a block, and at least five bytes more than the boundary has are left, then no number of
-- turns is enough.
pub copy_file-cut :
    (boundary text : Bytes) (position fuel : ℕ)
    → kept boundary ≤ block
    → find (drop position text) (split_data boundary) ≡ none
    → kept boundary ≤ length (drop position text)
    → copy_file fuel boundary [] [] (opened text position) ≡ out_of_fuel
copy_file-cut boundary text position fuel fits missing long =
    copy_file-loops boundary fuel [] [] (opened text position) fits missing long
