-- ===== src/Http/Multipart/Upload/Whole.antt =====
-- A file part is copied as it is: what copy_file writes, and where it leaves the stream.
use obelisk_asio_coro.Base.{
  ℕ, zero, suc, Bytes, ◌++◌, ◌+◌, ◌-◌, ◌≤◌, ◌<◌, length, take, drop, find, some, none, codes, ◌≡◌,
  arith, sym, ap, ◌∙◌, append_assoc, length-append, find-append, find-shrink, find-within,
  find-behind, find-drop, take-append-drop, take-append_le, take-length-append, drop-append_le,
  length-take, length-drop, ltb, false, [], drop-length-append, take-add, drop-add, drop-take, refl,
  inl, inr, Option-cases,
}
use native.Mathlib.Decide.{dec_lt}
use obelisk_asio_coro.Http.Io.{block}
use obelisk_asio_coro.Http.Multipart.Stream.{InStream, opened, read, seek_back}
use obelisk_asio_coro.Http.Multipart.Upload.{
  copy_file, copied, split_data, line_and_split, kept, find_first, copy_block, ended, again,
}

-- The content of a file part, as the loop meets it: a boundary stands behind it and no sooner.
abbrev pub IsContent : Bytes → Bytes → Type 0
IsContent boundary content =
    find (content ++ line_and_split boundary) (split_data boundary) ≡ some (length content + 2)

-- The two ways in which a turn of the loop goes.
copy_block-found :
    (boundary out buffer : Bytes) (s : InStream) (i pos : ℕ)
    → find buffer (split_data boundary) ≡ some i
    → find buffer (line_and_split boundary) ≡ some pos
    → copy_block boundary out buffer s
      ≡ ended (out ++ take pos buffer) (seek_back (length (drop (pos + 2) buffer)) s)
unfolding copy_block find_first
copy_block-found boundary out buffer s i pos found line =
    rw (found, copy_block) (rw (line, find_first) refl)

pub copy_block-missed :
    (boundary out buffer : Bytes) (s : InStream)
    → find buffer (split_data boundary) ≡ none
    → kept boundary ≤ length buffer
    → copy_block boundary out buffer s
      ≡ again
          (out ++ take (length buffer - kept boundary) buffer)
          (drop (length buffer - kept boundary) buffer)
          s
unfolding copy_block
copy_block-missed boundary out buffer s missed enough = rw (missed, copy_block) (ground arith)

module _ (boundary rest : Bytes) (fits : kept boundary ≤ block) where
  -- The text from the content on.
  abbrev behind : Bytes → Bytes
  behind content = content ++ (line_and_split boundary ++ rest)

  first_split :
      (content : Bytes)
      → IsContent boundary content
      → find (behind content) (split_data boundary) ≡ some (length content + 2)
  first_split content h =
      ap (λ z. find z (split_data boundary))
        (sym (append_assoc content (line_and_split boundary) rest))
      ∙ find-append (content ++ line_and_split boundary) rest (split_data boundary)
          (length content + 2) h

  first_line :
      (content : Bytes)
      → IsContent boundary content
      → find (behind content) (line_and_split boundary) ≡ some (length content)
  first_line content h =
      ap (λ z. find z (line_and_split boundary))
        (sym (append_assoc content (line_and_split boundary) rest))
      ∙ find-append (content ++ line_and_split boundary) rest (line_and_split boundary)
          (length content) (find-behind content (codes "\r\n") (split_data boundary) h)

  -- A part of the text that shows the boundary shows it where the content ends.
  shown :
      (content : Bytes) (n i : ℕ)
      → IsContent boundary content
      → find (take n (behind content)) (split_data boundary) ≡ some i
      → (i ≡ length content + 2)
        × (length content + length (line_and_split boundary) ≤ length (take n (behind content)))
        × (find (take n (behind content)) (line_and_split boundary) ≡ some (length content))
        × (take (length content) (take n (behind content)) ≡ content)
  shown content n i h found =
      let part = take n (behind content) in
      let left = drop n (behind content) in
      let cut = take-append-drop n (behind content) in
      let seen =
        sym (find-append part left (split_data boundary) i found)
        ∙ (ap (λ z. find z (split_data boundary)) cut ∙ first_split content h) in
      let at : i ≡ length content + 2 = cc in
      let inside = find-within part (split_data boundary) i found in
      let long : length content + length (line_and_split boundary) ≤ length part = omega arith in
      let line = ap (λ z. find z (line_and_split boundary)) cut ∙ first_line content h in
      let front =
        sym (take-append_le (length content) part left (omega arith))
        ∙ (ap (take (length content)) cut
            ∙ take-length-append content (line_and_split boundary ++ rest)) in
      (at, long, find-shrink part left (line_and_split boundary) (length content) line long, front)

  -- A part that does not show it ends before.
  not_shown :
      (content : Bytes) (n : ℕ)
      → IsContent boundary content
      → find (take n (behind content)) (split_data boundary) ≡ none
      → n < length content + length (line_and_split boundary)
  not_shown content n h missed =
      let part = take n (behind content) in
      let left = drop n (behind content) in
      elim (dec_lt n (length content + length (line_and_split boundary))) [
        | yes early ↦ early
        | no late ↦
            let size = length-append content (line_and_split boundary ++ rest) in
            let size2 = length-append (line_and_split boundary) rest in
            let cut_size = length-take n (behind content) in
            let long : length content + length (line_and_split boundary) ≤ length part =
              omega arith in
            let whole =
              ap (λ z. find z (split_data boundary)) (take-append-drop n (behind content))
              ∙ first_split content h in
            let seen =
              find-shrink part left (split_data boundary) (length content + 2) whole
                (omega arith) in
            absurd (cc)
      ]

  -- What is left of the content is content.
  IsContent-drop :
      (content : Bytes) (n : ℕ)
      → n ≤ length content
      → IsContent boundary content
      → IsContent boundary (drop n content)
  IsContent-drop content n le h =
      let shape = drop-append_le n content (line_and_split boundary) le in
      let size = length-drop n content in
      ap (λ z. find z (split_data boundary)) (sym shape)
      ∙ find-drop n (content ++ line_and_split boundary) (split_data boundary)
          (length (drop n content) + 2) (h ∙ ap some (omega arith))

  -- The text of the next block, whatever the loop holds.
  next_block :
      (text content : Bytes) (p k : ℕ)
      → drop p text ≡ behind content
      → take k (behind content) ++ (read block (opened text (p + k))).0
        ≡ take (k + block) (behind content)
  unfolding read
  next_block text content p k h =
      ap (λ z. take k (behind content) ++ take block z) (sym (drop-add p k text) ∙ ap (drop k) h)
      ∙ take-add k block (behind content)

  -- Where a read has left the stream, and where going back leads from there.
  seek_back-read :
      (text : Bytes) (q n : ℕ)
      → seek_back n (read block (opened text q)).1
        ≡ opened text (q + length (read block (opened text q)).0 - n)
  unfolding read seek_back
  seek_back-read text q n = refl

  -- A read that finds a whole block.
  read-full :
      (text : Bytes) (q : ℕ)
      → block ≤ length (drop q text)
      → (read block (opened text q)).1 ≡ opened text (q + block)
  unfolding read
  read-full text q le =
      let long : ltb (length (drop q text)) block ≡ false = ground arith in
      let size = length-take block (drop q text) in
      let full : length (take block (drop q text)) ≡ block = omega arith in rw (long, full) refl

  -- What a turn that finds no boundary takes from the content, and what it leaves.
  module _ (content : Bytes) (m : ℕ) (le : m ≤ length content) where
    behind-drop : drop m (behind content) ≡ behind (drop m content)
    behind-drop = drop-append_le m content (line_and_split boundary ++ rest) le

    taken :
        (n : ℕ)
        → m ≤ n
        → n ≤ length (behind content)
        → take m (take n (behind content)) ≡ take m content
    taken n less inside =
        let size = length-take n (behind content) in
        sym (take-append_le m (take n (behind content)) (drop n (behind content)) (omega arith))
        ∙ (ap (take m) (take-append-drop n (behind content))
            ∙ take-append_le m content (line_and_split boundary ++ rest) le)

    left_over : (n : ℕ) → drop m (take (m + n) (behind content)) ≡ take n (behind (drop m content))
    left_over n = drop-take m n (behind content) ∙ ap (take n) behind-drop

  pub copy_file-content :
      (fuel : ℕ) (out text content : Bytes) (p k : ℕ)
      → IsContent boundary content
      → drop p text ≡ behind content
      → k ≤ length (behind content)
      → length (behind content) - k < fuel
      → copy_file fuel boundary out (take k (behind content)) (opened text (p + k))
        ≡ copied (out ++ content) (opened text (p + (length content + 2)))
  unfolding copy_file
  copy_file-content zero out text content p k h at fit enough = absurd (omega arith)
  copy_file-content (suc fuel) out text content p k h at fit enough =
      let part = take (k + block) (behind content) in
      let s = opened text (p + k) in
      let whole = next_block text content p k at in
      elim (Option-cases (find part (split_data boundary))) [
        | inr (i, found) ↦
            let (shown_at, long, line, front) = shown content (k + block) i h found in
            let turn =
              copy_block-found boundary out part (read block s).1 i (length content) found line in
            let size = ap length whole in
            let size2 = length-append (take k (behind content)) (read block s).0 in
            let size3 = length-take k (behind content) in
            let size4 = length-drop (length content + 2) part in
            let back : p + k + length (read block s).0 - length (drop (length content + 2) part)
                ≡ p + (length content + 2) =
              omega arith in
            let round = ap (λ z. copy_block boundary out z (read block s).1) whole ∙ turn in
            rw (round, copy_file)
              (rw
                (front, seek_back-read text (p + k) (length (drop (length content + 2) part)), back)
                refl)
        | inl missed ↦
            let bound = not_shown content (k + block) h missed in
            let m = k + block - kept boundary in
            let size = length-append content (line_and_split boundary ++ rest) in
            let size2 = length-append (line_and_split boundary) rest in
            let size3 = length-take (k + block) (behind content) in
            let full : length part ≡ k + block = omega arith in
            let le : m ≤ length content = omega arith in
            let size4 = length-drop m content in
            let size5 = length-append (drop m content) (line_and_split boundary ++ rest) in
            let size6 = ap length (sym (drop-add p k text) ∙ ap (drop k) at) in
            let size7 = length-drop k (behind content) in
            let turn = copy_block-missed boundary out part (read block s).1 missed (omega arith) in
            let round = ap (λ z. copy_block boundary out z (read block s).1) whole ∙ turn in
            let held =
              ap (λ n. drop m (take n (behind content)))
                (let e : k + block ≡ m + kept boundary = omega arith in e)
              ∙ left_over content m le (kept boundary) in
            let moved : p + k + block ≡ p + m + kept boundary = omega arith in
            let next =
              copy_file-content fuel (out ++ take m content) text (drop m content) (p + m)
                (kept boundary) (IsContent-drop content m le h)
                (sym (drop-add p m text) ∙ (ap (drop m) at ∙ behind-drop content m le))
                (omega arith) (omega arith) in
            let stop : p + m + (length (drop m content) + 2) ≡ p + (length content + 2) =
              omega arith in
            let sum =
              append_assoc out (take m content) (drop m content)
              ∙ ap (◌++◌ out) (take-append-drop m content) in
            rw (round, copy_file)
              (rw
                (
                  full,
                  taken content m le (k + block) (omega arith) (omega arith),
                  held,
                  read-full text (p + k) (omega arith),
                  moved,
                  next,
                  sum,
                  stop,
                )
                refl)
      ]

-- A file part whose content a boundary ends, and does not hold before, is copied as it is, however
-- long it is, when the boundary fits in a block; the stream is left in front of the boundary, behind
-- the line break.
pub copy_file-whole :
    (boundary front content rest : Bytes) (fuel : ℕ)
    → kept boundary ≤ block
    → IsContent boundary content
    → length (content ++ (line_and_split boundary ++ rest)) < fuel
    → copy_file fuel boundary [] []
        (opened (front ++ (content ++ (line_and_split boundary ++ rest))) (length front))
      ≡ copied content (
          opened
            (front ++ (content ++ (line_and_split boundary ++ rest)))
            (length front + (length content + 2)))
copy_file-whole boundary front content rest fuel fits h enough =
    let text = front ++ (content ++ (line_and_split boundary ++ rest)) in
    let start : length front + 0 ≡ length front = omega arith in
    ap (λ q. copy_file fuel boundary [] [] (opened text q)) (sym start)
    ∙ copy_file-content boundary rest fits fuel [] text content (length front) 0 h
        (drop-length-append front (content ++ (line_and_split boundary ++ rest))) (omega arith)
        (omega arith)
