-- ===== src/Http/Signer/Digest/Drained.antt =====
-- What `sha_256_` of include/obelisk/http/client/signer/aliyun_openapi.h leaves of a body.
use obelisk_asio_coro.Base.{
  ℕ, zero, suc, ◌+◌, ◌-◌, ◌<◌, ◌≤◌, ◌≡◌, refl, ap, sym, ◌∙◌, true, false, List, [], ◌∷◌, ◌++◌, none,
  some, Bytes, length, is_empty, take, drop, ltb, arith, Bool-cases, inl, inr, append-nil,
  append_assoc, take-append-drop, take-long, drop-add, length-drop, length-take, ltb→lt,
}
use obelisk_asio_coro.Http.Multipart.Stream.{InStream, read, opened}
use obelisk_asio_coro.Http.Signer.Digest.{seek_begin, feed, sha_256_body, read_row, next_of}

read-failed : (n : ℕ) (s : InStream) → s.fail ≡ true → read n s ≡ ([], record s { fail = true })
unfolding read
read-failed n s h = elim (Bool-cases s.eof) [
  | inl ended ↦ rw (ended, read) refl
  | inr going ↦ rw (going, h, read) refl
]

read-opened :
    (n : ℕ) (text : Bytes) (pos : ℕ)
    → length (drop pos text) < n
    → read n (opened text pos) ≡ (
      drop pos text,
      record { text = text; position = pos + length (drop pos text); eof = true; fail = true },
    )
unfolding read
read-opened n text pos h =
    let short : ltb (length (drop pos text)) n ≡ true = ground arith in
    rw (short, take-long n (drop pos text) (omega arith), read) refl

read-full :
    (n : ℕ) (text : Bytes) (pos : ℕ)
    → n ≤ length (drop pos text)
    → read n (opened text pos) ≡ (take n (drop pos text), opened text (pos + n))
unfolding read
read-full n text pos h =
    let full : ltb (length (drop pos text)) n ≡ false = ground arith in
    let size : length (take n (drop pos text)) ≡ n = omega (arith, length-take n (drop pos text)) in
    rw (full, size, read) refl

feed-failed :
    (fuel n : ℕ) (s : InStream) (out : Bytes)
    → s.fail ≡ true
    → feed (suc fuel) n s out ≡ some (out, record s { fail = true })
unfolding feed
feed-failed fuel n s out h = rw (read-failed n s h, feed) refl

feed-turn :
    (fuel n : ℕ) (s s' : InStream) (got out : Bytes)
    → read n s ≡ (got, s')
    → is_empty got ≡ false
    → feed (suc fuel) n s out ≡ feed fuel n s' (out ++ got)
unfolding feed
feed-turn fuel n s s' got out h k = rw (h, feed) (rw (k) refl)

feed-last :
    (fuel n : ℕ) (s s' : InStream) (got out : Bytes)
    → read n s ≡ (got, s')
    → is_empty got ≡ true
    → feed (suc fuel) n s out ≡ some (out, s')
unfolding feed
feed-last fuel n s s' got out h k = rw (h, feed) (rw (k) refl)

is_empty→nil : (xs : Bytes) → is_empty xs ≡ true → xs ≡ []
is_empty→nil [] h = refl
is_empty→nil (x ∷ xs) h = absurd cc

is_empty-positive : (xs : Bytes) → 0 < length xs → is_empty xs ≡ false
is_empty-positive [] h = absurd (omega arith)
is_empty-positive (x ∷ xs) h = refl

-- The loop takes everything that is left, and the stream has failed behind it.
feed-drained :
    (fuel n : ℕ) (text : Bytes) (pos : ℕ) (out : Bytes)
    → 0 < n
    → length (drop pos text) + 1 < fuel
    → (s : InStream) × (feed fuel n (opened text pos) out ≡ some (out ++ drop pos text, s))
      × (s.fail ≡ true)
feed-drained zero n text pos out h k = absurd (omega arith)
feed-drained (suc zero) n text pos out h k = absurd (omega arith)
feed-drained (suc (suc fuel)) n text pos out h k =
    elim (Bool-cases (ltb (length (drop pos text)) n)) [
      | inl short ↦
          let last = read-opened n text pos (ltb→lt (length (drop pos text)) n short) in
          elim (Bool-cases (is_empty (drop pos text))) [
            | inl nothing ↦ (
              _,
              feed-last (suc fuel) n (opened text pos) _ (drop pos text) out last nothing
                  ∙ ap (λ z. some (z, _))
                      (sym (append-nil out)
                        ∙ ap (◌++◌ out) (sym (is_empty→nil (drop pos text) nothing))),
              refl,
            )
            | inr something ↦ (
              _,
              feed-turn (suc fuel) n (opened text pos) _ (drop pos text) out last something
                  ∙ feed-failed fuel n _ (out ++ drop pos text) refl,
              refl,
            )
          ]
      | inr full ↦
          let enough : n ≤ length (drop pos text) = ground arith in
          let size = length-take n (drop pos text) in
          let left = length-drop n (drop pos text) in
          let behind : drop (pos + n) text ≡ drop n (drop pos text) = sym (drop-add pos n text) in
          let left2 = ap length behind in
          let (s, fed, failed) =
            feed-drained (suc fuel) n text (pos + n) (out ++ take n (drop pos text)) h
              (omega arith) in
          (
            s,
            feed-turn (suc fuel) n (opened text pos) (opened text (pos + n))
                  (take n (drop pos text)) out (read-full n text pos enough)
                  (is_empty-positive (take n (drop pos text)) (omega arith))
                ∙ (fed
                    ∙ ap (λ z. some (z, s))
                        (append_assoc out (take n (drop pos text)) (drop (pos + n) text)
                          ∙ ap (◌++◌ out) (
                              ap (◌++◌ (take n (drop pos text))) behind
                              ∙ take-append-drop n (drop pos text)))),
            failed,
          )
    ]

read_row-turn :
    (turns left : ℕ) (out got : Bytes) (s s' : InStream) (ss next : List InStream)
    → read left s ≡ (got, s')
    → next_of s' ss ≡ next
    → is_empty next ≡ false
    → ltb 0 (left - length got) ≡ true
    → read_row (suc turns) left out (s ∷ ss) ≡ read_row turns (left - length got) (out ++ got) next
unfolding read_row next_of
read_row-turn turns left out got s s' ss next h e k p = rw (h, read_row) (rw (e, k, p) refl)

read_row-stuck :
    (turns left : ℕ) (out : Bytes) (s : InStream) (ss : List InStream)
    → s.fail ≡ true
    → s.eof ≡ false
    → 0 < left
    → read_row turns left out (s ∷ ss) ≡ none
unfolding read_row next_of
read_row-stuck zero left out s ss h k p = refl
read_row-stuck (suc turns) left out s ss h k p =
    read_row-turn turns left out [] s (record s { fail = true }) ss (record s { fail = true } ∷ ss)
      (read-failed left s h) (rw (k) refl) refl (ground arith)
    ∙ read_row-stuck turns (left - length {A = ℕ} []) (out ++ []) (record s { fail = true }) ss refl
        k (omega arith)

read_row-behind :
    (turns left : ℕ) (header : Bytes) (s : InStream)
    → s.fail ≡ true
    → s.eof ≡ false
    → length header < left
    → read_row turns left [] (opened header 0 ∷ s ∷ []) ≡ none
unfolding read_row next_of
read_row-behind zero left header s h k p = refl
read_row-behind (suc turns) left header s h k p =
    read_row-turn turns left [] header (opened header 0) _ (s ∷ []) (s ∷ [])
      (read-opened left header 0 p) refl refl (ground arith)
    ∙ read_row-stuck turns (left - length header) header s [] h k (omega arith)

-- The digest of a body is that of its whole text, and the body cannot be sent any more: its stream has
-- failed, which `seekg` does not undo, and no longer tells its end, so that behind a header that fits
-- in the buffer no number of turns is enough for a first read of the request. Asked for are blocks of
-- at least one byte and more turns than the text has bytes and one.
pub sha_256_body-drained :
    (sha256 : Bytes → Bytes) (n fuel turns size : ℕ) (text header : Bytes)
    → 0 < n
    → length text + 1 < fuel
    → length header < size
    → (body : InStream) × (sha_256_body sha256 n fuel (some (opened text 0))
        ≡ some (sha256 text, some body))
      × (read_row turns size [] (opened header 0 ∷ body ∷ []) ≡ none)
unfolding sha_256_body seek_begin
sha_256_body-drained sha256 n fuel turns size text header h k p =
    let (s, fed, failed) = feed-drained fuel n text 0 [] h k in
    let kept : seek_begin s ≡ record s { eof = false } = rw (failed, seek_begin) refl in
    (
      record s { eof = false },
      rw (fed, sha_256_body) (ap (λ z. some (sha256 text, some z)) kept),
      read_row-behind turns size header (record s { eof = false }) failed refl p,
    )
