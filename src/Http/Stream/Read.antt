-- ===== src/Http/Stream/Read.antt =====
-- Reading a row of streams gives their contents one behind the other.
use obelisk_asio_coro.Base.{
  ◌⊎◌, ltb→lt, ℕ, zero, suc, ◌+◌, ◌-◌, ◌≤◌, ◌<◌, ◌≡◌, refl, sym, ap, ◌∙◌, true, false, Bytes, List,
  [], ◌∷◌, ◌++◌, some, is_empty, length, take, ltb, if◌then◌else◌, arith, append-nil, append_assoc,
  take-append-drop, length-take, length-append, Bool-cases, inl, inr, ◌||◌, All, false,
}
use obelisk_asio_coro.Http.Stream.{Stream, Multi, read_stream, advance, read_datas, read}

-- What a stream has still to give.
unfoldable pub content : Stream → Bytes
content s = if s.ended then [] else s.rest

unfoldable pub contents : List Stream → Bytes
unfolding content
contents [] = []
contents (s ∷ ss) = content s ++ contents ss

take-long {ℓ} : {A : Type ℓ} (n : ℕ) (xs : List A) → length xs ≤ n → take n xs ≡ xs
take-long zero [] h = refl
take-long zero (x ∷ xs) h = absurd (omega arith)
take-long (suc n) [] h = refl
take-long (suc n) (x ∷ xs) h = ap (◌∷◌ x) (take-long n xs (omega arith))

-- No stream has failed without an end.
abbrev pub IsSound : Stream → Type 0
IsSound s = s.failed ≡ true → s.ended ≡ true

stream-cases :
    (s : Stream) → IsSound s → (s.ended ≡ true) ⊎ ((s.ended ≡ false) × (s.failed ≡ false))
stream-cases s sound = elim (Bool-cases s.ended) [
  | inl ended ↦ inl ended
  | inr going ↦ elim (Bool-cases s.failed) [
    | inl failed ↦ absurd (let e = sound failed in cc)
    | inr fine ↦ inr (going, fine)
  ]
]

-- A stream that was read gives what it had, up to the size of the buffer, and it has ended unless it
-- filled the buffer.
read_stream-content :
    (n : ℕ) (s : Stream)
    → IsSound s
    → (read_stream n s).0 ++ content (read_stream n s).1 ≡ content s
unfolding read_stream content
read_stream-content n s sound = elim (stream-cases s sound) [
  | inl ended ↦ rw (ended, read_stream) refl
  | inr (going, fine) ↦
      rw (going, fine, read_stream)
        (elim (Bool-cases (ltb (length s.rest) n)) [
          | inl short ↦ rw (short) (append-nil (take n s.rest) ∙ take-long n s.rest (ground arith))
          | inr full ↦ rw (full) (take-append-drop n s.rest)
        ])
]

length-read_stream :
    (n : ℕ) (s : Stream)
    → IsSound s
    → (read_stream n s).1.ended ≡ false
    → length (read_stream n s).0 ≡ n
unfolding read_stream
length-read_stream n s sound h = elim (stream-cases s sound) [
  | inl ended ↦ absurd (let e = (rw (ended, read_stream) at h) in cc)
  | inr (going, fine) ↦
      rw (going, fine, read_stream)
        (let e = (rw (going, fine, read_stream) at h) in ground (arith, length-take n s.rest))
]

read_stream_limit : (n : ℕ) (s : Stream) → length (read_stream n s).0 ≤ n
unfolding read_stream
read_stream_limit n s = elim (Bool-cases (s.ended || s.failed)) [
  | inl stopped ↦ rw (stopped, read_stream) (omega arith)
  | inr going ↦ rw (going, read_stream) (omega (arith, length-take n s.rest))
]

read_stream-IsSound : (n : ℕ) (s : Stream) → IsSound s → IsSound (read_stream n s).1
unfolding read_stream
read_stream-IsSound n s sound = elim (stream-cases s sound) [
  | inl ended ↦ rw (ended, read_stream) (λ e. refl)
  | inr (going, fine) ↦ rw (going, fine, read_stream) (λ e. e)
]

advance-IsSound :
    (s : Stream) (passed ss : List Stream)
    → IsSound s
    → All IsSound ss
    → All IsSound (advance s passed ss).datas
unfolding advance
advance-IsSound s passed ss sound h = elim (Bool-cases s.ended) [
  | inl ended ↦ rw (ended, advance) h
  | inr going ↦ rw (going, advance) ((λ f. sym going ∙ sound f), h)
]

record DatasRead (fuel left : ℕ) (out : Bytes) (passed datas : List Stream) : Type 0 where
  out' : Bytes
  next : Multi
  returned : read_datas fuel left out passed datas ≡ some (out', next)
  kept : out' ++ contents next.datas ≡ out ++ contents datas
  bounded : length out' ≤ length out + left
  filled : (next.datas ≡ []) ⊎ (length out' ≡ length out + left)
  sound : All IsSound next.datas

advance-contents :
    (s : Stream) (passed ss : List Stream)
    → contents (advance s passed ss).datas ≡ content s ++ contents ss
unfolding advance contents
advance-contents s passed ss = elim (Bool-cases s.ended) [
  | inl ended ↦ rw (ended, advance) refl
  | inr going ↦ rw (going, advance) refl
]

turn-contents :
    (n : ℕ) (out : Bytes) (s : Stream) (passed ss : List Stream)
    → IsSound s
    → (out ++ (read_stream n s).0) ++ contents (advance (read_stream n s).1 passed ss).datas
      ≡ out ++ contents (s ∷ ss)
unfolding contents
turn-contents n out s passed ss sound =
    ap (◌++◌ (out ++ (read_stream n s).0)) (advance-contents (read_stream n s).1 passed ss)
    ∙ (append_assoc out (read_stream n s).0 _
        ∙ ap (◌++◌ out) (
            sym (append_assoc (read_stream n s).0 (content (read_stream n s).1) (contents ss))
            ∙ ap (λ z. z ++ contents ss) (read_stream-content n s sound)))

is_empty→nil {ℓ} : {A : Type ℓ} (xs : List A) → is_empty xs ≡ true → xs ≡ []
is_empty→nil [] h = refl
is_empty→nil (x ∷ xs) h = cc

-- Where a turn leaves room in the buffer, its stream has ended and one less is left.
length-advance :
    (n : ℕ) (s : Stream) (passed ss : List Stream)
    → IsSound s
    → 0 < n - length (read_stream n s).0
    → length (advance (read_stream n s).1 passed ss).datas ≤ length ss
unfolding advance
length-advance n s passed ss sound room = elim (Bool-cases (read_stream n s).1.ended) [
  | inl ended ↦ rw (ended, advance) (omega arith)
  | inr going ↦ absurd (omega (arith, length-read_stream n s sound going))
]

datas-read :
    (fuel left : ℕ) (out : Bytes) (passed datas : List Stream)
    → length datas < fuel
    → All IsSound datas
    → DatasRead fuel left out passed datas
unfolding read_datas
datas-read zero left out passed datas h sounds = absurd (omega arith)
datas-read (suc fuel) left out passed [] h sounds = record {
  out' = out;
  next = record { passed = passed; datas = [] };
  returned = refl;
  kept = refl;
  bounded = omega arith;
  filled = inl refl;
  sound = tt;
}
datas-read (suc fuel) left out passed (s ∷ ss) h (sound, sounds) =
    let got = (read_stream left s).0 in
    let m = advance (read_stream left s).1 passed ss in
    let limit = read_stream_limit left s in
    let sizes = length-append out (read_stream left s).0 in
    let kept' = turn-contents left out s passed ss sound in
    let sounds' =
      advance-IsSound (read_stream left s).1 passed ss (read_stream-IsSound left s sound) sounds in
    elim (Bool-cases (is_empty m.datas)) [
      | inl nothing ↦ record {
        out' = out ++ got;
        next = m;
        returned = rw (nothing, read_datas) refl;
        kept = kept';
        bounded = omega arith;
        filled = inl (is_empty→nil m.datas nothing);
        sound = sounds';
      }
      | inr something ↦ elim (Bool-cases (ltb 0 (left - length got))) [
        | inr full ↦ record {
          out' = out ++ got;
          next = m;
          returned = rw (something, read_datas) (rw (full, read_datas) refl);
          kept = kept';
          bounded = omega arith;
          filled = inr (ground arith);
          sound = sounds';
        }
        | inl room ↦
            let fewer = length-advance left s passed ss sound (ltb→lt 0 (left - length got) room) in
            let ih =
              datas-read fuel (left - length got) (out ++ got) m.passed m.datas (omega arith)
                sounds' in
            record {
              out' = ih.out';
              next = ih.next;
              returned = rw (something, read_datas) (rw (room, read_datas) ih.returned);
              kept = ih.kept ∙ kept';
              bounded = omega (arith, ih.bounded);
              filled = grow ih.filled;
              sound = ih.sound;
            }
      ]
    ]
  where
    grow :
        {v : List Stream} {n : ℕ}
        → (v ≡ [])
          ⊎ (n ≡ length (out ++ (read_stream left s).0) + (left - length (read_stream left s).0))
        → (v ≡ []) ⊎ (n ≡ length out + left)
    grow (inl e) = inl e
    grow (inr e) =
        inr (omega (arith, length-append out (read_stream left s).0, read_stream_limit left s))

-- For a row of streams of which none has failed without an end, and a buffer of any size, `read` ends: it gives at most as many bytes as the
-- buffer holds, in the order of the streams, and what it gives followed by what is left is what was
-- left before. It fills the buffer unless no stream is left, and again no stream that is left has failed without an end.
pub read-contents :
    (size : ℕ) (m : Multi)
    → All IsSound m.datas
    → (out : Bytes) × (next : Multi) × (read size m ≡ some (out, next))
      × (out ++ contents next.datas ≡ contents m.datas)
      × (length out ≤ size)
      × ((next.datas ≡ []) ⊎ (length out ≡ size))
      × All IsSound next.datas
unfolding read
read-contents size m sounds =
    let r = datas-read (suc (length m.datas)) size [] m.passed m.datas (omega arith) sounds in
    (r.out', r.next, r.returned, r.kept, omega (arith, r.bounded), at_end r.filled, r.sound)
  where
    at_end : {v : List Stream} {n : ℕ} → (v ≡ []) ⊎ (n ≡ 0 + size) → (v ≡ []) ⊎ (n ≡ size)
    at_end (inl e) = inl e
    at_end (inr e) = inr (omega arith)
