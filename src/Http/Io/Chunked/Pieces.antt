-- ===== src/Http/Io/Chunked/Pieces.antt =====
-- What the steps of receive_chunked_body_ leave of the stream: a line, two bytes, a chunk.
use obelisk_asio_coro.Base.{
  ℕ, Lacks, Bytes, find, length, ◌∷◌, ◌≡◌, ◌++◌, ◌+◌, codes, Option-cases, inl, sym, ◌∙◌, inr, refl,
  ◌≤◌, take-append_le, drop-append_le, ◌<◌, arith, ap, suc, min, length-append, take-append-drop,
  ◌-◌, length-drop, Bool-cases, ltb, some, none, take-length-append,
}
use obelisk_asio_coro.Http.Io.{Socket, Outcome, Connection, done, block}
use mathlib.Core.Option
use obelisk_asio_coro.Base.{[], drop, take}
use obelisk_asio_coro.Http.Io.Body.{everything}
use obelisk_asio_coro.Http.Io.Chunked.{
  skip_two, FilteringStream, then_read, consume, receive_chunk, receive_until_text,
}
use obelisk_asio_coro.Http.Io.Chunked.Until.{
  IsOrderly, receive_until_size-fills, receive_until_text-finds,
}
use Prim.Native.Nat.{zero}
use obelisk_asio_coro.Http.Io.Chunked.Sent.{length-nil, find-line, drop-line}

-- A write that is done in two parts.
pub write-parts :
    (sink : FilteringStream) (s s' : sink.State) (a b : Bytes)
    → sink.write s (a ++ b) ≡ some s'
    → (s1 : sink.State) × (sink.write s a ≡ some s1) × (sink.write s1 b ≡ some s')
unfolding Option.bind
write-parts sink s s' a b h = elim (Option-cases (sink.write s a)) [
  | inl thrown ↦
      absurd (let e : some s' ≡ none = sym h ∙ (sink.write_append s a b ∙ rw (thrown) refl) in cc)
  | inr (s1, first) ↦ (s1, first, sym (sink.write_append s a b ∙ rw (first) refl) ∙ h)
]

module _ (net : Socket) where
  open net use {S, pending}

  pub everything-consume :
      (n : ℕ) (c : Connection net)
      → n ≤ length c.buffer
      → everything net (consume net n c) ≡ drop n (everything net c)
  unfolding everything consume
  everything-consume n c h = sym (drop-append_le n c.buffer (pending c.socket) h)

  take-buffer :
      (n : ℕ) (c : Connection net)
      → n ≤ length c.buffer
      → take n c.buffer ≡ take n (everything net c)
  unfolding everything
  take-buffer n c h = sym (take-append_le n c.buffer (pending c.socket) h)

  -- A step has come back with `a` and leaves `rest` to be read.
  pub record Left {ℓ} {A : Type ℓ} (o : Outcome net A) (a : A) (rest : Bytes) : Type ℓ where
    pub next : Connection net
    pub returned : o ≡ done a next
    pub rest_kept : everything net next ≡ rest

  pub skip_two-Left :
      (steps x y : ℕ) (rest : Bytes) (c : Connection net)
      → IsOrderly net
      → block < steps
      → everything net c ≡ x ∷ y ∷ rest
      → Left (skip_two net steps c) tt rest
  unfolding skip_two then_read
  skip_two-Left steps x y rest c orderly more h =
      let g =
        receive_until_size-fills net steps 2 c orderly more (omega arith)
          (let e = ap length h in omega arith) in
      record {
        next = consume net 2 g.next;
        returned = rw (g.returned) refl;
        rest_kept = everything-consume 2 g.next g.enough ∙ ap (drop 2) (g.whole_kept ∙ h);
      }

  module _ (sink : FilteringStream) (steps : ℕ) (orderly : IsOrderly net)
      (more : block < steps) where
    open sink use {State, write}

    pub receive_chunk-Left :
        (fuel : ℕ) (bytes rest : Bytes) (s s' : State) (c : Connection net)
        → length bytes < fuel
        → 0 < length bytes
        → everything net c ≡ bytes ++ rest
        → write s bytes ≡ some s'
        → Left (receive_chunk net sink steps fuel (length bytes) s c) s' rest
    unfolding receive_chunk then_read
    receive_chunk-Left zero bytes rest s s' c enough some_left h w = absurd (omega arith)
    receive_chunk-Left (suc fuel) bytes rest s s' c enough some_left h w =
        let n : ℕ = min (length bytes) block in
        let g =
          receive_until_size-fills net steps n c orderly more (omega arith)
            (let e = ap length h in omega (arith, length-append bytes rest)) in
        let taken : take n g.next.buffer ≡ take n bytes =
          take-buffer n g.next g.enough
          ∙ (ap (take n) (g.whole_kept ∙ h) ∙ take-append_le n bytes rest (omega arith)) in
        let (s1, first, second) =
          write-parts sink s s' (take n bytes) (drop n bytes)
            (ap (write s) (take-append-drop n bytes) ∙ w) in
        let first' : write s (take n g.next.buffer) ≡ some s1 = ap (write s) taken ∙ first in
        let kept : everything net (consume net n g.next) ≡ drop n bytes ++ rest =
          everything-consume n g.next g.enough
          ∙ (ap (drop n) (g.whole_kept ∙ h) ∙ drop-append_le n bytes rest (omega arith)) in
        let lengths : length (drop n bytes) ≡ length bytes - n = length-drop n bytes in
        elim (Bool-cases (ltb 0 (length bytes - n))) [
          | inl again ↦
              let ih =
                receive_chunk-Left fuel (drop n bytes) rest s1 s' (consume net n g.next)
                  (ground arith) (ground arith) kept second in
              record {
                next = ih.next;
                returned =
                    rw (g.returned, receive_chunk)
                      (rw (first', again) (rw (sym lengths) ih.returned));
                rest_kept = ih.rest_kept;
              }
          | inr over ↦
              let nothing : drop n bytes ≡ [] = length-nil (drop n bytes) (ground arith) in
              let same : some s1 ≡ some s' =
                sym (sink.write_nothing s1) ∙ (ap (write s1) (sym nothing) ∙ second) in
              record {
                next = consume net n g.next;
                returned =
                    rw (g.returned, receive_chunk)
                      (rw (first', over)
                        (ap (λ z. done z (consume net n g.next)) (let e = same in cc)));
                rest_kept = kept ∙ ap (λ z. z ++ rest) nothing;
              }
        ]

  module _ (steps : ℕ) (orderly : IsOrderly net) (more : block < steps) where
    -- A line has been read: its text, and what is behind its line break.
    pub record LineRead (line t : Bytes) (c : Connection net) : Type 0 where
      pub next : Connection net
      pub returned : receive_until_text net steps (codes "\r\n") c ≡ done (length line) next
      pub text : take (length line) next.buffer ≡ line
      pub behind : everything net (consume net (length line + 2) next) ≡ t

    pub line-reads :
        (line t : Bytes) (c : Connection net)
        → Lacks 13 line
        → length line + 2 ≤ block
        → everything net c ≡ line ++ 13 ∷ 10 ∷ t
        → LineRead line t c
    line-reads line t c clean near h =
        let g =
          receive_until_text-finds net steps (codes "\r\n") c (length line) orderly (omega arith)
            (ap (λ s. find s (codes "\r\n")) h ∙ find-line line t clean) near in
        record {
          next = g.next;
          returned = g.returned;
          text =
              take-buffer (length line) g.next (let e = g.enough in omega arith)
              ∙ (ap (take (length line)) (g.whole_kept ∙ h)
                  ∙ take-length-append line (13 ∷ 10 ∷ t));
          behind =
              everything-consume (length line + 2) g.next g.enough
              ∙ (ap (drop (length line + 2)) (g.whole_kept ∙ h) ∙ drop-line line t);
        }
