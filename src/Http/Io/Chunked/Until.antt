-- ===== src/Http/Io/Chunked/Until.antt =====
-- What the two `receive_until_` guarantee: the delimiter or the bytes are in the buffer, and no byte
-- of the connection is lost.
use obelisk_asio_coro.Base.{
  ℕ, Bytes, ◌≡◌, [], find, true, append-nil, some, find-append, ◌≤◌, ◌+◌, ◌-◌, ◌∙◌, length,
  find-shrink, ◌<◌, arith, Bool-cases, leb, suc, inl, ap, inr, ltb, Option-cases, find-within, ◌++◌,
  length-append, min, refl,
}
use obelisk_asio_coro.Http.Io.{Socket, Outcome, Connection, block, done, Received, commit, contains}
use obelisk_asio_coro.Http.Io.Body.{everything}
use obelisk_asio_coro.Http.Io.Chunked.{
  receive_until_text, find_delimiter, receive_size, receive_until_size,
}
use obelisk_asio_coro.Http.Io.Head.{commit-kept}
use Prim.Native.Nat.{zero}

module _ (net : Socket) where
  open net use {S, pending, read_some, read_some_pending, read_some_progress}

  -- A socket whose reads fail only when all bytes of the stream were delivered before.
  unfoldable pub IsOrderly : Type 0
  IsOrderly = (s : S) (n : ℕ) → (read_some s n).failed ≡ true → pending s ≡ []

  -- A step has come back with `a`, the buffer holds `held` bytes or more, and the connection `whole`.
  pub record Got {ℓ} {A : Type ℓ} (o : Outcome net A) (a : A) (held : ℕ) (whole : Bytes)
      : Type ℓ where
    pub next : Connection net
    pub returned : o ≡ done a next
    pub enough : held ≤ length next.buffer
    pub whole_kept : everything net next ≡ whole

  ended-buffer : (c : Connection net) → pending c.socket ≡ [] → everything net c ≡ c.buffer
  unfolding everything
  ended-buffer c h = rw (h) (append-nil c.buffer)

  buffer-find :
      (c : Connection net) (d : Bytes) (p q : ℕ)
      → find (everything net c) d ≡ some p
      → find c.buffer d ≡ some q
      → q ≡ p
  unfolding everything
  buffer-find c d p q h k = let e = find-append c.buffer (pending c.socket) d q k in cc

  -- The last search finds what a buffer that is full, or the whole stream, must hold.
  find_delimiter-full :
      (c : Connection net) (d : Bytes) (p : ℕ)
      → find (everything net c) d ≡ some p
      → p + length d ≤ length c.buffer
      → Got (find_delimiter net d c) p (p + length d) (everything net c)
  unfolding find_delimiter everything
  find_delimiter-full c d p h k = record {
    next = c;
    returned = rw (find-shrink c.buffer (pending c.socket) d p h k, find_delimiter) refl;
    enough = k;
    whole_kept = refl;
  }

  -- The same result, reached from an earlier point of the loop.
  carry {ℓ} :
      {A : Type ℓ} {o o' : Outcome net A} {a : A} {held : ℕ} {whole whole' : Bytes}
      → o' ≡ o
      → whole ≡ whole'
      → Got o a held whole
      → Got o' a held whole'
  carry e w g = record {
    next = g.next;
    returned = e ∙ g.returned;
    enough = g.enough;
    whole_kept = g.whole_kept ∙ w;
  }

  pub receive_until_text-finds :
      (fuel : ℕ) (d : Bytes) (c : Connection net) (p : ℕ)
      → IsOrderly
      → block - length c.buffer < fuel
      → find (everything net c) d ≡ some p
      → p + length d ≤ block
      → Got (receive_until_text net fuel d c) p (p + length d) (everything net c)
  unfolding receive_until_text IsOrderly
  receive_until_text-finds zero d c p orderly more found near = absurd (omega arith)
  receive_until_text-finds (suc fuel) d c p orderly more found near =
      let r : Received S = read_some c.socket block in
      let c' : Connection net = commit net c r in
      let kept' = commit-kept net c in
      let found' : find (everything net c') d ≡ some p = ap (λ s. find s d) kept' ∙ found in
      elim (Option-cases (find c.buffer d)) [
        | inr (q, here) ↦
            let same = buffer-find c d p q found here in
            record {
              next = c;
              returned = rw (here, receive_until_text) (ap (λ k. done k c) same);
              enough = (let within = find-within c.buffer d q here in omega arith);
              whole_kept = refl;
            }
        | inl missing ↦ elim (Bool-cases (read_some c.socket block).failed) [
          | inl failed ↦ absurd (
              let over = ended-buffer c (orderly c.socket block failed) in
              let e = ap (λ s. find s d) over in cc)
          | inr going ↦ elim (Bool-cases (ltb (length (c.buffer ++ r.bytes)) block)) [
            | inr full ↦
                carry
                  (rw (missing, receive_until_text)
                    (rw (going, receive_until_text) (rw (full, receive_until_text) refl)))
                  kept' (find_delimiter-full c' d p found' (ground arith))
            | inl room ↦ elim (Option-cases (find (c.buffer ++ r.bytes) d)) [
              | inr (q, seen) ↦
                  let same = buffer-find c' d p q found' seen in
                  let within = find-within c'.buffer d q seen in
                  carry
                    (rw (missing, receive_until_text)
                      (rw (going, receive_until_text)
                        (rw (room, receive_until_text)
                          (rw (seen, receive_until_text, contains) refl))))
                    kept' (find_delimiter-full c' d p found' (omega arith))
              | inl unseen ↦
                  let grown = read_some_progress c.socket block (omega arith) going in
                  carry
                    (rw (missing, receive_until_text)
                      (rw (going, receive_until_text)
                        (rw (room, receive_until_text)
                          (rw (unseen, receive_until_text, contains) refl))))
                    kept'
                    (receive_until_text-finds fuel d c' p orderly
                      (ground (arith, length-append c.buffer r.bytes)) found' near)
            ]
          ]
        ]
      ]

  receive_size-fills :
      (fuel size : ℕ) (c : Connection net)
      → IsOrderly
      → size - length c.buffer < fuel
      → length c.buffer < size
      → size ≤ block
      → size ≤ length (everything net c)
      → Got (receive_size net fuel size c) size size (everything net c)
  unfolding receive_size IsOrderly
  receive_size-fills zero size c orderly more short near sent = absurd (omega arith)
  receive_size-fills (suc fuel) size c orderly more short near sent =
      let r : Received S = read_some c.socket block in
      let c' : Connection net = commit net c r in
      let kept' = commit-kept net c in
      elim (Bool-cases (read_some c.socket block).failed) [
        | inl failed ↦
            absurd
              (let over = ap length (ended-buffer c (orderly c.socket block failed)) in omega arith)
        | inr going ↦
            let grown = read_some_progress c.socket block (omega arith) going in
            elim (Bool-cases (ltb (length (c.buffer ++ r.bytes)) (min size block))) [
              | inl room ↦ carry (rw (going, receive_size) (rw (room, receive_size) refl)) kept' (
                  receive_size-fills fuel size c' orderly
                    (ground (arith, length-append c.buffer r.bytes)) (ground arith) near
                    (let e = ap length kept' in omega arith))
              | inr full ↦ record {
                next = c';
                returned =
                    rw (going, receive_size)
                      (rw (full, receive_size) (ap (λ k. done k c') (ground arith)));
                enough = ground arith;
                whole_kept = kept';
              }
            ]
      ]

  pub receive_until_size-fills :
      (fuel size : ℕ) (c : Connection net)
      → IsOrderly
      → block < fuel
      → size ≤ block
      → size ≤ length (everything net c)
      → Got (receive_until_size net fuel size c) size size (everything net c)
  unfolding receive_until_size
  receive_until_size-fills fuel size c orderly more near sent =
      elim (Bool-cases (leb size (length c.buffer))) [
        | inl held ↦ record {
          next = c;
          returned = rw (held) (ap (λ k. done k c) (ground arith));
          enough = ground arith;
          whole_kept = refl;
        }
        | inr short ↦
            carry (rw (short) refl) refl
              (receive_size-fills fuel size c orderly (omega arith) (ground arith) near sent)
      ]
