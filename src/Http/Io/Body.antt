-- ===== src/Http/Io/Body.antt =====
-- What `receive_body_` returns: bytes of the connection, in their order, none lost and none twice.
use obelisk_asio_coro.Base.{
  ℕ, zero, suc, ◌+◌, ◌-◌, ◌%◌, ◌^◌, ◌≤◌, ◌<◌, ◌≡◌, ◌==◌, take-length-append, drop-length-append,
  refl, sym, ap, ◌∙◌, min, false, Bytes, ◌++◌, List, [], ◌∷◌, length, take, drop, ltb, arith,
  take-append-drop, length-append, length-take, append_assoc, ltb→lt, Bool-cases, inl, inr, some,
}
use obelisk_asio_coro.Http.Io.{
  Received, Socket, Connection, done, commit, receive_rest, block, receive_body,
}
use Prim.Native.Nat.{◌≤◌, ◌≤◌, ◌≤◌, ◌≤◌, ◌≤◌, ◌≤◌, ◌≤◌, ◌≤◌}

take-all {ℓ} : {A : Type ℓ} (xs : List A) → take (length xs) xs ≡ xs
take-all [] = refl
take-all (x ∷ xs) = ap (◌∷◌ x) (take-all xs)

drop-all {ℓ} : {A : Type ℓ} (xs : List A) → drop (length xs) xs ≡ []
drop-all [] = refl
drop-all (x ∷ xs) = drop-all xs

regroup :
    (k : ℕ) (body held got rest : Bytes)
    → (body ++ take k (held ++ got)) ++ (drop k (held ++ got) ++ rest)
      ≡ body ++ (held ++ (got ++ rest))
regroup k body held got rest =
    let cut = ap (λ z. body ++ (z ++ rest)) (take-append-drop k (held ++ got)) in
    let outer = append_assoc body (take k (held ++ got)) (drop k (held ++ got) ++ rest) in
    let inner = sym (append_assoc (take k (held ++ got)) (drop k (held ++ got)) rest) in
    outer ∙ (ap (◌++◌ body) inner ∙ (cut ∙ ap (◌++◌ body) (append_assoc held got rest)))

module _ (net : Socket) where
  open net use {S, pending, read, read_pending, read_limit, read_full}

  -- All that the client of a connection can still take from it.
  unfoldable pub everything : Connection net → Bytes
  everything c = c.buffer ++ pending c.socket

  -- A socket whose `async_read` fails only when the peer has not sent that much.
  unfoldable pub IsComplete : Type 0
  IsComplete = (s : S) (n : ℕ) → n ≤ length (pending s) → (read s n).failed ≡ false

  record BodyRead (fuel n total : ℕ) (body : Bytes) (c : Connection net) : Type 0 where
    body' : Bytes
    next : Connection net
    returned : receive_rest net fuel n total body c ≡ done body' next
    kept : body' ++ everything next ≡ body ++ everything c
    bounded : length body' ≤ length body + (n - total)
    filled :
        IsComplete
        → (total < n → c.buffer ≡ [])
        → n - total ≤ length (pending c.socket)
        → length body' ≡ length body + (n - total)

  -- The connection behind one round of the loop.
  after : Connection net → Received S → Connection net
  after c r = record { buffer = drop (length r.bytes) (commit net c r).buffer; socket = r.next }

  body_after : Bytes → Connection net → Received S → Bytes
  body_after body c r = body ++ take (length r.bytes) (commit net c r).buffer

  after_kept :
      (body : Bytes) (c : Connection net) (r : Received S)
      → pending c.socket ≡ r.bytes ++ pending r.next
      → body_after body c r ++ everything (after c r) ≡ body ++ everything c
  unfolding everything after body_after
  after_kept body c r h = rw (h) (regroup (length r.bytes) body c.buffer r.bytes (pending r.next))

  after-empty : (c : Connection net) (r : Received S) → c.buffer ≡ [] → (after c r).buffer ≡ []
  unfolding after
  after-empty c r h = rw (h) (drop-all r.bytes)

  length-body_after :
      (body : Bytes) (c : Connection net) (r : Received S)
      → length (body_after body c r) ≡ length body + length r.bytes
  unfolding body_after
  length-body_after body c r = omega (
    arith,
    length-append body (take (length r.bytes) (c.buffer ++ r.bytes)),
    length-take (length r.bytes) (c.buffer ++ r.bytes),
    length-append c.buffer r.bytes,
  )

  wanted_lem : (n total : ℕ) → n < 2 ^ 32 → min ((n - total) % 2 ^ 32) block ≡ min (n - total) block
  wanted_lem n total h = omega arith

  rest-returns :
      (fuel n total : ℕ) (body : Bytes) (c : Connection net)
      → n < 2 ^ 32
      → total ≤ n
      → n - total < fuel
      → BodyRead fuel n total body c
  unfolding receive_rest body_after after IsComplete
  rest-returns zero n total body c small below enough = absurd (omega arith)
  rest-returns (suc fuel) n total body c small below enough = elim (Bool-cases (ltb total n)) [
    | inr ended ↦ record {
      body' = body;
      next = c;
      returned = rw (ended, receive_rest) refl;
      kept = refl;
      bounded = omega arith;
      filled = λ complete empty sent. ground arith;
    }
    | inl more ↦
        let wanted : ℕ = min ((n - total) % 2 ^ 32) block in
        let r : Received S = read c.socket wanted in
        let kept_r = after_kept body c r (read_pending c.socket wanted) in
        let limit = read_limit c.socket wanted in
        elim (Bool-cases (read c.socket wanted).failed) [
          | inl failed ↦ record {
            body' = body_after body c r;
            next = after c r;
            returned = rw (more, receive_rest) (rw (failed, receive_rest) refl);
            kept = kept_r;
            bounded = omega (arith, length-body_after body c r);
            filled = λ complete empty sent.
                absurd (let fine = complete c.socket wanted (omega arith) in cc);
          }
          | inr going ↦
              let full = read_full c.socket wanted going in
              let more' = ltb→lt total n more in
              let total' : ℕ = (total + length r.bytes) % 2 ^ 32 in
              let ih =
                rest-returns fuel n total' (body_after body c r) (after c r) small (omega arith)
                  (omega arith) in
              record {
                body' = ih.body';
                next = ih.next;
                returned = rw (more, receive_rest) (rw (going, receive_rest) ih.returned);
                kept = ih.kept ∙ kept_r;
                bounded = omega (arith, length-body_after body c r, ih.bounded);
                filled = λ complete empty sent.
                    (let sent' = ap length (read_pending c.socket wanted) in
                      let fill =
                        ih.filled complete (λ _. after-empty c r (empty more'))
                          (omega (arith, length-append r.bytes (pending r.next))) in
                      omega (arith, length-body_after body c r));
              }
        ]
  ]

module _ (net : Socket) (fuel n : ℕ) (c : Connection net) where
  open net use {S, pending, read, read_pending, read_limit, read_full}

  held : ℕ
  held = min (length c.buffer % 2 ^ 32) (n % 2 ^ 32)

  begun : Connection net
  begun = record c { buffer = drop held c.buffer }

  begun-kept : take held c.buffer ++ everything net begun ≡ everything net c
  unfolding everything begun held
  begun-kept =
      sym (append_assoc (take held c.buffer) (drop held c.buffer) (pending c.socket))
      ∙ ap (λ z. z ++ pending c.socket) (take-append-drop held c.buffer)

  returned_rest :
      (rest : BodyRead net fuel n held (take held c.buffer) begun)
      → 0 < n
      → receive_body net fuel n c ≡ done (some rest.body') rest.next
  unfolding receive_body held begun
  returned_rest rest positive =
      let filled : (n == 0) ≡ false = ground arith in
      rw (filled, receive_body) (rw (rest.returned, receive_body) refl)

  begin :
      n < 2 ^ 32
      → length c.buffer < 2 ^ 32
      → n < fuel
      → BodyRead net fuel n held (take held c.buffer) begun
  unfolding held
  begin small fits enough =
      rest-returns net fuel n held (take held c.buffer) begun small (omega arith) (omega arith)

  -- For a content length n below 2^32, more than 0 and less than the fuel, and a buffer that is
  -- smaller than 2^32, `receive_body_` always returns a body of at most n bytes, and that body
  -- followed by what the connection still holds is what the connection held before: no byte is
  -- lost, doubled or reordered, however the reads cut the stream and wherever they fail.
  pub receive_body-everything :
      n < 2 ^ 32
      → length c.buffer < 2 ^ 32
      → 0 < n
      → n < fuel
      → (body : Bytes) × (next : Connection net) × (receive_body net fuel n c
          ≡ done (some body) next)
        × (body ++ everything net next ≡ everything net c)
        × (length body ≤ n)
  unfolding held
  receive_body-everything small fits positive enough =
      let rest = begin small fits enough in
      (
        rest.body',
        rest.next,
        returned_rest rest positive,
        rest.kept ∙ begun-kept,
        omega (arith, rest.bounded, length-take held c.buffer),
      )

  filled_rest :
      (rest : BodyRead net fuel n held (take held c.buffer) begun)
      → n < 2 ^ 32
      → length c.buffer < 2 ^ 32
      → IsComplete net
      → n ≤ length (everything net c)
      → length rest.body' ≡ n
  unfolding begun held everything
  filled_rest rest small fits complete sent =
      let lengths = length-append c.buffer (pending c.socket) in
      let empty : held < n → drop held c.buffer ≡ [] =
        λ short. let same : held ≡ length c.buffer = omega arith in rw (same) (drop-all c.buffer) in
      let fill = rest.filled complete empty (omega arith) in
      omega (arith, length-take held c.buffer)

  -- Under the same conditions, when a read fails only on a stream that is too short and the connection holds n
  -- bytes, the body is its first n bytes and the rest stays for the next message: the result does
  -- not depend on how the stream was cut into reads.
  pub receive_body-framing :
      n < 2 ^ 32
      → length c.buffer < 2 ^ 32
      → 0 < n
      → n < fuel
      → IsComplete net
      → n ≤ length (everything net c)
      → (next : Connection net) × (receive_body net fuel n c
          ≡ done (some (take n (everything net c))) next)
        × (everything net next ≡ drop n (everything net c))
  receive_body-framing small fits positive enough complete sent =
      let rest = begin small fits enough in
      let filled = filled_rest rest small fits complete sent in
      let whole = rest.kept ∙ begun-kept in
      (
        rest.next,
        returned_rest rest positive
            ∙ ap (λ b. done (some b) rest.next)
                (sym (take-length-append rest.body' (everything net rest.next))
                  ∙ rw (filled, whole)),
        sym (drop-length-append rest.body' (everything net rest.next)) ∙ rw (filled, whole),
      )
