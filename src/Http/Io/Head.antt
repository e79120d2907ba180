-- ===== src/Http/Io/Head.antt =====
-- What `receive_header_` cuts off the stream.
use obelisk_asio_coro.Base.{
  ◌+◌, ℕ, zero, suc, ◌-◌, ◌≤◌, ◌<◌, ◌≡◌, refl, sym, ap, ◌∙◌, ◌⊎◌, true, Bytes, codes, ◌++◌, [],
  length, ltb, arith, length-append, append_assoc, Bool-cases, inl, inr, find, some, take,
  find-append, take-append-drop, find-within, Option-cases, drop, take-append_le, append-nil,
  drop-append_le, false,
}
use obelisk_asio_coro.Http.Io.{
  Received, Socket, Connection, done, commit, contains, receive_until_header, block, receive_header,
  protocol_error,
}
use obelisk_asio_coro.Http.Io.Body.{everything}

abbrev blank_line : Bytes
blank_line = codes "\r\n\r\n"

contains-find : (s : Bytes) → contains s blank_line ≡ true → (q : ℕ) × (find s blank_line ≡ some q)
contains-find s h = elim (Option-cases (find s blank_line)) [
  | inl missing ↦ absurd (let e : false ≡ true = (rw (missing, contains) at h) in cc)
  | inr (q, found) ↦ (q, found)
]

find-take :
    (n : ℕ) (s : Bytes) (p : ℕ) → find (take n s) blank_line ≡ some p → find s blank_line ≡ some p
find-take n s p h =
    ap (λ t. find t blank_line) (sym (take-append-drop n s))
    ∙ find-append (take n s) (drop n s) blank_line p h

module _ (net : Socket) where
  open net use {S, pending, read_some, read_some_pending, read_some_progress}

  -- A socket whose reads fail only at the end of the stream.
  unfoldable pub IsOpen : Type 0
  IsOpen = (s : S) (n : ℕ) → (read_some s n).failed ≡ true → pending (read_some s n).next ≡ []

  record HeadRead (fuel : ℕ) (c : Connection net) : Type 0 where
    next : Connection net
    returned : receive_until_header net fuel c ≡ done tt next
    kept : everything net next ≡ everything net c
    stopped :
        (contains next.buffer blank_line ≡ true)
        ⊎ ((block ≤ length next.buffer) ⊎ (IsOpen → pending next.socket ≡ []))

  pub commit-kept :
      (c : Connection net)
      → everything net (commit net c (read_some c.socket block)) ≡ everything net c
  unfolding everything
  commit-kept c =
      append_assoc c.buffer _ _ ∙ ap (◌++◌ c.buffer) (sym (read_some_pending c.socket block))

  until-returns : (fuel : ℕ) (c : Connection net) → block - length c.buffer < fuel → HeadRead fuel c
  unfolding receive_until_header IsOpen
  until-returns zero c enough = absurd (omega arith)
  until-returns (suc fuel) c enough =
      let r : Received S = read_some c.socket block in
      let c' : Connection net = commit net c r in
      let kept' = commit-kept c in
      elim (Bool-cases (read_some c.socket block).failed) [
        | inl failed ↦ record {
          next = c';
          returned = rw (failed, receive_until_header) refl;
          kept = kept';
          stopped = inr (inr (λ opened. opened c.socket block failed));
        }
        | inr going ↦ elim (Bool-cases (ltb (length (c.buffer ++ r.bytes)) block)) [
          | inr full ↦ record {
            next = c';
            returned = rw (going, receive_until_header) (rw (full, receive_until_header) refl);
            kept = kept';
            stopped = inr (inl (ground arith));
          }
          | inl room ↦ elim (Bool-cases (contains (c.buffer ++ r.bytes) blank_line)) [
            | inl seen ↦ record {
              next = c';
              returned =
                  rw (going, receive_until_header)
                    (rw (room, receive_until_header) (rw (seen, receive_until_header) refl));
              kept = kept';
              stopped = inl seen;
            }
            | inr unseen ↦
                let grown = read_some_progress c.socket block (omega arith) going in
                let ih = until-returns fuel c' (ground (arith, length-append c.buffer r.bytes)) in
                record {
                  next = ih.next;
                  returned =
                      rw (going, receive_until_header)
                        (rw (room, receive_until_header)
                          (rw (unseen, receive_until_header) ih.returned));
                  kept = ih.kept ∙ kept';
                  stopped = ih.stopped;
                }
          ]
        ]
      ]

module _ (net : Socket) (fuel : ℕ) (c : Connection net) where
  open net use {pending}

  abbrev CutAt : ℕ → Type 0
  CutAt p =
      (next : Connection net) × (receive_header net fuel c
        ≡ done (take (p + 4) (everything net c)) next)
      × (everything net next ≡ drop (p + 4) (everything net c))

  cut-found :
      (head : HeadRead net fuel c) (p : ℕ) → find head.next.buffer blank_line ≡ some p → CutAt p
  unfolding receive_header everything
  cut-found head p found =
      let within : p + 4 ≤ length head.next.buffer =
        find-within head.next.buffer blank_line p found in
      let kept = head.kept in
      (
        record { buffer = drop (p + 4) head.next.buffer; socket = head.next.socket },
        rw (head.returned, receive_header)
            (rw (found, receive_header)
              (ap
                (λ b.
                  done b
                    (record { buffer = drop (p + 4) head.next.buffer; socket = head.next.socket }))
                (sym (take-append_le (p + 4) head.next.buffer (pending head.next.socket) within)
                  ∙ ap (take (p + 4)) kept))),
        sym (drop-append_le (p + 4) head.next.buffer (pending head.next.socket) within)
            ∙ ap (drop (p + 4)) kept,
      )

  found-everything :
      (head : HeadRead net fuel c) (p : ℕ)
      → find head.next.buffer blank_line ≡ some p
      → find (everything net c) blank_line ≡ some p
  unfolding everything
  found-everything head p found =
      ap (λ s. find s blank_line) (sym head.kept)
      ∙ find-append head.next.buffer (pending head.next.socket) blank_line p found

  -- With more fuel than the block of 10240 bytes, the reading of a header always ends: either it
  -- reports a protocol error and has lost no byte, or it returns what the connection held up to
  -- and with its first blank line, and the rest of the stream stays for the body.
  pub receive_header-everything :
      block < fuel
      → ((next : Connection net) × (receive_header net fuel c ≡ protocol_error next)
          × (everything net next ≡ everything net c))
        ⊎ ((p : ℕ) × (find (everything net c) (codes "\r\n\r\n") ≡ some p)
            × (next : Connection net) × (receive_header net fuel c
                ≡ done (take (p + 4) (everything net c)) next)
            × (everything net next ≡ drop (p + 4) (everything net c)))
  unfolding receive_header
  receive_header-everything enough =
      let head = until-returns net fuel c (omega arith) in
      elim (Option-cases (find head.next.buffer blank_line)) [
        | inl missing ↦ inl (
          head.next,
          rw (head.returned, receive_header) (rw (missing, receive_header) refl),
          head.kept,
        )
        | inr (p, found) ↦
            let (next, returned, rest) = cut-found head p found in
            inr (p, found-everything head p found, next, returned, rest)
      ]

  find-stopped :
      (head : HeadRead net fuel c) (p : ℕ)
      → IsOpen net
      → find (take block (everything net c)) blank_line ≡ some p
      → (q : ℕ) × (find head.next.buffer blank_line ≡ some q)
  unfolding everything
  find-stopped head p opened first = elim (head.stopped) [
    | inl seen ↦ contains-find head.next.buffer seen
    | inr (inl full) ↦ (
      p,
      ap (λ s. find s blank_line) (sym (take-append-drop block head.next.buffer))
          ∙ find-append (take block head.next.buffer) (drop block head.next.buffer) blank_line p (
              ap (λ s. find s blank_line)
                (sym (take-append_le block head.next.buffer (pending head.next.socket) full)
                  ∙ ap (take block) head.kept)
              ∙ first),
    )
    | inr (inr ended) ↦ (
      p,
      ap (λ s. find s blank_line)
            (sym (append-nil head.next.buffer)
              ∙ (ap (◌++◌ head.next.buffer) (sym (ended opened)) ∙ head.kept))
          ∙ find-take block (everything net c) p first,
    )
  ]

  -- When reads fail only at the end of the stream and the first 10240 bytes of the connection hold
  -- a blank line at p, the header with its blank line is returned, and the rest stays.
  pub receive_header-framing :
      (p : ℕ)
      → block < fuel
      → IsOpen net
      → find (take block (everything net c)) (codes "\r\n\r\n") ≡ some p
      → (next : Connection net) × (receive_header net fuel c
          ≡ done (take (p + 4) (everything net c)) next)
        × (everything net next ≡ drop (p + 4) (everything net c))
  receive_header-framing p enough opened first =
      let head = until-returns net fuel c (omega arith) in
      let (q, found) = find-stopped head p opened first in
      let whole = found-everything head q found in
      let same : q ≡ p = (let here = find-take block (everything net c) p first in cc) in
      cut-found head p (found ∙ ap some same)
