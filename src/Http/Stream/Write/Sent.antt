-- ===== src/Http/Stream/Write/Sent.antt =====
-- What `write_data_` has sent when it ends.
use obelisk_asio_coro.Base.{
  ℕ, zero, suc, ◌+◌, ◌<◌, ◌≡◌, ◌⊎◌, refl, sym, ap, ◌∙◌, true, false, Bytes, List, [], ◌∷◌, ◌++◌,
  is_empty, length, take, drop, arith, append-nil, append_assoc, take-append-drop, length-append,
  length-drop, Bool-cases, inl, inr, All,
}
use obelisk_asio_coro.Http.Stream.{Stream, Multi, eof}
use obelisk_asio_coro.Http.Stream.Read.{contents, IsSound, read-contents}
use obelisk_asio_coro.Http.Stream.Write.{
  Sink, Sending, finished, write_error, chunk, write_buffer, then_send, write_data,
}

module _ (sink : Sink) where
  open sink use {S, sent, write_some, write_some_sent, write_some_limit, write_some_progress}

  is_empty-content : (b : Bytes) → is_empty b ≡ true → b ≡ []
  is_empty-content [] h = refl
  is_empty-content (x ∷ b) h = cc

  is_empty-length : (b : Bytes) → is_empty b ≡ false → 0 < length b
  is_empty-length [] h = cc
  is_empty-length (x ∷ b) h = omega arith

  -- Either all of a text was sent, or a write failed behind a part of it.
  abbrev pub Sends : Sending S → Bytes → S → Type 0
  Sends r b s =
      ((t : S) × (r ≡ finished t) × (sent t ≡ sent s ++ b))
      ⊎ ((t : S) × (p : Bytes) × (q : Bytes) × (r ≡ write_error t)
          × (b ≡ p ++ q)
          × (sent t ≡ sent s ++ p))

  -- A text that is sent behind another one.
  Sends-append :
      (p b : Bytes) (s t : S) (r : Sending S)
      → sent t ≡ sent s ++ p
      → Sends r b t
      → Sends r (p ++ b) s
  Sends-append p b s t r h (inl (u, e, k)) =
      inl (u, e, k ∙ (ap (λ z. z ++ b) h ∙ append_assoc (sent s) p b))
  Sends-append p b s t r h (inr (u, p', q, e, cut, k)) = inr (
    u,
    p ++ p',
    q,
    e,
    ap (◌++◌ p) cut ∙ sym (append_assoc p p' q),
    k ∙ (ap (λ z. z ++ p') h ∙ append_assoc (sent s) p p'),
  )

  Sends-cut :
      (n : ℕ) (b : Bytes) (s t : S) (r : Sending S)
      → sent t ≡ sent s ++ take n b
      → Sends r (drop n b) t
      → Sends r b s
  Sends-cut n b s t r h k =
      rw⁻¹ (take-append-drop n b) (Sends-append (take n b) (drop n b) s t r h k)

  write_buffer-Sends :
      (fuel : ℕ) (b : Bytes) (s : S) → length b < fuel → Sends (write_buffer sink fuel b s) b s
  unfolding write_buffer
  write_buffer-Sends zero b s h = absurd (omega arith)
  write_buffer-Sends (suc fuel) b s h = elim (Bool-cases (is_empty b)) [
    | inl nothing ↦ inl (
      s,
      rw (nothing, write_buffer) refl,
      sym (append-nil (sent s)) ∙ ap (◌++◌ (sent s)) (sym (is_empty-content b nothing)),
    )
    | inr something ↦ elim (Bool-cases (write_some s b).failed) [
      | inl failed ↦ inr (
        (write_some s b).next,
        take (write_some s b).count b,
        drop (write_some s b).count b,
        rw (something, write_buffer) (rw (failed, write_buffer) refl),
        sym (take-append-drop (write_some s b).count b),
        write_some_sent s b,
      )
      | inr going ↦
          let grown = write_some_progress s b (is_empty-length b something) going in
          let step =
            Sends-cut (write_some s b).count b s (write_some s b).next _ (write_some_sent s b) (
              write_buffer-Sends fuel (drop (write_some s b).count b) (write_some s b).next
                (omega (arith, length-drop (write_some s b).count b))) in
          rw (something, write_buffer) (rw (going, write_buffer) step)
    ]
  ]

  then_send-Sends :
      (out b : Bytes) (s : S) (r : Sending S) (f : S → Sending S)
      → Sends r out s
      → ((t : S) → Sends (f t) b t)
      → Sends (then_send sink r f) (out ++ b) s
  unfolding then_send
  then_send-Sends out b s r f (inl (t, e, k)) h =
      rw (e, then_send) (Sends-append out b s t (f t) k (h t))
  then_send-Sends out b s r f (inr (t, p, q, e, cut, k)) h =
      inr (t, p, q ++ b, rw (e, then_send) refl, ap (λ z. z ++ b) cut ∙ append_assoc p q b, k)

  contents-nil : (ss : List Stream) → is_empty ss ≡ true → contents ss ≡ []
  unfolding contents
  contents-nil [] h = refl
  contents-nil (x ∷ ss) h = cc

  -- Enough fuel: one turn where no stream is left, and otherwise more than the bytes and one.
  HasTurns : ℕ → Multi → Type 0
  HasTurns fuel m = ((eof m ≡ true) × (0 < fuel)) ⊎ (length (contents m.datas) + 1 < fuel)

  read-HasTurns :
      (fuel : ℕ) (m next : Multi) (out : Bytes)
      → HasTurns (suc fuel) m
      → eof m ≡ false
      → out ++ contents next.datas ≡ contents m.datas
      → (next.datas ≡ []) ⊎ (length out ≡ chunk)
      → HasTurns fuel next
  unfolding HasTurns eof
  read-HasTurns fuel m next out (inl (e, h)) going kept filled = absurd cc
  read-HasTurns fuel m next out (inr h) going kept (inl ended) =
      inl (ap is_empty ended, omega arith)
  read-HasTurns fuel m next out (inr h) going kept (inr full) =
      let sizes = ap length kept in inr (omega (arith, length-append out (contents next.datas)))

  write_data-Sends :
      (fuel : ℕ) (m : Multi) (s : S)
      → HasTurns fuel m
      → All IsSound m.datas
      → Sends (write_data sink fuel m s) (contents m.datas) s
  unfolding write_data HasTurns eof
  write_data-Sends zero m s (inl (e, h)) sounds = absurd (omega arith)
  write_data-Sends zero m s (inr h) sounds = absurd (omega arith)
  write_data-Sends (suc fuel) m s h sounds = elim (Bool-cases (eof m)) [
    | inl ended ↦ inl (
      s,
      rw (ended, write_data) refl,
      sym (append-nil (sent s)) ∙ ap (◌++◌ (sent s)) (sym (contents-nil m.datas ended)),
    )
    | inr going ↦
        let (out, next, returned, kept, limit, filled, sounds') = read-contents chunk m sounds in
        rw (going, write_data)
          (rw (returned, write_data)
            (rw⁻¹ kept (
              then_send-Sends out (contents next.datas) s _ (write_data sink fuel next)
                (write_buffer-Sends (suc (length out)) out s (omega arith))
                (λ t.
                  write_data-Sends fuel next t (read-HasTurns fuel m next out h going kept filled)
                    sounds'))))
  ]

  -- With more fuel than the bytes of a row of streams and one, and no stream that has failed without an
  -- end, `write_data_` ends: either the socket
  -- has taken all of them, in their order and nothing else, or a write has failed and the socket has
  -- taken a first part of them.
  pub write_data-contents :
      (fuel : ℕ) (m : Multi) (s : S)
      → length (contents m.datas) + 1 < fuel
      → All IsSound m.datas
      → ((t : S) × (write_data sink fuel m s ≡ finished t) × (sent t ≡ sent s ++ contents m.datas))
        ⊎ ((t : S) × (p : Bytes) × (q : Bytes) × (write_data sink fuel m s ≡ write_error t)
            × (contents m.datas ≡ p ++ q)
            × (sent t ≡ sent s ++ p))
  unfolding HasTurns
  write_data-contents fuel m s enough sounds = write_data-Sends fuel m s (inr enough) sounds
