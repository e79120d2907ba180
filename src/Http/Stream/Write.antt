-- ===== src/Http/Stream/Write.antt =====
-- Sending a row of streams: `write_data_` of include/obelisk/http/core/io.h. The socket is an
-- interface; `sent` stands for the bytes that it has taken.
pub mod Sent
use obelisk_asio_coro.Base.{
  ℕ, zero, suc, ◌+◌, ◌≤◌, ◌<◌, ◌≡◌, Bool, true, false, Bytes, List, [], ◌∷◌, ◌++◌, Option, none,
  some, is_empty, length, take, drop, if◌then◌else◌,
}
use obelisk_asio_coro.Http.Stream.{Multi, eof, read}

-- A completed `async_write_some`.
pub record Written (S : Type 0) : Type 0 where
  pub failed : Bool
  pub count : ℕ
  pub next : S

pub record Sink : Type 1 where
  pub S : Type 0
  pub sent : S → Bytes
  pub write_some : S → Bytes → Written S
  pub write_some_sent :
      (s : S) (b : Bytes) → sent (write_some s b).next ≡ sent s ++ take (write_some s b).count b
  pub write_some_limit : (s : S) (b : Bytes) → (write_some s b).count ≤ length b
  pub write_some_progress :
      (s : S) (b : Bytes)
      → 0 < length b
      → (write_some s b).failed ≡ false
      → 0 < (write_some s b).count

pub data Sending (S : Type 0) : Type 0 where
  finished : S → Sending S
  write_error : S → Sending S
  no_fuel : Sending S

abbrev pub chunk : ℕ
chunk = 262144

module _ (sink : Sink) where
  open sink use {S, write_some}

  -- The inner loop: what of the buffer has not been transferred.
  unfoldable pub write_buffer : ℕ → Bytes → S → Sending S
  write_buffer zero b s = no_fuel
  write_buffer (suc fuel) b s =
      let w = write_some s b in
      let rest = write_buffer fuel (drop w.count b) w.next in
      if is_empty b then finished s else if w.failed then write_error w.next else rest

  unfoldable pub then_send : Sending S → (S → Sending S) → Sending S
  then_send (finished s) f = f s
  then_send (write_error s) f = write_error s
  then_send no_fuel f = no_fuel

  -- The outer loop.
  unfoldable pub write_data : ℕ → Multi → S → Sending S
  unfolding write_buffer then_send
  write_data zero m s = no_fuel
  write_data (suc fuel) m s = if eof m then finished s else elim (read chunk m) [
    | none ↦ no_fuel
    | some (out, m') ↦ then_send (write_buffer (suc (length out)) out s) (write_data fuel m')
  ]
