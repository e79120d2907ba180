-- ===== src/Base/Decimal.antt =====
-- Decimal text of numbers, as `std::format("{}", n)` and `std::to_string(n)` write it.
use Prim.Native.Nat.{ℕ, zero, suc, ◌+◌, ◌/◌, ◌%◌}
use mathlib.Core.Path.{◌≡◌, refl}
use mathlib.Core.List.{[], ◌∷◌}
use obelisk_asio_coro.Base.Tests.{ltb, if◌then◌else◌}
use obelisk_asio_coro.Base.Text.{Bytes, codes}

-- `negsuc n` is -(n + 1).
pub data ℤ : Type 0 where
  pos : ℕ → ℤ
  negsuc : ℕ → ℤ

-- The digits of `n` in front of `acc`; the fuel `n + 1` is more than the number of digits.
unfoldable pub digits_from : ℕ → ℕ → Bytes → Bytes
digits_from zero n acc = acc
digits_from (suc fuel) n acc =
    let rest = digits_from fuel (n / 10) ((48 + n % 10) ∷ acc) in
    if ltb n 10 then (48 + n) ∷ acc else rest

unfoldable pub show_ℕ : ℕ → Bytes
unfolding digits_from
show_ℕ n = digits_from (suc n) n []

unfoldable pub show_ℤ : ℤ → Bytes
show_ℤ (pos n) = show_ℕ n
show_ℤ (negsuc n) = b'-' ∷ show_ℕ (suc n)

show_ℤ_runs : show_ℤ (negsuc 1204) ≡ codes "-1205"
unfolding show_ℤ show_ℕ
show_ℤ_runs = refl
