-- ===== src/Sql/Insert.antt =====
-- The rows of an insert against its columns.
use obelisk_asio_coro.Base.{
  ◌≡◌, refl, ◌↔◌, Bytes, List, [], ◌∷◌, map, length, All, All-append, arith, All-append_left,
}
use obelisk_asio_coro.Sql.Syntax.{SqlValue}
use obelisk_asio_coro.Sql.Statement.{InsertStatement, values_pack}

-- Every row has a value for each column.
abbrev pub IsAligned : InsertStatement → Type 0
IsAligned s = All (λ row. length row ≡ length s.insert_columns) s.insert_values

length-map {ℓ κ} :
    {A : Type ℓ} {B : Type κ} (f : A → B) (xs : List A) → length (map f xs) ≡ length xs
length-map f [] = refl
length-map f (x ∷ xs) = omega (arith, length-map f xs)

-- A row given as pairs sets the columns for all rows: after it every row has a value for each column
-- exactly when every earlier row has as many values as there are pairs.
pub values_pack-IsAligned_iff :
    (s : InsertStatement) (p : List (Bytes × SqlValue))
    → IsAligned (values_pack s p) ↔ All (λ row. length row ≡ length p) s.insert_values
unfolding values_pack
values_pack-IsAligned_iff s p = rw (length-map (λ (q : Bytes × SqlValue). q.0) p) (
  (λ h. All-append_left (λ (row : List SqlValue). length row ≡ length p) s.insert_values _ h),
  (λ h.
      All-append (λ (row : List SqlValue). length row ≡ length p) s.insert_values _ h
        (length-map (λ (q : Bytes × SqlValue). q.1) p, tt)),
)
