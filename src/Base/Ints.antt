-- ===== src/Base/Ints.antt =====
-- Signed integers, and the conversion of an `int` to the 64-bit `size_t` that a comparison with
-- `vector::size()` makes.
use Prim.Native.Nat.{ℕ, ◌-◌}

-- `negsuc n` is -(n + 1).
pub data ℤ : Type 0 where
  pos : ℕ → ℤ
  negsuc : ℕ → ℤ

pub to_size_t : ℤ → ℕ
to_size_t (pos n) = n
to_size_t (negsuc n) = 18446744073709551615 - n
