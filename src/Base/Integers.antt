-- ===== src/Base/Integers.antt =====
-- Signed integers over the native numbers, and their order.
use Prim.Native.Nat.{ℕ, compare, Ordering}

-- `negsuc n` is -(n + 1).
pub data ℤ : Type 0 where
  pos : ℕ → ℤ
  negsuc : ℕ → ℤ

abbrev pub int_cmp : ℤ → ℤ → Ordering
int_cmp (pos a) (pos b) = compare a b
int_cmp (pos a) (negsuc b) = Ordering.gt
int_cmp (negsuc a) (pos b) = Ordering.lt
int_cmp (negsuc a) (negsuc b) = compare b a
