-- ===== src/Base/Keys.antt =====
-- The bound `K: Ord` of a map's keys: the comparison, and that it answers `Equal` exactly on equal
-- keys. Texts compare by their bytes, pairs lexicographically.
use Prim.Native.Nat.{ℕ, compare, Ordering}
use Prim.Native.String.{String, compare as str_compare}
use mathlib.Core.Path.{◌≡◌, refl}
use mathlib.Core.Logic.{◌↔◌}
use mathlib.Core.Bool.{Bool, true, false}
use native.Mathlib.Omega.{arith}
use text.Mathlib.TextEquality.{path_by_compare}
use text.Mathlib.TextPositions.{compare_refl}

pub record Ord {ℓ} (K : Type ℓ) : Type ℓ where
  pub cmp : K → K → Ordering
  pub cmp_refl : (a : K) → cmp a a ≡ Ordering.eq
  pub eq_of_cmp : (a b : K) → cmp a b ≡ Ordering.eq → a ≡ b

abbrev pub is_equal : Ordering → Bool
is_equal Ordering.eq = true
is_equal _ = false

module _ {ℓ} {K : Type ℓ} ⦃o : Ord K⦄ where
  abbrev pub key_eq : K → K → Bool
  key_eq a b = is_equal (o.cmp a b)

  pub key_eq_iff : (a b : K) → (key_eq a b ≡ true) ↔ (a ≡ b)
  key_eq_iff a b = ground (arith, o.cmp_refl a, o.eq_of_cmp a b)

  pub key_eq_self : (a : K) → key_eq a a ≡ true
  key_eq_self a = (key_eq_iff a a).1 refl

  pub key_eq_comm : (a b : K) → key_eq a b ≡ false → key_eq b a ≡ false
  key_eq_comm a b h = ground (arith, key_eq_iff a b, key_eq_iff b a)

pub nat_eq_of_cmp : (a b : ℕ) → compare a b ≡ Ordering.eq → a ≡ b
nat_eq_of_cmp a b h = ground arith

pub nat_cmp_refl : (a : ℕ) → compare a a ≡ Ordering.eq
nat_cmp_refl a = ground arith

instance abbrev pub nat_ord : Ord ℕ
nat_ord = record { cmp = compare; cmp_refl = nat_cmp_refl; eq_of_cmp = nat_eq_of_cmp }

instance abbrev pub str_ord : Ord String
str_ord = record { cmp = str_compare; cmp_refl = compare_refl; eq_of_cmp = path_by_compare }

abbrev pub then_compare : Ordering → Ordering → Ordering
then_compare Ordering.eq second = second
then_compare first _ = first

module _ {ℓ κ} {A : Type ℓ} {B : Type κ} ⦃a : Ord A⦄ ⦃b : Ord B⦄ where
  abbrev pub lex : A × B → A × B → Ordering
  lex x y = then_compare (a.cmp x.0 y.0) (b.cmp x.1 y.1)

  pub lex_refl : (x : A × B) → lex x x ≡ Ordering.eq
  lex_refl x = simp (a.cmp_refl, b.cmp_refl)

  pub lex_eq : (x y : A × B) → lex x y ≡ Ordering.eq → x ≡ y
  lex_eq x y = ground (arith, a.eq_of_cmp x.0 y.0, b.eq_of_cmp x.1 y.1)

  instance abbrev pub pair_ord : Ord (A × B)
  pair_ord = record { cmp = lex; cmp_refl = lex_refl; eq_of_cmp = lex_eq }
