-- ===== src/Expr/Order.antt =====
-- src/query/expr.rs: the partial order of scalar values. Where values compare, the order can be turned
-- round and is transitive.
use Prim.Native.Char.{Char, code}
use Prim.Native.String.compare as clauses
use Prim.Native.String.{then as then_native, compare as str_compare}
use spark_x_distributed_quer.Base.{
  ℕ, ℤ, int_cmp, String, Bool, true, false, ◌||◌, Option, none, some, ◌≡◌, refl, ◌≢◌, arith,
  Ordering, compare, then_compare, if◌then◌else◌, ap,
}
use spark_x_distributed_quer.Expr.{ScalarValue, partial_compare, f64_key, is_nan, bool_cmp}

abbrev pub flip : Ordering → Ordering
flip Ordering.lt = Ordering.gt
flip Ordering.eq = Ordering.eq
flip Ordering.gt = Ordering.lt

nat_flip : (a b : ℕ) → compare b a ≡ flip (compare a b)
nat_flip a b = ground arith

nat_trans :
    (a b c : ℕ)
    → compare a b ≢ Ordering.gt
    → compare b c ≢ Ordering.gt
    → compare a c ≡ then_compare (compare a b) (compare b c)
nat_trans a b c h k = ground arith

int_flip : (a b : ℤ) → int_cmp b a ≡ flip (int_cmp a b)
int_flip a b = ground arith

int_trans :
    (a b c : ℤ)
    → int_cmp a b ≢ Ordering.gt
    → int_cmp b c ≢ Ordering.gt
    → int_cmp a c ≡ then_compare (int_cmp a b) (int_cmp b c)
int_trans a b c h k = ground arith

nil_cons : (d : Char) (t : String) → str_compare String.[] (String.◌∷◌ d t) ≡ Ordering.lt
nil_cons d t = λ i. clauses.nil-cons d t i

cons_nil : (c : Char) (s : String) → str_compare (String.◌∷◌ c s) String.[] ≡ Ordering.gt
cons_nil c s = λ i. clauses.cons-nil c s i

cons_cons :
    (c d : Char) (s t : String)
    → str_compare (String.◌∷◌ c s) (String.◌∷◌ d t)
      ≡ then_compare (compare (code c) (code d)) (str_compare s t)
cons_cons c d s t = ground (arith, path c d s t)
  where
    path :
        (c d : Char) (s t : String)
        → str_compare (String.◌∷◌ c s) (String.◌∷◌ d t)
          ≡ then_native (compare (code c) (code d)) (str_compare s t)
    path c d s t = λ i. clauses.cons-cons c d s t i

str_flip : (s t : String) → str_compare t s ≡ flip (str_compare s t)
str_flip String.[] String.[] = refl
str_flip String.[] (String.◌∷◌ d t) = rw (nil_cons d t, cons_nil d t)
str_flip (String.◌∷◌ c s) String.[] = rw (nil_cons c s, cons_nil c s)
str_flip (String.◌∷◌ c s) (String.◌∷◌ d t) =
    ground (arith, cons_cons c d s t, cons_cons d c t s, str_flip s t)

str_trans :
    (s t u : String)
    → str_compare s t ≢ Ordering.gt
    → str_compare t u ≢ Ordering.gt
    → str_compare s u ≡ then_compare (str_compare s t) (str_compare t u)
str_trans String.[] String.[] u h k = refl
str_trans String.[] (String.◌∷◌ d t) String.[] h k = ground (arith, cons_nil d t)
str_trans String.[] (String.◌∷◌ d t) (String.◌∷◌ e u) h k = rw (nil_cons d t, nil_cons e u)
str_trans (String.◌∷◌ c s) String.[] u h k = ground (arith, cons_nil c s)
str_trans (String.◌∷◌ c s) (String.◌∷◌ d t) String.[] h k = ground (arith, cons_nil d t)
str_trans (String.◌∷◌ c s) (String.◌∷◌ d t) (String.◌∷◌ e u) h k =
    ground (arith, cons_cons c d s t, cons_cons d e t u, cons_cons c e s u, str_trans s t u)

-- The comparison answered, and not that the left value is the greater.
abbrev pub IsLe : Option Ordering → Type 0
IsLe none = ⊥
IsLe (some o) = o ≢ Ordering.gt

-- The answer for the outer two of three values in order.
abbrev pub chain : Option Ordering → Option Ordering → Option Ordering
chain (some a) (some b) = some (then_compare a b)
chain _ _ = none

abbrev pub map_flip : Option Ordering → Option Ordering
map_flip none = none
map_flip (some o) = some (flip o)

-- Two floats by whether they are NaN, and by their keys.
abbrev float_cmp : Bool → Bool → ℤ → ℤ → Option Ordering
float_cmp p q x y = if p || q then none else some (int_cmp x y)

float_flip : (p q : Bool) (x y : ℤ) → float_cmp q p y x ≡ map_flip (float_cmp p q x y)
float_flip false false x y = ap some (int_flip x y)
float_flip false true x y = refl
float_flip true false x y = refl
float_flip true true x y = refl

float_trans :
    (p q r : Bool) (x y z : ℤ)
    → IsLe (float_cmp p q x y)
    → IsLe (float_cmp q r y z)
    → float_cmp p r x z ≡ chain (float_cmp p q x y) (float_cmp q r y z)
float_trans false false false x y z h k = ap some (int_trans x y z h k)
float_trans false false true x y z h k = absurd k
float_trans false true r x y z h k = absurd h
float_trans true q r x y z h k = absurd h

bool_flip : (a b : Bool) → bool_cmp b a ≡ flip (bool_cmp a b)
bool_flip a b = ground arith

pub partial_compare_flip :
    (a b : ScalarValue) → partial_compare b a ≡ map_flip (partial_compare a b)
unfolding partial_compare
partial_compare_flip (ScalarValue.boolean a) (ScalarValue.boolean b) = ap some (bool_flip a b)
partial_compare_flip (ScalarValue.int64 a) (ScalarValue.int64 b) = ap some (int_flip a b)
partial_compare_flip (ScalarValue.uint64 a) (ScalarValue.uint64 b) = ap some (nat_flip a b)
partial_compare_flip (ScalarValue.float64 a) (ScalarValue.float64 b) =
    float_flip (is_nan a) (is_nan b) (f64_key a) (f64_key b)
partial_compare_flip (ScalarValue.utf8 a) (ScalarValue.utf8 b) = ap some (str_flip a b)
partial_compare_flip _ _ = ground arith

bool_trans :
    (a b c : Bool)
    → bool_cmp a b ≢ Ordering.gt
    → bool_cmp b c ≢ Ordering.gt
    → bool_cmp a c ≡ then_compare (bool_cmp a b) (bool_cmp b c)
bool_trans a b c h k = ground arith

pub partial_compare_trans :
    (a b c : ScalarValue)
    → IsLe (partial_compare a b)
    → IsLe (partial_compare b c)
    → partial_compare a c ≡ chain (partial_compare a b) (partial_compare b c)
unfolding partial_compare
partial_compare_trans (ScalarValue.boolean a) (ScalarValue.boolean b) (ScalarValue.boolean c) h k =
    ap some (bool_trans a b c h k)
partial_compare_trans (ScalarValue.int64 a) (ScalarValue.int64 b) (ScalarValue.int64 c) h k =
    ap some (int_trans a b c h k)
partial_compare_trans (ScalarValue.uint64 a) (ScalarValue.uint64 b) (ScalarValue.uint64 c) h k =
    ap some (nat_trans a b c h k)
partial_compare_trans (ScalarValue.float64 a) (ScalarValue.float64 b) (ScalarValue.float64 c) h k =
    float_trans (is_nan a) (is_nan b) (is_nan c) (f64_key a) (f64_key b) (f64_key c) h k
partial_compare_trans (ScalarValue.utf8 a) (ScalarValue.utf8 b) (ScalarValue.utf8 c) h k =
    ap some (str_trans a b c h k)
partial_compare_trans _ _ _ h k = ground arith
