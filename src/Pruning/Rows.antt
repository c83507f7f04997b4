-- ===== src/Pruning/Rows.antt =====
-- src/query/expr.rs, one row at a time: what it takes for a row to pass a filter. The laws of the kernels
-- are Arrow's documented behaviour, where an order of floats leaves out NaN and the negative zero, which
-- Arrow orders by their bits.
use spark_x_distributed_quer.Base.{
  ℕ, ◌<◌, ◌^◌, Bool, true, false, not, none, some, ◌≡◌, refl, ◌≢◌, ◌⊎◌, inl, inr, arith,
}
use spark_x_distributed_quer.Error.{ok}
use spark_x_distributed_quer.Expr.{
  DataType, ScalarValue, scalar_type, Operator, partial_compare, is_nan,
}
use spark_x_distributed_quer.Expr.Typing.{is_boolean_or_null}
use spark_x_distributed_quer.Expr.Evaluate.{Arrow, is_arithmetic, target_type}
use spark_x_distributed_quer.Pruning.{is_null_value}
use spark_x_distributed_quer.Pruning.Bounds.{Admitted}

-- The type of the scalars that an array of a type holds.
abbrev pub kind : DataType → DataType
kind DataType.int32 = DataType.int64
kind DataType.uint32 = DataType.uint64
kind DataType.float32 = DataType.float64
kind t = t

-- `value_at` answers for these types. A value of another type counts as null here.
abbrev pub is_readable : DataType → Bool
is_readable (DataType.other _) = false
is_readable _ = true

abbrev pub IsOrdinary : ScalarValue → Type 0
IsOrdinary (ScalarValue.float64 bits) = (is_nan bits ≡ false) × (bits ≢ 2 ^ 63)
IsOrdinary _ = Unit

-- A cast that evaluation makes so that two operands have one type.
abbrev pub Widens : DataType → DataType → Type 0
Widens from to =
    (op : Operator) × (other : DataType) × ((target_type op from other ≡ some to)
      ⊎ (target_type op other from ≡ some to))

-- A value and what such a cast makes of it.
abbrev pub Kept : ScalarValue → ScalarValue → Type 0
Kept v w =
    (is_null_value w ≡ is_null_value v)
    × (scalar_type w ≡ scalar_type v → w ≡ v)
    × (IsOrdinary v → IsOrdinary w)

abbrev pub is_comparison : Operator → Bool
is_comparison Operator.and = false
is_comparison Operator.or = false
is_comparison op = not (is_arithmetic op)

pub record RowLaws (arrow : Arrow) : Type 0 where
  pub value : arrow.Array → ℕ → ScalarValue
  pub value_kind :
      (a : arrow.Array) (i : ℕ)
      → is_null_value (value a i) ≡ false
      → scalar_type (value a i) ≡ kind (arrow.array_type a)
  pub filled_value : (v : ScalarValue) (n i : ℕ) → i < n → value (arrow.filled v n) i ≡ v
  pub null_booleans_value : (n i : ℕ) → i < n → value (arrow.null_booleans n) i ≡ ScalarValue.null
  pub cast_value :
      (a b : arrow.Array) (t : DataType) (i : ℕ)
      → Widens (arrow.array_type a) t
      → arrow.cast a t ≡ ok b
      → Kept (value a i) (value b i)
  pub and_true :
      (a b c : arrow.Array) (i : ℕ)
      → arrow.and_kleene a b ≡ ok c
      → value c i ≡ ScalarValue.boolean true
      → (value a i ≡ ScalarValue.boolean true) × (value b i ≡ ScalarValue.boolean true)
  pub or_true :
      (a b c : arrow.Array) (i : ℕ)
      → arrow.or_kleene a b ≡ ok c
      → value c i ≡ ScalarValue.boolean true
      → (value a i ≡ ScalarValue.boolean true) ⊎ (value b i ≡ ScalarValue.boolean true)
  pub compare_true :
      (op : Operator) (a b c : arrow.Array) (i : ℕ)
      → is_comparison op ≡ true
      → arrow.compare op a b ≡ ok c
      → arrow.array_type a ≡ arrow.array_type b
      → is_readable (arrow.array_type a) ≡ true
      → IsOrdinary (value a i)
      → IsOrdinary (value b i)
      → value c i ≡ ScalarValue.boolean true
      → (is_null_value (value a i) ≡ false)
        × (is_null_value (value b i) ≡ false)
        × Admitted op (partial_compare (value a i) (value b i))
  pub is_null_true :
      (a c : arrow.Array) (i : ℕ)
      → arrow.is_null a ≡ ok c
      → value c i ≡ ScalarValue.boolean true
      → is_null_value (value a i) ≡ true
  pub is_not_null_true :
      (a c : arrow.Array) (i : ℕ)
      → is_readable (arrow.array_type a) ≡ true
      → arrow.is_not_null a ≡ ok c
      → value c i ≡ ScalarValue.boolean true
      → is_null_value (value a i) ≡ false

-- What holds of an array of a known type at a row that is neither NaN nor the negative zero there.
module _ {arrow : Arrow} (rows : RowLaws arrow) (i : ℕ) where
  abbrev pub IsOrdinaryAt : arrow.Array → Type 0
  IsOrdinaryAt a = (is_readable (arrow.array_type a) ≡ true) × IsOrdinary (rows.value a i)

pub Kept_self : (v : ScalarValue) → Kept v v
Kept_self v = (refl, λ _. refl, λ o. o)

pub target-kind :
    (op : Operator) (l r t : DataType)
    → target_type op l r ≡ some t
    → kind l ≡ kind r
    → kind t ≡ kind l
unfolding target_type
target-kind op l r t h e = ground arith

pub target-readable :
    (op : Operator) (l r t : DataType)
    → target_type op l r ≡ some t
    → is_readable l ≡ true
    → is_readable r ≡ true
    → is_readable t ≡ true
unfolding target_type
target-readable op l r t h e d = ground arith

pub target-boolean :
    (op : Operator) (l r : DataType)
    → target_type op l r ≡ some DataType.boolean
    → (is_boolean_or_null l ≡ true) × (is_boolean_or_null r ≡ true)
unfolding target_type is_boolean_or_null
target-boolean op l r h = ground arith

-- Values that compare are of one type, unless one is null.
pub compared_types :
    (v w : ScalarValue)
    → is_null_value v ≡ false
    → is_null_value w ≡ false
    → (partial_compare v w ≡ none) ⊎ (scalar_type v ≡ scalar_type w)
unfolding partial_compare scalar_type
compared_types (ScalarValue.boolean _) (ScalarValue.boolean _) h k = inr refl
compared_types (ScalarValue.int64 _) (ScalarValue.int64 _) h k = inr refl
compared_types (ScalarValue.uint64 _) (ScalarValue.uint64 _) h k = inr refl
compared_types (ScalarValue.float64 _) (ScalarValue.float64 _) h k = inr refl
compared_types (ScalarValue.utf8 _) (ScalarValue.utf8 _) h k = inr refl
compared_types ScalarValue.null _ h k = cc
compared_types _ ScalarValue.null h k = cc
compared_types _ _ h k = inl refl
