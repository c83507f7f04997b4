-- ===== src/Scenarios/Arrays.antt =====
-- A small Arrow for the tests: an array is a type and its values by row, where a value of another type
-- counts as null. It has the kernels on truth values, the comparisons, the addition of unsigned numbers,
-- and the casts between the widths of one kind of number.
use spark_x_distributed_quer.Base.{
  ℕ, ◌+◌, Bool, true, false, not, ◌||◌, Option, none, some, Ordering, ◌≡◌, refl, ◌∙◌, ◌⊎◌, inl, inr,
  arith, Bool-cases, is_yes_iff, if◌then◌else◌,
}
use spark_x_distributed_quer.Error.{Result, ok, err, execution}
use spark_x_distributed_quer.Error.Ensures.{Ensures, Ensures-ok, Ensures-err}
use spark_x_distributed_quer.Expr.{
  DataType, DataType-discrete, ScalarValue, scalar_type, Operator, partial_compare,
}
use spark_x_distributed_quer.Expr.Typing.{type_eq, is_null_type}
use spark_x_distributed_quer.Expr.Evaluate.{Arrow}
use spark_x_distributed_quer.Expr.Kernels.{TypeLaws, ok_eq}
use spark_x_distributed_quer.Pruning.{is_null_value}
use spark_x_distributed_quer.Pruning.Bounds.{Admitted, admits}
use spark_x_distributed_quer.Pruning.Rows.{RowLaws, kind, Kept, Kept_self}

abbrev pub Column : Type 0
Column = DataType × (ℕ → ScalarValue)

unfoldable pub read : Column → ℕ → ScalarValue
unfolding scalar_type
read (t, f) i = if type_eq (scalar_type (f i)) (kind t) then f i else ScalarValue.null

abbrev pub decides : Operator → Option Ordering → Bool
decides op none = false
decides op (some o) = admits op o

abbrev pub answer : Operator → Bool → Bool → Option Ordering → ScalarValue
answer op true w o = ScalarValue.null
answer op false true o = ScalarValue.null
answer op false false o = ScalarValue.boolean (decides op o)

abbrev pub and_values : ScalarValue → ScalarValue → ScalarValue
and_values (ScalarValue.boolean true) (ScalarValue.boolean true) = ScalarValue.boolean true
and_values (ScalarValue.boolean false) w = ScalarValue.boolean false
and_values v (ScalarValue.boolean false) = ScalarValue.boolean false
and_values v w = ScalarValue.null

abbrev pub or_values : ScalarValue → ScalarValue → ScalarValue
or_values (ScalarValue.boolean false) (ScalarValue.boolean false) = ScalarValue.boolean false
or_values (ScalarValue.boolean true) w = ScalarValue.boolean true
or_values v (ScalarValue.boolean true) = ScalarValue.boolean true
or_values v w = ScalarValue.null

abbrev pub add_values : ScalarValue → ScalarValue → ScalarValue
add_values (ScalarValue.uint64 m) (ScalarValue.uint64 n) = ScalarValue.uint64 (m + n)
add_values v w = ScalarValue.null

abbrev pub booleans : (ℕ → ScalarValue) → Result Column
booleans f = ok (DataType.boolean, f)

unfoldable pub cast_column : Column → DataType → Result Column
unfolding read
cast_column a t =
    if type_eq (kind a.0) (kind t) || is_null_type a.0
    then ok (t, read a)
    else err (execution "cast")

abbrev pub columns : Arrow
columns = record {
  Array = Column;
  array_type = λ a. a.0;
  filled = λ v n. (scalar_type v, λ _. v);
  null_booleans = λ n. (DataType.boolean, λ _. ScalarValue.null);
  cast = cast_column;
  compare = λ op a b. booleans (λ i.
      answer op (is_null_value (read a i)) (is_null_value (read b i))
        (partial_compare (read a i) (read b i)));
  and_kleene = λ a b. booleans (λ i. and_values (read a i) (read b i));
  or_kleene = λ a b. booleans (λ i. or_values (read a i) (read b i));
  arithmetic = λ op a b. ok (a.0, λ i. add_values (read a i) (read b i));
  is_null = λ a. booleans (λ i. ScalarValue.boolean (is_null_value (read a i)));
  is_not_null = λ a. booleans (λ i. ScalarValue.boolean (not (is_null_value (read a i))));
}

cast_column_type : (a : Column) (t : DataType) → Ensures (λ b. b.0 ≡ t) (cast_column a t)
unfolding cast_column
cast_column_type a t =
    let Q : Column → Type 0 = λ b. b.0 ≡ t in
    elim (Bool-cases (type_eq (kind a.0) (kind t) || is_null_type a.0)) [
      | inl e ↦ rw e (Ensures-ok Q _ refl)
      | inr e ↦ rw e (Ensures-err Q _)
    ]

pub columns-TypeLaws : TypeLaws columns
unfolding scalar_type read DataType-discrete
columns-TypeLaws = record {
  filled_type = λ v n. refl;
  null_booleans_type = λ n. refl;
  cast_type = cast_column_type;
  compare_type = λ op a b. Ensures-ok _ _ refl;
  and_type = λ a b. Ensures-ok _ _ refl;
  or_type = λ a b. Ensures-ok _ _ refl;
  arithmetic_type_law = λ op a b n h. Ensures-ok _ _ refl;
  is_null_type_law = λ a. Ensures-ok _ _ refl;
  is_not_null_type_law = λ a. Ensures-ok _ _ refl;
}

null_value : (v : ScalarValue) → is_null_value v ≡ true → v ≡ ScalarValue.null
null_value ScalarValue.null h = refl
null_value _ h = cc

pub read-kind :
    (a : Column) (i : ℕ) → is_null_value (read a i) ≡ false → scalar_type (read a i) ≡ kind a.0
unfolding read
read-kind (t, f) i h = elim (Bool-cases (type_eq (scalar_type (f i)) (kind t))) [
  | inl e ↦ rw e ((is_yes_iff (DataType-discrete (scalar_type (f i)) (kind t))).0 e)
  | inr e ↦ absurd (cc (rw e at h))
]

-- An array of its values reads as itself, if they are of its type or null.
read-read :
    (a : Column) (t : DataType) (i : ℕ)
    → (is_null_value (read a i) ≡ false → scalar_type (read a i) ≡ kind t)
    → read (t, read a) i ≡ read a i
unfolding read
read-read a t i h = elim (Bool-cases (type_eq (scalar_type (read a i)) (kind t))) [
  | inl e ↦ rw e refl
  | inr e ↦ elim (Bool-cases (is_null_value (read a i))) [
    | inl n ↦ rw (e, null_value (read a i) n) refl
    | inr n ↦
        absurd (cc (e, (is_yes_iff (DataType-discrete (scalar_type (read a i)) (kind t))).1 (h n)))
  ]
]

null_type :
    (v : ScalarValue) (t : DataType)
    → scalar_type v ≡ kind t
    → is_null_type t ≡ true
    → is_null_value v ≡ true
unfolding scalar_type
null_type ScalarValue.null t h e = refl
null_type v DataType.null h e = ground arith
null_type v _ h e = cc

pub cast-Kept :
    (a b : Column) (t : DataType) (i : ℕ) → cast_column a t ≡ ok b → Kept (read a i) (read b i)
unfolding cast_column
cast-Kept a b t i h = elim (Bool-cases (type_eq (kind a.0) (kind t))) [
  | inl e ↦
      let same : kind a.0 ≡ kind t = (is_yes_iff (DataType-discrete (kind a.0) (kind t))).0 e in
      rw (← ok_eq (rw e at h), read-read a t i (λ n. read-kind a i n ∙ same)) (Kept_self (read a i))
  | inr e ↦ elim (Bool-cases (is_null_type a.0)) [
    | inl n ↦
        rw
          (
            ← ok_eq (rw (e, n) at h),
            read-read a t i (λ k. absurd (cc (k, null_type (read a i) a.0 (read-kind a i k) n))),
          )
          (Kept_self (read a i))
    | inr n ↦ absurd (cc (rw (e, n) at h))
  ]
]

pub read-boolean :
    (f : ℕ → ScalarValue) (i : ℕ)
    → read (DataType.boolean, f) i ≡ ScalarValue.boolean true
    → f i ≡ ScalarValue.boolean true
unfolding read
read-boolean f i h = elim (Bool-cases (type_eq (scalar_type (f i)) DataType.boolean)) [
  | inl e ↦ rw e at h
  | inr e ↦ absurd (cc (rw e at h))
]

pub and_values-true :
    (v w : ScalarValue)
    → and_values v w ≡ ScalarValue.boolean true
    → (v ≡ ScalarValue.boolean true) × (w ≡ ScalarValue.boolean true)
and_values-true v w h = ground arith

pub or_values-true :
    (v w : ScalarValue)
    → or_values v w ≡ ScalarValue.boolean true
    → (v ≡ ScalarValue.boolean true) ⊎ (w ≡ ScalarValue.boolean true)
or_values-true v w h = ground arith

pub answer-true :
    (op : Operator) (v w : Bool) (o : Option Ordering)
    → answer op v w o ≡ ScalarValue.boolean true
    → (v ≡ false) × (w ≡ false) × Admitted op o
answer-true op false false (some o) h = (refl, refl, cc)
answer-true op false false none h = (refl, refl, tt)
answer-true op true w o h = cc
answer-true op false true o h = cc

pub boolean_eq : {b : Bool} → ScalarValue.boolean b ≡ ScalarValue.boolean true → b ≡ true
boolean_eq h = cc

pub filled_read : (v : ScalarValue) (i : ℕ) → read (scalar_type v, λ _. v) i ≡ v
unfolding read scalar_type DataType-discrete
filled_read ScalarValue.null i = refl
filled_read (ScalarValue.boolean _) i = refl
filled_read (ScalarValue.int64 _) i = refl
filled_read (ScalarValue.uint64 _) i = refl
filled_read (ScalarValue.float64 _) i = refl
filled_read (ScalarValue.utf8 _) i = refl

unfoldable pub columns-RowLaws : RowLaws columns
unfolding scalar_type read DataType-discrete
columns-RowLaws = record {
  value = read;
  value_kind = read-kind;
  filled_value = λ v n i h. filled_read v i;
  null_booleans_value = λ n i h. nulls i;
  cast_value = λ a b t i w h. cast-Kept a b t i h;
  and_true = λ a b c i h t. and_values-true (read a i) (read b i) (of_booleans c i h t);
  or_true = λ a b c i h t. or_values-true (read a i) (read b i) (of_booleans c i h t);
  compare_true = λ op a b c i is_cmp h same r ov ow t. answer-true op _ _ _ (of_booleans c i h t);
  is_null_true = λ a c i h t. boolean_eq (of_booleans c i h t);
  is_not_null_true = λ a c i r h t. not_true _ (boolean_eq (of_booleans c i h t));
}
  where
    nulls : (i : ℕ) → read (DataType.boolean, λ _. ScalarValue.null) i ≡ ScalarValue.null
    nulls i = refl

    of_booleans :
        {f : ℕ → ScalarValue} (c : Column) (i : ℕ)
        → booleans f ≡ ok c
        → read c i ≡ ScalarValue.boolean true
        → f i ≡ ScalarValue.boolean true
    of_booleans {f} c i h t = read-boolean f i (rw (← ok_eq h) at t)

    not_true : (b : Bool) → not b ≡ true → b ≡ false
    not_true true h = cc
    not_true false h = refl
