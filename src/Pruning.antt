-- ===== src/Pruning.antt =====
-- src/storage/pruning.rs: which row groups of a Parquet file may hold a row that passes the filters. The
-- metadata of a row group is what the Parquet library reads from the file, with the values of its
-- statistics in the types that the library gives them: a 32-bit float is its bits, and a byte array the
-- text that it encodes, if it encodes one.

pub mod Bounds
pub mod Rows
pub mod Coerced
pub mod Operands
pub mod Described
pub mod Sound
use spark_x_distributed_quer.Base.{
  ℕ, zero, suc, ◌+◌, ◌-◌, ◌*◌, ◌/◌, ◌%◌, ◌^◌, ℤ, pos, negsuc, String, Bool, true, false, not, ◌&&◌,
  ◌||◌, Option, none, some, List, [], ◌∷◌, Ordering, all, get_elem?, ltb, ◌==◌, key_eq, str_ord,
  is_yes, if◌then◌else◌,
}
use mathlib.Core.Option
use spark_x_distributed_quer.Text.{to_ascii_lowercase}
use spark_x_distributed_quer.Expr.{
  DataType, ScalarValue, ScalarValue-discrete, Operator, Expr, unalias, partial_compare,
}
use spark_x_distributed_quer.Expr.Names.{unqualified}
use spark_x_distributed_quer.Expr.Schemas.{Field, Schema}

-- The least and the greatest value, each where it is known.
pub data Statistics : Type 0 where
  boolean : Option Bool → Option Bool → Statistics
  int32 int64 : Option ℤ → Option ℤ → Statistics
  float double : Option ℕ → Option ℕ → Statistics
  byte_array : Option (Option String) → Option (Option String) → Statistics
  other : Statistics

pub record ColumnStatistics : Type 0 where
  pub values : Statistics
  pub null_count : Option ℕ
  pub min_is_exact : Bool
  pub max_is_exact : Bool
  pub min_max_deprecated : Bool
  pub min_max_backwards_compatible : Bool

pub record RowGroup : Type 0 where
  pub num_rows : ℤ
  pub columns : List (Option ColumnStatistics)

-- `f64::from(f32)`, by the bits: a subnormal number is shifted until its leading bit stands.
abbrev shifts : ℕ → ℕ → ℕ
shifts zero m = 0
shifts (suc n) m = if ltb m (2 ^ n) then suc (shifts n m) else 0

unfoldable pub f64_from : ℕ → ℕ
f64_from bits =
    let sign = bits / 2 ^ 31 in
    let e = bits / 2 ^ 23 % 2 ^ 8 in
    let m = bits % 2 ^ 23 in
    let s = shifts 23 m in
    let magnitude =
      if e == 255
      then 2047 * 2 ^ 52 + m * 2 ^ 29
      else if not (e == 0)
      then (e + 896) * 2 ^ 52 + m * 2 ^ 29
      else if m == 0
      then 0
      else (896 - s) * 2 ^ 52 + (m * 2 ^ (s + 1)) % 2 ^ 23 * 2 ^ 29 in
    sign * 2 ^ 63 + magnitude

-- `position(...)`
unfoldable pub position : (Field → Bool) → ℕ → List Field → Option ℕ
position test i [] = none
position test i (f ∷ fields) =
    let rest = position test (suc i) fields in if test f then some i else rest

abbrev pub flatten {ℓ} : {A : Type ℓ} → Option (Option A) → Option A
flatten none = none
flatten (some o) = o

abbrev pub and_then {ℓ κ} : {A : Type ℓ} {B : Type κ} → Option A → (A → Option B) → Option B
and_then none f = none
and_then (some a) f = f a

abbrev has_name : String → Field → Bool
has_name name f = key_eq (to_ascii_lowercase f.name) (to_ascii_lowercase name)

unfoldable pub column_statistics :
    String → Schema → List (Option ℕ) → RowGroup → Option (ℕ × ColumnStatistics)
unfolding to_ascii_lowercase unqualified position
column_statistics name schema parquet_columns row_group =
    and_then (position (has_name (unqualified name)) 0 schema.fields) (λ field_index.
      and_then (flatten (get_elem? parquet_columns field_index)) (λ parquet_index.
        and_then (flatten (get_elem? row_group.columns parquet_index))
          (λ statistics. some (field_index, statistics))))

unfoldable pub statistic_min : Statistics → DataType → Option ScalarValue
unfolding f64_from
statistic_min (Statistics.boolean lo _) DataType.boolean = Option.map ScalarValue.boolean lo
statistic_min (Statistics.int32 lo _) DataType.int32 = Option.map ScalarValue.int64 lo
statistic_min (Statistics.int64 lo _) DataType.int64 = Option.map ScalarValue.int64 lo
statistic_min (Statistics.float lo _) DataType.float32 =
    Option.map (λ b. ScalarValue.float64 (f64_from b)) lo
statistic_min (Statistics.double lo _) DataType.float64 = Option.map ScalarValue.float64 lo
statistic_min (Statistics.byte_array lo _) DataType.utf8 = Option.map ScalarValue.utf8 (flatten lo)
statistic_min _ _ = none

unfoldable pub statistic_max : Statistics → DataType → Option ScalarValue
unfolding f64_from
statistic_max (Statistics.boolean _ hi) DataType.boolean = Option.map ScalarValue.boolean hi
statistic_max (Statistics.int32 _ hi) DataType.int32 = Option.map ScalarValue.int64 hi
statistic_max (Statistics.int64 _ hi) DataType.int64 = Option.map ScalarValue.int64 hi
statistic_max (Statistics.float _ hi) DataType.float32 =
    Option.map (λ b. ScalarValue.float64 (f64_from b)) hi
statistic_max (Statistics.double _ hi) DataType.float64 = Option.map ScalarValue.float64 hi
statistic_max (Statistics.byte_array _ hi) DataType.utf8 = Option.map ScalarValue.utf8 (flatten hi)
statistic_max _ _ = none

unfoldable pub reverse_comparison : Operator → Operator
reverse_comparison Operator.lt = Operator.gt
reverse_comparison Operator.lt_eq = Operator.gt_eq
reverse_comparison Operator.gt = Operator.lt
reverse_comparison Operator.gt_eq = Operator.lt_eq
reverse_comparison op = op

-- Tests of an answer of `partial_compare`.
abbrev pub is_less : Option Ordering → Bool
is_less (some Ordering.lt) = true
is_less _ = false

abbrev pub is_greater : Option Ordering → Bool
is_greater (some Ordering.gt) = true
is_greater _ = false

abbrev pub is_same : Option Ordering → Bool
is_same (some Ordering.eq) = true
is_same _ = false

-- `is_none_or` and `is_some_and`
abbrev pub is_none_or {ℓ} : {A : Type ℓ} → Option A → (A → Bool) → Bool
is_none_or none p = true
is_none_or (some a) p = p a

abbrev pub is_some_and {ℓ} : {A : Type ℓ} → Option A → (A → Bool) → Bool
is_some_and none p = false
is_some_and (some a) p = p a

abbrev pub scalar_eq : ScalarValue → ScalarValue → Bool
scalar_eq a b = is_yes (ScalarValue-discrete a b)

abbrev pub is_float : DataType → Bool
is_float DataType.float32 = true
is_float DataType.float64 = true
is_float _ = false

-- Whether some value between the bounds may compare to the literal as the operator says.
unfoldable pub bounds_may_match :
    Operator → DataType → ScalarValue → Option ScalarValue → Option ScalarValue → Bool
unfolding partial_compare
bounds_may_match Operator.eq t literal lo hi =
    is_none_or lo (λ m. not (is_less (partial_compare literal m)))
    && is_none_or hi (λ m. not (is_greater (partial_compare literal m)))
bounds_may_match Operator.not_eq t literal lo hi =
    if is_float t
    then true
    else not
        (is_some_and lo (λ m. scalar_eq m literal) && is_some_and hi (λ m. scalar_eq m literal))
bounds_may_match Operator.lt t literal lo hi = not (
    is_some_and lo
      (λ m. is_same (partial_compare m literal) || is_greater (partial_compare m literal)))
bounds_may_match Operator.lt_eq t literal lo hi =
    is_none_or lo (λ m. not (is_greater (partial_compare m literal)))
bounds_may_match Operator.gt t literal lo hi = not (
    is_some_and hi
      (λ m. is_same (partial_compare m literal) || is_less (partial_compare m literal)))
bounds_may_match Operator.gt_eq t literal lo hi =
    is_none_or hi (λ m. not (is_less (partial_compare m literal)))
bounds_may_match _ t literal lo hi = true

abbrev pub is_null_value : ScalarValue → Bool
is_null_value ScalarValue.null = true
is_null_value _ = false

-- The bounds that may be relied on: the order of the statistics is defined, and they are exact.
abbrev pub ordered : ColumnStatistics → Bool
ordered s = not s.min_max_deprecated || s.min_max_backwards_compatible

unfoldable pub exact_min : ColumnStatistics → DataType → Option ScalarValue
unfolding statistic_min
exact_min s t = if ordered s && s.min_is_exact then statistic_min s.values t else none

unfoldable pub exact_max : ColumnStatistics → DataType → Option ScalarValue
unfolding statistic_max
exact_max s t = if ordered s && s.max_is_exact then statistic_max s.values t else none

-- The type and nullability of a field: `column_statistics` answers only with places of fields.
abbrev pub type_at : Schema → ℕ → DataType
type_at schema i = elim (get_elem? schema.fields i) [ none ↦ DataType.null | some f ↦ f.data_type ]

abbrev pub nullable_at : Schema → ℕ → Bool
nullable_at schema i = elim (get_elem? schema.fields i) [ none ↦ true | some f ↦ f.nullable ]

abbrev pub u64_of : ℤ → ℕ
u64_of (pos n) = n
u64_of (negsuc _) = 0

module _ (schema : Schema) (parquet_columns : List (Option ℕ)) (row_group : RowGroup) where
  -- What follows once the statistics of the column are looked up.
  unfoldable pub statistics_may_match :
      Operator → ScalarValue → Option (ℕ × ColumnStatistics) → Bool
  unfolding bounds_may_match exact_min exact_max
  statistics_may_match operator literal none = true
  statistics_may_match operator literal (some (i, s)) =
      bounds_may_match operator (type_at schema i) literal (exact_min s (type_at schema i))
        (exact_max s (type_at schema i))

  unfoldable pub column_literal_may_match : String → Operator → ScalarValue → Bool
  unfolding statistics_may_match column_statistics
  column_literal_may_match name operator literal =
      if is_null_value literal
      then false
      else statistics_may_match operator literal
          (column_statistics name schema parquet_columns row_group)

  -- `match (left.unalias(), right.unalias())`
  unfoldable pub pair_may_match : Expr → Operator → Expr → Bool
  unfolding column_literal_may_match reverse_comparison
  pair_may_match (Expr.column name) operator (Expr.literal value) =
      column_literal_may_match name operator value
  pair_may_match (Expr.literal value) operator (Expr.column name) =
      column_literal_may_match name (reverse_comparison operator) value
  pair_may_match _ operator _ = true

  unfoldable pub comparison_may_match : Expr → Operator → Expr → Bool
  unfolding pair_may_match unalias
  comparison_may_match left operator right = pair_may_match (unalias left) operator (unalias right)

  abbrev pub nulls_may_match : Bool → Option ℕ → Bool
  nulls_may_match negated none = true
  nulls_may_match true (some nulls) = ltb nulls (u64_of row_group.num_rows)
  nulls_may_match false (some nulls) = ltb 0 nulls

  abbrev pub null_statistics_may_match : Bool → Option (ℕ × ColumnStatistics) → Bool
  null_statistics_may_match negated none = true
  null_statistics_may_match negated (some (i, s)) =
      if nullable_at schema i then nulls_may_match negated s.null_count else negated

  -- `IS NULL` of an expression with one alias taken off.
  unfoldable pub null_may_match : Expr → Bool → Bool
  unfolding column_statistics
  null_may_match (Expr.column name) negated =
      null_statistics_may_match negated (column_statistics name schema parquet_columns row_group)
  null_may_match _ negated = true

  abbrev literal_may_match : ScalarValue → Bool
  literal_may_match (ScalarValue.boolean value) = value
  literal_may_match ScalarValue.null = false
  literal_may_match _ = true

  -- `expression.unalias()` takes one alias off if `outer`.
  unfoldable pub may_match : Bool → Expr → Bool
  unfolding comparison_may_match null_may_match unalias
  may_match outer (Expr.literal value) = literal_may_match value
  may_match outer (Expr.binary left Operator.and right) =
      may_match true left && may_match true right
  may_match outer (Expr.binary left Operator.or right) = may_match true left || may_match true right
  may_match outer (Expr.binary left Operator.eq right) = comparison_may_match left Operator.eq right
  may_match outer (Expr.binary left Operator.not_eq right) =
      comparison_may_match left Operator.not_eq right
  may_match outer (Expr.binary left Operator.lt right) = comparison_may_match left Operator.lt right
  may_match outer (Expr.binary left Operator.lt_eq right) =
      comparison_may_match left Operator.lt_eq right
  may_match outer (Expr.binary left Operator.gt right) = comparison_may_match left Operator.gt right
  may_match outer (Expr.binary left Operator.gt_eq right) =
      comparison_may_match left Operator.gt_eq right
  may_match outer (Expr.is_null e negated) = null_may_match (unalias e) negated
  may_match true (Expr.alias e _) = may_match false e
  may_match _ _ = true

  unfoldable pub expression_may_match : Expr → Bool
  unfolding may_match
  expression_may_match expression = may_match true expression

  unfoldable pub row_group_may_match : List Expr → Bool
  unfolding expression_may_match
  row_group_may_match filters = all expression_may_match filters
