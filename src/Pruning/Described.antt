-- ===== src/Pruning/Described.antt =====
-- src/storage/pruning.rs: the statistics of a row group as a description of the values in its columns.
use spark_x_distributed_quer.Base.{
  String, ℕ, Bool, true, false, not, Option, none, some, List, ◌≡◌, refl, inl, inr, arith,
  Bool-cases, ltb, ◌⊎◌, ◌&&◌, &&_true,
}
use mathlib.Core.Option
use spark_x_distributed_quer.Error.{ok}
use spark_x_distributed_quer.Expr.{DataType, ScalarValue, Expr}
use spark_x_distributed_quer.Expr.Schemas.{Schema}
use spark_x_distributed_quer.Expr.Evaluate.{Arrow, Batch, evaluate}
use spark_x_distributed_quer.Pruning.{
  Statistics, ColumnStatistics, RowGroup, column_statistics, f64_from, flatten, statistic_min,
  statistic_max, ordered, exact_min, exact_max, nullable_at, u64_of, is_null_value,
  null_statistics_may_match, nulls_may_match,
}
use spark_x_distributed_quer.Pruning.Bounds.{AtLeast, AtMost}
use spark_x_distributed_quer.Pruning.Rows.{RowLaws, IsOrdinaryAt}

-- The least and the greatest value that a file stores for a column, each as a scalar.
abbrev pub stored_min : Statistics → Option ScalarValue
stored_min (Statistics.boolean lo _) = Option.map ScalarValue.boolean lo
stored_min (Statistics.int32 lo _) = Option.map ScalarValue.int64 lo
stored_min (Statistics.int64 lo _) = Option.map ScalarValue.int64 lo
stored_min (Statistics.float lo _) = Option.map (λ b. ScalarValue.float64 (f64_from b)) lo
stored_min (Statistics.double lo _) = Option.map ScalarValue.float64 lo
stored_min (Statistics.byte_array lo _) = Option.map ScalarValue.utf8 (flatten lo)
stored_min Statistics.other = none

abbrev pub stored_max : Statistics → Option ScalarValue
stored_max (Statistics.boolean _ hi) = Option.map ScalarValue.boolean hi
stored_max (Statistics.int32 _ hi) = Option.map ScalarValue.int64 hi
stored_max (Statistics.int64 _ hi) = Option.map ScalarValue.int64 hi
stored_max (Statistics.float _ hi) = Option.map (λ b. ScalarValue.float64 (f64_from b)) hi
stored_max (Statistics.double _ hi) = Option.map ScalarValue.float64 hi
stored_max (Statistics.byte_array _ hi) = Option.map ScalarValue.utf8 (flatten hi)
stored_max Statistics.other = none

-- What a file says of the order of its statistics: those of the deprecated fields may be of another
-- order, unless they are marked as compatible.
abbrev pub IsOrdered : ColumnStatistics → Type 0
IsOrdered s = (s.min_max_deprecated ≡ false) ⊎ (s.min_max_backwards_compatible ≡ true)

statistic_min-stored :
    (values : Statistics) (t : DataType)
    → (statistic_min values t ≡ none) ⊎ (statistic_min values t ≡ stored_min values)
unfolding statistic_min
statistic_min-stored (Statistics.boolean _ _) DataType.boolean = inr refl
statistic_min-stored (Statistics.int32 _ _) DataType.int32 = inr refl
statistic_min-stored (Statistics.int64 _ _) DataType.int64 = inr refl
statistic_min-stored (Statistics.float _ _) DataType.float32 = inr refl
statistic_min-stored (Statistics.double _ _) DataType.float64 = inr refl
statistic_min-stored (Statistics.byte_array _ _) DataType.utf8 = inr refl
statistic_min-stored _ _ = inl refl

statistic_max-stored :
    (values : Statistics) (t : DataType)
    → (statistic_max values t ≡ none) ⊎ (statistic_max values t ≡ stored_max values)
unfolding statistic_max
statistic_max-stored (Statistics.boolean _ _) DataType.boolean = inr refl
statistic_max-stored (Statistics.int32 _ _) DataType.int32 = inr refl
statistic_max-stored (Statistics.int64 _ _) DataType.int64 = inr refl
statistic_max-stored (Statistics.float _ _) DataType.float32 = inr refl
statistic_max-stored (Statistics.double _ _) DataType.float64 = inr refl
statistic_max-stored (Statistics.byte_array _ _) DataType.utf8 = inr refl
statistic_max-stored _ _ = inl refl

is_ordered : (s : ColumnStatistics) → ordered s ≡ true → IsOrdered s
is_ordered s h = elim (Bool-cases s.min_max_deprecated) [
  | inl old ↦ inr (ground (arith, h, old))
  | inr current ↦ inl current
]

-- A bound that is relied on is one that is stored, exact and in the right order.
pub exact_min-AtLeast :
    (s : ColumnStatistics) (t : DataType) (v : ScalarValue)
    → (IsOrdered s → s.min_is_exact ≡ true → AtLeast (stored_min s.values) v)
    → AtLeast (exact_min s t) v
unfolding exact_min
exact_min-AtLeast s t v h = elim (Bool-cases (ordered s && s.min_is_exact)) [
  | inr out ↦ rw out tt
  | inl relied ↦
      let (o, exact) = &&_true (ordered s) s.min_is_exact relied in
      rw relied (elim (statistic_min-stored s.values t) [
        | inl nothing ↦ rw nothing tt
        | inr stored ↦ rw stored (h (is_ordered s o) exact)
      ])
]

pub exact_max-AtMost :
    (s : ColumnStatistics) (t : DataType) (v : ScalarValue)
    → (IsOrdered s → s.max_is_exact ≡ true → AtMost (stored_max s.values) v)
    → AtMost (exact_max s t) v
unfolding exact_max
exact_max-AtMost s t v h = elim (Bool-cases (ordered s && s.max_is_exact)) [
  | inr out ↦ rw out tt
  | inl relied ↦
      let (o, exact) = &&_true (ordered s) s.max_is_exact relied in
      rw relied (elim (statistic_max-stored s.values t) [
        | inl nothing ↦ rw nothing tt
        | inr stored ↦ rw stored (h (is_ordered s o) exact)
      ])
]

module _ (schema : Schema) (parquet_columns : List (Option ℕ)) (row_group : RowGroup) where
  -- A value of a column with these statistics: where a stored bound is exact and in the right order, the
  -- value is within it, and the nulls are counted.
  pub record Described (i : ℕ) (s : ColumnStatistics) (v : ScalarValue) : Type 0 where
    pub at_least :
        is_null_value v ≡ false
        → IsOrdered s
        → s.min_is_exact ≡ true
        → AtLeast (stored_min s.values) v
    pub at_most :
        is_null_value v ≡ false
        → IsOrdered s
        → s.max_is_exact ≡ true
        → AtMost (stored_max s.values) v
    pub never_null : nullable_at schema i ≡ false → is_null_value v ≡ false
    pub some_null : (k : ℕ) → s.null_count ≡ some k → is_null_value v ≡ true → ltb 0 k ≡ true
    pub some_value :
        (k : ℕ)
        → s.null_count ≡ some k
        → is_null_value v ≡ false
        → ltb k (u64_of row_group.num_rows) ≡ true

  pub null_statistics-Described :
      (negated : Bool) (i : ℕ) (s : ColumnStatistics) (v : ScalarValue)
      → Described i s v
      → is_null_value v ≡ not negated
      → null_statistics_may_match schema parquet_columns row_group negated (some (i, s)) ≡ true
  null_statistics-Described negated i s v d e = elim (Bool-cases (nullable_at schema i)) [
    | inr k ↦ rw k (ground (arith, d.never_null k))
    | inl k ↦ rw k (counted negated s.null_count refl e)
  ]
    where
      counted :
          (negated : Bool) (nulls : Option ℕ)
          → s.null_count ≡ nulls
          → is_null_value v ≡ not negated
          → nulls_may_match schema parquet_columns row_group negated nulls ≡ true
      counted negated none h e = refl
      counted true (some k) h e = d.some_value k h e
      counted false (some k) h e = d.some_null k h e

  module _ {arrow : Arrow} (rows : RowLaws arrow) (batch : Batch arrow) (i : ℕ) where
    open rows use {value}

    -- The statistics found for a column's name are of the column that the name evaluates to, a column of a
    -- known type without NaN or the negative zero in this row.
    pub record IsDescribed : Type 0 where
      pub ordinary :
          (name : String) (a : arrow.Array)
          → evaluate arrow (Expr.column name) batch ≡ ok a
          → IsOrdinaryAt rows i a
      pub statistics :
          (name : String) (index : ℕ) (s : ColumnStatistics) (a : arrow.Array)
          → column_statistics name schema parquet_columns row_group ≡ some (index, s)
          → evaluate arrow (Expr.column name) batch ≡ ok a
          → Described index s (value a i)
