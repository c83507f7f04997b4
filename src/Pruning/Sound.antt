-- ===== src/Pruning/Sound.antt =====
-- src/storage/pruning.rs against src/query/expr.rs: a row group that holds a row which passes the filters
-- is kept.
use spark_x_distributed_quer.Base.{ℕ, ◌<◌, Bool, true, false, Option, List, ◌≡◌}
use spark_x_distributed_quer.Error.Ensures.{Ensures}
use spark_x_distributed_quer.Expr.{ScalarValue, Operator, Expr, partial_compare}
use spark_x_distributed_quer.Expr.Schemas.{Schema}
use spark_x_distributed_quer.Expr.Evaluate.{Arrow, Batch}
use spark_x_distributed_quer.Expr.Kernels.{TypeLaws}
use spark_x_distributed_quer.Pruning.{RowGroup, is_null_value, may_match}
use spark_x_distributed_quer.Pruning.Bounds.{Admitted}
use spark_x_distributed_quer.Pruning.Rows.{RowLaws, IsOrdinary}
use spark_x_distributed_quer.Pruning.Described.{IsDescribed}

-- No literal is NaN or the negative zero.
abbrev pub IsPlain : Expr → Type 0
IsPlain (Expr.literal v) = IsOrdinary v
IsPlain (Expr.binary l op r) = IsPlain l × IsPlain r
IsPlain (Expr.alias e _) = IsPlain e
IsPlain _ = Unit

-- The comparison's operands, without the premise that it is one.
abbrev Compared : Type 0 → Type 0 → Operator → ScalarValue → ScalarValue → Type 0
Compared L R op v w =
    L
    → R
    → (is_null_value v ≡ false) × (is_null_value w ≡ false) × Admitted op (partial_compare v w)

module _ (schema : Schema) (parquet_columns : List (Option ℕ)) (row_group : RowGroup) where
  module _ (arrow : Arrow) (types : TypeLaws arrow) (rows : RowLaws arrow) (batch : Batch arrow)
      (i : ℕ) (within : i < batch.num_rows) where
    open rows use {value}

    module _ (described : IsDescribed schema parquet_columns row_group rows batch i) where
      Says : Bool → Expr → arrow.Array → Type 0
      Says outer e a =
          value a i ≡ ScalarValue.boolean true
          → may_match schema parquet_columns row_group outer e ≡ true
