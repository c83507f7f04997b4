-- ===== src/Scenarios/Filters.antt =====
-- A batch of one column of ages, filters on it, and the statistics of the row group that it was read from.
use spark_x_distributed_quer.Base.{
  ℕ, zero, suc, pos, true, false, String-discrete, some, List, [], ◌∷◌, ◌≡◌, ◌≢◌, refl, str_ord,
}
use spark_x_distributed_quer.Error.{ok}
use spark_x_distributed_quer.Expr.{DataType, DataType-discrete, ScalarValue, Operator, Expr}
use spark_x_distributed_quer.Expr.Schemas.{Schema, new_schema, new_field}
use spark_x_distributed_quer.Expr.Typing.{data_type}
use spark_x_distributed_quer.Expr.Evaluate.{Batch, evaluate}
use spark_x_distributed_quer.Expr.Kernels.{ok_eq}
use spark_x_distributed_quer.Expr.Sound.{IsBatch, evaluate-data_type}
use spark_x_distributed_quer.Expr.Narrow.{narrow_arithmetic_is_mistyped}
use spark_x_distributed_quer.Pruning.{Statistics, ColumnStatistics, RowGroup}
use spark_x_distributed_quer.Pruning.Described.{Described}
use spark_x_distributed_quer.Scenarios.Arrays.{Column, columns, add_values, columns-TypeLaws, read}

abbrev ages : ℕ → ScalarValue
ages zero = ScalarValue.uint64 20
ages (suc zero) = ScalarValue.null
ages _ = ScalarValue.uint64 40

abbrev schema_of : DataType → Schema
schema_of t = new_schema (new_field "age" t true ∷ [])

abbrev batch_of : DataType → Batch columns
batch_of t = record { schema = schema_of t; columns = (t, ages) ∷ []; num_rows = 3 }

abbrev adults : Expr
adults = Expr.binary (Expr.column "age") Operator.gt_eq (Expr.literal (ScalarValue.uint64 18))

abbrev doubled : Expr
doubled = Expr.binary (Expr.column "age") Operator.add (Expr.column "age")

batch_of-IsBatch : (t : DataType) → IsBatch columns (batch_of t)
batch_of-IsBatch t zero f a ef ea = cc
batch_of-IsBatch t (suc i) f a ef ea = cc

abbrev sums : DataType → Column
sums t = (t, λ i. add_values (read (t, ages) i) (read (t, ages) i))

evaluate-data_type_example : (sums DataType.uint64).0 ≡ DataType.uint64
unfolding evaluate data_type DataType-discrete String-discrete
evaluate-data_type_example =
    evaluate-data_type columns columns-TypeLaws (batch_of DataType.uint64)
      (batch_of-IsBatch DataType.uint64) doubled DataType.uint64 (sums DataType.uint64)
      (tt, tt, λ t a el er. rw (← ok_eq el) refl) refl refl

narrow_arithmetic_is_mistyped_example :
    (w : DataType) × (data_type (schema_of DataType.uint32) doubled ≡ ok w)
    × ((sums DataType.uint32).0 ≢ w)
unfolding evaluate data_type DataType-discrete String-discrete
narrow_arithmetic_is_mistyped_example =
    narrow_arithmetic_is_mistyped columns columns-TypeLaws (batch_of DataType.uint32) Operator.add
      (Expr.column "age") (Expr.column "age") DataType.uint32 (DataType.uint32, ages)
      (DataType.uint32, ages) (sums DataType.uint32) refl refl refl refl refl refl refl refl refl

-- The row group, with the statistics of signed numbers.
abbrev years : ℕ → ScalarValue
years zero = ScalarValue.int64 (pos 20)
years (suc zero) = ScalarValue.null
years _ = ScalarValue.int64 (pos 40)

abbrev people : Batch columns
people = record {
  schema = schema_of DataType.int64;
  columns = (DataType.int64, years) ∷ [];
  num_rows = 3;
}

abbrev age_statistics : ColumnStatistics
age_statistics = record {
  values = Statistics.int64 (some (pos 20)) (some (pos 40));
  null_count = some 1;
  min_is_exact = true;
  max_is_exact = true;
  min_max_deprecated = false;
  min_max_backwards_compatible = true;
}

abbrev group : RowGroup
group = record { num_rows = pos 3; columns = some age_statistics ∷ [] }

abbrev filters : List Expr
filters =
    Expr.binary (Expr.literal (ScalarValue.int64 (pos 30))) Operator.lt (Expr.column "age")
    ∷ Expr.is_null (Expr.column "t.age") true
    ∷ []
