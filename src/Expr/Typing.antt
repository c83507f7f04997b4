-- ===== src/Expr/Typing.antt =====
-- src/query/expr.rs: the type of an expression over a schema, and the field that it makes.
use spark_x_distributed_quer.Base.{
  Bool, true, false, not, ◌&&◌, ◌||◌, Option, none, some, is_some, is_yes, if◌then◌else◌,
}
use spark_x_distributed_quer.Error.{planning, Result, ok, err, panic, ok_or, ◌>>=◌}
use spark_x_distributed_quer.Expr.{
  DataType, DataType-discrete, Operator, AggregateFunction, Expr, scalar_type,
}
use spark_x_distributed_quer.Expr.Names.{Formats, name}
use spark_x_distributed_quer.Expr.Schemas.{Field, Schema, new_field, find_field}

unfoldable pub is_numeric : DataType → Bool
is_numeric DataType.int32 = true
is_numeric DataType.int64 = true
is_numeric DataType.uint32 = true
is_numeric DataType.uint64 = true
is_numeric DataType.float32 = true
is_numeric DataType.float64 = true
is_numeric _ = false

unfoldable pub is_boolean_or_null : DataType → Bool
is_boolean_or_null DataType.boolean = true
is_boolean_or_null DataType.null = true
is_boolean_or_null _ = false

unfoldable pub normalized_numeric_type : DataType → Option DataType
normalized_numeric_type DataType.int32 = some DataType.int64
normalized_numeric_type DataType.int64 = some DataType.int64
normalized_numeric_type DataType.uint32 = some DataType.uint64
normalized_numeric_type DataType.uint64 = some DataType.uint64
normalized_numeric_type DataType.float32 = some DataType.float64
normalized_numeric_type DataType.float64 = some DataType.float64
normalized_numeric_type _ = none

abbrev pub type_eq : DataType → DataType → Bool
type_eq a b = is_yes (DataType-discrete a b)

-- The `match` at the end of `common_numeric_type`, for two numeric types.
abbrev pub is_float : DataType → Bool
is_float DataType.float32 = true
is_float DataType.float64 = true
is_float _ = false

abbrev pub is_signed : DataType → Bool
is_signed DataType.int32 = true
is_signed DataType.int64 = true
is_signed _ = false

abbrev pub is_unsigned : DataType → Bool
is_unsigned DataType.uint32 = true
is_unsigned DataType.uint64 = true
is_unsigned _ = false

abbrev pub is_null_type : DataType → Bool
is_null_type DataType.null = true
is_null_type _ = false

unfoldable pub common_numeric_type : DataType → DataType → Option DataType
unfolding is_numeric normalized_numeric_type
common_numeric_type left right =
    if is_null_type left && is_numeric right
    then normalized_numeric_type right
    else if is_null_type right && is_numeric left
    then normalized_numeric_type left
    else if not (is_numeric left) || not (is_numeric right)
    then none
    else if is_float left || is_float right
    then some DataType.float64
    else if is_signed left && is_signed right
    then some DataType.int64
    else if is_unsigned left && is_unsigned right
    then some DataType.uint64
    else none

abbrev comparison_type : DataType → DataType → Result DataType
unfolding common_numeric_type
comparison_type left right =
    if type_eq left right
      || is_null_type left
      || is_null_type right
      || is_some (common_numeric_type left right)
    then ok DataType.boolean
    else err (planning "cannot compare {left_type} and {right_type}")

abbrev logical_type : DataType → DataType → Result DataType
unfolding is_boolean_or_null
logical_type left right =
    if is_boolean_or_null left && is_boolean_or_null right
    then ok DataType.boolean
    else err (planning "{op} requires Boolean operands, got {left_type} and {right_type}")

abbrev arithmetic_type : DataType → DataType → Result DataType
unfolding common_numeric_type
arithmetic_type left right =
    ok_or (common_numeric_type left right)
      (planning "{op} requires numeric operands, got {left_type} and {right_type}")

unfoldable pub binary_type : Operator → DataType → DataType → Result DataType
unfolding comparison_type logical_type arithmetic_type
binary_type Operator.and = logical_type
binary_type Operator.or = logical_type
binary_type Operator.add = arithmetic_type
binary_type Operator.subtract = arithmetic_type
binary_type Operator.multiply = arithmetic_type
binary_type Operator.divide = arithmetic_type
binary_type _ = comparison_type

abbrev unsigned_sum_type : DataType → Result DataType
unsigned_sum_type DataType.uint64 = ok DataType.uint64
unsigned_sum_type _ = err (planning "internal unsigned sum requires UInt64, got {input_type}")

abbrev numeric_sum_type : DataType → Result DataType
unfolding is_numeric
numeric_sum_type input =
    if is_numeric input
    then ok DataType.float64
    else err (planning "{function} requires a numeric argument, got {input_type}")

-- The function and the type of its argument, which `COUNT` does not ask for.
unfoldable pub aggregate_type : AggregateFunction → Result DataType → Result DataType
unfolding numeric_sum_type
aggregate_type AggregateFunction.count input = ok DataType.uint64
aggregate_type AggregateFunction.sum_uint64 input = input >>= unsigned_sum_type
aggregate_type AggregateFunction.sum input = input >>= numeric_sum_type
aggregate_type AggregateFunction.avg input = input >>= numeric_sum_type
aggregate_type AggregateFunction.min input = input
aggregate_type AggregateFunction.max input = input

module _ (schema : Schema) where
  -- `self` with one alias taken off if `outer`: an alias under an alias is `unreachable!()`.
  unfoldable pub type_of : Bool → Expr → Result DataType
  unfolding find_field scalar_type binary_type aggregate_type
  type_of outer (Expr.column n) = do field ← find_field schema n; ok field.data_type
  type_of outer (Expr.literal value) = ok (scalar_type value)
  type_of outer (Expr.binary left op right) = do
    left_type ← type_of true left
    right_type ← type_of true right
    binary_type op left_type right_type
  type_of outer (Expr.is_null _ _) = ok DataType.boolean
  type_of outer (Expr.cast _ data_type) = ok data_type
  type_of outer (Expr.aggregate function e _) = aggregate_type function (type_of true e)
  type_of outer Expr.wildcard = err (planning "wildcard must be expanded before type inference")
  type_of true (Expr.alias e _) = type_of false e
  type_of false (Expr.alias _ _) = panic "internal error: entered unreachable code"

  unfoldable pub data_type : Expr → Result DataType
  unfolding type_of
  data_type e = type_of true e

  module _ (formats : Formats) where
    unfoldable pub field : Expr → Result Field
    unfolding data_type name
    field e = do t ← data_type e; ok (new_field (name formats e) t true)
