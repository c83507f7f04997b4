-- ===== src/Expr/Evaluate.antt =====
-- src/query/expr.rs: the evaluation of an expression over a batch. Arrow's arrays and kernels are an
-- argument: `filled` makes the arrays of `scalar_array`, and `null_booleans` an array of unknown truth
-- values.
use spark_x_distributed_quer.Base.{
  ℕ, Bool, true, false, ◌&&◌, Option, some, List, get_elem?, if◌then◌else◌,
}
use spark_x_distributed_quer.Error.{
  SparkXError, execution, Result, ok, err, panic, ok_or, expect, ◌>>=◌,
}
use spark_x_distributed_quer.Expr.{DataType, ScalarValue, Operator, Expr}
use spark_x_distributed_quer.Expr.Schemas.{Schema, find_column}
use spark_x_distributed_quer.Expr.Typing.{type_eq, is_null_type, common_numeric_type}

pub record Arrow : Type 1 where
  pub Array : Type 0
  pub array_type : Array → DataType
  pub filled : ScalarValue → ℕ → Array
  pub null_booleans : ℕ → Array
  pub cast : Array → DataType → Result Array
  pub compare : Operator → Array → Array → Result Array
  pub and_kleene : Array → Array → Result Array
  pub or_kleene : Array → Array → Result Array
  pub arithmetic : Operator → Array → Array → Result Array
  pub is_null : Array → Result Array
  pub is_not_null : Array → Result Array

abbrev pub is_arithmetic : Operator → Bool
is_arithmetic Operator.add = true
is_arithmetic Operator.subtract = true
is_arithmetic Operator.multiply = true
is_arithmetic Operator.divide = true
is_arithmetic _ = false

-- The type to which operands of different types are cast.
unfoldable pub target_type : Operator → DataType → DataType → Option DataType
unfolding common_numeric_type
target_type op left right =
    if is_arithmetic op
    then common_numeric_type left right
    else if is_null_type left
    then some right
    else if is_null_type right
    then some left
    else common_numeric_type left right

abbrev pub truth_expected : SparkXError
truth_expected = execution "boolean expression expected"

module _ (arrow : Arrow) where
  open arrow use {
    Array, array_type, filled, null_booleans, cast, compare, and_kleene, or_kleene, arithmetic,
    is_null, is_not_null,
  }

  -- A `RecordBatch`.
  pub record Batch : Type 0 where
    pub schema : Schema
    pub columns : List Array
    pub num_rows : ℕ

  unfoldable pub as_boolean : Array → Result Array
  as_boolean array =
      if type_eq (array_type array) DataType.boolean then ok array else err truth_expected

  unfoldable pub coerce : Operator → Array → Array → Result (Array × Array)
  unfolding target_type
  coerce op left right =
      if type_eq (array_type left) (array_type right) then ok (left, right) else do
        target ←
            ok_or (target_type op (array_type left) (array_type right))
              (execution "cannot apply {op} to {} and {}")
        l ← cast left target
        r ← cast right target
        ok (l, r)

  unfoldable pub apply : Operator → Array → Array → Result Array
  unfolding as_boolean
  apply Operator.and left right = do l ← as_boolean left; r ← as_boolean right; and_kleene l r
  apply Operator.or left right = do l ← as_boolean left; r ← as_boolean right; or_kleene l r
  apply Operator.add left right = arithmetic Operator.add left right
  apply Operator.subtract left right = arithmetic Operator.subtract left right
  apply Operator.multiply left right = arithmetic Operator.multiply left right
  apply Operator.divide left right = arithmetic Operator.divide left right
  apply op left right = compare op left right

  -- An operator on two arrays, the first test being for two arrays of nulls.
  unfoldable pub evaluate_binary : ℕ → Operator → Array → Array → Result Array
  unfolding coerce apply
  evaluate_binary num_rows op left right =
      if is_null_type (array_type left) && is_null_type (array_type right)
      then (if is_arithmetic op
          then err (execution "cannot infer the type of arithmetic on NULL values")
          else ok (null_booleans num_rows))
      else do (l, r) ← coerce op left right; apply op l r

  -- One alias is taken off if `outer`: an alias under an alias is `unreachable!()`.
  unfoldable pub evaluate_at : Bool → Expr → Batch → Result Array
  unfolding find_column evaluate_binary
  evaluate_at outer (Expr.column name) batch = do
    index ← find_column batch.schema name
    expect (get_elem? batch.columns index) "index out of bounds"
  evaluate_at outer (Expr.literal value) batch = ok (filled value batch.num_rows)
  evaluate_at outer (Expr.binary left op right) batch = do
    l ← evaluate_at true left batch
    r ← evaluate_at true right batch
    evaluate_binary batch.num_rows op l r
  evaluate_at outer (Expr.cast e data_type) batch = do
    a ← evaluate_at true e batch
    cast a data_type
  evaluate_at outer (Expr.is_null e negated) batch = do
    a ← evaluate_at true e batch
    if negated then is_not_null a else is_null a
  evaluate_at outer (Expr.aggregate _ _ _) batch =
      err (execution "aggregate expression cannot be evaluated row-wise")
  evaluate_at outer Expr.wildcard batch =
      err (execution "wildcard must be expanded before execution")
  evaluate_at true (Expr.alias e _) batch = evaluate_at false e batch
  evaluate_at false (Expr.alias _ _) batch = panic "internal error: entered unreachable code"

  unfoldable pub evaluate : Expr → Batch → Result Array
  unfolding evaluate_at
  evaluate e batch = evaluate_at true e batch
