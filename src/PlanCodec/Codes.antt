-- ===== src/PlanCodec/Codes.antt =====
-- src/cluster/plan_codec.rs: the codes of enumerations, optional parts, scalars and expressions.
use Prim.Native.String.{◌++◌}
use spark_x_distributed_quer.Base.{ℕ, ℤ, String, Option, leb, u32_max, u64_max, if◌then◌else◌}
use spark_x_distributed_quer.Error.{SparkXError, protocol, Result, ok, err, ok_or, ◌>>=◌}
use spark_x_distributed_quer.Expr.{DataType, Operator, AggregateFunction}
use spark_x_distributed_quer.Plan.{JoinType}
use spark_x_distributed_quer.PlanCodec.Wire.{
  WireDataType, WireOperator, WireAggregateFunction, WireJoinType, try_from, data_type_values,
  operator_values, function_values, join_values,
}

abbrev pub codec_error : String → SparkXError
codec_error message = protocol ("invalid physical plan fragment: " ++ message)

-- `required` and `required_ref`
abbrev pub required {ℓ} : {A : Type ℓ} → Option A → Result A
required value = ok_or value (codec_error "{name} is missing")

-- A `usize` has 64 bits.
unfoldable pub checked_u32 : ℕ → Result ℕ
checked_u32 value =
    if leb value u32_max then ok value else err (codec_error "{name} {value} exceeds u32")

unfoldable pub checked_u64 : ℕ → Result ℕ
checked_u64 value =
    if leb value u64_max then ok value else err (codec_error "{name} {value} exceeds u64")

unfoldable pub checked_usize : ℕ → Result ℕ
checked_usize value =
    if leb value u64_max then ok value else err (codec_error "{name} {value} exceeds usize")

unfoldable pub encode_data_type : DataType → Result WireDataType
encode_data_type DataType.null = ok WireDataType.null
encode_data_type DataType.boolean = ok WireDataType.boolean
encode_data_type DataType.int32 = ok WireDataType.int32
encode_data_type DataType.int64 = ok WireDataType.int64
encode_data_type DataType.uint32 = ok WireDataType.uint32
encode_data_type DataType.uint64 = ok WireDataType.uint64
encode_data_type DataType.float32 = ok WireDataType.float32
encode_data_type DataType.float64 = ok WireDataType.float64
encode_data_type DataType.utf8 = ok WireDataType.utf8
encode_data_type (DataType.other _) =
    err (codec_error "Arrow data type {other} is not supported by plan codec version")

abbrev pub data_type_of : WireDataType → DataType
data_type_of WireDataType.null = DataType.null
data_type_of WireDataType.boolean = DataType.boolean
data_type_of WireDataType.int32 = DataType.int32
data_type_of WireDataType.int64 = DataType.int64
data_type_of WireDataType.uint32 = DataType.uint32
data_type_of WireDataType.uint64 = DataType.uint64
data_type_of WireDataType.float32 = DataType.float32
data_type_of WireDataType.float64 = DataType.float64
data_type_of WireDataType.utf8 = DataType.utf8

unfoldable pub decode_data_type : ℤ → Result DataType
decode_data_type code = do
  wire ← ok_or (try_from data_type_values code) (codec_error "unknown Arrow data-type code {value}")
  ok (data_type_of wire)

unfoldable pub encode_operator : Operator → WireOperator
encode_operator Operator.eq = WireOperator.eq
encode_operator Operator.not_eq = WireOperator.not_eq
encode_operator Operator.lt = WireOperator.lt
encode_operator Operator.lt_eq = WireOperator.lt_eq
encode_operator Operator.gt = WireOperator.gt
encode_operator Operator.gt_eq = WireOperator.gt_eq
encode_operator Operator.and = WireOperator.and
encode_operator Operator.or = WireOperator.or
encode_operator Operator.add = WireOperator.add
encode_operator Operator.subtract = WireOperator.subtract
encode_operator Operator.multiply = WireOperator.multiply
encode_operator Operator.divide = WireOperator.divide

abbrev pub operator_of : WireOperator → Operator
operator_of WireOperator.eq = Operator.eq
operator_of WireOperator.not_eq = Operator.not_eq
operator_of WireOperator.lt = Operator.lt
operator_of WireOperator.lt_eq = Operator.lt_eq
operator_of WireOperator.gt = Operator.gt
operator_of WireOperator.gt_eq = Operator.gt_eq
operator_of WireOperator.and = Operator.and
operator_of WireOperator.or = Operator.or
operator_of WireOperator.add = Operator.add
operator_of WireOperator.subtract = Operator.subtract
operator_of WireOperator.multiply = Operator.multiply
operator_of WireOperator.divide = Operator.divide

unfoldable pub decode_operator : ℤ → Result Operator
decode_operator code = do
  wire ←
      ok_or (try_from operator_values code) (codec_error "unknown expression operator code {value}")
  ok (operator_of wire)

unfoldable pub encode_aggregate_function : AggregateFunction → WireAggregateFunction
encode_aggregate_function AggregateFunction.count = WireAggregateFunction.count
encode_aggregate_function AggregateFunction.sum = WireAggregateFunction.sum
encode_aggregate_function AggregateFunction.sum_uint64 = WireAggregateFunction.sum_uint64
encode_aggregate_function AggregateFunction.min = WireAggregateFunction.min
encode_aggregate_function AggregateFunction.max = WireAggregateFunction.max
encode_aggregate_function AggregateFunction.avg = WireAggregateFunction.avg

abbrev pub function_of : WireAggregateFunction → AggregateFunction
function_of WireAggregateFunction.count = AggregateFunction.count
function_of WireAggregateFunction.sum = AggregateFunction.sum
function_of WireAggregateFunction.sum_uint64 = AggregateFunction.sum_uint64
function_of WireAggregateFunction.min = AggregateFunction.min
function_of WireAggregateFunction.max = AggregateFunction.max
function_of WireAggregateFunction.avg = AggregateFunction.avg

unfoldable pub decode_aggregate_function : ℤ → Result AggregateFunction
decode_aggregate_function code = do
  wire ←
      ok_or (try_from function_values code) (codec_error "unknown aggregate function code {value}")
  ok (function_of wire)

unfoldable pub encode_join_type : JoinType → WireJoinType
encode_join_type JoinType.inner = WireJoinType.inner
encode_join_type JoinType.left = WireJoinType.left

abbrev pub join_type_of : WireJoinType → JoinType
join_type_of WireJoinType.inner = JoinType.inner
join_type_of WireJoinType.left = JoinType.left

unfoldable pub decode_join_type : ℤ → Result JoinType
decode_join_type code = do
  wire ← ok_or (try_from join_values code) (codec_error "unknown join type code {value}")
  ok (join_type_of wire)
