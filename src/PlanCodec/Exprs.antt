-- ===== src/PlanCodec/Exprs.antt =====
-- src/cluster/plan_codec.rs: scalars, expressions and sort keys.
use spark_x_distributed_quer.Base.{true, false, some, List, [], ◌∷◌, is_empty}
use spark_x_distributed_quer.Error.{Result, ok, err, reject_if, collect, ◌>>=◌, ◌>>◌}
use spark_x_distributed_quer.Text.{is_blank}
use spark_x_distributed_quer.Expr.{ScalarValue, Expr}
use spark_x_distributed_quer.Expr.Schemas.{Schema}
use spark_x_distributed_quer.Expr.Typing.{data_type}
use spark_x_distributed_quer.Plan.{SortExpr}
use spark_x_distributed_quer.PlanCodec.Wire.{
  WireScalar, WireExpr, BoxedExpr, missing, boxed, WireSortExpr, data_type_code, operator_code,
  function_code,
}
use spark_x_distributed_quer.PlanCodec.Codes.{
  codec_error, required, encode_data_type, decode_data_type, encode_operator, decode_operator,
  encode_aggregate_function, decode_aggregate_function,
}

unfoldable pub encode_scalar : ScalarValue → WireScalar
encode_scalar ScalarValue.null = WireScalar.null true
encode_scalar (ScalarValue.boolean value) = WireScalar.boolean value
encode_scalar (ScalarValue.int64 value) = WireScalar.int64 value
encode_scalar (ScalarValue.uint64 value) = WireScalar.uint64 value
encode_scalar (ScalarValue.float64 value) = WireScalar.float64 value
encode_scalar (ScalarValue.utf8 value) = WireScalar.utf8 value

unfoldable pub decode_scalar : WireScalar → Result ScalarValue
decode_scalar WireScalar.unset = err (codec_error "{name} is missing")
decode_scalar (WireScalar.null true) = ok ScalarValue.null
decode_scalar (WireScalar.null false) = err (codec_error "null scalar marker must be true")
decode_scalar (WireScalar.boolean value) = ok (ScalarValue.boolean value)
decode_scalar (WireScalar.int64 value) = ok (ScalarValue.int64 value)
decode_scalar (WireScalar.uint64 value) = ok (ScalarValue.uint64 value)
decode_scalar (WireScalar.float64 value) = ok (ScalarValue.float64 value)
decode_scalar (WireScalar.utf8 value) = ok (ScalarValue.utf8 value)

unfoldable pub encode_expr : Expr → Result WireExpr
unfolding encode_scalar encode_data_type encode_operator encode_aggregate_function
encode_expr (Expr.column name) = ok (WireExpr.column name)
encode_expr (Expr.literal value) = ok (WireExpr.literal (encode_scalar value))
encode_expr (Expr.binary left op right) = do
  l ← encode_expr left
  r ← encode_expr right
  ok (WireExpr.binary (boxed l) (operator_code (encode_operator op)) (boxed r))
encode_expr (Expr.is_null e negated) = do w ← encode_expr e; ok (WireExpr.is_null (boxed w) negated)
encode_expr (Expr.cast e data_type) = do
  w ← encode_expr e
  t ← encode_data_type data_type
  ok (WireExpr.cast (boxed w) (data_type_code t))
encode_expr (Expr.alias e name) = do w ← encode_expr e; ok (WireExpr.alias (boxed w) name)
encode_expr (Expr.aggregate function e distinct) = do
  w ← encode_expr e
  ok (WireExpr.aggregate (function_code (encode_aggregate_function function)) (boxed w) distinct)
encode_expr Expr.wildcard = ok (WireExpr.wildcard true)

unfoldable mutual
  unfolding decode_scalar decode_data_type decode_operator decode_aggregate_function is_blank

  pub decode_expr : WireExpr → Result Expr
  decode_expr WireExpr.unset = err (codec_error "{name} is missing")
  decode_expr (WireExpr.column name) = do
    reject_if (is_blank name) (codec_error "column name must not be empty")
    ok (Expr.column name)
  decode_expr (WireExpr.literal value) = do v ← decode_scalar value; ok (Expr.literal v)
  decode_expr (WireExpr.binary left operator right) = do
    l ← decode_boxed left
    op ← decode_operator operator
    r ← decode_boxed right
    ok (Expr.binary l op r)
  decode_expr (WireExpr.is_null e negated) = do d ← decode_boxed e; ok (Expr.is_null d negated)
  decode_expr (WireExpr.cast e code) = do
    d ← decode_boxed e
    t ← decode_data_type code
    ok (Expr.cast d t)
  decode_expr (WireExpr.alias e name) = do
    reject_if (is_blank name) (codec_error "expression alias must not be empty")
    d ← decode_boxed e
    ok (Expr.alias d name)
  decode_expr (WireExpr.aggregate code e distinct) = do
    function ← decode_aggregate_function code
    d ← decode_boxed e
    ok (Expr.aggregate function d distinct)
  decode_expr (WireExpr.wildcard true) = ok Expr.wildcard
  decode_expr (WireExpr.wildcard false) = err (codec_error "wildcard marker must be true")

  -- `decode_expr(required_box(expr, name)?)`
  pub decode_boxed : BoxedExpr → Result Expr
  decode_boxed missing = err (codec_error "{name} is missing")
  decode_boxed (boxed e) = decode_expr e

unfoldable pub encode_exprs : List Expr → Result (List WireExpr)
unfolding encode_expr collect
encode_exprs exprs = collect encode_expr exprs

unfoldable pub decode_exprs : List WireExpr → Result (List Expr)
unfolding decode_expr collect
decode_exprs exprs = collect decode_expr exprs

unfoldable pub validate_wire_exprs : List WireExpr → Result (Unit {0})
unfolding decode_expr
validate_wire_exprs [] = ok tt
validate_wire_exprs (e ∷ es) = do _ ← decode_expr e; validate_wire_exprs es

unfoldable pub encode_sort_expr : SortExpr → Result WireSortExpr
unfolding encode_expr
encode_sort_expr sort = do
  w ← encode_expr sort.expr
  ok (record { expr = some w; ascending = sort.ascending; nulls_first = sort.nulls_first })

unfoldable pub encode_sort_exprs : List SortExpr → Result (List WireSortExpr)
unfolding encode_sort_expr collect
encode_sort_exprs exprs = collect encode_sort_expr exprs

unfoldable pub decode_sort_expr : Schema → WireSortExpr → Result SortExpr
unfolding decode_expr data_type
decode_sort_expr schema sort = do
  wire ← required sort.expr
  e ← decode_expr wire
  _ ← data_type schema e
  ok (record { expr = e; ascending = sort.ascending; nulls_first = sort.nulls_first })

unfoldable pub decode_sort_exprs : List WireSortExpr → Schema → Result (List SortExpr)
unfolding decode_sort_expr collect
decode_sort_exprs exprs schema = do
  decoded ← collect (decode_sort_expr schema) exprs
  reject_if (is_empty decoded) (codec_error "sort operator requires at least one expression")
  ok decoded

unfoldable pub validate_each_sort : List WireSortExpr → Result (Unit {0})
unfolding decode_expr
validate_each_sort [] = ok tt
validate_each_sort (sort ∷ sorts) = do
  wire ← required sort.expr
  _ ← decode_expr wire
  validate_each_sort sorts

unfoldable pub validate_wire_sort_exprs : List WireSortExpr → Result (Unit {0})
unfolding validate_each_sort
validate_wire_sort_exprs exprs = do
  reject_if (is_empty exprs) (codec_error "sort operator requires at least one expression")
  validate_each_sort exprs
