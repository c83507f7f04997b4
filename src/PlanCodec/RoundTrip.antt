-- ===== src/PlanCodec/RoundTrip.antt =====
-- src/cluster/plan_codec.rs: what is encoded decodes to itself. This file has the expressions.
pub mod Schemas
pub mod Plans
use spark_x_distributed_quer.Base.{
  ◌≡◌, refl, ap, String, Bool, true, false, Option, some, List, [], ◌∷◌, ◌≢◌, All, is_empty,
}
use spark_x_distributed_quer.Error.{Result, ok, reject_if, collect, ◌>>=◌, ◌>>◌}
use spark_x_distributed_quer.Error.Ensures.{
  Ensures, Ensures-ok, Ensures-err, Ensures->>=, Ensures-bind, Ensures-collect, Ensures-imp,
}
use spark_x_distributed_quer.Text.{is_blank}
use spark_x_distributed_quer.Expr.{DataType, ScalarValue, Operator, AggregateFunction, Expr}
use spark_x_distributed_quer.Expr.Schemas.{Schema}
use spark_x_distributed_quer.Expr.Typing.{data_type}
use spark_x_distributed_quer.Plan.{JoinType, SortExpr}
use spark_x_distributed_quer.PlanCodec.Wire.{
  WireExpr, boxed, WireSortExpr, WireDataType, data_type_code, operator_code, function_code,
  join_code,
}
use spark_x_distributed_quer.PlanCodec.Codes.{
  encode_data_type, decode_data_type, encode_operator, decode_operator, encode_aggregate_function,
  decode_aggregate_function, encode_join_type, decode_join_type,
}
use spark_x_distributed_quer.PlanCodec.Exprs.{
  encode_scalar, decode_scalar, encode_expr, decode_expr, encode_exprs, decode_exprs,
  encode_sort_expr, encode_sort_exprs, decode_sort_expr, decode_sort_exprs,
}

pub decode-encode_data_type :
    (t : DataType) → Ensures (λ w. decode_data_type (data_type_code w) ≡ ok t) (encode_data_type t)
unfolding encode_data_type decode_data_type
decode-encode_data_type DataType.null = Ensures-ok _ _ refl
decode-encode_data_type DataType.boolean = Ensures-ok _ _ refl
decode-encode_data_type DataType.int32 = Ensures-ok _ _ refl
decode-encode_data_type DataType.int64 = Ensures-ok _ _ refl
decode-encode_data_type DataType.uint32 = Ensures-ok _ _ refl
decode-encode_data_type DataType.uint64 = Ensures-ok _ _ refl
decode-encode_data_type DataType.float32 = Ensures-ok _ _ refl
decode-encode_data_type DataType.float64 = Ensures-ok _ _ refl
decode-encode_data_type DataType.utf8 = Ensures-ok _ _ refl
decode-encode_data_type (DataType.other _) = Ensures-err _ _

pub decode-encode_operator :
    (op : Operator) → decode_operator (operator_code (encode_operator op)) ≡ ok op
unfolding encode_operator decode_operator
decode-encode_operator Operator.eq = refl
decode-encode_operator _ = refl

pub decode-encode_function :
    (f : AggregateFunction)
    → decode_aggregate_function (function_code (encode_aggregate_function f)) ≡ ok f
unfolding encode_aggregate_function decode_aggregate_function
decode-encode_function AggregateFunction.count = refl
decode-encode_function _ = refl

pub decode-encode_join_type :
    (j : JoinType) → decode_join_type (join_code (encode_join_type j)) ≡ ok j
unfolding encode_join_type decode_join_type
decode-encode_join_type JoinType.inner = refl
decode-encode_join_type JoinType.left = refl

decode-encode_scalar : (v : ScalarValue) → decode_scalar (encode_scalar v) ≡ ok v
unfolding encode_scalar decode_scalar
decode-encode_scalar ScalarValue.null = refl
decode-encode_scalar _ = refl

-- No column and no alias has a blank name.
abbrev pub IsNamed : Expr → Type 0
IsNamed (Expr.column name) = is_blank name ≡ false
IsNamed (Expr.literal _) = Unit
IsNamed (Expr.binary left _ right) = IsNamed left × IsNamed right
IsNamed (Expr.is_null e _) = IsNamed e
IsNamed (Expr.cast e _) = IsNamed e
IsNamed (Expr.alias e name) = (is_blank name ≡ false) × IsNamed e
IsNamed (Expr.aggregate _ e _) = IsNamed e
IsNamed Expr.wildcard = Unit

abbrev DecodesTo : Expr → WireExpr → Type 0
DecodesTo e w = decode_expr w ≡ ok e

pub decode-encode_expr :
    (e : Expr) → IsNamed e → Ensures (λ w. decode_expr w ≡ ok e) (encode_expr e)
unfolding encode_expr decode_expr
decode-encode_expr (Expr.column name) h = Ensures-ok _ _ (rw h)
decode-encode_expr (Expr.literal v) h =
    Ensures-ok (DecodesTo (Expr.literal v)) _ (rw (decode-encode_scalar v))
decode-encode_expr (Expr.binary left op right) h =
    Ensures->>= (DecodesTo (Expr.binary left op right)) (encode_expr left) _
      (decode-encode_expr left h.0)
      (λ l p.
        Ensures->>= (DecodesTo (Expr.binary left op right)) (encode_expr right) _
          (decode-encode_expr right h.1)
          (λ r q.
            Ensures-ok (DecodesTo (Expr.binary left op right)) _
              (rw (p, decode-encode_operator op, q))))
decode-encode_expr (Expr.is_null e negated) h =
    Ensures->>= (DecodesTo (Expr.is_null e negated)) (encode_expr e) _ (decode-encode_expr e h)
      (λ w p. Ensures-ok (DecodesTo (Expr.is_null e negated)) _ (rw p))
decode-encode_expr (Expr.cast e t) h =
    Ensures->>= (DecodesTo (Expr.cast e t)) (encode_expr e) _ (decode-encode_expr e h) (λ w p.
      Ensures->>= (DecodesTo (Expr.cast e t)) (encode_data_type t) _ (decode-encode_data_type t)
        (λ c q. Ensures-ok (DecodesTo (Expr.cast e t)) _ (rw (p, q))))
decode-encode_expr (Expr.alias e name) h =
    Ensures->>= (DecodesTo (Expr.alias e name)) (encode_expr e) _ (decode-encode_expr e h.1)
      (λ w p. Ensures-ok (DecodesTo (Expr.alias e name)) _ (rw (h.0, p)))
decode-encode_expr (Expr.aggregate f e distinct) h =
    Ensures->>= (DecodesTo (Expr.aggregate f e distinct)) (encode_expr e) _ (decode-encode_expr e h)
      (λ w p.
        Ensures-ok (DecodesTo (Expr.aggregate f e distinct)) _ (rw (decode-encode_function f, p)))
decode-encode_expr Expr.wildcard h = Ensures-ok _ _ refl

pub decode-encode_exprs :
    (es : List Expr) → All IsNamed es → Ensures (λ ws. decode_exprs ws ≡ ok es) (encode_exprs es)
unfolding encode_exprs decode_exprs
decode-encode_exprs es h = Ensures-collect encode_expr decode_expr decode-encode_expr es h

-- A sort key that has a type over the schema of its input.
abbrev pub IsSortKey : Schema → SortExpr → Type 0
IsSortKey schema sort = IsNamed sort.expr × ((t : DataType) × (data_type schema sort.expr ≡ ok t))

module _ (schema : Schema) where
  decode-encode_sort_expr :
      (s : SortExpr)
      → IsSortKey schema s
      → Ensures (λ w. decode_sort_expr schema w ≡ ok s) (encode_sort_expr s)
  unfolding encode_sort_expr decode_sort_expr
  decode-encode_sort_expr s h =
      Ensures->>= (λ w. decode_sort_expr schema w ≡ ok s) (encode_expr s.expr) _
        (decode-encode_expr s.expr h.0)
        (λ w p. Ensures-ok (λ w. decode_sort_expr schema w ≡ ok s) _ (rw (p, h.1.1)))

  pub decode-encode_sort_exprs :
      (ss : List SortExpr)
      → is_empty ss ≡ false
      → All (IsSortKey schema) ss
      → Ensures (λ ws. decode_sort_exprs ws schema ≡ ok ss) (encode_sort_exprs ss)
  unfolding encode_sort_exprs decode_sort_exprs
  decode-encode_sort_exprs ss some_key h =
      Ensures-imp (λ ws. decode_sort_exprs ws schema ≡ ok ss) _
        (Ensures-collect encode_sort_expr (decode_sort_expr schema) decode-encode_sort_expr ss h)
        (λ ws e. rw (e, some_key))
