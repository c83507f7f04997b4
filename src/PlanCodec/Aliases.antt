-- ===== src/PlanCodec/Aliases.antt =====
-- src/cluster/plan_codec.rs with src/query/expr.rs: an alias under an alias decodes, but has no type.
use spark_x_distributed_quer.Base.{ℕ, ◌+◌, ◌≡◌, String, false, Option, some}
use spark_x_distributed_quer.Error.{ok, IsPanic}
use spark_x_distributed_quer.Error.Ensures.{of_Ensures}
use spark_x_distributed_quer.Text.{is_blank}
use spark_x_distributed_quer.Expr.{Expr}
use spark_x_distributed_quer.Expr.Names.{Formats}
use spark_x_distributed_quer.Expr.Schemas.{Schema}
use spark_x_distributed_quer.Plan.{PhysicalPlan, TableProvider, Catalog}
use spark_x_distributed_quer.PlanCodec.Wire.{WireExpr, boxed, WireSchema, WirePlan, BoxedPlan}
use spark_x_distributed_quer.PlanCodec.Exprs.{decode_expr}
use spark_x_distributed_quer.PlanCodec.Schemas.{decode_required_schema}
use spark_x_distributed_quer.PlanCodec.Encode.{check_depth}
use spark_x_distributed_quer.PlanCodec.Decode.{decode_plan, decode_input}
use spark_x_distributed_quer.PlanCodec.Validate.{validate_wire_plan, validate_input}
use spark_x_distributed_quer.PlanCodec.Accepted.{decode_input-validate}

decode-alias_alias :
    (e : WireExpr) (a b : String) {d : Expr}
    → is_blank a ≡ false
    → is_blank b ≡ false
    → decode_expr e ≡ ok d
    → decode_expr (WireExpr.alias (boxed (WireExpr.alias (boxed e) a)) b)
      ≡ ok (Expr.alias (Expr.alias d a) b)
unfolding decode_expr
decode-alias_alias e a b ha hb h = rw (ha, hb, h)

module _ {ℓ} {T : Type ℓ} ⦃provider : TableProvider T⦄ (formats : Formats)
    (catalog : Catalog T) where
  -- A filter whose predicate is an alias of an alias: the coordinator's check accepts the message, and
  -- the worker that decodes it panics, whatever the filtered input and the aliased expression.
  pub nested_alias_panics :
      (id depth : ℕ) (input : BoxedPlan) (e : WireExpr) (a b : String) (schema : Option WireSchema)
      {plan : PhysicalPlan T} {d : Expr} {s : Schema}
      → check_depth depth ≡ ok tt
      → decode_input formats catalog input (depth + 1) ≡ ok plan
      → decode_expr e ≡ ok d
      → is_blank a ≡ false
      → is_blank b ≡ false
      → decode_required_schema schema ≡ ok s
      → let w : WirePlan =
          WirePlan.filter id input
            (some (WireExpr.alias (boxed (WireExpr.alias (boxed e) a)) b))
            schema in
        (validate_wire_plan w depth ≡ ok tt) × IsPanic (decode_plan formats catalog w depth)
  unfolding decode_plan validate_wire_plan
  nested_alias_panics id depth input e a b schema hd hi he ha hb hs =
      let valid : validate_input input (depth + 1) ≡ ok tt =
        of_Ensures (λ _. validate_input input (depth + 1) ≡ ok tt)
          (decode_input formats catalog input (depth + 1))
          (decode_input-validate formats catalog input (depth + 1)) hi in
      let twice = decode-alias_alias e a b ha hb he in
      (rw (hd, valid, hs, twice), rw (hd, hi, twice) tt)
