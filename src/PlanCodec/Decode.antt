-- ===== src/PlanCodec/Decode.antt =====
-- src/cluster/plan_codec.rs: a message as a physical plan, on a worker with a catalog.
use spark_x_distributed_quer.Base.{ℕ, ◌+◌, not, ◌++◌}
use spark_x_distributed_quer.Error.{SparkXError, Result, ok, err, panic, reject_if, ◌>>=◌, ◌>>◌}
use spark_x_distributed_quer.Text.{is_blank}
use spark_x_distributed_quer.Expr.{DataType}
use spark_x_distributed_quer.Expr.Names.{Formats}
use spark_x_distributed_quer.Expr.Typing.{type_eq, data_type}
use spark_x_distributed_quer.Plan.{PhysicalPlan, TableProvider, Catalog, table, plan_schema}
use spark_x_distributed_quer.PlanCodec.Wire.{WireScan, WirePlan, BoxedPlan, missing, boxed}
use spark_x_distributed_quer.PlanCodec.Codes.{
  codec_error, required, checked_usize, decode_join_type,
}
use spark_x_distributed_quer.PlanCodec.Exprs.{decode_expr, decode_exprs, decode_sort_exprs}
use spark_x_distributed_quer.PlanCodec.Schemas.{
  decode_required_schema, validate_schema, validate_scan_schema, schema_for_exprs,
  validate_join_keys, join_schema, decode_projection,
}
use spark_x_distributed_quer.PlanCodec.Encode.{check_depth}

-- `map_err(...)`
abbrev pub or_error {ℓ} : {A : Type ℓ} → Result A → SparkXError → Result A
or_error (ok a) e = ok a
or_error (err _) e = err e
or_error (panic m) e = panic m

module _ {ℓ} {T : Type ℓ} ⦃provider : TableProvider T⦄ (formats : Formats)
    (catalog : Catalog T) where
  unfoldable pub decode_scan : WireScan → Result (PhysicalPlan T)
  unfolding is_blank table decode_projection decode_required_schema validate_scan_schema
      decode_exprs
  decode_scan scan = do
    reject_if (is_blank scan.table_name) (codec_error "scan table name must not be empty")
    found ←
        or_error (table catalog scan.table_name)
          (codec_error "worker cannot resolve scan table '{}': {error}")
    projection ← decode_projection scan.has_projection scan.projection
    schema ← decode_required_schema scan.schema
    validate_scan_schema (provider.table_schema found) projection schema
    filters ← decode_exprs scan.filters
    ok (PhysicalPlan.scan scan.id scan.table_name found projection filters schema)

  unfoldable mutual
    unfolding check_depth decode_scan decode_expr decode_exprs decode_sort_exprs
        decode_required_schema validate_schema schema_for_exprs validate_join_keys join_schema
        checked_usize decode_join_type data_type plan_schema

    pub decode_plan : WirePlan → ℕ → Result (PhysicalPlan T)
    decode_plan WirePlan.unset depth = check_depth depth >> err (codec_error "{name} is missing")
    decode_plan (WirePlan.scan scan) depth = check_depth depth >> decode_scan scan
    decode_plan (WirePlan.projection id input exprs schema) depth = do
      check_depth depth
      i ← decode_input input (depth + 1)
      e ← decode_exprs exprs
      s ← decode_required_schema schema
      expected ← schema_for_exprs formats e (plan_schema i)
      validate_schema s expected
      ok (PhysicalPlan.projection id i e s)
    decode_plan (WirePlan.filter id input predicate schema) depth = do
      check_depth depth
      i ← decode_input input (depth + 1)
      w ← required predicate
      p ← decode_expr w
      t ← data_type (plan_schema i) p
      reject_if (not (type_eq t DataType.boolean)) (codec_error "filter predicate must be Boolean")
      s ← decode_required_schema schema
      validate_schema s (plan_schema i)
      ok (PhysicalPlan.filter id i p s)
    decode_plan (WirePlan.hash_aggregate id input group_exprs aggregate_exprs schema) depth = do
      check_depth depth
      i ← decode_input input (depth + 1)
      g ← decode_exprs group_exprs
      a ← decode_exprs aggregate_exprs
      s ← decode_required_schema schema
      expected ← schema_for_exprs formats (g ++ a) (plan_schema i)
      validate_schema s expected
      ok (PhysicalPlan.hash_aggregate id i g a s)
    decode_plan (WirePlan.sort id input exprs schema) depth = do
      check_depth depth
      i ← decode_input input (depth + 1)
      e ← decode_sort_exprs exprs (plan_schema i)
      s ← decode_required_schema schema
      validate_schema s (plan_schema i)
      ok (PhysicalPlan.sort id i e s)
    decode_plan (WirePlan.top_k id input exprs limit schema) depth = do
      check_depth depth
      i ← decode_input input (depth + 1)
      e ← decode_sort_exprs exprs (plan_schema i)
      s ← decode_required_schema schema
      validate_schema s (plan_schema i)
      l ← checked_usize limit
      ok (PhysicalPlan.top_k id i e l s)
    decode_plan (WirePlan.limit id input limit schema) depth = do
      check_depth depth
      i ← decode_input input (depth + 1)
      s ← decode_required_schema schema
      validate_schema s (plan_schema i)
      l ← checked_usize limit
      ok (PhysicalPlan.limit id i l s)
    decode_plan (WirePlan.hash_join id left right join_type left_on right_on schema) depth = do
      check_depth depth
      l ← decode_input left (depth + 1)
      r ← decode_input right (depth + 1)
      j ← decode_join_type join_type
      lo ← decode_exprs left_on
      ro ← decode_exprs right_on
      validate_join_keys lo (plan_schema l) ro (plan_schema r)
      s ← decode_required_schema schema
      validate_schema s (join_schema (plan_schema l) (plan_schema r) j)
      ok (PhysicalPlan.hash_join id l r j lo ro s)

    -- `decode_plan(required_box(input, name)?, catalog, depth)`
    pub decode_input : BoxedPlan → ℕ → Result (PhysicalPlan T)
    decode_input missing depth = err (codec_error "{name} is missing")
    decode_input (boxed plan) depth = decode_plan plan depth
