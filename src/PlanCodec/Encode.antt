-- ===== src/PlanCodec/Encode.antt =====
-- src/cluster/plan_codec.rs: a physical plan as a message.
use spark_x_distributed_quer.Base.{ℕ, ◌+◌, Option, none, some, List, [], is_some, leb}
use spark_x_distributed_quer.Error.{Result, ok, reject_if, collect, ◌>>=◌, ◌>>◌}
use spark_x_distributed_quer.Plan.{PhysicalPlan}
use spark_x_distributed_quer.PlanCodec.Wire.{WirePlan, boxed, join_code}
use spark_x_distributed_quer.PlanCodec.Codes.{
  codec_error, checked_u32, checked_u64, encode_join_type,
}
use spark_x_distributed_quer.PlanCodec.Exprs.{encode_expr, encode_exprs, encode_sort_exprs}
use spark_x_distributed_quer.PlanCodec.Schemas.{encode_schema}

abbrev pub max_plan_depth : ℕ
max_plan_depth = 128

unfoldable pub check_depth : ℕ → Result (Unit {0})
check_depth depth =
    reject_if (leb max_plan_depth depth) (codec_error "plan exceeds maximum nesting depth")

-- `as_deref().unwrap_or_default()`
abbrev pub indices_of : Option (List ℕ) → List ℕ
indices_of none = []
indices_of (some indices) = indices

module _ {ℓ} {T : Type ℓ} where
  unfoldable pub encode_plan : PhysicalPlan T → ℕ → Result WirePlan
  unfolding check_depth checked_u32 checked_u64 encode_exprs encode_sort_exprs encode_schema
      encode_join_type
  encode_plan (PhysicalPlan.scan id table_name provider projection filters schema) depth = do
    check_depth depth
    indices ← collect checked_u32 (indices_of projection)
    f ← encode_exprs filters
    s ← encode_schema schema
    ok (
        WirePlan.scan (record {
          id = id;
          table_name = table_name;
          has_projection = is_some projection;
          projection = indices;
          filters = f;
          schema = some s;
        }))
  encode_plan (PhysicalPlan.projection id input exprs schema) depth = do
    check_depth depth
    i ← encode_plan input (depth + 1)
    e ← encode_exprs exprs
    s ← encode_schema schema
    ok (WirePlan.projection id (boxed i) e (some s))
  encode_plan (PhysicalPlan.filter id input predicate schema) depth = do
    check_depth depth
    i ← encode_plan input (depth + 1)
    p ← encode_expr predicate
    s ← encode_schema schema
    ok (WirePlan.filter id (boxed i) (some p) (some s))
  encode_plan (PhysicalPlan.hash_aggregate id input group_exprs aggregate_exprs schema) depth = do
    check_depth depth
    i ← encode_plan input (depth + 1)
    g ← encode_exprs group_exprs
    a ← encode_exprs aggregate_exprs
    s ← encode_schema schema
    ok (WirePlan.hash_aggregate id (boxed i) g a (some s))
  encode_plan (PhysicalPlan.sort id input exprs schema) depth = do
    check_depth depth
    i ← encode_plan input (depth + 1)
    e ← encode_sort_exprs exprs
    s ← encode_schema schema
    ok (WirePlan.sort id (boxed i) e (some s))
  encode_plan (PhysicalPlan.top_k id input exprs limit schema) depth = do
    check_depth depth
    i ← encode_plan input (depth + 1)
    e ← encode_sort_exprs exprs
    l ← checked_u64 limit
    s ← encode_schema schema
    ok (WirePlan.top_k id (boxed i) e l (some s))
  encode_plan (PhysicalPlan.limit id input limit schema) depth = do
    check_depth depth
    i ← encode_plan input (depth + 1)
    l ← checked_u64 limit
    s ← encode_schema schema
    ok (WirePlan.limit id (boxed i) l (some s))
  encode_plan (PhysicalPlan.hash_join id left right join_type left_on right_on schema) depth = do
    check_depth depth
    l ← encode_plan left (depth + 1)
    r ← encode_plan right (depth + 1)
    lo ← encode_exprs left_on
    ro ← encode_exprs right_on
    s ← encode_schema schema
    ok (
        WirePlan.hash_join id (boxed l) (boxed r) (join_code (encode_join_type join_type)) lo ro
          (some s))
