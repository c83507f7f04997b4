-- ===== src/PlanCodec/Validate.antt =====
-- src/cluster/plan_codec.rs: the check of a message without a catalog, and the fragments themselves. How
-- a message becomes bytes is an argument, the Protobuf library.
use spark_x_distributed_quer.Base.{ℕ, ◌+◌, ◌*◌, not, some, List, length, leb, ◌==◌}
use spark_x_distributed_quer.Error.{Result, ok, err, ok_or, reject_if, ◌>>=◌, ◌>>◌}
use spark_x_distributed_quer.Text.{is_blank}
use spark_x_distributed_quer.Expr.Names.{Formats}
use spark_x_distributed_quer.Plan.{PhysicalPlan, TableProvider, Catalog}
use spark_x_distributed_quer.PlanCodec.Wire.{
  WireScan, WirePlan, BoxedPlan, missing, boxed, WirePlanEnvelope,
}
use spark_x_distributed_quer.PlanCodec.Codes.{
  codec_error, required, checked_usize, decode_join_type,
}
use spark_x_distributed_quer.PlanCodec.Exprs.{
  decode_expr, validate_wire_exprs, validate_wire_sort_exprs,
}
use spark_x_distributed_quer.PlanCodec.Schemas.{decode_required_schema, decode_projection}
use spark_x_distributed_quer.PlanCodec.Encode.{check_depth, encode_plan}
use spark_x_distributed_quer.PlanCodec.Decode.{or_error, decode_plan}

unfoldable pub validate_scan : WireScan → Result (Unit {0})
unfolding is_blank decode_projection decode_required_schema validate_wire_exprs
validate_scan node = do
  reject_if (is_blank node.table_name) (codec_error "scan table name must not be empty")
  _ ← decode_projection node.has_projection node.projection
  _ ← decode_required_schema node.schema
  validate_wire_exprs node.filters

unfoldable mutual
  unfolding check_depth validate_scan decode_expr decode_required_schema validate_wire_exprs
      validate_wire_sort_exprs checked_usize decode_join_type

  pub validate_wire_plan : WirePlan → ℕ → Result (Unit {0})
  validate_wire_plan WirePlan.unset depth =
      check_depth depth >> err (codec_error "{name} is missing")
  validate_wire_plan (WirePlan.scan node) depth = check_depth depth >> validate_scan node
  validate_wire_plan (WirePlan.projection id input exprs schema) depth = do
    check_depth depth
    validate_input input (depth + 1)
    _ ← decode_required_schema schema
    validate_wire_exprs exprs
  validate_wire_plan (WirePlan.filter id input predicate schema) depth = do
    check_depth depth
    validate_input input (depth + 1)
    _ ← decode_required_schema schema
    wire ← required predicate
    _ ← decode_expr wire
    ok tt
  validate_wire_plan (WirePlan.hash_aggregate id input group_exprs aggregate_exprs schema) depth =
      do
        check_depth depth
        validate_input input (depth + 1)
        _ ← decode_required_schema schema
        validate_wire_exprs group_exprs
        validate_wire_exprs aggregate_exprs
  validate_wire_plan (WirePlan.sort id input exprs schema) depth = do
    check_depth depth
    validate_input input (depth + 1)
    _ ← decode_required_schema schema
    validate_wire_sort_exprs exprs
  validate_wire_plan (WirePlan.top_k id input exprs limit schema) depth = do
    check_depth depth
    validate_input input (depth + 1)
    _ ← decode_required_schema schema
    _ ← checked_usize limit
    validate_wire_sort_exprs exprs
  validate_wire_plan (WirePlan.limit id input limit schema) depth = do
    check_depth depth
    validate_input input (depth + 1)
    _ ← decode_required_schema schema
    _ ← checked_usize limit
    ok tt
  validate_wire_plan (WirePlan.hash_join id left right join_type left_on right_on schema) depth = do
    check_depth depth
    validate_input left (depth + 1)
    validate_input right (depth + 1)
    _ ← decode_join_type join_type
    _ ← decode_required_schema schema
    reject_if (not (length left_on == length right_on))
        (codec_error "hash join has {} left keys but {} right keys")
    validate_wire_exprs left_on
    validate_wire_exprs right_on

  pub validate_input : BoxedPlan → ℕ → Result (Unit {0})
  validate_input missing depth = err (codec_error "{name} is missing")
  validate_input (boxed plan) depth = validate_wire_plan plan depth

abbrev pub plan_codec_version : ℕ
plan_codec_version = 2

abbrev pub max_plan_fragment_bytes : ℕ
max_plan_fragment_bytes = 16 * 1024 * 1024

-- `Message::encode_to_vec` and `Message::decode` of an envelope.
pub record Protobuf : Type 0 where
  pub encode_to_vec : WirePlanEnvelope → List ℕ
  pub decode_message : List ℕ → Result WirePlanEnvelope

unfoldable pub validate_fragment_size : ℕ → Result (Unit {0})
validate_fragment_size bytes = do
  reject_if (bytes == 0) (codec_error "plan fragment must not be empty")
  reject_if (not (leb bytes max_plan_fragment_bytes))
      (codec_error "plan fragment is {bytes} bytes; maximum is 16777216 bytes")

module _ (protobuf : Protobuf) where
  unfoldable pub decode_envelope : List ℕ → Result WirePlan
  unfolding validate_fragment_size
  decode_envelope bytes = do
    validate_fragment_size (length bytes)
    envelope ←
        or_error (protobuf.decode_message bytes)
          (codec_error "cannot decode Protobuf envelope: {error}")
    reject_if (not (envelope.version == plan_codec_version))
        (codec_error "unsupported plan codec version {}; expected 2")
    ok_or envelope.root (codec_error "plan envelope has no root operator")

  unfoldable pub validate_fragment : List ℕ → Result (Unit {0})
  unfolding decode_envelope validate_wire_plan
  validate_fragment bytes = do root ← decode_envelope bytes; validate_wire_plan root 0

  module _ {ℓ} {T : Type ℓ} where
    unfoldable pub encode : PhysicalPlan T → Result (List ℕ)
    unfolding encode_plan validate_fragment_size
    encode plan = do
      root ← encode_plan plan 0
      let bytes = protobuf.encode_to_vec (record { version = plan_codec_version; root = some root })
      validate_fragment_size (length bytes)
      ok bytes

    module _ ⦃provider : TableProvider T⦄ (formats : Formats) where
      unfoldable pub decode : List ℕ → Catalog T → Result (PhysicalPlan T)
      unfolding decode_envelope decode_plan
      decode bytes catalog = do root ← decode_envelope bytes; decode_plan formats catalog root 0
