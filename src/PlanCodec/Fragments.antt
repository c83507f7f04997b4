-- ===== src/PlanCodec/Fragments.antt =====
-- src/cluster/plan_codec.rs and src/cluster/protocol.rs: fragments between the coordinator and a worker.
-- A `StagePlan` carries a fragment from one to the other.
use spark_x_distributed_quer.Base.{ℕ, ◌≡◌, String, false, none, some, List, length}
use spark_x_distributed_quer.Error.{Result, ok, >>=-eq-ok, ◌>>=◌, ◌>>◌}
use spark_x_distributed_quer.Error.Ensures.{Ensures-ok, of_Ensures, Ensures-bind}
use spark_x_distributed_quer.Expr.Names.{Formats}
use spark_x_distributed_quer.Plan.{PhysicalPlan, TableProvider, Catalog}
use spark_x_distributed_quer.Protocol.{StagePlan, validate_stage}
use spark_x_distributed_quer.Protocol
use spark_x_distributed_quer.PlanCodec.Wire.{WirePlan, WirePlanEnvelope}
use spark_x_distributed_quer.PlanCodec.Encode.{encode_plan}
use spark_x_distributed_quer.PlanCodec.Validate.{
  Protobuf, plan_codec_version, decode_envelope, validate_fragment_size, validate_fragment, encode,
  decode,
}
use spark_x_distributed_quer.PlanCodec.RoundTrip.Plans.{IsPlan, decode-encode_plan}
use spark_x_distributed_quer.PlanCodec.Accepted.{decode_plan-validate}

abbrev pub envelope : WirePlan → WirePlanEnvelope
envelope root = record { version = plan_codec_version; root = some root }

-- The Protobuf library reads back the message that it wrote for a plan.
abbrev pub ReadsBack {ℓ} : {T : Type ℓ} → Protobuf → PhysicalPlan T → Type 0
ReadsBack protobuf plan =
    (root : WirePlan)
    → encode_plan plan 0 ≡ ok root
    → protobuf.decode_message (protobuf.encode_to_vec (envelope root)) ≡ ok (envelope root)

abbrev pub codec : Protobuf → Protocol.PlanCodec
codec protobuf = record { validate_fragment = validate_fragment protobuf }

abbrev pub stage_of : String → ℕ → List ℕ → ℕ → List ℕ → StagePlan
stage_of query_id stage_id input_stages partition_count fragment = record {
  query_id = query_id;
  stage_id = stage_id;
  input_stages = input_stages;
  partition_count = partition_count;
  plan_fragment = fragment;
  output_exchange = none;
  partitioned_input = false;
}

module _ {ℓ} {T : Type ℓ} (protobuf : Protobuf) where
  -- `StagePlan::from_physical_plan`
  unfoldable pub from_physical_plan : String → ℕ → List ℕ → ℕ → PhysicalPlan T → Result StagePlan
  unfolding encode validate_stage validate_fragment
  from_physical_plan query_id stage_id input_stages partition_count plan = do
    fragment ← encode protobuf plan
    let stage = stage_of query_id stage_id input_stages partition_count fragment
    validate_stage (codec protobuf) stage
    ok stage

  module _ ⦃provider : TableProvider T⦄ (formats : Formats) where
    -- `StagePlan::decode_physical_plan`
    unfoldable pub decode_physical_plan : StagePlan → Catalog T → Result (PhysicalPlan T)
    unfolding decode validate_stage validate_fragment
    decode_physical_plan stage catalog = do
      validate_stage (codec protobuf) stage
      decode protobuf formats stage.plan_fragment catalog

    -- A plan whose parts fit together, and whose message the Protobuf library reads back, decodes
    -- from its fragment to itself.
    pub decode-encode :
        (plan : PhysicalPlan T) (catalog : Catalog T) (bytes : List ℕ)
        → IsPlan formats catalog plan
        → ReadsBack protobuf plan
        → encode protobuf plan ≡ ok bytes
        → decode protobuf formats bytes catalog ≡ ok plan
    unfolding encode decode decode_envelope
    decode-encode plan catalog bytes fits reads h =
        let Back : List ℕ → Type ℓ = λ bytes. decode protobuf formats bytes catalog ≡ ok plan in
        of_Ensures Back (encode protobuf plan)
          (Ensures-bind Back (encode_plan plan 0) _ (λ root er.
            Ensures-bind Back
              (validate_fragment_size (length (protobuf.encode_to_vec (envelope root)))) _
              (λ _ size. Ensures-ok Back _ (
                rw (
                  size,
                  reads root er,
                  of_Ensures _ _ (decode-encode_plan formats catalog plan 0 fits) er,
                )))))
          h

    -- Whatever fragment a worker decodes, the coordinator's check accepts.
    pub decode-validate_fragment :
        (bytes : List ℕ) (catalog : Catalog T) {plan : PhysicalPlan T}
        → decode protobuf formats bytes catalog ≡ ok plan
        → validate_fragment protobuf bytes ≡ ok tt
    unfolding decode validate_fragment
    decode-validate_fragment bytes catalog h =
        let (root, er, h1) = >>=-eq-ok (decode_envelope protobuf bytes) _ h in
        rw er (of_Ensures _ _ (decode_plan-validate formats catalog root 0) h1)

    -- A stage made of a plan whose parts fit together carries the plan to the worker: it passes its
    -- own validation there, and its fragment decodes to the plan.
    pub decode_physical_plan-from_physical_plan :
        (query_id : String) (stage_id : ℕ) (input_stages : List ℕ) (partition_count : ℕ)
        (plan : PhysicalPlan T) (catalog : Catalog T) (stage : StagePlan)
        → IsPlan formats catalog plan
        → ReadsBack protobuf plan
        → from_physical_plan query_id stage_id input_stages partition_count plan ≡ ok stage
        → decode_physical_plan stage catalog ≡ ok plan
    unfolding from_physical_plan decode_physical_plan
    decode_physical_plan-from_physical_plan q s is n plan catalog stage fits reads h =
        let Back : StagePlan → Type ℓ = λ stage. decode_physical_plan stage catalog ≡ ok plan in
        of_Ensures Back (from_physical_plan q s is n plan)
          (Ensures-bind Back (encode protobuf plan) _ (λ bytes e.
            Ensures-bind Back (validate_stage (codec protobuf) (stage_of q s is n bytes))
              (λ _. ok (stage_of q s is n bytes))
              (λ _ valid.
                Ensures-ok Back (stage_of q s is n bytes)
                  (rw (valid, decode-encode plan catalog bytes fits reads e)))))
          h
