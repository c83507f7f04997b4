-- ===== src/Protocol/Stages.antt =====
-- src/cluster/protocol.rs: `HashExchange` and `StagePlan`. The check of the encoded plan fragment,
-- `PhysicalPlanCodec::validate_fragment`, is an argument: every theorem holds for any such check.
use spark_x_distributed_quer.Base.{
  ℕ, Bool, ◌&&◌, ◌||◌, Option, none, some, List, [], ◌∷◌, ◌==◌, is_empty, any,
}
use spark_x_distributed_quer.Error.{Result, ok, reject_if, ◌>>◌}
use spark_x_distributed_quer.Protocol.Ids.{protocol_error, QueryId, StageId, validate_text_id}

pub record HashExchange : Type 0 where
  pub columns : List ℕ
  pub partition_count : ℕ

pub record StagePlan : Type 0 where
  pub query_id : QueryId
  pub stage_id : StageId
  pub input_stages : List StageId
  pub partition_count : ℕ
  pub plan_fragment : List ℕ
  pub output_exchange : Option HashExchange
  pub partitioned_input : Bool

-- What a stage asks of `PhysicalPlanCodec`.
pub record PlanCodec : Type 0 where
  pub validate_fragment : List ℕ → Result (Unit {0})

-- `contains` of a list or a set of stage ids
abbrev pub has_stage : List StageId → StageId → Bool
has_stage stages id = any (λ s. s == id) stages

unfoldable pub validate_exchange : Option HashExchange → Result (Unit {0})
validate_exchange none = ok tt
validate_exchange (some exchange) =
    reject_if (exchange.partition_count == 0 || is_empty exchange.columns)
      (protocol_error "hash exchange needs keys and a nonzero partition count")

-- The loop over the dependencies; `seen` is the set of those passed.
unfoldable pub validate_dependencies : StageId → List StageId → List StageId → Result (Unit {0})
validate_dependencies stage_id seen [] = ok tt
validate_dependencies stage_id seen (dependency ∷ rest) = do
  reject_if (dependency == stage_id) (protocol_error "stage cannot depend on itself")
  reject_if (has_stage seen dependency) (protocol_error "stage dependencies must be unique")
  validate_dependencies stage_id (dependency ∷ seen) rest

unfoldable pub validate_stage : PlanCodec → StagePlan → Result (Unit {0})
unfolding validate_dependencies validate_exchange validate_text_id
validate_stage codec stage = do
  validate_text_id stage.query_id
  reject_if (stage.partition_count == 0)
      (protocol_error "stage partition count must be greater than zero")
  validate_exchange stage.output_exchange
  reject_if (stage.partitioned_input && is_empty stage.input_stages)
      (protocol_error "partitioned input requires a dependency")
  codec.validate_fragment stage.plan_fragment
  validate_dependencies stage.stage_id [] stage.input_stages
