-- ===== src/Coordinator/Submit.antt =====
-- src/cluster/coordinator.rs: `Coordinator::submit_stage`.
use spark_x_distributed_quer.Base.{
  ℕ, Bool, false, not, Option, none, some, List, [], ◌∷◌, str_ord, nat_ord, pair_ord, if◌then◌else◌,
  ltb, ◌==◌, replicate,
}
use spark_x_distributed_quer.BTreeMap.{BTreeMap, get, contains_key, insert}
use spark_x_distributed_quer.Error.{Result, ok, expect, reject_if, ◌>>=◌, ◌>>◌}
use spark_x_distributed_quer.Error.Exec.{Exec, proceed}
use spark_x_distributed_quer.Protocol.{StageId, StagePlan, HashExchange, PlanCodec, validate_stage}
use spark_x_distributed_quer.Coordinator.State.{
  PartitionRuntime, StageKey, StageRuntime, Coordinator, coordinator_error,
}

-- The loop that looks for unsubmitted dependencies.
unfoldable pub check_submitted :
    BTreeMap StageKey StageRuntime → StagePlan → List StageId → Result (Unit {0})
unfolding contains_key
check_submitted stages stage [] = ok tt
check_submitted stages stage (dependency ∷ rest) = do
  reject_if (not (contains_key (stage.query_id, dependency) stages))
      (coordinator_error "stage depends on unsubmitted stage")
  check_submitted stages stage rest

-- `upstream.output_exchange.map(|exchange| exchange.partition_count) != Some(partition_count)`
abbrev pub exchange_matches : Option HashExchange → ℕ → Bool
exchange_matches none count = false
exchange_matches (some exchange) count = exchange.partition_count == count

-- The loop over the exchanges of the dependencies; indexing a missing stage panics.
unfoldable pub check_exchanges :
    BTreeMap StageKey StageRuntime → StagePlan → List StageId → Result (Unit {0})
unfolding get
check_exchanges stages stage [] = ok tt
check_exchanges stages stage (dependency ∷ rest) = do
  upstream ← expect (get (stage.query_id, dependency) stages) "no entry found for key"
  reject_if (not (exchange_matches upstream.plan.output_exchange stage.partition_count))
      (coordinator_error "partitioned dependency must use matching hash exchange")
  check_exchanges stages stage rest

-- `is_some_and(|exchange| exchange.partition_count > maximum)`
abbrev pub exchange_exceeds : Option HashExchange → ℕ → Bool
exchange_exceeds none maximum = false
exchange_exceeds (some exchange) maximum = ltb maximum exchange.partition_count

unfoldable pub check_partitioned : BTreeMap StageKey StageRuntime → StagePlan → Result (Unit {0})
unfolding check_exchanges
check_partitioned stages stage =
    if stage.partitioned_input then check_exchanges stages stage stage.input_stages else ok tt

-- All that comes before the first write.
unfoldable pub check_stage : PlanCodec → StagePlan → Coordinator → Result (Unit {0})
unfolding check_partitioned check_submitted contains_key validate_stage
check_stage codec stage c = do
  validate_stage codec stage
  reject_if (ltb c.config.max_stage_partitions stage.partition_count)
      (coordinator_error "stage has more partitions than the configured maximum")
  reject_if (contains_key stage.query_id c.cancelled_queries)
      (coordinator_error "query is already cancelled")
  reject_if (contains_key (stage.query_id, stage.stage_id) c.stages)
      (coordinator_error "stage for query is already submitted")
  check_submitted c.stages stage stage.input_stages
  check_partitioned c.stages stage
  reject_if (exchange_exceeds stage.output_exchange c.config.max_stage_partitions)
      (coordinator_error "exchange exceeds configured partition maximum")

unfoldable pub new_stage : StagePlan → StageRuntime
new_stage stage = record {
  plan = stage;
  partitions = replicate stage.partition_count (PartitionRuntime.pending 0);
}

unfoldable pub add_stage : StagePlan → Coordinator → Coordinator
unfolding insert new_stage
add_stage stage c = record c {
  stages = insert (stage.query_id, stage.stage_id) (new_stage stage) c.stages;
}

unfoldable pub submit_stage : PlanCodec → StagePlan → Exec Coordinator (Unit {0})
unfolding check_stage add_stage
submit_stage codec stage c =
    proceed (check_stage codec stage c) (λ _ d. (ok tt, add_stage stage d)) c
