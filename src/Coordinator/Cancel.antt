-- ===== src/Coordinator/Cancel.antt =====
-- src/cluster/coordinator.rs: `Coordinator::cancel_query`.
use spark_x_distributed_quer.Base.{
  String, not, Option, none, some, [], ◌∷◌, map, key_eq, str_ord, nat_ord, pair_ord, if◌then◌else◌,
}
use spark_x_distributed_quer.BTreeMap.{BTreeMap, get, insert}
use spark_x_distributed_quer.Error.{Result, ok, err, not_found, reject_if, ◌>>◌}
use spark_x_distributed_quer.Error.Exec.{Exec, proceed}
use spark_x_distributed_quer.Protocol.{
  QueryId, CoordinatorMessage, cancel_query, PlanCodec, protocol_version,
  validate_coordinator_message,
}
use spark_x_distributed_quer.Coordinator.State.{
  PartitionRuntime, StageKey, StageRuntime, Coordinator, coordinator_error,
}
use spark_x_distributed_quer.Coordinator.Status.{has_query}

unfoldable pub cancel_partition : PartitionRuntime → PartitionRuntime
cancel_partition (PartitionRuntime.active task worker_id lease started_at_ms) =
    PartitionRuntime.cancelling task worker_id lease
cancel_partition (PartitionRuntime.succeeded task output_blocks) =
    PartitionRuntime.succeeded task output_blocks
cancel_partition _ = PartitionRuntime.cancelled

unfoldable pub cancel_stages :
    QueryId → BTreeMap StageKey StageRuntime → BTreeMap StageKey StageRuntime
unfolding cancel_partition
cancel_stages query_id [] = []
cancel_stages query_id ((key, stage) ∷ rest) =
    (
      key,
      if key_eq key.0 query_id
          then record stage { partitions = map cancel_partition stage.partitions }
          else stage,
    )
    ∷ cancel_stages query_id rest

abbrev pub cancellation : QueryId → String → CoordinatorMessage
cancellation query_id reason = cancel_query protocol_version query_id reason

-- What follows the checks: whether the query was cancelled before decides.
unfoldable pub cancel_new : QueryId → String → Option String → Exec Coordinator CoordinatorMessage
unfolding cancel_stages insert
cancel_new query_id reason none c = (
  ok (cancellation query_id reason),
  record c {
    stages = cancel_stages query_id c.stages;
    cancelled_queries = insert query_id reason c.cancelled_queries;
  },
)
cancel_new query_id reason (some existing) c =
    if key_eq existing reason
    then (ok (cancellation query_id reason), c)
    else (err (coordinator_error "query was already cancelled for a different reason"), c)

-- What is tested first.
unfoldable pub check_cancel : PlanCodec → QueryId → String → Coordinator → Result (Unit {0})
unfolding has_query validate_coordinator_message
check_cancel codec query_id reason c = do
  validate_coordinator_message codec (cancellation query_id reason)
  reject_if (not (has_query query_id c.stages))
      (not_found "query is not registered with the coordinator")

-- The method, under a name that is not the message's.
unfoldable pub cancel : PlanCodec → QueryId → String → Exec Coordinator CoordinatorMessage
unfolding get cancel_new check_cancel
cancel codec query_id reason c =
    proceed (check_cancel codec query_id reason c)
      (λ _ d. cancel_new query_id reason (get query_id d.cancelled_queries) d) c
