-- ===== src/Coordinator/Status.antt =====
-- src/cluster/coordinator.rs: the methods on `&self` that report on workers, stages and partitions.
use spark_x_distributed_quer.Base.{
  ℕ, Bool, false, not, ◌&&◌, Option, none, some, List, [], ◌∷◌, ◌++◌, key_eq, str_ord, nat_ord,
  pair_ord, if◌then◌else◌, any, all, get_elem?, Ordering, length,
}
use spark_x_distributed_quer.BTreeMap.{BTreeMap, get, contains_key}
use spark_x_distributed_quer.Error.{not_found, Result, ok, ok_or, reject_if, ◌>>=◌, ◌>>◌}
use spark_x_distributed_quer.Protocol.{
  QueryId, StageId, PartitionId, WorkerId, StagePlan, ShuffleBlock,
}
use spark_x_distributed_quer.Coordinator.State.{
  StageStatus, PartitionStatus, PartitionRuntime, StageKey, StageRuntime, WorkerRuntime,
  Coordinator, is_succeeded, is_failed, is_active, stage_not_found, coordinator_error,
}

unfoldable pub worker_count : Coordinator → ℕ
worker_count c = length c.workers

-- `filter(|worker| worker.alive).map(|worker| worker.available_slots)`
abbrev pub alive_slots : Option WorkerRuntime → Option ℕ
alive_slots none = none
alive_slots (some w) = if w.alive then some w.available_slots else none

unfoldable pub worker_available_slots : Coordinator → WorkerId → Option ℕ
unfolding get
worker_available_slots c worker_id = alive_slots (get worker_id c.workers)

-- `self.stages.keys().any(|(stage_query_id, _)| stage_query_id == query_id)`
unfoldable pub has_query : QueryId → BTreeMap StageKey StageRuntime → Bool
has_query query_id = any (λ e. key_eq e.0.0 query_id)

unfoldable pub active_workers : List PartitionRuntime → List WorkerId
active_workers [] = []
active_workers (PartitionRuntime.active task worker_id lease started ∷ ps) =
    worker_id ∷ active_workers ps
active_workers (_ ∷ ps) = active_workers ps

unfoldable pub query_active_workers : QueryId → BTreeMap StageKey StageRuntime → List WorkerId
unfolding active_workers
query_active_workers query_id [] = []
query_active_workers query_id ((key, stage) ∷ rest) =
    let later = query_active_workers query_id rest in
    if key_eq key.0 query_id then active_workers stage.partitions ++ later else later

-- `sort`: the order of the ids, by insertion.
unfoldable pub insert_sorted : WorkerId → List WorkerId → List WorkerId
insert_sorted w [] = w ∷ []
insert_sorted w (v ∷ vs) = elim (str_ord.cmp w v) [
  | Ordering.gt ↦ v ∷ insert_sorted w vs
  | _ ↦ w ∷ v ∷ vs
]

unfoldable pub sort : List WorkerId → List WorkerId
unfolding insert_sorted
sort [] = []
sort (w ∷ ws) = insert_sorted w (sort ws)

-- `dedup`: of equal neighbours the first stays.
abbrev pub dedup_cons : WorkerId → List WorkerId → List WorkerId
dedup_cons w [] = w ∷ []
dedup_cons w (v ∷ vs) = if key_eq w v then v ∷ vs else w ∷ v ∷ vs

unfoldable pub dedup : List WorkerId → List WorkerId
dedup [] = []
dedup (w ∷ ws) = dedup_cons w (dedup ws)

unfoldable pub active_workers_for_query : Coordinator → QueryId → Result (List WorkerId)
unfolding has_query query_active_workers sort dedup
active_workers_for_query c query_id = do
  reject_if (not (has_query query_id c.stages))
      (not_found "query is not registered with the coordinator")
  ok (dedup (sort (query_active_workers query_id c.stages)))

-- Whether a stage is there and all its partitions have succeeded.
abbrev pub is_done : Option StageRuntime → Bool
is_done none = false
is_done (some stage) = all is_succeeded stage.partitions

unfoldable pub dependencies_succeeded : BTreeMap StageKey StageRuntime → StagePlan → Bool
unfolding get
dependencies_succeeded stages plan =
    all (λ dependency. is_done (get (plan.query_id, dependency) stages)) plan.input_stages

-- The tests after the lookup of the stage.
unfoldable pub status_of : Coordinator → StageRuntime → Bool → StageStatus
unfolding dependencies_succeeded
status_of c stage cancelled =
    if cancelled
    then StageStatus.cancelled
    else if any is_failed stage.partitions
    then StageStatus.failed
    else if all is_succeeded stage.partitions
    then StageStatus.succeeded
    else if any is_active stage.partitions
    then StageStatus.running
    else if dependencies_succeeded c.stages stage.plan
    then StageStatus.ready
    else StageStatus.blocked

unfoldable pub stage_status : Coordinator → QueryId → StageId → Result StageStatus
unfolding get contains_key status_of
stage_status c query_id stage_id = do
  stage ← ok_or (get (query_id, stage_id) c.stages) stage_not_found
  ok (status_of c stage (contains_key query_id c.cancelled_queries))

unfoldable pub partition_status_of : PartitionRuntime → PartitionStatus
partition_status_of (PartitionRuntime.pending next_attempt) = PartitionStatus.pending next_attempt
partition_status_of (PartitionRuntime.active task worker_id lease started_at_ms) =
    PartitionStatus.running task.attempt
partition_status_of (PartitionRuntime.cancelling task worker_id lease) =
    PartitionStatus.cancelling task.attempt
partition_status_of (PartitionRuntime.succeeded task output_blocks) =
    PartitionStatus.succeeded task.attempt
partition_status_of (PartitionRuntime.failed attempt error retryable) =
    PartitionStatus.failed attempt error retryable
partition_status_of PartitionRuntime.cancelled = PartitionStatus.cancelled

unfoldable pub partition_status :
    Coordinator → QueryId → StageId → PartitionId → Result PartitionStatus
unfolding get partition_status_of
partition_status c query_id stage_id partition_id = do
  stage ← ok_or (get (query_id, stage_id) c.stages) stage_not_found
  partition ←
      ok_or (get_elem? stage.partitions partition_id)
        (not_found "partition does not exist in query stage")
  ok (partition_status_of partition)

-- `flat_map` over the partitions: the blocks of those that succeeded, in order.
unfoldable pub committed_blocks : List PartitionRuntime → List ShuffleBlock
committed_blocks [] = []
committed_blocks (PartitionRuntime.succeeded task output_blocks ∷ ps) =
    output_blocks ++ committed_blocks ps
committed_blocks (_ ∷ ps) = committed_blocks ps

unfoldable pub stage_output_blocks : Coordinator → QueryId → StageId → Result (List ShuffleBlock)
unfolding committed_blocks contains_key get
stage_output_blocks c query_id stage_id = do
  stage ← ok_or (get (query_id, stage_id) c.stages) stage_not_found
  reject_if
      (not (contains_key query_id c.cancelled_queries) && not (all is_succeeded stage.partitions))
      (coordinator_error "query stage has not succeeded")
  ok (committed_blocks stage.partitions)
