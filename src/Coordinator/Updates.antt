-- ===== src/Coordinator/Updates.antt =====
-- src/cluster/coordinator.rs: `Coordinator::record_task_update`. The match on the partition is
-- `update_partition`, which answers the partition's new value and whether the slot is released.
pub mod Accepted
use spark_x_distributed_quer.Base.{
  ℕ, Bool, true, false, not, ◌||◌, Option, none, some, List, [], ◌∷◌, key_eq, str_ord, nat_ord,
  pair_ord, if◌then◌else◌, ltb, leb, ◌==◌, any, length, get_elem?,
}
use spark_x_distributed_quer.BTreeMap.{get, contains_key, modify}
use spark_x_distributed_quer.Error.{
  Result, ok, err, task_superseded, ok_or, expect, reject_if, ◌>>=◌, ◌>>◌,
}
use spark_x_distributed_quer.Error.Exec.{Exec, proceed}
use spark_x_distributed_quer.Protocol.{
  WorkerId, HashExchange, TaskAttemptId, TaskLease, TaskState, ShuffleBlock, task_eq,
  validate_task_for,
}
use spark_x_distributed_quer.Coordinator.State.{
  PartitionRuntime, Coordinator, coordinator_error, stage_not_found, retry_or_fail,
  validate_reported_time,
}
use spark_x_distributed_quer.Coordinator.Time.{set_partition}
use spark_x_distributed_quer.Coordinator.Workers.{release_worker_slot}

unfoldable pub is_superseded : TaskAttemptId → PartitionRuntime → Bool
is_superseded task (PartitionRuntime.pending next_attempt) = ltb task.attempt next_attempt
is_superseded task (PartitionRuntime.active current worker_id lease started_at_ms) =
    ltb task.attempt current.attempt
is_superseded task (PartitionRuntime.cancelling current worker_id lease) =
    ltb task.attempt current.attempt
is_superseded task (PartitionRuntime.succeeded current output_blocks) =
    ltb task.attempt current.attempt
is_superseded task (PartitionRuntime.failed attempt error retryable) = leb task.attempt attempt
is_superseded task PartitionRuntime.cancelled = true

-- The set of the blocks' destinations: a list without repetitions.
unfoldable pub destinations : List ShuffleBlock → List ℕ
destinations [] = []
destinations (block ∷ blocks) =
    let rest = destinations blocks in
    if any (λ d. d == block.output_partition) rest then rest else block.output_partition ∷ rest

unfoldable pub check_exchange : Option HashExchange → TaskState → Result (Unit {0})
unfolding destinations
check_exchange (some exchange) (TaskState.succeeded finished_at_ms output_blocks) =
    reject_if
      (not (length output_blocks == exchange.partition_count)
        || not (length (destinations output_blocks) == exchange.partition_count)
        || any (λ d. leb exchange.partition_count d) (destinations output_blocks))
      (coordinator_error "hash exchange must commit exactly one block per destination")
check_exchange _ _ = ok tt

pub record Updated : Type 0 where
  pub partition : PartitionRuntime
  pub releases : Bool

-- `if let Some(existing_start) = *started_at_ms`
unfoldable pub record_start : Option ℕ → ℕ → Result (Option ℕ)
record_start none reported = ok (some reported)
record_start (some existing) reported = do
  reject_if (not (existing == reported))
      (coordinator_error "task start time changed between updates")
  ok (some existing)

-- A report on a task whose worker was told to cancel it. A start that was under way is acknowledged;
-- every end of the task, a success too, settles the cancellation.
unfoldable pub settle_cancelling :
    TaskAttemptId → WorkerId → TaskLease → TaskState → ℕ → Result Updated
unfolding validate_reported_time
settle_cancelling current owner lease (TaskState.running started_at_ms) received_at_ms = do
  validate_reported_time started_at_ms lease received_at_ms
  ok (record { partition = PartitionRuntime.cancelling current owner lease; releases = false })
settle_cancelling current owner lease (TaskState.succeeded finished_at_ms output_blocks)
      received_at_ms =
    do
      validate_reported_time finished_at_ms lease received_at_ms
      ok (record { partition = PartitionRuntime.cancelled; releases = true })
settle_cancelling current owner lease (TaskState.failed finished_at_ms error retryable)
      received_at_ms =
    do
      validate_reported_time finished_at_ms lease received_at_ms
      ok (record { partition = PartitionRuntime.cancelled; releases = true })
settle_cancelling current owner lease (TaskState.cancelled finished_at_ms reason) received_at_ms =
    do
      validate_reported_time finished_at_ms lease received_at_ms
      ok (record { partition = PartitionRuntime.cancelled; releases = true })

-- A report on an active task.
unfoldable pub settle_active :
    ℕ → TaskAttemptId → WorkerId → TaskLease → Option ℕ → TaskState → ℕ → Result Updated
unfolding validate_reported_time record_start retry_or_fail
settle_active maximum task owner lease started (TaskState.running started_at_ms) received_at_ms = do
  validate_reported_time started_at_ms lease received_at_ms
  start ← record_start started started_at_ms
  ok (record { partition = PartitionRuntime.active task owner lease start; releases = false })
settle_active maximum task owner lease started (TaskState.succeeded finished_at_ms output_blocks)
      received_at_ms =
    do
      validate_reported_time finished_at_ms lease received_at_ms
      ok (record { partition = PartitionRuntime.succeeded task output_blocks; releases = true })
settle_active maximum task owner lease started (TaskState.failed finished_at_ms error retryable)
      received_at_ms =
    do
      validate_reported_time finished_at_ms lease received_at_ms
      ok (record {
        partition =
            if retryable
            then retry_or_fail maximum task.attempt error
            else PartitionRuntime.failed task.attempt error false;
        releases = true;
      })
settle_active maximum task owner lease started (TaskState.cancelled finished_at_ms reason)
      received_at_ms =
    do
      validate_reported_time finished_at_ms lease received_at_ms
      ok (record { partition = PartitionRuntime.cancelled; releases = true })

-- The partition's part of the method, from the branch on `Cancelling` on.
unfoldable pub update_partition :
    ℕ → WorkerId → TaskAttemptId → TaskState → ℕ → PartitionRuntime → Result Updated
unfolding settle_active settle_cancelling task_eq
update_partition maximum worker_id task state received_at_ms
      (PartitionRuntime.cancelling current owner lease) =
    do
      reject_if (not (task_eq current task))
          (coordinator_error "task update does not match the cancelling attempt")
      reject_if (not (key_eq owner worker_id) || not (key_eq lease.worker_id worker_id))
          (coordinator_error "task cancellation came from a worker that does not own its lease")
      settle_cancelling current owner lease state received_at_ms
update_partition maximum worker_id task state received_at_ms
      (PartitionRuntime.active current owner lease started) =
    do
      reject_if (not (task_eq current task))
          (coordinator_error "task update does not match the active attempt")
      reject_if (not (key_eq owner worker_id) || not (key_eq lease.worker_id worker_id))
          (coordinator_error "task update came from a worker that does not own its lease")
      reject_if (leb lease.expires_at_ms received_at_ms)
          (coordinator_error "task update arrived after its lease expired")
      settle_active maximum task owner lease started state received_at_ms
update_partition maximum worker_id task state received_at_ms _ =
    err (coordinator_error "task update is stale or was not assigned")

-- What is read and tested before the first write.
unfoldable pub check_update :
    Coordinator → WorkerId → TaskAttemptId → TaskState → ℕ → Result Updated
unfolding check_exchange contains_key get is_superseded update_partition validate_task_for
check_update c worker_id task state received_at_ms = do
  reject_if (not (contains_key worker_id c.workers))
      (coordinator_error "task update came from unregistered worker")
  stage ← ok_or (get (task.query_id, task.stage_id) c.stages) stage_not_found
  validate_task_for task stage.plan
  partition ← expect (get_elem? stage.partitions task.partition_id) "index out of bounds"
  reject_if (is_superseded task partition) task_superseded
  check_exchange stage.plan.output_exchange state
  update_partition c.config.max_task_attempts worker_id task state received_at_ms partition

abbrev pub release_if : Bool → WorkerId → Coordinator → Coordinator
release_if true w c = release_worker_slot w c
release_if false w c = c

-- The writes.
unfoldable pub apply_update : WorkerId → TaskAttemptId → Updated → Coordinator → Coordinator
unfolding modify release_worker_slot
apply_update worker_id task u c = release_if u.releases worker_id (record c {
  stages =
      modify (task.query_id, task.stage_id) (set_partition task.partition_id u.partition) c.stages;
})

unfoldable pub record_task_update :
    WorkerId → TaskAttemptId → TaskState → ℕ → Exec Coordinator (Unit {0})
unfolding check_update apply_update
record_task_update worker_id task state received_at_ms c =
    proceed (check_update c worker_id task state received_at_ms)
      (λ u d. (ok tt, apply_update worker_id task u d)) c
