-- ===== src/Coordinator/State.antt =====
-- src/cluster/coordinator.rs: configuration, status values and state of `Coordinator`.
use Prim.Native.String.{◌++◌}
use spark_x_distributed_quer.Base.{
  ℕ, String, Bool, true, false, Option, List, [], ltb, ◌==◌, saturating_add_u32, if◌then◌else◌, leb,
}
use spark_x_distributed_quer.BTreeMap.{BTreeMap}
use spark_x_distributed_quer.Error.{
  SparkXError, protocol, not_found, Result, ok, reject_if, ◌>>◌, ◌>>=◌,
}
use spark_x_distributed_quer.Protocol.{
  QueryId, StageId, WorkerId, StagePlan, TaskAttemptId, TaskLease, ShuffleBlock, WorkerRegistration,
}

-- `coordinator_error` and `stage_not_found`
unfoldable pub coordinator_error : String → SparkXError
coordinator_error message = protocol ("invalid coordinator transition: " ++ message)

abbrev pub stage_not_found : SparkXError
stage_not_found = not_found "query stage is not registered with the coordinator"

pub record CoordinatorConfig : Type 0 where
  pub lease_duration_ms : ℕ
  pub heartbeat_timeout_ms : ℕ
  pub max_task_attempts : ℕ
  pub max_stage_partitions : ℕ

abbrev pub default_config : CoordinatorConfig
default_config = record {
  lease_duration_ms = 30_000;
  heartbeat_timeout_ms = 15_000;
  max_task_attempts = 3;
  max_stage_partitions = 100_000;
}

unfoldable pub validate_config : CoordinatorConfig → Result CoordinatorConfig
validate_config config = do
  reject_if (config.lease_duration_ms == 0)
      (coordinator_error "lease duration must be greater than zero")
  reject_if (config.heartbeat_timeout_ms == 0)
      (coordinator_error "heartbeat timeout must be greater than zero")
  reject_if (config.max_task_attempts == 0)
      (coordinator_error "maximum task attempts must be greater than zero")
  reject_if (config.max_stage_partitions == 0)
      (coordinator_error "maximum stage partitions must be greater than zero")
  ok config

pub data StageStatus : Type 0 where
  blocked ready running succeeded failed cancelled : StageStatus

pub data PartitionStatus : Type 0 where
  pending : (next_attempt : ℕ) → PartitionStatus
  running cancelling succeeded : (attempt : ℕ) → PartitionStatus
  failed : (attempt : ℕ) (error : String) (retryable : Bool) → PartitionStatus
  cancelled : PartitionStatus

pub record WorkerRuntime : Type 0 where
  pub registration : WorkerRegistration
  pub last_observed_at_ms : ℕ
  pub last_received_at_ms : ℕ
  pub available_slots : ℕ
  pub available_memory_bytes : ℕ
  pub alive : Bool

pub data PartitionRuntime : Type 0 where
  pending : (next_attempt : ℕ) → PartitionRuntime
  active :
      (task : TaskAttemptId) (worker_id : WorkerId) (lease : TaskLease) (started_at_ms : Option ℕ)
      → PartitionRuntime
  cancelling : (task : TaskAttemptId) (worker_id : WorkerId) (lease : TaskLease) → PartitionRuntime
  succeeded : (task : TaskAttemptId) (output_blocks : List ShuffleBlock) → PartitionRuntime
  failed : (attempt : ℕ) (error : String) (retryable : Bool) → PartitionRuntime
  cancelled : PartitionRuntime

pub record StageRuntime : Type 0 where
  pub plan : StagePlan
  pub partitions : List PartitionRuntime

abbrev pub StageKey : Type 0
StageKey = QueryId × StageId

pub record Coordinator : Type 0 where
  pub config : CoordinatorConfig
  pub workers : BTreeMap WorkerId WorkerRuntime
  pub stages : BTreeMap StageKey StageRuntime
  pub cancelled_queries : BTreeMap QueryId String

unfoldable pub new : CoordinatorConfig → Result Coordinator
unfolding validate_config
new config = do
  valid ← validate_config config
  ok (record { config = valid; workers = []; stages = []; cancelled_queries = [] })

-- `matches!(partition, PartitionRuntime::Succeeded { .. })` and its like
abbrev pub is_succeeded : PartitionRuntime → Bool
is_succeeded (PartitionRuntime.succeeded task output_blocks) = true
is_succeeded _ = false

abbrev pub is_failed : PartitionRuntime → Bool
is_failed (PartitionRuntime.failed attempt error retryable) = true
is_failed _ = false

abbrev pub is_active : PartitionRuntime → Bool
is_active (PartitionRuntime.active task worker_id lease started_at_ms) = true
is_active _ = false

unfoldable pub retry_or_fail : ℕ → ℕ → String → PartitionRuntime
retry_or_fail max_task_attempts attempt error =
    let next_attempt = saturating_add_u32 attempt 1 in
    if ltb next_attempt max_task_attempts
    then PartitionRuntime.pending next_attempt
    else PartitionRuntime.failed attempt error true

unfoldable pub validate_reported_time : ℕ → TaskLease → ℕ → Result (Unit {0})
validate_reported_time timestamp_ms lease received_at_ms = do
  reject_if (ltb timestamp_ms lease.issued_at_ms)
      (coordinator_error "task event before its lease was issued")
  reject_if (leb lease.expires_at_ms timestamp_ms)
      (coordinator_error "task event after its lease expired")
  reject_if (ltb received_at_ms timestamp_ms)
      (coordinator_error "task event time is later than the coordinator receive time")
