-- ===== src/Protocol/Messages.antt =====
-- src/cluster/protocol.rs: registrations, heartbeats, and the messages of both directions.
use spark_x_distributed_quer.Base.{ℕ, String, not, ◌&&◌, List, [], ◌∷◌, ◌==◌, key_eq, str_ord}
use spark_x_distributed_quer.Text.{is_blank}
use spark_x_distributed_quer.Error.{Result, ok, reject_if, ◌>>◌}
use spark_x_distributed_quer.Protocol.Ids.{
  protocol_error, QueryId, WorkerId, validate_text_id, validate_version,
}
use spark_x_distributed_quer.Protocol.Stages.{StagePlan, PlanCodec, has_stage, validate_stage}
use spark_x_distributed_quer.Protocol.Tasks.{
  TaskAttemptId, TaskLease, validate_task_for, validate_lease,
}
use spark_x_distributed_quer.Protocol.Blocks.{
  ShuffleBlock, TaskState, validate_block, validate_state_for,
}

pub record WorkerRegistration : Type 0 where
  pub worker_id : WorkerId
  pub slots : ℕ
  pub memory_bytes : ℕ

unfoldable pub validate_registration : WorkerRegistration → Result (Unit {0})
unfolding validate_text_id
validate_registration registration = do
  validate_text_id registration.worker_id
  reject_if (registration.slots == 0) (protocol_error "worker must advertise at least one slot")
  reject_if (registration.memory_bytes == 0)
      (protocol_error "worker must advertise non-zero memory")

pub record WorkerHeartbeat : Type 0 where
  pub worker_id : WorkerId
  pub observed_at_ms : ℕ
  pub available_slots : ℕ
  pub available_memory_bytes : ℕ

pub data CoordinatorMessage : Type 0 where
  assign_task :
      (version : ℕ) (stage : StagePlan) (task : TaskAttemptId) (lease : TaskLease)
      (input_blocks : List ShuffleBlock)
      → CoordinatorMessage
  cancel_query : (version : ℕ) (query_id : QueryId) (reason : String) → CoordinatorMessage

-- The body of the loop over the input blocks of an assignment.
unfoldable pub validate_input_block : StagePlan → TaskAttemptId → ShuffleBlock → Result (Unit {0})
unfolding validate_block
validate_input_block stage task block = do
  validate_block block
  reject_if (stage.partitioned_input && not (block.output_partition == task.partition_id))
      (protocol_error "input block targets a different partition")
  reject_if (not (key_eq block.producer.query_id stage.query_id))
      (protocol_error "assignment input block belongs to a different query")
  reject_if (not (has_stage stage.input_stages block.producer.stage_id))
      (protocol_error "assignment input block was not produced by a dependency stage")

unfoldable pub validate_input_blocks :
    StagePlan → TaskAttemptId → List ShuffleBlock → Result (Unit {0})
unfolding validate_input_block
validate_input_blocks stage task [] = ok tt
validate_input_blocks stage task (block ∷ rest) = do
  validate_input_block stage task block
  validate_input_blocks stage task rest

unfoldable pub validate_coordinator_message : PlanCodec → CoordinatorMessage → Result (Unit {0})
unfolding is_blank validate_input_blocks validate_lease validate_stage validate_task_for
    validate_text_id validate_version
validate_coordinator_message codec (assign_task version stage task lease input_blocks) = do
  validate_version version
  validate_stage codec stage
  validate_task_for task stage
  validate_lease lease
  validate_input_blocks stage task input_blocks
validate_coordinator_message codec (cancel_query version query_id reason) = do
  validate_version version
  validate_text_id query_id
  reject_if (is_blank reason) (protocol_error "query cancellation must include a reason")

pub data WorkerMessage : Type 0 where
  register : (version : ℕ) (registration : WorkerRegistration) → WorkerMessage
  heartbeat : (version : ℕ) (heartbeat : WorkerHeartbeat) → WorkerMessage
  task_update :
      (version : ℕ) (worker_id : WorkerId) (task : TaskAttemptId) (state : TaskState)
      → WorkerMessage

unfoldable pub validate_worker_message : WorkerMessage → Result (Unit {0})
unfolding validate_registration validate_state_for validate_text_id validate_version
validate_worker_message (register version registration) = do
  validate_version version
  validate_registration registration
validate_worker_message (heartbeat version beat) = do
  validate_version version
  validate_text_id beat.worker_id
validate_worker_message (task_update version worker_id task state) = do
  validate_version version
  validate_text_id worker_id
  validate_text_id task.query_id
  validate_state_for state task worker_id
