-- ===== src/Protocol/Tasks.antt =====
-- src/cluster/protocol.rs: `TaskAttemptId` and `TaskLease`.
use spark_x_distributed_quer.Base.{ℕ, Bool, not, ◌&&◌, ◌==◌, leb, key_eq, str_ord}
use spark_x_distributed_quer.Error.{Result, reject_if, ◌>>◌}
use spark_x_distributed_quer.Protocol.Ids.{
  protocol_error, QueryId, StageId, PartitionId, WorkerId, validate_text_id,
}
use spark_x_distributed_quer.Protocol.Stages.{StagePlan}

pub record TaskAttemptId : Type 0 where
  pub query_id : QueryId
  pub stage_id : StageId
  pub partition_id : PartitionId
  pub attempt : ℕ

-- The derived `==`.
unfoldable pub task_eq : TaskAttemptId → TaskAttemptId → Bool
task_eq a b =
    key_eq a.query_id b.query_id
    && a.stage_id == b.stage_id
    && a.partition_id == b.partition_id
    && a.attempt == b.attempt

unfoldable pub validate_task : TaskAttemptId → Result (Unit {0})
unfolding validate_text_id
validate_task task = validate_text_id task.query_id

unfoldable pub validate_task_for : TaskAttemptId → StagePlan → Result (Unit {0})
unfolding validate_task
validate_task_for task stage = do
  validate_task task
  reject_if (not (key_eq task.query_id stage.query_id))
      (protocol_error "task query does not match its stage")
  reject_if (not (task.stage_id == stage.stage_id))
      (protocol_error "task stage does not match its stage plan")
  reject_if (leb stage.partition_count task.partition_id)
      (protocol_error "task partition is outside stage partition count")

pub record TaskLease : Type 0 where
  pub worker_id : WorkerId
  pub issued_at_ms : ℕ
  pub expires_at_ms : ℕ

unfoldable pub validate_lease : TaskLease → Result (Unit {0})
unfolding validate_text_id
validate_lease lease = do
  validate_text_id lease.worker_id
  reject_if (leb lease.expires_at_ms lease.issued_at_ms)
      (protocol_error "task lease must expire after it is issued")
