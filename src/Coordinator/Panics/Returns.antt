-- ===== src/Coordinator/Panics/Returns.antt =====
-- src/cluster/coordinator.rs and src/cluster/protocol.rs: the validations and the checks return.
use spark_x_distributed_quer.Base.{
  ℕ, ◌<◌, ◌≡◌, some, none, List, [], ◌∷◌, get_elem?, get_elem?-total, Option, arith, Option-cases,
  inl, inr, str_ord, nat_ord, pair_ord,
}
use spark_x_distributed_quer.BTreeMap.{BTreeMap, get}
use spark_x_distributed_quer.BTreeMap.Entries.{Entries-get}
use spark_x_distributed_quer.Error.{ok, IsPanic, Result-cases, reject_if_returns}
use spark_x_distributed_quer.Protocol.{
  PlanCodec, StagePlan, StageId, HashExchange, TaskAttemptId, TaskLease, TaskState, WorkerId,
  WorkerMessage, CoordinatorMessage, ShuffleBlock, ShuffleLocation, validate_exchange,
  validate_dependencies, validate_stage, validate_task_for, validate_location, validate_block,
  validate_owner, validate_block_for, validate_blocks_for, validate_state_for, validate_input_block,
  validate_input_blocks, validate_coordinator_message, validate_worker_message,
}
use spark_x_distributed_quer.Coordinator.State.{
  PartitionRuntime, StageRuntime, StageKey, Coordinator,
}
use spark_x_distributed_quer.Coordinator.Submit.{
  check_submitted, check_exchanges, check_partitioned, check_stage,
}
use spark_x_distributed_quer.Coordinator.Updates.{
  settle_active, settle_cancelling, update_partition, check_update, check_exchange,
}
use spark_x_distributed_quer.Coordinator.Panics.{HasShape, AllShaped}

validate_dependencies_returns :
    (id : StageId) (seen ds : List StageId) → ¬ IsPanic (validate_dependencies id seen ds)
unfolding validate_dependencies
validate_dependencies_returns id seen [] = λ x. x
validate_dependencies_returns id seen (d ∷ ds) =
    ground (arith, validate_dependencies_returns id (d ∷ seen) ds)

validate_location_returns : (l : ShuffleLocation) → ¬ IsPanic (validate_location l)
unfolding validate_location
validate_location_returns (ShuffleLocation.worker w) = ground arith
validate_location_returns (ShuffleLocation.flight w e t) = ground arith
validate_location_returns (ShuffleLocation.object_store u) = ground arith

validate_block_returns : (b : ShuffleBlock) → ¬ IsPanic (validate_block b)
unfolding validate_block
validate_block_returns b = ground (arith, validate_location_returns b.location)

validate_input_blocks_returns :
    (stage : StagePlan) (task : TaskAttemptId) (bs : List ShuffleBlock)
    → ¬ IsPanic (validate_input_blocks stage task bs)
unfolding validate_input_blocks validate_input_block
validate_input_blocks_returns stage task [] = λ x. x
validate_input_blocks_returns stage task (b ∷ bs) =
    ground (arith, validate_block_returns b, validate_input_blocks_returns stage task bs)

validate_owner_returns : (l : ShuffleLocation) (w : WorkerId) → ¬ IsPanic (validate_owner l w)
unfolding validate_owner
validate_owner_returns (ShuffleLocation.worker v) w = ground arith
validate_owner_returns (ShuffleLocation.flight v e t) w = ground arith
validate_owner_returns (ShuffleLocation.object_store u) w = ground arith

validate_blocks_for_returns :
    (bs : List ShuffleBlock) (task : TaskAttemptId) (w : WorkerId)
    → ¬ IsPanic (validate_blocks_for bs task w)
unfolding validate_blocks_for validate_block_for
validate_blocks_for_returns [] task w = λ x. x
validate_blocks_for_returns (b ∷ bs) task w = ground (
  arith,
  validate_block_returns b,
  validate_owner_returns b.location w,
  validate_blocks_for_returns bs task w,
)

validate_state_for_returns :
    (s : TaskState) (task : TaskAttemptId) (w : WorkerId) → ¬ IsPanic (validate_state_for s task w)
unfolding validate_state_for
validate_state_for_returns (TaskState.running t) task w = λ x. x
validate_state_for_returns (TaskState.succeeded t bs) task w = validate_blocks_for_returns bs task w
validate_state_for_returns (TaskState.failed t e r) task w = ground arith
validate_state_for_returns (TaskState.cancelled t r) task w = ground arith

pub validate_worker_message_returns : (m : WorkerMessage) → ¬ IsPanic (validate_worker_message m)
unfolding validate_worker_message
validate_worker_message_returns (WorkerMessage.register v r) = ground arith
validate_worker_message_returns (WorkerMessage.heartbeat v h) = ground arith
validate_worker_message_returns (WorkerMessage.task_update v w t s) =
    ground (arith, validate_state_for_returns s t w)

settle_active_returns :
    (maximum : ℕ) (task : TaskAttemptId) (o : WorkerId) (l : TaskLease) (started : Option ℕ)
    (state : TaskState) (at : ℕ)
    → ¬ IsPanic (settle_active maximum task o l started state at)
unfolding settle_active
settle_active_returns maximum task o l none (TaskState.running t) at = ground arith
settle_active_returns maximum task o l (some x) (TaskState.running t) at = ground arith
settle_active_returns maximum task o l started (TaskState.succeeded t bs) at = ground arith
settle_active_returns maximum task o l started (TaskState.failed t e r) at = ground arith
settle_active_returns maximum task o l started (TaskState.cancelled t r) at = ground arith

settle_cancelling_returns :
    (t : TaskAttemptId) (o : WorkerId) (l : TaskLease) (state : TaskState) (at : ℕ)
    → ¬ IsPanic (settle_cancelling t o l state at)
unfolding settle_cancelling
settle_cancelling_returns t o l (TaskState.running s) at = ground arith
settle_cancelling_returns t o l (TaskState.succeeded s bs) at = ground arith
settle_cancelling_returns t o l (TaskState.failed s e r) at = ground arith
settle_cancelling_returns t o l (TaskState.cancelled s r) at = ground arith

check_exchange_returns : (e : Option HashExchange) (s : TaskState) → ¬ IsPanic (check_exchange e s)
unfolding check_exchange
check_exchange_returns none s = λ x. x
check_exchange_returns (some e) (TaskState.running t) = λ x. x
check_exchange_returns (some e) (TaskState.succeeded t bs) = reject_if_returns _ _
check_exchange_returns (some e) (TaskState.failed t x r) = λ x. x
check_exchange_returns (some e) (TaskState.cancelled t r) = λ x. x

pub update_partition_returns :
    (maximum : ℕ) (w : WorkerId) (task : TaskAttemptId) (state : TaskState) (at : ℕ)
    (p : PartitionRuntime)
    → ¬ IsPanic (update_partition maximum w task state at p)
unfolding update_partition
update_partition_returns maximum w task state at (PartitionRuntime.active t o l s) =
    ground (arith, settle_active_returns maximum task o l s state at)
update_partition_returns maximum w task state at (PartitionRuntime.cancelling t o l) =
    ground (arith, settle_cancelling_returns t o l state at)
update_partition_returns maximum w task state at _ = λ x. x

module _ (codec : PlanCodec)
    (decodes : (fragment : List ℕ) → ¬ IsPanic (codec.validate_fragment fragment)) where
  validate_exchange_returns : (e : Option HashExchange) → ¬ IsPanic (validate_exchange e)
  unfolding validate_exchange
  validate_exchange_returns none = λ x. x
  validate_exchange_returns (some e) = ground arith

  pub validate_stage_returns : (stage : StagePlan) → ¬ IsPanic (validate_stage codec stage)
  unfolding validate_stage
  validate_stage_returns stage = ground (
    arith,
    validate_exchange_returns stage.output_exchange,
    decodes stage.plan_fragment,
    validate_dependencies_returns stage.stage_id [] stage.input_stages,
  )

  pub validate_coordinator_message_returns :
      (m : CoordinatorMessage) → ¬ IsPanic (validate_coordinator_message codec m)
  unfolding validate_coordinator_message
  validate_coordinator_message_returns (CoordinatorMessage.assign_task v stage task lease bs) =
      ground (arith, validate_stage_returns stage, validate_input_blocks_returns stage task bs)
  validate_coordinator_message_returns (CoordinatorMessage.cancel_query v q r) = ground arith

-- The partition that a valid report names is there.
partition-total :
    (c : Coordinator) (task : TaskAttemptId) (stage : StageRuntime)
    → AllShaped c.stages
    → get (task.query_id, task.stage_id) c.stages ≡ some stage
    → validate_task_for task stage.plan ≡ ok tt
    → (p : PartitionRuntime) × (get_elem? stage.partitions task.partition_id ≡ some p)
unfolding validate_task_for
partition-total c task stage h e valid =
    let (_, size) = Entries-get HasShape (task.query_id, task.stage_id) c.stages stage h e in
    let inside : task.partition_id < stage.plan.partition_count = ground (arith, valid) in
    get_elem?-total stage.partitions task.partition_id (omega (arith, size, inside))

validate_task_for_returns :
    (task : TaskAttemptId) (stage : StagePlan) → ¬ IsPanic (validate_task_for task stage)
unfolding validate_task_for
validate_task_for_returns task stage = ground arith

pub check_update_returns :
    (c : Coordinator) (w : WorkerId) (task : TaskAttemptId) (state : TaskState) (at : ℕ)
    → AllShaped c.stages
    → ¬ IsPanic (check_update c w task state at)
unfolding check_update
check_update_returns c w task state at h =
    elim (Option-cases (get (task.query_id, task.stage_id) c.stages)) [
      | inl missing ↦ rw missing (ground arith)
      | inr (stage, e) ↦ elim (Result-cases (validate_task_for task stage.plan)) [
        | inl (_, valid) ↦
            let (p, f) = partition-total c task stage h e valid in
            ground (
              arith,
              e,
              valid,
              f,
              check_exchange_returns stage.plan.output_exchange state,
              update_partition_returns c.config.max_task_attempts w task state at p,
            )
        | inr (inl (_, refused)) ↦ ground (arith, e, refused)
        | inr (inr (m, panicked)) ↦
            absurd (validate_task_for_returns task stage.plan (rw panicked tt))
      ]
    ]

-- Every dependency that was looked for is there.
check_exchanges_returns :
    (stages : BTreeMap StageKey StageRuntime) (stage : StagePlan) (ds : List StageId)
    → check_submitted stages stage ds ≡ ok tt
    → ¬ IsPanic (check_exchanges stages stage ds)
unfolding check_exchanges check_submitted
check_exchanges_returns stages stage [] h = λ x. x
check_exchanges_returns stages stage (d ∷ ds) h =
    ground (arith, h, check_exchanges_returns stages stage ds)

check_submitted_returns :
    (stages : BTreeMap StageKey StageRuntime) (stage : StagePlan) (ds : List StageId)
    → ¬ IsPanic (check_submitted stages stage ds)
unfolding check_submitted
check_submitted_returns stages stage [] = λ x. x
check_submitted_returns stages stage (d ∷ ds) =
    ground (arith, check_submitted_returns stages stage ds)

pub check_stage_returns :
    (codec : PlanCodec) (stage : StagePlan) (c : Coordinator)
    → ¬ IsPanic (validate_stage codec stage)
    → ¬ IsPanic (check_stage codec stage c)
unfolding check_stage check_partitioned
check_stage_returns codec stage c h = ground (
  arith,
  h,
  check_submitted_returns c.stages stage stage.input_stages,
  check_exchanges_returns c.stages stage stage.input_stages,
)
