-- ===== src/Coordinator/Updates/Accepted.antt =====
-- src/cluster/coordinator.rs, `record_task_update`: what an accepted report says of the partition.
use spark_x_distributed_quer.Base.{
  ℕ, ◌<◌, ◌≤◌, ◌≡◌, refl, true, false, Option, none, some, arith, key_eq_iff, str_ord, nat_ord,
  pair_ord, u32_max, get_elem?, Option-cases, inl, inr, ◌↔◌,
}
use spark_x_distributed_quer.BTreeMap.{get, contains_key}
use spark_x_distributed_quer.Error.{ok}
use spark_x_distributed_quer.Protocol.{
  WorkerId, TaskAttemptId, TaskLease, TaskState, task_eq, validate_task_for,
}
use spark_x_distributed_quer.Coordinator.State.{
  PartitionRuntime, StageRuntime, Coordinator, retry_or_fail,
}
use spark_x_distributed_quer.Coordinator.Updates.{
  Updated, is_superseded, check_exchange, settle_cancelling, settle_active, update_partition,
  check_update,
}
use spark_x_distributed_quer.Coordinator.Lifecycle.{
  start, commit, give_up, withdraw, settle, Route, here, onward,
}
use spark_x_distributed_quer.Coordinator.Lifecycle.Methods.{retry_or_fail-Route}

-- The stage and the partition that an accepted report is about.
pub record Found (c : Coordinator) (worker_id : WorkerId) (task : TaskAttemptId) (state : TaskState)
    (received_at_ms : ℕ) (u : Updated) : Type 0 where
  pub stage : StageRuntime
  pub partition : PartitionRuntime
  pub has_stage : get (task.query_id, task.stage_id) c.stages ≡ some stage
  pub has_partition : get_elem? stage.partitions task.partition_id ≡ some partition
  pub known : contains_key worker_id c.workers ≡ true
  pub fits : validate_task_for task stage.plan ≡ ok tt
  pub fresh : is_superseded task partition ≡ false
  pub exchanged : check_exchange stage.plan.output_exchange state ≡ ok tt
  pub updated :
      update_partition c.config.max_task_attempts worker_id task state received_at_ms partition
      ≡ ok u

pub check_update-Found :
    (c : Coordinator) (worker_id : WorkerId) (task : TaskAttemptId) (state : TaskState) (at : ℕ)
    (u : Updated)
    → check_update c worker_id task state at ≡ ok u
    → Found c worker_id task state at u
unfolding check_update
check_update-Found c worker_id task state at u h =
    elim (Option-cases (get (task.query_id, task.stage_id) c.stages)) [
      | inl missing ↦ absurd (ground arith)
      | inr (stage, e) ↦ elim (Option-cases (get_elem? stage.partitions task.partition_id)) [
        | inl missing ↦ absurd (ground arith)
        | inr (p, f) ↦ record {
          stage = stage;
          partition = p;
          has_stage = e;
          has_partition = f;
          known = ground arith;
          fits = ground arith;
          fresh = ground arith;
          exchanged = ground arith;
          updated = ground arith;
        }
      ]
    ]

-- The owner's name in a report that is taken.
pub task_eq_iff : (a b : TaskAttemptId) → (task_eq a b ≡ true) ↔ (a ≡ b)
unfolding task_eq
task_eq_iff a b = ground (arith, key_eq_iff a.query_id b.query_id)

settle_active-Route :
    (maximum : ℕ) (task : TaskAttemptId) (owner : WorkerId) (lease : TaskLease) (started : Option ℕ)
    (state : TaskState) (at : ℕ) (u : Updated)
    → maximum ≤ u32_max
    → settle_active maximum task owner lease started state at ≡ ok u
    → Route (PartitionRuntime.active task owner lease started) u.partition
unfolding settle_active
settle_active-Route maximum task owner lease none (TaskState.running s) at u b h =
    let e : u.partition ≡ PartitionRuntime.active task owner lease (some s) = ground arith in
    rw e (onward here start)
settle_active-Route maximum task owner lease (some x) (TaskState.running s) at u b h =
    let e : u.partition ≡ PartitionRuntime.active task owner lease (some x) = ground arith in
    rw e (onward here start)
settle_active-Route maximum task owner lease started (TaskState.succeeded f blocks) at u b h =
    let e : u.partition ≡ PartitionRuntime.succeeded task blocks = ground arith in
    rw e (onward here commit)
settle_active-Route maximum task owner lease started (TaskState.failed f error true) at u b h =
    let e : u.partition ≡ retry_or_fail maximum task.attempt error = ground arith in
    rw e (retry_or_fail-Route maximum error task owner lease started b)
settle_active-Route maximum task owner lease started (TaskState.failed f error false) at u b h =
    let e : u.partition ≡ PartitionRuntime.failed task.attempt error false = ground arith in
    rw e (onward here (give_up refl))
settle_active-Route maximum task owner lease started (TaskState.cancelled f reason) at u b h =
    let e : u.partition ≡ PartitionRuntime.cancelled = ground arith in rw e (onward here withdraw)

settle_cancelling-Route :
    (current : TaskAttemptId) (owner : WorkerId) (lease : TaskLease) (state : TaskState) (at : ℕ)
    (u : Updated)
    → settle_cancelling current owner lease state at ≡ ok u
    → Route (PartitionRuntime.cancelling current owner lease) u.partition
unfolding settle_cancelling
settle_cancelling-Route current owner lease (TaskState.running s) at u h =
    let e : u.partition ≡ PartitionRuntime.cancelling current owner lease = ground arith in
    rw e here
settle_cancelling-Route current owner lease _ at u h =
    let e : u.partition ≡ PartitionRuntime.cancelled = ground arith in rw e (onward here settle)

-- A report that is taken on an active partition comes from the owner of the lease, in time, and is
-- about the attempt that runs.
pub update_active :
    (maximum : ℕ) (worker_id : WorkerId) (task : TaskAttemptId) (state : TaskState) (at : ℕ)
    (current : TaskAttemptId) (owner : WorkerId) (lease : TaskLease) (started : Option ℕ)
    (u : Updated)
    → update_partition maximum worker_id task state at
        (PartitionRuntime.active current owner lease started)
      ≡ ok u
    → (current ≡ task)
      × (owner ≡ worker_id)
      × (lease.worker_id ≡ worker_id)
      × (at < lease.expires_at_ms)
      × (settle_active maximum task owner lease started state at ≡ ok u)
unfolding update_partition
update_active maximum worker_id task state at current owner lease started u h = (
  (task_eq_iff current task).0 (ground arith),
  (key_eq_iff owner worker_id).0 (ground arith),
  (key_eq_iff lease.worker_id worker_id).0 (ground arith),
  ground arith,
  ground arith,
)

pub update_cancelling :
    (maximum : ℕ) (worker_id : WorkerId) (task : TaskAttemptId) (state : TaskState) (at : ℕ)
    (current : TaskAttemptId) (owner : WorkerId) (lease : TaskLease) (u : Updated)
    → update_partition maximum worker_id task state at
        (PartitionRuntime.cancelling current owner lease)
      ≡ ok u
    → (current ≡ task)
      × (owner ≡ worker_id)
      × (lease.worker_id ≡ worker_id)
      × (settle_cancelling current owner lease state at ≡ ok u)
unfolding update_partition
update_cancelling maximum worker_id task state at current owner lease u h = (
  (task_eq_iff current task).0 (ground arith),
  (key_eq_iff owner worker_id).0 (ground arith),
  (key_eq_iff lease.worker_id worker_id).0 (ground arith),
  ground arith,
)

pub update_partition-Route :
    (maximum : ℕ) (worker_id : WorkerId) (task : TaskAttemptId) (state : TaskState) (at : ℕ)
    (p : PartitionRuntime) (u : Updated)
    → maximum ≤ u32_max
    → update_partition maximum worker_id task state at p ≡ ok u
    → Route p u.partition
update_partition-Route maximum worker_id task state at (PartitionRuntime.active t w l s) u b h =
    let (same, _, _, _, rest) = update_active maximum worker_id task state at t w l s u h in
    rw same (settle_active-Route maximum task w l s state at u b rest)
update_partition-Route maximum worker_id task state at (PartitionRuntime.cancelling t w l) u b h =
    let (_, _, _, rest) = update_cancelling maximum worker_id task state at t w l u h in
    settle_cancelling-Route t w l state at u rest
update_partition-Route maximum worker_id task state at (PartitionRuntime.pending n) u b h =
    unfold update_partition in absurd (ground (arith, h))
update_partition-Route maximum worker_id task state at (PartitionRuntime.succeeded t bl) u b h =
    unfold update_partition in absurd (ground (arith, h))
update_partition-Route maximum worker_id task state at (PartitionRuntime.failed n e r) u b h =
    unfold update_partition in absurd (ground (arith, h))
update_partition-Route maximum worker_id task state at PartitionRuntime.cancelled u b h =
    unfold update_partition in absurd (ground (arith, h))
