-- ===== src/Coordinator/Reports.antt =====
-- src/cluster/coordinator.rs, `record_task_update`: who may report on a partition, and what an
-- accepted report does to it.
use spark_x_distributed_quer.Base.{
  ℕ, ◌<◌, ◌≡◌, some, List, arith, str_ord, nat_ord, pair_ord, key_eq_self, get_elem?, get_elem?-set,
  Option, some_eq, sym, ap, ◌∙◌, Bool-cases, inl, inr, if◌then◌else◌,
}
use spark_x_distributed_quer.BTreeMap.{get}
use spark_x_distributed_quer.BTreeMap.Laws.{get-modify}
use spark_x_distributed_quer.Error.{ok}
use spark_x_distributed_quer.Error.Exec.{proceed-eq-ok}
use spark_x_distributed_quer.Protocol.{WorkerId, TaskAttemptId, TaskLease, TaskState, ShuffleBlock}
use spark_x_distributed_quer.Coordinator.State.{
  PartitionRuntime, StageKey, StageRuntime, Coordinator, is_active,
}
use spark_x_distributed_quer.Coordinator.Time.{set_partition}
use spark_x_distributed_quer.Coordinator.Updates.{
  Updated, check_update, update_partition, settle_active, settle_cancelling, apply_update,
  record_task_update,
}
use spark_x_distributed_quer.Coordinator.Updates.Accepted.{
  Found, check_update-Found, update_active, update_cancelling,
}
use spark_x_distributed_quer.Coordinator.Lifecycle.{partition_at}

-- The worker holds the partition's lease, for exactly this attempt; if the task is active, the lease
-- still runs.
pub data Holds (w : WorkerId) (task : TaskAttemptId) (at : ℕ) : PartitionRuntime → Type 0 where
  runs :
      {lease : TaskLease} {started : Option ℕ}
      → lease.worker_id ≡ w
      → at < lease.expires_at_ms
      → Holds w task at (PartitionRuntime.active task w lease started)
  stops :
      {lease : TaskLease}
      → lease.worker_id ≡ w
      → Holds w task at (PartitionRuntime.cancelling task w lease)

update_partition-Holds :
    (maximum : ℕ) (w : WorkerId) (task : TaskAttemptId) (state : TaskState) (at : ℕ)
    (p : PartitionRuntime) (u : Updated)
    → update_partition maximum w task state at p ≡ ok u
    → Holds w task at p
update_partition-Holds maximum w task state at (PartitionRuntime.active t o l s) u h =
    let (same, owner, leased, due, _) = update_active maximum w task state at t o l s u h in
    rw (same, owner) (runs leased due)
update_partition-Holds maximum w task state at (PartitionRuntime.cancelling t o l) u h =
    let (same, owner, leased, _) = update_cancelling maximum w task state at t o l u h in
    rw (same, owner) (stops leased)
update_partition-Holds maximum w task state at (PartitionRuntime.pending n) u h =
    unfold update_partition in absurd (ground (arith, h))
update_partition-Holds maximum w task state at (PartitionRuntime.succeeded t bl) u h =
    unfold update_partition in absurd (ground (arith, h))
update_partition-Holds maximum w task state at (PartitionRuntime.failed n e r) u h =
    unfold update_partition in absurd (ground (arith, h))
update_partition-Holds maximum w task state at PartitionRuntime.cancelled u h =
    unfold update_partition in absurd (ground (arith, h))

accepted_update :
    (w : WorkerId) (task : TaskAttemptId) (state : TaskState) (at : ℕ) (c : Coordinator)
    → (record_task_update w task state at c).0 ≡ ok tt
    → (u : Updated) × (check_update c w task state at ≡ ok u)
unfolding record_task_update
accepted_update w task state at c h =
    let (u, e, _) =
      proceed-eq-ok (check_update c w task state at) (λ u d. (ok tt, apply_update w task u d)) c
        h in
    (u, e)

Found-at :
    (c : Coordinator) (w : WorkerId) (task : TaskAttemptId) (state : TaskState) (at : ℕ)
    (u : Updated)
    → (f : Found c w task state at u)
    → partition_at c (task.query_id, task.stage_id) task.partition_id ≡ some f.partition
unfolding partition_at
Found-at c w task state at u f = rw f.has_stage f.has_partition

-- A report is accepted only from the worker that holds the lease of the partition's current attempt,
-- before that lease expires while the task is active; the partition is one that is active or stopping.
pub accepted_report_is_authorized :
    (w : WorkerId) (task : TaskAttemptId) (state : TaskState) (at : ℕ) (c : Coordinator)
    → (record_task_update w task state at c).0 ≡ ok tt
    → (p : PartitionRuntime) × (partition_at c (task.query_id, task.stage_id) task.partition_id
        ≡ some p)
      × Holds w task at p
accepted_report_is_authorized w task state at c h =
    let (u, e) = accepted_update w task state at c h in
    let f = check_update-Found c w task state at u e in
    (
      f.partition,
      Found-at c w task state at u f,
      update_partition-Holds c.config.max_task_attempts w task state at f.partition u f.updated,
    )

apply_update-at :
    (w : WorkerId) (task : TaskAttemptId) (u : Updated) (c : Coordinator) (stage : StageRuntime)
    (p : PartitionRuntime)
    → get (task.query_id, task.stage_id) c.stages ≡ some stage
    → get_elem? stage.partitions task.partition_id ≡ some p
    → partition_at (apply_update w task u c) (task.query_id, task.stage_id) task.partition_id
      ≡ some u.partition
unfolding apply_update partition_at
apply_update-at w task u c stage p h g =
    let k : StageKey = (task.query_id, task.stage_id) in
    let there = get-modify k k (set_partition task.partition_id u.partition) c.stages in
    let now = get_elem?-set stage.partitions task.partition_id task.partition_id u.partition g in
    elim (Bool-cases u.releases) [
      | inl freed ↦ rw (freed, apply_update) (ground (arith, there, now, key_eq_self k, h))
      | inr kept ↦ rw (kept, apply_update) (ground (arith, there, now, key_eq_self k, h))
    ]

updated_by_success :
    (maximum : ℕ) (w : WorkerId) (task : TaskAttemptId) (finished at : ℕ)
    (blocks : List ShuffleBlock) (p : PartitionRuntime) (u : Updated)
    → update_partition maximum w task (TaskState.succeeded finished blocks) at p ≡ ok u
    → u.partition
      ≡ (if is_active p then PartitionRuntime.succeeded task blocks else PartitionRuntime.cancelled)
updated_by_success maximum w task finished at blocks (PartitionRuntime.active t o l s) u h =
    let (_, _, _, _, e) =
      update_active maximum w task (TaskState.succeeded finished blocks) at t o l s u h in
    unfold settle_active in ground arith
updated_by_success maximum w task finished at blocks (PartitionRuntime.cancelling t o l) u h =
    let (_, _, _, e) =
      update_cancelling maximum w task (TaskState.succeeded finished blocks) at t o l u h in
    unfold settle_cancelling in ground arith
updated_by_success maximum w task finished at blocks (PartitionRuntime.pending n) u h =
    unfold update_partition in absurd (ground (arith, h))
updated_by_success maximum w task finished at blocks (PartitionRuntime.succeeded t bl) u h =
    unfold update_partition in absurd (ground (arith, h))
updated_by_success maximum w task finished at blocks (PartitionRuntime.failed n e r) u h =
    unfold update_partition in absurd (ground (arith, h))
updated_by_success maximum w task finished at blocks PartitionRuntime.cancelled u h =
    unfold update_partition in absurd (ground (arith, h))

-- An accepted report of success commits: if the task was active, the partition has succeeded with
-- exactly the reported blocks; if it was to stop, it is cancelled and the blocks are dropped.
pub accepted_success_commits :
    (w : WorkerId) (task : TaskAttemptId) (finished at : ℕ) (blocks : List ShuffleBlock)
    (c : Coordinator) (p : PartitionRuntime)
    → partition_at c (task.query_id, task.stage_id) task.partition_id ≡ some p
    → (record_task_update w task (TaskState.succeeded finished blocks) at c).0 ≡ ok tt
    → partition_at
        (record_task_update w task (TaskState.succeeded finished blocks) at c).1
        (task.query_id, task.stage_id)
        task.partition_id
      ≡ some (
          if is_active p
          then PartitionRuntime.succeeded task blocks
          else PartitionRuntime.cancelled)
unfolding record_task_update partition_at
accepted_success_commits w task finished at blocks c p here h =
    let state = TaskState.succeeded finished blocks in
    let (u, e) = accepted_update w task state at c h in
    let f = check_update-Found c w task state at u e in
    let same : f.partition ≡ p = some_eq (sym (Found-at c w task state at u f) ∙ here) in
    rw (e, record_task_update)
      (apply_update-at w task u c f.stage f.partition f.has_stage f.has_partition
        ∙ ap some (
            updated_by_success c.config.max_task_attempts w task finished at blocks p u
              (rw same at f.updated)))
