-- ===== src/Coordinator/Attempts/Limit.antt =====
-- src/cluster/coordinator.rs: every method keeps the bound on attempts.
use spark_x_distributed_quer.Base.{
  ℕ, ◌<◌, ◌≡◌, subst, none, some, Option, All, arith, get_elem?, true, false, str_ord, nat_ord,
  pair_ord,
}
use spark_x_distributed_quer.BTreeMap.{get, modify}
use spark_x_distributed_quer.BTreeMap.Entries.{Entries-get, Entries-modify}
use spark_x_distributed_quer.Error.{ok}
use spark_x_distributed_quer.Protocol.{WorkerId, TaskAttemptId, TaskLease, TaskState}
use spark_x_distributed_quer.Coordinator.State.{
  PartitionRuntime, StageKey, StageRuntime, Coordinator,
}
use spark_x_distributed_quer.Coordinator.Time.{set_partition}
use spark_x_distributed_quer.Coordinator.Updates.{
  Updated, settle_active, settle_cancelling, update_partition,
}
use spark_x_distributed_quer.Coordinator.Updates.Accepted.{update_active, update_cancelling}
use spark_x_distributed_quer.Coordinator.Attempts.{
  IsBelow, AllBelow, retry_or_fail-IsBelow, All-set, All-get,
}

settle_active-IsBelow :
    (maximum : ℕ) (task : TaskAttemptId) (owner : WorkerId) (lease : TaskLease) (started : Option ℕ)
    (state : TaskState) (at : ℕ) (u : Updated)
    → task.attempt < maximum
    → settle_active maximum task owner lease started state at ≡ ok u
    → IsBelow maximum u.partition
unfolding settle_active
settle_active-IsBelow maximum task owner lease none (TaskState.running s) at u b h = ground arith
settle_active-IsBelow maximum task owner lease (some x) (TaskState.running s) at u b h =
    ground arith
settle_active-IsBelow maximum task owner lease started (TaskState.succeeded f blocks) at u b h =
    ground arith
settle_active-IsBelow maximum task owner lease started (TaskState.failed f error true) at u b h =
    ground (arith, retry_or_fail-IsBelow maximum task.attempt error b)
settle_active-IsBelow maximum task owner lease started (TaskState.failed f error false) at u b h =
    ground arith
settle_active-IsBelow maximum task owner lease started (TaskState.cancelled f reason) at u b h =
    ground arith

settle_cancelling-IsBelow :
    (maximum : ℕ) (current : TaskAttemptId) (owner : WorkerId) (lease : TaskLease)
    (state : TaskState) (at : ℕ) (u : Updated)
    → current.attempt < maximum
    → settle_cancelling current owner lease state at ≡ ok u
    → IsBelow maximum u.partition
unfolding settle_cancelling
settle_cancelling-IsBelow maximum current owner lease (TaskState.running s) at u b h = ground arith
settle_cancelling-IsBelow maximum current owner lease _ at u b h = ground arith

pub update_partition-IsBelow :
    (maximum : ℕ) (w : WorkerId) (task : TaskAttemptId) (state : TaskState) (at : ℕ)
    (p : PartitionRuntime) (u : Updated)
    → IsBelow maximum p
    → update_partition maximum w task state at p ≡ ok u
    → IsBelow maximum u.partition
update_partition-IsBelow maximum w task state at (PartitionRuntime.active t o l s) u b h =
    let (same, _, _, _, rest) = update_active maximum w task state at t o l s u h in
    settle_active-IsBelow maximum task o l s state at u
      (subst (λ (x : TaskAttemptId). x.attempt < maximum) same b) rest
update_partition-IsBelow maximum w task state at (PartitionRuntime.cancelling t o l) u b h =
    let (_, _, _, rest) = update_cancelling maximum w task state at t o l u h in
    settle_cancelling-IsBelow maximum t o l state at u b rest
update_partition-IsBelow maximum w task state at (PartitionRuntime.pending n) u b h =
    unfold update_partition in absurd (ground (arith, h))
update_partition-IsBelow maximum w task state at (PartitionRuntime.succeeded t bl) u b h =
    unfold update_partition in absurd (ground (arith, h))
update_partition-IsBelow maximum w task state at (PartitionRuntime.failed n e r) u b h =
    unfold update_partition in absurd (ground (arith, h))
update_partition-IsBelow maximum w task state at PartitionRuntime.cancelled u b h =
    unfold update_partition in absurd (ground (arith, h))

-- One partition is written over.
pub set-AllBelow :
    (maximum : ℕ) (key : StageKey) (i : ℕ) (v : PartitionRuntime) (c : Coordinator)
    → IsBelow maximum v
    → AllBelow maximum c.stages
    → AllBelow maximum (modify key (set_partition i v) c.stages)
set-AllBelow maximum key i v c b h =
    Entries-modify (λ _ (stage : StageRuntime). All (IsBelow maximum) stage.partitions) key
      (set_partition i v) c.stages (λ stage _ a. All-set (IsBelow maximum) stage.partitions i v b a)
      h

pub partition-IsBelow :
    (maximum : ℕ) (key : StageKey) (i : ℕ) (c : Coordinator) {stage : StageRuntime}
    {p : PartitionRuntime}
    → get key c.stages ≡ some stage
    → get_elem? stage.partitions i ≡ some p
    → AllBelow maximum c.stages
    → IsBelow maximum p
partition-IsBelow maximum key i c {stage} e f h = All-get (IsBelow maximum) stage.partitions i f (
    Entries-get (λ _ (s : StageRuntime). All (IsBelow maximum) s.partitions) key c.stages stage h e)
