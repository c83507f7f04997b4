-- ===== src/Coordinator/Commit.antt =====
-- src/cluster/coordinator.rs: what a history of calls does to one partition.
use spark_x_distributed_quer.Base.{ℕ, ◌≡◌, ◌≤◌, refl, some, List, [], arith, u32_max}
use spark_x_distributed_quer.Error.{ok}
use spark_x_distributed_quer.Protocol.{PlanCodec, TaskAttemptId, ShuffleBlock}
use spark_x_distributed_quer.Coordinator.State.{
  PartitionRuntime, StageKey, CoordinatorConfig, Coordinator, new,
}
use spark_x_distributed_quer.Coordinator.Calls.{Call, run}
use spark_x_distributed_quer.Coordinator.Lifecycle.{
  Follows, partition_at, Route-succeeded, Route-attempt, attempt_of, NotBefore,
}
use spark_x_distributed_quer.Coordinator.Lifecycle.Evolves.{Evolves}
use spark_x_distributed_quer.Coordinator.Lifecycle.Steps.{run-Evolves}

-- A new coordinator is empty and has the configuration that it was given.
pub new-fields :
    (config : CoordinatorConfig) {c : Coordinator}
    → new config ≡ ok c
    → (c.config ≡ config) × (c.stages ≡ []) × (c.workers ≡ []) × (c.cancelled_queries ≡ [])
unfolding new
new-fields config h = ground arith

module _ (codec : PlanCodec) (config : CoordinatorConfig) {c : Coordinator}
    (started : new config ≡ ok c) (ranged : config.max_task_attempts ≤ u32_max) where
  pub after_run-Evolves :
      (calls later : List Call) → Evolves (run codec c calls) (run codec (run codec c calls) later)
  after_run-Evolves calls later =
      let (same, empty, _, _) = new-fields config started in
      let first = run-Evolves codec c calls (rw same ranged) (rw empty tt) in
      run-Evolves codec (run codec c calls) later (rw first.config (rw same ranged)) first.distinct

  -- Whatever calls a new coordinator has served, and whatever calls follow: a partition that is
  -- there stays there, and moves only along the edges of the life cycle (pending, active, succeeded,
  -- failed, cancelling, cancelled, and back to pending for the next attempt).
  pub run-Follows :
      (calls later : List Call) (key : StageKey) (i : ℕ) (p : PartitionRuntime)
      → partition_at (run codec c calls) key i ≡ some p
      → Follows p (partition_at (run codec (run codec c calls) later) key i)
  unfolding partition_at
  run-Follows calls later key i p h = (after_run-Evolves calls later).moves key i p h

  -- Whatever calls follow, a partition that has succeeded keeps its task attempt and exactly the
  -- output blocks that it committed: there is no second commit, no retry and no cancellation.
  pub committed_output_is_final :
      (calls later : List Call) (key : StageKey) (i : ℕ) (task : TaskAttemptId)
      (blocks : List ShuffleBlock)
      → partition_at (run codec c calls) key i ≡ some (PartitionRuntime.succeeded task blocks)
      → partition_at (run codec (run codec c calls) later) key i
        ≡ some (PartitionRuntime.succeeded task blocks)
  committed_output_is_final calls later key i task blocks h =
      let f = run-Follows calls later key i _ h in cc (f.is_there, Route-succeeded f.route refl)

  -- The attempt number of a partition never falls, until the partition is cancelled; a cancelled
  -- partition stays cancelled.
  pub attempts_never_fall :
      (calls later : List Call) (key : StageKey) (i : ℕ) (p : PartitionRuntime)
      → partition_at (run codec c calls) key i ≡ some p
      → (q : PartitionRuntime) × (partition_at (run codec (run codec c calls) later) key i ≡ some q)
        × NotBefore (attempt_of p) (attempt_of q)
  attempts_never_fall calls later key i p h =
      let f = run-Follows calls later key i p h in (f.to, f.is_there, Route-attempt f.route)
