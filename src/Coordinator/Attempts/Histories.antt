-- ===== src/Coordinator/Attempts/Histories.antt =====
-- src/cluster/coordinator.rs: no history of calls goes past the bound on attempts.
use spark_x_distributed_quer.Base.{
  ℕ, ◌<◌, ◌≤◌, ◌≡◌, none, some, Option, List, All, All-replicate, arith, String, u32_max,
  Option-cases, inl, inr, str_ord, nat_ord, pair_ord,
}
use spark_x_distributed_quer.BTreeMap.{get}
use spark_x_distributed_quer.BTreeMap.Entries.{Entries-insert}
use spark_x_distributed_quer.Error.{ok}
use spark_x_distributed_quer.Error.Exec.{proceed-keeps}
use spark_x_distributed_quer.Protocol.{
  WorkerId, QueryId, StagePlan, PlanCodec, TaskAttemptId, TaskState, WorkerRegistration,
  WorkerHeartbeat,
}
use spark_x_distributed_quer.Coordinator.State.{
  PartitionRuntime, StageKey, StageRuntime, CoordinatorConfig, Coordinator, new,
}
use spark_x_distributed_quer.Coordinator.Workers.{register_worker, record_heartbeat}
use spark_x_distributed_quer.Coordinator.Submit.{submit_stage, check_stage, add_stage, new_stage}
use spark_x_distributed_quer.Coordinator.Time.{advance_time}
use spark_x_distributed_quer.Coordinator.Time.Expiry.{advance_time-stages}
use spark_x_distributed_quer.Coordinator.Assign.Keeps.{assign_to_worker-keeps}
use spark_x_distributed_quer.Coordinator.Assign.{
  Selection, next_pending_partition, select, write_lease, assign_to_worker,
}
use spark_x_distributed_quer.Coordinator.Assign.Selected.{
  next_pending_partition-IsChosen, select-IsSelection,
}
use spark_x_distributed_quer.Coordinator.Updates.{check_update, apply_update, record_task_update}
use spark_x_distributed_quer.Coordinator.Updates.Accepted.{check_update-Found}
use spark_x_distributed_quer.Coordinator.Cancel.{cancel, cancel_new, check_cancel}
use spark_x_distributed_quer.Coordinator.Calls.{Call, run}
use spark_x_distributed_quer.Coordinator.Lifecycle.{partition_at}
use spark_x_distributed_quer.Coordinator.Commit.{new-fields}
use spark_x_distributed_quer.Coordinator.Attempts.{
  IsBelow, AllBelow, expire_stages-AllBelow, cancel_stages-AllBelow,
}
use spark_x_distributed_quer.Coordinator.Attempts.Limit.{
  update_partition-IsBelow, set-AllBelow, partition-IsBelow,
}
use spark_x_distributed_quer.Coordinator.Keeps.{Kept, run_keeps}
use spark_x_distributed_quer.Coordinator.Lifecycle.Evolves.{
  Evolves, Evolves-refl, advance_time-Evolves, cancel-Evolves, submit_stage-Evolves,
}
use spark_x_distributed_quer.Coordinator.Lifecycle.Steps.{
  register_worker-Evolves, record_heartbeat-Evolves, record_task_update-Evolves,
  assign_to_worker-Evolves, apply_update_keeps,
}

-- A coordinator that began with `c` and whose partitions are below the bound on attempts.
record IsLimited (c s : Coordinator) : Type 0 where
  evolves : Evolves c s
  below : AllBelow c.config.max_task_attempts s.stages

module _ (codec : PlanCodec) (c : Coordinator) (positive : 0 < c.config.max_task_attempts)
    (ranged : c.config.max_task_attempts ≤ u32_max) where
  register_worker-IsLimited :
      (r : WorkerRegistration) (at : ℕ) (s : Coordinator)
      → IsLimited c s
      → IsLimited c (register_worker r at s).1
  register_worker-IsLimited r at s h = record {
    evolves = register_worker-Evolves c s r at h.evolves;
    below =
        let same : (register_worker r at s).1.stages ≡ s.stages =
          unfold register_worker in ground arith in
        rw same h.below;
  }

  record_heartbeat-IsLimited :
      (b : WorkerHeartbeat) (at : ℕ) (s : Coordinator)
      → IsLimited c s
      → IsLimited c (record_heartbeat b at s).1
  record_heartbeat-IsLimited b at s h = record {
    evolves = record_heartbeat-Evolves c s b at h.evolves;
    below =
        let same : (record_heartbeat b at s).1.stages ≡ s.stages =
          unfold record_heartbeat in ground arith in
        rw same h.below;
  }

  advance_time-IsLimited :
      (now_ms : ℕ) (s : Coordinator) → IsLimited c s → IsLimited c (advance_time now_ms s).1
  advance_time-IsLimited now_ms s h = record {
    evolves = advance_time-Evolves c s now_ms ranged h.evolves;
    below =
        rw (advance_time-stages now_ms s h.evolves.distinct, h.evolves.config)
          (expire_stages-AllBelow c.config.max_task_attempts now_ms _ s.stages h.below);
  }

  record_task_update-AllBelow :
      (w : WorkerId) (task : TaskAttemptId) (state : TaskState) (at : ℕ) (s : Coordinator)
      → IsLimited c s
      → AllBelow c.config.max_task_attempts (record_task_update w task state at s).1.stages
  unfolding record_task_update
  record_task_update-AllBelow w task state at s h =
      proceed-keeps (λ (d : Coordinator). AllBelow c.config.max_task_attempts d.stages)
        (check_update s w task state at) (λ u d. (ok tt, apply_update w task u d)) s h.below
        λ u passed.
          let f = check_update-Found s w task state at u passed in
          let (_, stages) = apply_update_keeps s w task u in
          let old =
            partition-IsBelow c.config.max_task_attempts _ task.partition_id s f.has_stage
              f.has_partition h.below in
          rw stages (
            set-AllBelow c.config.max_task_attempts _ task.partition_id u.partition s
              (update_partition-IsBelow c.config.max_task_attempts w task state at f.partition u old
                (rw h.evolves.config at f.updated))
              h.below)

  submit_stage-AllBelow :
      (stage : StagePlan) (s : Coordinator)
      → IsLimited c s
      → AllBelow c.config.max_task_attempts (submit_stage codec stage s).1.stages
  unfolding submit_stage add_stage new_stage
  submit_stage-AllBelow stage s h =
      proceed-keeps (λ (d : Coordinator). AllBelow c.config.max_task_attempts d.stages)
        (check_stage codec stage s) (λ _ d. (ok tt, add_stage stage d)) s h.below
        λ _ _.
          Entries-insert
            (λ _ (x : StageRuntime). All (IsBelow c.config.max_task_attempts) x.partitions)
            (stage.query_id, stage.stage_id) (new_stage stage) s.stages
            (All-replicate (IsBelow c.config.max_task_attempts) stage.partition_count
              (PartitionRuntime.pending 0) positive)
            h.below

  cancel_new-AllBelow :
      (q : QueryId) (reason : String) (before : Option String) (s : Coordinator)
      → AllBelow c.config.max_task_attempts s.stages
      → AllBelow c.config.max_task_attempts (cancel_new q reason before s).1.stages
  unfolding cancel_new
  cancel_new-AllBelow q reason none s h =
      cancel_stages-AllBelow c.config.max_task_attempts q s.stages h
  cancel_new-AllBelow q reason (some existing) s h = ground arith

  cancel-AllBelow :
      (q : QueryId) (reason : String) (s : Coordinator)
      → IsLimited c s
      → AllBelow c.config.max_task_attempts (cancel codec q reason s).1.stages
  unfolding cancel
  cancel-AllBelow q reason s h =
      proceed-keeps (λ (d : Coordinator). AllBelow c.config.max_task_attempts d.stages)
        (check_cancel codec q reason s) (λ _ d. cancel_new q reason (get q d.cancelled_queries) d) s
        h.below λ _ _. cancel_new-AllBelow q reason (get q s.cancelled_queries) s h.below

  write_lease-AllBelow :
      (w : WorkerId) (now_ms : ℕ) (key : StageKey) (index attempt : ℕ) (s : Coordinator)
      (x : Selection)
      → next_pending_partition s ≡ some (key, index, attempt)
      → select s w now_ms key index attempt ≡ ok x
      → IsLimited c s
      → AllBelow c.config.max_task_attempts (write_lease w x s).stages
  unfolding write_lease
  write_lease-AllBelow w now_ms key index attempt s x chosen selected h =
      let p = next_pending_partition-IsChosen s key index attempt h.evolves.distinct chosen in
      let q = select-IsSelection s w now_ms key index attempt x selected in
      let old : attempt < c.config.max_task_attempts =
        partition-IsBelow c.config.max_task_attempts key index s p.has_stage p.is_pending h.below in
      set-AllBelow c.config.max_task_attempts x.key x.index _ s (rw q.next old) h.below

  assign_to_worker-AllBelow :
      (w : WorkerId) (now_ms : ℕ) (s : Coordinator)
      → IsLimited c s
      → AllBelow c.config.max_task_attempts (assign_to_worker codec w now_ms s).1.stages
  assign_to_worker-AllBelow w now_ms s h =
      assign_to_worker-keeps (λ (d : Coordinator). AllBelow c.config.max_task_attempts d.stages)
        codec w now_ms s h.below
        λ key index attempt x chosen selected.
          write_lease-AllBelow w now_ms key index attempt s x chosen selected h

  kept : Kept codec (IsLimited c)
  kept = record {
    by_register = register_worker-IsLimited;
    by_heartbeat = record_heartbeat-IsLimited;
    by_update = λ w t state at s h. record {
      evolves = record_task_update-Evolves c s w t state at ranged h.evolves;
      below = record_task_update-AllBelow w t state at s h;
    };
    by_submit = λ stage s h. record {
      evolves = submit_stage-Evolves codec c s stage h.evolves;
      below = submit_stage-AllBelow stage s h;
    };
    by_assign = λ w now_ms s h. record {
      evolves = assign_to_worker-Evolves codec c s w now_ms h.evolves;
      below = assign_to_worker-AllBelow w now_ms s h;
    };
    by_cancel = λ q reason s h. record {
      evolves = cancel-Evolves codec c s q reason h.evolves;
      below = cancel-AllBelow q reason s h;
    };
    by_time = advance_time-IsLimited;
  }

-- A configuration that is accepted allows an attempt.
new-positive :
    (config : CoordinatorConfig) {c : Coordinator}
    → new config ≡ ok c
    → 0 < config.max_task_attempts
unfolding new
new-positive config h = ground arith

-- Whatever calls a new coordinator serves: the attempt that a partition waits for, runs, stops, failed
-- in or succeeded in has a number below the configured maximum, so no partition is tried more often.
pub attempts_are_limited :
    (codec : PlanCodec) (config : CoordinatorConfig) {c : Coordinator} (calls : List Call)
    (key : StageKey) (i : ℕ) (p : PartitionRuntime)
    → new config ≡ ok c
    → config.max_task_attempts ≤ u32_max
    → partition_at (run codec c calls) key i ≡ some p
    → IsBelow config.max_task_attempts p
unfolding partition_at
attempts_are_limited codec config {c} calls key i p started ranged h =
    let (same, empty, _, _) = new-fields config started in
    let positive : 0 < c.config.max_task_attempts = rw same (new-positive config started) in
    let bound : c.config.max_task_attempts ≤ u32_max = rw same ranged in
    let first : IsLimited c c = record {
      evolves = Evolves-refl c (rw empty tt);
      below = rw empty tt;
    } in
    let last = run_keeps codec (IsLimited c) (kept codec c positive bound) c calls first in
    elim (Option-cases (get key (run codec c calls).stages)) [
      | inl missing ↦ absurd (ground (arith, missing, h))
      | inr (stage, e) ↦ rw (← same) (
          partition-IsBelow c.config.max_task_attempts key i (run codec c calls) e (rw e at h)
            last.below)
    ]
