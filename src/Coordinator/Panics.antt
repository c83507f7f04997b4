-- ===== src/Coordinator/Panics.antt =====
-- src/cluster/coordinator.rs: the shape of the stages, which its `expect`s and indexings rely on.
pub mod Selections
pub mod Returns
pub mod Time
pub mod Leases
pub mod Histories
use spark_x_distributed_quer.Base.{
  ℕ, ◌≡◌, ◌≤◌, refl, ◌∙◌, none, some, Option, List, [], ◌∷◌, map, length, length-set, length-map,
  length-replicate, arith, String, u32_max, Option-cases, Bool-cases, inl, inr, str_ord, nat_ord,
  pair_ord, key_eq, if◌then◌else◌, replicate,
}
use spark_x_distributed_quer.BTreeMap.{BTreeMap, get, insert, modify, Distinct}
use spark_x_distributed_quer.BTreeMap.Entries.{Entries, Entries-insert, Entries-modify}
use spark_x_distributed_quer.Error.{ok}
use spark_x_distributed_quer.Error.Exec.{proceed, proceed-keeps}
use spark_x_distributed_quer.Protocol.{
  WorkerId, QueryId, StagePlan, PlanCodec, TaskAttemptId, TaskState, WorkerRegistration,
  WorkerHeartbeat, validate_coordinator_message,
}
use spark_x_distributed_quer.Coordinator.State.{
  PartitionRuntime, StageKey, StageRuntime, Coordinator,
}
use spark_x_distributed_quer.Coordinator.Workers.{register_worker, record_heartbeat}
use spark_x_distributed_quer.Coordinator.Submit.{submit_stage, check_stage, add_stage, new_stage}
use spark_x_distributed_quer.Coordinator.Time.{set_partition, advance_time}
use spark_x_distributed_quer.Coordinator.Time.Expiry.{expire, expire_stages, advance_time-stages}
use spark_x_distributed_quer.Coordinator.Assign.Keeps.{assign_to_worker-keeps}
use spark_x_distributed_quer.Coordinator.Assign.{
  Selection, next_pending_partition, select, write_lease, assignment, assign_selected,
  assign_to_worker,
}
use spark_x_distributed_quer.Coordinator.Updates.{check_update, apply_update, record_task_update}
use spark_x_distributed_quer.Coordinator.Cancel.{
  cancel, cancel_new, check_cancel, cancel_stages, cancel_partition,
}
use spark_x_distributed_quer.Coordinator.Keeps.{Kept}
use spark_x_distributed_quer.Coordinator.Lifecycle.Evolves.{
  Evolves, advance_time-Evolves, cancel-Evolves, submit_stage-Evolves,
}
use spark_x_distributed_quer.Coordinator.Lifecycle.Steps.{
  register_worker-Evolves, record_heartbeat-Evolves, record_task_update-Evolves,
  assign_to_worker-Evolves, apply_update_keeps,
}

-- A stage stands under its query, and has as many partitions as its plan says.
abbrev pub HasShape : StageKey → StageRuntime → Type 0
HasShape key stage =
    (stage.plan.query_id ≡ key.0) × (length stage.partitions ≡ stage.plan.partition_count)

abbrev pub AllShaped : BTreeMap StageKey StageRuntime → Type 0
AllShaped = Entries HasShape

set-AllShaped :
    (key : StageKey) (i : ℕ) (v : PartitionRuntime) (m : BTreeMap StageKey StageRuntime)
    → AllShaped m
    → AllShaped (modify key (set_partition i v) m)
set-AllShaped key i v m h =
    Entries-modify HasShape key (set_partition i v) m
      (λ stage _ a. (a.0, length-set stage.partitions i v ∙ a.1)) h

expire_stages-AllShaped :
    (maximum now_ms : ℕ) (silent : List WorkerId) (m : BTreeMap StageKey StageRuntime)
    → AllShaped m
    → AllShaped (expire_stages maximum now_ms silent m)
unfolding expire_stages
expire_stages-AllShaped maximum now_ms silent [] h = tt
expire_stages-AllShaped maximum now_ms silent ((key, stage) ∷ rest) h = (
  (h.0.0, length-map (expire maximum now_ms silent) stage.partitions ∙ h.0.1),
  expire_stages-AllShaped maximum now_ms silent rest h.1,
)

cancel_stages-AllShaped :
    (q : QueryId) (m : BTreeMap StageKey StageRuntime) → AllShaped m → AllShaped (cancel_stages q m)
unfolding cancel_stages
cancel_stages-AllShaped q [] h = tt
cancel_stages-AllShaped q ((key, stage) ∷ rest) h = elim (Bool-cases (key_eq key.0 q)) [
  | inl same ↦ rw same (
    (h.0.0, length-map cancel_partition stage.partitions ∙ h.0.1),
    cancel_stages-AllShaped q rest h.1,
  )
  | inr other ↦ rw other (h.0, cancel_stages-AllShaped q rest h.1)
]

-- A coordinator that began with `c` and whose stages have their shape.
pub record IsShaped (c s : Coordinator) : Type 0 where
  pub evolves : Evolves c s
  pub shaped : AllShaped s.stages

abbrev StagesShaped : Coordinator → Type 0
StagesShaped s = AllShaped s.stages

register_worker-stages :
    (r : WorkerRegistration) (at : ℕ) (s : Coordinator)
    → (register_worker r at s).1.stages ≡ s.stages
unfolding register_worker
register_worker-stages r at s = ground arith

record_heartbeat-stages :
    (b : WorkerHeartbeat) (at : ℕ) (s : Coordinator) → (record_heartbeat b at s).1.stages ≡ s.stages
unfolding record_heartbeat
record_heartbeat-stages b at s = ground arith

record_task_update-AllShaped :
    (w : WorkerId) (task : TaskAttemptId) (state : TaskState) (at : ℕ) (s : Coordinator)
    → AllShaped s.stages
    → AllShaped (record_task_update w task state at s).1.stages
unfolding record_task_update
record_task_update-AllShaped w task state at s h =
    proceed-keeps StagesShaped (check_update s w task state at)
      (λ u d. (ok tt, apply_update w task u d)) s h
      λ u _.
        let (_, stages) = apply_update_keeps s w task u in
        rw stages (set-AllShaped _ task.partition_id u.partition s.stages h)

submit_stage-AllShaped :
    (codec : PlanCodec) (stage : StagePlan) (s : Coordinator)
    → AllShaped s.stages
    → AllShaped (submit_stage codec stage s).1.stages
unfolding submit_stage add_stage new_stage
submit_stage-AllShaped codec stage s h =
    proceed-keeps StagesShaped (check_stage codec stage s) (λ _ d. (ok tt, add_stage stage d)) s h
      λ _ _.
        Entries-insert HasShape (stage.query_id, stage.stage_id) (new_stage stage) s.stages
          (refl, length-replicate stage.partition_count (PartitionRuntime.pending 0)) h

cancel_new-AllShaped :
    (q : QueryId) (reason : String) (before : Option String) (s : Coordinator)
    → AllShaped s.stages
    → AllShaped (cancel_new q reason before s).1.stages
unfolding cancel_new
cancel_new-AllShaped q reason none s h = cancel_stages-AllShaped q s.stages h
cancel_new-AllShaped q reason (some existing) s h = ground arith

cancel-AllShaped :
    (codec : PlanCodec) (q : QueryId) (reason : String) (s : Coordinator)
    → AllShaped s.stages
    → AllShaped (cancel codec q reason s).1.stages
unfolding cancel
cancel-AllShaped codec q reason s h =
    proceed-keeps StagesShaped (check_cancel codec q reason s)
      (λ _ d. cancel_new q reason (get q d.cancelled_queries) d) s h
      λ _ _. cancel_new-AllShaped q reason (get q s.cancelled_queries) s h

assign_to_worker-AllShaped :
    (codec : PlanCodec) (w : WorkerId) (now_ms : ℕ) (s : Coordinator)
    → AllShaped s.stages
    → AllShaped (assign_to_worker codec w now_ms s).1.stages
assign_to_worker-AllShaped codec w now_ms s h =
    assign_to_worker-keeps StagesShaped codec w now_ms s h λ key index attempt x chosen selected.
      unfold write_lease in set-AllShaped x.key x.index _ s.stages h

pub kept_shape :
    (codec : PlanCodec) (c : Coordinator)
    → c.config.max_task_attempts ≤ u32_max
    → Kept codec (IsShaped c)
kept_shape codec c ranged = record {
  by_register = λ r at s h. record {
    evolves = register_worker-Evolves c s r at h.evolves;
    shaped = rw (register_worker-stages r at s) h.shaped;
  };
  by_heartbeat = λ b at s h. record {
    evolves = record_heartbeat-Evolves c s b at h.evolves;
    shaped = rw (record_heartbeat-stages b at s) h.shaped;
  };
  by_update = λ w t state at s h. record {
    evolves = record_task_update-Evolves c s w t state at ranged h.evolves;
    shaped = record_task_update-AllShaped w t state at s h.shaped;
  };
  by_submit = λ stage s h. record {
    evolves = submit_stage-Evolves codec c s stage h.evolves;
    shaped = submit_stage-AllShaped codec stage s h.shaped;
  };
  by_assign = λ w now_ms s h. record {
    evolves = assign_to_worker-Evolves codec c s w now_ms h.evolves;
    shaped = assign_to_worker-AllShaped codec w now_ms s h.shaped;
  };
  by_cancel = λ q reason s h. record {
    evolves = cancel-Evolves codec c s q reason h.evolves;
    shaped = cancel-AllShaped codec q reason s h.shaped;
  };
  by_time = λ now_ms s h. record {
    evolves = advance_time-Evolves c s now_ms ranged h.evolves;
    shaped =
        rw (advance_time-stages now_ms s h.evolves.distinct)
          (expire_stages-AllShaped _ now_ms _ s.stages h.shaped);
  };
}
