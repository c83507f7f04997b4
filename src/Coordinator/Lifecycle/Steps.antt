-- ===== src/Coordinator/Lifecycle/Steps.antt =====
-- src/cluster/coordinator.rs: reports, assignments and whole calls keep to the diagram.
use spark_x_distributed_quer.Base.{
  ℕ, ◌≡◌, ◌≤◌, refl, ◌∙◌, some, List, arith, u32_max, str_ord, nat_ord, pair_ord,
}
use spark_x_distributed_quer.BTreeMap.{modify, Distinct}
use spark_x_distributed_quer.BTreeMap.Laws.{Distinct-modify}
use spark_x_distributed_quer.Error.{ok}
use spark_x_distributed_quer.Error.Exec.{proceed-keeps}
use spark_x_distributed_quer.Protocol.{
  WorkerId, WorkerRegistration, WorkerHeartbeat, TaskAttemptId, TaskState, PlanCodec,
}
use spark_x_distributed_quer.Coordinator.State.{PartitionRuntime, StageKey, Coordinator}
use spark_x_distributed_quer.Coordinator.Time.{set_partition}
use spark_x_distributed_quer.Coordinator.Workers.{register_worker, record_heartbeat}
use spark_x_distributed_quer.Coordinator.Assign.Keeps.{assign_to_worker-keeps}
use spark_x_distributed_quer.Coordinator.Assign.{
  Selection, next_pending_partition, select, write_lease, assign_to_worker,
}
use spark_x_distributed_quer.Coordinator.Assign.Selected.{
  next_pending_partition-IsChosen, select-IsSelection,
}
use spark_x_distributed_quer.Coordinator.Updates.{
  Updated, check_update, apply_update, record_task_update,
}
use spark_x_distributed_quer.Coordinator.Updates.Accepted.{
  check_update-Found, update_partition-Route,
}
use spark_x_distributed_quer.Coordinator.Calls.{Call, run}
use spark_x_distributed_quer.Coordinator.Keeps.{Kept, run_keeps}
use spark_x_distributed_quer.Coordinator.Lifecycle.{here, onward, lease}
use spark_x_distributed_quer.Coordinator.Lifecycle.Writes.{Moves-set}
use spark_x_distributed_quer.Coordinator.Lifecycle.Evolves.{
  Evolves, Evolves-refl, Evolves-stages, advance_time-Evolves, cancel-Evolves, submit_stage-Evolves,
}

-- A write to the workers alone.
Evolves-workers :
    (c s t : Coordinator) → Evolves c s → t.config ≡ s.config → t.stages ≡ s.stages → Evolves c t
Evolves-workers c s t e f g = record {
  config = f ∙ e.config;
  distinct = rw g e.distinct;
  moves = rw g e.moves;
}

pub register_worker-Evolves :
    (c s : Coordinator) (r : WorkerRegistration) (at : ℕ)
    → Evolves c s
    → Evolves c (register_worker r at s).1
register_worker-Evolves c s r at e =
    Evolves-workers c s _ e (unfold register_worker in ground arith)
      (unfold register_worker in ground arith)

pub record_heartbeat-Evolves :
    (c s : Coordinator) (h : WorkerHeartbeat) (at : ℕ)
    → Evolves c s
    → Evolves c (record_heartbeat h at s).1
record_heartbeat-Evolves c s h at e =
    Evolves-workers c s _ e (unfold record_heartbeat in ground arith)
      (unfold record_heartbeat in ground arith)

pub apply_update_keeps :
    (s : Coordinator) (worker_id : WorkerId) (task : TaskAttemptId) (u : Updated)
    → ((apply_update worker_id task u s).config ≡ s.config)
      × ((apply_update worker_id task u s).stages
          ≡ modify
              (task.query_id, task.stage_id)
              (set_partition task.partition_id u.partition)
              s.stages)
unfolding apply_update
apply_update_keeps s worker_id task u = ground arith

pub record_task_update-Evolves :
    (c s : Coordinator) (worker_id : WorkerId) (task : TaskAttemptId) (state : TaskState) (at : ℕ)
    → c.config.max_task_attempts ≤ u32_max
    → Evolves c s
    → Evolves c (record_task_update worker_id task state at s).1
unfolding record_task_update
record_task_update-Evolves c s worker_id task state at b e =
    proceed-keeps (Evolves c) (check_update s worker_id task state at)
      (λ u d. (ok tt, apply_update worker_id task u d)) s e
      λ u passed.
        let f = check_update-Found s worker_id task state at u passed in
        let (same, stages) = apply_update_keeps s worker_id task u in
        Evolves-stages c s _ e same (rw stages (Distinct-modify _ _ s.stages e.distinct)) (
          rw stages (
            Moves-set s.stages _ f.stage task.partition_id f.partition u.partition f.has_stage
              f.has_partition
              (update_partition-Route _ worker_id task state at f.partition u (rw e.config b)
                f.updated)))

write_lease-Evolves :
    (c s : Coordinator) (worker_id : WorkerId) (now_ms : ℕ) (key : StageKey) (index attempt : ℕ)
    (x : Selection)
    → next_pending_partition s ≡ some (key, index, attempt)
    → select s worker_id now_ms key index attempt ≡ ok x
    → Evolves c s
    → Evolves c (write_lease worker_id x s)
write_lease-Evolves c s worker_id now_ms key index attempt x chosen selected e =
    let p = next_pending_partition-IsChosen s key index attempt e.distinct chosen in
    let q = select-IsSelection s worker_id now_ms key index attempt x selected in
    Evolves-stages c s (write_lease worker_id x s) e (unfold write_lease in refl)
      (unfold write_lease in Distinct-modify _ _ s.stages e.distinct)
      (unfold write_lease in
        rw (q.same_key, q.same_index)
          (Moves-set s.stages key p.stage index (PartitionRuntime.pending attempt) _ p.has_stage
            p.is_pending (onward here (lease q.next))))

pub assign_to_worker-Evolves :
    (codec : PlanCodec) (c s : Coordinator) (worker_id : WorkerId) (now_ms : ℕ)
    → Evolves c s
    → Evolves c (assign_to_worker codec worker_id now_ms s).1
assign_to_worker-Evolves codec c s worker_id now_ms e =
    assign_to_worker-keeps (Evolves c) codec worker_id now_ms s e
      λ key index attempt x chosen selected.
        write_lease-Evolves c s worker_id now_ms key index attempt x chosen selected e

-- Every method keeps to the diagram from where a coordinator began.
kept :
    (codec : PlanCodec) (c : Coordinator)
    → c.config.max_task_attempts ≤ u32_max
    → Kept codec (Evolves c)
kept codec c b = record {
  by_register = λ r at s e. register_worker-Evolves c s r at e;
  by_heartbeat = λ h at s e. record_heartbeat-Evolves c s h at e;
  by_update = λ w t state at s e. record_task_update-Evolves c s w t state at b e;
  by_submit = λ stage s e. submit_stage-Evolves codec c s stage e;
  by_assign = λ w now_ms s e. assign_to_worker-Evolves codec c s w now_ms e;
  by_cancel = λ q reason s e. cancel-Evolves codec c s q reason e;
  by_time = λ now_ms s e. advance_time-Evolves c s now_ms b e;
}

-- A history of calls.
pub run-Evolves :
    (codec : PlanCodec) (c : Coordinator) (calls : List Call)
    → c.config.max_task_attempts ≤ u32_max
    → Distinct c.stages
    → Evolves c (run codec c calls)
run-Evolves codec c calls b d =
    run_keeps codec (Evolves c) (kept codec c b) c calls (Evolves-refl c d)
