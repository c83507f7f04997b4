-- ===== src/Coordinator/Keeps.antt =====
-- src/cluster/coordinator.rs: what every basic method keeps, every call and every history of calls
-- keeps.
use spark_x_distributed_quer.Base.{
  ℕ, none, some, List, [], ◌∷◌, Option, Bool, true, false, str_ord, String,
}
use spark_x_distributed_quer.BTreeMap.{get}
use spark_x_distributed_quer.Error.{ok_or}
use spark_x_distributed_quer.Error.Exec.{proceed, proceed-keeps}
use spark_x_distributed_quer.Protocol.{
  QueryId, WorkerId, StagePlan, PlanCodec, TaskAttemptId, TaskState, WorkerMessage,
  WorkerRegistration, WorkerHeartbeat, validate_worker_message,
}
use spark_x_distributed_quer.Coordinator.State.{Coordinator, coordinator_error}
use spark_x_distributed_quer.Coordinator.Workers.{register_worker, record_heartbeat}
use spark_x_distributed_quer.Coordinator.Submit.{submit_stage}
use spark_x_distributed_quer.Coordinator.Time.{advance_time}
use spark_x_distributed_quer.Coordinator.Assign.{assign_to_worker}
use spark_x_distributed_quer.Coordinator.Updates.{record_task_update}
use spark_x_distributed_quer.Coordinator.Cancel.{cancel}
use spark_x_distributed_quer.Coordinator.Calls.{
  Call, submits, receives, polls, polls_for, cancels, advances, dispatch, handle_worker_message,
  first_available, assign_first, has_capacity, assign_if, next_assignment, next_assignment_for,
  step, run,
}

-- A predicate that the basic methods keep.
pub record Kept {ℓ} (codec : PlanCodec) (P : Coordinator → Type ℓ) : Type ℓ where
  pub by_register :
      (r : WorkerRegistration) (at : ℕ) (c : Coordinator) → P c → P (register_worker r at c).1
  pub by_heartbeat :
      (h : WorkerHeartbeat) (at : ℕ) (c : Coordinator) → P c → P (record_heartbeat h at c).1
  pub by_update :
      (w : WorkerId) (t : TaskAttemptId) (s : TaskState) (at : ℕ) (c : Coordinator)
      → P c
      → P (record_task_update w t s at c).1
  pub by_submit : (stage : StagePlan) (c : Coordinator) → P c → P (submit_stage codec stage c).1
  pub by_assign :
      (w : WorkerId) (now_ms : ℕ) (c : Coordinator) → P c → P (assign_to_worker codec w now_ms c).1
  pub by_cancel :
      (q : QueryId) (reason : String) (c : Coordinator) → P c → P (cancel codec q reason c).1
  pub by_time : (now_ms : ℕ) (c : Coordinator) → P c → P (advance_time now_ms c).1

module _ {ℓ} (codec : PlanCodec) (P : Coordinator → Type ℓ) (k : Kept codec P) where
  dispatch_keeps :
      (message : WorkerMessage) (at : ℕ) (c : Coordinator) → P c → P (dispatch message at c).1
  unfolding dispatch
  dispatch_keeps (WorkerMessage.register v r) at c h = k.by_register r at c h
  dispatch_keeps (WorkerMessage.heartbeat v r) at c h = k.by_heartbeat r at c h
  dispatch_keeps (WorkerMessage.task_update v w t s) at c h = k.by_update w t s at c h

  handle_worker_message_keeps :
      (message : WorkerMessage) (at : ℕ) (c : Coordinator)
      → P c
      → P (handle_worker_message message at c).1
  unfolding handle_worker_message
  handle_worker_message_keeps message at c h =
      proceed-keeps P (validate_worker_message message)
        (λ _ s. proceed (advance_time at s).0 (λ _ d. dispatch message at d) (advance_time at s).1)
        c h
        λ _ _.
          let later = k.by_time at c h in
          proceed-keeps P (advance_time at c).0 (λ _ d. dispatch message at d) (advance_time at c).1
            later (λ _ _. dispatch_keeps message at _ later)

  assign_first_keeps :
      (now_ms : ℕ) (o : Option WorkerId) (c : Coordinator)
      → P c
      → P (assign_first codec now_ms o c).1
  assign_first_keeps now_ms none c h = h
  assign_first_keeps now_ms (some w) c h = k.by_assign w now_ms c h

  assign_if_keeps :
      (w : WorkerId) (now_ms : ℕ) (free : Bool) (c : Coordinator)
      → P c
      → P (assign_if codec w now_ms free c).1
  assign_if_keeps w now_ms true c h = k.by_assign w now_ms c h
  assign_if_keeps w now_ms false c h = h

  next_assignment_keeps :
      (now_ms : ℕ) (c : Coordinator) → P c → P (next_assignment codec now_ms c).1
  unfolding next_assignment
  next_assignment_keeps now_ms c h =
      let later = k.by_time now_ms c h in
      proceed-keeps P (advance_time now_ms c).0
        (λ _ d. assign_first codec now_ms (first_available d.workers) d) (advance_time now_ms c).1
        later (λ _ _. assign_first_keeps now_ms _ _ later)

  next_assignment_for_keeps :
      (w : WorkerId) (now_ms : ℕ) (c : Coordinator)
      → P c
      → P (next_assignment_for codec w now_ms c).1
  unfolding next_assignment_for
  next_assignment_for_keeps w now_ms c h =
      let later = k.by_time now_ms c h in
      let s = (advance_time now_ms c).1 in
      let found = λ (d : Coordinator).
        ok_or (get w d.workers) (coordinator_error "unregistered worker requested an assignment") in
      proceed-keeps P (advance_time now_ms c).0
        (λ _ d. proceed (found d) (λ x f. assign_if codec w now_ms (has_capacity x) f) d) s later
        λ _ _.
          proceed-keeps P (found s) (λ x f. assign_if codec w now_ms (has_capacity x) f) s later
            (λ x _. assign_if_keeps w now_ms (has_capacity x) s later)

  step_keeps : (c : Coordinator) (call : Call) → P c → P (step codec c call)
  unfolding step
  step_keeps c (submits stage) h = k.by_submit stage c h
  step_keeps c (receives m at) h = handle_worker_message_keeps m at c h
  step_keeps c (polls at) h = next_assignment_keeps at c h
  step_keeps c (polls_for w at) h = next_assignment_for_keeps w at c h
  step_keeps c (cancels q reason) h = k.by_cancel q reason c h
  step_keeps c (advances at) h = k.by_time at c h

  pub run_keeps : (c : Coordinator) (calls : List Call) → P c → P (run codec c calls)
  unfolding run
  run_keeps c [] h = h
  run_keeps c (call ∷ calls) h = run_keeps (step codec c call) calls (step_keeps c call h)
