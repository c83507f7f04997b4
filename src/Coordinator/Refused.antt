-- ===== src/Coordinator/Refused.antt =====
-- src/cluster/coordinator.rs: a refused call.
use spark_x_distributed_quer.Coordinator.Calls.{dispatch, handle_worker_message}
use spark_x_distributed_quer.Coordinator.Time.{advance_time}
use spark_x_distributed_quer.Base.{
  ℕ, String, ◌≡◌, refl, Option-cases, inl, inr, arith, str_ord, nat_ord, pair_ord, if◌then◌else◌,
}
use spark_x_distributed_quer.BTreeMap.{get, modify}
use spark_x_distributed_quer.Error.{SparkXError, is_ok, Result, ok, err, panic, ok_or, ◌>>=◌}
use spark_x_distributed_quer.Error.Exec.{Exec, proceed, proceed-refused}
use spark_x_distributed_quer.Protocol.{
  QueryId, CoordinatorMessage, WorkerId, StagePlan, PlanCodec, TaskAttemptId, TaskState,
  WorkerRegistration, WorkerHeartbeat, WorkerMessage, validate_worker_message,
}
use spark_x_distributed_quer.Coordinator.State.{Coordinator, coordinator_error}
use spark_x_distributed_quer.Coordinator.Workers.{
  register_worker, record_heartbeat, check_heartbeat, active_tasks_for_worker, beat,
}
use spark_x_distributed_quer.Coordinator.Submit.{submit_stage, check_stage, add_stage}
use spark_x_distributed_quer.Coordinator.Updates.{record_task_update, check_update, apply_update}
use spark_x_distributed_quer.Coordinator.Cancel.{cancel, cancel_new, check_cancel}

module _ (c : Coordinator) (e : SparkXError) where
  refused_stage :
      (codec : PlanCodec) (stage : StagePlan)
      → (submit_stage codec stage c).0 ≡ err e
      → (submit_stage codec stage c).1 ≡ c
  unfolding submit_stage
  refused_stage codec stage h =
      proceed-refused (check_stage codec stage c) (λ _ d. (ok tt, add_stage stage d)) c
        (λ _ x. absurd (ground (arith, x))) h

  refused_report :
      (w : WorkerId) (task : TaskAttemptId) (state : TaskState) (at : ℕ)
      → (record_task_update w task state at c).0 ≡ err e
      → (record_task_update w task state at c).1 ≡ c
  unfolding record_task_update
  refused_report w task state at h =
      proceed-refused (check_update c w task state at) (λ u d. (ok tt, apply_update w task u d)) c
        (λ _ x. absurd (ground (arith, x))) h

  refused_registration :
      (registration : WorkerRegistration) (at : ℕ)
      → (register_worker registration at c).0 ≡ err e
      → (register_worker registration at c).1 ≡ c
  unfolding register_worker
  refused_registration registration at h = ground arith

  refused_heartbeat :
      (heartbeat : WorkerHeartbeat) (at : ℕ)
      → (record_heartbeat heartbeat at c).0 ≡ err e
      → (record_heartbeat heartbeat at c).1 ≡ c
  unfolding record_heartbeat
  refused_heartbeat heartbeat at h =
      proceed-refused
        (ok_or (get heartbeat.worker_id c.workers)
            (coordinator_error "heartbeat came from unregistered worker")
          >>= λ worker.
              check_heartbeat heartbeat (active_tasks_for_worker c heartbeat.worker_id) worker)
        (λ _ d.
          (ok tt, record d { workers = modify heartbeat.worker_id (beat heartbeat at) d.workers }))
        c (λ _ x. absurd (ground (arith, x))) h

  refused_cancel_new :
      (q : QueryId) (reason : String)
      → (cancel_new q reason (get q c.cancelled_queries) c).0 ≡ err e
      → (cancel_new q reason (get q c.cancelled_queries) c).1 ≡ c
  unfolding cancel_new
  refused_cancel_new q reason h = elim (Option-cases (get q c.cancelled_queries)) [
    | inl n ↦ absurd (ground (arith, n, h))
    | inr (x, f) ↦ rw f (ground arith)
  ]

  refused_cancel :
      (codec : PlanCodec) (q : QueryId) (reason : String)
      → (cancel codec q reason c).0 ≡ err e
      → (cancel codec q reason c).1 ≡ c
  unfolding cancel
  refused_cancel codec q reason h =
      proceed-refused (check_cancel codec q reason c)
        (λ _ d. cancel_new q reason (get q d.cancelled_queries) d) c
        (λ _. refused_cancel_new q reason) h

-- The calls that the coordinator may refuse.
pub data Change : Type 0 where
  submission : StagePlan → Change
  received : WorkerMessage → ℕ → Change
  cancellation : QueryId → String → Change

-- Whether a cancellation was accepted, without its message.
abbrev pub outcome : Result CoordinatorMessage × Coordinator → Result (Unit {0}) × Coordinator
outcome (ok m, s) = (ok tt, s)
outcome (err e, s) = (err e, s)
outcome (panic m, s) = (panic m, s)

unfoldable pub perform : PlanCodec → Change → Exec Coordinator (Unit {0})
unfolding submit_stage handle_worker_message cancel
perform codec (submission stage) c = submit_stage codec stage c
perform codec (received m at) c = handle_worker_message m at c
perform codec (cancellation q reason) c = outcome (cancel codec q reason c)

-- The coordinator at the time of a call: of a message that is valid, the time at which it came.
abbrev pub at_call : Change → Coordinator → Coordinator
at_call (submission stage) c = c
at_call (received m at) c = if is_ok (validate_worker_message m) then (advance_time at c).1 else c
at_call (cancellation q reason) c = c

refused_outcome :
    (r : Result CoordinatorMessage) (s c : Coordinator) (e : SparkXError)
    → (r ≡ err e → s ≡ c)
    → (outcome (r, s)).0 ≡ err e
    → (outcome (r, s)).1 ≡ c
refused_outcome (ok m) s c e f h = absurd (ground (arith, h))
refused_outcome (err d) s c e f h = f (ground (arith, h))
refused_outcome (panic m) s c e f h = absurd (ground (arith, h))

refused_dispatch :
    (m : WorkerMessage) (at : ℕ) (s : Coordinator) (e : SparkXError)
    → (dispatch m at s).0 ≡ err e
    → (dispatch m at s).1 ≡ s
unfolding dispatch
refused_dispatch (WorkerMessage.register v r) at s e h = refused_registration s e r at h
refused_dispatch (WorkerMessage.heartbeat v b) at s e h = refused_heartbeat s e b at h
refused_dispatch (WorkerMessage.task_update v w task state) at s e h =
    refused_report s e w task state at h

-- A message once it is checked.
refused_message :
    (r : Result (Unit {0})) (m : WorkerMessage) (at : ℕ) (c : Coordinator) (e : SparkXError)
    → (proceed r
        (λ _ d. proceed (advance_time at d).0 (λ _. dispatch m at) (advance_time at d).1)
        c).0
      ≡ err e
    → (proceed r
        (λ _ d. proceed (advance_time at d).0 (λ _. dispatch m at) (advance_time at d).1)
        c).1
      ≡ (if is_ok r then (advance_time at c).1 else c)
unfolding is_ok
refused_message (ok u) m at c e h =
    proceed-refused (advance_time at c).0 (λ _. dispatch m at) (advance_time at c).1
      (λ _. refused_dispatch m at (advance_time at c).1 e) h
refused_message (err d) m at c e h = refl
refused_message (panic x) m at c e h = refl

-- A submission or a cancellation that is refused with an error leaves the coordinator exactly as it
-- was. A worker's message that is refused does so if it is not valid, and leaves the coordinator
-- otherwise as the advance of its clock to the time of the message does.
pub refused_call_only_advances_time :
    (codec : PlanCodec) (change : Change) (c : Coordinator) (e : SparkXError)
    → (perform codec change c).0 ≡ err e
    → (perform codec change c).1 ≡ at_call change c
unfolding perform handle_worker_message is_ok
refused_call_only_advances_time codec (submission stage) c e h = refused_stage c e codec stage h
refused_call_only_advances_time codec (received m at) c e h =
    refused_message (validate_worker_message m) m at c e h
refused_call_only_advances_time codec (cancellation q reason) c e h =
    let (r, s) = cancel codec q reason c in
    refused_outcome r s c e (refused_cancel c e codec q reason) h
