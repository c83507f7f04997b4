-- ===== src/Coordinator/Panics/Histories.antt =====
-- src/cluster/coordinator.rs: no call panics, whatever calls came before.
use spark_x_distributed_quer.Base.{
  ℕ, ◌≡◌, ◌≤◌, some, none, List, arith, Option-cases, Bool-cases, inl, inr, str_ord, nat_ord,
  pair_ord, u32_max,
}
use spark_x_distributed_quer.BTreeMap.{get}
use spark_x_distributed_quer.Error.{
  Result, ok, err, panic, IsPanic, >>=-returns, reject_if_returns, ok_or_returns, ok_or,
  ok_or-eq-ok,
}
use spark_x_distributed_quer.Error.Exec.{proceed, proceed-returns}
use spark_x_distributed_quer.Protocol.{WorkerId, WorkerMessage, PlanCodec, validate_worker_message}
use spark_x_distributed_quer.Coordinator.State.{
  CoordinatorConfig, WorkerRuntime, Coordinator, coordinator_error, new,
}
use spark_x_distributed_quer.Coordinator.Workers.{
  register_worker, record_heartbeat, check_heartbeat,
}
use spark_x_distributed_quer.Coordinator.Submit.{submit_stage, check_stage, add_stage}
use spark_x_distributed_quer.Coordinator.Time.{advance_time}
use spark_x_distributed_quer.Coordinator.Slots.{IsBooked}
use spark_x_distributed_quer.Coordinator.Slots.Time.{advance_time-IsBooked}
use spark_x_distributed_quer.Coordinator.Slots.Calls.{
  AllInRange, first_available-IsFree, has_capacity-IsFree, run-IsBooked, new-IsBooked,
}
use spark_x_distributed_quer.Coordinator.Updates.{check_update, apply_update, record_task_update}
use spark_x_distributed_quer.Coordinator.Cancel.{cancel, cancel_new, check_cancel, cancellation}
use spark_x_distributed_quer.Coordinator.Calls.{
  Call, submits, receives, polls, polls_for, cancels, advances, dispatch, handle_worker_message,
  first_available, assign_first, has_capacity, assign_if, next_assignment, next_assignment_for, run,
}
use spark_x_distributed_quer.Coordinator.Commit.{new-fields}
use spark_x_distributed_quer.Coordinator.Keeps.{run_keeps}
use spark_x_distributed_quer.Coordinator.Lifecycle.Evolves.{Evolves-refl}
use spark_x_distributed_quer.Coordinator.Panics.{IsShaped, kept_shape}
use spark_x_distributed_quer.Coordinator.Panics.Time.{advance_time-ok}
use spark_x_distributed_quer.Coordinator.Panics.Leases.{assign_to_worker_returns}
use spark_x_distributed_quer.Coordinator.Panics.Returns.{
  validate_worker_message_returns, validate_stage_returns, validate_coordinator_message_returns,
  check_update_returns, check_stage_returns,
}

-- How a call ends, without its value.
abbrev pub forget {ℓ} : {A : Type ℓ} → Result A → Result (Unit {0})
forget (ok a) = ok tt
forget (err e) = err e
forget (panic m) = panic m

unfoldable pub answer : PlanCodec → Coordinator → Call → Result (Unit {0})
unfolding submit_stage handle_worker_message next_assignment next_assignment_for cancel advance_time
answer codec c (submits stage) = (submit_stage codec stage c).0
answer codec c (receives message at) = (handle_worker_message message at c).0
answer codec c (polls at) = forget (next_assignment codec at c).0
answer codec c (polls_for worker_id at) = forget (next_assignment_for codec worker_id at c).0
answer codec c (cancels query_id reason) = forget (cancel codec query_id reason c).0
answer codec c (advances at) = (advance_time at c).0

forget_returns {ℓ} : {A : Type ℓ} (r : Result A) → ¬ IsPanic r → ¬ IsPanic (forget r)
forget_returns (ok a) h = λ x. x
forget_returns (err e) h = λ x. x
forget_returns (panic m) h = h

register_worker_returns : (r : _) (at : ℕ) (c : Coordinator) → ¬ IsPanic (register_worker r at c).0
unfolding register_worker
register_worker_returns r at c = ground arith

record_heartbeat_returns :
    (h : _) (at : ℕ) (c : Coordinator) → ¬ IsPanic (record_heartbeat h at c).0
unfolding record_heartbeat check_heartbeat
record_heartbeat_returns h at c = elim (Option-cases (get h.worker_id c.workers)) [
  | inl missing ↦ ground (arith, missing)
  | inr (w, e) ↦ ground (arith, e)
]

module _ (codec : PlanCodec)
    (decodes : (fragment : List ℕ) → ¬ IsPanic (codec.validate_fragment fragment)) (c : Coordinator)
    (ranged : c.config.max_task_attempts ≤ u32_max) where
  dispatch_returns :
      (m : WorkerMessage) (at : ℕ) (s : Coordinator) → IsShaped c s → ¬ IsPanic (dispatch m at s).0
  unfolding dispatch
  dispatch_returns (WorkerMessage.register v r) at s h = register_worker_returns r at s
  dispatch_returns (WorkerMessage.heartbeat v b) at s h = record_heartbeat_returns b at s
  dispatch_returns (WorkerMessage.task_update v w t state) at s h =
      unfold record_task_update in
      proceed-returns (check_update s w t state at) (λ u d. (ok tt, apply_update w t u d)) s
        (check_update_returns s w t state at h.shaped) (λ _ _ x. x)

  later : (at : ℕ) (s : Coordinator) → IsShaped c s → IsShaped c (advance_time at s).1
  later at s h = (kept_shape codec c ranged).by_time at s h

  assign_first_returns :
      (now_ms : ℕ) (s : Coordinator)
      → IsBooked s
      → IsShaped c s
      → ¬ IsPanic (assign_first codec now_ms (first_available s.workers) s).0
  assign_first_returns now_ms s b h = elim (Option-cases (first_available s.workers)) [
    | inl nobody ↦ rw nobody (λ x. x)
    | inr (w, found) ↦ rw found (
        assign_to_worker_returns codec decodes c w now_ms s
          (first_available-IsFree s w b.distinct_workers found) h)
  ]

  assign_if_returns :
      (w : WorkerId) (now_ms : ℕ) (s : Coordinator) (r : WorkerRuntime)
      → get w s.workers ≡ some r
      → IsShaped c s
      → ¬ IsPanic (assign_if codec w now_ms (has_capacity r) s).0
  assign_if_returns w now_ms s r there h = elim (Bool-cases (has_capacity r)) [
    | inl free ↦ rw free (
        assign_to_worker_returns codec decodes c w now_ms s (has_capacity-IsFree s w r there free)
          h)
    | inr full ↦ rw full (λ x. x)
  ]

  cancel_new_returns :
      (q : _) (reason : _) (o : _) (s : Coordinator) → ¬ IsPanic (cancel_new q reason o s).0
  unfolding cancel_new
  cancel_new_returns q reason none s = λ x. x
  cancel_new_returns q reason (some r) s = ground arith

  advance_time_returns : (at : ℕ) (s : Coordinator) → IsShaped c s → ¬ IsPanic (advance_time at s).0
  advance_time_returns at s h = rw (advance_time-ok at s h.evolves.distinct) (λ x. x)

  answer_returns :
      (s : Coordinator) (call : Call) → IsBooked s → IsShaped c s → ¬ IsPanic (answer codec s call)
  unfolding answer submit_stage handle_worker_message next_assignment next_assignment_for cancel
      check_cancel
  answer_returns s (submits stage) b h =
      proceed-returns (check_stage codec stage s) (λ _ d. (ok tt, add_stage stage d)) s
        (check_stage_returns codec stage s (validate_stage_returns codec decodes stage))
        (λ _ _ x. x)
  answer_returns s (receives m at) b h =
      proceed-returns (validate_worker_message m)
        (λ _ d. proceed (advance_time at d).0 (λ _ e. dispatch m at e) (advance_time at d).1) s
        (validate_worker_message_returns m)
        (λ _ _.
          proceed-returns (advance_time at s).0 (λ _ e. dispatch m at e) (advance_time at s).1
            (advance_time_returns at s h) (λ _ _. dispatch_returns m at _ (later at s h)))
  answer_returns s (polls at) b h = forget_returns _ (
      proceed-returns (advance_time at s).0
        (λ _ d. assign_first codec at (first_available d.workers) d) (advance_time at s).1
        (advance_time_returns at s h)
        (λ _ _.
          assign_first_returns at (advance_time at s).1 (advance_time-IsBooked at s b)
            (later at s h)))
  answer_returns s (polls_for w at) b h = forget_returns _ (
      let found = λ (d : Coordinator).
        ok_or (get w d.workers) (coordinator_error "unregistered worker requested an assignment") in
      proceed-returns (advance_time at s).0
        (λ _ d. proceed (found d) (λ x f. assign_if codec w at (has_capacity x) f) d)
        (advance_time at s).1 (advance_time_returns at s h)
        (λ _ _.
          proceed-returns (found (advance_time at s).1)
            (λ x f. assign_if codec w at (has_capacity x) f) (advance_time at s).1
            (ok_or_returns _ _)
            (λ x e.
              assign_if_returns w at (advance_time at s).1 x (ok_or-eq-ok (get w _) _ e)
                (later at s h))))
  answer_returns s (cancels q reason) b h = forget_returns _ (
      proceed-returns (check_cancel codec q reason s)
        (λ _ d. cancel_new q reason (get q d.cancelled_queries) d) s
        (>>=-returns _ _
          (validate_coordinator_message_returns codec decodes (cancellation q reason))
          (λ _ _. reject_if_returns _ _))
        (λ _ _. cancel_new_returns q reason (get q s.cancelled_queries) s))
  answer_returns s (advances at) b h = advance_time_returns at s h

-- Whatever calls a new coordinator has served, with slots and a maximum of attempts that fit a `u32`,
-- the next call does not panic if the check of plan fragments does not: every `expect` of the
-- coordinator finds its value, the index of a partition is in range where it is written, and a slot is
-- subtracted only where one is free.
pub no_call_panics :
    (codec : PlanCodec) (config : CoordinatorConfig) {c : Coordinator} (calls : List Call)
    (next : Call)
    → new config ≡ ok c
    → config.max_task_attempts ≤ u32_max
    → AllInRange calls
    → ((fragment : List ℕ) → ¬ IsPanic (codec.validate_fragment fragment))
    → ¬ IsPanic (answer codec (run codec c calls) next)
no_call_panics codec config {c} calls next started ranged fits decodes =
    let (same, empty, _, _) = new-fields config started in
    let bound : c.config.max_task_attempts ≤ u32_max = rw same ranged in
    let first : IsShaped c c = record {
      evolves = Evolves-refl c (rw empty tt);
      shaped = rw empty tt;
    } in
    answer_returns codec decodes c bound (run codec c calls) next
      (run-IsBooked codec c calls fits (new-IsBooked config started))
      (run_keeps codec (IsShaped c) (kept_shape codec c bound) c calls first)
