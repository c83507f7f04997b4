-- ===== src/Coordinator/Slots/Calls.antt =====
-- src/cluster/coordinator.rs: every call keeps the bookings, so no history overbooks a worker.
use spark_x_distributed_quer.Base.{
  ℕ, true, ◌<◌, ◌≤◌, ◌≡◌, refl, none, some, ◌+◌, List, [], ◌∷◌, arith, ltb→lt, key_eq_iff,
  key_eq_self, str_ord, nat_ord, pair_ord, u32_max, Bool-cases, Option-cases, inl, inr, some_eq,
  &&_true,
}
use spark_x_distributed_quer.BTreeMap.{BTreeMap, get, Distinct}
use spark_x_distributed_quer.Error.{ok, ok_or, ok_or-eq-ok}
use spark_x_distributed_quer.Error.Exec.{proceed, proceed-keeps}
use spark_x_distributed_quer.Protocol.{WorkerId, WorkerMessage, PlanCodec, validate_worker_message}
use spark_x_distributed_quer.Coordinator.State.{
  WorkerRuntime, CoordinatorConfig, Coordinator, coordinator_error, new,
}
use spark_x_distributed_quer.Coordinator.Workers.{count_active}
use spark_x_distributed_quer.Coordinator.Time.{advance_time}
use spark_x_distributed_quer.Coordinator.Calls.{
  Call, submits, receives, polls, polls_for, cancels, advances, dispatch, handle_worker_message,
  first_available, assign_first, has_capacity, assign_if, next_assignment, next_assignment_for,
  step, run,
}
use spark_x_distributed_quer.Coordinator.Commit.{new-fields}
use spark_x_distributed_quer.Coordinator.Slots.{IsBooked}
use spark_x_distributed_quer.Coordinator.Slots.Time.{advance_time-IsBooked}
use spark_x_distributed_quer.Coordinator.Slots.Methods.{
  register_worker-IsBooked, record_heartbeat-IsBooked, submit_stage-IsBooked, cancel-IsBooked,
}
use spark_x_distributed_quer.Coordinator.Slots.Leases.{
  IsFree, record_task_update-IsBooked, assign_to_worker-IsBooked,
}

-- `slots` is a `u32`.
abbrev pub InRange : WorkerMessage → Type 0
InRange (WorkerMessage.register version registration) = registration.slots ≤ u32_max
InRange _ = Unit

abbrev pub CallInRange : Call → Type 0
CallInRange (receives message at) = InRange message
CallInRange _ = Unit

abbrev pub AllInRange : List Call → Type 0
AllInRange [] = Unit
AllInRange (call ∷ calls) = CallInRange call × AllInRange calls

first_available_sound :
    (m : BTreeMap WorkerId WorkerRuntime) (w : WorkerId)
    → Distinct m
    → first_available m ≡ some w
    → (r : WorkerRuntime) × (get w m ≡ some r) × (0 < r.available_slots)
unfolding first_available get
first_available_sound [] w d h = absurd (ground (arith, h))
first_available_sound ((id, r) ∷ rest) w d h = elim (Bool-cases (has_capacity r)) [
  | inl free ↦
      let e : id ≡ w = some_eq (rw free at h) in
      (r, rw (← e, key_eq_self id), ltb→lt 0 r.available_slots (&&_true r.alive _ free).1)
  | inr full ↦
      let (q, e, f) = first_available_sound rest w d.1 (rw full at h) in
      (q, ground (arith, key_eq_iff id w, d.0, e), f)
]

pub first_available-IsFree :
    (s : Coordinator) (w : WorkerId)
    → Distinct s.workers
    → first_available s.workers ≡ some w
    → IsFree s w
first_available-IsFree s w d found =
    let (r, e, f) = first_available_sound s.workers w d found in
    record { worker = r; is_there = e; has_slot = f }

pub has_capacity-IsFree :
    (s : Coordinator) (w : WorkerId) (r : WorkerRuntime)
    → get w s.workers ≡ some r
    → has_capacity r ≡ true
    → IsFree s w
has_capacity-IsFree s w r there free = record {
  worker = r;
  is_there = there;
  has_slot = ltb→lt 0 r.available_slots (&&_true r.alive _ free).1;
}

dispatch-IsBooked :
    (message : WorkerMessage) (at : ℕ) (c : Coordinator)
    → InRange message
    → IsBooked c
    → IsBooked (dispatch message at c).1
unfolding dispatch
dispatch-IsBooked (WorkerMessage.register v r) at c h b = register_worker-IsBooked r at c h b
dispatch-IsBooked (WorkerMessage.heartbeat v r) at c h b = record_heartbeat-IsBooked r at c b
dispatch-IsBooked (WorkerMessage.task_update v w t s) at c h b =
    record_task_update-IsBooked w t s at c b

handle_worker_message-IsBooked :
    (message : WorkerMessage) (at : ℕ) (c : Coordinator)
    → InRange message
    → IsBooked c
    → IsBooked (handle_worker_message message at c).1
unfolding handle_worker_message
handle_worker_message-IsBooked message at c h b =
    proceed-keeps IsBooked (validate_worker_message message)
      (λ _ s. proceed (advance_time at s).0 (λ _ d. dispatch message at d) (advance_time at s).1) c
      b
      λ _ _.
        let later = advance_time-IsBooked at c b in
        proceed-keeps IsBooked (advance_time at c).0 (λ _ d. dispatch message at d)
          (advance_time at c).1 later (λ _ _. dispatch-IsBooked message at _ h later)

assign_first-IsBooked :
    (codec : PlanCodec) (now_ms : ℕ) (s : Coordinator)
    → IsBooked s
    → IsBooked (assign_first codec now_ms (first_available s.workers) s).1
assign_first-IsBooked codec now_ms s b = elim (Option-cases (first_available s.workers)) [
  | inl nobody ↦ rw nobody b
  | inr (w, found) ↦ rw found (
      assign_to_worker-IsBooked codec w now_ms s
        (first_available-IsFree s w b.distinct_workers found) b)
]

next_assignment-IsBooked :
    (codec : PlanCodec) (now_ms : ℕ) (c : Coordinator)
    → IsBooked c
    → IsBooked (next_assignment codec now_ms c).1
unfolding next_assignment
next_assignment-IsBooked codec now_ms c b =
    let later = advance_time-IsBooked now_ms c b in
    proceed-keeps IsBooked (advance_time now_ms c).0
      (λ _ d. assign_first codec now_ms (first_available d.workers) d) (advance_time now_ms c).1
      later (λ _ _. assign_first-IsBooked codec now_ms (advance_time now_ms c).1 later)

assign_if-IsBooked :
    (codec : PlanCodec) (w : WorkerId) (now_ms : ℕ) (s : Coordinator) (r : WorkerRuntime)
    → get w s.workers ≡ some r
    → IsBooked s
    → IsBooked (assign_if codec w now_ms (has_capacity r) s).1
assign_if-IsBooked codec w now_ms s r there b = elim (Bool-cases (has_capacity r)) [
  | inl free ↦
      rw free (assign_to_worker-IsBooked codec w now_ms s (has_capacity-IsFree s w r there free) b)
  | inr full ↦ rw full b
]

next_assignment_for-IsBooked :
    (codec : PlanCodec) (w : WorkerId) (now_ms : ℕ) (c : Coordinator)
    → IsBooked c
    → IsBooked (next_assignment_for codec w now_ms c).1
unfolding next_assignment_for
next_assignment_for-IsBooked codec w now_ms c b =
    let later = advance_time-IsBooked now_ms c b in
    let s = (advance_time now_ms c).1 in
    let found = λ (d : Coordinator).
      ok_or (get w d.workers) (coordinator_error "unregistered worker requested an assignment") in
    proceed-keeps IsBooked (advance_time now_ms c).0
      (λ _ d. proceed (found d) (λ x f. assign_if codec w now_ms (has_capacity x) f) d) s later
      λ _ _.
        proceed-keeps IsBooked (found s) (λ x f. assign_if codec w now_ms (has_capacity x) f) s
          later
          (λ x e. assign_if-IsBooked codec w now_ms s x (ok_or-eq-ok (get w s.workers) _ e) later)

pub step-IsBooked :
    (codec : PlanCodec) (c : Coordinator) (call : Call)
    → CallInRange call
    → IsBooked c
    → IsBooked (step codec c call)
unfolding step
step-IsBooked codec c (submits stage) h b = submit_stage-IsBooked codec stage c b
step-IsBooked codec c (receives m at) h b = handle_worker_message-IsBooked m at c h b
step-IsBooked codec c (polls at) h b = next_assignment-IsBooked codec at c b
step-IsBooked codec c (polls_for w at) h b = next_assignment_for-IsBooked codec w at c b
step-IsBooked codec c (cancels q reason) h b = cancel-IsBooked codec q reason c b
step-IsBooked codec c (advances at) h b = advance_time-IsBooked at c b

pub run-IsBooked :
    (codec : PlanCodec) (c : Coordinator) (calls : List Call)
    → AllInRange calls
    → IsBooked c
    → IsBooked (run codec c calls)
unfolding run
run-IsBooked codec c [] h b = b
run-IsBooked codec c (call ∷ calls) h b =
    run-IsBooked codec (step codec c call) calls h.1 (step-IsBooked codec c call h.0 b)

pub new-IsBooked : (config : CoordinatorConfig) {c : Coordinator} → new config ≡ ok c → IsBooked c
unfolding get count_active
new-IsBooked config h =
    let (_, stages, workers, _) = new-fields config h in
    record {
      distinct = rw stages tt;
      distinct_workers = rw workers tt;
      fits =
          rw (stages, workers)
            (record {
              booked = λ w r e. absurd (ground (arith, e));
              unknown = λ w e. refl;
              ranged = λ w r e. absurd (ground (arith, e));
            });
    }

module _ (codec : PlanCodec) (config : CoordinatorConfig) {c : Coordinator} (calls : List Call)
    (started : new config ≡ ok c) (ranged : AllInRange calls) where
  -- Whatever calls a new coordinator serves (submissions, worker messages with slots that fit a `u32`,
  -- polls, cancellations and clock advances, in any order): at every registered worker, the slots that
  -- are free and the tasks leased to it, those still stopping after a cancellation included, are
  -- together at most the slots that it registered.
  pub no_worker_is_overbooked :
      (w : WorkerId) (r : WorkerRuntime)
      → get w (run codec c calls).workers ≡ some r
      → r.available_slots + count_active w (run codec c calls).stages ≤ r.registration.slots
  no_worker_is_overbooked w r e =
      (run-IsBooked codec c calls ranged (new-IsBooked config started)).fits.booked w r e

  -- Whatever calls a new coordinator serves: a worker that is not registered has no task.
  pub unregistered_worker_has_no_task :
      (w : WorkerId)
      → get w (run codec c calls).workers ≡ none
      → count_active w (run codec c calls).stages ≡ 0
  unregistered_worker_has_no_task w e =
      (run-IsBooked codec c calls ranged (new-IsBooked config started)).fits.unknown w e
