-- ===== src/Coordinator/Slots/Leases.antt =====
-- src/cluster/coordinator.rs: task reports and assignments keep the bookings.
use spark_x_distributed_quer.Base.{
  ℕ, ◌+◌, ◌<◌, ◌≤◌, ◌≡◌, refl, some_eq, sym, ◌∙◌, Bool, true, false, Option, none, some, arith, ap,
  key_eq, key_eq_self, str_ord, nat_ord, pair_ord, if◌then◌else◌, Bool-cases, inl, inr,
}
use spark_x_distributed_quer.BTreeMap.{get, contains_key, modify}
use spark_x_distributed_quer.BTreeMap.Laws.{Distinct-modify}
use spark_x_distributed_quer.Error.{ok}
use spark_x_distributed_quer.Error.Exec.{proceed-keeps}
use spark_x_distributed_quer.Protocol.{WorkerId, TaskAttemptId, TaskLease, TaskState, PlanCodec}
use spark_x_distributed_quer.Coordinator.State.{
  PartitionRuntime, StageKey, WorkerRuntime, Coordinator,
}
use spark_x_distributed_quer.Coordinator.Workers.{count_active, free_slot, release_worker_slot}
use spark_x_distributed_quer.Coordinator.Time.{set_partition}
use spark_x_distributed_quer.Coordinator.Assign.Keeps.{assign_to_worker-keeps}
use spark_x_distributed_quer.Coordinator.Assign.{
  Selection, take_slot, next_pending_partition, select, write_lease, assign_to_worker,
}
use spark_x_distributed_quer.Coordinator.Assign.Selected.{
  next_pending_partition-IsChosen, select-IsSelection,
}
use spark_x_distributed_quer.Coordinator.Updates.{
  Updated, check_update, apply_update, record_task_update,
}
use spark_x_distributed_quer.Coordinator.Updates.Accepted.{check_update-Found}
use spark_x_distributed_quer.Coordinator.Slots.{IsBooked}
use spark_x_distributed_quer.Coordinator.Slots.Counts.{slots_of, slots_of-le, count_active-set}
use spark_x_distributed_quer.Coordinator.Slots.Changes.{
  exchange-Fits, write-Fits, one_if, update_partition-slots_of,
}

free_slot_within :
    (r : WorkerRuntime)
    → ((free_slot r).registration ≡ r.registration)
      × ((free_slot r).available_slots ≤ r.available_slots + 1)
free_slot_within r = ground arith

-- The accounting equation where the worker reports, elsewhere, and where nothing is released.
module _ (w v : WorkerId) (a b : ℕ) (r : Bool)
    (h : a + (if key_eq w v then one_if r else 0) ≡ b) where
  freed : key_eq w v ≡ true → r ≡ true → a + 1 ≡ b
  freed same e = ground arith

  unfreed : key_eq w v ≡ false → a ≡ b
  unfreed other = ground arith

  unreleased : r ≡ false → a ≡ b
  unreleased e = ground arith

apply_update-IsBooked :
    (c : Coordinator) (worker_id : WorkerId) (task : TaskAttemptId) (state : TaskState) (at : ℕ)
    (u : Updated)
    → check_update c worker_id task state at ≡ ok u
    → IsBooked c
    → IsBooked (apply_update worker_id task u c)
unfolding apply_update release_worker_slot
apply_update-IsBooked c worker_id task state at u passed b =
    let f = check_update-Found c worker_id task state at u passed in
    let key : StageKey = (task.query_id, task.stage_id) in
    let slots = λ (w : WorkerId).
      update_partition-slots_of w c.config.max_task_attempts worker_id task state at f.partition u
        f.updated in
    let distinct =
      Distinct-modify key (set_partition task.partition_id u.partition) c.stages b.distinct in
    elim (Bool-cases u.releases) [
      | inl frees ↦ rw frees (record {
        distinct = distinct;
        distinct_workers = Distinct-modify worker_id free_slot c.workers b.distinct_workers;
        fits =
            write-Fits worker_id free_slot c.workers c.stages key f.stage task.partition_id
              f.partition u.partition f.has_stage f.has_partition f.known
              (λ r. (free_slot_within r).0)
              (λ r e. omega (
                arith,
                freed worker_id worker_id _ _ u.releases (slots worker_id) (key_eq_self worker_id)
                    frees,
                (free_slot_within r).1,
              ))
              (λ w other. omega (arith, unfreed worker_id w _ _ u.releases (slots w) other)) b.fits;
      })
      | inr keeps ↦ rw keeps (record {
        distinct = distinct;
        distinct_workers = b.distinct_workers;
        fits =
            let less : (w : WorkerId)
                → count_active w (modify key (set_partition task.partition_id u.partition) c.stages)
                  ≤ count_active w c.stages =
              λ w. omega (
                arith,
                unreleased worker_id w _ _ u.releases (slots w) keeps,
                count_active-set w c.stages key f.stage task.partition_id f.partition u.partition
                    f.has_stage f.has_partition,
              ) in
            exchange-Fits c.workers c.workers c.stages _ (λ w h. (h, less w))
              (λ w q h. (q, h, refl, omega (arith, less w))) b.fits;
      })
    ]

pub record_task_update-IsBooked :
    (worker_id : WorkerId) (task : TaskAttemptId) (state : TaskState) (at : ℕ) (c : Coordinator)
    → IsBooked c
    → IsBooked (record_task_update worker_id task state at c).1
unfolding record_task_update
record_task_update-IsBooked worker_id task state at c b =
    proceed-keeps IsBooked (check_update c worker_id task state at)
      (λ u d. (ok tt, apply_update worker_id task u d)) c b
      λ u passed. apply_update-IsBooked c worker_id task state at u passed b

-- A worker that is there, alive and has a free slot.
pub record IsFree (c : Coordinator) (worker_id : WorkerId) : Type 0 where
  pub worker : WorkerRuntime
  pub is_there : get worker_id c.workers ≡ some worker
  pub has_slot : 0 < worker.available_slots

active-slots_of :
    (w : WorkerId) (t : TaskAttemptId) (v : WorkerId) (l : TaskLease) (s : Option ℕ)
    → slots_of w (PartitionRuntime.active t v l s) ≡ (if key_eq v w then 1 else 0)
unfolding slots_of
active-slots_of w t v l s = refl

write_lease-IsBooked :
    (c : Coordinator) (worker_id : WorkerId) (now_ms : ℕ) (key : StageKey) (index attempt : ℕ)
    (x : Selection)
    → IsFree c worker_id
    → next_pending_partition c ≡ some (key, index, attempt)
    → select c worker_id now_ms key index attempt ≡ ok x
    → IsBooked c
    → IsBooked (write_lease worker_id x c)
unfolding write_lease
write_lease-IsBooked c worker_id now_ms key index attempt x free chosen selected b =
    let p = next_pending_partition-IsChosen c key index attempt b.distinct chosen in
    let q = select-IsSelection c worker_id now_ms key index attempt x selected in
    let taken = PartitionRuntime.active x.task worker_id x.lease none in
    rw (q.same_key, q.same_index)
      (record {
        distinct = Distinct-modify key (set_partition index taken) c.stages b.distinct;
        distinct_workers = Distinct-modify worker_id take_slot c.workers b.distinct_workers;
        fits =
            write-Fits worker_id take_slot c.workers c.stages key p.stage index
              (PartitionRuntime.pending attempt) taken p.has_stage p.is_pending
              (unfold contains_key in rw free.is_there) (λ r. refl)
              (λ r e. omega (
                arith,
                free.has_slot,
                slots_of-le worker_id taken,
                ap (λ (z : WorkerRuntime). z.available_slots) (some_eq (sym free.is_there ∙ e)),
              ))
              (λ w other.
                omega (arith, rw other at (active-slots_of w x.task worker_id x.lease none)))
              b.fits;
      })

pub assign_to_worker-IsBooked :
    (codec : PlanCodec) (worker_id : WorkerId) (now_ms : ℕ) (c : Coordinator)
    → IsFree c worker_id
    → IsBooked c
    → IsBooked (assign_to_worker codec worker_id now_ms c).1
assign_to_worker-IsBooked codec worker_id now_ms c free b =
    assign_to_worker-keeps IsBooked codec worker_id now_ms c b
      λ key index attempt x chosen selected.
        write_lease-IsBooked c worker_id now_ms key index attempt x free chosen selected b
