-- ===== src/Coordinator/Slots/Changes.antt =====
-- src/cluster/coordinator.rs: a change of one worker and one partition, and the slots that a report
-- frees.
use spark_x_distributed_quer.Base.{
  ℕ, ◌+◌, ◌≤◌, ◌≡◌, refl, String, Bool, true, false, Option, none, some, arith, ap, key_eq,
  key_eq_iff, str_ord, nat_ord, pair_ord, if◌then◌else◌, Bool-cases, Option-cases, inl, inr,
  get_elem?,
}
use spark_x_distributed_quer.BTreeMap.{BTreeMap, get, contains_key, modify}
use spark_x_distributed_quer.BTreeMap.Laws.{get-modify}
use spark_x_distributed_quer.Error.{ok}
use spark_x_distributed_quer.Protocol.{
  WorkerId, WorkerRegistration, TaskAttemptId, TaskLease, TaskState,
}
use spark_x_distributed_quer.Coordinator.State.{
  PartitionRuntime, StageKey, StageRuntime, WorkerRuntime, retry_or_fail,
}
use spark_x_distributed_quer.Coordinator.Workers.{count_active}
use spark_x_distributed_quer.Coordinator.Time.{set_partition}
use spark_x_distributed_quer.Coordinator.Updates.{
  Updated, settle_active, settle_cancelling, update_partition,
}
use spark_x_distributed_quer.Coordinator.Updates.Accepted.{update_active, update_cancelling}
use spark_x_distributed_quer.Coordinator.Slots.{Fits}
use spark_x_distributed_quer.Coordinator.Slots.Counts.{slots_of, count_active-set}

-- What one worker's booking asks of a change of workers and stages.
pub exchange-Fits :
    (workers workers' : BTreeMap WorkerId WorkerRuntime)
    (stages stages' : BTreeMap StageKey StageRuntime)
    → ((w : WorkerId)
        → get w workers' ≡ none
        → (get w workers ≡ none) × (count_active w stages' ≤ count_active w stages))
    → ((w : WorkerId) (q : WorkerRuntime)
        → get w workers' ≡ some q
        → (r : WorkerRuntime) × (get w workers ≡ some r)
          × (q.registration.slots ≡ r.registration.slots)
          × (q.available_slots + count_active w stages'
              ≤ r.available_slots + count_active w stages))
    → Fits workers stages
    → Fits workers' stages'
exchange-Fits workers workers' stages stages' gone kept f = record {
  booked = λ w q h. let (r, e, s, less) = kept w q h in omega (arith, f.booked w r e, s, less);
  unknown = λ w h. let (e, less) = gone w h in omega (arith, f.unknown w e, less);
  ranged = λ w q h. let (r, e, s, less) = kept w q h in omega (arith, f.ranged w r e, s);
}

-- One worker changes by `g`, and one partition becomes `v`.
pub write-Fits :
    (id : WorkerId) (g : WorkerRuntime → WorkerRuntime) (workers : BTreeMap WorkerId WorkerRuntime)
    (m : BTreeMap StageKey StageRuntime) (key : StageKey) (stage : StageRuntime) (i : ℕ)
    (p v : PartitionRuntime)
    → get key m ≡ some stage
    → get_elem? stage.partitions i ≡ some p
    → contains_key id workers ≡ true
    → ((r : WorkerRuntime) → (g r).registration ≡ r.registration)
    → ((r : WorkerRuntime)
        → get id workers ≡ some r
        → (g r).available_slots + slots_of id v ≤ r.available_slots + slots_of id p)
    → ((w : WorkerId) → key_eq id w ≡ false → slots_of w v ≤ slots_of w p)
    → Fits workers m
    → Fits (modify id g workers) (modify key (set_partition i v) m)
unfolding contains_key
write-Fits id g workers m key stage i p v hs hp known reg own others f =
    exchange-Fits workers (modify id g workers) m (modify key (set_partition i v) m)
      (λ w h.
        let missing : get w workers ≡ none = ground (arith, get-modify id w g workers, h) in
        let other : key_eq id w ≡ false = ground (arith, key_eq_iff id w, missing, known) in
        (missing, omega (arith, count_active-set w m key stage i p v hs hp, others w other)))
      (λ w q h. elim (Option-cases (get w workers)) [
        | inl missing ↦ absurd (ground (arith, get-modify id w g workers, missing, h))
        | inr (r, there) ↦ elim (Bool-cases (key_eq id w)) [
          | inl same ↦
              let e : g r ≡ q = ground (arith, get-modify id w g workers, there, same, h) in
              let is_w = (key_eq_iff id w).0 same in
              (
                r,
                there,
                rw (← e) (ap (λ (z : WorkerRegistration). z.slots) (reg r)),
                rw (← e, ← is_w)
                    (omega
                      (arith, count_active-set id m key stage i p v hs hp, own r (rw is_w there))),
              )
          | inr other ↦
              let e : r ≡ q = ground (arith, get-modify id w g workers, there, other, h) in
              (
                r,
                there,
                rw e refl,
                rw (← e)
                    (omega (arith, count_active-set w m key stage i p v hs hp, others w other)),
              )
        ]
      ])
      f

pub retry_or_fail-slots_of :
    (w : WorkerId) (maximum a : ℕ) (e : String) → slots_of w (retry_or_fail maximum a e) ≡ 0
unfolding slots_of retry_or_fail
retry_or_fail-slots_of w maximum a e = ground arith

abbrev pub one_if : Bool → ℕ
one_if true = 1
one_if false = 0

-- What a report on an active task leaves occupied; a slot is released exactly when it is given up.
pub settle_active-slots_of :
    (w : WorkerId) (maximum : ℕ) (task : TaskAttemptId) (owner : WorkerId) (lease : TaskLease)
    (started : Option ℕ) (state : TaskState) (at : ℕ) (u : Updated)
    → settle_active maximum task owner lease started state at ≡ ok u
    → slots_of w u.partition + (if key_eq owner w then one_if u.releases else 0)
      ≡ slots_of w (PartitionRuntime.active task owner lease started)
unfolding settle_active slots_of
settle_active-slots_of w maximum task owner lease none (TaskState.running s) at u h = ground arith
settle_active-slots_of w maximum task owner lease (some x) (TaskState.running s) at u h =
    ground arith
settle_active-slots_of w maximum task owner lease started (TaskState.succeeded f b) at u h =
    ground arith
settle_active-slots_of w maximum task owner lease started (TaskState.failed f e r) at u h =
    ground (arith, retry_or_fail-slots_of w maximum task.attempt e)
settle_active-slots_of w maximum task owner lease started (TaskState.cancelled f reason) at u h =
    ground arith

pub settle_cancelling-slots_of :
    (w : WorkerId) (current : TaskAttemptId) (owner : WorkerId) (lease : TaskLease)
    (state : TaskState) (at : ℕ) (u : Updated)
    → settle_cancelling current owner lease state at ≡ ok u
    → slots_of w u.partition + (if key_eq owner w then one_if u.releases else 0)
      ≡ slots_of w (PartitionRuntime.cancelling current owner lease)
unfolding settle_cancelling slots_of
settle_cancelling-slots_of w current owner lease (TaskState.running s) at u h = ground arith
settle_cancelling-slots_of w current owner lease _ at u h = ground arith

-- An accepted report releases a slot exactly when the partition gives one up, and the slot is that
-- of the worker that reports.
pub update_partition-slots_of :
    (w : WorkerId) (maximum : ℕ) (worker_id : WorkerId) (task : TaskAttemptId) (state : TaskState)
    (at : ℕ) (p : PartitionRuntime) (u : Updated)
    → update_partition maximum worker_id task state at p ≡ ok u
    → slots_of w u.partition + (if key_eq worker_id w then one_if u.releases else 0) ≡ slots_of w p
update_partition-slots_of w maximum worker_id task state at (PartitionRuntime.active t v l s) u h =
    let (same, owner, _, _, rest) = update_active maximum worker_id task state at t v l s u h in
    rw (← owner, same) (settle_active-slots_of w maximum task v l s state at u rest)
update_partition-slots_of w maximum worker_id task state at (PartitionRuntime.cancelling t v l) u
      h =
    let (_, owner, _, rest) = update_cancelling maximum worker_id task state at t v l u h in
    rw (← owner) (settle_cancelling-slots_of w t v l state at u rest)
update_partition-slots_of w maximum worker_id task state at _ u h =
    absurd (unfold update_partition in ground (arith, h))
