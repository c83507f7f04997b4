-- ===== src/Coordinator/Slots/Time.antt =====
-- src/cluster/coordinator.rs, `advance_time`: slots freed by expired leases and by dead workers.
use spark_x_distributed_quer.Base.{
  ℕ, ◌+◌, ◌≤◌, ◌≡◌, refl, ◌∙◌, none, some, List, [], ◌∷◌, arith, ap, key_eq, str_ord, nat_ord,
  pair_ord, if◌then◌else◌, Bool-cases, Option-cases, inl, inr,
}
use spark_x_distributed_quer.BTreeMap.{BTreeMap, get, modify, Distinct}
use spark_x_distributed_quer.BTreeMap.Laws.{get-modify, Distinct-modify}
use spark_x_distributed_quer.Protocol.{WorkerId, WorkerRegistration}
use spark_x_distributed_quer.Coordinator.State.{WorkerRuntime, Coordinator}
use spark_x_distributed_quer.Coordinator.Workers.{free_slot, release_worker_slot}
use spark_x_distributed_quer.Coordinator.Time.{
  Expired, expired_tasks, mark_dead, mark_all_dead, retire, retire_all, advance_time,
  timed_out_workers,
}
use spark_x_distributed_quer.Coordinator.Time.Expiry.{advance_time-stages, expire_stages-Distinct}
use spark_x_distributed_quer.Coordinator.Slots.{IsBooked}
use spark_x_distributed_quer.Coordinator.Slots.Expired.{entries_of, expired_tasks-count}

-- A worker after some releases: the same registration, and at most one slot more for each.
record Within (extra : ℕ) (before after : WorkerRuntime) : Type 0 where
  registration : after.registration ≡ before.registration
  slots : after.available_slots ≤ before.available_slots + extra

-- How the workers of two maps compare.
abbrev Bounded :
    (WorkerId → ℕ) → BTreeMap WorkerId WorkerRuntime → BTreeMap WorkerId WorkerRuntime → Type 0
Bounded extra m m' =
    (w : WorkerId) (r' : WorkerRuntime)
    → get w m' ≡ some r'
    → (r : WorkerRuntime) × (get w m ≡ some r) × Within (extra w) r r'

get-modify_inv :
    (k w : WorkerId) (f : WorkerRuntime → WorkerRuntime) (m : BTreeMap WorkerId WorkerRuntime)
    (r' : WorkerRuntime)
    → get w (modify k f m) ≡ some r'
    → (r : WorkerRuntime) × (get w m ≡ some r) × (r' ≡ (if key_eq k w then f r else r))
get-modify_inv k w f m r' h = elim (Option-cases (get w m)) [
  | inl missing ↦ absurd (ground (arith, get-modify k w f m, missing, h))
  | inr (r, e) ↦ (r, e, ground (arith, get-modify k w f m, e, h))
]

get-modify-none :
    (k w : WorkerId) (f : WorkerRuntime → WorkerRuntime) (m : BTreeMap WorkerId WorkerRuntime)
    → get w (modify k f m) ≡ none
    → get w m ≡ none
get-modify-none k w f m h = ground (arith, get-modify k w f m, h)

mark_all_dead-Bounded :
    (ids : List WorkerId) (m : BTreeMap WorkerId WorkerRuntime)
    → Bounded (λ _. 0) m (mark_all_dead ids m)
unfolding mark_all_dead
mark_all_dead-Bounded [] m w r' h = (r', h, record { registration = refl; slots = omega arith })
mark_all_dead-Bounded (id ∷ ids) m w r' h =
    let (q, e, b) = mark_all_dead-Bounded ids (modify id mark_dead m) w r' h in
    let (r, f, g) = get-modify_inv id w mark_dead m q e in
    (
      r,
      f,
      record {
        registration = ground (arith, g, b.registration);
        slots = ground (arith, g, b.slots);
      },
    )

mark_all_dead-none :
    (ids : List WorkerId) (m : BTreeMap WorkerId WorkerRuntime) (w : WorkerId)
    → get w (mark_all_dead ids m) ≡ none
    → get w m ≡ none
unfolding mark_all_dead
mark_all_dead-none [] m w h = h
mark_all_dead-none (id ∷ ids) m w h =
    get-modify-none id w mark_dead m (mark_all_dead-none ids (modify id mark_dead m) w h)

-- One release.
pub free_slot_bounds :
    (r : WorkerRuntime)
    → ((free_slot r).registration ≡ r.registration)
      × ((free_slot r).available_slots ≤ r.available_slots + 1)
free_slot_bounds r = ground arith

retire-Bounded :
    (e : Expired) (c : Coordinator)
    → Bounded (λ w. if key_eq e.worker_id w then 1 else 0) c.workers (retire e c).workers
unfolding retire release_worker_slot
retire-Bounded e c w r' h = elim (Bool-cases e.worker_timed_out) [
  | inl dead ↦ (r', rw dead at h, record { registration = refl; slots = omega arith })
  | inr lively ↦
      let (r, f, g) = get-modify_inv e.worker_id w free_slot c.workers r' (rw lively at h) in
      let bounds = free_slot_bounds r in
      (
        r,
        f,
        elim (Bool-cases (key_eq e.worker_id w)) [
          | inl same ↦
              let is_freed : r' ≡ free_slot r = rw same at g in
              rw same (record { registration = rw is_freed bounds.0; slots = rw is_freed bounds.1 })
          | inr other ↦
              let is_same : r' ≡ r = rw other at g in
              rw other (record { registration = rw is_same; slots = rw is_same (omega arith) })
        ],
      )
]

retire_all-Bounded :
    (es : List Expired) (c : Coordinator)
    → Bounded (λ w. entries_of w es) c.workers (retire_all es c).workers
unfolding retire_all entries_of
retire_all-Bounded [] c w r' h = (r', h, record { registration = refl; slots = omega arith })
retire_all-Bounded (e ∷ es) c w r' h =
    let (q, f, b) = retire_all-Bounded es (retire e c) w r' h in
    let (r, g, a) = retire-Bounded e c w q f in
    (
      r,
      g,
      record {
        registration = b.registration ∙ a.registration;
        slots = omega (arith, a.slots, b.slots);
      },
    )

retire-none :
    (e : Expired) (c : Coordinator) (w : WorkerId)
    → get w (retire e c).workers ≡ none
    → get w c.workers ≡ none
unfolding retire release_worker_slot
retire-none e c w h = elim (Bool-cases e.worker_timed_out) [
  | inl dead ↦ rw dead at h
  | inr lively ↦ get-modify-none e.worker_id w free_slot c.workers (rw lively at h)
]

retire_all-none :
    (es : List Expired) (c : Coordinator) (w : WorkerId)
    → get w (retire_all es c).workers ≡ none
    → get w c.workers ≡ none
unfolding retire_all
retire_all-none [] c w h = h
retire_all-none (e ∷ es) c w h = retire-none e c w (retire_all-none es (retire e c) w h)

mark_all_dead-Distinct :
    (ids : List WorkerId) (m : BTreeMap WorkerId WorkerRuntime)
    → Distinct m
    → Distinct (mark_all_dead ids m)
unfolding mark_all_dead
mark_all_dead-Distinct [] m d = d
mark_all_dead-Distinct (id ∷ ids) m d =
    mark_all_dead-Distinct ids (modify id mark_dead m) (Distinct-modify id mark_dead m d)

retire-Distinct :
    (e : Expired) (c : Coordinator) → Distinct c.workers → Distinct (retire e c).workers
unfolding retire release_worker_slot
retire-Distinct e c d = elim (Bool-cases e.worker_timed_out) [
  | inl dead ↦ rw dead d
  | inr lively ↦ rw lively (Distinct-modify e.worker_id free_slot c.workers d)
]

retire_all-Distinct :
    (es : List Expired) (c : Coordinator) → Distinct c.workers → Distinct (retire_all es c).workers
unfolding retire_all
retire_all-Distinct [] c d = d
retire_all-Distinct (e ∷ es) c d = retire_all-Distinct es (retire e c) (retire-Distinct e c d)

-- Advancing time keeps the bookings.
pub advance_time-IsBooked :
    (now_ms : ℕ) (c : Coordinator) → IsBooked c → IsBooked (advance_time now_ms c).1
advance_time-IsBooked now_ms c b =
    let silent = timed_out_workers now_ms c.config.heartbeat_timeout_ms c.workers in
    let es = expired_tasks now_ms silent c.stages in
    let marked = record c { workers = mark_all_dead silent c.workers } in
    let count =
      λ (w : WorkerId). expired_tasks-count w c.config.max_task_attempts now_ms silent c.stages in
    record {
      distinct =
          rw (advance_time-stages now_ms c b.distinct)
            (expire_stages-Distinct _ now_ms silent c.stages b.distinct);
      distinct_workers =
          unfold advance_time in
          retire_all-Distinct es marked
            (mark_all_dead-Distinct silent c.workers b.distinct_workers);
      fits = rw (advance_time-stages now_ms c b.distinct) (record {
        booked = λ w r' h.
            let (q, f, y) = retire_all-Bounded es marked w r' (unfold advance_time in h) in
            let (r, g, x) = mark_all_dead-Bounded silent c.workers w q f in
            omega (
              arith,
              x.slots,
              y.slots,
              count w,
              b.fits.booked w r g,
              ap (λ (z : WorkerRegistration). z.slots) (y.registration ∙ x.registration),
            );
        unknown = λ w h. omega (
          arith,
          count w,
          b.fits.unknown w (
              mark_all_dead-none silent c.workers w
                (retire_all-none es marked w (unfold advance_time in h))),
        );
        ranged = λ w r' h.
            let (q, f, y) = retire_all-Bounded es marked w r' (unfold advance_time in h) in
            let (r, g, x) = mark_all_dead-Bounded silent c.workers w q f in
            omega (
              arith,
              b.fits.ranged w r g,
              ap (λ (z : WorkerRegistration). z.slots) (y.registration ∙ x.registration),
            );
      });
    }
