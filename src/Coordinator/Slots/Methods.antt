-- ===== src/Coordinator/Slots/Methods.antt =====
-- src/cluster/coordinator.rs: registration, heartbeats, submission and cancellation keep the bookings.
use spark_x_distributed_quer.Base.{
  ℕ, ◌+◌, ◌-◌, ◌≤◌, ◌≡◌, refl, String, Option, none, some, [], ◌∷◌, arith, ap, key_eq, key_eq_iff,
  str_ord, nat_ord, pair_ord, u32_max, Bool-cases, Option-cases, inl, inr,
}
use spark_x_distributed_quer.BTreeMap.{BTreeMap, get, contains_key, modify, insert}
use spark_x_distributed_quer.BTreeMap.Laws.{
  get-modify, get-insert, Distinct-insert, Distinct-modify,
}
use spark_x_distributed_quer.Error.{ok}
use spark_x_distributed_quer.Error.Exec.{proceed-keeps}
use spark_x_distributed_quer.Protocol.{
  WorkerId, QueryId, StagePlan, WorkerRegistration, WorkerHeartbeat, PlanCodec,
}
use spark_x_distributed_quer.Coordinator.State.{
  PartitionRuntime, StageKey, StageRuntime, WorkerRuntime, Coordinator,
}
use spark_x_distributed_quer.Coordinator.Workers.{
  count_active, active_tasks_for_worker, new_worker, register_worker, check_heartbeat, beat,
  record_heartbeat,
}
use spark_x_distributed_quer.Coordinator.Submit.{check_stage, new_stage, add_stage, submit_stage}
use spark_x_distributed_quer.Coordinator.Cancel.{
  cancel_partition, cancel_stages, cancel_new, check_cancel, cancel,
}
use spark_x_distributed_quer.Coordinator.Lifecycle.Evolves.{check_stage-absent}
use spark_x_distributed_quer.Coordinator.Lifecycle.Methods.{cancel_stages-Distinct}
use spark_x_distributed_quer.Coordinator.Slots.{Fits, IsBooked}
use spark_x_distributed_quer.Coordinator.Slots.Counts.{
  slots_of, count_active-insert, count_occupied-map_le,
}

-- A new worker under a new id.
insert-Fits :
    (id : WorkerId) (r : WorkerRuntime) (workers : BTreeMap WorkerId WorkerRuntime)
    (stages : BTreeMap StageKey StageRuntime)
    → get id workers ≡ none
    → r.available_slots ≤ r.registration.slots
    → r.registration.slots ≤ u32_max
    → Fits workers stages
    → Fits (insert id r workers) stages
insert-Fits id r workers stages absent free ranged f = record {
  booked = λ w q h. elim (Bool-cases (key_eq id w)) [
    | inl same ↦
        let e : r ≡ q = ground (arith, get-insert id w r workers, same, h) in
        let none_yet : count_active w stages ≡ 0 =
          rw (← (key_eq_iff id w).0 same) (f.unknown id absent) in
        rw (← e) (omega arith)
    | inr other ↦ f.booked w q (ground (arith, get-insert id w r workers, other, h))
  ];
  unknown = λ w h. f.unknown w (ground (arith, get-insert id w r workers, h));
  ranged = λ w q h. elim (Bool-cases (key_eq id w)) [
    | inl same ↦
        let e : r ≡ q = ground (arith, get-insert id w r workers, same, h) in rw (← e) ranged
    | inr other ↦ f.ranged w q (ground (arith, get-insert id w r workers, other, h))
  ];
}

pub register_worker-IsBooked :
    (r : WorkerRegistration) (at : ℕ) (c : Coordinator)
    → r.slots ≤ u32_max
    → IsBooked c
    → IsBooked (register_worker r at c).1
unfolding register_worker contains_key
register_worker-IsBooked r at c ranged b = elim (Option-cases (get r.worker_id c.workers)) [
  | inl absent ↦ rw absent (record {
    distinct = b.distinct;
    distinct_workers =
        Distinct-insert r.worker_id (new_worker r at) c.workers absent b.distinct_workers;
    fits =
        insert-Fits r.worker_id (new_worker r at) c.workers c.stages absent
          (unfold new_worker in omega arith) (unfold new_worker in ranged) b.fits;
  })
  | inr (q, there) ↦ rw there b
]

-- A change of one worker that keeps its registration and whose free slots fit beside its tasks.
modify-Fits :
    (id : WorkerId) (g : WorkerRuntime → WorkerRuntime) (workers : BTreeMap WorkerId WorkerRuntime)
    (stages : BTreeMap StageKey StageRuntime)
    → ((r : WorkerRuntime) → get id workers ≡ some r → (g r).registration ≡ r.registration)
    → ((r : WorkerRuntime)
        → get id workers ≡ some r
        → (g r).available_slots + count_active id stages ≤ r.registration.slots)
    → Fits workers stages
    → Fits (modify id g workers) stages
modify-Fits id g workers stages same_reg fit f = record {
  booked = λ w q h. elim (Option-cases (get w workers)) [
    | inl missing ↦ absurd (ground (arith, get-modify id w g workers, missing, h))
    | inr (r, there) ↦ elim (Bool-cases (key_eq id w)) [
      | inl same ↦
          let e : g r ≡ q = ground (arith, get-modify id w g workers, there, same, h) in
          let at_id : get id workers ≡ some r = rw ((key_eq_iff id w).0 same) there in
          rw (← e, ← (key_eq_iff id w).0 same)
            (omega
              (arith, fit r at_id, ap (λ (z : WorkerRegistration). z.slots) (same_reg r at_id)))
      | inr other ↦ f.booked w q (ground (arith, get-modify id w g workers, other, h))
    ]
  ];
  unknown = λ w h. f.unknown w (ground (arith, get-modify id w g workers, h));
  ranged = λ w q h. elim (Option-cases (get w workers)) [
    | inl missing ↦ absurd (ground (arith, get-modify id w g workers, missing, h))
    | inr (r, there) ↦ elim (Bool-cases (key_eq id w)) [
      | inl same ↦
          let e : g r ≡ q = ground (arith, get-modify id w g workers, there, same, h) in
          let at_id : get id workers ≡ some r = rw ((key_eq_iff id w).0 same) there in
          rw (← e) (
            omega (
              arith,
              f.ranged w r there,
              ap (λ (z : WorkerRegistration). z.slots) (same_reg r at_id),
            ))
      | inr other ↦ f.ranged w q (ground (arith, get-modify id w g workers, other, h))
    ]
  ];
}

-- The worker that a heartbeat names, if the heartbeat passes the tests, and what they say of it.
check_heartbeat_bound :
    (h : WorkerHeartbeat) (active : ℕ) (r : WorkerRuntime)
    → check_heartbeat h active r ≡ ok tt
    → h.available_slots ≤ r.registration.slots - active
unfolding check_heartbeat
check_heartbeat_bound h active r e = ground arith

pub record_heartbeat-IsBooked :
    (h : WorkerHeartbeat) (at : ℕ) (c : Coordinator)
    → IsBooked c
    → IsBooked (record_heartbeat h at c).1
unfolding record_heartbeat active_tasks_for_worker
record_heartbeat-IsBooked h at c b = elim (Option-cases (get h.worker_id c.workers)) [
  | inl absent ↦ rw absent b
  | inr (r, there) ↦
      let active = active_tasks_for_worker c h.worker_id in
      rw there (
        proceed-keeps IsBooked (check_heartbeat h active r)
          (λ _ d. (ok tt, record d { workers = modify h.worker_id (beat h at) d.workers })) c b
          λ _ passed. record {
            distinct = b.distinct;
            distinct_workers = Distinct-modify h.worker_id (beat h at) c.workers b.distinct_workers;
            fits =
                modify-Fits h.worker_id (beat h at) c.workers c.stages (λ q e. refl)
                  (λ q e.
                    let same : r ≡ q = ground (arith, there, e) in
                    let old = b.fits.booked h.worker_id r there in
                    let range = b.fits.ranged h.worker_id r there in
                    let fit = check_heartbeat_bound h active r passed in
                    rw (← same) (ground (arith, old, range, fit)))
                  b.fits;
          })
]

pub submit_stage-IsBooked :
    (codec : PlanCodec) (stage : StagePlan) (c : Coordinator)
    → IsBooked c
    → IsBooked (submit_stage codec stage c).1
unfolding submit_stage add_stage
submit_stage-IsBooked codec stage c b =
    proceed-keeps IsBooked (check_stage codec stage c) (λ _ d. (ok tt, add_stage stage d)) c b
      λ _ passed.
        let key : StageKey = (stage.query_id, stage.stage_id) in
        let absent = check_stage-absent codec stage c passed in
        let same = λ (w : WorkerId).
          count_active-insert w key (new_stage stage) c.stages stage.partition_count 0 absent
            (unfold new_stage in refl) in
        record {
          distinct = Distinct-insert key (new_stage stage) c.stages absent b.distinct;
          distinct_workers = b.distinct_workers;
          fits = record {
            booked = λ w r e. omega (arith, same w, b.fits.booked w r e);
            unknown = λ w e. omega (arith, same w, b.fits.unknown w e);
            ranged = b.fits.ranged;
          };
        }

cancel_partition-slots_of :
    (w : WorkerId) (p : PartitionRuntime) → slots_of w (cancel_partition p) ≤ slots_of w p
unfolding slots_of cancel_partition
cancel_partition-slots_of w p = ground arith

count_active-cancel_stages :
    (w : WorkerId) (query_id : QueryId) (m : BTreeMap StageKey StageRuntime)
    → count_active w (cancel_stages query_id m) ≤ count_active w m
unfolding count_active cancel_stages
count_active-cancel_stages w query_id [] = omega arith
count_active-cancel_stages w query_id ((j, stage) ∷ rest) = ground (
  arith,
  count_active-cancel_stages w query_id rest,
  count_occupied-map_le w cancel_partition stage.partitions (cancel_partition-slots_of w),
)

cancel_new-IsBooked :
    (query_id : QueryId) (reason : String) (before : Option String) (c : Coordinator)
    → IsBooked c
    → IsBooked (cancel_new query_id reason before c).1
unfolding cancel_new
cancel_new-IsBooked query_id reason none c b = record {
  distinct = cancel_stages-Distinct query_id c.stages b.distinct;
  distinct_workers = b.distinct_workers;
  fits = record {
    booked =
        λ w r e. omega (arith, count_active-cancel_stages w query_id c.stages, b.fits.booked w r e);
    unknown =
        λ w e. omega (arith, count_active-cancel_stages w query_id c.stages, b.fits.unknown w e);
    ranged = b.fits.ranged;
  };
}
cancel_new-IsBooked query_id reason (some existing) c b =
    elim (Bool-cases (key_eq existing reason)) [ inl same ↦ rw same b | inr other ↦ rw other b ]

pub cancel-IsBooked :
    (codec : PlanCodec) (query_id : QueryId) (reason : String) (c : Coordinator)
    → IsBooked c
    → IsBooked (cancel codec query_id reason c).1
unfolding cancel
cancel-IsBooked codec query_id reason c b =
    proceed-keeps IsBooked (check_cancel codec query_id reason c)
      (λ _ d. cancel_new query_id reason (get query_id d.cancelled_queries) d) c b
      λ _ _. cancel_new-IsBooked query_id reason (get query_id c.cancelled_queries) c b
