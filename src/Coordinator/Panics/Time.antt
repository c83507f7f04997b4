-- ===== src/Coordinator/Panics/Time.antt =====
-- src/cluster/coordinator.rs, `advance_time`: the keys and indices that its loops write to are there.
use spark_x_distributed_quer.Base.{
  ℕ, suc, ◌<◌, ◌+◌, ◌≡◌, refl, ◌∙◌, some, none, List, [], ◌∷◌, length, length-set, get_elem?-total,
  arith, All, All-append, All-imp, str_ord, nat_ord, pair_ord, key_eq, key_eq_iff, key_eq_self,
  Bool-cases, inl, inr,
}
use spark_x_distributed_quer.BTreeMap.{BTreeMap, get, modify, Distinct}
use spark_x_distributed_quer.BTreeMap.Laws.{get-modify}
use spark_x_distributed_quer.Error.{ok}
use spark_x_distributed_quer.Protocol.{WorkerId}
use spark_x_distributed_quer.Coordinator.State.{
  PartitionRuntime, StageKey, StageRuntime, WorkerRuntime, Coordinator,
}
use spark_x_distributed_quer.Coordinator.Time.{
  Expired, is_silent, timed_out_workers, mark_dead, mark_all_dead, check_dead, expired_entry,
  expired_in_stage, expired_tasks, set_partition, replacement, retire, check_retire, check_all,
  advance_time,
}

-- A worker that times out is there, whatever workers are marked before it.
abbrev Stays : BTreeMap WorkerId WorkerRuntime → WorkerId → Type 0
Stays workers id = (r : WorkerRuntime) × (get id workers ≡ some r)

Stays-modify :
    (v : WorkerId) (f : WorkerRuntime → WorkerRuntime) (m : BTreeMap WorkerId WorkerRuntime)
    (id : WorkerId)
    → Stays m id
    → Stays (modify v f m) id
Stays-modify v f m id (r, e) = elim (Bool-cases (key_eq v id)) [
  | inl same ↦ (f r, get-modify v id f m ∙ rw (same, e) refl)
  | inr other ↦ (r, get-modify v id f m ∙ rw (other, e) refl)
]

Stays-cons :
    (j : WorkerId) (s : WorkerRuntime) (m : BTreeMap WorkerId WorkerRuntime) (id : WorkerId)
    → Stays m id
    → Stays ((j, s) ∷ m) id
unfolding get
Stays-cons j s m id (r, e) = elim (Bool-cases (key_eq j id)) [
  | inl same ↦ (s, rw same refl)
  | inr other ↦ (r, rw other e)
]

timed_out_workers-Stays :
    (now_ms timeout_ms : ℕ) (m : BTreeMap WorkerId WorkerRuntime)
    → All (Stays m) (timed_out_workers now_ms timeout_ms m)
unfolding timed_out_workers
timed_out_workers-Stays now_ms timeout_ms [] = tt
timed_out_workers-Stays now_ms timeout_ms ((id, r) ∷ rest) =
    let later =
      All-imp (Stays-cons id r rest) (timed_out_workers now_ms timeout_ms rest)
        (timed_out_workers-Stays now_ms timeout_ms rest) in
    elim (Bool-cases (is_silent now_ms timeout_ms r)) [
      | inl out ↦ rw out ((r, unfold get in rw key_eq_self), later)
      | inr heard ↦ rw heard later
    ]

check_dead-ok :
    (ids : List WorkerId) (m : BTreeMap WorkerId WorkerRuntime)
    → All (Stays m) ids
    → check_dead ids m ≡ ok tt
unfolding check_dead
check_dead-ok [] m h = refl
check_dead-ok (id ∷ ids) m ((r, e), h) =
    rw e (check_dead-ok ids (modify id mark_dead m) (All-imp (Stays-modify id mark_dead m) ids h))

-- An entry of the scan is of a partition that is there, whatever entries are written before it.
abbrev Points : BTreeMap StageKey StageRuntime → Expired → Type 0
Points stages e =
    (stage : StageRuntime) × (get e.stage_key stages ≡ some stage)
    × (e.partition_index < length stage.partitions)

expired_in_stage-lt :
    (now_ms : ℕ) (silent : List WorkerId) (key : StageKey) (index bound : ℕ)
    (ps : List PartitionRuntime)
    → index + length ps ≡ bound
    → All
        (λ e. (e.stage_key ≡ key) × (e.partition_index < bound))
        (expired_in_stage now_ms silent key index ps)
unfolding expired_in_stage expired_entry
expired_in_stage-lt now_ms silent key index bound [] h = tt
expired_in_stage-lt now_ms silent key index bound (PartitionRuntime.active t w l s ∷ ps) h =
    ground (arith, expired_in_stage-lt now_ms silent key (suc index) bound ps (omega arith))
expired_in_stage-lt now_ms silent key index bound (PartitionRuntime.cancelling t w l ∷ ps) h =
    ground (arith, expired_in_stage-lt now_ms silent key (suc index) bound ps (omega arith))
expired_in_stage-lt now_ms silent key index bound (_ ∷ ps) h =
    expired_in_stage-lt now_ms silent key (suc index) bound ps (omega arith)

Points-first :
    (key : StageKey) (stage : StageRuntime) (m : BTreeMap StageKey StageRuntime) (e : Expired)
    → (e.stage_key ≡ key) × (e.partition_index < length stage.partitions)
    → Points ((key, stage) ∷ m) e
unfolding get
Points-first key stage m e (same, h) = (stage, ground (arith, key_eq_iff key e.stage_key, same), h)

Points-cons :
    (key : StageKey) (stage : StageRuntime) (m : BTreeMap StageKey StageRuntime)
    → get key m ≡ none
    → (e : Expired) → Points m e
    → Points ((key, stage) ∷ m) e
unfolding get
Points-cons key stage m new e (s, there, h) =
    (s, ground (arith, key_eq_iff key e.stage_key, new, there), h)

expired_tasks-Points :
    (now_ms : ℕ) (silent : List WorkerId) (m : BTreeMap StageKey StageRuntime)
    → Distinct m
    → All (Points m) (expired_tasks now_ms silent m)
unfolding expired_tasks
expired_tasks-Points now_ms silent [] d = tt
expired_tasks-Points now_ms silent ((key, stage) ∷ rest) d =
    All-append (Points ((key, stage) ∷ rest))
      (expired_in_stage now_ms silent key 0 stage.partitions) (expired_tasks now_ms silent rest)
      (All-imp (Points-first key stage rest) (expired_in_stage now_ms silent key 0 stage.partitions)
        (expired_in_stage-lt now_ms silent key 0 (length stage.partitions) stage.partitions
          (omega arith)))
      (All-imp (Points-cons key stage rest d.0) (expired_tasks now_ms silent rest)
        (expired_tasks-Points now_ms silent rest d.1))

Points-set :
    (key : StageKey) (i : ℕ) (p : PartitionRuntime) (m : BTreeMap StageKey StageRuntime)
    (e : Expired)
    → Points m e
    → Points (modify key (set_partition i p) m) e
Points-set key i p m e (stage, there, h) = elim (Bool-cases (key_eq key e.stage_key)) [
  | inl same ↦ (
    set_partition i p stage,
    get-modify key e.stage_key (set_partition i p) m ∙ rw (same, there) refl,
    omega (arith, h, length-set stage.partitions i p),
  )
  | inr other ↦
      (stage, get-modify key e.stage_key (set_partition i p) m ∙ rw (other, there) refl, h)
]

check_all-ok :
    (es : List Expired) (c : Coordinator) → All (Points c.stages) es → check_all es c ≡ ok tt
unfolding check_all check_retire
check_all-ok [] c h = refl
check_all-ok (e ∷ es) c ((stage, there, within), h) =
    let (p, is_there) = get_elem?-total stage.partitions e.partition_index within in
    let written = replacement c.config.max_task_attempts e in
    rw (there, is_there)
      (check_all-ok es (retire e c)
        (unfold retire in All-imp (Points-set e.stage_key e.partition_index written c.stages) es h))

-- The clock advances without a panic.
pub advance_time-ok :
    (now_ms : ℕ) (c : Coordinator) → Distinct c.stages → (advance_time now_ms c).0 ≡ ok tt
unfolding advance_time
advance_time-ok now_ms c d =
    let silent = timed_out_workers now_ms c.config.heartbeat_timeout_ms c.workers in
    let marked = record c { workers = mark_all_dead silent c.workers } in
    rw
      (
        check_dead-ok silent c.workers
            (timed_out_workers-Stays now_ms c.config.heartbeat_timeout_ms c.workers),
        check_all-ok (expired_tasks now_ms silent c.stages) marked
            (expired_tasks-Points now_ms silent c.stages d),
      )
      refl
