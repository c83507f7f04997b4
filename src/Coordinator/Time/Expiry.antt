-- ===== src/Coordinator/Time/Expiry.antt =====
-- src/cluster/coordinator.rs, `advance_time`: its scan and its write-back loop amount to one pass
-- over the partitions.
use spark_x_distributed_quer.Base.{
  ℕ, suc, ◌≡◌, refl, sym, ◌∙◌, ap, false, ◌||◌, none, List, [], ◌∷◌, ◌++◌, map, key_eq, key_eq_iff,
  str_ord, nat_ord, pair_ord, if◌then◌else◌, leb, set, length, length-append, arith, All,
  All-append, All-imp, key_eq_comm,
}
use mathlib.Core.List.{append_assoc}
use spark_x_distributed_quer.BTreeMap.{BTreeMap, get, modify, Distinct}
use spark_x_distributed_quer.Protocol.{WorkerId, StagePlan}
use spark_x_distributed_quer.Coordinator.State.{
  PartitionRuntime, StageKey, StageRuntime, Coordinator, retry_or_fail,
}
use spark_x_distributed_quer.Coordinator.Time.{
  Expired, has_worker, expired_entry, expired_in_stage, expired_tasks, set_partition, replacement,
  retire, retire_all, advance_time, timed_out_workers, mark_all_dead,
}

-- What becomes of a partition when time advances, without the list in between.
unfoldable pub expire : ℕ → ℕ → List WorkerId → PartitionRuntime → PartitionRuntime
expire maximum now_ms silent (PartitionRuntime.active task worker_id lease started_at_ms) =
    if has_worker silent worker_id
    then retry_or_fail maximum task.attempt "worker heartbeat timed out"
    else if leb lease.expires_at_ms now_ms
    then retry_or_fail maximum task.attempt "task lease expired"
    else PartitionRuntime.active task worker_id lease started_at_ms
expire maximum now_ms silent (PartitionRuntime.cancelling task worker_id lease) =
    if has_worker silent worker_id || leb lease.expires_at_ms now_ms
    then PartitionRuntime.cancelled
    else PartitionRuntime.cancelling task worker_id lease
expire maximum now_ms silent p = p

unfoldable pub expire_stages :
    ℕ → ℕ → List WorkerId → BTreeMap StageKey StageRuntime → BTreeMap StageKey StageRuntime
expire_stages maximum now_ms silent [] = []
expire_stages maximum now_ms silent ((key, stage) ∷ rest) =
    (key, record stage { partitions = map (expire maximum now_ms silent) stage.partitions })
    ∷ expire_stages maximum now_ms silent rest

-- The stages after the write-back loop.
pub settle : ℕ → List Expired → BTreeMap StageKey StageRuntime → BTreeMap StageKey StageRuntime
settle maximum [] stages = stages
settle maximum (e ∷ es) stages =
    settle maximum es
      (modify e.stage_key (set_partition e.partition_index (replacement maximum e)) stages)

pub retire_all-stages :
    (es : List Expired) (c : Coordinator)
    → (retire_all es c).stages ≡ settle c.config.max_task_attempts es c.stages
unfolding retire_all retire settle
retire_all-stages [] c = refl
retire_all-stages (e ∷ es) c = retire_all-stages es (retire e c)

settle-append :
    (maximum : ℕ) (xs ys : List Expired) (m : BTreeMap StageKey StageRuntime)
    → settle maximum (xs ++ ys) m ≡ settle maximum ys (settle maximum xs m)
unfolding settle
settle-append maximum [] ys m = refl
settle-append maximum (x ∷ xs) ys m = settle-append maximum xs ys _

set-append {ℓ} :
    {A : Type ℓ} (before : List A) (p : A) (after : List A) (v : A)
    → set (before ++ p ∷ after) (length before) v ≡ before ++ v ∷ after
set-append [] p after v = refl
set-append (x ∷ before) p after v = ap (λ l. x ∷ l) (set-append before p after v)

-- Entries for other stages leave the first stage alone.
settle-skip :
    (maximum : ℕ) (es : List Expired) (k : StageKey) (s : StageRuntime)
    (m : BTreeMap StageKey StageRuntime)
    → All (λ e. key_eq k e.stage_key ≡ false) es
    → settle maximum es ((k, s) ∷ m) ≡ (k, s) ∷ settle maximum es m
unfolding settle modify
settle-skip maximum [] k s m h = refl
settle-skip maximum (e ∷ es) k s m h = rw h.0 (settle-skip maximum es k s _ h.1)

-- One partition: its entry, if it has one, writes what `expire` says.
expired_entry_cases :
    (maximum now_ms : ℕ) (silent : List WorkerId) (key : StageKey) (p : PartitionRuntime)
    (plan : StagePlan) (before after : List PartitionRuntime) (m : BTreeMap StageKey StageRuntime)
    → settle maximum
        (expired_entry now_ms silent key (length before) p)
        ((key, record { plan = plan; partitions = before ++ p ∷ after }) ∷ m)
      ≡ (key, record { plan = plan; partitions = before ++ expire maximum now_ms silent p ∷ after })
        ∷ m
unfolding expired_entry expire settle modify replacement
expired_entry_cases maximum now_ms silent key (PartitionRuntime.active t w l s) plan before after
      m =
    ground (
      arith,
      (key_eq_iff key key).1 refl,
      set-append before (PartitionRuntime.active t w l s) after
          (retry_or_fail maximum t.attempt "worker heartbeat timed out"),
      set-append before (PartitionRuntime.active t w l s) after
          (retry_or_fail maximum t.attempt "task lease expired"),
    )
expired_entry_cases maximum now_ms silent key (PartitionRuntime.cancelling t w l) plan before after
      m =
    ground (
      arith,
      (key_eq_iff key key).1 refl,
      set-append before (PartitionRuntime.cancelling t w l) after PartitionRuntime.cancelled,
    )
expired_entry_cases maximum now_ms silent key _ plan before after m = refl

settle-expired_in_stage :
    (maximum now_ms : ℕ) (silent : List WorkerId) (key : StageKey) (index : ℕ) (plan : StagePlan)
    (before ps : List PartitionRuntime) (m : BTreeMap StageKey StageRuntime)
    → length before ≡ index
    → settle maximum
        (expired_in_stage now_ms silent key index ps)
        ((key, record { plan = plan; partitions = before ++ ps }) ∷ m)
      ≡ (key, record { plan = plan; partitions = before ++ map (expire maximum now_ms silent) ps })
        ∷ m
unfolding expired_in_stage
settle-expired_in_stage maximum now_ms silent key index plan before [] m e = unfold settle in refl
settle-expired_in_stage maximum now_ms silent key index plan before (p ∷ ps) m e = rw (← e) (
    settle-append maximum (expired_entry now_ms silent key (length before) p)
      (expired_in_stage now_ms silent key (suc (length before)) ps) _
    ∙ ap (settle maximum (expired_in_stage now_ms silent key (suc (length before)) ps))
        (expired_entry_cases maximum now_ms silent key p plan before ps m)
    ∙ (let moved = expire maximum now_ms silent p in
        let here =
          λ (l : List PartitionRuntime). (key, record { plan = plan; partitions = l }) ∷ m in
        ap
          (λ l.
            settle maximum (expired_in_stage now_ms silent key (suc (length before)) ps) (here l))
          (sym (append_assoc before (moved ∷ []) ps))
        ∙ settle-expired_in_stage maximum now_ms silent key (suc (length before)) plan
            (before ++ moved ∷ []) ps m (omega (arith, length-append before (moved ∷ [])))
        ∙ ap here (append_assoc before (moved ∷ []) (map (expire maximum now_ms silent) ps))))

expired_in_stage-key :
    (now_ms : ℕ) (silent : List WorkerId) (key : StageKey) (index : ℕ) (ps : List PartitionRuntime)
    → All (λ e. e.stage_key ≡ key) (expired_in_stage now_ms silent key index ps)
unfolding expired_in_stage expired_entry
expired_in_stage-key now_ms silent key index [] = tt
expired_in_stage-key now_ms silent key index (PartitionRuntime.active t w l s ∷ ps) =
    ground (arith, expired_in_stage-key now_ms silent key (suc index) ps)
expired_in_stage-key now_ms silent key index (PartitionRuntime.cancelling t w l ∷ ps) =
    ground (arith, expired_in_stage-key now_ms silent key (suc index) ps)
expired_in_stage-key now_ms silent key index (_ ∷ ps) =
    expired_in_stage-key now_ms silent key (suc index) ps

get-none :
    (j : StageKey) (s : StageRuntime) (m : BTreeMap StageKey StageRuntime) (k : StageKey)
    → get k ((j, s) ∷ m) ≡ none
    → (key_eq j k ≡ false) × (get k m ≡ none)
unfolding get
get-none j s m k h = ground arith

-- Every entry of the scan of a map names a key of the map.
expired_tasks-key :
    (now_ms : ℕ) (silent : List WorkerId) (k : StageKey) (m : BTreeMap StageKey StageRuntime)
    → get k m ≡ none
    → All (λ e. key_eq k e.stage_key ≡ false) (expired_tasks now_ms silent m)
unfolding expired_tasks get
expired_tasks-key now_ms silent k [] h = tt
expired_tasks-key now_ms silent k ((j, stage) ∷ rest) h =
    let (other, later) = get-none j stage rest k h in
    All-append _ (expired_in_stage now_ms silent j 0 stage.partitions) _
      (All-imp (λ e (p : e.stage_key ≡ j). rw p (key_eq_comm j k other)) _
        (expired_in_stage-key now_ms silent j 0 stage.partitions))
      (expired_tasks-key now_ms silent k rest later)

-- The write-back loop over the scan's list makes one pass over the stages.
settle-expired_tasks :
    (maximum now_ms : ℕ) (silent : List WorkerId) (m : BTreeMap StageKey StageRuntime)
    → Distinct m
    → settle maximum (expired_tasks now_ms silent m) m ≡ expire_stages maximum now_ms silent m
unfolding expired_tasks expire_stages
settle-expired_tasks maximum now_ms silent [] d = unfold settle in refl
settle-expired_tasks maximum now_ms silent ((key, stage) ∷ rest) d =
    let here : StageKey × StageRuntime =
      (key, record stage { partitions = map (expire maximum now_ms silent) stage.partitions }) in
    settle-append maximum (expired_in_stage now_ms silent key 0 stage.partitions)
      (expired_tasks now_ms silent rest) _
    ∙ ap (settle maximum (expired_tasks now_ms silent rest)) (
        settle-expired_in_stage maximum now_ms silent key 0 stage.plan [] stage.partitions rest
          refl)
    ∙ settle-skip maximum (expired_tasks now_ms silent rest) key _ rest
        (expired_tasks-key now_ms silent key rest d.0)
    ∙ ap (λ l. here ∷ l) (settle-expired_tasks maximum now_ms silent rest d.1)

-- Advancing time makes one pass over the stages: every partition becomes what `expire` says.
pub advance_time-stages :
    (now_ms : ℕ) (c : Coordinator)
    → Distinct c.stages
    → (advance_time now_ms c).1.stages
      ≡ expire_stages c.config.max_task_attempts now_ms
          (timed_out_workers now_ms c.config.heartbeat_timeout_ms c.workers)
          c.stages
unfolding advance_time
advance_time-stages now_ms c d =
    let silent = timed_out_workers now_ms c.config.heartbeat_timeout_ms c.workers in
    retire_all-stages (expired_tasks now_ms silent c.stages) _
    ∙ settle-expired_tasks c.config.max_task_attempts now_ms silent c.stages d

get-expire_stages :
    (maximum now_ms : ℕ) (silent : List WorkerId) (k : StageKey)
    (m : BTreeMap StageKey StageRuntime)
    → get k m ≡ none
    → get k (expire_stages maximum now_ms silent m) ≡ none
unfolding expire_stages get
get-expire_stages maximum now_ms silent k [] h = refl
get-expire_stages maximum now_ms silent k ((j, stage) ∷ rest) h =
    ground (arith, get-expire_stages maximum now_ms silent k rest)

pub expire_stages-Distinct :
    (maximum now_ms : ℕ) (silent : List WorkerId) (m : BTreeMap StageKey StageRuntime)
    → Distinct m
    → Distinct (expire_stages maximum now_ms silent m)
unfolding expire_stages
expire_stages-Distinct maximum now_ms silent [] d = tt
expire_stages-Distinct maximum now_ms silent ((j, stage) ∷ rest) d = (
  get-expire_stages maximum now_ms silent j rest d.0,
  expire_stages-Distinct maximum now_ms silent rest d.1,
)

retire_all_keeps :
    (es : List Expired) (c : Coordinator)
    → ((retire_all es c).config ≡ c.config)
      × ((retire_all es c).cancelled_queries ≡ c.cancelled_queries)
unfolding retire_all retire
retire_all_keeps [] c = (refl, refl)
retire_all_keeps (e ∷ es) c = retire_all_keeps es (retire e c)

-- Advancing time changes neither the configuration nor the cancelled queries.
pub advance_time_keeps :
    (now_ms : ℕ) (c : Coordinator)
    → ((advance_time now_ms c).1.config ≡ c.config)
      × ((advance_time now_ms c).1.cancelled_queries ≡ c.cancelled_queries)
unfolding advance_time
advance_time_keeps now_ms c =
    let silent = timed_out_workers now_ms c.config.heartbeat_timeout_ms c.workers in
    retire_all_keeps (expired_tasks now_ms silent c.stages)
      (record c { workers = mark_all_dead silent c.workers })
