-- ===== src/Coordinator/Time.antt =====
-- src/cluster/coordinator.rs: `Coordinator::advance_time`. A loop that writes has a check beside it, of
-- where its `expect` or its index panics. A panic ends the run, so nothing reads the state it leaves.
pub mod Expiry
use spark_x_distributed_quer.Base.{
  ℕ, suc, ◌-◌, Bool, true, false, ◌&&◌, ◌||◌, List, [], ◌∷◌, ◌++◌, key_eq, str_ord, nat_ord,
  pair_ord, if◌then◌else◌, ltb, leb, any, set, get_elem?,
}
use spark_x_distributed_quer.BTreeMap.{BTreeMap, get, modify}
use spark_x_distributed_quer.Error.{Result, ok, expect, ◌>>=◌, ◌>>◌}
use spark_x_distributed_quer.Error.Exec.{Exec}
use spark_x_distributed_quer.Protocol.{WorkerId}
use spark_x_distributed_quer.Coordinator.State.{
  PartitionRuntime, StageKey, StageRuntime, WorkerRuntime, Coordinator, retry_or_fail,
}
use spark_x_distributed_quer.Coordinator.Workers.{release_worker_slot}

abbrev pub has_worker : List WorkerId → WorkerId → Bool
has_worker ids w = any (λ v. key_eq v w) ids

unfoldable pub is_silent : ℕ → ℕ → WorkerRuntime → Bool
is_silent now_ms timeout_ms worker =
    worker.alive && ltb timeout_ms (now_ms - worker.last_received_at_ms)

unfoldable pub timed_out_workers : ℕ → ℕ → BTreeMap WorkerId WorkerRuntime → List WorkerId
unfolding is_silent
timed_out_workers now_ms timeout_ms [] = []
timed_out_workers now_ms timeout_ms ((id, worker) ∷ rest) =
    let later = timed_out_workers now_ms timeout_ms rest in
    if is_silent now_ms timeout_ms worker then id ∷ later else later

abbrev pub mark_dead : WorkerRuntime → WorkerRuntime
mark_dead worker = record worker { alive = false; available_slots = 0; available_memory_bytes = 0 }

-- The writes to the workers that time out; `check_dead` is where they panic.
unfoldable pub mark_all_dead :
    List WorkerId → BTreeMap WorkerId WorkerRuntime → BTreeMap WorkerId WorkerRuntime
unfolding modify
mark_all_dead [] workers = workers
mark_all_dead (id ∷ ids) workers = mark_all_dead ids (modify id mark_dead workers)

-- `expect("timed-out worker must exist")`
unfoldable pub check_dead : List WorkerId → BTreeMap WorkerId WorkerRuntime → Result (Unit {0})
unfolding get modify
check_dead [] workers = ok tt
check_dead (id ∷ ids) workers = do
  _ ← expect (get id workers) "timed-out worker must exist"
  check_dead ids (modify id mark_dead workers)

-- An entry of the list `expired`.
pub record Expired : Type 0 where
  pub stage_key : StageKey
  pub partition_index : ℕ
  pub attempt : ℕ
  pub worker_id : WorkerId
  pub worker_timed_out : Bool
  pub cancelling : Bool

-- What the scan pushes for one partition: nothing, or one entry.
unfoldable pub expired_entry : ℕ → List WorkerId → StageKey → ℕ → PartitionRuntime → List Expired
expired_entry now_ms silent key index (PartitionRuntime.active task worker_id lease started_at_ms) =
    let timed_out = has_worker silent worker_id in
    if timed_out || leb lease.expires_at_ms now_ms
    then record {
      stage_key = key;
      partition_index = index;
      attempt = task.attempt;
      worker_id = worker_id;
      worker_timed_out = timed_out;
      cancelling = false;
    }
      ∷ []
    else []
expired_entry now_ms silent key index (PartitionRuntime.cancelling task worker_id lease) =
    let timed_out = has_worker silent worker_id in
    if timed_out || leb lease.expires_at_ms now_ms
    then record {
      stage_key = key;
      partition_index = index;
      attempt = task.attempt;
      worker_id = worker_id;
      worker_timed_out = timed_out;
      cancelling = true;
    }
      ∷ []
    else []
expired_entry now_ms silent key index _ = []

unfoldable pub expired_in_stage :
    ℕ → List WorkerId → StageKey → ℕ → List PartitionRuntime → List Expired
unfolding expired_entry
expired_in_stage now_ms silent key index [] = []
expired_in_stage now_ms silent key index (p ∷ ps) =
    expired_entry now_ms silent key index p ++ expired_in_stage now_ms silent key (suc index) ps

unfoldable pub expired_tasks : ℕ → List WorkerId → BTreeMap StageKey StageRuntime → List Expired
unfolding expired_in_stage
expired_tasks now_ms silent [] = []
expired_tasks now_ms silent ((key, stage) ∷ rest) =
    expired_in_stage now_ms silent key 0 stage.partitions ++ expired_tasks now_ms silent rest

-- `stage.partitions[index] = replacement`
abbrev pub set_partition : ℕ → PartitionRuntime → StageRuntime → StageRuntime
set_partition index replacement stage = record stage {
  partitions = set stage.partitions index replacement;
}

unfoldable pub replacement : ℕ → Expired → PartitionRuntime
unfolding retry_or_fail
replacement max_task_attempts e =
    if e.cancelling
    then PartitionRuntime.cancelled
    else retry_or_fail max_task_attempts e.attempt
        (if e.worker_timed_out then "worker heartbeat timed out" else "task lease expired")

-- The body of the last loop: the worker gets its slot back unless it is dead, and the partition its
-- replacement; `check_retire` is where that write panics.
unfoldable pub retire : Expired → Coordinator → Coordinator
unfolding modify release_worker_slot replacement
retire e c = record c {
  workers = if e.worker_timed_out then c.workers else (release_worker_slot e.worker_id c).workers;
  stages =
      modify e.stage_key
        (set_partition e.partition_index (replacement c.config.max_task_attempts e)) c.stages;
}

-- Where the write of the body panics.
unfoldable pub check_retire : Expired → Coordinator → Result (Unit {0})
unfolding get
check_retire e c = do
  stage ← expect (get e.stage_key c.stages) "expired task stage must exist"
  _ ← expect (get_elem? stage.partitions e.partition_index) "index out of bounds"
  ok tt

unfoldable pub check_all : List Expired → Coordinator → Result (Unit {0})
unfolding check_retire retire
check_all [] c = ok tt
check_all (e ∷ es) c = do check_retire e c; check_all es (retire e c)

unfoldable pub retire_all : List Expired → Coordinator → Coordinator
unfolding retire
retire_all [] c = c
retire_all (e ∷ es) c = retire_all es (retire e c)

unfoldable pub advance_time : ℕ → Exec Coordinator (Unit {0})
unfolding timed_out_workers check_dead mark_all_dead expired_tasks check_all retire_all
advance_time now_ms c =
    let silent = timed_out_workers now_ms c.config.heartbeat_timeout_ms c.workers in
    let marked = record c { workers = mark_all_dead silent c.workers } in
    let expired = expired_tasks now_ms silent c.stages in
    (check_dead silent c.workers >> check_all expired marked, retire_all expired marked)
