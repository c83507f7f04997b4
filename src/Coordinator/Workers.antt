-- ===== src/Coordinator/Workers.antt =====
-- src/cluster/coordinator.rs: registration, heartbeats, and the slots of workers.
use spark_x_distributed_quer.Base.{
  ℕ, ◌+◌, ◌-◌, Bool, true, false, List, [], ◌∷◌, key_eq, str_ord, if◌then◌else◌, ltb, leb, min,
  saturating_add_u32, u32_max,
}
use spark_x_distributed_quer.BTreeMap.{BTreeMap, get, contains_key, insert, modify}
use spark_x_distributed_quer.Error.{Result, ok, ok_or, reject_if, ◌>>=◌, ◌>>◌}
use spark_x_distributed_quer.Error.Exec.{Exec, proceed}
use spark_x_distributed_quer.Protocol.{WorkerId, WorkerRegistration, WorkerHeartbeat}
use spark_x_distributed_quer.Coordinator.State.{
  PartitionRuntime, StageKey, StageRuntime, WorkerRuntime, Coordinator, coordinator_error,
}

-- Whether a partition occupies a slot of the worker: it is leased to it, and not yet settled.
unfoldable pub occupies : WorkerId → PartitionRuntime → Bool
occupies w (PartitionRuntime.active task worker_id lease started_at_ms) = key_eq worker_id w
occupies w (PartitionRuntime.cancelling task worker_id lease) = key_eq worker_id w
occupies w _ = false

unfoldable pub count_occupied : WorkerId → List PartitionRuntime → ℕ
unfolding occupies
count_occupied w [] = 0
count_occupied w (p ∷ ps) = (if occupies w p then 1 else 0) + count_occupied w ps

-- `self.stages.values().flat_map(..).filter(..).count()`
unfoldable pub count_active : WorkerId → BTreeMap StageKey StageRuntime → ℕ
unfolding count_occupied
count_active w [] = 0
count_active w ((key, stage) ∷ rest) = count_occupied w stage.partitions + count_active w rest

-- `try_into().unwrap_or(u32::MAX)`
unfoldable pub active_tasks_for_worker : Coordinator → WorkerId → ℕ
unfolding count_active
active_tasks_for_worker c w =
    let count = count_active w c.stages in if leb count u32_max then count else u32_max

abbrev pub free_slot : WorkerRuntime → WorkerRuntime
free_slot worker =
    if worker.alive
    then record worker {
      available_slots = min (saturating_add_u32 worker.available_slots 1) worker.registration.slots;
    }
    else worker

unfoldable pub release_worker_slot : WorkerId → Coordinator → Coordinator
unfolding modify
release_worker_slot w c = record c { workers = modify w free_slot c.workers }

unfoldable pub new_worker : WorkerRegistration → ℕ → WorkerRuntime
new_worker registration received_at_ms = record {
  registration = registration;
  last_observed_at_ms = 0;
  last_received_at_ms = received_at_ms;
  available_slots = registration.slots;
  available_memory_bytes = registration.memory_bytes;
  alive = true;
}

unfoldable pub register_worker : WorkerRegistration → ℕ → Exec Coordinator (Unit {0})
unfolding contains_key insert new_worker
register_worker registration received_at_ms c =
    if contains_key registration.worker_id c.workers
    then (Result.err (coordinator_error "worker is already registered"), c)
    else (
      ok tt,
      record c {
        workers = insert registration.worker_id (new_worker registration received_at_ms) c.workers;
      },
    )

-- The tests of a heartbeat against the worker that it names.
unfoldable pub check_heartbeat : WorkerHeartbeat → ℕ → WorkerRuntime → Result (Unit {0})
check_heartbeat heartbeat active_tasks worker = do
  reject_if (ltb heartbeat.observed_at_ms worker.last_observed_at_ms)
      (coordinator_error "worker heartbeat time moved backwards")
  reject_if (ltb (worker.registration.slots - active_tasks) heartbeat.available_slots)
      (coordinator_error "worker reports more available slots than are possible")
  reject_if (ltb worker.registration.memory_bytes heartbeat.available_memory_bytes)
      (coordinator_error "worker reports more memory than it registered")

abbrev pub beat : WorkerHeartbeat → ℕ → WorkerRuntime → WorkerRuntime
beat heartbeat received_at_ms worker = record worker {
  last_observed_at_ms = heartbeat.observed_at_ms;
  last_received_at_ms = received_at_ms;
  available_slots = heartbeat.available_slots;
  available_memory_bytes = heartbeat.available_memory_bytes;
  alive = true;
}

unfoldable pub record_heartbeat : WorkerHeartbeat → ℕ → Exec Coordinator (Unit {0})
unfolding active_tasks_for_worker check_heartbeat get modify
record_heartbeat heartbeat received_at_ms c =
    let active_tasks = active_tasks_for_worker c heartbeat.worker_id in
    let checked : Result (Unit {0}) = do
      worker ←
          ok_or (get heartbeat.worker_id c.workers)
            (coordinator_error "heartbeat came from unregistered worker")
      check_heartbeat heartbeat active_tasks worker
    in proceed checked
      (λ _ d. (
        ok tt,
        record d { workers = modify heartbeat.worker_id (beat heartbeat received_at_ms) d.workers },
      ))
      c
