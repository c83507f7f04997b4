-- ===== src/Coordinator/Assign.antt =====
-- src/cluster/coordinator.rs: the choice of a pending partition and its assignment to a worker.
pub mod Selected
pub mod Keeps
use spark_x_distributed_quer.Base.{
  ℕ, suc, ◌-◌, Bool, not, ◌||◌, Option, none, some, List, [], ◌∷◌, ◌++◌, str_ord, nat_ord, pair_ord,
  if◌then◌else◌, ◌==◌, set, get_elem?, retain, checked_add_u64, u32_try_from,
}
use spark_x_distributed_quer.BTreeMap.{BTreeMap, get, contains_key, modify}
use spark_x_distributed_quer.Error.{Result, ok, err, panic, ok_or, expect, ◌>>=◌, ◌>>◌}
use spark_x_distributed_quer.Error.Exec.{Exec, proceed}
use spark_x_distributed_quer.Protocol.{
  StageId, WorkerId, StagePlan, TaskAttemptId, TaskLease, ShuffleBlock, CoordinatorMessage,
  assign_task, PlanCodec, protocol_version, validate_coordinator_message,
}
use spark_x_distributed_quer.Coordinator.State.{
  PartitionRuntime, StageKey, StageRuntime, WorkerRuntime, Coordinator, coordinator_error,
}
use spark_x_distributed_quer.Coordinator.Status.{dependencies_succeeded}
use spark_x_distributed_quer.Coordinator.Time.{set_partition}

-- `find_map` over the enumerated partitions.
unfoldable pub first_pending : ℕ → List PartitionRuntime → Option (ℕ × ℕ)
first_pending index [] = none
first_pending index (PartitionRuntime.pending next_attempt ∷ ps) = some (index, next_attempt)
first_pending index (_ ∷ ps) = first_pending (suc index) ps

-- The loop over the stages, in the order of their keys.
unfoldable pub find_pending :
    Coordinator → BTreeMap StageKey StageRuntime → Option (StageKey × ℕ × ℕ)
unfolding contains_key dependencies_succeeded first_pending
find_pending c [] = none
find_pending c ((key, stage) ∷ rest) =
    let later = find_pending c rest in
    if contains_key key.0 c.cancelled_queries || not (dependencies_succeeded c.stages stage.plan)
    then later
    else elim (first_pending 0 stage.partitions) [
      | none ↦ later
      | some (index, attempt) ↦ some (key, index, attempt)
    ]

unfoldable pub next_pending_partition : Coordinator → Option (StageKey × ℕ × ℕ)
unfolding find_pending
next_pending_partition c = find_pending c c.stages

-- The inner loop: every partition of a dependency has succeeded, or the call fails.
unfoldable pub succeeded_blocks : List PartitionRuntime → Result (List ShuffleBlock)
succeeded_blocks [] = ok []
succeeded_blocks (PartitionRuntime.succeeded task output_blocks ∷ ps) = do
  rest ← succeeded_blocks ps
  ok (output_blocks ++ rest)
succeeded_blocks (_ ∷ ps) = err (coordinator_error "stage was selected before dependency succeeded")

unfoldable pub collect_blocks :
    BTreeMap StageKey StageRuntime → StageKey → List StageId → Result (List ShuffleBlock)
unfolding get succeeded_blocks
collect_blocks stages key [] = ok []
collect_blocks stages key (dependency ∷ rest) = do
  stage ← expect (get (key.0, dependency) stages) "submitted stage dependency must exist"
  blocks ← succeeded_blocks stage.partitions
  later ← collect_blocks stages key rest
  ok (blocks ++ later)

unfoldable pub dependency_output_blocks : Coordinator → StageKey → Result (List ShuffleBlock)
unfolding get collect_blocks
dependency_output_blocks c key = do
  stage ← expect (get key c.stages) "selected stage must exist"
  collect_blocks c.stages key stage.plan.input_stages

-- `input_blocks.retain(..)` if the input is partitioned
abbrev pub addressed_blocks : Bool → ℕ → List ShuffleBlock → List ShuffleBlock
addressed_blocks partitioned partition blocks =
    if partitioned then retain (λ block. block.output_partition == partition) blocks else blocks

-- What is read before the first write: the task, its lease, its stage and its input.
pub record Selection : Type 0 where
  pub key : StageKey
  pub index : ℕ
  pub stage : StageRuntime
  pub task : TaskAttemptId
  pub lease : TaskLease
  pub input_blocks : List ShuffleBlock

unfoldable pub select : Coordinator → WorkerId → ℕ → StageKey → ℕ → ℕ → Result Selection
unfolding dependency_output_blocks get
select c worker_id now_ms key index attempt = do
  expires_at_ms ←
      ok_or (checked_add_u64 now_ms c.config.lease_duration_ms)
        (coordinator_error "task lease timestamp overflowed")
  partition ← ok_or (u32_try_from index) (coordinator_error "partition index exceeds u32")
  blocks ← dependency_output_blocks c key
  stage ← expect (get key c.stages) "selected stage must exist"
  ok (record {
    key = key;
    index = index;
    stage = stage;
    task = record {
      query_id = key.0;
      stage_id = key.1;
      partition_id = partition;
      attempt = attempt;
    };
    lease = record { worker_id = worker_id; issued_at_ms = now_ms; expires_at_ms = expires_at_ms };
    input_blocks = addressed_blocks stage.plan.partitioned_input partition blocks;
  })

-- `available_slots -= 1` where a slot is free; without one `check_lease` answers the panic.
abbrev pub take_slot : WorkerRuntime → WorkerRuntime
take_slot worker = record worker { available_slots = worker.available_slots - 1 }

-- Where the two writes panic: at an `expect`, an index out of range, or a subtraction below 0.
unfoldable pub check_lease : WorkerId → Selection → Coordinator → Result (Unit {0})
unfolding get
check_lease worker_id s c = do
  stage ← expect (get s.key c.stages) "selected stage must exist"
  _ ← expect (get_elem? stage.partitions s.index) "index out of bounds"
  worker ← expect (get worker_id c.workers) "selected worker must exist"
  if worker.available_slots == 0 then panic "attempt to subtract with overflow" else ok tt

-- The writes to the stage and to the worker.
unfoldable pub write_lease : WorkerId → Selection → Coordinator → Coordinator
unfolding modify
write_lease worker_id s c = record c {
  stages =
      modify s.key (set_partition s.index (PartitionRuntime.active s.task worker_id s.lease none))
        c.stages;
  workers = modify worker_id take_slot c.workers;
}

-- A panic ends the run, so nothing reads the state that it leaves.
unfoldable pub lease_out : WorkerId → Selection → Exec Coordinator (Unit {0})
unfolding check_lease write_lease
lease_out worker_id s c =
    proceed (check_lease worker_id s c) (λ _ d. (ok tt, write_lease worker_id s d)) c

unfoldable pub assignment : Selection → CoordinatorMessage
assignment s = assign_task protocol_version s.stage.plan s.task s.lease s.input_blocks

-- `assignment.validate()?` and the result
unfoldable pub send : PlanCodec → Selection → Exec Coordinator (Option CoordinatorMessage)
unfolding assignment validate_coordinator_message
send codec s c =
    proceed (validate_coordinator_message codec (assignment s))
      (λ _ d. (ok (some (assignment s)), d)) c

unfoldable pub assign_selected :
    PlanCodec → WorkerId → ℕ → StageKey × ℕ × ℕ → Exec Coordinator (Option CoordinatorMessage)
unfolding lease_out select send
assign_selected codec worker_id now_ms (key, index, attempt) c =
    proceed (select c worker_id now_ms key index attempt)
      (λ s d.
        proceed (lease_out worker_id s d).0 (λ _ e. send codec s e) (lease_out worker_id s d).1)
      c

unfoldable pub assign_to_worker :
    PlanCodec → WorkerId → ℕ → Exec Coordinator (Option CoordinatorMessage)
unfolding next_pending_partition assign_selected
assign_to_worker codec worker_id now_ms c = elim (next_pending_partition c) [
  | none ↦ (ok none, c)
  | some selected ↦ assign_selected codec worker_id now_ms selected c
]
