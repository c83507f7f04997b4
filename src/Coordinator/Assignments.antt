-- ===== src/Coordinator/Assignments.antt =====
-- src/cluster/coordinator.rs, `assign_to_worker`: what an assignment says, and what it leaves behind.
use spark_x_distributed_quer.Base.{
  ℕ, ◌≡◌, refl, sym, ◌∙◌, some_eq, subst, List, retain, ◌==◌, if◌then◌else◌, none, some, arith,
  str_ord, nat_ord, pair_ord, key_eq_self, get_elem?-set, Option-cases, inl, inr,
}
use spark_x_distributed_quer.BTreeMap.{get, Distinct}
use spark_x_distributed_quer.BTreeMap.Laws.{get-modify}
use spark_x_distributed_quer.Error.{ok, Result}
use spark_x_distributed_quer.Error.Exec.{proceed, proceed-eq-ok}
use spark_x_distributed_quer.Protocol.{
  WorkerId, CoordinatorMessage, PlanCodec, StagePlan, ShuffleBlock, TaskAttemptId, TaskLease,
  assign_task, protocol_version, validate_coordinator_message,
}
use spark_x_distributed_quer.Coordinator.State.{
  PartitionRuntime, StageKey, StageRuntime, Coordinator,
}
use spark_x_distributed_quer.Coordinator.Time.{set_partition}
use spark_x_distributed_quer.Coordinator.Assign.{
  Selection, next_pending_partition, select, check_lease, write_lease, lease_out, send, assignment,
  assign_selected, assign_to_worker,
}
use spark_x_distributed_quer.Coordinator.Assign.Selected.{
  task_of, lease_of, IsChosen, IsSelection, next_pending_partition-IsChosen, select-IsSelection,
}
use spark_x_distributed_quer.Coordinator.Lifecycle.{partition_at}
use spark_x_distributed_quer.Coordinator.Outputs.{outputs_of, dependency_output_blocks-outputs}

-- Every stage stands under the query of its plan.
abbrev pub IsFiled : Coordinator → Type 0
IsFiled c =
    (key : StageKey) (stage : StageRuntime)
    → get key c.stages ≡ some stage
    → stage.plan.query_id ≡ key.0

-- The blocks for a partition, if the input is partitioned.
abbrev pub input_for : StagePlan → ℕ → List ShuffleBlock → List ShuffleBlock
input_for plan index blocks =
    if plan.partitioned_input
    then retain (λ block. block.output_partition == index) blocks
    else blocks

-- An assignment: the choice of a partition, and the lease and input that go with it.
pub record IsAssignment (codec : PlanCodec) (w : WorkerId) (now_ms : ℕ) (c after : Coordinator)
    (m : CoordinatorMessage) : Type 0 where
  pub key : StageKey
  pub index : ℕ
  pub attempt : ℕ
  pub chosen : IsChosen c c.stages key index attempt
  pub blocks : List ShuffleBlock
  pub reported : outputs_of c key.0 chosen.stage.plan.input_stages ≡ ok blocks
  pub says :
      m
      ≡ assign_task protocol_version chosen.stage.plan
          (task_of key index attempt)
          (lease_of w now_ms c.config.lease_duration_ms)
          (input_for chosen.stage.plan index blocks)
  pub valid : validate_coordinator_message codec m ≡ ok tt
  pub leased :
      partition_at after key index
      ≡ some (
          PartitionRuntime.active
            (task_of key index attempt)
            w
            (lease_of w now_ms c.config.lease_duration_ms)
            none)

write_lease-at :
    (w : WorkerId) (now_ms : ℕ) (key : StageKey) (index attempt : ℕ) (c : Coordinator)
    (s : Selection)
    → IsChosen c c.stages key index attempt
    → IsSelection c w now_ms key index attempt s
    → partition_at (write_lease w s c) key index
      ≡ some (PartitionRuntime.active s.task w s.lease none)
unfolding partition_at write_lease
write_lease-at w now_ms key index attempt c s p q =
    let taken = PartitionRuntime.active s.task w s.lease none in
    rw (q.same_key, q.same_index)
      (ground (
        arith,
        get-modify key key (set_partition index taken) c.stages,
        get_elem?-set p.stage.partitions index index taken p.is_pending,
        key_eq_self key,
        p.has_stage,
      ))

assignment-says :
    (w : WorkerId) (now_ms : ℕ) (key : StageKey) (index attempt : ℕ) (c : Coordinator)
    (s : Selection) (p : IsChosen c c.stages key index attempt)
    (q : IsSelection c w now_ms key index attempt s)
    → assignment s
      ≡ assign_task protocol_version p.stage.plan
          (task_of key index attempt)
          (lease_of w now_ms c.config.lease_duration_ms)
          (input_for p.stage.plan index q.blocks)
unfolding assignment
assignment-says w now_ms key index attempt c s p q =
    let same : s.stage ≡ p.stage = some_eq (sym q.has_stage ∙ p.has_stage) in
    rw (q.addressed, q.same_task, q.same_lease, same) refl

assign_selected-IsAssignment :
    (codec : PlanCodec) (w : WorkerId) (now_ms : ℕ) (key : StageKey) (index attempt : ℕ)
    (c : Coordinator) (m : CoordinatorMessage)
    → IsFiled c
    → IsChosen c c.stages key index attempt
    → (assign_selected codec w now_ms (key, index, attempt) c).0 ≡ ok (some m)
    → IsAssignment codec w now_ms c (assign_selected codec w now_ms (key, index, attempt) c).1 m
unfolding assign_selected lease_out send
assign_selected-IsAssignment codec w now_ms key index attempt c m filed p h =
    let sent = λ (s : Selection) (e : Coordinator).
      proceed (validate_coordinator_message codec (assignment s))
        (λ _ d. (Result.ok (some (assignment s)), d)) e in
    let leases = λ (s : Selection) (d : Coordinator).
      proceed (check_lease w s d) (λ _ e. (Result.ok tt, write_lease w s e)) d in
    let (s, e, f) =
      proceed-eq-ok (select c w now_ms key index attempt)
        (λ s d. proceed (leases s d).0 (λ _. sent s) (leases s d).1) c h in
    let (_, l, g) = proceed-eq-ok (leases s c).0 (λ _. sent s) (leases s c).1 f in
    let (_, k, _) =
      proceed-eq-ok (check_lease w s c) (λ _ d. (Result.ok tt, write_lease w s d)) c l in
    let (_, v, r) =
      proceed-eq-ok (validate_coordinator_message codec (assignment s))
        (λ _ d. (Result.ok (some (assignment s)), d)) (leases s c).1 g in
    let same : m ≡ assignment s = ground (arith, r) in
    let q = select-IsSelection c w now_ms key index attempt s e in
    record {
      key = key;
      index = index;
      attempt = attempt;
      chosen = p;
      blocks = q.blocks;
      reported =
          sym (
            dependency_output_blocks-outputs c key p.stage p.has_stage
              (filed key p.stage p.has_stage) p.is_ready)
          ∙ q.has_blocks;
      says = same ∙ assignment-says w now_ms key index attempt c s p q;
      valid = rw same v;
      leased =
          rw (e, k, v)
            (subst
              (λ (x : TaskAttemptId × TaskLease).
                partition_at (write_lease w s c) key index
                ≡ some (PartitionRuntime.active x.0 w x.1 none))
              (λ i. (q.same_task i, q.same_lease i))
              (write_lease-at w now_ms key index attempt c s p q));
    }

-- An assignment that a worker gets, where every stage stands under its query, is of a pending partition
-- of a query that is not cancelled and of a stage whose dependencies have succeeded. It carries the plan
-- of the stage, names the partition and its next attempt, is leased to the worker from now for the
-- configured time, has as its input what the dependencies report as their outputs, one after the other
-- in the order of the plan, only the blocks for the partition if the input is partitioned, and passes
-- the validation of messages. The partition is then active under that lease.
pub assign_to_worker-IsAssignment :
    (codec : PlanCodec) (w : WorkerId) (now_ms : ℕ) (c : Coordinator) (m : CoordinatorMessage)
    → Distinct c.stages
    → IsFiled c
    → (assign_to_worker codec w now_ms c).0 ≡ ok (some m)
    → IsAssignment codec w now_ms c (assign_to_worker codec w now_ms c).1 m
unfolding assign_to_worker
assign_to_worker-IsAssignment codec w now_ms c m d filed h =
    elim (Option-cases (next_pending_partition c)) [
      | inl nothing ↦ absurd (ground (arith, nothing, h))
      | inr ((key, index, attempt), chosen) ↦
          rw (chosen, assign_to_worker)
            (assign_selected-IsAssignment codec w now_ms key index attempt c m filed
              (next_pending_partition-IsChosen c key index attempt d chosen)
              (rw (chosen, assign_to_worker) at h))
    ]
