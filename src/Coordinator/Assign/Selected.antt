-- ===== src/Coordinator/Assign/Selected.antt =====
-- src/cluster/coordinator.rs, assignment: what the chosen partition and the lease are.
use spark_x_distributed_quer.Base.{
  ℕ, suc, ◌+◌, ◌≡◌, true, false, not, ◌||◌, some, List, [], ◌∷◌, arith, key_eq_iff, key_eq_self,
  subst, str_ord, nat_ord, pair_ord, get_elem?, Option-cases, Bool-cases, inl, inr,
}
use spark_x_distributed_quer.BTreeMap.{BTreeMap, get, contains_key, Distinct}
use spark_x_distributed_quer.Error.{ok, Result-cases}
use spark_x_distributed_quer.Protocol.{WorkerId, ShuffleBlock, TaskAttemptId, TaskLease}
use spark_x_distributed_quer.Coordinator.State.{
  PartitionRuntime, StageKey, StageRuntime, Coordinator,
}
use spark_x_distributed_quer.Coordinator.Status.{dependencies_succeeded}
use spark_x_distributed_quer.Coordinator.Assign.{
  Selection, first_pending, find_pending, next_pending_partition, addressed_blocks,
  dependency_output_blocks, select,
}

-- The chosen partition is pending, its query is not cancelled and its dependencies have succeeded.
pub record IsChosen (c : Coordinator) (m : BTreeMap StageKey StageRuntime) (key : StageKey)
    (index attempt : ℕ) : Type 0 where
  pub stage : StageRuntime
  pub has_stage : get key m ≡ some stage
  pub is_pending : get_elem? stage.partitions index ≡ some (PartitionRuntime.pending attempt)
  pub not_cancelled : contains_key key.0 c.cancelled_queries ≡ false
  pub is_ready : dependencies_succeeded c.stages stage.plan ≡ true

first_pending_sound :
    (offset : ℕ) (ps : List PartitionRuntime) (i a : ℕ)
    → first_pending offset ps ≡ some (i, a)
    → (k : ℕ) × (i ≡ offset + k) × (get_elem? ps k ≡ some (PartitionRuntime.pending a))
unfolding first_pending
first_pending_sound offset [] i a h = absurd (ground (arith, h))
first_pending_sound offset (PartitionRuntime.pending n ∷ ps) i a h = (0, ground arith, ground arith)
first_pending_sound offset (_ ∷ ps) i a h =
    let (k, e, f) = first_pending_sound (suc offset) ps i a h in (suc k, omega arith, f)

IsChosen-cons :
    (c : Coordinator) (m : BTreeMap StageKey StageRuntime) (j : StageKey) (s : StageRuntime)
    {key : StageKey} {i a : ℕ}
    → Distinct ((j, s) ∷ m)
    → IsChosen c m key i a
    → IsChosen c ((j, s) ∷ m) key i a
IsChosen-cons c m j s {key} d h = record {
  stage = h.stage;
  has_stage = unfold get in ground (arith, key_eq_iff j key, h.has_stage, d.0);
  is_pending = h.is_pending;
  not_cancelled = h.not_cancelled;
  is_ready = h.is_ready;
}

find_pending-IsChosen :
    (c : Coordinator) (m : BTreeMap StageKey StageRuntime) (key : StageKey) (i a : ℕ)
    → Distinct m
    → find_pending c m ≡ some (key, i, a)
    → IsChosen c m key i a
unfolding find_pending
find_pending-IsChosen c [] key i a d h = absurd (ground (arith, h))
find_pending-IsChosen c ((j, stage) ∷ rest) key i a d h =
    elim (Bool-cases
      (contains_key j.0 c.cancelled_queries || not (dependencies_succeeded c.stages stage.plan))) [
        | inl skipped ↦
            IsChosen-cons c rest j stage d
              (find_pending-IsChosen c rest key i a d.1 (rw (skipped, find_pending) at h))
        | inr open_ ↦ elim (Option-cases (first_pending 0 stage.partitions)) [
          | inl nothing ↦
              IsChosen-cons c rest j stage d
                (find_pending-IsChosen c rest key i a d.1 (ground (arith, h)))
          | inr ((i', a'), found) ↦
              let e : ◌≡◌ {A = StageKey × ℕ × ℕ} (j, i', a') (key, i, a) = ground arith in
              let (k, f, g) = first_pending_sound 0 stage.partitions i' a' found in
              subst (λ (x : StageKey × ℕ × ℕ). IsChosen c ((j, stage) ∷ rest) x.0 x.1 x.2) e
                (record {
                  stage = stage;
                  has_stage = unfold get in rw key_eq_self;
                  is_pending = let at_k : i' ≡ k = omega arith in rw at_k g;
                  not_cancelled = ground arith;
                  is_ready = ground arith;
                })
        ]
      ]

-- The chosen partition is pending, in a stage that is ready.
pub next_pending_partition-IsChosen :
    (c : Coordinator) (key : StageKey) (i a : ℕ)
    → Distinct c.stages
    → next_pending_partition c ≡ some (key, i, a)
    → IsChosen c c.stages key i a
unfolding next_pending_partition
next_pending_partition-IsChosen c key i a d h = find_pending-IsChosen c c.stages key i a d h

-- The attempt at a partition that an assignment names, and its lease.
abbrev pub task_of : StageKey → ℕ → ℕ → TaskAttemptId
task_of key index attempt = record {
  query_id = key.0;
  stage_id = key.1;
  partition_id = index;
  attempt = attempt;
}

abbrev pub lease_of : WorkerId → ℕ → ℕ → TaskLease
lease_of worker_id now_ms lease_duration_ms = record {
  worker_id = worker_id;
  issued_at_ms = now_ms;
  expires_at_ms = now_ms + lease_duration_ms;
}

-- What a selection holds.
pub record IsSelection (c : Coordinator) (worker_id : WorkerId) (now_ms : ℕ) (key : StageKey)
    (index attempt : ℕ) (s : Selection) : Type 0 where
  pub same_key : s.key ≡ key
  pub same_index : s.index ≡ index
  pub has_stage : get key c.stages ≡ some s.stage
  pub same_task : s.task ≡ task_of key index attempt
  pub same_lease : s.lease ≡ lease_of worker_id now_ms c.config.lease_duration_ms
  pub next : s.task.attempt ≡ attempt
  pub blocks : List ShuffleBlock
  pub has_blocks : dependency_output_blocks c key ≡ ok blocks
  pub addressed : s.input_blocks ≡ addressed_blocks s.stage.plan.partitioned_input index blocks

pub select-IsSelection :
    (c : Coordinator) (worker_id : WorkerId) (now_ms : ℕ) (key : StageKey) (index attempt : ℕ)
    (s : Selection)
    → select c worker_id now_ms key index attempt ≡ ok s
    → IsSelection c worker_id now_ms key index attempt s
unfolding select
select-IsSelection c worker_id now_ms key index attempt s h =
    elim (Result-cases (dependency_output_blocks c key)) [
      | inl (blocks, e) ↦ record {
        same_key = ground arith;
        same_index = ground arith;
        has_stage = ground arith;
        same_task = ground arith;
        same_lease = ground arith;
        next = ground arith;
        blocks = blocks;
        has_blocks = e;
        addressed = ground arith;
      }
      | inr other ↦ absurd (ground (arith, h, other))
    ]
