-- ===== src/Coordinator/Cancelled.antt =====
-- src/cluster/coordinator.rs, `cancel_query`: the partitions of a cancelled query.
use spark_x_distributed_quer.Base.{
  ℕ, zero, suc, ◌≡◌, ◌≢◌, ◌≤◌, refl, ap, ◌∙◌, String, none, some, List, [], ◌∷◌, Bool, false, arith,
  str_ord, nat_ord, pair_ord, Option-cases, inl, inr, key_eq_self, all, u32_max, get_elem?,
}
use spark_x_distributed_quer.BTreeMap.{get}
use spark_x_distributed_quer.Error.{ok}
use spark_x_distributed_quer.Protocol.{QueryId, CoordinatorMessage, PlanCodec}
use spark_x_distributed_quer.Coordinator.State.{
  PartitionRuntime, StageKey, CoordinatorConfig, Coordinator, new, is_succeeded, StageStatus,
}
use spark_x_distributed_quer.Coordinator.Status.{stage_status, status_of}
use spark_x_distributed_quer.Coordinator.Cancel.{cancel, cancel_new, cancel_partition}
use spark_x_distributed_quer.Coordinator.Calls.{Call, cancels, run}
use spark_x_distributed_quer.Coordinator.Lifecycle.{partition_at, Edge, Route, here, onward}
use spark_x_distributed_quer.Coordinator.Lifecycle.Methods.{at_index-cancel_stages}
use spark_x_distributed_quer.Coordinator.Commit.{run-Follows, after_run-Evolves, new-fields}
use spark_x_distributed_quer.Coordinator.Lifecycle.Steps.{run-Evolves}
use spark_x_distributed_quer.Coordinator.Repeated.{accepted_cancel}

-- A partition of a cancelled query: it has succeeded, is stopping, or is cancelled.
abbrev pub IsStopped : PartitionRuntime → Type 0
IsStopped (PartitionRuntime.cancelling task worker_id lease) = Unit
IsStopped (PartitionRuntime.succeeded task output_blocks) = Unit
IsStopped PartitionRuntime.cancelled = Unit
IsStopped _ = ⊥

cancel_partition-IsStopped : (p : PartitionRuntime) → IsStopped (cancel_partition p)
unfolding cancel_partition
cancel_partition-IsStopped (PartitionRuntime.pending n) = tt
cancel_partition-IsStopped (PartitionRuntime.active t w l s) = tt
cancel_partition-IsStopped (PartitionRuntime.cancelling t w l) = tt
cancel_partition-IsStopped (PartitionRuntime.succeeded t b) = tt
cancel_partition-IsStopped (PartitionRuntime.failed n e r) = tt
cancel_partition-IsStopped PartitionRuntime.cancelled = tt

Edge-IsStopped : {p q : PartitionRuntime} → Edge p q → IsStopped p → IsStopped q
Edge-IsStopped (Edge.lease e) h = absurd h
Edge-IsStopped Edge.start h = absurd h
Edge-IsStopped Edge.commit h = tt
Edge-IsStopped (Edge.retry e) h = absurd h
Edge-IsStopped (Edge.give_up e) h = absurd h
Edge-IsStopped Edge.withdraw h = tt
Edge-IsStopped Edge.stop h = tt
Edge-IsStopped Edge.settle h = tt
Edge-IsStopped Edge.drop_pending h = tt
Edge-IsStopped Edge.drop_failed h = tt

Route-IsStopped : {p q : PartitionRuntime} → Route p q → IsStopped p → IsStopped q
Route-IsStopped here h = h
Route-IsStopped (onward r e) h = Edge-IsStopped e (Route-IsStopped r h)

Edge-cancelled : {p q : PartitionRuntime} → Edge p q → p ≡ PartitionRuntime.cancelled → ⊥
Edge-cancelled (Edge.lease e) h = cc
Edge-cancelled Edge.start h = cc
Edge-cancelled Edge.commit h = cc
Edge-cancelled (Edge.retry e) h = cc
Edge-cancelled (Edge.give_up e) h = cc
Edge-cancelled Edge.withdraw h = cc
Edge-cancelled Edge.stop h = cc
Edge-cancelled Edge.settle h = cc
Edge-cancelled Edge.drop_pending h = cc
Edge-cancelled Edge.drop_failed h = cc

Route-cancelled :
    {p q : PartitionRuntime}
    → Route p q
    → p ≡ PartitionRuntime.cancelled
    → q ≡ PartitionRuntime.cancelled
Route-cancelled here h = h
Route-cancelled (onward r e) h = absurd (Edge-cancelled e (Route-cancelled r h))

-- The first cancellation stops every partition of its query.
cancel-at :
    (codec : PlanCodec) (q : QueryId) (reason : String) (c : Coordinator) (m : CoordinatorMessage)
    (key : StageKey) (i : ℕ) (p : PartitionRuntime)
    → get q c.cancelled_queries ≡ none
    → (cancel codec q reason c).0 ≡ ok m
    → key.0 ≡ q
    → partition_at c key i ≡ some p
    → partition_at (cancel codec q reason c).1 key i ≡ some (cancel_partition p)
unfolding partition_at
cancel-at codec q reason c m key i p fresh h same there =
    let (_, state, _) = accepted_cancel codec q reason c m h in
    rw state (
      unfold cancel_new in
      rw fresh
        (at_index-cancel_stages q c.stages key i ∙ rw there (rw same (rw (key_eq_self q) refl))))

all-get {ℓ} :
    {A : Type ℓ} (f : A → Bool) (xs : List A) (i : ℕ) (a : A)
    → get_elem? xs i ≡ some a
    → f a ≡ false
    → all f xs ≡ false
all-get f [] i a h g = absurd (ground (arith, h))
all-get f (x ∷ xs) zero a h g = ground arith
all-get f (x ∷ xs) (suc i) a h g = ground (arith, all-get f xs i a h g)

-- A stage one of whose partitions is cancelled does not count as succeeded.
stage_status-cancelled :
    (c : Coordinator) (key : StageKey) (i : ℕ)
    → partition_at c key i ≡ some PartitionRuntime.cancelled
    → stage_status c key.0 key.1 ≢ ok StageStatus.succeeded
unfolding stage_status status_of partition_at
stage_status-cancelled c key i h e = elim (Option-cases (get key c.stages)) [
  | inl missing ↦ absurd (ground (arith, missing, h))
  | inr (stage, there) ↦
      let unfinished =
        all-get is_succeeded stage.partitions i PartitionRuntime.cancelled (rw there at h) refl in
      ground (arith, there, unfinished, e)
]

module _ (codec : PlanCodec) (config : CoordinatorConfig) {c : Coordinator}
    (started : new config ≡ ok c) (ranged : config.max_task_attempts ≤ u32_max) where
  -- Whatever calls come before and after the first cancellation of a query: every partition that the
  -- query had is stopped from then on, and is never pending, active or failed again.
  pub run-cancel-IsStopped :
      (calls later : List Call) (q : QueryId) (reason : String) (m : CoordinatorMessage)
      (key : StageKey) (i : ℕ) (p : PartitionRuntime)
      → get q (run codec c calls).cancelled_queries ≡ none
      → (cancel codec q reason (run codec c calls)).0 ≡ ok m
      → key.0 ≡ q
      → partition_at (run codec c calls) key i ≡ some p
      → (r : PartitionRuntime) × (partition_at
            (run codec (cancel codec q reason (run codec c calls)).1 later)
            key
            i
          ≡ some r)
        × IsStopped r
  unfolding run partition_at
  run-cancel-IsStopped calls later q reason m key i p fresh h same there =
      let s = (cancel codec q reason (run codec c calls)).1 in
      let before = after_run-Evolves codec config started ranged [] calls in
      let e = after_run-Evolves codec config started ranged calls (cancels q reason ∷ []) in
      let (given, _, _, _) = new-fields config started in
      let same_config : s.config ≡ config = e.config ∙ before.config ∙ given in
      let bound : s.config.max_task_attempts ≤ u32_max = rw same_config ranged in
      let now = cancel-at codec q reason (run codec c calls) m key i p fresh h same there in
      let f = (run-Evolves codec s later bound e.distinct).moves key i (cancel_partition p) now in
      (f.to, f.is_there, Route-IsStopped f.route (cancel_partition-IsStopped p))

  -- A partition that is cancelled stays so, whatever calls follow, and the status of its stage is never
  -- that it has succeeded.
  pub cancelled_partition_blocks_stage :
      (calls later : List Call) (key : StageKey) (i : ℕ)
      → partition_at (run codec c calls) key i ≡ some PartitionRuntime.cancelled
      → (partition_at (run codec (run codec c calls) later) key i ≡ some PartitionRuntime.cancelled)
        × (stage_status (run codec (run codec c calls) later) key.0 key.1
            ≢ ok StageStatus.succeeded)
  cancelled_partition_blocks_stage calls later key i h =
      let f = run-Follows codec config started ranged calls later key i _ h in
      let stays = f.is_there ∙ ap some (Route-cancelled f.route refl) in
      (stays, stage_status-cancelled (run codec (run codec c calls) later) key i stays)
