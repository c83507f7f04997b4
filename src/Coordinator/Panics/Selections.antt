-- ===== src/Coordinator/Panics/Selections.antt =====
-- src/cluster/coordinator.rs: the choice of a partition finds everything that it looks up.
use spark_x_distributed_quer.Base.{
  ℕ, ◌≡◌, refl, ◌++◌, List, [], ◌∷◌, all, true, arith, &&_true, Option-cases, inl, inr, str_ord,
  nat_ord, pair_ord, checked_add_u64, u32_try_from, subst,
}
use spark_x_distributed_quer.BTreeMap.{BTreeMap, get}
use spark_x_distributed_quer.Error.{ok, IsPanic}
use spark_x_distributed_quer.Protocol.{QueryId, WorkerId, StageId, ShuffleBlock}
use spark_x_distributed_quer.Coordinator.State.{
  PartitionRuntime, StageKey, StageRuntime, Coordinator, is_succeeded,
}
use spark_x_distributed_quer.Coordinator.Status.{is_done, dependencies_succeeded}
use spark_x_distributed_quer.Coordinator.Assign.{
  succeeded_blocks, collect_blocks, dependency_output_blocks, select,
}
use spark_x_distributed_quer.Coordinator.Assign.Selected.{IsChosen}

succeeded_blocks-ok :
    (ps : List PartitionRuntime)
    → all is_succeeded ps ≡ true
    → (blocks : List ShuffleBlock) × (succeeded_blocks ps ≡ ok blocks)
unfolding succeeded_blocks
succeeded_blocks-ok [] h = ([], refl)
succeeded_blocks-ok (PartitionRuntime.succeeded t b ∷ ps) h =
    let (rest, e) = succeeded_blocks-ok ps h in (b ++ rest, rw e refl)
succeeded_blocks-ok (PartitionRuntime.pending n ∷ ps) h = absurd (ground (arith, h))
succeeded_blocks-ok (PartitionRuntime.active t w l s ∷ ps) h = absurd (ground (arith, h))
succeeded_blocks-ok (PartitionRuntime.cancelling t w l ∷ ps) h = absurd (ground (arith, h))
succeeded_blocks-ok (PartitionRuntime.failed n e r ∷ ps) h = absurd (ground (arith, h))
succeeded_blocks-ok (PartitionRuntime.cancelled ∷ ps) h = absurd (ground (arith, h))

collect_blocks-ok :
    (stages : BTreeMap StageKey StageRuntime) (key : StageKey) (ds : List StageId)
    → all (λ d. is_done (get (key.0, d) stages)) ds ≡ true
    → (blocks : List ShuffleBlock) × (collect_blocks stages key ds ≡ ok blocks)
unfolding collect_blocks
collect_blocks-ok stages key [] h = ([], refl)
collect_blocks-ok stages key (d ∷ ds) h =
    let (done, later) = &&_true (is_done (get (key.0, d) stages)) _ h in
    let (rest, e) = collect_blocks-ok stages key ds later in
    elim (Option-cases (get (key.0, d) stages)) [
      | inl missing ↦ absurd (ground (arith, missing, done))
      | inr (stage, there) ↦
          let (blocks, f) = succeeded_blocks-ok stage.partitions (rw there at done) in
          (blocks ++ rest, rw (there, f, e) refl)
    ]

-- The input of a chosen partition can be collected.
pub dependency_output_blocks-ok :
    (c : Coordinator) (key : StageKey) (index attempt : ℕ)
    (p : IsChosen c c.stages key index attempt)
    → p.stage.plan.query_id ≡ key.0
    → (blocks : List ShuffleBlock) × (dependency_output_blocks c key ≡ ok blocks)
unfolding dependency_output_blocks
dependency_output_blocks-ok c key index attempt p same =
    let ready =
      subst
        (λ (q : QueryId). all (λ d. is_done (get (q, d) c.stages)) p.stage.plan.input_stages ≡ true)
        same (unfold dependencies_succeeded in p.is_ready) in
    let (blocks, e) = collect_blocks-ok c.stages key p.stage.plan.input_stages ready in
    (blocks, rw (p.has_stage, e) refl)

pub select_returns :
    (c : Coordinator) (w : WorkerId) (now_ms : ℕ) (key : StageKey) (index attempt : ℕ)
    (p : IsChosen c c.stages key index attempt)
    → p.stage.plan.query_id ≡ key.0
    → ¬ IsPanic (select c w now_ms key index attempt)
unfolding select
select_returns c w now_ms key index attempt p same =
    let (blocks, e) = dependency_output_blocks-ok c key index attempt p same in
    elim (Option-cases (checked_add_u64 now_ms c.config.lease_duration_ms)) [
      | inl over ↦ rw over (λ x. x)
      | inr (at, f) ↦ elim (Option-cases (u32_try_from index)) [
        | inl over ↦ rw (f, over) (λ x. x)
        | inr (i, g) ↦ rw (f, g, e, p.has_stage) (λ x. x)
      ]
    ]
