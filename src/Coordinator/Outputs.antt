-- ===== src/Coordinator/Outputs.antt =====
-- src/cluster/coordinator.rs: the input of a task against the outputs that stages report.
use spark_x_distributed_quer.Base.{
  ◌≡◌, refl, ◌++◌, some, List, [], ◌∷◌, all, true, arith, &&_true, Option-cases, inl, inr, str_ord,
  nat_ord, pair_ord, subst,
}
use spark_x_distributed_quer.BTreeMap.{get}
use spark_x_distributed_quer.Error.{Result, ok, ◌>>=◌}
use spark_x_distributed_quer.Protocol.{QueryId, StageId, ShuffleBlock}
use spark_x_distributed_quer.Coordinator.State.{
  PartitionRuntime, StageKey, StageRuntime, Coordinator, is_succeeded,
}
use spark_x_distributed_quer.Coordinator.Status.{
  is_done, dependencies_succeeded, committed_blocks, stage_output_blocks,
}
use spark_x_distributed_quer.Coordinator.Assign.{
  succeeded_blocks, collect_blocks, dependency_output_blocks,
}

-- The outputs that the stages of a list report, one after the other.
unfoldable pub outputs_of : Coordinator → QueryId → List StageId → Result (List ShuffleBlock)
unfolding stage_output_blocks
outputs_of c q [] = ok []
outputs_of c q (d ∷ ds) = do
  blocks ← stage_output_blocks c q d
  rest ← outputs_of c q ds
  ok (blocks ++ rest)

succeeded_blocks-committed :
    (ps : List PartitionRuntime)
    → all is_succeeded ps ≡ true
    → succeeded_blocks ps ≡ ok (committed_blocks ps)
unfolding succeeded_blocks committed_blocks
succeeded_blocks-committed [] h = refl
succeeded_blocks-committed (PartitionRuntime.succeeded t b ∷ ps) h =
    rw (succeeded_blocks-committed ps h) refl
succeeded_blocks-committed (PartitionRuntime.pending n ∷ ps) h = absurd (ground (arith, h))
succeeded_blocks-committed (PartitionRuntime.active t w l s ∷ ps) h = absurd (ground (arith, h))
succeeded_blocks-committed (PartitionRuntime.cancelling t w l ∷ ps) h = absurd (ground (arith, h))
succeeded_blocks-committed (PartitionRuntime.failed n e r ∷ ps) h = absurd (ground (arith, h))
succeeded_blocks-committed (PartitionRuntime.cancelled ∷ ps) h = absurd (ground (arith, h))

stage_output_blocks-done :
    (c : Coordinator) (q : QueryId) (d : StageId) (stage : StageRuntime)
    → get (q, d) c.stages ≡ some stage
    → all is_succeeded stage.partitions ≡ true
    → stage_output_blocks c q d ≡ ok (committed_blocks stage.partitions)
unfolding stage_output_blocks
stage_output_blocks-done c q d stage e h = ground (arith, e, h)

collect_blocks-outputs :
    (c : Coordinator) (key : StageKey) (ds : List StageId)
    → all (λ d. is_done (get (key.0, d) c.stages)) ds ≡ true
    → collect_blocks c.stages key ds ≡ outputs_of c key.0 ds
unfolding collect_blocks outputs_of
collect_blocks-outputs c key [] h = refl
collect_blocks-outputs c key (d ∷ ds) h =
    let (done, later) = &&_true (is_done (get (key.0, d) c.stages)) _ h in
    let rest = collect_blocks-outputs c key ds later in
    elim (Option-cases (get (key.0, d) c.stages)) [
      | inl missing ↦ absurd (ground (arith, missing, done))
      | inr (stage, there) ↦
          let finished : all is_succeeded stage.partitions ≡ true = rw there at done in
          let reported = stage_output_blocks-done c key.0 d stage there finished in
          rw (reported, there, succeeded_blocks-committed stage.partitions finished, rest) refl
    ]

-- Once the dependencies of a stage have succeeded, the input that is collected for its tasks is
-- exactly what these dependencies report as their outputs, in the order in which the plan names them.
pub dependency_output_blocks-outputs :
    (c : Coordinator) (key : StageKey) (stage : StageRuntime)
    → get key c.stages ≡ some stage
    → stage.plan.query_id ≡ key.0
    → dependencies_succeeded c.stages stage.plan ≡ true
    → dependency_output_blocks c key ≡ outputs_of c key.0 stage.plan.input_stages
unfolding dependency_output_blocks
dependency_output_blocks-outputs c key stage e same ready =
    let done =
      subst
        (λ (q : QueryId). all (λ d. is_done (get (q, d) c.stages)) stage.plan.input_stages ≡ true)
        same (unfold dependencies_succeeded in ready) in
    rw (e, collect_blocks-outputs c key stage.plan.input_stages done) refl
