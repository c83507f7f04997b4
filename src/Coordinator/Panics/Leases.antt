-- ===== src/Coordinator/Panics/Leases.antt =====
-- src/cluster/coordinator.rs, `assign_to_worker`: an assignment to a worker that is free does not panic.
use spark_x_distributed_quer.Base.{
  ℕ, some, List, arith, Option-cases, inl, inr, str_ord, nat_ord, pair_ord,
}
use spark_x_distributed_quer.BTreeMap.Entries.{Entries-get}
use spark_x_distributed_quer.Error.{Result, ok, IsPanic}
use spark_x_distributed_quer.Error.Exec.{proceed, proceed-returns}
use spark_x_distributed_quer.Protocol.{WorkerId, PlanCodec, validate_coordinator_message}
use spark_x_distributed_quer.Coordinator.State.{StageKey, Coordinator}
use spark_x_distributed_quer.Coordinator.Assign.{
  Selection, next_pending_partition, select, check_lease, write_lease, lease_out, send, assignment,
  assign_selected, assign_to_worker,
}
use spark_x_distributed_quer.Coordinator.Assign.Selected.{
  IsChosen, IsSelection, next_pending_partition-IsChosen, select-IsSelection,
}
use spark_x_distributed_quer.Coordinator.Slots.Leases.{IsFree}
use spark_x_distributed_quer.Coordinator.Panics.{IsShaped, HasShape}
use spark_x_distributed_quer.Coordinator.Panics.Selections.{select_returns}
use spark_x_distributed_quer.Coordinator.Panics.Returns.{validate_coordinator_message_returns}

module _ (codec : PlanCodec)
    (decodes : (fragment : List ℕ) → ¬ IsPanic (codec.validate_fragment fragment))
    (c : Coordinator) where
  check_lease_returns :
      (w : WorkerId) (now_ms : ℕ) (key : StageKey) (index attempt : ℕ) (s : Coordinator)
      (x : Selection)
      → IsChosen s s.stages key index attempt
      → IsSelection s w now_ms key index attempt x
      → IsFree s w
      → ¬ IsPanic (check_lease w x s)
  unfolding check_lease
  check_lease_returns w now_ms key index attempt s x p q free =
      rw (q.same_key, q.same_index, p.has_stage, p.is_pending, free.is_there)
        (ground (arith, free.has_slot))

  lease_out_returns :
      (w : WorkerId) (x : Selection) (s : Coordinator)
      → ¬ IsPanic (check_lease w x s)
      → ¬ IsPanic (lease_out w x s).0
  unfolding lease_out
  lease_out_returns w x s h =
      proceed-returns (check_lease w x s) (λ _ d. (ok tt, write_lease w x d)) s h (λ _ _ x. x)

  send_returns : (x : Selection) (s : Coordinator) → ¬ IsPanic (send codec x s).0
  unfolding send
  send_returns x s =
      proceed-returns (validate_coordinator_message codec (assignment x))
        (λ _ f. (Result.ok (some (assignment x)), f)) s
        (validate_coordinator_message_returns codec decodes (assignment x)) (λ _ _ x. x)

  pub assign_to_worker_returns :
      (w : WorkerId) (now_ms : ℕ) (s : Coordinator)
      → IsFree s w
      → IsShaped c s
      → ¬ IsPanic (assign_to_worker codec w now_ms s).0
  unfolding assign_to_worker assign_selected
  assign_to_worker_returns w now_ms s free h = elim (Option-cases (next_pending_partition s)) [
    | inl nothing ↦ rw (nothing, assign_to_worker) (λ x. x)
    | inr ((key, index, attempt), chosen) ↦
        let p = next_pending_partition-IsChosen s key index attempt h.evolves.distinct chosen in
        let (same, _) = Entries-get HasShape key s.stages p.stage h.shaped p.has_stage in
        rw (chosen, assign_to_worker)
          (proceed-returns (select s w now_ms key index attempt)
            (λ x d. proceed (lease_out w x d).0 (λ _ e. send codec x e) (lease_out w x d).1) s
            (select_returns s w now_ms key index attempt p same)
            λ x selected.
              let q = select-IsSelection s w now_ms key index attempt x selected in
              proceed-returns (lease_out w x s).0 (λ _ e. send codec x e) (lease_out w x s).1
                (lease_out_returns w x s
                  (check_lease_returns w now_ms key index attempt s x p q free))
                (λ _ _. send_returns x (lease_out w x s).1))
  ]
