-- ===== src/Coordinator/Assign/Keeps.antt =====
-- src/cluster/coordinator.rs, `assign_to_worker`: what holds before it and is kept by its writes.
use spark_x_distributed_quer.Base.{ℕ, ◌≡◌, some, str_ord, nat_ord, pair_ord, Option-cases, inl, inr}
use spark_x_distributed_quer.Error.{ok}
use spark_x_distributed_quer.Error.Exec.{proceed, proceed-keeps}
use spark_x_distributed_quer.Protocol.{WorkerId, PlanCodec, validate_coordinator_message}
use spark_x_distributed_quer.Coordinator.State.{StageKey, Coordinator}
use spark_x_distributed_quer.Coordinator.Assign.{
  Selection, next_pending_partition, select, check_lease, write_lease, lease_out, assignment, send,
  assign_selected, assign_to_worker,
}

module _ {ν} (P : Coordinator → Type ν) (codec : PlanCodec) (w : WorkerId) (now_ms : ℕ)
    (s : Coordinator) (h : P s) where
  lease_out-keeps : (x : Selection) → P (write_lease w x s) → P (lease_out w x s).1
  unfolding lease_out
  lease_out-keeps x moved =
      proceed-keeps P (check_lease w x s) (λ _ d. (ok tt, write_lease w x d)) s h (λ _ _. moved)

  send-keeps : (x : Selection) (d : Coordinator) → P d → P (send codec x d).1
  unfolding send
  send-keeps x d there =
      proceed-keeps P (validate_coordinator_message codec (assignment x))
        (λ _ e. (ok (some (assignment x)), e)) d there (λ _ _. there)

  assign_selected-keeps :
      (key : StageKey) (index attempt : ℕ)
      → ((x : Selection) → select s w now_ms key index attempt ≡ ok x → P (write_lease w x s))
      → P (assign_selected codec w now_ms (key, index, attempt) s).1
  unfolding assign_selected
  assign_selected-keeps key index attempt written =
      proceed-keeps P (select s w now_ms key index attempt)
        (λ x d. proceed (lease_out w x d).0 (λ _ e. send codec x e) (lease_out w x d).1) s h
        λ x selected.
          let leased = lease_out-keeps x (written x selected) in
          proceed-keeps P (lease_out w x s).0 (λ _ e. send codec x e) (lease_out w x s).1 leased
            (λ _ _. send-keeps x (lease_out w x s).1 leased)

  pub assign_to_worker-keeps :
      ((key : StageKey) (index attempt : ℕ) (x : Selection)
        → next_pending_partition s ≡ some (key, index, attempt)
        → select s w now_ms key index attempt ≡ ok x
        → P (write_lease w x s))
      → P (assign_to_worker codec w now_ms s).1
  unfolding assign_to_worker
  assign_to_worker-keeps written = elim (Option-cases (next_pending_partition s)) [
    | inl nothing ↦ rw (nothing, assign_to_worker) h
    | inr ((key, index, attempt), chosen) ↦
        rw (chosen, assign_to_worker)
          (assign_selected-keeps key index attempt (λ x. written key index attempt x chosen))
  ]
