-- ===== src/Coordinator/Lifecycle/Methods.antt =====
-- src/cluster/coordinator.rs: every method moves the partitions along the diagram.
use mathlib.Core.Option
use spark_x_distributed_quer.Base.{
  ℕ, ◌+◌, ◌<◌, ◌⊎◌, ◌||◌, leb, subst, ◌≡◌, ◌≤◌, refl, Bool, true, false, Option, none, some, List,
  [], ◌∷◌, map, key_eq, str_ord, nat_ord, pair_ord, get_elem?, get_elem?-map, arith, Bool-cases,
  inl, inr, if◌then◌else◌, key_eq_iff, u32_max, String,
}
use spark_x_distributed_quer.BTreeMap.{BTreeMap, get, Distinct}
use spark_x_distributed_quer.Protocol.{WorkerId, QueryId, TaskAttemptId, TaskLease}
use spark_x_distributed_quer.Coordinator.State.{
  PartitionRuntime, StageKey, StageRuntime, retry_or_fail,
}
use spark_x_distributed_quer.Coordinator.Time.{has_worker}
use spark_x_distributed_quer.Coordinator.Time.Expiry.{expire, expire_stages}
use spark_x_distributed_quer.Coordinator.Cancel.{cancel_stages, cancel_partition}
use spark_x_distributed_quer.Coordinator.Lifecycle.{
  retry, give_up, stop, settle, drop_pending, drop_failed, Route, here, onward, Moves, at_index,
}
use spark_x_distributed_quer.Coordinator.Lifecycle.Writes.{Moves-map}

if-Route :
    (p x y : PartitionRuntime) (b : Bool)
    → (b ≡ true → Route p x)
    → (b ≡ false → Route p y)
    → Route p (if b then x else y)
if-Route p x y true f g = f refl
if-Route p x y false f g = g refl

-- Below the bound on attempts the next one is one more.
pub retry_or_fail_cases :
    (maximum attempt : ℕ) (error : String)
    → maximum ≤ u32_max
    → (retry_or_fail maximum attempt error ≡ PartitionRuntime.pending (attempt + 1))
        × (attempt + 1 < maximum)
      ⊎ (retry_or_fail maximum attempt error ≡ PartitionRuntime.failed attempt error true)
        × (maximum ≤ attempt + 1)
unfolding retry_or_fail
retry_or_fail_cases maximum attempt error h = ground arith

pub retry_or_fail-Route :
    (maximum : ℕ) (error : String) (t : TaskAttemptId) (w : WorkerId) (l : TaskLease) (s : Option ℕ)
    → maximum ≤ u32_max
    → Route (PartitionRuntime.active t w l s) (retry_or_fail maximum t.attempt error)
retry_or_fail-Route maximum error t w l s h = elim (retry_or_fail_cases maximum t.attempt error h) [
  | inl again ↦ rw again.0 (onward here (retry refl))
  | inr over ↦ rw over.0 (onward here (give_up refl))
]

expire-Route :
    (maximum now_ms : ℕ) (silent : List WorkerId) (p : PartitionRuntime)
    → maximum ≤ u32_max
    → Route p (expire maximum now_ms silent p)
unfolding expire
expire-Route maximum now_ms silent (PartitionRuntime.active t w l s) h =
    if-Route _ _ _ (has_worker silent w) (λ _. retry_or_fail-Route maximum _ t w l s h)
      (λ _.
        if-Route _ _ _ (leb l.expires_at_ms now_ms) (λ _. retry_or_fail-Route maximum _ t w l s h)
          (λ _. here))
expire-Route maximum now_ms silent (PartitionRuntime.cancelling t w l) h =
    if-Route _ _ _ (has_worker silent w || leb l.expires_at_ms now_ms) (λ _. onward here settle)
      (λ _. here)
expire-Route maximum now_ms silent _ h = here

pub at_index-expire_stages :
    (maximum now_ms : ℕ) (silent : List WorkerId) (m : BTreeMap StageKey StageRuntime)
    (key : StageKey) (i : ℕ)
    → at_index i (get key (expire_stages maximum now_ms silent m))
      ≡ Option.map (expire maximum now_ms silent) (at_index i (get key m))
unfolding expire_stages get
at_index-expire_stages maximum now_ms silent [] key i = refl
at_index-expire_stages maximum now_ms silent ((j, stage) ∷ rest) key i = ground (
  arith,
  get_elem?-map (expire maximum now_ms silent) stage.partitions i,
  at_index-expire_stages maximum now_ms silent rest key i,
)

cancel_partition-Route : (p : PartitionRuntime) → Route p (cancel_partition p)
unfolding cancel_partition
cancel_partition-Route (PartitionRuntime.pending n) = onward here drop_pending
cancel_partition-Route (PartitionRuntime.active t w l s) = onward here stop
cancel_partition-Route (PartitionRuntime.cancelling t w l) = onward here settle
cancel_partition-Route (PartitionRuntime.succeeded t b) = here
cancel_partition-Route (PartitionRuntime.failed n e r) = onward here drop_failed
cancel_partition-Route PartitionRuntime.cancelled = here

abbrev pub cancel_at : QueryId → StageKey → PartitionRuntime → PartitionRuntime
cancel_at query_id key p = if key_eq key.0 query_id then cancel_partition p else p

cancel_at-Route :
    (query_id : QueryId) (key : StageKey) (p : PartitionRuntime)
    → Route p (cancel_at query_id key p)
cancel_at-Route query_id key p = elim (Bool-cases (key_eq key.0 query_id)) [
  | inl same ↦ rw same (cancel_partition-Route p)
  | inr other ↦ rw other here
]

pub at_index-cancel_stages :
    (query_id : QueryId) (m : BTreeMap StageKey StageRuntime) (key : StageKey) (i : ℕ)
    → at_index i (get key (cancel_stages query_id m))
      ≡ Option.map (cancel_at query_id key) (at_index i (get key m))
unfolding cancel_stages get
at_index-cancel_stages query_id [] key i = refl
at_index-cancel_stages query_id ((j, stage) ∷ rest) key i = elim (Bool-cases (key_eq j key)) [
  | inl same ↦ rw same (
      subst
        (λ (k : StageKey).
          at_index i (
            some (
              if key_eq j.0 query_id
              then record stage { partitions = map cancel_partition stage.partitions }
              else stage))
          ≡ Option.map (cancel_at query_id k) (get_elem? stage.partitions i))
        ((key_eq_iff j key).0 same)
        (ground (arith, get_elem?-map cancel_partition stage.partitions i)))
  | inr other ↦ rw other (at_index-cancel_stages query_id rest key i)
]

pub expire_stages-Moves :
    (maximum now_ms : ℕ) (silent : List WorkerId) (m : BTreeMap StageKey StageRuntime)
    → maximum ≤ u32_max
    → Moves m (expire_stages maximum now_ms silent m)
expire_stages-Moves maximum now_ms silent m h =
    Moves-map m (expire_stages maximum now_ms silent m) (λ _ p. expire maximum now_ms silent p)
      (λ _ p. expire-Route maximum now_ms silent p h)
      (at_index-expire_stages maximum now_ms silent m)

pub cancel_stages-Moves :
    (query_id : QueryId) (m : BTreeMap StageKey StageRuntime) → Moves m (cancel_stages query_id m)
cancel_stages-Moves query_id m =
    Moves-map m (cancel_stages query_id m) (cancel_at query_id) (cancel_at-Route query_id)
      (at_index-cancel_stages query_id m)

get-cancel_stages :
    (query_id : QueryId) (k : StageKey) (m : BTreeMap StageKey StageRuntime)
    → get k m ≡ none
    → get k (cancel_stages query_id m) ≡ none
unfolding cancel_stages get
get-cancel_stages query_id k [] h = refl
get-cancel_stages query_id k ((j, stage) ∷ rest) h =
    ground (arith, get-cancel_stages query_id k rest)

pub cancel_stages-Distinct :
    (query_id : QueryId) (m : BTreeMap StageKey StageRuntime)
    → Distinct m
    → Distinct (cancel_stages query_id m)
unfolding cancel_stages
cancel_stages-Distinct query_id [] d = tt
cancel_stages-Distinct query_id ((j, stage) ∷ rest) d =
    (get-cancel_stages query_id j rest d.0, cancel_stages-Distinct query_id rest d.1)
