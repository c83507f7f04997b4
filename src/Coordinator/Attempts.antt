-- ===== src/Coordinator/Attempts.antt =====
-- src/cluster/coordinator.rs: no partition goes past the configured number of attempts.
pub mod Limit
pub mod Histories
use spark_x_distributed_quer.Base.{
  ℕ, suc, zero, ◌<◌, ◌≤◌, ◌≡◌, refl, none, some, List, [], ◌∷◌, map, All, All-replicate, arith,
  get_elem?, set, String, u32_max, Option-cases, Bool-cases, inl, inr, if◌then◌else◌, str_ord,
  nat_ord, pair_ord, key_eq,
}
use spark_x_distributed_quer.BTreeMap.{BTreeMap, get, Distinct}
use spark_x_distributed_quer.BTreeMap.Entries.{Entries, Entries-get, Entries-insert, Entries-modify}
use spark_x_distributed_quer.Coordinator.State.{
  PartitionRuntime, StageKey, StageRuntime, CoordinatorConfig, Coordinator, new, retry_or_fail,
}
use spark_x_distributed_quer.Protocol.{WorkerId, QueryId}
use spark_x_distributed_quer.Coordinator.Time.{set_partition}
use spark_x_distributed_quer.Coordinator.Time.Expiry.{expire, expire_stages}
use spark_x_distributed_quer.Coordinator.Cancel.{cancel_partition, cancel_stages}

-- The attempt that a partition waits for, runs, stops or failed in is below the bound.
abbrev pub IsBelow : ℕ → PartitionRuntime → Type 0
IsBelow maximum (PartitionRuntime.pending next_attempt) = next_attempt < maximum
IsBelow maximum (PartitionRuntime.active task worker_id lease started_at_ms) =
    task.attempt < maximum
IsBelow maximum (PartitionRuntime.cancelling task worker_id lease) = task.attempt < maximum
IsBelow maximum (PartitionRuntime.succeeded task output_blocks) = task.attempt < maximum
IsBelow maximum (PartitionRuntime.failed attempt error retryable) = attempt < maximum
IsBelow maximum PartitionRuntime.cancelled = Unit

abbrev pub AllBelow : ℕ → BTreeMap StageKey StageRuntime → Type 0
AllBelow maximum = Entries (λ _ stage. All (IsBelow maximum) stage.partitions)

pub retry_or_fail-IsBelow :
    (maximum attempt : ℕ) (error : String)
    → attempt < maximum
    → IsBelow maximum (retry_or_fail maximum attempt error)
unfolding retry_or_fail
retry_or_fail-IsBelow maximum attempt error h = ground arith

expire-IsBelow :
    (maximum now_ms : ℕ) (silent : List WorkerId) (p : PartitionRuntime)
    → IsBelow maximum p
    → IsBelow maximum (expire maximum now_ms silent p)
unfolding expire
expire-IsBelow maximum now_ms silent (PartitionRuntime.active t w l s) h = ground (
  arith,
  retry_or_fail-IsBelow maximum t.attempt "worker heartbeat timed out" h,
  retry_or_fail-IsBelow maximum t.attempt "task lease expired" h,
)
expire-IsBelow maximum now_ms silent (PartitionRuntime.cancelling t w l) h = ground arith
expire-IsBelow maximum now_ms silent _ h = h

cancel_partition-IsBelow :
    (maximum : ℕ) (p : PartitionRuntime) → IsBelow maximum p → IsBelow maximum (cancel_partition p)
unfolding cancel_partition
cancel_partition-IsBelow maximum (PartitionRuntime.active t w l s) h = h
cancel_partition-IsBelow maximum (PartitionRuntime.succeeded t b) h = h
cancel_partition-IsBelow maximum _ h = tt

module _ {ℓ κ} {A : Type ℓ} (P : A → Type κ) (f : A → A) (keeps : (a : A) → P a → P (f a)) where
  All-map : (xs : List A) → All P xs → All P (map f xs)
  All-map [] h = tt
  All-map (x ∷ xs) h = (keeps x h.0, All-map xs h.1)

pub All-set {ℓ κ} :
    {A : Type ℓ} (P : A → Type κ) (xs : List A) (i : ℕ) (v : A)
    → P v
    → All P xs
    → All P (set xs i v)
All-set P [] i v p h = tt
All-set P (x ∷ xs) zero v p h = (p, h.1)
All-set P (x ∷ xs) (suc i) v p h = (h.0, All-set P xs i v p h.1)

pub All-get {ℓ κ} :
    {A : Type ℓ} (P : A → Type κ) (xs : List A) (i : ℕ) {a : A}
    → get_elem? xs i ≡ some a
    → All P xs
    → P a
All-get P [] i e h = absurd (ground (arith, e))
All-get P (x ∷ xs) zero e h = ground (arith, e, h.0)
All-get P (x ∷ xs) (suc i) e h = All-get P xs i e h.1

pub expire_stages-AllBelow :
    (maximum now_ms : ℕ) (silent : List WorkerId) (m : BTreeMap StageKey StageRuntime)
    → AllBelow maximum m
    → AllBelow maximum (expire_stages maximum now_ms silent m)
unfolding expire_stages
expire_stages-AllBelow maximum now_ms silent [] h = tt
expire_stages-AllBelow maximum now_ms silent ((key, stage) ∷ rest) h = (
  All-map (IsBelow maximum) (expire maximum now_ms silent) (expire-IsBelow maximum now_ms silent)
      stage.partitions h.0,
  expire_stages-AllBelow maximum now_ms silent rest h.1,
)

pub cancel_stages-AllBelow :
    (maximum : ℕ) (q : QueryId) (m : BTreeMap StageKey StageRuntime)
    → AllBelow maximum m
    → AllBelow maximum (cancel_stages q m)
unfolding cancel_stages
cancel_stages-AllBelow maximum q [] h = tt
cancel_stages-AllBelow maximum q ((key, stage) ∷ rest) h = elim (Bool-cases (key_eq key.0 q)) [
  | inl same ↦ rw same (
    All-map (IsBelow maximum) cancel_partition (cancel_partition-IsBelow maximum) stage.partitions
        h.0,
    cancel_stages-AllBelow maximum q rest h.1,
  )
  | inr other ↦ rw other (h.0, cancel_stages-AllBelow maximum q rest h.1)
]
