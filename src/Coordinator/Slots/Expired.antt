-- ===== src/Coordinator/Slots/Expired.antt =====
-- src/cluster/coordinator.rs, `advance_time`: every slot that a partition gives up stands in the list
-- of expired tasks.
use spark_x_distributed_quer.Base.{
  ℕ, suc, ◌+◌, ◌≡◌, refl, List, [], ◌∷◌, ◌++◌, map, arith, String, key_eq, str_ord, nat_ord,
  pair_ord, if◌then◌else◌,
}
use spark_x_distributed_quer.BTreeMap.{BTreeMap}
use spark_x_distributed_quer.Protocol.{WorkerId}
use spark_x_distributed_quer.Coordinator.State.{
  PartitionRuntime, StageKey, StageRuntime, retry_or_fail,
}
use spark_x_distributed_quer.Coordinator.Workers.{count_occupied, count_active}
use spark_x_distributed_quer.Coordinator.Time.{
  Expired, expired_entry, expired_in_stage, expired_tasks,
}
use spark_x_distributed_quer.Coordinator.Time.Expiry.{expire, expire_stages}
use spark_x_distributed_quer.Coordinator.Slots.Counts.{slots_of, count_occupied-cons}

-- The entries that name a worker.
unfoldable pub entries_of : WorkerId → List Expired → ℕ
entries_of w [] = 0
entries_of w (e ∷ es) = (if key_eq e.worker_id w then 1 else 0) + entries_of w es

pub entries_of-append :
    (w : WorkerId) (xs ys : List Expired)
    → entries_of w (xs ++ ys) ≡ entries_of w xs + entries_of w ys
unfolding entries_of
entries_of-append w [] ys = omega arith
entries_of-append w (x ∷ xs) ys = omega (arith, entries_of-append w xs ys)

pub retry_or_fail-slots_of :
    (w : WorkerId) (maximum a : ℕ) (e : String) → slots_of w (retry_or_fail maximum a e) ≡ 0
unfolding slots_of retry_or_fail
retry_or_fail-slots_of w maximum a e = ground arith

-- Every slot that a partition gives up stands in the scan's list.
pub expire-slots_of :
    (w : WorkerId) (maximum now_ms : ℕ) (silent : List WorkerId) (key : StageKey) (index : ℕ)
    (p : PartitionRuntime)
    → slots_of w (expire maximum now_ms silent p)
        + entries_of w (expired_entry now_ms silent key index p)
      ≡ slots_of w p
unfolding expire entries_of expired_entry
expire-slots_of w maximum now_ms silent key index (PartitionRuntime.active t v l s) =
    unfold slots_of in
    ground (
      arith,
      retry_or_fail-slots_of w maximum t.attempt "worker heartbeat timed out",
      retry_or_fail-slots_of w maximum t.attempt "task lease expired",
    )
expire-slots_of w maximum now_ms silent key index (PartitionRuntime.cancelling t v l) =
    unfold slots_of in ground arith
expire-slots_of w maximum now_ms silent key index _ = unfold slots_of in ground arith

pub expired_in_stage-count :
    (w : WorkerId) (maximum now_ms : ℕ) (silent : List WorkerId) (key : StageKey) (index : ℕ)
    (ps : List PartitionRuntime)
    → count_occupied w (map (expire maximum now_ms silent) ps)
        + entries_of w (expired_in_stage now_ms silent key index ps)
      ≡ count_occupied w ps
unfolding expired_in_stage
expired_in_stage-count w maximum now_ms silent key index [] =
    unfold count_occupied entries_of in refl
expired_in_stage-count w maximum now_ms silent key index (p ∷ ps) = omega (
  arith,
  count_occupied-cons w p ps,
  count_occupied-cons w (expire maximum now_ms silent p) (map (expire maximum now_ms silent) ps),
  entries_of-append w (expired_entry now_ms silent key index p)
      (expired_in_stage now_ms silent key (suc index) ps),
  expire-slots_of w maximum now_ms silent key index p,
  expired_in_stage-count w maximum now_ms silent key (suc index) ps,
)

pub expired_tasks-count :
    (w : WorkerId) (maximum now_ms : ℕ) (silent : List WorkerId)
    (m : BTreeMap StageKey StageRuntime)
    → count_active w (expire_stages maximum now_ms silent m)
        + entries_of w (expired_tasks now_ms silent m)
      ≡ count_active w m
unfolding expired_tasks expire_stages count_active
expired_tasks-count w maximum now_ms silent [] = unfold entries_of in refl
expired_tasks-count w maximum now_ms silent ((key, stage) ∷ rest) = omega (
  arith,
  entries_of-append w (expired_in_stage now_ms silent key 0 stage.partitions)
      (expired_tasks now_ms silent rest),
  expired_in_stage-count w maximum now_ms silent key 0 stage.partitions,
  expired_tasks-count w maximum now_ms silent rest,
)
