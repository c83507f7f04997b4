-- ===== src/Coordinator/Slots/Counts.antt =====
-- The number of partitions that occupy a worker's slots, after each kind of write to the stages.
use spark_x_distributed_quer.Base.{
  ℕ, zero, suc, ap, some_eq, ◌+◌, ◌≤◌, ◌≡◌, refl, none, some, List, [], ◌∷◌, map, replicate, arith,
  str_ord, nat_ord, pair_ord, if◌then◌else◌, set, get_elem?,
}
use spark_x_distributed_quer.BTreeMap.{BTreeMap, get, modify, insert, total}
use spark_x_distributed_quer.BTreeMap.Entries.{total-insert, total-modify}
use spark_x_distributed_quer.Protocol.{WorkerId}
use spark_x_distributed_quer.Coordinator.State.{PartitionRuntime, StageKey, StageRuntime}
use spark_x_distributed_quer.Coordinator.Workers.{occupies, count_occupied, count_active}
use spark_x_distributed_quer.Coordinator.Time.{set_partition}

-- One, if the partition occupies a slot of the worker.
unfoldable pub slots_of : WorkerId → PartitionRuntime → ℕ
unfolding occupies
slots_of w p = if occupies w p then 1 else 0

pub count_occupied-cons :
    (w : WorkerId) (p : PartitionRuntime) (ps : List PartitionRuntime)
    → count_occupied w (p ∷ ps) ≡ slots_of w p + count_occupied w ps
unfolding count_occupied slots_of
count_occupied-cons w p ps = refl

count_occupied-set :
    (w : WorkerId) (ps : List PartitionRuntime) (i : ℕ) (p v : PartitionRuntime)
    → get_elem? ps i ≡ some p
    → count_occupied w (set ps i v) + slots_of w p ≡ count_occupied w ps + slots_of w v
count_occupied-set w [] i p v h = absurd (ground (arith, h))
count_occupied-set w (x ∷ ps) zero p v h =
    omega
      (arith, count_occupied-cons w x ps, count_occupied-cons w v ps, ap (slots_of w) (some_eq h))
count_occupied-set w (x ∷ ps) (suc i) p v h = omega (
  arith,
  count_occupied-cons w x ps,
  count_occupied-cons w x (set ps i v),
  count_occupied-set w ps i p v h,
)

-- The count is a sum over the stages.
count_active-total :
    (w : WorkerId) (m : BTreeMap StageKey StageRuntime)
    → count_active w m ≡ total (λ _ s. count_occupied w s.partitions) m
unfolding count_active
count_active-total w [] = refl
count_active-total w ((j, s) ∷ m) = omega (arith, count_active-total w m)

pub count_active-set :
    (w : WorkerId) (m : BTreeMap StageKey StageRuntime) (key : StageKey) (stage : StageRuntime)
    (i : ℕ) (p v : PartitionRuntime)
    → get key m ≡ some stage
    → get_elem? stage.partitions i ≡ some p
    → count_active w (modify key (set_partition i v) m) + slots_of w p
      ≡ count_active w m + slots_of w v
count_active-set w m key stage i p v h g = omega (
  arith,
  count_active-total w m,
  count_active-total w (modify key (set_partition i v) m),
  total-modify (λ _ s. count_occupied w s.partitions) key (set_partition i v) m h,
  count_occupied-set w stage.partitions i p v g,
)

count_occupied-pending :
    (w : WorkerId) (n a : ℕ) → count_occupied w (replicate n (PartitionRuntime.pending a)) ≡ 0
unfolding count_occupied
count_occupied-pending w zero a = refl
count_occupied-pending w (suc n) a = omega (arith, count_occupied-pending w n a)

-- A new stage whose partitions are all pending occupies nothing.
pub count_active-insert :
    (w : WorkerId) (key : StageKey) (stage : StageRuntime) (m : BTreeMap StageKey StageRuntime)
    (n a : ℕ)
    → get key m ≡ none
    → stage.partitions ≡ replicate n (PartitionRuntime.pending a)
    → count_active w (insert key stage m) ≡ count_active w m
count_active-insert w key stage m n a h e = omega (
  arith,
  count_active-total w m,
  count_active-total w (insert key stage m),
  total-insert (λ _ s. count_occupied w s.partitions) key stage m h,
  ap (count_occupied w) e,
  count_occupied-pending w n a,
)

pub slots_of-le : (w : WorkerId) (p : PartitionRuntime) → slots_of w p ≤ 1
unfolding slots_of
slots_of-le w p = ground arith

-- A map over the partitions whose results occupy no more.
pub count_occupied-map_le :
    (w : WorkerId) (f : PartitionRuntime → PartitionRuntime) (ps : List PartitionRuntime)
    → ((p : PartitionRuntime) → slots_of w (f p) ≤ slots_of w p)
    → count_occupied w (map f ps) ≤ count_occupied w ps
count_occupied-map_le w f [] less = omega arith
count_occupied-map_le w f (p ∷ ps) less = omega (
  arith,
  count_occupied-cons w p ps,
  count_occupied-cons w (f p) (map f ps),
  less p,
  count_occupied-map_le w f ps less,
)
