-- ===== src/Coordinator/Lifecycle/Writes.antt =====
-- The ways in which the methods write to the stages, and the routes that the partitions follow.
use mathlib.Core.Option
use spark_x_distributed_quer.Base.{
  ℕ, ◌≡◌, true, Option, none, ◌&&◌, &&_true, some, key_eq, str_ord, nat_ord, pair_ord, get_elem?,
  get_elem?-set, arith, Bool-cases, inl, inr, if◌then◌else◌, ◌==◌, key_eq_iff, subst, ==_iff,
}
use spark_x_distributed_quer.BTreeMap.{BTreeMap, get, modify, insert}
use spark_x_distributed_quer.BTreeMap.Laws.{get-modify, get-insert}
use spark_x_distributed_quer.Coordinator.State.{PartitionRuntime, StageKey, StageRuntime}
use spark_x_distributed_quer.Coordinator.Time.{set_partition}
use spark_x_distributed_quer.Coordinator.Lifecycle.{Route, Route.here, Follows, Moves, at_index}

Follows-here : (p : PartitionRuntime) {o : Option PartitionRuntime} → o ≡ some p → Follows p o
Follows-here p h = record { to = p; is_there = h; route = here }

-- What stands where after a write to one partition.
pub at_index-set :
    (m : BTreeMap StageKey StageRuntime) (key j : StageKey) (stage : StageRuntime) (i k : ℕ)
    (p v : PartitionRuntime)
    → get key m ≡ some stage
    → get_elem? stage.partitions i ≡ some p
    → at_index k (get j (modify key (set_partition i v) m))
      ≡ (if key_eq key j && i == k then some v else at_index k (get j m))
at_index-set m key j stage i k p v hs hp = elim (Bool-cases (key_eq key j)) [
  | inl same ↦
      rw (get-modify key j (set_partition i v) m, same)
        (rw (← (key_eq_iff key j).0 same, hs) (get_elem?-set stage.partitions i k v {a = p} hp))
  | inr other ↦ rw (get-modify key j (set_partition i v) m, other)
]

at_index-same :
    (m : BTreeMap StageKey StageRuntime) (key j : StageKey) (stage : StageRuntime) (i k : ℕ)
    (p : PartitionRuntime)
    → (key_eq key j && i == k) ≡ true
    → get key m ≡ some stage
    → get_elem? stage.partitions i ≡ some p
    → at_index k (get j m) ≡ some p
at_index-same m key j stage i k p same hs hp =
    let (e, f) = &&_true (key_eq key j) (i == k) same in
    rw (← (key_eq_iff key j).0 e, hs, ← (==_iff i k).0 f) hp

-- A write to one partition that keeps to a route.
pub Moves-set :
    (m : BTreeMap StageKey StageRuntime) (key : StageKey) (stage : StageRuntime) (i : ℕ)
    (p v : PartitionRuntime)
    → get key m ≡ some stage
    → get_elem? stage.partitions i ≡ some p
    → Route p v
    → Moves m (modify key (set_partition i v) m)
Moves-set m key stage i p v hs hp r j k q h = elim (Bool-cases (key_eq key j && i == k)) [
  | inl same ↦ record {
    to = v;
    is_there = rw (at_index-set m key j stage i k p v hs hp, same);
    route = subst (λ x. Route x v) (cc (at_index-same m key j stage i k p same hs hp)) r;
  }
  | inr other ↦ Follows-here q (rw (at_index-set m key j stage i k p v hs hp, other) h)
]

-- A new stage under a new key.
pub Moves-insert :
    (m : BTreeMap StageKey StageRuntime) (key : StageKey) (stage : StageRuntime)
    → get key m ≡ none
    → Moves m (insert key stage m)
Moves-insert m key stage absent j k q h =
    Follows-here q (rw get-insert (ground (arith, absent, key_eq_iff key j, h)))

-- A change of every partition of some stages that keeps to a route.
pub Moves-map :
    (m m' : BTreeMap StageKey StageRuntime) (f : StageKey → PartitionRuntime → PartitionRuntime)
    → ((key : StageKey) (p : PartitionRuntime) → Route p (f key p))
    → ((key : StageKey) (i : ℕ)
        → at_index i (get key m') ≡ Option.map (f key) (at_index i (get key m)))
    → Moves m m'
Moves-map m m' f r e key i p h = record {
  to = f key p;
  is_there = rw (e key i, h);
  route = r key p;
}
