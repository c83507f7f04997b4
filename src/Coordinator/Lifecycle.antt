-- ===== src/Coordinator/Lifecycle.antt =====
-- src/cluster/coordinator.rs: the life of a partition as a transition diagram. `Edge` has the moves
-- that the methods make, `Route` their sequences, and `Moves` says that every partition of a map of
-- stages has followed a route.
pub mod Writes
pub mod Methods
pub mod Evolves
pub mod Steps
use spark_x_distributed_quer.Base.{
  ℕ, ◌+◌, ◌≤◌, ◌≡◌, refl, ◌∙◌, String, Bool, Option, none, some, List, str_ord, nat_ord, pair_ord,
  get_elem?, arith, saturating_add_u32,
}
use spark_x_distributed_quer.BTreeMap.{BTreeMap, get}
use spark_x_distributed_quer.Protocol.{WorkerId, TaskAttemptId, TaskLease, ShuffleBlock}
use spark_x_distributed_quer.Coordinator.State.{
  PartitionRuntime, StageKey, StageRuntime, Coordinator,
}

pub data Edge : PartitionRuntime → PartitionRuntime → Type 0 where
  lease :
      {n : ℕ} {t : TaskAttemptId} {w : WorkerId} {l : TaskLease}
      → t.attempt ≡ n
      → Edge (PartitionRuntime.pending n) (PartitionRuntime.active t w l none)
  start :
      {t : TaskAttemptId} {w : WorkerId} {l : TaskLease} {s s' : Option ℕ}
      → Edge (PartitionRuntime.active t w l s) (PartitionRuntime.active t w l s')
  commit :
      {t : TaskAttemptId} {w : WorkerId} {l : TaskLease} {s : Option ℕ} {blocks : List ShuffleBlock}
      → Edge (PartitionRuntime.active t w l s) (PartitionRuntime.succeeded t blocks)
  retry :
      {t : TaskAttemptId} {w : WorkerId} {l : TaskLease} {s : Option ℕ} {n : ℕ}
      → n ≡ t.attempt + 1
      → Edge (PartitionRuntime.active t w l s) (PartitionRuntime.pending n)
  give_up :
      {t : TaskAttemptId} {w : WorkerId} {l : TaskLease} {s : Option ℕ} {n : ℕ} {e : String}
      {r : Bool}
      → n ≡ t.attempt
      → Edge (PartitionRuntime.active t w l s) (PartitionRuntime.failed n e r)
  withdraw :
      {t : TaskAttemptId} {w : WorkerId} {l : TaskLease} {s : Option ℕ}
      → Edge (PartitionRuntime.active t w l s) PartitionRuntime.cancelled
  stop :
      {t : TaskAttemptId} {w : WorkerId} {l : TaskLease} {s : Option ℕ}
      → Edge (PartitionRuntime.active t w l s) (PartitionRuntime.cancelling t w l)
  settle :
      {t : TaskAttemptId} {w : WorkerId} {l : TaskLease}
      → Edge (PartitionRuntime.cancelling t w l) PartitionRuntime.cancelled
  drop_pending : {n : ℕ} → Edge (PartitionRuntime.pending n) PartitionRuntime.cancelled
  drop_failed :
      {n : ℕ} {e : String} {r : Bool}
      → Edge (PartitionRuntime.failed n e r) PartitionRuntime.cancelled

pub data Route (p : PartitionRuntime) : PartitionRuntime → Type 0 where
  here : Route p p
  onward : {q r : PartitionRuntime} → Route p q → Edge q r → Route p r

pub Route-trans : {p q r : PartitionRuntime} → Route p q → Route q r → Route p r
Route-trans a here = a
Route-trans a (onward b e) = onward (Route-trans a b) e

abbrev pub at_index : ℕ → Option StageRuntime → Option PartitionRuntime
at_index i none = none
at_index i (some stage) = get_elem? stage.partitions i

-- The partition with an index of the stage with a key.
unfoldable pub partition_at : Coordinator → StageKey → ℕ → Option PartitionRuntime
unfolding get
partition_at c key i = at_index i (get key c.stages)

-- A partition is still there, at the end of a route from what it was.
pub record Follows (p : PartitionRuntime) (now : Option PartitionRuntime) : Type 0 where
  pub to : PartitionRuntime
  pub is_there : now ≡ some to
  pub route : Route p to

abbrev pub Moves : BTreeMap StageKey StageRuntime → BTreeMap StageKey StageRuntime → Type 0
Moves m m' =
    (key : StageKey) (i : ℕ) (p : PartitionRuntime)
    → at_index i (get key m) ≡ some p
    → Follows p (at_index i (get key m'))

pub Moves-refl : (m : BTreeMap StageKey StageRuntime) → Moves m m
Moves-refl m key i p h = record { to = p; is_there = h; route = here }

pub Moves-trans : (a b c : BTreeMap StageKey StageRuntime) → Moves a b → Moves b c → Moves a c
Moves-trans a b c f g key i p h =
    let x = f key i p h in
    let y = g key i x.to x.is_there in
    record { to = y.to; is_there = y.is_there; route = Route-trans x.route y.route }

-- What is committed stays committed.
Edge-succeeded :
    {p q : PartitionRuntime} {t : TaskAttemptId} {blocks : List ShuffleBlock}
    → Edge p q
    → p ≡ PartitionRuntime.succeeded t blocks
    → ⊥
Edge-succeeded (lease e) h = cc
Edge-succeeded start h = cc
Edge-succeeded commit h = cc
Edge-succeeded (retry e) h = cc
Edge-succeeded (give_up e) h = cc
Edge-succeeded withdraw h = cc
Edge-succeeded stop h = cc
Edge-succeeded settle h = cc
Edge-succeeded drop_pending h = cc
Edge-succeeded drop_failed h = cc

pub Route-succeeded :
    {p q : PartitionRuntime} {t : TaskAttemptId} {blocks : List ShuffleBlock}
    → Route p q
    → p ≡ PartitionRuntime.succeeded t blocks
    → q ≡ PartitionRuntime.succeeded t blocks
Route-succeeded here h = h
Route-succeeded (onward r e) h = absurd (Edge-succeeded e (Route-succeeded r h))

-- The number of the attempt that a partition is at; a cancelled one has none.
abbrev pub attempt_of : PartitionRuntime → Option ℕ
attempt_of (PartitionRuntime.pending n) = some n
attempt_of (PartitionRuntime.active t w l s) = some t.attempt
attempt_of (PartitionRuntime.cancelling t w l) = some t.attempt
attempt_of (PartitionRuntime.succeeded t blocks) = some t.attempt
attempt_of (PartitionRuntime.failed n e r) = some n
attempt_of PartitionRuntime.cancelled = none

-- Not before: later, or cancelled.
abbrev pub NotBefore : Option ℕ → Option ℕ → Type 0
NotBefore a none = Unit
NotBefore none (some b) = ⊥
NotBefore (some a) (some b) = a ≤ b

Edge-attempt : {p q : PartitionRuntime} → Edge p q → NotBefore (attempt_of p) (attempt_of q)
Edge-attempt (lease e) = omega arith
Edge-attempt start = omega arith
Edge-attempt commit = omega arith
Edge-attempt (retry e) = omega arith
Edge-attempt (give_up e) = omega arith
Edge-attempt withdraw = tt
Edge-attempt stop = omega arith
Edge-attempt settle = tt
Edge-attempt drop_pending = tt
Edge-attempt drop_failed = tt

NotBefore-refl : (a : Option ℕ) → NotBefore a a
NotBefore-refl none = tt
NotBefore-refl (some a) = omega arith

NotBefore-trans : (a b c : Option ℕ) → NotBefore a b → NotBefore b c → NotBefore a c
NotBefore-trans a b none f g = tt
NotBefore-trans a none (some c) f g = absurd g
NotBefore-trans none (some b) (some c) f g = absurd f
NotBefore-trans (some a) (some b) (some c) f g = omega arith

pub Route-attempt : {p q : PartitionRuntime} → Route p q → NotBefore (attempt_of p) (attempt_of q)
Route-attempt {p} here = NotBefore-refl (attempt_of p)
Route-attempt {p} {q} (onward {q = m} r e) =
    NotBefore-trans (attempt_of p) (attempt_of m) (attempt_of q) (Route-attempt r) (Edge-attempt e)
