-- ===== src/Coordinator/Slots.antt =====
-- src/cluster/coordinator.rs: the booking of worker slots. A worker's free slots and the partitions
-- that are leased to it, or still stopping on it, never exceed the slots that it registered.
pub mod Counts
pub mod Time
pub mod Methods
pub mod Changes
pub mod Expired
pub mod Leases
pub mod Calls
use spark_x_distributed_quer.Base.{
  ℕ, ◌+◌, ◌≤◌, ◌≡◌, none, some, str_ord, nat_ord, pair_ord, u32_max,
}
use spark_x_distributed_quer.BTreeMap.{BTreeMap, get, Distinct}
use spark_x_distributed_quer.Protocol.{WorkerId}
use spark_x_distributed_quer.Coordinator.State.{WorkerRuntime, StageKey, StageRuntime, Coordinator}
use spark_x_distributed_quer.Coordinator.Workers.{count_active}

-- The bookings of the stages fit the workers.
pub record Fits (workers : BTreeMap WorkerId WorkerRuntime)
    (stages : BTreeMap StageKey StageRuntime) : Type 0 where
  pub booked :
      (w : WorkerId) (r : WorkerRuntime)
      → get w workers ≡ some r
      → r.available_slots + count_active w stages ≤ r.registration.slots
  pub unknown : (w : WorkerId) → get w workers ≡ none → count_active w stages ≡ 0
  pub ranged :
      (w : WorkerId) (r : WorkerRuntime) → get w workers ≡ some r → r.registration.slots ≤ u32_max

pub record IsBooked (c : Coordinator) : Type 0 where
  pub distinct : Distinct c.stages
  pub distinct_workers : Distinct c.workers
  pub fits : Fits c.workers c.stages
