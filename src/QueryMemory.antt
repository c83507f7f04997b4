-- ===== src/QueryMemory.antt =====
-- src/runtime/memory.rs: `QueryMemory` and `MemoryReservation`, with the clients that share one
-- memory. An atomic access is one action; a schedule interleaves the actions of the clients, and its
-- compare-and-exchange may fail without a reason.
pub mod Clients
pub mod Actions
pub mod Budget
use spark_x_distributed_quer.Base.{
  ℕ, ◌+◌, ◌-◌, max, min, Bool, true, false, not, ◌&&◌, Option, none, some, List, [], ◌∷◌, length,
  get_elem?, set, if◌then◌else◌, ltb, ◌==◌, checked_add_u64, wrapping_sub_u64,
}
use spark_x_distributed_quer.Error.{
  Result, ok, err, panic, resource_exhausted, ok_or, reject_if, ◌>>=◌, ◌>>◌,
}

pub record MemoryState : Type 0 where
  pub limit_bytes : ℕ
  pub reserved_bytes : ℕ
  pub peak_bytes : ℕ

abbrev pub default_memory_limit_bytes : ℕ
default_memory_limit_bytes = 536_870_912

unfoldable pub new_memory : ℕ → MemoryState
new_memory limit_bytes = record {
  limit_bytes = max limit_bytes 1;
  reserved_bytes = 0;
  peak_bytes = 0;
}

-- The body of the loop up to the compare-and-exchange: the value to write.
unfoldable pub next_reserved : ℕ → ℕ → ℕ → Result ℕ
next_reserved limit_bytes current bytes = do
  next ←
      ok_or (checked_add_u64 current bytes)
        (resource_exhausted "query memory reservation overflowed")
  reject_if (ltb limit_bytes next) (resource_exhausted "query requires more bytes than its limit")
  ok next

unfoldable pub release : ℕ → MemoryState → MemoryState
release bytes m =
    if bytes == 0 then m else record m { reserved_bytes = wrapping_sub_u64 m.reserved_bytes bytes }

-- A client and its reservation, of no bytes before its first `try_reserve` and after a drop.
pub data Client : Type 0 where
  -- holds its bytes, and runs no call
  idle : (bytes : ℕ) → Client
  -- is in the loop of `reserve`, with the value of `reserved_bytes` that it read
  loaded : (bytes current additional : ℕ) → Client
  -- has exchanged the value, and is about to raise the peak
  exchanged : (bytes additional next : ℕ) → Client

-- `try_reserve` is `try_grow` on a reservation of no bytes.
pub data Action : Type 0 where
  grows : (additional_bytes : ℕ) → Action
  exchanges : (fails : Bool) → Action
  raises_peak : Action
  shrinks : (bytes : ℕ) → Action
  drops : Action

-- `try_grow` up to the first load. An overflow of its own size ends the call.
unfoldable pub start_growth : ℕ → ℕ → MemoryState → MemoryState × Client
start_growth bytes additional m = elim (checked_add_u64 bytes additional) [
  | none ↦ (m, Client.idle bytes)
  | some next ↦ (m, Client.loaded bytes m.reserved_bytes additional)
]

-- `compare_exchange_weak`
abbrev pub exchange : Bool → ℕ → ℕ → ℕ → ℕ → MemoryState → MemoryState × Client
exchange fails bytes current additional next m =
    if not fails && m.reserved_bytes == current
    then (record m { reserved_bytes = next }, Client.exchanged bytes additional next)
    else (m, Client.loaded bytes m.reserved_bytes additional)

-- One pass of the loop.
unfoldable pub try_exchange : Bool → ℕ → ℕ → ℕ → MemoryState → MemoryState × Client
unfolding next_reserved
try_exchange fails bytes current additional m =
    elim (next_reserved m.limit_bytes current additional) [
      | ok next ↦ exchange fails bytes current additional next m
      | _ ↦ (m, Client.idle bytes)
    ]

unfoldable pub shrink : ℕ → ℕ → MemoryState → MemoryState × Client
unfolding release
shrink bytes amount m =
    let released = min amount bytes in (release released m, Client.idle (bytes - released))

-- An action that the client is not at changes nothing.
unfoldable pub act : Action → MemoryState → Client → MemoryState × Client
unfolding start_growth try_exchange shrink release
act (Action.grows additional) m (Client.idle bytes) = start_growth bytes additional m
act (Action.exchanges fails) m (Client.loaded bytes current additional) =
    try_exchange fails bytes current additional m
act Action.raises_peak m (Client.exchanged bytes additional next) =
    (record m { peak_bytes = max m.peak_bytes next }, Client.idle (bytes + additional))
act (Action.shrinks amount) m (Client.idle bytes) = shrink bytes amount m
act Action.drops m (Client.idle bytes) = (release bytes m, Client.idle 0)
act _ m client = (m, client)

pub record System : Type 0 where
  pub memory : MemoryState
  pub clients : List Client

abbrev pub step_of : ℕ → Action → System → Option Client → System
step_of i action s none = s
step_of i action s (some client) =
    let (memory, moved) = act action s.memory client in
    record { memory = memory; clients = set s.clients i moved }

-- One action of the client with an index.
unfoldable pub step_client : ℕ × Action → System → System
unfolding act
step_client (i, action) s = step_of i action s (get_elem? s.clients i)

unfoldable pub run_schedule : List (ℕ × Action) → System → System
unfolding step_client
run_schedule [] s = s
run_schedule (a ∷ rest) s = run_schedule rest (step_client a s)
