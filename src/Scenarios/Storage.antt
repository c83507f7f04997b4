-- ===== src/Scenarios/Storage.antt =====
-- A store of two hundred bytes, and two clients of one memory.
use spark_x_distributed_quer.Base.{ℕ, All, ◌≡◌, ◌≤◌, refl, false, List, [], ◌∷◌, arith, str_ord}
use spark_x_distributed_quer.BTreeMap.{get}
use spark_x_distributed_quer.Error.{ok, err, IsPanic}
use spark_x_distributed_quer.BlockStore.{
  StoredBlock, MemoryBlockStore, new_store, insert_block, remove_block, get_block, missing,
  upload_budget,
}
use spark_x_distributed_quer.BlockStore.Accounting.{
  Write, inserts, removes, IsAccounted, charged, write, write_all, usage_is_accounted,
}
use spark_x_distributed_quer.BlockStore.Immutable.{
  get_block-insert_block, insert_block-budget, remove_block-insert_block,
}
use spark_x_distributed_quer.QueryMemory.{MemoryState, Client, Action, run_schedule, new_memory}
use spark_x_distributed_quer.QueryMemory.Clients.{claims, mark}
use spark_x_distributed_quer.QueryMemory.Budget.{
  start, grow_alone, memory_is_not_overcommitted, peak_covers_reservations, grow_alone-result,
}

abbrev store : MemoryBlockStore ℕ
store = record { capacity = 200; used = 0; blocks = [] }

abbrev small : StoredBlock ℕ
small = record { payload = 7; checksum = "c"; charged_bytes = 120 }

is_new : new_store 200 ≡ ok store
unfolding new_store
is_new = refl

abbrev writes : List (Write ℕ)
writes = inserts "t" small ∷ inserts "u" small ∷ []

usage_is_accounted_example :
    ((write_all writes store).used ≡ charged (write_all writes store).blocks)
    × ((write_all writes store).used ≤ (write_all writes store).capacity)
    × ¬ IsPanic (write (removes "t") (write_all writes store)).0
usage_is_accounted_example = usage_is_accounted 200 store writes (removes "t") (omega arith) is_new

is_stored : (insert_block "t" small store).0 ≡ ok tt
unfolding insert_block
is_stored = refl

get_block-insert_block_example : get_block "t" (insert_block "t" small store).1 ≡ ok small
unfolding get
get_block-insert_block_example = get_block-insert_block "t" small store "t" is_stored

is_missing : get_block "t" store ≡ err missing
unfolding get_block
is_missing = refl

is_accounted : IsAccounted store
is_accounted = record { distinct = tt; exact = refl; within = omega arith; ranged = omega arith }

insert_block-budget_example :
    insert_block "t" small store ≡ (ok tt, (insert_block "t" small store).1)
unfolding upload_budget
insert_block-budget_example = insert_block-budget "t" small store is_missing is_accounted

remove_block-insert_block_example :
    ((remove_block "t" (insert_block "t" small store).1).1.used ≡ 0)
    × (get_block "u" (remove_block "t" (insert_block "t" small store).1).1 ≡ get_block "u" store)
remove_block-insert_block_example =
    remove_block-insert_block "t" small store "u" is_missing is_accounted is_stored

-- Both clients read the counter before either exchanges it, so the second has to try again.
abbrev contended : List (ℕ × Action)
contended =
    (0, Action.grows 60)
    ∷ (1, Action.grows 30)
    ∷ (0, Action.exchanges false)
    ∷ (1, Action.exchanges false)
    ∷ (1, Action.exchanges false)
    ∷ (0, Action.raises_peak)
    ∷ (1, Action.raises_peak)
    ∷ []

memory_is_not_overcommitted_example :
    ((run_schedule contended (start 100 2)).memory.reserved_bytes
      ≡ claims (run_schedule contended (start 100 2)).clients)
    × ((run_schedule contended (start 100 2)).memory.reserved_bytes
        ≤ (run_schedule contended (start 100 2)).memory.limit_bytes)
memory_is_not_overcommitted_example = memory_is_not_overcommitted 100 2 contended (omega arith)

is_quiet : All (λ c. mark c ≡ 0) (run_schedule contended (start 100 2)).clients
unfolding run_schedule new_memory
is_quiet = (refl, (refl, tt))

peak_covers_reservations_example :
    ((run_schedule contended (start 100 2)).memory.reserved_bytes
      ≤ (run_schedule contended (start 100 2)).memory.peak_bytes)
    × ((run_schedule contended (start 100 2)).memory.peak_bytes
        ≤ (run_schedule contended (start 100 2)).memory.limit_bytes)
peak_covers_reservations_example = peak_covers_reservations 100 2 contended (omega arith) is_quiet

abbrev half_used : MemoryState
half_used = record { limit_bytes = 100; reserved_bytes = 50; peak_bytes = 70 }

grow_alone-result_example :
    grow_alone 3 40 half_used (Client.idle 20)
    ≡ (record { limit_bytes = 100; reserved_bytes = 90; peak_bytes = 90 }, Client.idle 60)
grow_alone-result_example =
    grow_alone-result 3 20 40 half_used (omega arith) (omega arith) (omega arith)
