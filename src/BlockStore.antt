-- ===== src/BlockStore.antt =====
-- src/cluster/block_store.rs: `MemoryBlockStore`, the immutable blocks that a data plane keeps in
-- memory. A block's schema and batches are its payload, of any type. An overflow of the counter of
-- used bytes is a panic, as in a build with overflow checks.
pub mod Accounting
pub mod Immutable
use spark_x_distributed_quer.Base.{
  ℕ, ◌-◌, String, not, Option, none, some, [], key_eq, str_ord, if◌then◌else◌, ltb, leb, ◌==◌,
  checked_add_u64, saturating_add_u64,
}
use spark_x_distributed_quer.BTreeMap.{BTreeMap, get, insert, remove}
use spark_x_distributed_quer.Error.{
  SparkXError, planning, protocol, not_found, resource_exhausted, Result, ok, err, ok_or, expect,
  reject_if, ◌>>◌,
}
use spark_x_distributed_quer.Error.Exec.{Exec, proceed}

pub record StoredBlock {ℓ} (Payload : Type ℓ) : Type ℓ where
  pub payload : Payload
  pub checksum : String
  pub charged_bytes : ℕ

pub record MemoryBlockStore {ℓ} (Payload : Type ℓ) : Type ℓ where
  pub capacity : ℕ
  pub used : ℕ
  pub blocks : BTreeMap String (StoredBlock Payload)

-- `full` and `missing`
abbrev pub full : SparkXError
full = resource_exhausted "data-plane storage capacity exceeded"

abbrev pub missing : SparkXError
missing = not_found "data-plane block does not exist"

unfoldable pub validate_capacity : ℕ → Result (Unit {0})
validate_capacity capacity =
    reject_if (capacity == 0) (planning "data-plane storage capacity must be greater than zero")

unfoldable pub same_checksum : String → String → Result (Unit {0})
same_checksum left right =
    reject_if (not (key_eq left right)) (protocol "immutable block checksum mismatch")

module _ {ℓ} {Payload : Type ℓ} where
  unfoldable pub new_store : ℕ → Result (MemoryBlockStore Payload)
  unfolding validate_capacity
  new_store capacity = do
    validate_capacity capacity
    ok (record { capacity = capacity; used = 0; blocks = [] })

  unfoldable pub available_bytes : MemoryBlockStore Payload → ℕ
  available_bytes s = s.capacity - s.used

  -- `map_or(0, |block| block.charged_bytes)`
  abbrev pub charge_of : Option (StoredBlock Payload) → ℕ
  charge_of none = 0
  charge_of (some block) = block.charged_bytes

  unfoldable pub upload_budget : String → MemoryBlockStore Payload → ℕ
  unfolding available_bytes get
  upload_budget ticket s = saturating_add_u64 (available_bytes s) (charge_of (get ticket s.blocks))

  -- The part of the insertion for a ticket that has no block yet.
  unfoldable pub store_block :
      String → StoredBlock Payload → Exec (MemoryBlockStore Payload) (Unit {0})
  unfolding available_bytes insert
  store_block ticket block s =
      if ltb (available_bytes s) block.charged_bytes
      then (err full, s)
      else proceed
          (expect (checked_add_u64 s.used block.charged_bytes) "attempt to add with overflow")
          (λ sum d. (ok tt, record d { used = sum; blocks = insert ticket block d.blocks })) s

  unfoldable pub insert_block :
      String → StoredBlock Payload → Exec (MemoryBlockStore Payload) (Unit {0})
  unfolding get same_checksum store_block
  insert_block ticket block s = elim (get ticket s.blocks) [
    | some existing ↦ (same_checksum existing.checksum block.checksum, s)
    | none ↦ store_block ticket block s
  ]

  unfoldable pub get_block : String → MemoryBlockStore Payload → Result (StoredBlock Payload)
  unfolding get
  get_block ticket s = ok_or (get ticket s.blocks) missing

  -- The entry leaves the map before the counter is written.
  unfoldable pub remove_block : String → Exec (MemoryBlockStore Payload) (Unit {0})
  unfolding get remove
  remove_block ticket s = elim (get ticket s.blocks) [
    | none ↦ (err missing, s)
    | some block ↦
        let rest = record s { blocks = remove ticket s.blocks } in
        if ltb s.used block.charged_bytes
        then (Result.panic "attempt to subtract with overflow", rest)
        else (ok tt, record rest { used = s.used - block.charged_bytes })
  ]
