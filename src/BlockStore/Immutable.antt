-- ===== src/BlockStore/Immutable.antt =====
-- src/cluster/block_store.rs, `MemoryBlockStore`: a ticket's block never changes.
use spark_x_distributed_quer.Base.{
  ◌≡◌, String, none, some, arith, str_ord, key_eq, key_eq_iff, if◌then◌else◌, ltb,
}
use spark_x_distributed_quer.BTreeMap.{get, insert}
use spark_x_distributed_quer.BTreeMap.Laws.{get-insert, Distinct-insert, get-remove}
use spark_x_distributed_quer.Error.{ok, err}
use spark_x_distributed_quer.BlockStore.{
  StoredBlock, MemoryBlockStore, full, missing, available_bytes, store_block, insert_block,
  remove_block, get_block, upload_budget,
}
use spark_x_distributed_quer.BlockStore.Accounting.{IsAccounted}

module _ {ℓ} {Payload : Type ℓ} where
  store_block-get :
      (ticket : String) (block : StoredBlock Payload) (s : MemoryBlockStore Payload)
      (other : String)
      → (store_block ticket block s).0 ≡ ok tt
      → get other (store_block ticket block s).1.blocks
        ≡ (if key_eq ticket other then some block else get other s.blocks)
  unfolding store_block
  store_block-get ticket block s other h = ground (arith, get-insert ticket other block s.blocks)

  -- After an insertion that was accepted, its ticket has the block that it had before, or the new one
  -- if it had none; every other ticket has what it had.
  pub get_block-insert_block :
      (ticket : String) (block : StoredBlock Payload) (s : MemoryBlockStore Payload)
      (other : String)
      → (insert_block ticket block s).0 ≡ ok tt
      → get_block other (insert_block ticket block s).1 ≡ elim (get other s.blocks) [
        | some existing ↦ ok existing
        | none ↦ if key_eq ticket other then ok block else err missing
      ]
  unfolding insert_block get_block
  get_block-insert_block ticket block s other h =
      ground (arith, store_block-get ticket block s other, key_eq_iff ticket other)

  -- A new block is accepted exactly if its charge is within the budget of its ticket, and is refused
  -- as too large otherwise, without a change of the store.
  pub insert_block-budget :
      (ticket : String) (block : StoredBlock Payload) (s : MemoryBlockStore Payload)
      → get_block ticket s ≡ err missing
      → IsAccounted s
      → insert_block ticket block s ≡ (
          if ltb (upload_budget ticket s) block.charged_bytes
          then (err full, s)
          else (ok tt, (insert_block ticket block s).1))
  unfolding insert_block get_block upload_budget
  insert_block-budget ticket block s fresh h =
      let a : get ticket s.blocks ≡ none = ground arith in
      unfold store_block in unfold available_bytes in ground (arith, a, h.within, h.ranged)

  -- Removing the block that was just inserted under a new ticket gives back its bytes and the ticket,
  -- and leaves every other ticket with its block.
  pub remove_block-insert_block :
      (ticket : String) (block : StoredBlock Payload) (s : MemoryBlockStore Payload)
      (other : String)
      → get_block ticket s ≡ err missing
      → IsAccounted s
      → (insert_block ticket block s).0 ≡ ok tt
      → let s' = (remove_block ticket (insert_block ticket block s).1).1 in
        (s'.used ≡ s.used) × (get_block other s' ≡ get_block other s)
  unfolding insert_block remove_block get_block
  remove_block-insert_block ticket block s other fresh h e =
      let a : get ticket s.blocks ≡ none = ground arith in
      unfold store_block in
      unfold available_bytes in
      (
        ground (arith, a, get-insert ticket ticket block s.blocks, key_eq_iff ticket ticket),
        ground (
          arith,
          a,
          get-insert ticket ticket block s.blocks,
          get-insert ticket other block s.blocks,
          key_eq_iff ticket ticket,
          key_eq_iff ticket other,
          get-remove ticket other (insert ticket block s.blocks)
              (Distinct-insert ticket block s.blocks a h.distinct),
        ),
      )
