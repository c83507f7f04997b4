-- ===== src/BlockStore/Accounting.antt =====
-- src/cluster/block_store.rs, `MemoryBlockStore`: the counter of used bytes.
use spark_x_distributed_quer.Base.{
  ℕ, ◌+◌, ◌-◌, ◌≤◌, ◌≡◌, refl, true, false, ltb, leb, Bool-cases, ltb→le, String, none, some, List,
  [], ◌∷◌, arith, str_ord, Option-cases, inl, inr, u64_max,
}
use spark_x_distributed_quer.BTreeMap.{BTreeMap, get, remove, total, Distinct}
use spark_x_distributed_quer.BTreeMap.Laws.{Distinct-insert, get-remove}
use spark_x_distributed_quer.BTreeMap.Entries.{total-insert}
use spark_x_distributed_quer.Error.{ok, IsPanic}
use spark_x_distributed_quer.Error.Exec.{Exec}
use spark_x_distributed_quer.BlockStore.{
  StoredBlock, MemoryBlockStore, new_store, available_bytes, store_block, insert_block,
  remove_block, same_checksum, validate_capacity,
}

-- A call that writes to a store.
pub data Write {ℓ} (Payload : Type ℓ) : Type ℓ where
  inserts : String → StoredBlock Payload → Write Payload
  removes : String → Write Payload

same_checksum_returns : (a b : String) → ¬ IsPanic (same_checksum a b)
unfolding same_checksum
same_checksum_returns a b = ground arith

module _ {ℓ} {Payload : Type ℓ} where
  abbrev pub charged : BTreeMap String (StoredBlock Payload) → ℕ
  charged = total (λ _ block. block.charged_bytes)

  -- The counter is the sum of the blocks' charges, and within the capacity, a `u64`.
  pub record IsAccounted (s : MemoryBlockStore Payload) : Type ℓ where
    pub distinct : Distinct s.blocks
    pub exact : s.used ≡ charged s.blocks
    pub within : s.used ≤ s.capacity
    pub ranged : s.capacity ≤ u64_max

  total-remove :
      (k : String) (m : BTreeMap String (StoredBlock Payload)) {b : StoredBlock Payload}
      → get k m ≡ some b
      → charged (remove k m) + b.charged_bytes ≡ charged m
  unfolding get remove
  total-remove k [] e = absurd (ground (arith, e))
  total-remove k ((j, w) ∷ m) {b} e = ground (arith, total-remove k m {b = b})

  Distinct-remove :
      (k : String) (m : BTreeMap String (StoredBlock Payload)) → Distinct m → Distinct (remove k m)
  unfolding get remove
  Distinct-remove k [] d = tt
  Distinct-remove k ((j, w) ∷ m) d = ground (arith, get-remove k j m d.1, Distinct-remove k m d.1)

  store_block-IsAccounted :
      (ticket : String) (block : StoredBlock Payload) (s : MemoryBlockStore Payload)
      → get ticket s.blocks ≡ none
      → IsAccounted s
      → IsAccounted (store_block ticket block s).1 × ¬ IsPanic (store_block ticket block s).0
  unfolding store_block available_bytes
  store_block-IsAccounted ticket block s fresh h =
      elim (Bool-cases (ltb (s.capacity - s.used) block.charged_bytes)) [
        | inl over ↦ rw over (h, λ x. x)
        | inr fits ↦
            let room = ltb→le (s.capacity - s.used) block.charged_bytes fits in
            let safe : leb (s.used + block.charged_bytes) u64_max ≡ true =
              ground (arith, room, h.within, h.ranged) in
            rw (fits, safe)
              (
                record {
                  distinct = Distinct-insert ticket block s.blocks fresh h.distinct;
                  exact = omega (
                    arith,
                    total-insert (λ (_ : String) (b : StoredBlock Payload). b.charged_bytes) ticket
                        block s.blocks fresh,
                    h.exact,
                  );
                  within = omega (arith, room, h.within);
                  ranged = h.ranged;
                },
                λ x. x,
              )
      ]

  pub insert_block-IsAccounted :
      (ticket : String) (block : StoredBlock Payload) (s : MemoryBlockStore Payload)
      → IsAccounted s
      → IsAccounted (insert_block ticket block s).1 × ¬ IsPanic (insert_block ticket block s).0
  unfolding insert_block
  insert_block-IsAccounted ticket block s h = elim (Option-cases (get ticket s.blocks)) [
    | inl fresh ↦ rw (fresh, insert_block) (store_block-IsAccounted ticket block s fresh h)
    | inr (existing, e) ↦
        rw (e, insert_block) (h, same_checksum_returns existing.checksum block.checksum)
  ]

  pub remove_block-IsAccounted :
      (ticket : String) (s : MemoryBlockStore Payload)
      → IsAccounted s
      → IsAccounted (remove_block ticket s).1 × ¬ IsPanic (remove_block ticket s).0
  unfolding remove_block
  remove_block-IsAccounted ticket s h = elim (Option-cases (get ticket s.blocks)) [
    | inl gone ↦ rw (gone, remove_block) (h, λ x. x)
    | inr (block, e) ↦
        let sum = total-remove ticket s.blocks e in
        let safe : ltb s.used block.charged_bytes ≡ false = ground (arith, sum, h.exact) in
        rw (e, safe, remove_block)
          (
            record {
              distinct = Distinct-remove ticket s.blocks h.distinct;
              exact = omega (arith, sum, h.exact);
              within = omega (arith, h.within);
              ranged = h.ranged;
            },
            λ x. x,
          )
  ]

  pub write : Write Payload → Exec (MemoryBlockStore Payload) (Unit {0})
  write (inserts ticket block) s = insert_block ticket block s
  write (removes ticket) s = remove_block ticket s

  pub write_all : List (Write Payload) → MemoryBlockStore Payload → MemoryBlockStore Payload
  write_all [] s = s
  write_all (w ∷ ws) s = write_all ws (write w s).1

  write-IsAccounted :
      (w : Write Payload) (s : MemoryBlockStore Payload)
      → IsAccounted s
      → IsAccounted (write w s).1 × ¬ IsPanic (write w s).0
  unfolding write
  write-IsAccounted (inserts ticket block) s h = insert_block-IsAccounted ticket block s h
  write-IsAccounted (removes ticket) s h = remove_block-IsAccounted ticket s h

  write_all-IsAccounted :
      (ws : List (Write Payload)) (s : MemoryBlockStore Payload)
      → IsAccounted s
      → IsAccounted (write_all ws s)
  unfolding write_all
  write_all-IsAccounted [] s h = h
  write_all-IsAccounted (w ∷ ws) s h =
      write_all-IsAccounted ws (write w s).1 (write-IsAccounted w s h).0

  new_store-IsAccounted :
      (capacity : ℕ) (s : MemoryBlockStore Payload)
      → capacity ≤ u64_max
      → new_store capacity ≡ ok s
      → IsAccounted s
  unfolding new_store validate_capacity
  new_store-IsAccounted capacity s h e =
      let (unused, empty, full_size) : (s.used ≡ 0) × (s.blocks ≡ []) × (s.capacity ≡ capacity) =
        ground arith in
      record {
        distinct = rw empty tt;
        exact = rw (unused, empty) refl;
        within = rw (unused, full_size) (omega arith);
        ranged = rw full_size h;
      }

  -- Whatever blocks a new store has taken and dropped: the counter of used bytes is the sum of the
  -- charges of the blocks in it and at most the capacity, and the next insertion or removal neither
  -- overflows nor underflows the counter.
  pub usage_is_accounted :
      (capacity : ℕ) (s : MemoryBlockStore Payload) (ws : List (Write Payload))
      (next : Write Payload)
      → capacity ≤ u64_max
      → new_store capacity ≡ ok s
      → ((write_all ws s).used ≡ charged (write_all ws s).blocks)
        × ((write_all ws s).used ≤ (write_all ws s).capacity)
        × ¬ IsPanic (write next (write_all ws s)).0
  usage_is_accounted capacity s ws next h e =
      let a = write_all-IsAccounted ws s (new_store-IsAccounted capacity s h e) in
      (a.exact, a.within, (write-IsAccounted next (write_all ws s) a).1)
