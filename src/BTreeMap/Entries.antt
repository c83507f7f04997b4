-- ===== src/BTreeMap/Entries.antt =====
-- Predicates on all entries of a map, and sums over them.
use spark_x_distributed_quer.Base.{
  ℕ, ◌+◌, ◌≡◌, refl, none, some, [], ◌∷◌, arith, Bool-cases, inl, inr, subst, sym, Ord, key_eq,
  key_eq_iff,
}
use spark_x_distributed_quer.BTreeMap.{BTreeMap, get, insert, modify, total}

module _ {ℓ κ μ} {K : Type ℓ} {V : Type κ} where
  abbrev pub Entries : (K → V → Type μ) → BTreeMap K V → Type μ
  Entries P [] = Unit
  Entries P ((k, v) ∷ m) = P k v × Entries P m

module _ {ℓ κ μ} {K : Type ℓ} {V : Type κ} ⦃o : Ord K⦄ (P : K → V → Type μ) where
  pub Entries-get : (k : K) (m : BTreeMap K V) (v : V) → Entries P m → get k m ≡ some v → P k v
  unfolding get
  Entries-get k [] v h e = ground arith
  Entries-get k ((j, w) ∷ m) v h e = ground (arith, key_eq_iff j k, Entries-get k m v h.1)

  pub Entries-insert :
      (k : K) (v : V) (m : BTreeMap K V) → P k v → Entries P m → Entries P (insert k v m)
  unfolding insert
  Entries-insert k v [] p h = (p, tt)
  Entries-insert k v ((j, w) ∷ m) p h = ground (arith, Entries-insert k v m p h.1)

  pub Entries-modify :
      (k : K) (f : V → V) (m : BTreeMap K V)
      → ((v : V) → get k m ≡ some v → P k v → P k (f v))
      → Entries P m
      → Entries P (modify k f m)
  unfolding get modify
  Entries-modify k f [] step h = tt
  Entries-modify k f ((j, w) ∷ m) step h = elim (Bool-cases (key_eq j k)) [
    | inl same ↦ rw same (
      subst (λ i. P i (f w)) (sym ((key_eq_iff j k).0 same))
          (step w (rw same) (subst (λ i. P i w) ((key_eq_iff j k).0 same) h.0)),
      h.1,
    )
    | inr other ↦ rw other (h.0, Entries-modify k f m (λ v e. step v (rw other e)) h.1)
  ]

module _ {ℓ κ} {K : Type ℓ} {V : Type κ} ⦃o : Ord K⦄ (g : K → V → ℕ) where
  pub total-insert :
      (k : K) (v : V) (m : BTreeMap K V)
      → get k m ≡ none
      → total g (insert k v m) ≡ g k v + total g m
  unfolding get insert
  total-insert k v [] a = refl
  total-insert k v ((j, w) ∷ m) a =
      ground (arith, o.eq_of_cmp k j, o.cmp_refl j, total-insert k v m)

  pub total-modify :
      (k : K) (f : V → V) (m : BTreeMap K V) {v : V}
      → get k m ≡ some v
      → total g (modify k f m) + g k v ≡ total g m + g k (f v)
  unfolding get modify
  total-modify k f [] e = ground arith
  total-modify k f ((j, w) ∷ m) {v} e = ground (arith, key_eq_iff j k, total-modify k f m {v = v})
