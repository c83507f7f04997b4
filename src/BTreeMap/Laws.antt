-- ===== src/BTreeMap/Laws.antt =====
-- Lookups after a write to a map.
use spark_x_distributed_quer.Base.{
  ◌≡◌, refl, none, some, [], ◌∷◌, arith, Ord, key_eq, if◌then◌else◌,
}
use mathlib.Core.Option
use spark_x_distributed_quer.BTreeMap.{BTreeMap, get, insert, modify, remove, Distinct}

module _ {ℓ κ} {K : Type ℓ} {V : Type κ} ⦃o : Ord K⦄ where
  pub get-insert :
      (k j : K) (v : V) (m : BTreeMap K V)
      → get j (insert k v m) ≡ (if key_eq k j then some v else get j m)
  unfolding get insert
  get-insert k j v [] = refl
  get-insert k j v ((i, w) ∷ m) =
      ground
        (arith, o.cmp_refl i, o.eq_of_cmp k i, o.eq_of_cmp k j, o.eq_of_cmp i j, get-insert k j v m)

  pub get-modify :
      (k j : K) (f : V → V) (m : BTreeMap K V)
      → get j (modify k f m) ≡ (if key_eq k j then Option.map f (get j m) else get j m)
  unfolding get modify
  get-modify k j f [] = ground arith
  get-modify k j f ((i, w) ∷ m) =
      ground
        (arith, o.cmp_refl i, o.eq_of_cmp i k, o.eq_of_cmp k j, o.eq_of_cmp i j, get-modify k j f m)

  pub get-remove :
      (k j : K) (m : BTreeMap K V)
      → Distinct m
      → get j (remove k m) ≡ (if key_eq k j then none else get j m)
  unfolding get remove
  get-remove k j [] h = ground arith
  get-remove k j ((i, w) ∷ m) h =
      ground (
        arith,
        o.cmp_refl i,
        o.eq_of_cmp i k,
        o.eq_of_cmp k j,
        o.eq_of_cmp i j,
        get-remove k j m h.1,
      )

  pub Distinct-insert :
      (k : K) (v : V) (m : BTreeMap K V) → get k m ≡ none → Distinct m → Distinct (insert k v m)
  unfolding get insert
  Distinct-insert k v [] a h = (refl, tt)
  Distinct-insert k v ((i, w) ∷ m) a h = ground (
    arith,
    o.cmp_refl i,
    o.eq_of_cmp k i,
    o.eq_of_cmp i k,
    get-insert k i v m,
    Distinct-insert k v m,
  )

  pub Distinct-modify :
      (k : K) (f : V → V) (m : BTreeMap K V) → Distinct m → Distinct (modify k f m)
  unfolding get modify
  Distinct-modify k f [] h = tt
  Distinct-modify k f ((i, w) ∷ m) h = ground (arith, get-modify k i f m, Distinct-modify k f m h.1)
