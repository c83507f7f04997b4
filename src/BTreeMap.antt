-- ===== src/BTreeMap.antt =====
-- `std::collections::BTreeMap`: the entries in ascending order of their keys. A key stands once;
-- `get_mut` followed by a write is `modify`. Iteration runs over the list.
pub mod Laws
pub mod Entries
pub mod Ascending
use spark_x_distributed_quer.Base.{
  ℕ, ◌+◌, Bool, Option, none, some, List, [], ◌∷◌, map, Ord, key_eq, if◌then◌else◌, is_some, ◌≡◌,
  Ordering,
}

abbrev pub BTreeMap {ℓ κ} : Type ℓ → Type κ → Type (ℓ ⊔ κ)
BTreeMap K V = List (K × V)

module _ {ℓ κ} {K : Type ℓ} {V : Type κ} where
  abbrev pub keys : BTreeMap K V → List K
  keys [] = []
  keys ((k, v) ∷ m) = k ∷ keys m

  -- The sum of a measure over the entries.
  abbrev pub total : (K → V → ℕ) → BTreeMap K V → ℕ
  total g [] = 0
  total g ((k, v) ∷ m) = g k v + total g m

module _ {ℓ κ} {K : Type ℓ} {V : Type κ} ⦃o : Ord K⦄ where
  unfoldable pub get : K → BTreeMap K V → Option V
  get k [] = none
  get k ((j, v) ∷ m) = if key_eq j k then some v else get k m

  unfoldable pub contains_key : K → BTreeMap K V → Bool
  unfolding get
  contains_key k m = is_some (get k m)

  unfoldable pub insert : K → V → BTreeMap K V → BTreeMap K V
  insert k v [] = (k, v) ∷ []
  insert k v ((j, w) ∷ m) = elim (o.cmp k j) [
    | Ordering.lt ↦ (k, v) ∷ (j, w) ∷ m
    | Ordering.eq ↦ (k, v) ∷ m
    | Ordering.gt ↦ (j, w) ∷ insert k v m
  ]

  unfoldable pub modify : K → (V → V) → BTreeMap K V → BTreeMap K V
  modify k f [] = []
  modify k f ((j, v) ∷ m) = if key_eq j k then (j, f v) ∷ m else (j, v) ∷ modify k f m

  unfoldable pub remove : K → BTreeMap K V → BTreeMap K V
  remove k [] = []
  remove k ((j, v) ∷ m) = if key_eq j k then m else (j, v) ∷ remove k m

  -- No key stands twice.
  abbrev pub Distinct : BTreeMap K V → Type κ
  Distinct [] = Unit
  Distinct ((k, v) ∷ m) = (get k m ≡ none) × Distinct m
