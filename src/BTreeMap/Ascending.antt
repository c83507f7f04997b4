-- ===== src/BTreeMap/Ascending.antt =====
-- Maps whose keys ascend: inserting their entries in order builds them again.
use spark_x_distributed_quer.Base.{
  ◌≡◌, refl, false, [], ◌∷◌, ◌++◌, arith, Ord, Ordering, All, All-append,
}
use spark_x_distributed_quer.BTreeMap.{BTreeMap, insert, contains_key, get}

module _ {ℓ κ} {K : Type ℓ} {V : Type κ} ⦃o : Ord K⦄ where
  -- A key after all keys of a map.
  abbrev pub Above : K → BTreeMap K V → Type 0
  Above k m = All (λ (e : K × V). o.cmp k e.0 ≡ Ordering.gt) m

  abbrev pub Ascending : BTreeMap K V → Type 0
  Ascending [] = Unit
  Ascending ((k, v) ∷ m) = All (λ (e : K × V). o.cmp e.0 k ≡ Ordering.gt) m × Ascending m

  -- The entries come after those of `m`.
  abbrev pub Follows : BTreeMap K V → BTreeMap K V → Type 0
  Follows m entries = All (λ (e : K × V). Above e.0 m) entries

  pub insert-Above :
      (k : K) (v : V) (m : BTreeMap K V) → Above k m → insert k v m ≡ m ++ (k, v) ∷ []
  unfolding insert
  insert-Above k v [] h = refl
  insert-Above k v ((j, w) ∷ m) h = ground (arith, insert-Above k v m h.1)

  pub contains_key-Above : (k : K) (m : BTreeMap K V) → Above k m → contains_key k m ≡ false
  unfolding contains_key get
  contains_key-Above k [] h = refl
  contains_key-Above k ((j, w) ∷ m) h =
      ground (arith, o.cmp_refl k, o.eq_of_cmp j k, contains_key-Above k m h.1)

  pub Follows-nil : (entries : BTreeMap K V) → Follows [] entries
  Follows-nil [] = tt
  Follows-nil (e ∷ es) = (tt, Follows-nil es)

  pub Follows-snoc :
      (m : BTreeMap K V) (k : K) (v : V) (entries : BTreeMap K V)
      → Follows m entries
      → All (λ (e : K × V). o.cmp e.0 k ≡ Ordering.gt) entries
      → Follows (m ++ (k, v) ∷ []) entries
  Follows-snoc m k v [] h g = tt
  Follows-snoc m k v (e ∷ es) h g = (
    All-append (λ (d : K × V). o.cmp e.0 d.0 ≡ Ordering.gt) m ((k, v) ∷ []) h.0 (g.0, tt),
    Follows-snoc m k v es h.1 g.1,
  )
