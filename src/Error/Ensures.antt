-- ===== src/Error/Ensures.antt =====
-- What a call ensures if it succeeds, with one rule for each way in which calls are chained.
use spark_x_distributed_quer.Base.{◌≡◌, refl, Bool, true, false, List, [], ◌∷◌, All}
use spark_x_distributed_quer.Error.{
  SparkXError, Result, ok, err, panic, reject_if, collect, ◌>>=◌, ◌>>◌,
}

module _ {ℓ κ} {A : Type ℓ} where
  pub Ensures : (A → Type κ) → Result A → Type κ
  Ensures P (ok a) = P a
  Ensures P (err e) = Unit
  Ensures P (panic m) = Unit

  module _ (P : A → Type κ) where
    pub Ensures-ok : (a : A) → P a → Ensures P (ok a)
    unfolding Ensures
    Ensures-ok a p = p

    pub Ensures-err : (e : SparkXError) → Ensures P (err e)
    unfolding Ensures
    Ensures-err e = tt

    pub of_Ensures : (r : Result A) {a : A} → Ensures P r → r ≡ ok a → P a
    unfolding Ensures
    of_Ensures r {a} h e = let g : Ensures P (ok a) = rw e at h in g

    pub Ensures-self : (r : Result A) → ((a : A) → r ≡ ok a → P a) → Ensures P r
    unfolding Ensures
    Ensures-self (ok a) h = h a refl
    Ensures-self (err e) h = tt
    Ensures-self (panic m) h = tt

    pub Ensures-reject :
        (b : Bool) (e : SparkXError) (rest : Result A)
        → (b ≡ false → Ensures P rest)
        → Ensures P (reject_if b e >> rest)
    unfolding Ensures
    Ensures-reject true e rest h = tt
    Ensures-reject false e rest h = h refl

-- The first call's result is at hand with the equation that names it.
module _ {ℓ κ μ} {A : Type ℓ} {B : Type κ} (Q : B → Type μ) where
  pub Ensures-bind :
      (m : Result A) (f : A → Result B)
      → ((a : A) → m ≡ ok a → Ensures Q (f a))
      → Ensures Q (m >>= f)
  unfolding Ensures
  Ensures-bind (ok a) f h = h a refl
  Ensures-bind (err e) f h = tt
  Ensures-bind (panic m) f h = tt

-- The first call ensures `P`, and the rest is to be shown under it.
module _ {ℓ κ μ ν} {A : Type ℓ} {B : Type κ} {P : A → Type ν} (Q : B → Type μ) where
  pub Ensures->>= :
      (m : Result A) (f : A → Result B)
      → Ensures P m
      → ((a : A) → P a → Ensures Q (f a))
      → Ensures Q (m >>= f)
  unfolding Ensures
  Ensures->>= (ok a) f p h = h a p
  Ensures->>= (err e) f p h = tt
  Ensures->>= (panic m) f p h = tt

-- A list goes through a call and comes back by another, if each of its members does.
module _ {ℓ κ ν} {A : Type ℓ} {B : Type κ} {P : A → Type ν} (f : A → Result B) (g : B → Result A)
    (back : (a : A) → P a → Ensures (λ b. g b ≡ ok a) (f a)) where
  pub Ensures-collect :
      (xs : List A) → All P xs → Ensures (λ ys. collect g ys ≡ ok xs) (collect f xs)
  unfolding Ensures collect
  Ensures-collect [] h = refl
  Ensures-collect (x ∷ xs) h =
      Ensures->>= (λ ys. collect g ys ≡ ok (x ∷ xs)) (f x) _ (back x h.0)
        (λ y e.
          Ensures->>= (λ ys. collect g ys ≡ ok (x ∷ xs)) (collect f xs) _ (Ensures-collect xs h.1)
            (λ ys es. rw (e, es)))

module _ {ℓ κ ν} {A : Type ℓ} {P : A → Type κ} (Q : A → Type ν) where
  pub Ensures-imp : (r : Result A) → Ensures P r → ((a : A) → P a → Q a) → Ensures Q r
  unfolding Ensures
  Ensures-imp (ok a) p h = h a p
  Ensures-imp (err e) p h = tt
  Ensures-imp (panic m) p h = tt

-- What does not speak of the result.
pub Ensures-const {ℓ κ} : {A : Type ℓ} {X : Type κ} (r : Result A) → X → Ensures (λ _. X) r
unfolding Ensures
Ensures-const (ok a) x = x
Ensures-const (err e) x = tt
Ensures-const (panic m) x = tt
