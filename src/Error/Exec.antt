-- ===== src/Error/Exec.antt =====
-- Methods on `&mut self`. What was written before an early return stays written, so the state comes
-- back beside every outcome.
use spark_x_distributed_quer.Base.{◌≡◌, refl}
use spark_x_distributed_quer.Error.{SparkXError, Result, ok, err, panic, IsPanic}

abbrev pub Exec {ℓ κ} : Type ℓ → Type κ → Type (ℓ ⊔ κ)
Exec S A = S → Result A × S

module _ {ℓ κ μ} {S : Type ℓ} {A : Type κ} {B : Type μ} where
  -- The rest of a method after a call that returned `r`.
  abbrev pub proceed : Result A → (A → Exec S B) → Exec S B
  proceed (ok a) f s = f a s
  proceed (err e) f s = (err e, s)
  proceed (panic m) f s = (panic m, s)

  infixl 5 ◌>>=◌
  abbrev pub ◌>>=◌ : Exec S A → (A → Exec S B) → Exec S B
  ◌>>=◌ m f s = let (r, s') = m s in proceed r f s'

module _ {ℓ κ} {S : Type ℓ} {A : Type κ} where
  infixl 5 ◌>>◌
  abbrev pub ◌>>◌ {μ} : {B : Type μ} → Exec S A → Exec S B → Exec S B
  m >> n = m >>= λ _. n

  -- A call that reads nothing of the state and writes nothing to it.
  abbrev pub lift : Result A → Exec S A
  lift r s = (r, s)

-- What holds before a chain and is kept by its steps holds after it, however it ends.
module _ {ℓ κ μ ν} {S : Type ℓ} {A : Type κ} {B : Type μ} (P : S → Type ν) where
  pub proceed-keeps :
      (r : Result A) (f : A → Exec S B) (s : S)
      → P s
      → ((a : A) → r ≡ ok a → P (f a s).1)
      → P (proceed r f s).1
  proceed-keeps (ok a) f s h g = g a refl
  proceed-keeps (err e) f s h g = h
  proceed-keeps (panic m) f s h g = h

-- A chain that ended well got past its first call; one that was refused left the state as it was if
-- its rest does so when it is refused.
module _ {ℓ κ μ} {S : Type ℓ} {A : Type κ} {B : Type μ} where
  pub proceed-eq-ok :
      (r : Result A) (f : A → Exec S B) (s : S) {b : B}
      → (proceed r f s).0 ≡ ok b
      → (a : A) × (r ≡ ok a) × ((f a s).0 ≡ ok b)
  proceed-eq-ok (ok a) f s h = (a, refl, h)
  proceed-eq-ok (err e) f s h = cc
  proceed-eq-ok (panic m) f s h = cc

  pub proceed-refused :
      (r : Result A) (f : A → Exec S B) (s : S) {e : SparkXError}
      → ((a : A) → (f a s).0 ≡ err e → (f a s).1 ≡ s)
      → (proceed r f s).0 ≡ err e
      → (proceed r f s).1 ≡ s
  proceed-refused (ok a) f s g h = g a h
  proceed-refused (err d) f s g h = refl
  proceed-refused (panic m) f s g h = refl

  pub proceed-returns :
      (r : Result A) (f : A → Exec S B) (s : S)
      → ¬ IsPanic r
      → ((a : A) → r ≡ ok a → ¬ IsPanic (f a s).0)
      → ¬ IsPanic (proceed r f s).0
  proceed-returns (ok a) f s h g = g a refl
  proceed-returns (err e) f s h g = λ x. x
  proceed-returns (panic m) f s h g = absurd (h tt)
