-- ===== src/Error.antt =====
-- src/error.rs: `SparkXError`, and how a call ends. A message is the source's format string; the
-- values that it interpolates are left out, and an error of a library is its message. `panic` is a
-- Rust panic: a failed `expect`, an index out of range or a subtraction that overflows.
pub mod Exec
pub mod Ensures
use spark_x_distributed_quer.Base.{
  String, Bool, true, false, Option, none, some, List, [], ◌∷◌, ◌≡◌, refl, ◌⊎◌, inl, inr,
}

pub data SparkXError : Type 0 where
  arrow parquet io sql : String → SparkXError
  planning execution unsupported protocol transport : String → SparkXError
  not_found resource_exhausted : String → SparkXError
  task_superseded cancelled channel_closed : SparkXError

pub data Result {ℓ} (A : Type ℓ) : Type ℓ where
  ok : A → Result A
  err : SparkXError → Result A
  panic : String → Result A

-- `?`
module _ {ℓ κ} {A : Type ℓ} {B : Type κ} where
  infixl 5 ◌>>=◌
  abbrev pub ◌>>=◌ : Result A → (A → Result B) → Result B
  ok value >>= next = next value
  err e >>= next = err e
  panic message >>= next = panic message

module _ {ℓ} {B : Type ℓ} where
  infixl 5 ◌>>◌
  abbrev pub ◌>>◌ : Result (Unit {0}) → Result B → Result B
  checked >> rest = checked >>= (λ _. rest)

-- `if test { return Err(e) }`
abbrev pub reject_if : Bool → SparkXError → Result (Unit {0})
reject_if true e = err e
reject_if false e = ok tt

-- `ok_or_else(|| e)` and `expect(message)`
module _ {ℓ} {A : Type ℓ} where
  abbrev pub ok_or : Option A → SparkXError → Result A
  ok_or none e = err e
  ok_or (some a) e = ok a

  abbrev pub expect : Option A → String → Result A
  expect none m = panic m
  expect (some a) m = ok a

  abbrev pub IsPanic : Result A → Type 0
  IsPanic (ok a) = ⊥
  IsPanic (err e) = ⊥
  IsPanic (panic m) = Unit

-- `map(f).collect::<Result<Vec<_>>>()`: the first failure ends it.
unfoldable pub collect {ℓ κ} : {A : Type ℓ} {B : Type κ} → (A → Result B) → List A → Result (List B)
collect f [] = ok []
collect f (x ∷ xs) = do b ← f x; bs ← collect f xs; ok (b ∷ bs)

-- To split on how a call ended.
unfoldable pub is_ok {ℓ} : {A : Type ℓ} → Result A → Bool
is_ok (ok a) = true
is_ok (err e) = false
is_ok (panic m) = false

pub Result-cases {ℓ} :
    {A : Type ℓ} (r : Result A)
    → ((a : A) × (r ≡ ok a)) ⊎ (((e : SparkXError) × (r ≡ err e)) ⊎ ((m : String) × (r ≡ panic m)))
Result-cases (ok a) = inl (a, refl)
Result-cases (err e) = inr (inl (e, refl))
Result-cases (panic m) = inr (inr (m, refl))

-- Inversion of a successful bind.
module _ {ℓ κ} {A : Type ℓ} {B : Type κ} where
  pub >>=-eq-ok :
      (call : Result A) (next : A → Result B) {b : B}
      → (call >>= next) ≡ ok b
      → (value : A) × (call ≡ ok value) × (next value ≡ ok b)
  >>=-eq-ok (ok value) next h = (value, refl, h)
  >>=-eq-ok (err e) next h = cc
  >>=-eq-ok (panic message) next h = cc

pub reject_if-eq-ok : (b : Bool) (e : SparkXError) {u : Unit {0}} → reject_if b e ≡ ok u → b ≡ false
reject_if-eq-ok true e h = cc
reject_if-eq-ok false e h = refl

pub ok_or-eq-ok {ℓ} :
    {A : Type ℓ} (o : Option A) (e : SparkXError) {a : A} → ok_or o e ≡ ok a → o ≡ some a
ok_or-eq-ok none e h = cc
ok_or-eq-ok (some b) e h = cc

-- What does not panic.
module _ {ℓ κ} {A : Type ℓ} {B : Type κ} where
  pub >>=-returns :
      (call : Result A) (next : A → Result B)
      → ¬ IsPanic call
      → ((value : A) → call ≡ ok value → ¬ IsPanic (next value))
      → ¬ IsPanic (call >>= next)
  >>=-returns (ok value) next h g = g value refl
  >>=-returns (err e) next h g = λ x. x
  >>=-returns (panic message) next h g = absurd (h tt)

pub reject_if_returns : (b : Bool) (e : SparkXError) → ¬ IsPanic (reject_if b e)
reject_if_returns true e = λ x. x
reject_if_returns false e = λ x. x

pub ok_or_returns {ℓ} : {A : Type ℓ} (o : Option A) (e : SparkXError) → ¬ IsPanic (ok_or o e)
ok_or_returns none e = λ x. x
ok_or_returns (some a) e = λ x. x
