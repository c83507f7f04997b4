-- ===== src/Base/Equality.antt =====
-- `==` on derived `PartialEq` types, as the answer of a decision procedure.
use Prim.Native.String.{String}
use mathlib.Core.Path.{◌≡◌, refl}
use mathlib.Core.Logic.{◌↔◌, inl, inr}
use mathlib.Core.Bool.{Bool, true, false}
use spark_x_distributed_quer.Base.Tests.{Bool-cases}
use spark_x_distributed_quer.Base.Keys.{key_eq, key_eq_iff, str_ord}

pub String-ne : (a b : String) → key_eq a b ≡ false → ¬ (a ≡ b)
String-ne a b e p = cc (e, (key_eq_iff a b).1 p)

unfoldable pub String-discrete : Discrete String
String-discrete a b = elim (Bool-cases (key_eq a b)) [
  | inl e ↦ yes ((key_eq_iff a b).0 e)
  | inr e ↦ no (String-ne a b e)
]

module _ {ℓ} {P : Type ℓ} where
  abbrev pub is_yes : Dec P → Bool
  is_yes (yes p) = true
  is_yes (no h) = false

  pub is_yes_iff : (d : Dec P) → (is_yes d ≡ true) ↔ P
  is_yes_iff (yes p) = (λ _. p, λ _. refl)
  is_yes_iff (no h) = (λ e. cc, λ p. absurd (h p))
