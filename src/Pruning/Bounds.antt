-- ===== src/Pruning/Bounds.antt =====
-- src/storage/pruning.rs: a value between the bounds that compares to the literal as the operator says is
-- never excluded by the bounds.
use spark_x_distributed_quer.Base.{
  Bool, true, false, ◌&&◌, ◌||◌, Option, none, some, ◌≡◌, refl, arith, Ordering, Bool-cases, inl,
  inr, is_yes_iff,
}
use spark_x_distributed_quer.Expr.{
  DataType, ScalarValue, ScalarValue-discrete, Operator, partial_compare,
}
use spark_x_distributed_quer.Expr.Order.{
  IsLe, chain, map_flip, partial_compare_flip, partial_compare_trans,
}
use spark_x_distributed_quer.Pruning.{is_less, is_greater, is_same, scalar_eq, bounds_may_match}

-- What an operator asks of the order of its operands.
abbrev pub admits : Operator → Ordering → Bool
admits Operator.eq Ordering.eq = true
admits Operator.not_eq Ordering.lt = true
admits Operator.not_eq Ordering.gt = true
admits Operator.lt Ordering.lt = true
admits Operator.lt_eq Ordering.lt = true
admits Operator.lt_eq Ordering.eq = true
admits Operator.gt Ordering.gt = true
admits Operator.gt_eq Ordering.gt = true
admits Operator.gt_eq Ordering.eq = true
admits _ _ = false

-- If the operands compare, then as the operator says.
abbrev pub Admitted : Operator → Option Ordering → Type 0
Admitted op none = Unit
Admitted op (some o) = admits op o ≡ true

abbrev pub AtLeast : Option ScalarValue → ScalarValue → Type 0
AtLeast none v = Unit
AtLeast (some m) v = IsLe (partial_compare m v)

abbrev pub AtMost : Option ScalarValue → ScalarValue → Type 0
AtMost none v = Unit
AtMost (some m) v = IsLe (partial_compare v m)

module _ (literal v m : ScalarValue) where
  -- The literal is at most a lower bound of the value.
  literal_below :
      IsLe (partial_compare m v)
      → IsLe (partial_compare literal m)
      → partial_compare v literal
        ≡ map_flip (chain (partial_compare literal m) (partial_compare m v))
  literal_below h k = rw (partial_compare_flip literal v, partial_compare_trans literal m v k h)

  -- The literal is at least an upper bound of the value.
  literal_above :
      IsLe (partial_compare v m)
      → IsLe (partial_compare m literal)
      → partial_compare v literal ≡ chain (partial_compare v m) (partial_compare m literal)
  literal_above h k = partial_compare_trans v m literal h k

  eq-min :
      IsLe (partial_compare m v)
      → Admitted Operator.eq (partial_compare v literal)
      → is_less (partial_compare literal m) ≡ false
  eq-min h a = ground (arith, literal_below h)

  eq-max :
      IsLe (partial_compare v m)
      → Admitted Operator.eq (partial_compare v literal)
      → is_greater (partial_compare literal m) ≡ false
  eq-max h a = ground (arith, literal_above h, partial_compare_flip literal m)

  lt-min :
      IsLe (partial_compare m v)
      → Admitted Operator.lt (partial_compare v literal)
      → (is_same (partial_compare m literal) || is_greater (partial_compare m literal)) ≡ false
  lt-min h a = ground (arith, literal_below h, partial_compare_flip m literal)

  lt_eq-min :
      IsLe (partial_compare m v)
      → Admitted Operator.lt_eq (partial_compare v literal)
      → is_greater (partial_compare m literal) ≡ false
  lt_eq-min h a = ground (arith, literal_below h, partial_compare_flip m literal)

  gt-max :
      IsLe (partial_compare v m)
      → Admitted Operator.gt (partial_compare v literal)
      → (is_same (partial_compare m literal) || is_less (partial_compare m literal)) ≡ false
  gt-max h a = ground (arith, literal_above h)

  gt_eq-max :
      IsLe (partial_compare v m)
      → Admitted Operator.gt_eq (partial_compare v literal)
      → is_less (partial_compare m literal) ≡ false
  gt_eq-max h a = ground (arith, literal_above h)

-- A literal that is both bounds is the value.
not_eq-bounds :
    (literal v lo hi : ScalarValue)
    → IsLe (partial_compare lo v)
    → IsLe (partial_compare v hi)
    → Admitted Operator.not_eq (partial_compare v literal)
    → (scalar_eq lo literal && scalar_eq hi literal) ≡ false
not_eq-bounds literal v lo hi h k a = elim (Bool-cases (scalar_eq lo literal)) [
  | inr e ↦ rw e
  | inl e ↦ elim (Bool-cases (scalar_eq hi literal)) [
    | inr d ↦ rw (e, d)
    | inl d ↦
        let p = (is_yes_iff (ScalarValue-discrete lo literal)).0 e in
        let q = (is_yes_iff (ScalarValue-discrete hi literal)).0 d in
        absurd (between (rw p at h) (rw q at k))
  ]
]
  where
    between : IsLe (partial_compare literal v) → IsLe (partial_compare v literal) → ⊥
    between h k = ground (arith, partial_compare_flip literal v)

pub bounds_may_match_sound :
    (op : Operator) (t : DataType) (literal v : ScalarValue) (lo hi : Option ScalarValue)
    → AtLeast lo v
    → AtMost hi v
    → Admitted op (partial_compare v literal)
    → bounds_may_match op t literal lo hi ≡ true
unfolding bounds_may_match
bounds_may_match_sound Operator.eq t literal v none none h k a = refl
bounds_may_match_sound Operator.eq t literal v none (some m) h k a = rw (eq-max literal v m k a)
bounds_may_match_sound Operator.eq t literal v (some m) none h k a = rw (eq-min literal v m h a)
bounds_may_match_sound Operator.eq t literal v (some m) (some n) h k a =
    rw (eq-min literal v m h a, eq-max literal v n k a)
bounds_may_match_sound Operator.not_eq t literal v (some m) (some n) h k a =
    ground (arith, not_eq-bounds literal v m n)
bounds_may_match_sound Operator.not_eq t literal v lo hi h k a = ground arith
bounds_may_match_sound Operator.lt t literal v (some m) hi h k a = rw (lt-min literal v m h a)
bounds_may_match_sound Operator.lt t literal v none hi h k a = refl
bounds_may_match_sound Operator.lt_eq t literal v (some m) hi h k a = rw (lt_eq-min literal v m h a)
bounds_may_match_sound Operator.lt_eq t literal v none hi h k a = refl
bounds_may_match_sound Operator.gt t literal v lo (some m) h k a = rw (gt-max literal v m k a)
bounds_may_match_sound Operator.gt t literal v lo none h k a = refl
bounds_may_match_sound Operator.gt_eq t literal v lo (some m) h k a = rw (gt_eq-max literal v m k a)
bounds_may_match_sound Operator.gt_eq t literal v lo none h k a = refl
bounds_may_match_sound _ t literal v lo hi h k a = refl
