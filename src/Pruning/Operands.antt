-- ===== src/Pruning/Operands.antt =====
-- src/query/expr.rs, one row at a time: what a true answer of an operator says of the row's operands.
use spark_x_distributed_quer.Base.{
  ℕ, ◌<◌, true, false, ◌&&◌, ◌≡◌, refl, sym, ◌∙◌, ◌⊎◌, inl, inr, Bool-cases, is_yes_iff,
}
use spark_x_distributed_quer.Error.{Result, ◌>>=◌}
use spark_x_distributed_quer.Error.Ensures.{
  Ensures, Ensures-ok, Ensures-err, Ensures->>=, Ensures-bind, Ensures-self, of_Ensures,
}
use spark_x_distributed_quer.Expr.{
  DataType, DataType-discrete, ScalarValue, Operator, partial_compare,
}
use spark_x_distributed_quer.Expr.Typing.{type_eq, is_null_type}
use spark_x_distributed_quer.Expr.Evaluate.{
  Arrow, is_arithmetic, as_boolean, coerce, apply, evaluate_binary,
}
use spark_x_distributed_quer.Expr.Kernels.{TypeLaws}
use spark_x_distributed_quer.Pruning.{is_null_value}
use spark_x_distributed_quer.Pruning.Bounds.{Admitted}
use spark_x_distributed_quer.Pruning.Rows.{RowLaws, IsOrdinaryAt, is_comparison}
use spark_x_distributed_quer.Pruning.Coerced.{Coerced, coerce-Coerced, kept_true, kept-Admitted}

-- What a true answer of an operator says of its operands, a comparison's under a condition on each.
abbrev pub SaysTrue : Type 0 → Type 0 → Operator → ScalarValue → ScalarValue → Type 0
SaysTrue L R Operator.and v w = (v ≡ ScalarValue.boolean true) × (w ≡ ScalarValue.boolean true)
SaysTrue L R Operator.or v w = (v ≡ ScalarValue.boolean true) ⊎ (w ≡ ScalarValue.boolean true)
SaysTrue L R op v w =
    is_comparison op ≡ true
    → L
    → R
    → (is_null_value v ≡ false) × (is_null_value w ≡ false) × Admitted op (partial_compare v w)

module _ (arrow : Arrow) (types : TypeLaws arrow) (rows : RowLaws arrow) (i : ℕ) where
  open rows use {value, value_kind}

  -- The end of each comparison.
  compare-SaysTrue :
      (op : Operator)
      → is_comparison op ≡ true
      → (l r a b : arrow.Array) → Coerced arrow types rows i l r a b
      → Ensures
          (λ c.
            value c i ≡ ScalarValue.boolean true
            → is_comparison op ≡ true
            → IsOrdinaryAt rows i l
            → IsOrdinaryAt rows i r
            → (is_null_value (value l i) ≡ false)
              × (is_null_value (value r i) ≡ false)
              × Admitted op (partial_compare (value l i) (value r i)))
          (arrow.compare op a b)
  compare-SaysTrue op is_cmp l r a b k = Ensures-self _ (arrow.compare op a b) (λ c e. λ h _ ol or_.
      let (na, nb, adm) =
        rows.compare_true op a b c i is_cmp e k.same_type (k.readable ol.0 or_.0)
          (k.left_kept.2 ol.1) (k.right_kept.2 or_.1) h in
      (
        sym k.left_kept.0 ∙ na,
        sym k.right_kept.0 ∙ nb,
        kept-Admitted arrow types rows i op l r a b k na nb adm,
      ))

  as_boolean-same :
      (a : arrow.Array)
      → Ensures (λ x. (x ≡ a) × (arrow.array_type a ≡ DataType.boolean)) (as_boolean arrow a)
  unfolding as_boolean
  as_boolean-same a =
      let Q : arrow.Array → Type 0 = λ x. (x ≡ a) × (arrow.array_type a ≡ DataType.boolean) in
      elim (Bool-cases (type_eq (arrow.array_type a) DataType.boolean)) [
        | inl e ↦ rw e (
            Ensures-ok Q a
              (refl, (is_yes_iff (DataType-discrete (arrow.array_type a) DataType.boolean)).0 e))
        | inr e ↦ rw e (Ensures-err Q _)
      ]

  -- The operands of `and` and `or` are those of the operator, of truth values.
  both_boolean :
      (Q : arrow.Array → Type 0) (a b : arrow.Array)
      (f : arrow.Array → arrow.Array → Result arrow.Array)
      → (arrow.array_type a ≡ DataType.boolean → Ensures Q (f a b))
      → Ensures Q (as_boolean arrow a >>= (λ x. as_boolean arrow b >>= (λ y. f x y)))
  both_boolean Q a b f h = Ensures-bind Q (as_boolean arrow a) _ (λ x ex.
      Ensures-bind Q (as_boolean arrow b) _ (λ y ey.
        let (sx, t) = of_Ensures _ _ (as_boolean-same a) ex in
        let (sy, _) = of_Ensures _ _ (as_boolean-same b) ey in rw (sx, sy) (h t)))

  apply-SaysTrue :
      (op : Operator) (l r a b : arrow.Array)
      → Coerced arrow types rows i l r a b
      → Ensures
          (λ c.
            value c i ≡ ScalarValue.boolean true
            → SaysTrue (IsOrdinaryAt rows i l) (IsOrdinaryAt rows i r) op (value l i) (value r i))
          (apply arrow op a b)
  unfolding apply
  apply-SaysTrue Operator.and l r a b c = both_boolean _ a b arrow.and_kleene (λ t.
      Ensures-self _ (arrow.and_kleene a b) (λ d e. λ h.
        let (va, vb) = rows.and_true a b d i e h in
        (
          kept_true arrow types rows i l a (c.truths t).0 c.left_kept va,
          kept_true arrow types rows i r b (c.truths t).1 c.right_kept vb,
        )))
  apply-SaysTrue Operator.or l r a b c = both_boolean _ a b arrow.or_kleene (λ t.
      Ensures-self _ (arrow.or_kleene a b) (λ d e. λ h. elim (rows.or_true a b d i e h) [
        | inl va ↦ inl (kept_true arrow types rows i l a (c.truths t).0 c.left_kept va)
        | inr vb ↦ inr (kept_true arrow types rows i r b (c.truths t).1 c.right_kept vb)
      ]))
  apply-SaysTrue Operator.eq l r a b c = compare-SaysTrue Operator.eq refl l r a b c
  apply-SaysTrue Operator.not_eq l r a b c = compare-SaysTrue Operator.not_eq refl l r a b c
  apply-SaysTrue Operator.lt l r a b c = compare-SaysTrue Operator.lt refl l r a b c
  apply-SaysTrue Operator.lt_eq l r a b c = compare-SaysTrue Operator.lt_eq refl l r a b c
  apply-SaysTrue Operator.gt l r a b c = compare-SaysTrue Operator.gt refl l r a b c
  apply-SaysTrue Operator.gt_eq l r a b c = compare-SaysTrue Operator.gt_eq refl l r a b c
  apply-SaysTrue op l r a b c = Ensures-self _ _ (λ x _. λ _. λ h. cc)

  pub evaluate_binary-SaysTrue :
      (n : ℕ) (op : Operator) (l r : arrow.Array)
      → i < n
      → Ensures
          (λ c.
            value c i ≡ ScalarValue.boolean true
            → SaysTrue (IsOrdinaryAt rows i l) (IsOrdinaryAt rows i r) op (value l i) (value r i))
          (evaluate_binary arrow n op l r)
  unfolding evaluate_binary
  evaluate_binary-SaysTrue n op l r within =
      let Q : arrow.Array → Type 0 = λ c.
        value c i ≡ ScalarValue.boolean true
        → SaysTrue (IsOrdinaryAt rows i l) (IsOrdinaryAt rows i r) op (value l i) (value r i) in
      elim (Bool-cases (is_null_type (arrow.array_type l) && is_null_type (arrow.array_type r))) [
        | inl e ↦ elim (Bool-cases (is_arithmetic op)) [
          | inl a ↦ rw (e, a) (Ensures-err Q _)
          | inr a ↦
              rw (e, a)
                (Ensures-ok Q (arrow.null_booleans n)
                  (λ h. absurd (cc (h, rows.null_booleans_value n i within))))
        ]
        | inr e ↦ rw e (
            Ensures->>= Q (coerce arrow op l r) (λ p. apply arrow op p.0 p.1)
              (coerce-Coerced arrow types rows i op l r) (λ p c. apply-SaysTrue op l r p.0 p.1 c))
      ]
