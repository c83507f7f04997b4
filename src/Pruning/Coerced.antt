-- ===== src/Pruning/Coerced.antt =====
-- src/query/expr.rs, one row at a time: the operands of an operator before and after their casts.
use spark_x_distributed_quer.Base.{
  ℕ, true, false, some, ◌≡◌, refl, sym, ◌∙◌, ap, inl, inr, Bool-cases, is_yes_iff,
}
use spark_x_distributed_quer.Error.{ok_or, ok_or-eq-ok}
use spark_x_distributed_quer.Error.Ensures.{Ensures, Ensures-ok, Ensures-bind, of_Ensures}
use spark_x_distributed_quer.Expr.{
  DataType, DataType-discrete, ScalarValue, scalar_type, Operator, partial_compare,
}
use spark_x_distributed_quer.Expr.Typing.{type_eq, is_boolean_or_null}
use spark_x_distributed_quer.Expr.Evaluate.{Arrow, target_type, coerce}
use spark_x_distributed_quer.Expr.Kernels.{TypeLaws}
use spark_x_distributed_quer.Pruning.{is_null_value}
use spark_x_distributed_quer.Pruning.Bounds.{Admitted}
use spark_x_distributed_quer.Pruning.Rows.{
  RowLaws, kind, is_readable, target-readable, Kept, Kept_self, target-kind, target-boolean,
  compared_types,
}

null_type_is_null : (v : ScalarValue) → scalar_type v ≡ DataType.null → is_null_value v ≡ true
unfolding scalar_type
null_type_is_null ScalarValue.null h = refl
null_type_is_null _ h = cc

-- A true value was true before the cast of a truth value or of nulls.
true_before :
    (t : DataType) (v w : ScalarValue)
    → is_boolean_or_null t ≡ true
    → (is_null_value v ≡ false → scalar_type v ≡ kind t)
    → Kept v w
    → w ≡ ScalarValue.boolean true
    → v ≡ ScalarValue.boolean true
unfolding is_boolean_or_null scalar_type
true_before DataType.boolean v w b h k e =
    let known : is_null_value v ≡ false = sym k.0 ∙ ap is_null_value e in
    sym (k.1 (ap scalar_type e ∙ sym (h known))) ∙ e
true_before DataType.null v w b h k e =
    let known : is_null_value v ≡ false = sym k.0 ∙ ap is_null_value e in
    let null : is_null_value v ≡ true = null_type_is_null v (h known) in absurd (cc (known, null))
true_before _ v w b h k e = cc

module _ (arrow : Arrow) (types : TypeLaws arrow) (rows : RowLaws arrow) (i : ℕ) where
  open rows use {value, value_kind}

  -- An operand before and after its cast.
  pub record Coerced (l r a b : arrow.Array) : Type 0 where
    pub left_kept : Kept (value l i) (value a i)
    pub right_kept : Kept (value r i) (value b i)
    pub same_type : arrow.array_type a ≡ arrow.array_type b
    pub same_kind :
        kind (arrow.array_type l) ≡ kind (arrow.array_type r)
        → kind (arrow.array_type a) ≡ kind (arrow.array_type l)
    pub truths :
        arrow.array_type a ≡ DataType.boolean
        → (is_boolean_or_null (arrow.array_type l) ≡ true)
          × (is_boolean_or_null (arrow.array_type r) ≡ true)
    pub readable :
        is_readable (arrow.array_type l) ≡ true
        → is_readable (arrow.array_type r) ≡ true
        → is_readable (arrow.array_type a) ≡ true

  pub coerce-Coerced :
      (op : Operator) (l r : arrow.Array) → Ensures (λ p. Coerced l r p.0 p.1) (coerce arrow op l r)
  unfolding coerce is_boolean_or_null
  coerce-Coerced op l r =
      let Q : arrow.Array × arrow.Array → Type 0 = λ p. Coerced l r p.0 p.1 in
      elim (Bool-cases (type_eq (arrow.array_type l) (arrow.array_type r))) [
        | inl e ↦
            let same =
              (is_yes_iff (DataType-discrete (arrow.array_type l) (arrow.array_type r))).0 e in
            rw e (
              Ensures-ok Q (l, r)
                (record {
                  left_kept = Kept_self (value l i);
                  right_kept = Kept_self (value r i);
                  same_type = same;
                  same_kind = λ _. refl;
                  truths = λ t. (rw t, rw (← same, t));
                  readable = λ h _. h;
                }))
        | inr e ↦ rw e (
            Ensures-bind Q (ok_or (target_type op (arrow.array_type l) (arrow.array_type r)) _) _
              (λ t et. Ensures-bind Q (arrow.cast l t) _ (λ a ea.
                Ensures-bind Q (arrow.cast r t) _ (λ b eb.
                  let found : target_type op (arrow.array_type l) (arrow.array_type r) ≡ some t =
                    ok_or-eq-ok _ _ et in
                  let ta : arrow.array_type a ≡ t = of_Ensures _ _ (types.cast_type l t) ea in
                  let tb : arrow.array_type b ≡ t = of_Ensures _ _ (types.cast_type r t) eb in
                  Ensures-ok Q (a, b)
                    (record {
                      left_kept = rows.cast_value l a t i (op, arrow.array_type r, inl found) ea;
                      right_kept = rows.cast_value r b t i (op, arrow.array_type l, inr found) eb;
                      same_type = ta ∙ sym tb;
                      same_kind = λ k. ap kind ta ∙ target-kind op _ _ t found k;
                      truths = λ u. target-boolean op _ _ (found ∙ ap some (sym ta ∙ u));
                      readable = λ h d. ap is_readable ta ∙ target-readable op _ _ t found h d;
                    })))))
      ]

  -- A true operand was true before its cast.
  pub kept_true :
      (l a : arrow.Array)
      → is_boolean_or_null (arrow.array_type l) ≡ true
      → Kept (value l i) (value a i)
      → value a i ≡ ScalarValue.boolean true
      → value l i ≡ ScalarValue.boolean true
  kept_true l a t k e =
      true_before (arrow.array_type l) (value l i) (value a i) t (value_kind l i) k e

  -- Operands compare as they do after their casts.
  pub kept-Admitted :
      (op : Operator) (l r a b : arrow.Array)
      → Coerced l r a b
      → is_null_value (value a i) ≡ false
      → is_null_value (value b i) ≡ false
      → Admitted op (partial_compare (value a i) (value b i))
      → Admitted op (partial_compare (value l i) (value r i))
  kept-Admitted op l r a b c na nb h =
      let nl : is_null_value (value l i) ≡ false = sym c.left_kept.0 ∙ na in
      let nr : is_null_value (value r i) ≡ false = sym c.right_kept.0 ∙ nb in
      elim (compared_types (value l i) (value r i) nl nr) [
        | inl e ↦ rw e tt
        | inr e ↦
            let kinds = sym (value_kind l i nl) ∙ e ∙ value_kind r i nr in
            let left =
              c.left_kept.1 (value_kind a i na ∙ c.same_kind kinds ∙ sym (value_kind l i nl)) in
            let right = c.right_kept.1 (
              value_kind b i nb
              ∙ ap kind (sym c.same_type)
              ∙ c.same_kind kinds
              ∙ kinds
              ∙ sym (value_kind r i nr)) in
            rw (← left, ← right) h
      ]
