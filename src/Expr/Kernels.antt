-- ===== src/Expr/Kernels.antt =====
-- src/query/expr.rs: the types of what the operators answer. The types of what Arrow's kernels answer are
-- its documented ones.
use spark_x_distributed_quer.Base.{
  ℕ, Bool, true, false, ◌&&◌, some, ◌≡◌, refl, sym, ap, ◌∙◌, arith, Bool-cases, inl, inr,
  is_yes_iff,
}
use spark_x_distributed_quer.Error.{ok, ok_or-eq-ok}
use spark_x_distributed_quer.Error.Ensures.{
  Ensures, Ensures-ok, Ensures-err, Ensures->>=, Ensures-bind, Ensures-imp,
}
use spark_x_distributed_quer.Expr.{DataType, DataType-discrete, ScalarValue, scalar_type, Operator}
use spark_x_distributed_quer.Expr.Typing.{
  type_eq, is_null_type, is_numeric, normalized_numeric_type, common_numeric_type, binary_type,
}
use spark_x_distributed_quer.Expr.Evaluate.{
  Arrow, is_arithmetic, target_type, as_boolean, coerce, apply, evaluate_binary,
}

pub record TypeLaws (arrow : Arrow) : Type 0 where
  pub filled_type : (v : ScalarValue) (n : ℕ) → arrow.array_type (arrow.filled v n) ≡ scalar_type v
  pub null_booleans_type : (n : ℕ) → arrow.array_type (arrow.null_booleans n) ≡ DataType.boolean
  pub cast_type :
      (a : arrow.Array) (t : DataType) → Ensures (λ b. arrow.array_type b ≡ t) (arrow.cast a t)
  pub compare_type :
      (op : Operator) (a b : arrow.Array)
      → Ensures (λ c. arrow.array_type c ≡ DataType.boolean) (arrow.compare op a b)
  pub and_type :
      (a b : arrow.Array)
      → Ensures (λ c. arrow.array_type c ≡ DataType.boolean) (arrow.and_kleene a b)
  pub or_type :
      (a b : arrow.Array)
      → Ensures (λ c. arrow.array_type c ≡ DataType.boolean) (arrow.or_kleene a b)
  pub arithmetic_type_law :
      (op : Operator) (a b : arrow.Array)
      → is_numeric (arrow.array_type a) ≡ true
      → arrow.array_type a ≡ arrow.array_type b
      → Ensures (λ c. arrow.array_type c ≡ arrow.array_type a) (arrow.arithmetic op a b)
  pub is_null_type_law :
      (a : arrow.Array) → Ensures (λ c. arrow.array_type c ≡ DataType.boolean) (arrow.is_null a)
  pub is_not_null_type_law :
      (a : arrow.Array) → Ensures (λ c. arrow.array_type c ≡ DataType.boolean) (arrow.is_not_null a)

-- A type of 32 bits.
abbrev pub is_narrow : DataType → Bool
is_narrow DataType.int32 = true
is_narrow DataType.uint32 = true
is_narrow DataType.float32 = true
is_narrow _ = false

binary_type-boolean :
    (op : Operator) (l r : DataType) {t : DataType}
    → is_arithmetic op ≡ false
    → binary_type op l r ≡ ok t
    → t ≡ DataType.boolean
unfolding binary_type
binary_type-boolean Operator.and l r h e = ground arith
binary_type-boolean Operator.or l r h e = ground arith
binary_type-boolean Operator.add l r h e = cc
binary_type-boolean Operator.subtract l r h e = cc
binary_type-boolean Operator.multiply l r h e = cc
binary_type-boolean Operator.divide l r h e = cc
binary_type-boolean _ l r h e = ground arith

binary_type-common :
    (op : Operator) (l r : DataType) {t : DataType}
    → is_arithmetic op ≡ true
    → binary_type op l r ≡ ok t
    → common_numeric_type l r ≡ some t
unfolding binary_type
binary_type-common Operator.add l r h e = ok_or-eq-ok (common_numeric_type l r) _ e
binary_type-common Operator.subtract l r h e = ok_or-eq-ok (common_numeric_type l r) _ e
binary_type-common Operator.multiply l r h e = ok_or-eq-ok (common_numeric_type l r) _ e
binary_type-common Operator.divide l r h e = ok_or-eq-ok (common_numeric_type l r) _ e
binary_type-common _ l r h e = cc

-- Two operands of one type that is not narrow give that type.
common-same :
    (l : DataType) {t : DataType} → is_narrow l ≡ false → common_numeric_type l l ≡ some t → l ≡ t
unfolding common_numeric_type
common-same DataType.int64 h e = cc
common-same DataType.uint64 h e = cc
common-same DataType.float64 h e = cc
common-same _ h e = ground arith

normalized-numeric :
    (l : DataType) {t : DataType} → normalized_numeric_type l ≡ some t → is_numeric t ≡ true
unfolding normalized_numeric_type is_numeric
normalized-numeric l h = ground arith

common-numeric :
    (l r : DataType) {t : DataType} → common_numeric_type l r ≡ some t → is_numeric t ≡ true
unfolding common_numeric_type is_numeric
common-numeric l r h = ground (arith, normalized-numeric l, normalized-numeric r)

module _ (arrow : Arrow) (laws : TypeLaws arrow) where
  abbrev pub HasType : DataType → arrow.Array → Type 0
  HasType t a = arrow.array_type a ≡ t

  as_boolean-type : (a : arrow.Array) → Ensures (λ b. b ≡ a) (as_boolean arrow a)
  unfolding as_boolean
  as_boolean-type a = elim (Bool-cases (type_eq (arrow.array_type a) DataType.boolean)) [
    | inl e ↦ rw e (Ensures-ok (λ b. b ≡ a) a refl)
    | inr e ↦ rw e (Ensures-err (λ b. b ≡ a) _)
  ]

  apply-boolean :
      (op : Operator) (l r : arrow.Array)
      → is_arithmetic op ≡ false
      → Ensures (HasType DataType.boolean) (apply arrow op l r)
  unfolding apply
  apply-boolean Operator.and l r h =
      Ensures-bind (HasType DataType.boolean) (as_boolean arrow l) _ (λ a _.
        Ensures-bind (HasType DataType.boolean) (as_boolean arrow r) _ (λ b _. laws.and_type a b))
  apply-boolean Operator.or l r h =
      Ensures-bind (HasType DataType.boolean) (as_boolean arrow l) _ (λ a _.
        Ensures-bind (HasType DataType.boolean) (as_boolean arrow r) _ (λ b _. laws.or_type a b))
  apply-boolean Operator.eq l r h = laws.compare_type Operator.eq l r
  apply-boolean Operator.not_eq l r h = laws.compare_type Operator.not_eq l r
  apply-boolean Operator.lt l r h = laws.compare_type Operator.lt l r
  apply-boolean Operator.lt_eq l r h = laws.compare_type Operator.lt_eq l r
  apply-boolean Operator.gt l r h = laws.compare_type Operator.gt l r
  apply-boolean Operator.gt_eq l r h = laws.compare_type Operator.gt_eq l r
  apply-boolean _ l r h = cc

  pub apply-arithmetic :
      (op : Operator) (l r : arrow.Array)
      → is_arithmetic op ≡ true
      → is_numeric (arrow.array_type l) ≡ true
      → arrow.array_type l ≡ arrow.array_type r
      → Ensures (HasType (arrow.array_type l)) (apply arrow op l r)
  unfolding apply
  apply-arithmetic Operator.add l r h n e = laws.arithmetic_type_law Operator.add l r n e
  apply-arithmetic Operator.subtract l r h n e = laws.arithmetic_type_law Operator.subtract l r n e
  apply-arithmetic Operator.multiply l r h n e = laws.arithmetic_type_law Operator.multiply l r n e
  apply-arithmetic Operator.divide l r h n e = laws.arithmetic_type_law Operator.divide l r n e
  apply-arithmetic _ l r h n e = cc

  -- The operands of an arithmetic operator after their casts.
  coerce-arithmetic :
      (op : Operator) (l r : arrow.Array) {t : DataType}
      → is_arithmetic op ≡ true
      → common_numeric_type (arrow.array_type l) (arrow.array_type r) ≡ some t
      → (arrow.array_type l ≡ arrow.array_type r → is_narrow (arrow.array_type l) ≡ false)
      → Ensures (λ p. HasType t p.0 × HasType t p.1) (coerce arrow op l r)
  unfolding coerce target_type
  coerce-arithmetic op l r {t} h c wide =
      let Q : arrow.Array × arrow.Array → Type 0 = λ p. HasType t p.0 × HasType t p.1 in
      elim (Bool-cases (type_eq (arrow.array_type l) (arrow.array_type r))) [
        | inl e ↦
            let same =
              (is_yes_iff (DataType-discrete (arrow.array_type l) (arrow.array_type r))).0 e in
            let p = common-same (arrow.array_type l) (wide same) (rw (sym same) at c) in
            rw e (Ensures-ok Q (l, r) (p, sym same ∙ p))
        | inr e ↦
            rw (e, h, c)
              (Ensures->>= Q (arrow.cast l t) _ (laws.cast_type l t) (λ a p.
                Ensures->>= Q (arrow.cast r t) _ (laws.cast_type r t)
                  (λ b q. Ensures-ok Q (a, b) (p, q))))
      ]

  pub evaluate_binary-type :
      (n : ℕ) (op : Operator) (l r : arrow.Array) {t : DataType}
      → binary_type op (arrow.array_type l) (arrow.array_type r) ≡ ok t
      → (is_arithmetic op ≡ true
          → arrow.array_type l ≡ arrow.array_type r
          → is_narrow (arrow.array_type l) ≡ false)
      → Ensures (HasType t) (evaluate_binary arrow n op l r)
  unfolding evaluate_binary
  evaluate_binary-type n op l r {t} e wide =
      let nulls = is_null_type (arrow.array_type l) && is_null_type (arrow.array_type r) in
      elim (Bool-cases nulls) [
        | inl b ↦ elim (Bool-cases (is_arithmetic op)) [
          | inl a ↦ rw (b, a) (Ensures-err (HasType t) _)
          | inr a ↦
              rw (b, a)
                (Ensures-ok (HasType t) _
                  (laws.null_booleans_type n ∙ sym (binary_type-boolean op _ _ a e)))
        ]
        | inr b ↦ elim (Bool-cases (is_arithmetic op)) [
          | inl a ↦ rw b (
              Ensures->>= (HasType t) (coerce arrow op l r) (λ p. apply arrow op p.0 p.1)
                (coerce-arithmetic op l r a (binary_type-common op _ _ a e) (wide a))
                (λ p h.
                  Ensures-imp (HasType t) (apply arrow op p.0 p.1)
                    (apply-arithmetic op p.0 p.1 a
                      (ap is_numeric h.0
                        ∙ common-numeric (arrow.array_type l) (arrow.array_type r)
                            (binary_type-common op _ _ a e))
                      (h.0 ∙ sym h.1))
                    (λ c q. q ∙ h.0)))
          | inr a ↦ rw b (
              Ensures-bind (HasType t) (coerce arrow op l r) (λ p. apply arrow op p.0 p.1)
                (λ p _.
                  Ensures-imp (HasType t) (apply arrow op p.0 p.1) (apply-boolean op p.0 p.1 a)
                    (λ c q. q ∙ sym (binary_type-boolean op _ _ a e))))
        ]
      ]

pub ok_eq {ℓ} : {A : Type ℓ} {a b : A} → ok a ≡ ok b → a ≡ b
ok_eq h = cc
