-- ===== src/Expr/Narrow.antt =====
-- src/query/expr.rs: arithmetic on two operands of one 32-bit type.
use spark_x_distributed_quer.Base.{
  ℕ, true, false, ◌&&◌, some, ◌≡◌, refl, sym, ◌∙◌, ◌≢◌, is_yes_iff, subst,
}
use spark_x_distributed_quer.Error.{ok}
use spark_x_distributed_quer.Error.Ensures.{Ensures, Ensures-bind, of_Ensures}
use spark_x_distributed_quer.Expr.{DataType, DataType-discrete, Operator, Expr}
use spark_x_distributed_quer.Expr.Typing.{
  is_numeric, is_null_type, common_numeric_type, binary_type, data_type,
}
use spark_x_distributed_quer.Expr.Evaluate.{
  Arrow, Batch, is_arithmetic, coerce, apply, evaluate_binary, evaluate,
}
use spark_x_distributed_quer.Expr.Kernels.{TypeLaws, is_narrow, apply-arithmetic, ok_eq}

abbrev pub widened : DataType → DataType
widened DataType.int32 = DataType.int64
widened DataType.uint32 = DataType.uint64
widened DataType.float32 = DataType.float64
widened t = t

common-widened : (t : DataType) → is_narrow t ≡ true → common_numeric_type t t ≡ some (widened t)
unfolding common_numeric_type
common-widened DataType.int32 n = refl
common-widened DataType.uint32 n = refl
common-widened DataType.float32 n = refl
common-widened _ n = cc

ne-widened : (t : DataType) → is_narrow t ≡ true → t ≢ widened t
ne-widened DataType.int32 n = λ e. cc
ne-widened DataType.uint32 n = λ e. cc
ne-widened DataType.float32 n = λ e. cc
ne-widened _ n = cc

binary_type-widened :
    (op : Operator) (t : DataType)
    → is_arithmetic op ≡ true
    → is_narrow t ≡ true
    → binary_type op t t ≡ ok (widened t)
unfolding binary_type
binary_type-widened Operator.add t h n = rw (common-widened t n)
binary_type-widened Operator.subtract t h n = rw (common-widened t n)
binary_type-widened Operator.multiply t h n = rw (common-widened t n)
binary_type-widened Operator.divide t h n = rw (common-widened t n)
binary_type-widened _ t h n = cc

not_null : (t : DataType) → is_narrow t ≡ true → is_null_type t ≡ false
not_null DataType.null n = cc
not_null _ n = refl

narrow-numeric : (t : DataType) → is_narrow t ≡ true → is_numeric t ≡ true
unfolding is_numeric
narrow-numeric DataType.int32 n = refl
narrow-numeric DataType.uint32 n = refl
narrow-numeric DataType.float32 n = refl
narrow-numeric _ n = cc

module _ (arrow : Arrow) (laws : TypeLaws arrow) where
  coerce-same :
      (op : Operator) (l r : arrow.Array)
      → arrow.array_type l ≡ arrow.array_type r
      → coerce arrow op l r ≡ ok (l, r)
  unfolding coerce
  coerce-same op l r e =
      rw ((is_yes_iff (DataType-discrete (arrow.array_type l) (arrow.array_type r))).1 e)

  evaluate_binary-narrow :
      (n : ℕ) (op : Operator) (l r : arrow.Array)
      → is_arithmetic op ≡ true
      → is_narrow (arrow.array_type l) ≡ true
      → arrow.array_type l ≡ arrow.array_type r
      → Ensures (λ a. arrow.array_type a ≡ arrow.array_type l) (evaluate_binary arrow n op l r)
  unfolding evaluate_binary
  evaluate_binary-narrow n op l r h w same =
      let Q : arrow.Array → Type 0 = λ a. arrow.array_type a ≡ arrow.array_type l in
      let some_type : (is_null_type (arrow.array_type l) && is_null_type (arrow.array_type r))
          ≡ false =
        rw (not_null (arrow.array_type l) w) in
      rw some_type (
        Ensures-bind Q (coerce arrow op l r) (λ p. apply arrow op p.0 p.1)
          (λ p e.
            let q : (l, r) ≡ p = ok_eq (sym (coerce-same op l r same) ∙ e) in
            subst (λ p. Ensures Q (apply arrow op p.0 p.1)) q
              (apply-arithmetic arrow laws op l r h (narrow-numeric (arrow.array_type l) w) same)))

  -- Where an arithmetic operator has two operands of one 32-bit type, planning gives the expression
  -- another type than that of the array to which it evaluates.
  pub narrow_arithmetic_is_mistyped :
      (batch : Batch arrow) (op : Operator) (left right : Expr) (t : DataType) (l r a : arrow.Array)
      → is_arithmetic op ≡ true
      → is_narrow t ≡ true
      → data_type batch.schema left ≡ ok t
      → data_type batch.schema right ≡ ok t
      → evaluate arrow left batch ≡ ok l
      → evaluate arrow right batch ≡ ok r
      → arrow.array_type l ≡ t
      → arrow.array_type r ≡ t
      → evaluate arrow (Expr.binary left op right) batch ≡ ok a
      → (w : DataType) × (data_type batch.schema (Expr.binary left op right) ≡ ok w)
        × (arrow.array_type a ≢ w)
  unfolding data_type evaluate
  narrow_arithmetic_is_mistyped batch op left right t l r a h n dl dr el er tl ttr ea =
      let computed : arrow.array_type a ≡ arrow.array_type l =
        of_Ensures (λ b. arrow.array_type b ≡ arrow.array_type l)
          (evaluate_binary arrow batch.num_rows op l r)
          (evaluate_binary-narrow batch.num_rows op l r h (rw tl n) (tl ∙ sym ttr))
          (rw (el, er) at ea) in
      (
        widened t,
        rw (dl, dr) (binary_type-widened op t h n),
        λ e. ne-widened t n (sym (computed ∙ tl) ∙ e),
      )
