-- ===== src/Expr/Sound.antt =====
-- src/query/expr.rs: the type that planning gives an expression is that of the array it evaluates to.
use spark_x_distributed_quer.Base.{
  ℕ, String, Bool, true, false, Option, none, some, ◌≡◌, sym, ◌∙◌, ap, get_elem?,
}
use spark_x_distributed_quer.Error.{ok, >>=-eq-ok, expect}
use spark_x_distributed_quer.Error.Ensures.{
  Ensures, Ensures-ok, Ensures-err, Ensures->>=, Ensures-bind, Ensures-imp, Ensures-self,
  of_Ensures,
}
use spark_x_distributed_quer.Expr.{DataType, Expr}
use spark_x_distributed_quer.Expr.Schemas.{Field, Schema, find_column, find_field}
use spark_x_distributed_quer.Expr.Typing.{type_of, data_type}
use spark_x_distributed_quer.Expr.Evaluate.{Arrow, Batch, is_arithmetic, evaluate_at, evaluate}
use spark_x_distributed_quer.Expr.Kernels.{
  TypeLaws, is_narrow, HasType, evaluate_binary-type, ok_eq,
}

-- No arithmetic has two operands of one 32-bit type.
abbrev pub IsWide : Schema → Expr → Type 0
IsWide schema (Expr.binary left op right) =
    IsWide schema left
    × IsWide schema right
    × ((t : DataType)
        → is_arithmetic op ≡ true
        → data_type schema left ≡ ok t
        → data_type schema right ≡ ok t
        → is_narrow t ≡ false)
IsWide schema (Expr.is_null e _) = IsWide schema e
IsWide schema (Expr.cast e _) = IsWide schema e
IsWide schema (Expr.alias e _) = IsWide schema e
IsWide schema (Expr.aggregate _ e _) = IsWide schema e
IsWide schema _ = Unit

-- The columns of a batch have the types of its schema.
abbrev pub IsBatch : (arrow : Arrow) → Batch arrow → Type 0
IsBatch arrow batch =
    (i : ℕ) (f : Field) (a : arrow.Array)
    → get_elem? batch.schema.fields i ≡ some f
    → get_elem? batch.columns i ≡ some a
    → arrow.array_type a ≡ f.data_type

expect-eq-ok {ℓ} : {A : Type ℓ} (o : Option A) (m : String) {a : A} → expect o m ≡ ok a → o ≡ some a
expect-eq-ok none m h = cc
expect-eq-ok (some b) m h = cc

module _ (arrow : Arrow) (laws : TypeLaws arrow) (batch : Batch arrow)
    (good : IsBatch arrow batch) where
  column-type :
      (outer : Bool) (name : String) (t : DataType)
      → type_of batch.schema outer (Expr.column name) ≡ ok t
      → Ensures (HasType arrow laws t) (evaluate_at arrow outer (Expr.column name) batch)
  unfolding type_of evaluate_at find_column find_field
  column-type outer name t h =
      let (f, ef, et) = >>=-eq-ok (find_field batch.schema name) _ h in
      let (j, ej, eg) = >>=-eq-ok (find_column batch.schema name) _ ef in
      Ensures-bind (HasType arrow laws t) (find_column batch.schema name) _ (λ i ei.
        Ensures-self (HasType arrow laws t) (expect (get_elem? batch.columns i) _) (λ a ea.
          let same : j ≡ i = cc (ei, ej) in
          good i f a (rw (← same) (expect-eq-ok _ _ eg)) (expect-eq-ok _ _ ea) ∙ ok_eq et))

  evaluate-type :
      (outer : Bool) (e : Expr) (t : DataType)
      → IsWide batch.schema e
      → type_of batch.schema outer e ≡ ok t
      → Ensures (HasType arrow laws t) (evaluate_at arrow outer e batch)
  unfolding data_type evaluate_at
  evaluate-type outer (Expr.column name) t w h = column-type outer name t h
  evaluate-type outer (Expr.literal v) t w h =
      Ensures-ok (HasType arrow laws t) _ (laws.filled_type v batch.num_rows ∙ ok_eq h)
  evaluate-type outer (Expr.binary left op right) t w h =
      let (tl, el, h1) = >>=-eq-ok (type_of batch.schema true left) _ h in
      let (tr, er, h2) = >>=-eq-ok (type_of batch.schema true right) _ h1 in
      Ensures->>= (HasType arrow laws t) (evaluate_at arrow true left batch) _
        (evaluate-type true left tl w.0 el)
        (λ l pl.
          Ensures->>= (HasType arrow laws t) (evaluate_at arrow true right batch) _
            (evaluate-type true right tr w.1 er)
            (λ r pr.
              evaluate_binary-type arrow laws batch.num_rows op l r (rw (pl, pr) h2) (λ a same.
                w.2 (arrow.array_type l) a (el ∙ ap ok (sym pl)) (er ∙ ap ok (sym (same ∙ pr))))))
  evaluate-type outer (Expr.is_null e true) t w h =
      Ensures-bind (HasType arrow laws t) (evaluate_at arrow true e batch) _ (λ a _.
        Ensures-imp (HasType arrow laws t) (arrow.is_not_null a) (laws.is_not_null_type_law a)
          (λ b p. p ∙ ok_eq h))
  evaluate-type outer (Expr.is_null e false) t w h =
      Ensures-bind (HasType arrow laws t) (evaluate_at arrow true e batch) _ (λ a _.
        Ensures-imp (HasType arrow laws t) (arrow.is_null a) (laws.is_null_type_law a)
          (λ b p. p ∙ ok_eq h))
  evaluate-type outer (Expr.cast e s) t w h =
      Ensures-bind (HasType arrow laws t) (evaluate_at arrow true e batch) _ (λ a _.
        Ensures-imp (HasType arrow laws t) (arrow.cast a s) (laws.cast_type a s)
          (λ b p. p ∙ ok_eq h))
  evaluate-type outer (Expr.aggregate f e d) t w h = Ensures-err _ _
  evaluate-type outer Expr.wildcard t w h = Ensures-err _ _
  evaluate-type true (Expr.alias e n) t w h = evaluate-type false e t w h
  evaluate-type false (Expr.alias e n) t w h = cc

  -- Where no arithmetic has two operands of one 32-bit type, an expression that has a type over the
  -- schema of a batch evaluates to an array of this type, if it evaluates.
  pub evaluate-data_type :
      (e : Expr) (t : DataType) (a : arrow.Array)
      → IsWide batch.schema e
      → data_type batch.schema e ≡ ok t
      → evaluate arrow e batch ≡ ok a
      → arrow.array_type a ≡ t
  unfolding data_type evaluate
  evaluate-data_type e t a w h r =
      of_Ensures (HasType arrow laws t) (evaluate_at arrow true e batch)
        (evaluate-type true e t w h) r
