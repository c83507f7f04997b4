-- ===== src/PlanCodec/Encodable.antt =====
-- src/cluster/plan_codec.rs: which plans have a message.
use spark_x_distributed_quer.Base.{
  ℕ, suc, ◌+◌, Bool, true, false, not, ◌&&◌, List, [], ◌∷◌, ◌≡◌, refl, ◌∙◌, all, leb, max, arith,
  Bool-cases, inl, inr, u32_max, u64_max,
}
use spark_x_distributed_quer.Error.{
  SparkXError, is_ok, Result, ok, err, panic, reject_if, collect, ◌>>=◌, ◌>>◌,
}
use spark_x_distributed_quer.Expr.{DataType, Expr}
use spark_x_distributed_quer.Expr.Schemas.{Schema}
use spark_x_distributed_quer.Plan.{PhysicalPlan, SortExpr}
use spark_x_distributed_quer.PlanCodec.Wire.{WirePlan}
use spark_x_distributed_quer.PlanCodec.Codes.{checked_u32, checked_u64, encode_data_type}
use spark_x_distributed_quer.PlanCodec.Exprs.{
  encode_expr, encode_exprs, encode_sort_expr, encode_sort_exprs,
}
use spark_x_distributed_quer.PlanCodec.Schemas.{encode_field, encode_schema}
use spark_x_distributed_quer.PlanCodec.Encode.{max_plan_depth, check_depth, indices_of, encode_plan}

-- A type that the wire format has.
abbrev pub is_supported : DataType → Bool
is_supported (DataType.other _) = false
is_supported t = true

unfoldable pub expr_is_encodable : Expr → Bool
expr_is_encodable (Expr.binary left _ right) = expr_is_encodable left && expr_is_encodable right
expr_is_encodable (Expr.is_null e _) = expr_is_encodable e
expr_is_encodable (Expr.cast e t) = expr_is_encodable e && is_supported t
expr_is_encodable (Expr.alias e _) = expr_is_encodable e
expr_is_encodable (Expr.aggregate _ e _) = expr_is_encodable e
expr_is_encodable _ = true

abbrev pub schema_is_encodable : Schema → Bool
schema_is_encodable s = all (λ f. is_supported f.data_type) s.fields

module _ {ℓ} {T : Type ℓ} where
  unfoldable pub height : PhysicalPlan T → ℕ
  height (PhysicalPlan.scan _ _ _ _ _ _) = 1
  height (PhysicalPlan.projection _ input _ _) = suc (height input)
  height (PhysicalPlan.filter _ input _ _) = suc (height input)
  height (PhysicalPlan.hash_aggregate _ input _ _ _) = suc (height input)
  height (PhysicalPlan.sort _ input _ _) = suc (height input)
  height (PhysicalPlan.top_k _ input _ _ _) = suc (height input)
  height (PhysicalPlan.limit _ input _ _) = suc (height input)
  height (PhysicalPlan.hash_join _ left right _ _ _ _) = suc (max (height left) (height right))

  -- The types and the numbers of a plan have their place in the message.
  unfoldable pub parts_are_encodable : PhysicalPlan T → Bool
  unfolding expr_is_encodable
  parts_are_encodable (PhysicalPlan.scan _ _ _ projection filters schema) =
      all (λ n. leb n u32_max) (indices_of projection)
      && (all expr_is_encodable filters && schema_is_encodable schema)
  parts_are_encodable (PhysicalPlan.projection _ input exprs schema) =
      parts_are_encodable input && (all expr_is_encodable exprs && schema_is_encodable schema)
  parts_are_encodable (PhysicalPlan.filter _ input predicate schema) =
      parts_are_encodable input && (expr_is_encodable predicate && schema_is_encodable schema)
  parts_are_encodable (PhysicalPlan.hash_aggregate _ input group_exprs aggregate_exprs schema) =
      parts_are_encodable input
      && (all expr_is_encodable group_exprs
          && (all expr_is_encodable aggregate_exprs && schema_is_encodable schema))
  parts_are_encodable (PhysicalPlan.sort _ input exprs schema) =
      parts_are_encodable input
      && (all (λ s. expr_is_encodable s.expr) exprs && schema_is_encodable schema)
  parts_are_encodable (PhysicalPlan.top_k _ input exprs limit schema) =
      parts_are_encodable input
      && (all (λ s. expr_is_encodable s.expr) exprs
          && (leb limit u64_max && schema_is_encodable schema))
  parts_are_encodable (PhysicalPlan.limit _ input limit schema) =
      parts_are_encodable input && (leb limit u64_max && schema_is_encodable schema)
  parts_are_encodable (PhysicalPlan.hash_join _ left right _ left_on right_on schema) =
      parts_are_encodable left
      && (parts_are_encodable right
          && (all expr_is_encodable left_on
              && (all expr_is_encodable right_on && schema_is_encodable schema)))

-- A chain of calls succeeds if each of them does.
module _ {ℓ κ} {A : Type ℓ} {B : Type κ} where
  is_ok->>= :
      (m : Result A) (f : A → Result B) {b c : Bool}
      → is_ok m ≡ b
      → ((a : A) → is_ok (f a) ≡ c)
      → is_ok (m >>= f) ≡ (b && c)
  unfolding is_ok
  is_ok->>= (ok a) f h k = rw (← h, k a) refl
  is_ok->>= (err e) f h k = rw (← h) refl
  is_ok->>= (panic m) f h k = rw (← h) refl

  -- The end of a chain.
  is_ok-map :
      (m : Result A) (f : A → B) {b : Bool} → is_ok m ≡ b → is_ok (m >>= (λ a. ok (f a))) ≡ b
  unfolding is_ok
  is_ok-map (ok a) f h = h
  is_ok-map (err e) f h = h
  is_ok-map (panic m) f h = h

is_ok-collect {ℓ κ} :
    {A : Type ℓ} {B : Type κ} (f : A → Result B) (p : A → Bool) (xs : List A)
    → ((a : A) → is_ok (f a) ≡ p a)
    → is_ok (collect f xs) ≡ all p xs
unfolding collect is_ok
is_ok-collect f p [] h = refl
is_ok-collect f p (x ∷ xs) h =
    is_ok->>= (f x) _ (h x) (λ b. is_ok-map (collect f xs) _ (is_ok-collect f p xs h))

is_ok-reject : (b : Bool) (e : SparkXError) → is_ok (reject_if b e) ≡ not b
unfolding is_ok
is_ok-reject true e = refl
is_ok-reject false e = refl

is_ok-encode_data_type : (t : DataType) → is_ok (encode_data_type t) ≡ is_supported t
unfolding encode_data_type is_ok
is_ok-encode_data_type (DataType.other _) = refl
is_ok-encode_data_type DataType.null = refl
is_ok-encode_data_type _ = refl

is_ok-encode_expr : (e : Expr) → is_ok (encode_expr e) ≡ expr_is_encodable e
unfolding encode_expr expr_is_encodable is_ok
is_ok-encode_expr (Expr.column _) = refl
is_ok-encode_expr (Expr.literal _) = refl
is_ok-encode_expr (Expr.binary left op right) =
    is_ok->>= (encode_expr left) _ (is_ok-encode_expr left)
      (λ l. is_ok-map (encode_expr right) _ (is_ok-encode_expr right))
is_ok-encode_expr (Expr.is_null e _) = is_ok-map (encode_expr e) _ (is_ok-encode_expr e)
is_ok-encode_expr (Expr.cast e t) =
    is_ok->>= (encode_expr e) _ (is_ok-encode_expr e)
      (λ w. is_ok-map (encode_data_type t) _ (is_ok-encode_data_type t))
is_ok-encode_expr (Expr.alias e _) = is_ok-map (encode_expr e) _ (is_ok-encode_expr e)
is_ok-encode_expr (Expr.aggregate _ e _) = is_ok-map (encode_expr e) _ (is_ok-encode_expr e)
is_ok-encode_expr Expr.wildcard = refl

is_ok-encode_exprs : (es : List Expr) → is_ok (encode_exprs es) ≡ all expr_is_encodable es
unfolding encode_exprs
is_ok-encode_exprs es = is_ok-collect encode_expr expr_is_encodable es is_ok-encode_expr

is_ok-encode_sort_exprs :
    (es : List SortExpr) → is_ok (encode_sort_exprs es) ≡ all (λ s. expr_is_encodable s.expr) es
unfolding encode_sort_exprs encode_sort_expr
is_ok-encode_sort_exprs es =
    is_ok-collect encode_sort_expr (λ s. expr_is_encodable s.expr) es
      (λ s. is_ok-map (encode_expr s.expr) _ (is_ok-encode_expr s.expr))

is_ok-encode_schema : (s : Schema) → is_ok (encode_schema s) ≡ schema_is_encodable s
unfolding encode_schema encode_field
is_ok-encode_schema s = is_ok-map (collect encode_field s.fields) _ (
    is_ok-collect encode_field (λ f. is_supported f.data_type) s.fields
      (λ f. is_ok-map (encode_data_type f.data_type) _ (is_ok-encode_data_type f.data_type)))

is_ok-checked_u32 : (n : ℕ) → is_ok (checked_u32 n) ≡ leb n u32_max
unfolding checked_u32 is_ok
is_ok-checked_u32 n = elim (Bool-cases (leb n u32_max)) [ inl e ↦ rw e refl | inr e ↦ rw e refl ]

is_ok-checked_u64 : (n : ℕ) → is_ok (checked_u64 n) ≡ leb n u64_max
unfolding checked_u64 is_ok
is_ok-checked_u64 n = elim (Bool-cases (leb n u64_max)) [ inl e ↦ rw e refl | inr e ↦ rw e refl ]

is_ok-check_depth : (depth : ℕ) → is_ok (check_depth depth) ≡ not (leb max_plan_depth depth)
unfolding check_depth
is_ok-check_depth depth = is_ok-reject (leb max_plan_depth depth) _

-- The depths at which the plan's nodes stand are within the bound, for one input and for two.
under :
    (h d : ℕ) (p x : Bool)
    → (not (leb 128 d) && ((leb (h + (d + 1)) 128 && p) && x)) ≡ (leb (suc h + d) 128 && (p && x))
under h d p x = ground arith

lowest : (d : ℕ) → not (leb 128 d) ≡ leb (1 + d) 128
lowest d = ground arith

under_two :
    (h k d : ℕ) (p q x : Bool)
    → (not (leb 128 d) && ((leb (h + (d + 1)) 128 && p) && ((leb (k + (d + 1)) 128 && q) && x)))
      ≡ (leb (suc (max h k) + d) 128 && (p && (q && x)))
under_two h k d p q x = ground arith

module _ {ℓ} {T : Type ℓ} where
  -- A node above one input.
  is_ok-node :
      (input : PhysicalPlan T) (depth : ℕ) (rest : WirePlan → Result WirePlan) {x : Bool}
      → is_ok (encode_plan input (depth + 1))
        ≡ (leb (height input + (depth + 1)) max_plan_depth && parts_are_encodable input)
      → ((i : WirePlan) → is_ok (rest i) ≡ x)
      → is_ok (check_depth depth >> (encode_plan input (depth + 1) >>= rest))
        ≡ (leb (suc (height input) + depth) max_plan_depth && (parts_are_encodable input && x))
  is_ok-node input depth rest ih h =
      is_ok->>= (check_depth depth) _ (is_ok-check_depth depth)
        (λ _. is_ok->>= (encode_plan input (depth + 1)) rest ih h)
      ∙ under (height input) depth _ _

  -- A plan at a depth is encoded exactly if its height and the depth are together at most the maximum
  -- depth, the wire format has its types, and its numbers are in range.
  pub is_ok-encode_plan :
      (plan : PhysicalPlan T) (depth : ℕ)
      → is_ok (encode_plan plan depth)
        ≡ (leb (height plan + depth) max_plan_depth && parts_are_encodable plan)
  unfolding encode_plan height parts_are_encodable
  is_ok-encode_plan (PhysicalPlan.scan id name provider projection filters schema) depth =
      is_ok->>= (check_depth depth) _ (is_ok-check_depth depth ∙ lowest depth) (λ _.
        is_ok->>= (collect checked_u32 (indices_of projection)) _
          (is_ok-collect checked_u32 (λ n. leb n u32_max) (indices_of projection) is_ok-checked_u32)
          (λ _.
            is_ok->>= (encode_exprs filters) _ (is_ok-encode_exprs filters)
              (λ _. is_ok-map (encode_schema schema) _ (is_ok-encode_schema schema))))
  is_ok-encode_plan (PhysicalPlan.projection id input exprs schema) depth =
      is_ok-node input depth _ (is_ok-encode_plan input (depth + 1)) (λ _.
        is_ok->>= (encode_exprs exprs) _ (is_ok-encode_exprs exprs)
          (λ _. is_ok-map (encode_schema schema) _ (is_ok-encode_schema schema)))
  is_ok-encode_plan (PhysicalPlan.filter id input predicate schema) depth =
      is_ok-node input depth _ (is_ok-encode_plan input (depth + 1)) (λ _.
        is_ok->>= (encode_expr predicate) _ (is_ok-encode_expr predicate)
          (λ _. is_ok-map (encode_schema schema) _ (is_ok-encode_schema schema)))
  is_ok-encode_plan (PhysicalPlan.hash_aggregate id input group_exprs aggregate_exprs schema)
        depth =
      is_ok-node input depth _ (is_ok-encode_plan input (depth + 1)) (λ _.
        is_ok->>= (encode_exprs group_exprs) _ (is_ok-encode_exprs group_exprs) (λ _.
          is_ok->>= (encode_exprs aggregate_exprs) _ (is_ok-encode_exprs aggregate_exprs)
            (λ _. is_ok-map (encode_schema schema) _ (is_ok-encode_schema schema))))
  is_ok-encode_plan (PhysicalPlan.sort id input exprs schema) depth =
      is_ok-node input depth _ (is_ok-encode_plan input (depth + 1)) (λ _.
        is_ok->>= (encode_sort_exprs exprs) _ (is_ok-encode_sort_exprs exprs)
          (λ _. is_ok-map (encode_schema schema) _ (is_ok-encode_schema schema)))
  is_ok-encode_plan (PhysicalPlan.top_k id input exprs limit schema) depth =
      is_ok-node input depth _ (is_ok-encode_plan input (depth + 1)) (λ _.
        is_ok->>= (encode_sort_exprs exprs) _ (is_ok-encode_sort_exprs exprs) (λ _.
          is_ok->>= (checked_u64 limit) _ (is_ok-checked_u64 limit)
            (λ _. is_ok-map (encode_schema schema) _ (is_ok-encode_schema schema))))
  is_ok-encode_plan (PhysicalPlan.limit id input limit schema) depth =
      is_ok-node input depth _ (is_ok-encode_plan input (depth + 1)) (λ _.
        is_ok->>= (checked_u64 limit) _ (is_ok-checked_u64 limit)
          (λ _. is_ok-map (encode_schema schema) _ (is_ok-encode_schema schema)))
  is_ok-encode_plan (PhysicalPlan.hash_join id left right join_type left_on right_on schema) depth =
      is_ok->>= (check_depth depth) _ (is_ok-check_depth depth) (λ _.
        is_ok->>= (encode_plan left (depth + 1)) _ (is_ok-encode_plan left (depth + 1)) (λ _.
          is_ok->>= (encode_plan right (depth + 1)) _ (is_ok-encode_plan right (depth + 1)) (λ _.
            is_ok->>= (encode_exprs left_on) _ (is_ok-encode_exprs left_on) (λ _.
              is_ok->>= (encode_exprs right_on) _ (is_ok-encode_exprs right_on)
                (λ _. is_ok-map (encode_schema schema) _ (is_ok-encode_schema schema))))))
      ∙ under_two (height left) (height right) depth _ _ _
