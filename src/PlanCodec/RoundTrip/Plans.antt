-- ===== src/PlanCodec/RoundTrip/Plans.antt =====
-- src/cluster/plan_codec.rs: a plan whose parts fit together comes back from its fragment.
use spark_x_distributed_quer.Base.{
  ℕ, ◌+◌, ◌≡◌, refl, false, Option, none, some, List, [], ◌++◌, All, is_some, is_empty, is_yes_iff,
  leb, Bool-cases, inl, inr, u32_max, u64_max, true, ◌∷◌,
}
use spark_x_distributed_quer.Error.{ok, collect}
use spark_x_distributed_quer.Error.Ensures.{
  Ensures, Ensures-ok, Ensures-err, Ensures->>=, Ensures-bind,
}
use spark_x_distributed_quer.Text.{is_blank}
use spark_x_distributed_quer.Expr.{DataType, DataType-discrete}
use spark_x_distributed_quer.Expr.Names.{Formats}
use spark_x_distributed_quer.Expr.Schemas.{Schema, Schema-discrete}
use spark_x_distributed_quer.Expr.Typing.{type_eq, data_type}
use spark_x_distributed_quer.Plan.{PhysicalPlan, TableProvider, Catalog, table, plan_schema}
use spark_x_distributed_quer.PlanCodec.Wire.{WirePlan}
use spark_x_distributed_quer.PlanCodec.Codes.{checked_u32, checked_u64, checked_usize}
use spark_x_distributed_quer.PlanCodec.Exprs.{encode_expr, encode_exprs, encode_sort_exprs}
use spark_x_distributed_quer.PlanCodec.Schemas.{
  validate_schema, encode_schema, decode_projection, validate_scan_schema, schema_for_exprs,
  validate_join_keys, join_schema,
}
use spark_x_distributed_quer.PlanCodec.Encode.{check_depth, indices_of, encode_plan}
use spark_x_distributed_quer.PlanCodec.Decode.{decode_plan}
use spark_x_distributed_quer.PlanCodec.RoundTrip.{
  IsNamed, IsSortKey, decode-encode_expr, decode-encode_exprs, decode-encode_sort_exprs,
  decode-encode_join_type,
}
use spark_x_distributed_quer.PlanCodec.RoundTrip.Schemas.{IsSchema, decode-encode_schema}

-- The parts of a plan fit together, and its tables are those of a catalog.
module _ {ℓ} {T : Type ℓ} ⦃provider : TableProvider T⦄ (formats : Formats)
    (catalog : Catalog T) where
  abbrev pub IsPlan : PhysicalPlan T → Type ℓ
  IsPlan (PhysicalPlan.scan id name found projection filters schema) =
      (is_blank name ≡ false)
      × (table catalog name ≡ ok found)
      × (validate_scan_schema (provider.table_schema found) projection schema ≡ ok tt)
      × All IsNamed filters
      × IsSchema schema
  IsPlan (PhysicalPlan.projection id input exprs schema) =
      IsPlan input
      × All IsNamed exprs
      × (schema_for_exprs formats exprs (plan_schema input) ≡ ok schema)
      × IsSchema schema
  IsPlan (PhysicalPlan.filter id input predicate schema) =
      IsPlan input
      × IsNamed predicate
      × (data_type (plan_schema input) predicate ≡ ok DataType.boolean)
      × (schema ≡ plan_schema input)
      × IsSchema schema
  IsPlan (PhysicalPlan.hash_aggregate id input group_exprs aggregate_exprs schema) =
      IsPlan input
      × All IsNamed group_exprs
      × All IsNamed aggregate_exprs
      × (schema_for_exprs formats (group_exprs ++ aggregate_exprs) (plan_schema input) ≡ ok schema)
      × IsSchema schema
  IsPlan (PhysicalPlan.sort id input exprs schema) =
      IsPlan input
      × (is_empty exprs ≡ false)
      × All (IsSortKey (plan_schema input)) exprs
      × (schema ≡ plan_schema input)
      × IsSchema schema
  IsPlan (PhysicalPlan.top_k id input exprs limit schema) =
      IsPlan input
      × (is_empty exprs ≡ false)
      × All (IsSortKey (plan_schema input)) exprs
      × (schema ≡ plan_schema input)
      × IsSchema schema
  IsPlan (PhysicalPlan.limit id input limit schema) =
      IsPlan input × (schema ≡ plan_schema input) × IsSchema schema
  IsPlan (PhysicalPlan.hash_join id left right join_type left_on right_on schema) =
      IsPlan left
      × IsPlan right
      × All IsNamed left_on
      × All IsNamed right_on
      × (validate_join_keys left_on (plan_schema left) right_on (plan_schema right) ≡ ok tt)
      × (schema ≡ join_schema (plan_schema left) (plan_schema right) join_type)
      × IsSchema schema

validate_schema_self :
    (actual expected : Schema) → actual ≡ expected → validate_schema actual expected ≡ ok tt
unfolding validate_schema
validate_schema_self actual expected e = rw ((is_yes_iff (Schema-discrete actual expected)).1 e)

type_eq_self : (t : DataType) → type_eq t t ≡ true
type_eq_self t = (is_yes_iff (DataType-discrete t t)).1 refl

checked_u64-usize : (n : ℕ) → Ensures (λ w. checked_usize w ≡ ok n) (checked_u64 n)
unfolding checked_u64 checked_usize
checked_u64-usize n = elim (Bool-cases (leb n u64_max)) [
  | inl e ↦ rw e (Ensures-ok (λ w. checked_usize w ≡ ok n) _ (rw e))
  | inr e ↦ rw e (Ensures-err _ _)
]

checked_u32_self : (n : ℕ) → Ensures (λ w. w ≡ n) (checked_u32 n)
unfolding checked_u32
checked_u32_self n = elim (Bool-cases (leb n u32_max)) [
  | inl e ↦ rw e (Ensures-ok _ _ refl)
  | inr e ↦ rw e (Ensures-err _ _)
]

collect-checked_u32 : (ns : List ℕ) → Ensures (λ ws. ws ≡ ns) (collect checked_u32 ns)
unfolding collect
collect-checked_u32 [] = Ensures-ok _ _ refl
collect-checked_u32 (n ∷ ns) =
    Ensures->>= (λ ws. ws ≡ n ∷ ns) (checked_u32 n) _ (checked_u32_self n)
      (λ w p.
        Ensures->>= (λ ws. ws ≡ n ∷ ns) (collect checked_u32 ns) _ (collect-checked_u32 ns)
          (λ ws q. Ensures-ok (λ ws. ws ≡ n ∷ ns) _ (cc (p, q))))

decode_projection-indices_of :
    (projection : Option (List ℕ)) (indices : List ℕ)
    → indices ≡ indices_of projection
    → decode_projection (is_some projection) indices ≡ ok projection
unfolding decode_projection
decode_projection-indices_of none indices e = rw e
decode_projection-indices_of (some ns) indices e = rw e

module _ {ℓ} {T : Type ℓ} ⦃provider : TableProvider T⦄ (formats : Formats)
    (catalog : Catalog T) where
  abbrev pub ComesBack : PhysicalPlan T → ℕ → WirePlan → Type ℓ
  ComesBack plan depth wire = decode_plan formats catalog wire depth ≡ ok plan

  pub decode-encode_plan :
      (plan : PhysicalPlan T) (depth : ℕ)
      → IsPlan formats catalog plan
      → Ensures (ComesBack plan depth) (encode_plan plan depth)
  unfolding encode_plan decode_plan
  decode-encode_plan (PhysicalPlan.projection id input exprs schema) depth h =
      let Q = ComesBack (PhysicalPlan.projection id input exprs schema) depth in
      Ensures-bind Q (check_depth depth) _ (λ _ d.
        Ensures->>= Q (encode_plan input (depth + 1)) _ (decode-encode_plan input (depth + 1) h.0)
          (λ i pi. Ensures->>= Q (encode_exprs exprs) _ (decode-encode_exprs exprs h.1) (λ e pe.
            Ensures->>= Q (encode_schema schema) _ (decode-encode_schema schema h.3) (λ s ps.
              Ensures-ok Q _ (rw (d, pi, pe, ps, h.2, validate_schema_self schema schema refl))))))
  decode-encode_plan (PhysicalPlan.limit id input limit schema) depth h =
      let Q = ComesBack (PhysicalPlan.limit id input limit schema) depth in
      Ensures-bind Q (check_depth depth) _ (λ _ d.
        Ensures->>= Q (encode_plan input (depth + 1)) _ (decode-encode_plan input (depth + 1) h.0)
          (λ i pi. Ensures->>= Q (checked_u64 limit) _ (checked_u64-usize limit) (λ l pl.
            Ensures->>= Q (encode_schema schema) _ (decode-encode_schema schema h.2)
              (λ s ps. Ensures-ok Q _ (rw (d, pi, ps, validate_schema_self _ _ h.1, pl))))))
  decode-encode_plan (PhysicalPlan.scan id name found projection filters schema) depth h =
      let Q = ComesBack (PhysicalPlan.scan id name found projection filters schema) depth in
      Ensures-bind Q (check_depth depth) _ (λ _ d.
        Ensures->>= Q (collect checked_u32 (indices_of projection)) _
          (collect-checked_u32 (indices_of projection))
          (λ ns pn.
            Ensures->>= Q (encode_exprs filters) _ (decode-encode_exprs filters h.3) (λ f pf.
              Ensures->>= Q (encode_schema schema) _ (decode-encode_schema schema h.4) (λ s ps.
                Ensures-ok Q _
                  (rw (d, h.0, h.1, decode_projection-indices_of projection ns pn, ps, h.2, pf))))))
  decode-encode_plan (PhysicalPlan.filter id input predicate schema) depth h =
      let Q = ComesBack (PhysicalPlan.filter id input predicate schema) depth in
      Ensures-bind Q (check_depth depth) _ (λ _ d.
        Ensures->>= Q (encode_plan input (depth + 1)) _ (decode-encode_plan input (depth + 1) h.0)
          (λ i pi.
            Ensures->>= Q (encode_expr predicate) _ (decode-encode_expr predicate h.1) (λ p pp.
              Ensures->>= Q (encode_schema schema) _ (decode-encode_schema schema h.4) (λ s ps.
                Ensures-ok Q _ (
                  rw (
                    d,
                    pi,
                    pp,
                    h.2,
                    type_eq_self DataType.boolean,
                    ps,
                    validate_schema_self _ _ h.3,
                  ))))))
  decode-encode_plan (PhysicalPlan.hash_aggregate id input group_exprs aggregate_exprs schema) depth
        h =
      let Q =
        ComesBack (PhysicalPlan.hash_aggregate id input group_exprs aggregate_exprs schema) depth in
      Ensures-bind Q (check_depth depth) _ (λ _ d.
        Ensures->>= Q (encode_plan input (depth + 1)) _ (decode-encode_plan input (depth + 1) h.0)
          (λ i pi.
            Ensures->>= Q (encode_exprs group_exprs) _ (decode-encode_exprs group_exprs h.1)
              (λ g pg.
                Ensures->>= Q (encode_exprs aggregate_exprs) _
                  (decode-encode_exprs aggregate_exprs h.2)
                  (λ a pa.
                    Ensures->>= Q (encode_schema schema) _ (decode-encode_schema schema h.4)
                      (λ s ps.
                        Ensures-ok Q _ (
                          rw (d, pi, pg, pa, ps, h.3, validate_schema_self schema schema refl)))))))
  decode-encode_plan (PhysicalPlan.sort id input exprs schema) depth h =
      let Q = ComesBack (PhysicalPlan.sort id input exprs schema) depth in
      Ensures-bind Q (check_depth depth) _ (λ _ d.
        Ensures->>= Q (encode_plan input (depth + 1)) _ (decode-encode_plan input (depth + 1) h.0)
          (λ i pi.
            Ensures->>= Q (encode_sort_exprs exprs) _
              (decode-encode_sort_exprs (plan_schema input) exprs h.1 h.2)
              (λ e pe.
                Ensures->>= Q (encode_schema schema) _ (decode-encode_schema schema h.4)
                  (λ s ps. Ensures-ok Q _ (rw (d, pi, pe, ps, validate_schema_self _ _ h.3))))))
  decode-encode_plan (PhysicalPlan.top_k id input exprs limit schema) depth h =
      let Q = ComesBack (PhysicalPlan.top_k id input exprs limit schema) depth in
      Ensures-bind Q (check_depth depth) _ (λ _ d.
        Ensures->>= Q (encode_plan input (depth + 1)) _ (decode-encode_plan input (depth + 1) h.0)
          (λ i pi.
            Ensures->>= Q (encode_sort_exprs exprs) _
              (decode-encode_sort_exprs (plan_schema input) exprs h.1 h.2)
              (λ e pe. Ensures->>= Q (checked_u64 limit) _ (checked_u64-usize limit) (λ l pl.
                Ensures->>= Q (encode_schema schema) _ (decode-encode_schema schema h.4) (λ s ps.
                  Ensures-ok Q _ (rw (d, pi, pe, ps, validate_schema_self _ _ h.3, pl)))))))
  decode-encode_plan (PhysicalPlan.hash_join id left right join_type left_on right_on schema) depth
        h =
      let Q =
        ComesBack (PhysicalPlan.hash_join id left right join_type left_on right_on schema) depth in
      Ensures-bind Q (check_depth depth) _ (λ _ d.
        Ensures->>= Q (encode_plan left (depth + 1)) _ (decode-encode_plan left (depth + 1) h.0)
          (λ l pl.
            Ensures->>= Q (encode_plan right (depth + 1)) _
              (decode-encode_plan right (depth + 1) h.1)
              (λ r pr.
                Ensures->>= Q (encode_exprs left_on) _ (decode-encode_exprs left_on h.2) (λ lo plo.
                  Ensures->>= Q (encode_exprs right_on) _ (decode-encode_exprs right_on h.3)
                    (λ ro pro.
                      Ensures->>= Q (encode_schema schema) _ (decode-encode_schema schema h.6)
                        (λ s ps. Ensures-ok Q _ (
                          rw (
                            d,
                            pl,
                            pr,
                            decode-encode_join_type join_type,
                            plo,
                            pro,
                            h.4,
                            ps,
                            validate_schema_self _ _ h.5,
                          ))))))))
