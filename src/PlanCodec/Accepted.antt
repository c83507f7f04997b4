-- ===== src/PlanCodec/Accepted.antt =====
-- src/cluster/plan_codec.rs: the check of a message asks no more than its decoding.
pub mod Lists
use spark_x_distributed_quer.Base.{
  ℕ, ◌+◌, ◌≡◌, refl, sym, ap, ◌∙◌, String, true, false, not, ◌||◌, Option, none, some, List, [],
  ◌∷◌, arith, length, is_empty, ◌==◌, ==_iff, ℤ,
}
use spark_x_distributed_quer.Error.{
  Result, ok, err, reject_if, reject_if-eq-ok, collect, ◌>>=◌, ◌>>◌,
}
use spark_x_distributed_quer.Error.Ensures.{
  Ensures, Ensures-ok, Ensures-err, Ensures->>=, Ensures-bind, Ensures-reject, Ensures-self,
  Ensures-const, Ensures-imp,
}
use spark_x_distributed_quer.Text.{is_blank}
use spark_x_distributed_quer.Expr.{DataType, Expr}
use spark_x_distributed_quer.Expr.Names.{Formats}
use spark_x_distributed_quer.Expr.Schemas.{Schema}
use spark_x_distributed_quer.Expr.Typing.{type_eq, data_type}
use spark_x_distributed_quer.Plan.{
  PhysicalPlan, SortExpr, TableProvider, Catalog, table, plan_schema,
}
use spark_x_distributed_quer.PlanCodec.Wire.{
  WireExpr, WireSortExpr, WireScan, WirePlan, BoxedPlan, missing, boxed,
}
use spark_x_distributed_quer.PlanCodec.Codes.{
  codec_error, required, checked_usize, decode_join_type,
}
use spark_x_distributed_quer.PlanCodec.Exprs.{
  decode_expr, decode_exprs, validate_wire_exprs, decode_sort_expr, decode_sort_exprs,
  validate_each_sort, validate_wire_sort_exprs,
}
use spark_x_distributed_quer.PlanCodec.Schemas.{
  decode_required_schema, validate_schema, validate_scan_schema, schema_for_exprs, check_key_types,
  validate_join_keys, join_schema, decode_projection,
}
use spark_x_distributed_quer.PlanCodec.Encode.{check_depth}
use spark_x_distributed_quer.PlanCodec.Decode.{or_error, decode_scan, decode_plan, decode_input}
use spark_x_distributed_quer.PlanCodec.Validate.{validate_scan, validate_wire_plan, validate_input}
use spark_x_distributed_quer.PlanCodec.Accepted.Lists.{
  decode_exprs-validate, decode_sort_exprs-validate, validate_join_keys-lengths,
}

module _ {ℓ} {T : Type ℓ} ⦃provider : TableProvider T⦄ (formats : Formats)
    (catalog : Catalog T) where
  decode_scan-validate :
      (scan : WireScan)
      → Ensures (λ _. validate_scan scan ≡ ok tt) (decode_scan formats catalog scan)
  unfolding decode_scan validate_scan
  decode_scan-validate scan =
      let Q : PhysicalPlan T → Type 0 = λ _. validate_scan scan ≡ ok tt in
      Ensures-reject Q (is_blank scan.table_name) _ _ (λ b.
        Ensures-bind Q (or_error (table catalog scan.table_name) _) _ (λ found _.
          Ensures-bind Q (decode_projection scan.has_projection scan.projection) _ (λ p pp.
            Ensures-bind Q (decode_required_schema scan.schema) _ (λ s ps.
              Ensures-bind Q (validate_scan_schema (provider.table_schema found) p s) _ (λ _ _.
                Ensures->>= Q (decode_exprs scan.filters) _ (decode_exprs-validate scan.filters)
                  (λ f pf. Ensures-const _ (rw (b, pp, ps, pf.0))))))))

  mutual
    unfolding decode_plan validate_wire_plan

    pub decode_plan-validate :
        (w : WirePlan) (depth : ℕ)
        → Ensures (λ _. validate_wire_plan w depth ≡ ok tt) (decode_plan formats catalog w depth)
    decode_plan-validate WirePlan.unset depth =
        Ensures-bind (λ _. validate_wire_plan WirePlan.unset depth ≡ ok tt) (check_depth depth) _
          (λ _ _. Ensures-err _ _)
    decode_plan-validate (WirePlan.scan scan) depth =
        let Q : PhysicalPlan T → Type 0 =
          λ _. validate_wire_plan (WirePlan.scan scan) depth ≡ ok tt in
        Ensures-bind Q (check_depth depth) _ (λ _ d.
          Ensures-imp Q (decode_scan formats catalog scan) (decode_scan-validate scan)
            (λ _ p. rw (d, p)))
    decode_plan-validate (WirePlan.projection id input exprs schema) depth =
        let Q : PhysicalPlan T → Type 0 =
          λ _. validate_wire_plan (WirePlan.projection id input exprs schema) depth ≡ ok tt in
        Ensures-bind Q (check_depth depth) _ (λ _ d.
          Ensures->>= Q (decode_input formats catalog input (depth + 1)) _
            (decode_input-validate input (depth + 1))
            (λ _ i. Ensures->>= Q (decode_exprs exprs) _ (decode_exprs-validate exprs) (λ _ e.
              Ensures-bind Q (decode_required_schema schema) _
                (λ _ s. Ensures-const _ (rw (d, i, s, e.0))))))
    decode_plan-validate (WirePlan.filter id input predicate schema) depth =
        let Q : PhysicalPlan T → Type 0 =
          λ _. validate_wire_plan (WirePlan.filter id input predicate schema) depth ≡ ok tt in
        Ensures-bind Q (check_depth depth) _ (λ _ d.
          Ensures->>= Q (decode_input formats catalog input (depth + 1)) _
            (decode_input-validate input (depth + 1))
            (λ i pi. Ensures-bind Q (required predicate) _ (λ w pw.
              Ensures-bind Q (decode_expr w) _ (λ p pp.
                Ensures-bind Q (data_type (plan_schema i) p) _ (λ t _.
                  Ensures-reject Q (not (type_eq t DataType.boolean)) _ _ (λ _.
                    Ensures-bind Q (decode_required_schema schema) _
                      (λ _ s. Ensures-const _ (rw (d, pi, s, pw, pp)))))))))
    decode_plan-validate (WirePlan.hash_aggregate id input groups aggregates schema) depth =
        let Q : PhysicalPlan T → Type 0 = λ _.
          validate_wire_plan (WirePlan.hash_aggregate id input groups aggregates schema) depth
          ≡ ok tt in
        Ensures-bind Q (check_depth depth) _ (λ _ d.
          Ensures->>= Q (decode_input formats catalog input (depth + 1)) _
            (decode_input-validate input (depth + 1))
            (λ _ i. Ensures->>= Q (decode_exprs groups) _ (decode_exprs-validate groups) (λ _ g.
              Ensures->>= Q (decode_exprs aggregates) _ (decode_exprs-validate aggregates) (λ _ a.
                Ensures-bind Q (decode_required_schema schema) _
                  (λ _ s. Ensures-const _ (rw (d, i, s, g.0, a.0)))))))
    decode_plan-validate (WirePlan.sort id input exprs schema) depth =
        let Q : PhysicalPlan T → Type 0 =
          λ _. validate_wire_plan (WirePlan.sort id input exprs schema) depth ≡ ok tt in
        Ensures-bind Q (check_depth depth) _ (λ _ d.
          Ensures->>= Q (decode_input formats catalog input (depth + 1)) _
            (decode_input-validate input (depth + 1))
            (λ i pi.
              Ensures->>= Q (decode_sort_exprs exprs (plan_schema i)) _
                (decode_sort_exprs-validate (plan_schema i) exprs)
                (λ _ e.
                  Ensures-bind Q (decode_required_schema schema) _
                    (λ _ s. Ensures-const _ (rw (d, pi, s, e))))))
    decode_plan-validate (WirePlan.top_k id input exprs limit schema) depth =
        let Q : PhysicalPlan T → Type 0 =
          λ _. validate_wire_plan (WirePlan.top_k id input exprs limit schema) depth ≡ ok tt in
        Ensures-bind Q (check_depth depth) _ (λ _ d.
          Ensures->>= Q (decode_input formats catalog input (depth + 1)) _
            (decode_input-validate input (depth + 1))
            (λ i pi.
              Ensures->>= Q (decode_sort_exprs exprs (plan_schema i)) _
                (decode_sort_exprs-validate (plan_schema i) exprs)
                (λ _ e. Ensures-bind Q (decode_required_schema schema) _ (λ s ps.
                  Ensures-bind Q (validate_schema s (plan_schema i)) _ (λ _ _.
                    Ensures-bind Q (checked_usize limit) _
                      (λ _ l. Ensures-const _ (rw (d, pi, ps, l, e))))))))
    decode_plan-validate (WirePlan.limit id input limit schema) depth =
        let Q : PhysicalPlan T → Type 0 =
          λ _. validate_wire_plan (WirePlan.limit id input limit schema) depth ≡ ok tt in
        Ensures-bind Q (check_depth depth) _ (λ _ d.
          Ensures->>= Q (decode_input formats catalog input (depth + 1)) _
            (decode_input-validate input (depth + 1))
            (λ i pi. Ensures-bind Q (decode_required_schema schema) _ (λ s ps.
              Ensures-bind Q (validate_schema s (plan_schema i)) _ (λ _ _.
                Ensures-bind Q (checked_usize limit) _
                  (λ _ l. Ensures-const _ (rw (d, pi, ps, l)))))))
    decode_plan-validate (WirePlan.hash_join id left right join_type left_on right_on schema)
          depth =
        let Q : PhysicalPlan T → Type 0 = λ _.
          validate_wire_plan (WirePlan.hash_join id left right join_type left_on right_on schema)
            depth
          ≡ ok tt in
        Ensures-bind Q (check_depth depth) _ (λ _ d.
          Ensures->>= Q (decode_input formats catalog left (depth + 1)) _
            (decode_input-validate left (depth + 1))
            (λ l pl.
              Ensures->>= Q (decode_input formats catalog right (depth + 1)) _
                (decode_input-validate right (depth + 1))
                (λ r pr. Ensures-bind Q (decode_join_type join_type) _ (λ _ j.
                  Ensures->>= Q (decode_exprs left_on) _ (decode_exprs-validate left_on) (λ lo plo.
                    Ensures->>= Q (decode_exprs right_on) _ (decode_exprs-validate right_on)
                      (λ ro pro.
                        Ensures->>= Q (validate_join_keys lo (plan_schema l) ro (plan_schema r)) _
                          (validate_join_keys-lengths lo (plan_schema l) ro (plan_schema r))
                          (λ _ same. Ensures-bind Q (decode_required_schema schema) _ (λ _ s.
                            let lengths : (length left_on == length right_on) ≡ true =
                              (==_iff _ _).1 (sym plo.1 ∙ same ∙ pro.1) in
                            Ensures-const _ (rw (d, pl, pr, j, s, lengths, plo.0, pro.0))))))))))

    pub decode_input-validate :
        (b : BoxedPlan) (depth : ℕ)
        → Ensures (λ _. validate_input b depth ≡ ok tt) (decode_input formats catalog b depth)
    decode_input-validate missing depth = Ensures-err _ _
    decode_input-validate (boxed w) depth = decode_plan-validate w depth
