-- ===== src/PlanCodec/Accepted/Lists.antt =====
-- src/cluster/plan_codec.rs: the lists of expressions and sort keys that decode pass the check.
use spark_x_distributed_quer.Base.{
  ◌≡◌, refl, sym, ◌∙◌, not, ◌||◌, List, [], ◌∷◌, arith, length, is_empty, ◌==◌,
}
use spark_x_distributed_quer.Error.{ok, collect}
use spark_x_distributed_quer.Error.Ensures.{
  Ensures, Ensures-ok, Ensures->>=, Ensures-bind, Ensures-reject, Ensures-const,
}
use spark_x_distributed_quer.Expr.{Expr}
use spark_x_distributed_quer.Expr.Schemas.{Schema}
use spark_x_distributed_quer.Plan.{SortExpr}
use spark_x_distributed_quer.PlanCodec.Wire.{WireExpr, WireSortExpr}
use spark_x_distributed_quer.PlanCodec.Codes.{required}
use spark_x_distributed_quer.PlanCodec.Exprs.{
  decode_expr, decode_exprs, validate_wire_exprs, decode_sort_expr, decode_sort_exprs,
  validate_each_sort, validate_wire_sort_exprs,
}
use spark_x_distributed_quer.PlanCodec.Schemas.{validate_join_keys}

-- What decodes passes the check, and comes out as long as it was.
abbrev pub Checked : List WireExpr → List Expr → Type 0
Checked ws es = (validate_wire_exprs ws ≡ ok tt) × (length es ≡ length ws)

pub decode_exprs-validate : (ws : List WireExpr) → Ensures (Checked ws) (decode_exprs ws)
unfolding decode_exprs validate_wire_exprs collect
decode_exprs-validate [] = Ensures-ok (Checked []) [] (refl, refl)
decode_exprs-validate (w ∷ ws) = Ensures-bind (Checked (w ∷ ws)) (decode_expr w) _ (λ e p.
    Ensures->>= (Checked (w ∷ ws)) (decode_exprs ws) _ (decode_exprs-validate ws)
      (λ es q. Ensures-ok (Checked (w ∷ ws)) (e ∷ es) (rw (p, q.0), omega (arith, q.1))))

-- What a decoded sort key shows of its message.
abbrev SortDecodes : WireSortExpr → Type 0
SortDecodes w =
    (wire : WireExpr) × (e : Expr) × (required w.expr ≡ ok wire) × (decode_expr wire ≡ ok e)

decode_sort_expr-decodes :
    (schema : Schema) (w : WireSortExpr) → Ensures (λ _. SortDecodes w) (decode_sort_expr schema w)
unfolding decode_sort_expr
decode_sort_expr-decodes schema w =
    Ensures-bind (λ _. SortDecodes w) (required w.expr) _
      (λ wire p.
        Ensures-bind (λ _. SortDecodes w) (decode_expr wire) _
          (λ e q. Ensures-const _ (wire, e, p, q)))

abbrev SortsChecked : List WireSortExpr → List SortExpr → Type 0
SortsChecked ws ss = (validate_each_sort ws ≡ ok tt) × (is_empty ss ≡ is_empty ws)

validate_each-collect :
    (schema : Schema) (ws : List WireSortExpr)
    → Ensures (SortsChecked ws) (collect (decode_sort_expr schema) ws)
unfolding collect validate_each_sort
validate_each-collect schema [] = Ensures-ok _ [] (refl, refl)
validate_each-collect schema (w ∷ ws) =
    Ensures->>= (SortsChecked (w ∷ ws)) (decode_sort_expr schema w) _
      (decode_sort_expr-decodes schema w)
      (λ s d.
        Ensures->>= (SortsChecked (w ∷ ws)) (collect (decode_sort_expr schema) ws) _
          (validate_each-collect schema ws)
          (λ ss p. Ensures-ok (SortsChecked (w ∷ ws)) (s ∷ ss) (rw (d.2, d.3, p.0), refl)))

pub decode_sort_exprs-validate :
    (schema : Schema) (ws : List WireSortExpr)
    → Ensures (λ ss. validate_wire_sort_exprs ws ≡ ok tt) (decode_sort_exprs ws schema)
unfolding decode_sort_exprs validate_wire_sort_exprs
decode_sort_exprs-validate schema ws =
    Ensures->>= (λ ss. validate_wire_sort_exprs ws ≡ ok tt) (collect (decode_sort_expr schema) ws) _
      (validate_each-collect schema ws)
      (λ ss p.
        Ensures-reject (λ ss. validate_wire_sort_exprs ws ≡ ok tt) (is_empty ss) _ _
          (λ e. Ensures-ok (λ ss. validate_wire_sort_exprs ws ≡ ok tt) ss (rw (sym p.1 ∙ e, p.0))))

pub validate_join_keys-lengths :
    (lo : List Expr) (ls : Schema) (ro : List Expr) (rs : Schema)
    → Ensures (λ _. length lo ≡ length ro) (validate_join_keys lo ls ro rs)
unfolding validate_join_keys
validate_join_keys-lengths lo ls ro rs =
    Ensures-reject (λ _. length lo ≡ length ro) (is_empty lo || not (length lo == length ro)) _ _
      (λ e. Ensures-const _ (ground arith))
