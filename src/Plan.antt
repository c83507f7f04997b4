-- ===== src/Plan.antt =====
-- Plans and tables: the physical plans of src/runtime/execution.rs, sort keys and join types of
-- src/query/logical.rs, and the catalog of src/storage/catalog.rs. A table is of any type that has a
-- schema and partitions; what it does when it is scanned is not looked at.
use spark_x_distributed_quer.Base.{ℕ, String, Bool, Option, none, some, List, str_ord, get_elem?}
use spark_x_distributed_quer.BTreeMap.{BTreeMap, get, insert}
use spark_x_distributed_quer.Error.{not_found, Result, ok, ok_or, expect, ◌>>=◌, collect}
use spark_x_distributed_quer.Text.{to_ascii_lowercase}
use spark_x_distributed_quer.Expr.{Expr}
use spark_x_distributed_quer.Expr.Schemas.{Field, Schema, new_schema}

pub data JoinType : Type 0 where
  inner left : JoinType

pub record SortExpr : Type 0 where
  pub expr : Expr
  pub ascending : Bool
  pub nulls_first : Bool

-- The part of the trait `TableProvider` that plans depend on.
pub record TableProvider {ℓ} (T : Type ℓ) : Type ℓ where
  pub table_schema : T → Schema
  pub partition_count : T → ℕ

pub data PhysicalPlan {ℓ} (T : Type ℓ) : Type ℓ where
  scan : ℕ → String → T → Option (List ℕ) → List Expr → Schema → PhysicalPlan T
  projection : ℕ → PhysicalPlan T → List Expr → Schema → PhysicalPlan T
  filter : ℕ → PhysicalPlan T → Expr → Schema → PhysicalPlan T
  hash_aggregate : ℕ → PhysicalPlan T → List Expr → List Expr → Schema → PhysicalPlan T
  sort : ℕ → PhysicalPlan T → List SortExpr → Schema → PhysicalPlan T
  top_k : ℕ → PhysicalPlan T → List SortExpr → ℕ → Schema → PhysicalPlan T
  limit : ℕ → PhysicalPlan T → ℕ → Schema → PhysicalPlan T
  hash_join :
      ℕ
      → PhysicalPlan T
      → PhysicalPlan T
      → JoinType
      → List Expr
      → List Expr
      → Schema
      → PhysicalPlan T

unfoldable pub plan_schema {ℓ} : {T : Type ℓ} → PhysicalPlan T → Schema
plan_schema (PhysicalPlan.scan _ _ _ _ _ schema) = schema
plan_schema (PhysicalPlan.projection _ _ _ schema) = schema
plan_schema (PhysicalPlan.filter _ _ _ schema) = schema
plan_schema (PhysicalPlan.hash_aggregate _ _ _ _ schema) = schema
plan_schema (PhysicalPlan.sort _ _ _ schema) = schema
plan_schema (PhysicalPlan.top_k _ _ _ _ schema) = schema
plan_schema (PhysicalPlan.limit _ _ _ schema) = schema
plan_schema (PhysicalPlan.hash_join _ _ _ _ _ _ schema) = schema

-- The tables under their names in lower case.
pub record Catalog {ℓ} (T : Type ℓ) : Type ℓ where
  pub tables : BTreeMap String T

module _ {ℓ} {T : Type ℓ} where
  unfoldable pub register : String → T → Catalog T → Catalog T
  unfolding insert to_ascii_lowercase
  register name provider catalog = record catalog {
    tables = insert (to_ascii_lowercase name) provider catalog.tables;
  }

  unfoldable pub table : Catalog T → String → Result T
  unfolding get to_ascii_lowercase
  table catalog name =
      ok_or (get (to_ascii_lowercase name) catalog.tables) (not_found "table '{name}'")

unfoldable pub projected_fields : List Field → List ℕ → Result (List Field)
projected_fields fields indices =
    collect (λ index. expect (get_elem? fields index) "index out of bounds") indices

-- An index out of range is a panic.
unfoldable pub projected_schema : Schema → Option (List ℕ) → Result Schema
unfolding projected_fields
projected_schema schema none = ok schema
projected_schema schema (some indices) = do
  fields ← projected_fields schema.fields indices
  ok (new_schema fields)
