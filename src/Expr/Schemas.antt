-- ===== src/Expr/Schemas.antt =====
-- src/query/expr.rs: the search for a column's field. A `Schema` and a `Field` are Arrow's, with what
-- the source reads of them; a `HashMap` of metadata is its entries in the order of the keys.
use spark_x_distributed_quer.Base.{
  ℕ, suc, String, Bool, ◌&&◌, List, [], ◌∷◌, any, key_eq, str_ord, if◌then◌else◌, String-discrete,
  get_elem?,
}
use spark_x_distributed_quer.BTreeMap.{BTreeMap}
use spark_x_distributed_quer.Error.{SparkXError, planning, Result, ok, err, expect, ◌>>=◌}
use spark_x_distributed_quer.Expr.{DataType, DataType-discrete}
use spark_x_distributed_quer.Expr.Names.{contains_dot, unqualified}

pub record Field : Type 0 where
  pub name : String
  pub data_type : DataType
  pub nullable : Bool
  pub metadata : BTreeMap String String

unfoldable pub Metadata-discrete : Discrete (BTreeMap String String)
Metadata-discrete = hlevel String-discrete

unfoldable pub Field-discrete : Discrete Field
Field-discrete = hlevel (String-discrete, DataType-discrete)

pub record Schema : Type 0 where
  pub fields : List Field
  pub metadata : BTreeMap String String

unfoldable pub Schema-discrete : Discrete Schema
Schema-discrete = hlevel (String-discrete, Field-discrete)

abbrev pub new_schema : List Field → Schema
new_schema fields = record { fields = fields; metadata = [] }

abbrev pub new_field : String → DataType → Bool → Field
new_field name data_type nullable = record {
  name = name;
  data_type = data_type;
  nullable = nullable;
  metadata = [];
}

-- `enumerate().filter_map(...)`: the places, from `i` on, of the fields that pass a test.
unfoldable pub places : (Field → Bool) → ℕ → List Field → List ℕ
places test i [] = []
places test i (field ∷ fields) =
    let rest = places test (suc i) fields in if test field then i ∷ rest else rest

abbrev pub ambiguous_column : SparkXError
ambiguous_column = planning "column '{name}' is ambiguous; qualify it with a table name or alias"

abbrev pub no_column : SparkXError
no_column = planning "column '{name}' does not exist"

abbrev unique : List ℕ → Result ℕ
unique [] = err no_column
unique (index ∷ []) = ok index
unique (_ ∷ _ ∷ _) = err ambiguous_column

-- What follows if no field has the name exactly.
unfoldable pub resolve_short : Schema → String → Result ℕ
unfolding contains_dot unqualified places
resolve_short schema name =
    if contains_dot name && any (λ field. contains_dot field.name) schema.fields
    then err no_column
    else unique
        (places (λ field. key_eq (unqualified field.name) (unqualified name)) 0 schema.fields)

abbrev resolve_exact : List ℕ → Result ℕ → Result ℕ
resolve_exact [] otherwise = otherwise
resolve_exact (index ∷ []) otherwise = ok index
resolve_exact (_ ∷ _ ∷ _) otherwise = err ambiguous_column

unfoldable pub resolve_field_index : Schema → String → Result ℕ
unfolding resolve_short places
resolve_field_index schema name =
    resolve_exact (places (λ field. key_eq field.name name) 0 schema.fields)
      (resolve_short schema name)

unfoldable pub find_column : Schema → String → Result ℕ
unfolding resolve_field_index
find_column schema name = resolve_field_index schema name

-- An index out of range is a panic.
unfoldable pub find_field : Schema → String → Result Field
unfolding resolve_field_index
find_field schema name = do
  index ← resolve_field_index schema name
  expect (get_elem? schema.fields index) "index out of bounds"
