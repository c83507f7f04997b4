-- ===== src/PlanCodec/Schemas.antt =====
-- src/cluster/plan_codec.rs: schemas and their metadata, and the checks of a decoded node's schema.
use Prim.Native.String.{◌++◌}
use mathlib.Core.Bool.{Bool-discrete}
use spark_x_distributed_quer.Base.{
  ℕ, String, Bool, true, false, not, ◌||◌, Option, none, some, List, [], ◌∷◌, ◌++◌ as append, map,
  any, length, leb, ◌==◌, is_empty, is_yes, key_eq, str_ord, if◌then◌else◌,
}
use spark_x_distributed_quer.BTreeMap.{BTreeMap, insert, contains_key}
use spark_x_distributed_quer.Error.{Result, ok, err, reject_if, collect, ◌>>=◌, ◌>>◌}
use spark_x_distributed_quer.Expr.{Expr}
use spark_x_distributed_quer.Expr.Names.{Formats, unqualified}
use spark_x_distributed_quer.Expr.Schemas.{
  Field, Schema, Schema-discrete, Metadata-discrete, new_schema,
}
use spark_x_distributed_quer.Expr.Typing.{type_eq, data_type, field}
use spark_x_distributed_quer.Plan.{JoinType, projected_schema}
use spark_x_distributed_quer.PlanCodec.Wire.{WireKeyValue, WireField, WireSchema, data_type_code}
use spark_x_distributed_quer.PlanCodec.Codes.{
  codec_error, required, encode_data_type, decode_data_type,
}

-- `sort_by` on the keys, by insertion: the keys of a map are distinct.
unfoldable pub sort_entries :
    BTreeMap String String → BTreeMap String String → BTreeMap String String
unfolding insert
sort_entries sorted [] = sorted
sort_entries sorted ((k, v) ∷ entries) = sort_entries (insert k v sorted) entries

unfoldable pub encode_metadata : BTreeMap String String → List WireKeyValue
unfolding sort_entries
encode_metadata metadata =
    map (λ (e : String × String). record { key = e.0; value = e.1 }) (sort_entries [] metadata)

unfoldable pub decode_entries :
    BTreeMap String String → List WireKeyValue → Result (BTreeMap String String)
unfolding insert contains_key
decode_entries metadata [] = ok metadata
decode_entries metadata (entry ∷ entries) =
    if contains_key entry.key metadata
    then err (codec_error "schema metadata key '{}' appears more than once")
    else decode_entries (insert entry.key entry.value metadata) entries

unfoldable pub decode_metadata : List WireKeyValue → Result (BTreeMap String String)
unfolding decode_entries
decode_metadata entries = decode_entries [] entries

unfoldable pub encode_field : Field → Result WireField
unfolding encode_data_type encode_metadata
encode_field f = do
  t ← encode_data_type f.data_type
  ok (record {
    name = f.name;
    data_type = data_type_code t;
    nullable = f.nullable;
    metadata = encode_metadata f.metadata;
  })

unfoldable pub encode_schema : Schema → Result WireSchema
unfolding encode_field encode_metadata collect
encode_schema schema = do
  fields ← collect encode_field schema.fields
  ok (record { fields = fields; metadata = encode_metadata schema.metadata })

unfoldable pub decode_field : WireField → Result Field
unfolding decode_data_type decode_metadata
decode_field f = do
  t ← decode_data_type f.data_type
  metadata ← decode_metadata f.metadata
  ok (record { name = f.name; data_type = t; nullable = f.nullable; metadata = metadata })

unfoldable pub decode_schema : WireSchema → Result Schema
unfolding decode_field decode_metadata collect
decode_schema schema = do
  fields ← collect decode_field schema.fields
  metadata ← decode_metadata schema.metadata
  ok (record { fields = fields; metadata = metadata })

unfoldable pub decode_required_schema : Option WireSchema → Result Schema
unfolding decode_schema
decode_required_schema schema = do wire ← required schema; decode_schema wire

unfoldable pub validate_schema : Schema → Schema → Result (Unit {0})
validate_schema actual expected =
    reject_if (not (is_yes (Schema-discrete actual expected)))
      (codec_error "{operator} output schema does not match its decoded expressions or inputs")

-- Metadata is equal if its entries are.
unfoldable pub field_differs : Field → Field → Bool
unfolding unqualified
field_differs expected actual =
    not (key_eq (unqualified expected.name) (unqualified actual.name))
    || not (type_eq expected.data_type actual.data_type)
    || not (is_yes (Bool-discrete expected.nullable actual.nullable))
    || not (is_yes (Metadata-discrete expected.metadata actual.metadata))

unfoldable pub match_fields : List Field → List Field → Result (Unit {0})
unfolding field_differs
match_fields (e ∷ es) (a ∷ as_) = do
  reject_if (field_differs e a)
      (codec_error "scan field '{}' does not match worker catalog field '{}' for table")
  match_fields es as_
match_fields _ _ = ok tt

unfoldable pub check_indices : ℕ → List ℕ → Result (Unit {0})
check_indices count [] = ok tt
check_indices count (index ∷ indices) = do
  reject_if (leb count index) (codec_error "scan projection index {index} is outside table schema")
  check_indices count indices

unfoldable pub check_projection : ℕ → Option (List ℕ) → Result (Unit {0})
unfolding check_indices
check_projection count none = ok tt
check_projection count (some indices) = check_indices count indices

unfoldable pub validate_scan_schema : Schema → Option (List ℕ) → Schema → Result (Unit {0})
unfolding check_projection match_fields projected_schema
validate_scan_schema provider_schema projection fragment_schema = do
  check_projection (length provider_schema.fields) projection
  actual ← projected_schema provider_schema projection
  reject_if (not (length actual.fields == length fragment_schema.fields))
      (codec_error "scan schema for table has {} fields but worker catalog provides {}")
  match_fields fragment_schema.fields actual.fields

module _ (formats : Formats) where
  unfoldable pub schema_for_exprs : List Expr → Schema → Result Schema
  unfolding field collect
  schema_for_exprs exprs input = do
    fields ← collect (field input formats) exprs
    ok (new_schema fields)

abbrev key_types_match : Schema → Schema → Expr → Expr → Result (Unit {0})
unfolding data_type
key_types_match left_schema right_schema left right = do
  left_type ← data_type left_schema left
  right_type ← data_type right_schema right
  reject_if (not (type_eq left_type right_type))
      (codec_error "hash join key types differ: {left_type} versus {right_type}")

unfoldable pub check_key_types : Schema → Schema → List Expr → List Expr → Result (Unit {0})
unfolding key_types_match
check_key_types left_schema right_schema (l ∷ ls) (r ∷ rs) = do
  key_types_match left_schema right_schema l r
  check_key_types left_schema right_schema ls rs
check_key_types left_schema right_schema _ _ = ok tt

unfoldable pub validate_join_keys : List Expr → Schema → List Expr → Schema → Result (Unit {0})
unfolding check_key_types
validate_join_keys left left_schema right right_schema = do
  reject_if (is_empty left || not (length left == length right))
      (codec_error "hash join requires the same non-zero number of left and right keys")
  check_key_types left_schema right_schema left right

-- A field of the right input as it stands in the output after `fields`.
abbrev pub nullable_if_left : JoinType → Field → Field
nullable_if_left JoinType.inner f = f
nullable_if_left JoinType.left f = record f { nullable = true }

abbrev pub rename_right : List Field → Field → Field
rename_right fields f =
    if any (λ existing. key_eq existing.name f.name) fields
    then record f { name = "right." ++ f.name }
    else f

unfoldable pub join_fields : JoinType → List Field → List Field → List Field
join_fields join_type fields [] = fields
join_fields join_type fields (f ∷ right) =
    join_fields join_type (append fields (rename_right fields (nullable_if_left join_type f) ∷ []))
      right

unfoldable pub join_schema : Schema → Schema → JoinType → Schema
unfolding join_fields
join_schema left right join_type = new_schema (join_fields join_type left.fields right.fields)

unfoldable pub decode_projection : Bool → List ℕ → Result (Option (List ℕ))
decode_projection false [] = ok none
decode_projection false (_ ∷ _) =
    err (codec_error "scan projection contains indices while has_projection is false")
decode_projection true indices = ok (some indices)
