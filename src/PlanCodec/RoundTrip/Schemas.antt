-- ===== src/PlanCodec/RoundTrip/Schemas.antt =====
-- src/cluster/plan_codec.rs: schemas come back, metadata included.
use spark_x_distributed_quer.Base.{◌≡◌, ap, ◌∙◌, String, [], ◌∷◌, ◌++◌, map, All, str_ord, some}
use mathlib.Core.List.{append_assoc, append-nil}
use spark_x_distributed_quer.BTreeMap.{BTreeMap}
use spark_x_distributed_quer.BTreeMap.Ascending.{
  Ascending, Follows, Follows-nil, Follows-snoc, insert-Above, contains_key-Above,
}
use spark_x_distributed_quer.Error.{ok, collect}
use spark_x_distributed_quer.Error.Ensures.{Ensures, Ensures-ok, Ensures->>=, Ensures-collect}
use spark_x_distributed_quer.Expr.Schemas.{Field, Schema}
use spark_x_distributed_quer.PlanCodec.Wire.{WireKeyValue}
use spark_x_distributed_quer.PlanCodec.Codes.{encode_data_type}
use spark_x_distributed_quer.PlanCodec.Schemas.{
  sort_entries, encode_metadata, decode_entries, decode_metadata, encode_field, decode_field,
  encode_schema, decode_schema, decode_required_schema,
}
use spark_x_distributed_quer.PlanCodec.RoundTrip.{decode-encode_data_type}

snoc_append :
    (m : BTreeMap String String) (k v : String) (es : BTreeMap String String)
    → (m ++ (k, v) ∷ []) ++ es ≡ m ++ (k, v) ∷ es
snoc_append m k v es = append_assoc m ((k, v) ∷ []) es

sort_entries-Ascending :
    (m entries : BTreeMap String String)
    → Follows m entries
    → Ascending entries
    → sort_entries m entries ≡ m ++ entries
unfolding sort_entries
sort_entries-Ascending m [] h g = rw append-nil
sort_entries-Ascending m ((k, v) ∷ es) h g = rw (insert-Above k v m h.0) (
    sort_entries-Ascending (m ++ (k, v) ∷ []) es (Follows-snoc m k v es h.1 g.0) g.1
    ∙ snoc_append m k v es)

abbrev key_value : String × String → WireKeyValue
key_value e = record { key = e.0; value = e.1 }

decode_entries-Ascending :
    (m entries : BTreeMap String String)
    → Follows m entries
    → Ascending entries
    → decode_entries m (map key_value entries) ≡ ok (m ++ entries)
unfolding decode_entries
decode_entries-Ascending m [] h g = rw append-nil
decode_entries-Ascending m ((k, v) ∷ es) h g =
    rw (contains_key-Above k m h.0, insert-Above k v m h.0)
      (decode_entries-Ascending (m ++ (k, v) ∷ []) es (Follows-snoc m k v es h.1 g.0) g.1
        ∙ ap ok (snoc_append m k v es))

pub decode-encode_metadata :
    (m : BTreeMap String String) → Ascending m → decode_metadata (encode_metadata m) ≡ ok m
unfolding decode_metadata encode_metadata
decode-encode_metadata m h =
    rw (sort_entries-Ascending [] m (Follows-nil m) h)
      (decode_entries-Ascending [] m (Follows-nil m) h)

abbrev pub IsSchema : Schema → Type 0
IsSchema schema =
    All (λ (f : Field). Ascending f.metadata) schema.fields × Ascending schema.metadata

decode-encode_field :
    (f : Field) → Ascending f.metadata → Ensures (λ w. decode_field w ≡ ok f) (encode_field f)
unfolding encode_field decode_field
decode-encode_field f h =
    Ensures->>= (λ w. decode_field w ≡ ok f) (encode_data_type f.data_type) _
      (decode-encode_data_type f.data_type)
      (λ t p.
        Ensures-ok (λ w. decode_field w ≡ ok f) _ (rw (p, decode-encode_metadata f.metadata h)))

pub decode-encode_schema :
    (s : Schema)
    → IsSchema s
    → Ensures (λ w. decode_required_schema (some w) ≡ ok s) (encode_schema s)
unfolding encode_schema decode_required_schema decode_schema
decode-encode_schema s h =
    Ensures->>= (λ w. decode_required_schema (some w) ≡ ok s) (collect encode_field s.fields) _
      (Ensures-collect encode_field decode_field decode-encode_field s.fields h.0)
      (λ fs p.
        Ensures-ok (λ w. decode_required_schema (some w) ≡ ok s) _
          (rw (p, decode-encode_metadata s.metadata h.1)))
