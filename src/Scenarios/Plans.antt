-- ===== src/Scenarios/Plans.antt =====
-- A plan over one table, and its way through a stage's fragment.
use spark_x_distributed_quer.Base.{
  pos, true, false, String-discrete, none, some, [], ◌∷◌, ◌≡◌, refl,
}
use spark_x_distributed_quer.PlanCodec.Encodable.{
  height, parts_are_encodable, expr_is_encodable, is_ok-encode_plan,
}
use spark_x_distributed_quer.Text.{to_ascii_lowercase, is_blank}
use spark_x_distributed_quer.Error.{is_ok, ok, IsPanic, ◌>>=◌}
use spark_x_distributed_quer.Expr.{DataType, DataType-discrete, ScalarValue, Operator, Expr}
use spark_x_distributed_quer.Expr.Names.{Formats}
use spark_x_distributed_quer.Expr.Schemas.{
  Schema, Schema-discrete, Field-discrete, Metadata-discrete, new_schema, new_field,
}
use spark_x_distributed_quer.Expr.Typing.{data_type}
use spark_x_distributed_quer.Plan.{PhysicalPlan, TableProvider, Catalog, table, plan_schema}
use spark_x_distributed_quer.Protocol.{StagePlan}
use spark_x_distributed_quer.PlanCodec.Wire.{WirePlan, WireExpr, WireSchema, BoxedPlan, BoxedExpr}
use spark_x_distributed_quer.PlanCodec.Encode.{check_depth, encode_plan}
use spark_x_distributed_quer.PlanCodec.Schemas.{validate_scan_schema, decode_required_schema}
use spark_x_distributed_quer.PlanCodec.Exprs.{decode_expr}
use spark_x_distributed_quer.PlanCodec.Decode.{decode_plan}
use spark_x_distributed_quer.PlanCodec.Validate.{
  validate_wire_plan, Protobuf, validate_fragment, encode,
}
use spark_x_distributed_quer.PlanCodec.RoundTrip.Schemas.{IsSchema}
use spark_x_distributed_quer.PlanCodec.RoundTrip.Plans.{IsPlan}
use spark_x_distributed_quer.PlanCodec.Fragments.{
  envelope, ReadsBack, decode-encode, stage_of, from_physical_plan, decode_physical_plan,
  decode-validate_fragment, decode_physical_plan-from_physical_plan,
}
use spark_x_distributed_quer.PlanCodec.Aliases.{nested_alias_panics}

instance abbrev schema_table : TableProvider Schema
schema_table = record { table_schema = λ s. s; partition_count = λ _. 1 }

abbrev plain_formats : Formats
plain_formats = record { display_f64 = λ _. "0"; display_type = λ _. "Type" }

abbrev people : Schema
people =
    new_schema (new_field "age" DataType.int64 true ∷ new_field "name" DataType.utf8 false ∷ [])

abbrev catalog : Catalog Schema
catalog = record { tables = ("people", people) ∷ [] }

abbrev is_adult : Expr
is_adult =
    Expr.binary (Expr.column "age") Operator.gt_eq (Expr.literal (ScalarValue.int64 (pos 18)))

abbrev plan : PhysicalPlan Schema
plan =
    PhysicalPlan.limit 3
      (PhysicalPlan.filter 2 (PhysicalPlan.scan 1 "people" people none [] people) is_adult people)
      10 people

plan-IsPlan : IsPlan plain_formats catalog plan
unfolding is_blank table validate_scan_schema data_type Schema-discrete Field-discrete
    Metadata-discrete String-discrete DataType-discrete to_ascii_lowercase plan_schema
plan-IsPlan = (((refl, refl, refl, tt, named), (refl, tt), refl, refl, named), refl, named)
  where
    named : IsSchema people
    named = ((tt, (tt, tt)), tt)

-- The library writes the plan's message as one byte, and reads it back from any.
abbrev one_message : Protobuf
one_message = record {
  encode_to_vec = λ _. 7 ∷ [];
  decode_message = λ _. encode_plan plan 0 >>= (λ root. ok (envelope root));
}

reads_back : ReadsBack one_message plan
reads_back root e = rw e refl

abbrev stage : StagePlan
stage = stage_of "q" 0 [] 2 (7 ∷ [])

is_encoded : encode one_message plan ≡ ok (7 ∷ [])
unfolding encode
is_encoded = refl

is_made : from_physical_plan one_message "q" 0 [] 2 plan ≡ ok stage
unfolding from_physical_plan
is_made = refl

decode_physical_plan-from_physical_plan_example :
    decode_physical_plan one_message plain_formats stage catalog ≡ ok plan
decode_physical_plan-from_physical_plan_example =
    decode_physical_plan-from_physical_plan one_message plain_formats "q" 0 [] 2 plan catalog stage
      plan-IsPlan reads_back is_made

decode-validate_fragment_example : validate_fragment one_message (7 ∷ []) ≡ ok tt
decode-validate_fragment_example =
    decode-validate_fragment one_message plain_formats (7 ∷ []) catalog (
      decode-encode one_message plain_formats plan catalog (7 ∷ []) plan-IsPlan reads_back
        is_encoded)

abbrev wire_people : WireSchema
wire_people = record {
  fields =
      record { name = "age"; data_type = pos 3; nullable = true; metadata = [] }
      ∷ record { name = "name"; data_type = pos 8; nullable = false; metadata = [] }
      ∷ [];
  metadata = [];
}

abbrev wire_scan : WirePlan
wire_scan = WirePlan.scan (record {
  id = 1;
  table_name = "people";
  has_projection = false;
  projection = [];
  filters = [];
  schema = some wire_people;
})

abbrev twice_named : WireExpr
twice_named =
    WireExpr.alias (BoxedExpr.boxed (WireExpr.alias (BoxedExpr.boxed (WireExpr.column "age")) "a"))
      "b"

abbrev twice_filtered : WirePlan
twice_filtered = WirePlan.filter 2 (BoxedPlan.boxed wire_scan) (some twice_named) (some wire_people)

nested_alias_panics_example :
    (validate_wire_plan twice_filtered 0 ≡ ok tt)
    × IsPanic (decode_plan plain_formats catalog twice_filtered 0)
unfolding check_depth decode_plan decode_expr is_blank decode_required_schema to_ascii_lowercase
    Schema-discrete Field-discrete Metadata-discrete String-discrete DataType-discrete
nested_alias_panics_example =
    nested_alias_panics plain_formats catalog 2 0 (BoxedPlan.boxed wire_scan)
      (WireExpr.column "age") "a" "b" (some wire_people) refl refl refl refl refl refl

is_ok-encode_plan_example : is_ok (encode_plan plan 125) ≡ true
unfolding height parts_are_encodable expr_is_encodable
is_ok-encode_plan_example = is_ok-encode_plan plan 125

-- Its scan stands too deep.
too_deep : is_ok (encode_plan plan 126) ≡ false
unfolding height parts_are_encodable expr_is_encodable
too_deep = is_ok-encode_plan plan 126
