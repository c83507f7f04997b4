-- ===== src/PlanCodec/Wire.antt =====
-- src/cluster/plan_codec.rs: the messages of the wire format. A message that holds only a `oneof` is
-- that `oneof`, with `unset` where it has no value; an optional boxed message is a type of its own. An
-- enumeration travels as an `i32`.
use spark_x_distributed_quer.Base.{
  ℕ, ℤ, pos, negsuc, String, Bool, Option, none, List, [], ◌∷◌, get_elem?,
}

pub data WireScalar : Type 0 where
  unset : WireScalar
  null boolean : Bool → WireScalar
  int64 : ℤ → WireScalar
  uint64 float64 : ℕ → WireScalar
  utf8 : String → WireScalar

mutual
  pub data WireExpr : Type 0 where
    unset : WireExpr
    column : String → WireExpr
    literal : WireScalar → WireExpr
    binary : BoxedExpr → ℤ → BoxedExpr → WireExpr
    is_null : BoxedExpr → Bool → WireExpr
    cast : BoxedExpr → ℤ → WireExpr
    alias : BoxedExpr → String → WireExpr
    aggregate : ℤ → BoxedExpr → Bool → WireExpr
    wildcard : Bool → WireExpr

  pub data BoxedExpr : Type 0 where
    missing : BoxedExpr
    boxed : WireExpr → BoxedExpr

pub record WireSortExpr : Type 0 where
  pub expr : Option WireExpr
  pub ascending : Bool
  pub nulls_first : Bool

pub record WireKeyValue : Type 0 where
  pub key : String
  pub value : String

pub record WireField : Type 0 where
  pub name : String
  pub data_type : ℤ
  pub nullable : Bool
  pub metadata : List WireKeyValue

pub record WireSchema : Type 0 where
  pub fields : List WireField
  pub metadata : List WireKeyValue

pub record WireScan : Type 0 where
  pub id : ℕ
  pub table_name : String
  pub has_projection : Bool
  pub projection : List ℕ
  pub filters : List WireExpr
  pub schema : Option WireSchema

mutual
  pub data WirePlan : Type 0 where
    unset : WirePlan
    scan : WireScan → WirePlan
    projection : ℕ → BoxedPlan → List WireExpr → Option WireSchema → WirePlan
    filter : ℕ → BoxedPlan → Option WireExpr → Option WireSchema → WirePlan
    hash_aggregate : ℕ → BoxedPlan → List WireExpr → List WireExpr → Option WireSchema → WirePlan
    sort : ℕ → BoxedPlan → List WireSortExpr → Option WireSchema → WirePlan
    top_k : ℕ → BoxedPlan → List WireSortExpr → ℕ → Option WireSchema → WirePlan
    limit : ℕ → BoxedPlan → ℕ → Option WireSchema → WirePlan
    hash_join :
        ℕ → BoxedPlan → BoxedPlan → ℤ → List WireExpr → List WireExpr → Option WireSchema → WirePlan

  pub data BoxedPlan : Type 0 where
    missing : BoxedPlan
    boxed : WirePlan → BoxedPlan

pub record WirePlanEnvelope : Type 0 where
  pub version : ℕ
  pub root : Option WirePlan

pub data WireDataType : Type 0 where
  null boolean int32 int64 uint32 uint64 float32 float64 utf8 : WireDataType

pub data WireOperator : Type 0 where
  eq not_eq lt lt_eq gt gt_eq and or add subtract multiply divide : WireOperator

pub data WireAggregateFunction : Type 0 where
  count sum min max avg sum_uint64 : WireAggregateFunction

pub data WireJoinType : Type 0 where
  inner left : WireJoinType

-- `T::try_from(code)`: the codes are the places in the list of the values.
abbrev pub try_from {ℓ} : {T : Type ℓ} → List T → ℤ → Option T
try_from values (pos n) = get_elem? values n
try_from values (negsuc n) = none

abbrev pub data_type_values : List WireDataType
data_type_values =
    WireDataType.null ∷ WireDataType.boolean ∷ WireDataType.int32 ∷ WireDataType.int64
    ∷ WireDataType.uint32 ∷ WireDataType.uint64 ∷ WireDataType.float32 ∷ WireDataType.float64
    ∷ WireDataType.utf8 ∷ []

-- `value as i32`
abbrev pub data_type_code : WireDataType → ℤ
data_type_code WireDataType.null = pos 0
data_type_code WireDataType.boolean = pos 1
data_type_code WireDataType.int32 = pos 2
data_type_code WireDataType.int64 = pos 3
data_type_code WireDataType.uint32 = pos 4
data_type_code WireDataType.uint64 = pos 5
data_type_code WireDataType.float32 = pos 6
data_type_code WireDataType.float64 = pos 7
data_type_code WireDataType.utf8 = pos 8

abbrev pub operator_values : List WireOperator
operator_values =
    WireOperator.eq ∷ WireOperator.not_eq ∷ WireOperator.lt ∷ WireOperator.lt_eq ∷ WireOperator.gt
    ∷ WireOperator.gt_eq ∷ WireOperator.and ∷ WireOperator.or ∷ WireOperator.add
    ∷ WireOperator.subtract ∷ WireOperator.multiply ∷ WireOperator.divide ∷ []

abbrev pub operator_code : WireOperator → ℤ
operator_code WireOperator.eq = pos 0
operator_code WireOperator.not_eq = pos 1
operator_code WireOperator.lt = pos 2
operator_code WireOperator.lt_eq = pos 3
operator_code WireOperator.gt = pos 4
operator_code WireOperator.gt_eq = pos 5
operator_code WireOperator.and = pos 6
operator_code WireOperator.or = pos 7
operator_code WireOperator.add = pos 8
operator_code WireOperator.subtract = pos 9
operator_code WireOperator.multiply = pos 10
operator_code WireOperator.divide = pos 11

abbrev pub function_values : List WireAggregateFunction
function_values =
    WireAggregateFunction.count ∷ WireAggregateFunction.sum ∷ WireAggregateFunction.min
    ∷ WireAggregateFunction.max ∷ WireAggregateFunction.avg ∷ WireAggregateFunction.sum_uint64 ∷ []

abbrev pub function_code : WireAggregateFunction → ℤ
function_code WireAggregateFunction.count = pos 0
function_code WireAggregateFunction.sum = pos 1
function_code WireAggregateFunction.min = pos 2
function_code WireAggregateFunction.max = pos 3
function_code WireAggregateFunction.avg = pos 4
function_code WireAggregateFunction.sum_uint64 = pos 5

abbrev pub join_values : List WireJoinType
join_values = WireJoinType.inner ∷ WireJoinType.left ∷ []

abbrev pub join_code : WireJoinType → ℤ
join_code WireJoinType.inner = pos 0
join_code WireJoinType.left = pos 1
