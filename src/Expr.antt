-- ===== src/Expr.antt =====
-- src/query/expr.rs: the data of expressions. A `DataType` is one of the Arrow types that the source
-- names, or another by its name. A `f64` is its 64 bits, and an `i64` an integer.
pub mod Names
pub mod Schemas
pub mod Typing
pub mod Order
pub mod Evaluate
pub mod Kernels
pub mod Sound
pub mod Narrow
use spark_x_distributed_quer.Base.{
  ℕ, zero, suc, ℤ, pos, negsuc, int_cmp, String, Bool, true, false, Option, none, some, ◌||◌,
  Ordering, compare, ◌^◌, ◌-◌, ◌/◌, ◌%◌, ◌==◌, ltb, if◌then◌else◌, String-discrete, str_ord,
}
use native.Mathlib.Decide.{ℕ_discrete}

pub data DataType : Type 0 where
  null boolean int32 int64 uint32 uint64 float32 float64 utf8 : DataType
  other : String → DataType

unfoldable pub DataType-discrete : Discrete DataType
DataType-discrete = hlevel String-discrete

pub data ScalarValue : Type 0 where
  null : ScalarValue
  boolean : Bool → ScalarValue
  int64 : ℤ → ScalarValue
  uint64 : ℕ → ScalarValue
  float64 : ℕ → ScalarValue
  utf8 : String → ScalarValue

-- `PartialEq`: floats are equal if their bits are.
unfoldable pub ScalarValue-discrete : Discrete ScalarValue
ScalarValue-discrete = hlevel (String-discrete, ℕ_discrete)

unfoldable pub scalar_type : ScalarValue → DataType
scalar_type ScalarValue.null = DataType.null
scalar_type (ScalarValue.boolean _) = DataType.boolean
scalar_type (ScalarValue.int64 _) = DataType.int64
scalar_type (ScalarValue.uint64 _) = DataType.uint64
scalar_type (ScalarValue.float64 _) = DataType.float64
scalar_type (ScalarValue.utf8 _) = DataType.utf8

-- The order of `f64` by its bits: a sign, then a magnitude. A magnitude above that of infinity is
-- NaN, and the two zeros are equal.
abbrev pub magnitude : ℕ → ℕ
magnitude bits = bits % 2 ^ 63

abbrev pub is_nan : ℕ → Bool
is_nan bits = ltb 9218868437227405312 (magnitude bits)

abbrev signed_magnitude : ℕ → ℕ → ℤ
signed_magnitude zero sign = pos 0
signed_magnitude (suc m) sign = if sign == 0 then pos (suc m) else negsuc m

abbrev pub f64_key : ℕ → ℤ
f64_key bits = signed_magnitude (magnitude bits) (bits / 2 ^ 63)

unfoldable pub f64_partial_cmp : ℕ → ℕ → Option Ordering
f64_partial_cmp a b = if is_nan a || is_nan b then none else some (int_cmp (f64_key a) (f64_key b))

abbrev pub bool_cmp : Bool → Bool → Ordering
bool_cmp false true = Ordering.lt
bool_cmp true false = Ordering.gt
bool_cmp _ _ = Ordering.eq

unfoldable pub partial_compare : ScalarValue → ScalarValue → Option Ordering
unfolding f64_partial_cmp
partial_compare ScalarValue.null ScalarValue.null = some Ordering.eq
partial_compare ScalarValue.null _ = some Ordering.lt
partial_compare _ ScalarValue.null = some Ordering.gt
partial_compare (ScalarValue.boolean a) (ScalarValue.boolean b) = some (bool_cmp a b)
partial_compare (ScalarValue.int64 a) (ScalarValue.int64 b) = some (int_cmp a b)
partial_compare (ScalarValue.uint64 a) (ScalarValue.uint64 b) = some (compare a b)
partial_compare (ScalarValue.float64 a) (ScalarValue.float64 b) = f64_partial_cmp a b
partial_compare (ScalarValue.utf8 a) (ScalarValue.utf8 b) = some (str_ord.cmp a b)
partial_compare _ _ = none

pub data Operator : Type 0 where
  eq not_eq lt lt_eq gt gt_eq and or add subtract multiply divide : Operator

pub data AggregateFunction : Type 0 where
  count sum sum_uint64 min max avg : AggregateFunction

pub data Expr : Type 0 where
  column : String → Expr
  literal : ScalarValue → Expr
  binary : Expr → Operator → Expr → Expr
  is_null : Expr → Bool → Expr
  cast : Expr → DataType → Expr
  alias : Expr → String → Expr
  aggregate : AggregateFunction → Expr → Bool → Expr
  wildcard : Expr

-- One alias is taken off, no more.
unfoldable pub unalias : Expr → Expr
unalias (Expr.alias e _) = e
unalias e = e

unfoldable pub contains_aggregate : Expr → Bool
contains_aggregate (Expr.aggregate _ _ _) = true
contains_aggregate (Expr.binary left _ right) = contains_aggregate left || contains_aggregate right
contains_aggregate (Expr.is_null e _) = contains_aggregate e
contains_aggregate (Expr.cast e _) = contains_aggregate e
contains_aggregate (Expr.alias e _) = contains_aggregate e
contains_aggregate _ = false
