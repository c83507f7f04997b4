-- ===== src/Expr/Names.antt =====
-- src/query/expr.rs: how an expression is written, and the name of the column that it makes. How Arrow
-- writes a type and how a float is written are arguments.
use Prim.Native.Char.{code}
use Prim.Native.String.{◌++◌}
use spark_x_distributed_quer.Base.{
  ℕ, suc, zero, ℤ, pos, negsuc, String, Bool, false, ◌||◌, ◌/◌, ◌%◌, ltb, ◌==◌, if◌then◌else◌,
  str_ord,
}
use spark_x_distributed_quer.BTreeMap.{BTreeMap, insert}
use spark_x_distributed_quer.Expr.{DataType, ScalarValue, Operator, AggregateFunction, Expr}

-- `Display` of the library types that an expression holds.
pub record Formats : Type 0 where
  pub display_f64 : ℕ → String
  pub display_type : DataType → String

unfoldable pub contains_dot : String → Bool
contains_dot String.[] = false
contains_dot (String.◌∷◌ c s) = code c == b'.' || contains_dot s

-- `rsplit('.').next()`: what follows the last dot.
unfoldable pub unqualified : String → String
unfolding contains_dot
unqualified String.[] = String.[]
unqualified (String.◌∷◌ c s) =
    let rest = unqualified s in
    if contains_dot s then rest else if code c == b'.' then s else String.◌∷◌ c s

digit : ℕ → String
digit n =
    if n == 0
    then "0"
    else if n == 1
    then "1"
    else if n == 2
    then "2"
    else if n == 3
    then "3"
    else if n == 4
    then "4"
    else if n == 5
    then "5"
    else if n == 6
    then "6"
    else if n == 7
    then "7"
    else if n == 8
    then "8"
    else "9"

-- Each round divides by ten, so `suc n` rounds are enough for `n`.
decimal : ℕ → ℕ → String
unfolding digit
decimal zero n = ""
decimal (suc rounds) n =
    let rest = decimal rounds (n / 10) in if ltb n 10 then digit n else rest ++ digit (n % 10)

unfoldable pub display_nat : ℕ → String
unfolding decimal
display_nat n = decimal (suc n) n

unfoldable pub display_int : ℤ → String
unfolding display_nat
display_int (pos n) = display_nat n
display_int (negsuc n) = "-" ++ display_nat (suc n)

unfoldable pub display_operator : Operator → String
display_operator Operator.eq = "="
display_operator Operator.not_eq = "!="
display_operator Operator.lt = "<"
display_operator Operator.lt_eq = "<="
display_operator Operator.gt = ">"
display_operator Operator.gt_eq = ">="
display_operator Operator.and = "AND"
display_operator Operator.or = "OR"
display_operator Operator.add = "+"
display_operator Operator.subtract = "-"
display_operator Operator.multiply = "*"
display_operator Operator.divide = "/"

-- `function.to_string().to_uppercase()`
unfoldable pub upper_function : AggregateFunction → String
upper_function AggregateFunction.count = "COUNT"
upper_function AggregateFunction.sum = "SUM"
upper_function AggregateFunction.sum_uint64 = "SUMUINT64"
upper_function AggregateFunction.min = "MIN"
upper_function AggregateFunction.max = "MAX"
upper_function AggregateFunction.avg = "AVG"

module _ (formats : Formats) where
  unfoldable pub display_scalar : ScalarValue → String
  unfolding display_int display_nat
  display_scalar ScalarValue.null = "NULL"
  display_scalar (ScalarValue.boolean b) = if b then "true" else "false"
  display_scalar (ScalarValue.int64 i) = display_int i
  display_scalar (ScalarValue.uint64 n) = display_nat n
  display_scalar (ScalarValue.float64 bits) = formats.display_f64 bits
  display_scalar (ScalarValue.utf8 s) = "'" ++ s ++ "'"

  unfoldable pub display : Expr → String
  unfolding display_scalar display_operator upper_function
  display (Expr.column name) = "#" ++ name
  display (Expr.literal value) = display_scalar value
  display (Expr.binary left op right) =
      "(" ++ display left ++ " " ++ display_operator op ++ " " ++ display right ++ ")"
  display (Expr.is_null e negated) =
      "(" ++ display e ++ " IS " ++ (if negated then "NOT " else "") ++ "NULL)"
  display (Expr.cast e data_type) =
      "CAST(" ++ display e ++ " AS " ++ formats.display_type data_type ++ ")"
  display (Expr.alias e name) = display e ++ " AS " ++ name
  display (Expr.aggregate function e distinct) =
      upper_function function ++ "(" ++ (if distinct then "DISTINCT " else "") ++ display e ++ ")"
  display Expr.wildcard = "*"

  unfoldable pub name : Expr → String
  unfolding unqualified display
  name (Expr.column n) = unqualified n
  name (Expr.literal value) = display_scalar value
  name (Expr.alias _ n) = n
  name (Expr.aggregate function e _) = upper_function function ++ "(" ++ display e ++ ")"
  name Expr.wildcard = "*"
  name e = display e

-- The set of the columns that an expression reads, in order.
unfoldable pub collect_columns : Expr → BTreeMap String (Unit {0}) → BTreeMap String (Unit {0})
unfolding unqualified insert
collect_columns (Expr.column n) columns = insert (unqualified n) tt columns
collect_columns (Expr.binary left _ right) columns =
    collect_columns right (collect_columns left columns)
collect_columns (Expr.is_null e _) columns = collect_columns e columns
collect_columns (Expr.cast e _) columns = collect_columns e columns
collect_columns (Expr.alias e _) columns = collect_columns e columns
collect_columns (Expr.aggregate _ e _) columns = collect_columns e columns
collect_columns _ columns = columns
