-- ===== src/Parser/Values.antt =====
-- measureValueDepth (parse.go).
pub mod Height
use gql_firewall.Base.{ℕ, suc, ◌+◌, max, ◌≡◌, ltb, if◌then◌else◌, arith}
use gql_firewall.Parser.Ast.{
  Value, value, OptValue, absent, present, Children, nil, cons, VariableRef, no_ref, ref,
}

-- `if b > a { a = b }`
unfoldable pub worst : ℕ → ℕ → ℕ
worst a b = if ltb a b then b else a

pub worst-max : (a b : ℕ) → worst a b ≡ max a b
unfolding worst
worst-max a b = ground arith

unfoldable mutual
  pub measure_value : Value → ℕ → ℕ
  measure_value (value children definition) depth =
      measure_ref definition depth (measure_children children depth depth)

  -- `measureValueDepth`; a nil value counts for nothing below `depth`.
  pub measure_value_depth : OptValue → ℕ → ℕ
  measure_value_depth absent depth = depth
  measure_value_depth (present v) depth = measure_value v depth

  -- The loop over `v.Children`, which skips nil values.
  pub measure_children : Children → ℕ → ℕ → ℕ
  measure_children nil depth deepest = deepest
  measure_children (cons absent rest) depth deepest = measure_children rest depth deepest
  measure_children (cons (present v) rest) depth deepest =
      measure_children rest depth (worst deepest (measure_value v (depth + 1)))

  pub measure_ref : VariableRef → ℕ → ℕ → ℕ
  measure_ref no_ref depth deepest = deepest
  measure_ref (ref absent) depth deepest = deepest
  measure_ref (ref (present v)) depth deepest = worst deepest (measure_value v (depth + 1))
