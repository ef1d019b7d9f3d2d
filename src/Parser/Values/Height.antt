-- ===== src/Parser/Values/Height.antt =====
-- What measureValueDepth (parse.go) measures: the height of the value as a tree.
use gql_firewall.Base.{ℕ, suc, ◌+◌, ◌≤◌, max, ◌≡◌, arith}
use gql_firewall.Parser.Ast.{
  Value, value, OptValue, absent, present, Children, nil, cons, VariableRef, no_ref, ref,
}
use gql_firewall.Parser.Values.{
  worst, worst-max, measure_value, measure_value_depth, measure_children, measure_ref,
}

-- The height of a value: a scalar has height 0, and each level of lists, objects or variable
-- defaults adds one.
unfoldable mutual
  pub height : Value → ℕ
  height (value children definition) = max (height_children children) (height_ref definition)

  pub height_opt : OptValue → ℕ
  height_opt absent = 0
  height_opt (present v) = suc (height v)

  pub height_children : Children → ℕ
  height_children nil = 0
  height_children (cons v rest) = max (height_opt v) (height_children rest)

  pub height_ref : VariableRef → ℕ
  height_ref no_ref = 0
  height_ref (ref v) = height_opt v

mutual
  unfolding measure_value height

  measure_value-height : (v : Value) (d : ℕ) → measure_value v d ≡ d + height v
  measure_value-height (value cs r) d =
      omega
        (arith, measure_children-height cs d d, measure_ref-height r d (measure_children cs d d))

  measure_children-height :
      (cs : Children) (d m : ℕ) → d ≤ m → measure_children cs d m ≡ max m (d + height_children cs)
  measure_children-height nil d m h = omega arith
  measure_children-height (cons absent rest) d m h = omega (arith, measure_children-height rest d m)
  measure_children-height (cons (present v) rest) d m h = omega (
    arith,
    measure_value-height v (d + 1),
    worst-max m (measure_value v (d + 1)),
    measure_children-height rest d (worst m (measure_value v (d + 1))),
  )

  measure_ref-height :
      (r : VariableRef) (d m : ℕ) → d ≤ m → measure_ref r d m ≡ max m (d + height_ref r)
  measure_ref-height no_ref d m h = omega arith
  measure_ref-height (ref absent) d m h = omega arith
  measure_ref-height (ref (present v)) d m h =
      omega (arith, measure_value-height v (d + 1), worst-max m (measure_value v (d + 1)))

-- Measuring a value from depth `d` gives `d` plus the height of the value, which counts nested
-- lists, objects and variable defaults, and takes a nil child for nothing.
pub measure_value_depth-height :
    (v : Value) (d : ℕ) → measure_value_depth (present v) d ≡ d + height v
unfolding measure_value
measure_value_depth-height v d = measure_value-height v d
