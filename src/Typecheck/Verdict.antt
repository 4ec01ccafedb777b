-- ===== src/Typecheck/Verdict.antt =====
-- typecheck.cpp: the verdict on an operator whose operands have builtin value types.
use janguage.Base.{
  ◌≡◌, ◌↔◌, Bool, true, false, List, length, length-append, ◌&&◌, if◌then◌else◌, none, some, refl,
  Outcome, ok, abort, arith, ◌>>=◌,
}
use janguage.Token.{TokenType}
use janguage.Types.{TypeNode, types_equal, type_to_string, basic_name}
use janguage.Typecheck.Operators.{
  Category, arithmetic, bitwise_operation, comparison, short_circuit_boolean, assignment,
  bin_op_category,
}
use janguage.Typecheck.Casts.{
  Error, BinOp, poison_type, boolean_type, voyd_type, find_builtin, set_inferred_type, report,
  do_implicit_cast_if_necessary, spread_poison,
}
use janguage.Typecheck.Coerce.{coerce_types, coerce_basic, coerce_to}
use janguage.Typecheck.Check.{check_bitwise, check_category, check_binary_operator}
use janguage.Typecheck.Values.{
  Value, boolean, uint, type_of, join, has_join, boolean_before_wide, is_number,
}
use janguage.Typecheck.Join.{operation}

-- Whether the language admits an operator of a category on two types.
abbrev pub admits : Category → Value → Value → Bool
admits arithmetic a b = has_join a b
admits comparison a b = has_join a b
admits bitwise_operation (uint _) (uint _) = true
admits short_circuit_boolean boolean boolean = true
admits assignment boolean boolean = true
admits assignment a b = is_number a && is_number b
admits _ _ _ = false

-- The type of an operator's result.
abbrev pub result_type : Category → Value → Value → TypeNode
result_type arithmetic a b = if has_join a b then type_of (join a b) else poison_type
result_type bitwise_operation (uint w) (uint w') = type_of (join (uint w) (uint w'))
result_type bitwise_operation _ _ = poison_type
result_type comparison _ _ = boolean_type
result_type short_circuit_boolean _ _ = boolean_type
result_type assignment _ _ = voyd_type

-- Whether the operator's check coerces its operands.
abbrev pub coerces : Category → Bool
coerces arithmetic = true
coerces comparison = true
coerces _ = false

-- A checked operator: its result type is set, and it has brought errors exactly if the language
-- does not admit it.
abbrev pub IsChecked : Category → Value → Value → List Error → Outcome BinOp → Type 0
IsChecked c a b errors (ok node) =
    (node.inferred ≡ some (result_type c a b))
    × ((length node.errors ≡ length errors) ↔ (admits c a b ≡ true))
IsChecked c a b errors (abort _) = ⊥

-- No builtin value type is the poison type.
value_not_poison : (a : Value) → types_equal (type_of a) poison_type ≡ ok false
unfolding types_equal
value_not_poison Value.boolean = refl
value_not_poison _ = refl

module _ (op : TokenType) (left right : List TypeNode) (errors : List Error) where
  check_category-IsChecked :
      (c : Category) (a b : Value)
      → (coerces c && boolean_before_wide a b) ≡ false
      → IsChecked c a b errors (check_category c (operation op left right none errors a b))
  unfolding check_category check_bitwise operation coerce_types coerce_basic coerce_to find_builtin
      do_implicit_cast_if_necessary types_equal type_to_string spread_poison report
      set_inferred_type basic_name
  check_category-IsChecked arithmetic _ _ h = grind (arith, length-append)
  check_category-IsChecked bitwise_operation _ _ h = grind (arith, length-append)
  check_category-IsChecked comparison _ _ h = grind (arith, length-append)
  check_category-IsChecked short_circuit_boolean _ _ h = grind (arith, length-append)
  check_category-IsChecked assignment _ _ h = grind (arith, length-append)

  check_binary_operator-eq :
      (a b : Value)
      → check_binary_operator (operation op left right none errors a b)
        ≡ (bin_op_category op >>= λ c. check_category c (operation op left right none errors a b))
  unfolding check_binary_operator operation spread_poison
  check_binary_operator-eq a b = rw (value_not_poison a, value_not_poison b)

  -- On a fresh operator of any category, on operands of any builtin value types, the check returns,
  -- sets the result type that the language gives the operator, and reports errors exactly if the
  -- language does not admit the operator on these types, `&&` and `||` on any but two booleans; except that an arithmetic operator or a
  -- comparison must not have a boolean on the left of an integer wider than a byte.
  pub check_binary_operator-IsChecked :
      (c : Category) (a b : Value)
      → bin_op_category op ≡ ok c
      → (coerces c && boolean_before_wide a b) ≡ false
      → IsChecked c a b errors (check_binary_operator (operation op left right none errors a b))
  check_binary_operator-IsChecked c a b e h =
      rw (check_binary_operator-eq a b, e) (check_category-IsChecked c a b h)
