-- ===== src/Typecheck/Operators.antt =====
-- typecheck.cpp: the categories of binary operators.
use janguage.Base.{◌<◌, ◌≡◌, refl, ◌↔◌, Bool, true, false, Outcome, ok, abort, unreached, arith}
use janguage.Token.{
  TokenType, asterisk, slash, mod_, plus, minus, assign, bit_and, bit_or, bit_xor, left_shift,
  right_shift, equal, inequal, greater_than_or_equal, greater_than, less_than_or_equal, less_than,
  logical_and, logical_or, binary_operator_precedence,
}

-- `BinaryOperatorCategory`
pub data Category : Type 0 where
  arithmetic bitwise_operation comparison short_circuit_boolean assignment : Category

unfoldable pub bin_op_category : TokenType → Outcome Category
bin_op_category assign = ok assignment
bin_op_category asterisk = ok arithmetic
bin_op_category slash = ok arithmetic
bin_op_category mod_ = ok arithmetic
bin_op_category plus = ok arithmetic
bin_op_category minus = ok arithmetic
bin_op_category left_shift = ok bitwise_operation
bin_op_category right_shift = ok bitwise_operation
bin_op_category bit_and = ok bitwise_operation
bin_op_category bit_xor = ok bitwise_operation
bin_op_category bit_or = ok bitwise_operation
bin_op_category less_than = ok comparison
bin_op_category greater_than = ok comparison
bin_op_category less_than_or_equal = ok comparison
bin_op_category greater_than_or_equal = ok comparison
bin_op_category equal = ok comparison
bin_op_category inequal = ok comparison
bin_op_category logical_or = ok short_circuit_boolean
bin_op_category logical_and = ok short_circuit_boolean
bin_op_category _ = abort unreached

abbrev is_ok : Outcome Category → Bool
is_ok (ok _) = true
is_ok (abort _) = false

is_ok_iff : (o : Outcome Category) → (is_ok o ≡ true) ↔ ((c : Category) × (o ≡ ok c))
is_ok_iff (ok c) = (λ _. (c, refl), λ _. refl)
is_ok_iff (abort f) = (λ e. cc, λ (c, e). cc)

precedence_iff :
    (t : TokenType) → (0 < binary_operator_precedence t) ↔ (is_ok (bin_op_category t) ≡ true)
unfolding bin_op_category binary_operator_precedence
precedence_iff TokenType.none = ground arith
precedence_iff _ = ground arith

-- A token has a precedence greater than zero, so that the parser takes it for a binary operator,
-- exactly when the type checker has a category for it.
bin_op_category-precedence :
    (t : TokenType)
    → (0 < binary_operator_precedence t) ↔ ((c : Category) × (bin_op_category t ≡ ok c))
bin_op_category-precedence t =
    let (to, from) = precedence_iff t in
    let (to', from') = is_ok_iff (bin_op_category t) in (λ h. to' (to h), λ e. from (from' e))
