-- ===== src/Examples/Typing.antt =====
-- node.cpp and typecheck.cpp at operators and types of small programs.
use janguage.Base.{
  ◌≡◌, ◌↔◌, inr, refl, Bool, true, false, [], codes, Bytes, ok, abort, null_pointer, none, some,
  pos, negsuc, Option,
}
use janguage.Token.{plus, less_than}
use janguage.Types.{
  TypeNode, basic, pointer, array, signature, end, typed, integer, voyd, signed_integer,
  types_equal, lengths_equal, type_to_string, arguments_size, basic_name,
}
use janguage.Types.Equal.{comparable, anonymous, types_equal_iff}
use janguage.Types.Names.{type_to_string-types_equal}
use janguage.Typecheck.Operators.{comparison, bin_op_category}
use janguage.Typecheck.Casts.{Operand, BinOp, poison_type, do_implicit_cast_if_necessary}
use janguage.Typecheck.Coerce.{coerce_types}
use janguage.Typecheck.Check.{check_binary_operator}
use janguage.Typecheck.Values.{
  boolean, int, uint, single, double, one, two, four, type_of, widens, boolean_before_wide,
}
use janguage.Typecheck.Join.{
  operation, widened, IsRefused, coerce_types-least, coerce_types-refuses,
  coerce_types-null_pointer,
}
use janguage.Typecheck.Verdict.{IsChecked, check_binary_operator-IsChecked}
use janguage.Typecheck.Poison.{
  IsCast, check_binary_operator-poison, do_implicit_cast_if_necessary-IsCast,
}

-- The type `proc(i32) [4]*void` of a procedure, with two names for its argument.
abbrev procedure : Bytes → TypeNode
procedure name =
    signature (typed name (basic signed_integer (pos 4)) end) false
      (array (integer 4) (pointer (basic voyd (negsuc 0))))

procedure-comparable : (name : Bytes) → comparable (procedure name) ≡ true
unfolding comparable
procedure-comparable name = refl

procedures_run : types_equal (procedure (codes "a")) (procedure (codes "b")) ≡ ok true
unfolding types_equal arguments_size lengths_equal
procedures_run = refl

types_equal_iff_example :
    (same : Bool) × (types_equal (procedure (codes "a")) (procedure (codes "b")) ≡ ok same)
    × ((same ≡ true) ↔ (anonymous (procedure (codes "a")) ≡ anonymous (procedure (codes "b"))))
types_equal_iff_example =
    types_equal_iff (procedure (codes "a")) (procedure (codes "b"))
      (procedure-comparable (codes "a")) (procedure-comparable (codes "b"))

type_to_string-types_equal_example :
    type_to_string (procedure (codes "a")) ≡ type_to_string (procedure (codes "b"))
type_to_string-types_equal_example =
    type_to_string-types_equal (procedure (codes "a")) (procedure (codes "b"))
      (procedure-comparable (codes "a")) (procedure-comparable (codes "b")) procedures_run

coerce_types-least_example :
    (coerce_types (operation plus [] [] none [] (int two) single)
      ≡ ok (
        type_of single,
        record (operation plus [] [] none [] (int two) single) {
          lhs = widened (int two) single [];
          rhs = widened single single [];
        },
      ))
    × (widens (int two) single ≡ true)
    × (widens single single ≡ true)
    × (widens single double ≡ true)
coerce_types-least_example =
    coerce_types-least plus [] [] none [] (int two) single double refl refl refl

coerce_types-refuses_example :
    IsRefused plus [] [] none []
      (int four)
      (uint four)
      (coerce_types (operation plus [] [] none [] (int four) (uint four)))
coerce_types-refuses_example =
    coerce_types-refuses plus [] [] none [] (int four) (uint four) refl refl refl

coerce_types-null_pointer_example :
    (coerce_types (operation less_than [] [] none [] boolean (int four)) ≡ abort null_pointer)
    ↔ (boolean_before_wide boolean (int four) ≡ true)
coerce_types-null_pointer_example = coerce_types-null_pointer less_than [] [] [] boolean (int four)

less_than_run : bin_op_category less_than ≡ ok comparison
unfolding bin_op_category
less_than_run = refl

check_binary_operator-IsChecked_example :
    IsChecked comparison
      (uint one)
      double
      []
      (check_binary_operator (operation less_than [] [] none [] (uint one) double))
check_binary_operator-IsChecked_example =
    check_binary_operator-IsChecked less_than [] [] [] comparison (uint one) double less_than_run
      refl

abbrev poisoned : Option TypeNode → BinOp
poisoned inferred = record {
  operator_kind = plus;
  lhs = record { inferred = type_of (int four); casts = [] };
  rhs = record { inferred = poison_type; casts = [] };
  inferred = inferred;
  errors = [];
}

check_binary_operator-poison_example :
    check_binary_operator (poisoned none) ≡ ok (poisoned (some poison_type))
check_binary_operator-poison_example = check_binary_operator-poison (poisoned none) refl (inr refl)

abbrev i8_operand : Operand
i8_operand = record { inferred = type_of (int one); casts = [] }

i8_is_comparable : comparable (type_of (int one)) ≡ true
unfolding comparable
i8_is_comparable = refl

f64_is_comparable : comparable (type_of double) ≡ true
unfolding comparable
f64_is_comparable = refl

i8_name : type_to_string (type_of (int one)) ≡ ok (codes "i8")
unfolding type_to_string basic_name
i8_name = refl

f64_name : type_to_string (type_of double) ≡ ok (codes "f64")
unfolding type_to_string basic_name
f64_name = refl

f64_not_poison : types_equal (type_of double) poison_type ≡ ok false
unfolding types_equal
f64_not_poison = refl

do_implicit_cast_if_necessary-IsCast_example :
    IsCast i8_operand
      (type_of double)
      []
      (do_implicit_cast_if_necessary i8_operand (some (type_of double)) [])
do_implicit_cast_if_necessary-IsCast_example =
    do_implicit_cast_if_necessary-IsCast i8_operand (type_of double) [] (codes "i8") (codes "f64")
      i8_is_comparable f64_is_comparable i8_name f64_name f64_not_poison
