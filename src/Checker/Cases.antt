-- ===== src/Checker/Cases.antt =====
-- typecheck.cpp: every case of the type checker extends the state, where the calls for the nodes below
-- do.
use janguage.Base.{Bool, Option, none, some, ℤ, Bytes, ℕ}
use janguage.Token.{TokenType}
use janguage.Ast.{LiteralValue, uint64}
use janguage.Typecheck.Operators.{Category, arithmetic}
use janguage.Types.{Kind}
use janguage.Nodes.{Address, NodePointer}
use janguage.Checker.{Error, Check}
use janguage.Checker.Casts.{
  Field, put_cast, refuse_cast, make_type_cast, cast_or_report, do_implicit_cast_if_necessary,
  cast_field, read_field, coerce_operands, coerce_kinds, coerce_pair, coerce_types,
}
use janguage.Checker.Operators.{
  operand_types, report_operands, require_cast, check_bitwise, check_short_circuit, check_category,
  check_operands, check_literal,
}
use janguage.Checker.Rules.{Extending}
use janguage.Checker.Sets.{set_and_report_rules}
use janguage.Checker.Stores.{Extending-cast_field}

pub Extending-make_type_cast : (t a : Address) → Extending (make_type_cast t a)
unfolding make_type_cast
Extending-make_type_cast t a = search set_and_report_rules depth 30

pub ruleset cast_rules = (set_and_report_rules, Extending-make_type_cast)

Extending-do_implicit_cast :
    (a : Address) (type : NodePointer) → Extending (do_implicit_cast_if_necessary a type)
unfolding do_implicit_cast_if_necessary cast_or_report put_cast refuse_cast
Extending-do_implicit_cast a type = search cast_rules depth 30

pub Extending-put_field :
    (f : Field) (a : Address) (type : NodePointer) → Extending (cast_field f a type)
Extending-put_field f a type =
    Extending-cast_field f a type (λ e. Extending-do_implicit_cast e type)

pub Extending-read_field : (f : Field) (a : Address) → Extending (read_field f a)
unfolding read_field
Extending-read_field f a = search set_and_report_rules depth 30

pub ruleset field_rules = (set_and_report_rules, Extending-put_field, Extending-read_field)

Extending-coerce_operands : (a : Address) (type : NodePointer) → Extending (coerce_operands a type)
unfolding coerce_operands
Extending-coerce_operands a type = search field_rules depth 30

Extending-coerce_kinds :
    (a : Address) (l r : Kind × ℤ) (refuse : Check Address)
    → Extending refuse
    → Extending (coerce_kinds a l r refuse)
unfolding coerce_kinds
Extending-coerce_kinds a (k, n) (k', n') refuse h =
    search (field_rules, Extending-coerce_operands) depth 30

Extending-coerce_pair :
    (a : Address) (l r : Option (Kind × ℤ)) (refuse : Check Address)
    → Extending refuse
    → Extending (coerce_pair a l r refuse)
unfolding coerce_pair
Extending-coerce_pair a (some l) (some r) refuse h = Extending-coerce_kinds a l r refuse h
Extending-coerce_pair a none r refuse h = h
Extending-coerce_pair a (some l) none refuse h = h

Extending-coerce_types : (a : Address) → Extending (coerce_types a)
unfolding coerce_types
Extending-coerce_types a = search (field_rules, Extending-coerce_pair) depth 30

Extending-operand_types : (a : Address) → Extending (operand_types a)
unfolding operand_types
Extending-operand_types a = search field_rules depth 30

Extending-report_operands :
    (a : Address) (poisons : Bool) (kind : Bytes → Bytes → Error)
    → Extending (report_operands a poisons kind)
unfolding report_operands
Extending-report_operands a poisons kind = search (field_rules, Extending-operand_types) depth 30

Extending-require_cast :
    (f : Field) (a : Address) (type : NodePointer) → Extending (require_cast f a type)
unfolding require_cast
Extending-require_cast f a type = search field_rules depth 30

ruleset operator_rules = (
  field_rules, Extending-coerce_types, Extending-operand_types, Extending-report_operands,
  Extending-require_cast,
)

Extending-check_bitwise : (a : Address) (size : Option ℤ) → Extending (check_bitwise a size)
unfolding check_bitwise
Extending-check_bitwise a none = search operator_rules depth 30
Extending-check_bitwise a (some size) = search operator_rules depth 30

Extending-check_short_circuit :
    (a : Address) (size : Option ℤ) → Extending (check_short_circuit a size)
unfolding check_short_circuit
Extending-check_short_circuit a none = search operator_rules depth 30
Extending-check_short_circuit a (some size) = search operator_rules depth 30

ruleset category_rules = (operator_rules, Extending-check_bitwise, Extending-check_short_circuit)

Extending-check_category : (c : Category) (a : Address) → Extending (check_category c a)
unfolding check_category
Extending-check_category arithmetic a = search category_rules depth 30
Extending-check_category _ a = search category_rules depth 30

pub Extending-check_operands : (kind : TokenType) (a : Address) → Extending (check_operands kind a)
unfolding check_operands
Extending-check_operands kind a = search (operator_rules, Extending-check_category) depth 30

pub Extending-check_literal :
    (a : Address) (value : LiteralValue) (suffix : ℕ) → Extending (check_literal a value suffix)
unfolding check_literal
Extending-check_literal a (uint64 _) suffix = search set_and_report_rules depth 30
Extending-check_literal a _ suffix = search set_and_report_rules depth 30
