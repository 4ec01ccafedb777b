-- ===== src/Checker/Clean/Operators.antt =====
-- typecheck.cpp: operators and literals in programs in which a poisoned node is reported.
use janguage.Base.{◌≡◌, ◌≢◌, Bool, ℕ, ℤ, Option, none, some, ok, Bytes, length}
use janguage.Token.{TokenType}
use janguage.Ast.{LiteralValue, uint64, float, double, bool, string}
use janguage.Types.{unsigned_integer}
use janguage.Typecheck.Casts.{is_size}
use janguage.Typecheck.Operators.{
  Category, arithmetic, bitwise_operation, comparison, short_circuit_boolean, assignment,
}
use janguage.Nodes.{Address, at, NodePointer, Node}
use janguage.Checker.{
  Error, State, poison, voyd, i64, u64, f32, f64, boolean, type, string_literal, allocate, guard,
  ◌>>=◌,
}
use janguage.Checker.Casts.{Field, lhs, rhs, set_inferred_type}
use janguage.Checker.Operators.{
  operand_types, report_operands, require_cast, check_bitwise, check_short_circuit, check_category,
  check_operands, check_literal,
}
use janguage.Checker.Along.{bind-eq-ok}
use janguage.Checker.Clean.{
  PlainNode, Soundly, Sounding, Sounding-allocate, Sounding-bind, Sounding-set_inferred_type,
  sound_rules,
}
use janguage.Checker.Clean.Casts.{Sounding-report, Sounding-report_types, Sounding-spread_poison}
use janguage.Checker.Clean.Coerce.{Sounding-coerce_types, coerce_rules}
use janguage.Checker.Clean.Blames.{Sounding-coerced}

-- The other builtin types are not the poison type.
pub voyd-ne-poison : voyd ≢ poison
voyd-ne-poison e = cc e

pub i64-ne-poison : i64 ≢ poison
i64-ne-poison e = cc e

pub u64-ne-poison : u64 ≢ poison
u64-ne-poison e = cc e

pub f32-ne-poison : f32 ≢ poison
f32-ne-poison e = cc e

pub f64-ne-poison : f64 ≢ poison
f64-ne-poison e = cc e

pub boolean-ne-poison : boolean ≢ poison
boolean-ne-poison e = cc e

pub type-ne-poison : type ≢ poison
type-ne-poison e = cc e

pub string_literal-ne-poison : string_literal ≢ poison
string_literal-ne-poison e = cc e

pub ruleset builtin_rules = (
  coerce_rules, Sounding-report, Sounding-set_inferred_type, voyd-ne-poison, i64-ne-poison,
  u64-ne-poison, f32-ne-poison, f64-ne-poison, boolean-ne-poison, type-ne-poison,
  string_literal-ne-poison,
)

allocate-fine : (x : Node) (s s' : State) (t : Address) → allocate x s ≡ ok (t, s') → t ≢ poison
unfolding allocate
allocate-fine x s s' t e p = let q : t ≡ at (length s.pool) = cc e in cc (p, q)

Sounding-operand_types : (a : Address) → Sounding (operand_types a)
unfolding operand_types
Sounding-operand_types a = search builtin_rules depth 30

Sounding-report_operands :
    (a : Address) (poisons : Bool) (kind : Bytes → Bytes → Error)
    → Sounding (report_operands a poisons kind)
unfolding report_operands
Sounding-report_operands a poisons kind = search (builtin_rules, Sounding-operand_types) depth 30

Sounding-require_cast :
    (f : Field) (a : Address) (type : NodePointer) → Sounding (require_cast f a type)
unfolding require_cast
Sounding-require_cast f a type = search builtin_rules depth 30

ruleset operator_rules = (
  builtin_rules, Sounding-operand_types, Sounding-report_operands, Sounding-require_cast,
  Sounding-coerce_types,
)

-- The type that is made for a bitwise operation.
Sounding-sized :
    (a : Address) (size : ℤ)
    → Sounding (
        allocate (Node.basic_type unsigned_integer size) >>= λ type.
        set_inferred_type a type >>= λ _.
        require_cast lhs a (some type) >>= λ _. require_cast rhs a (some type))
Sounding-sized a size = record {
  from = λ s b s' run x.
      let x_type = Node.basic_type unsigned_integer size in
      let rest = λ (type : Address). set_inferred_type a type >>= λ _.
      require_cast lhs a (some type) >>= λ _. require_cast rhs a (some type) in
      let (t, s1, e1, k1) = bind-eq-ok (allocate x_type) rest s b s' run in
      (set_and_cast t (allocate-fine x_type s s1 t e1)).from s1 b s' k1
        ((Sounding-allocate x_type tt (λ e. cc e)).from s t s1 e1 x);
}
  where
    set_and_cast :
        (t : Address)
        → t ≢ poison
        → Sounding (
            set_inferred_type a t >>= λ _.
            require_cast lhs a (some t) >>= λ _. require_cast rhs a (some t))
    set_and_cast t h = search operator_rules depth 30

Sounding-check_bitwise : (a : Address) (size : Option ℤ) → Sounding (check_bitwise a size)
unfolding check_bitwise
Sounding-check_bitwise a none = search operator_rules depth 30
Sounding-check_bitwise a (some size) =
    Sounding-bind (guard (is_size size)) _ (search sound_rules) (λ _. Sounding-sized a size)

Sounding-check_short_circuit :
    (a : Address) (size : Option ℤ) → Sounding (check_short_circuit a size)
unfolding check_short_circuit
Sounding-check_short_circuit a none = search operator_rules depth 30
Sounding-check_short_circuit a (some size) = search operator_rules depth 30

ruleset category_rules = (operator_rules, Sounding-check_bitwise, Sounding-check_short_circuit)

Sounding-check_category : (c : Category) (a : Address) → Sounding (check_category c a)
unfolding check_category
Sounding-check_category arithmetic a = Sounding-coerced a
Sounding-check_category bitwise_operation a = search category_rules depth 30
Sounding-check_category comparison a = search category_rules depth 30
Sounding-check_category short_circuit_boolean a = search category_rules depth 30
Sounding-check_category assignment a = search category_rules depth 30

pub Sounding-check_operands : (kind : TokenType) (a : Address) → Sounding (check_operands kind a)
unfolding check_operands
Sounding-check_operands kind a = search (operator_rules, Sounding-check_category) depth 30

pub Sounding-check_literal :
    (a : Address) (value : LiteralValue) (suffix : ℕ) → Sounding (check_literal a value suffix)
unfolding check_literal
Sounding-check_literal a (uint64 _) suffix = search builtin_rules depth 30
Sounding-check_literal a (float _) suffix = search builtin_rules depth 30
Sounding-check_literal a (double _) suffix = search builtin_rules depth 30
Sounding-check_literal a (bool _) suffix = search builtin_rules depth 30
Sounding-check_literal a (string _) suffix = search builtin_rules depth 30
