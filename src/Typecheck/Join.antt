-- ===== src/Typecheck/Join.antt =====
-- typecheck.cpp: what `coerce_types` does to operands of builtin value types.
use janguage.Base.{
  ◌≡◌, ◌↔◌, true, false, List, ◌∷◌, length, length-append, ◌+◌, if◌then◌else◌, Option, none,
  Outcome, ok, abort, null_pointer, arith,
}
use janguage.Token.{TokenType}
use janguage.Types.{TypeNode, types_equal, type_to_string, basic_name}
use janguage.Typecheck.Casts.{
  Error, Operand, BinOp, poison_type, find_builtin, set_inferred_type, report,
  do_implicit_cast_if_necessary, spread_poison,
}
use janguage.Typecheck.Coerce.{coerce_types, coerce_basic, coerce_to}
use janguage.Typecheck.Values.{
  Value, type_of, join, has_join, widens, is_mixed, boolean_before_wide, join-least,
}

-- An operand of a type, under a cast to another type if the two differ.
unfoldable pub widened : Value → Value → List TypeNode → Operand
widened a c casts = record {
  inferred = type_of c;
  casts = (if widens c a then casts else type_of c ∷ casts);
}

-- An operator's node whose operands have builtin value types.
unfoldable pub operation :
    TokenType → List TypeNode → List TypeNode → Option TypeNode → List Error → Value → Value → BinOp
operation op left right inferred errors a b = record {
  operator_kind = op;
  lhs = record { inferred = type_of a; casts = left };
  rhs = record { inferred = type_of b; casts = right };
  inferred = inferred;
  errors = errors;
}

module _ (op : TokenType) (left right : List TypeNode) (inferred : Option TypeNode)
    (errors : List Error) where
  coerce_types-joined :
      (a b : Value)
      → has_join a b ≡ true
      → coerce_types (operation op left right inferred errors a b)
        ≡ ok (
          type_of (join a b),
          record (operation op left right inferred errors a b) {
            lhs = widened a (join a b) left;
            rhs = widened b (join a b) right;
          },
        )
  unfolding widened operation coerce_types coerce_basic coerce_to find_builtin
      do_implicit_cast_if_necessary types_equal type_to_string spread_poison report
      set_inferred_type
  coerce_types-joined _ _ h = ground arith

  -- If two operand types, which are no integers of different signedness, widen to a common type,
  -- then `coerce_types` returns the least such type, casts to it exactly the operands of another
  -- type, and changes nothing else in the operator's node.
  pub coerce_types-least :
      (a b c : Value)
      → is_mixed a b ≡ false
      → widens a c ≡ true
      → widens b c ≡ true
      → (coerce_types (operation op left right inferred errors a b)
          ≡ ok (
            type_of (join a b),
            record (operation op left right inferred errors a b) {
              lhs = widened a (join a b) left;
              rhs = widened b (join a b) right;
            },
          ))
        × (widens a (join a b) ≡ true)
        × (widens b (join a b) ≡ true)
        × (widens (join a b) c ≡ true)
  coerce_types-least a b c m h h' =
      let (joined, least) = join-least a b c m h h' in
      (coerce_types-joined a b joined, ground arith, ground arith, least)

  -- The result of a refused coercion: the poison type, one error more, and the operands as they
  -- were.
  abbrev pub IsRefused : Value → Value → Outcome (TypeNode × BinOp) → Type 0
  IsRefused a b (ok (type, node)) =
      (type ≡ poison_type)
      × (length node.errors ≡ length errors + 1)
      × (node.lhs ≡ record { inferred = type_of a; casts = left })
      × (node.rhs ≡ record { inferred = type_of b; casts = right })
  IsRefused a b (abort _) = ⊥

  -- On a fresh operator whose operands have no common type, and are not a boolean on the left of an
  -- integer wider than a byte, `coerce_types` returns the poison type, adds one error, and leaves
  -- the operands as they were.
  pub coerce_types-refuses :
      (a b : Value)
      → inferred ≡ none
      → has_join a b ≡ false
      → boolean_before_wide a b ≡ false
      → IsRefused a b (coerce_types (operation op left right inferred errors a b))
  unfolding operation coerce_types coerce_basic coerce_to find_builtin do_implicit_cast_if_necessary
      types_equal type_to_string spread_poison report set_inferred_type basic_name
  coerce_types-refuses _ _ i h n = grind (arith, length-append)

-- On a fresh operator whose operands have builtin value types, `coerce_types` passes a null pointer
-- on exactly if the left operand is a boolean and the right one an integer wider than a byte.
pub coerce_types-null_pointer :
    (op : TokenType) (left right : List TypeNode) (errors : List Error) (a b : Value)
    → (coerce_types (operation op left right none errors a b) ≡ abort null_pointer)
      ↔ (boolean_before_wide a b ≡ true)
unfolding operation coerce_types coerce_basic coerce_to find_builtin do_implicit_cast_if_necessary
    types_equal type_to_string spread_poison report set_inferred_type basic_name
coerce_types-null_pointer op left right errors _ _ = ground arith
