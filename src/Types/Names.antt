-- ===== src/Types/Names.antt =====
-- node.cpp: `type_to_string` gives equal types the same name.
use janguage.Base.{◌≡◌, refl, sym, ap, ◌∙◌, true, ok}
use janguage.Types.{
  TypeNode, basic, pointer, array, signature, struct_type, nop, Arguments, end, typed, untyped,
  types_equal, type_to_string, arguments_to_string,
}
use janguage.Types.Equal.{comparable, anonymous, arguments_anonymous, types_equal_iff}

mutual
  unfolding type_to_string anonymous

  type_to_string-anonymous : (t : TypeNode) → type_to_string (anonymous t) ≡ type_to_string t
  type_to_string-anonymous (basic k s) = refl
  type_to_string-anonymous (pointer t) = rw (type_to_string-anonymous t)
  type_to_string-anonymous (array n t) = rw (type_to_string-anonymous t)
  type_to_string-anonymous (signature args v r) =
      rw (arguments_to_string-anonymous args, type_to_string-anonymous r)
  type_to_string-anonymous struct_type = refl
  type_to_string-anonymous nop = refl

  arguments_to_string-anonymous :
      (args : Arguments) → arguments_to_string (arguments_anonymous args) ≡ arguments_to_string args
  arguments_to_string-anonymous end = refl
  arguments_to_string-anonymous (untyped x args) = refl
  arguments_to_string-anonymous (typed x t end) = type_to_string-anonymous t
  arguments_to_string-anonymous (typed x t (typed y u args)) =
      rw (type_to_string-anonymous t, arguments_to_string-anonymous (typed y u args))
  arguments_to_string-anonymous (typed x t (untyped y args)) = rw (type_to_string-anonymous t)

-- Comparable types that `types_equal` takes for equal have the same string.
pub type_to_string-types_equal :
    (a b : TypeNode)
    → comparable a ≡ true
    → comparable b ≡ true
    → types_equal a b ≡ ok true
    → type_to_string a ≡ type_to_string b
type_to_string-types_equal a b h h' e =
    let (same, r, (same_anonymous, _)) = types_equal_iff a b h h' in
    sym (type_to_string-anonymous a)
    ∙ ap type_to_string (same_anonymous (cc (r, e)))
    ∙ type_to_string-anonymous b
