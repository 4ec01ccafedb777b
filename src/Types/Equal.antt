-- ===== src/Types/Equal.antt =====
-- node.cpp: `types_equal` decides whether two types differ at most in the names of arguments.
use janguage.Base.{
  ℕ, ◌+◌, ◌≡◌, refl, sym, ap, ◌∙◌, Bool, true, false, ◌&&◌, [], ◌↔◌, ◌==◌, ==_iff, if◌then◌else◌,
  int_eq_iff, Outcome, ok, abort, arith, ◌≢◌,
}
use janguage.Types.{
  Kind, kind_eq, integer, other_literal, expression, TypeNode, basic, pointer, array, signature,
  struct_type, nop, Arguments, end, typed, untyped, lengths_equal, and_then, arguments_size,
  types_equal, arguments_equal,
}

-- Types without array lengths that are no integer literals, without struct types, and whose
-- arguments have their types inferred.
unfoldable mutual
  pub comparable : TypeNode → Bool
  comparable (basic k s) = true
  comparable (pointer t) = comparable t
  comparable (array (integer n) t) = comparable t
  comparable (array other_literal t) = false
  comparable (array expression t) = false
  comparable (signature args v r) = arguments_comparable args && comparable r
  comparable struct_type = false
  comparable nop = true

  pub arguments_comparable : Arguments → Bool
  arguments_comparable end = true
  arguments_comparable (typed x t args) = comparable t && arguments_comparable args
  arguments_comparable (untyped x args) = false

-- The type without the names of arguments.
unfoldable mutual
  pub anonymous : TypeNode → TypeNode
  anonymous (basic k s) = basic k s
  anonymous (pointer t) = pointer (anonymous t)
  anonymous (array n t) = array n (anonymous t)
  anonymous (signature args v r) = signature (arguments_anonymous args) v (anonymous r)
  anonymous struct_type = struct_type
  anonymous nop = nop

  pub arguments_anonymous : Arguments → Arguments
  arguments_anonymous end = end
  arguments_anonymous (typed x t args) = typed [] (anonymous t) (arguments_anonymous args)
  arguments_anonymous (untyped x args) = untyped [] (arguments_anonymous args)

pub kind_eq_iff : (a b : Kind) → (kind_eq a b ≡ true) ↔ (a ≡ b)
kind_eq_iff Kind.unchecked Kind.unchecked = ground arith
kind_eq_iff _ _ = ground arith

-- The result of a comparison, which decides a statement.
abbrev Decides : Type 0 → Outcome Bool → Type 0
Decides P (ok b) = (b ≡ true) ↔ P
Decides P (abort _) = ⊥

Decides-iff : {P Q : Type 0} (o : Outcome Bool) → P ↔ Q → Decides P o → Decides Q o
Decides-iff (ok b) e d = (λ t. e.0 (d.0 t), λ q. d.1 (e.1 q))
Decides-iff (abort _) e d = d

Decides-false : {P : Type 0} → ¬ P → Decides P (ok false)
Decides-false n = (λ e. cc, λ p. absurd (n p))

Decides-and_then :
    (P Q : Type 0) (m k : Outcome Bool) → Decides P m → Decides Q k → Decides (P × Q) (and_then m k)
Decides-and_then P Q (ok true) (ok b) d e = (λ t. (d.0 refl, e.0 t), λ (p, q). e.1 q)
Decides-and_then P Q (ok false) (ok b) d e = (λ t. cc, λ (p, q). d.1 p)
Decides-and_then P Q (ok _) (abort _) d e = absurd e
Decides-and_then P Q (abort _) k d e = d

Decides-if :
    (P : Type 0) (b : Bool) (m : Outcome Bool)
    → (P → b ≡ true)
    → (b ≡ true → Decides P m)
    → Decides P (if b then m else ok false)
Decides-if P true m h d = d refl
Decides-if P false m h d = Decides-false (λ p. cc (h p))

array_iff :
    (m n : ℕ) (t u : TypeNode) → ((t ≡ u) × (m ≡ n)) ↔ (array (integer m) t ≡ array (integer n) u)
array_iff m n t u = (λ (e, f). rw (e, f), λ e. (ground arith, ground arith))

typed_iff :
    (t u : TypeNode) (args args' : Arguments)
    → ((t ≡ u) × (args ≡ args')) ↔ (typed [] t args ≡ typed [] u args')
typed_iff t u args args' = (λ (e, f). rw (e, f), λ e. (ground arith, ground arith))

signature_iff :
    (args args' : Arguments) (v : Bool) (r r' : TypeNode)
    → ((r ≡ r') × (args ≡ args')) ↔ (signature args v r ≡ signature args' v r')
signature_iff args args' v r r' = (λ (e, f). rw (e, f), λ e. (ground arith, ground arith))

pointer_iff : (t u : TypeNode) → (t ≡ u) ↔ (pointer t ≡ pointer u)
pointer_iff t u = (λ e. ap pointer e, λ e. ground arith)

size-anonymous :
    (args : Arguments) → arguments_size (arguments_anonymous args) ≡ arguments_size args
unfolding anonymous arguments_size
size-anonymous end = refl
size-anonymous (typed x t args) = ap (λ n. 1 + n) (size-anonymous args)
size-anonymous (untyped x args) = ap (λ n. 1 + n) (size-anonymous args)

same_size :
    (args args' : Arguments)
    → arguments_anonymous args ≡ arguments_anonymous args'
    → (arguments_size args == arguments_size args') ≡ true
same_size args args' e =
    (==_iff (arguments_size args) (arguments_size args')).1
      (sym (size-anonymous args) ∙ ap arguments_size e ∙ size-anonymous args')

module _ (args args' : Arguments) (r r' : TypeNode) where
  -- What `types_equal` does to two signatures that are both variadic or both not.
  signatures_equal : Outcome Bool
  signatures_equal =
      and_then (types_equal r r') (
        if arguments_size args == arguments_size args'
        then arguments_equal args args'
        else ok false)

  signatures_equal-Decides :
      (v : Bool)
      → Decides (anonymous r ≡ anonymous r') (types_equal r r')
      → (arguments_size args ≡ arguments_size args'
          → Decides
              (arguments_anonymous args ≡ arguments_anonymous args')
              (arguments_equal args args'))
      → Decides
          (signature (arguments_anonymous args) v (anonymous r)
            ≡ signature (arguments_anonymous args') v (anonymous r'))
          signatures_equal
  unfolding signatures_equal
  signatures_equal-Decides v d e =
      let sizes = arguments_size args == arguments_size args' in
      Decides-iff signatures_equal
        (signature_iff (arguments_anonymous args) (arguments_anonymous args') v (anonymous r)
          (anonymous r'))
        (Decides-and_then _ _ (types_equal r r')
          (if sizes then arguments_equal args args' else ok false) d
          (Decides-if _ sizes (arguments_equal args args') (same_size args args')
            (λ s. e ((==_iff (arguments_size args) (arguments_size args')).0 s))))

vararg-ne :
    (args args' : Arguments) (r r' : TypeNode) → signature args true r ≢ signature args' false r'
vararg-ne args args' r r' e = ground arith

mutual
  unfolding types_equal lengths_equal comparable anonymous arguments_size signatures_equal

  types_equal-Decides :
      (a b : TypeNode)
      → comparable a ≡ true
      → comparable b ≡ true
      → Decides (anonymous a ≡ anonymous b) (types_equal a b)
  types_equal-Decides (basic k s) (basic k' s') h h' =
      ground (arith, kind_eq_iff k k', int_eq_iff s s')
  types_equal-Decides (pointer t) (pointer t') h h' =
      Decides-iff (types_equal t t') (pointer_iff (anonymous t) (anonymous t'))
        (types_equal-Decides t t' h h')
  types_equal-Decides (array (integer m) t) (array (integer n) t') h h' =
      Decides-iff (and_then (types_equal t t') (ok (m == n)))
        (array_iff m n (anonymous t) (anonymous t'))
        (Decides-and_then _ _ (types_equal t t') (ok (m == n)) (types_equal-Decides t t' h h')
          (==_iff m n))
  types_equal-Decides (signature args true r) (signature args' true r') h h' =
      signatures_equal-Decides args args' r r' true
        (types_equal-Decides r r' (ground arith) (ground arith))
        (arguments_equal-Decides args args' (ground arith) (ground arith))
  types_equal-Decides (signature args false r) (signature args' false r') h h' =
      signatures_equal-Decides args args' r r' false
        (types_equal-Decides r r' (ground arith) (ground arith))
        (arguments_equal-Decides args args' (ground arith) (ground arith))
  types_equal-Decides (signature args true r) (signature args' false r') h h' =
      Decides-false (vararg-ne _ _ _ _)
  types_equal-Decides (signature args false r) (signature args' true r') h h' =
      Decides-false (λ e. vararg-ne _ _ _ _ (sym e))
  types_equal-Decides nop nop h h' = ground arith
  types_equal-Decides _ _ h h' = ground arith

  arguments_equal-Decides :
      (a b : Arguments)
      → arguments_comparable a ≡ true
      → arguments_comparable b ≡ true
      → arguments_size a ≡ arguments_size b
      → Decides (arguments_anonymous a ≡ arguments_anonymous b) (arguments_equal a b)
  arguments_equal-Decides (typed x t args) (typed y t' args') h h' n =
      Decides-iff (and_then (types_equal t t') (arguments_equal args args'))
        (typed_iff (anonymous t) (anonymous t') (arguments_anonymous args)
          (arguments_anonymous args'))
        (Decides-and_then _ _ (types_equal t t') (arguments_equal args args')
          (types_equal-Decides t t' (ground arith) (ground arith))
          (arguments_equal-Decides args args' (ground arith) (ground arith) (omega (arith, n))))
  arguments_equal-Decides end end h h' n = ground arith
  arguments_equal-Decides (untyped x args) b h h' n = cc
  arguments_equal-Decides a (untyped x args) h h' n = cc
  arguments_equal-Decides end (typed x t args) h h' n = absurd (omega (arith, n))
  arguments_equal-Decides (typed x t args) end h h' n = absurd (omega (arith, n))

-- On types without structs, whose arrays have integer literals as lengths and whose arguments have
-- their types, `types_equal` returns, and returns `true` exactly when the types differ at most in the
-- names of arguments.
pub types_equal_iff :
    (a b : TypeNode)
    → comparable a ≡ true
    → comparable b ≡ true
    → (same : Bool) × (types_equal a b ≡ ok same) × ((same ≡ true) ↔ (anonymous a ≡ anonymous b))
types_equal_iff a b h h' = decided (types_equal a b) (types_equal-Decides a b h h')
  where
    decided :
        {P : Type 0} (o : Outcome Bool)
        → Decides P o
        → (same : Bool) × (o ≡ ok same) × ((same ≡ true) ↔ P)
    decided (ok same) d = (same, refl, d)
    decided (abort _) d = absurd d
