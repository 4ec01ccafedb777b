-- ===== src/Parser/Climbing/Unique.antt =====
-- parse.cpp 801-848: precedence and associativity to the left leave no choice.
use mathlib.Core.Path.{subst}
use janguage.Base.{ℕ, ◌↔◌, some, ok, ◌≤◌, ◌<◌, ◌≡◌, refl, sym, ap, List, [], ◌∷◌, ◌++◌, All, arith}
use janguage.Token.{TokenType, binary_operator_precedence}
use janguage.Ast.{Ast}
use janguage.Parser.Tokens.{Parser}
use janguage.Parser.Literals.{FloatLibrary}
use janguage.Parser.Grammar.{parse_binary_expr}
use janguage.Parser.Climbing.{Tree, Operand, Operations, precedence}
use janguage.Parser.Climbing.Result.{parse_binary_expr-Climbs}

abbrev Operation : Type 0
Operation = TokenType × Ast

-- Two ways to split a list at an element: at the same place, or one in front of the other.
data Splits (xs : List Operation) (x : Operation) (ys xs' : List Operation) (x' : Operation)
    (ys' : List Operation) : Type 0 where
  same : xs ≡ xs' → x ≡ x' → ys ≡ ys' → Splits xs x ys xs' x' ys'
  before :
      (zs : List Operation) → xs' ≡ xs ++ x ∷ zs → ys ≡ zs ++ x' ∷ ys' → Splits xs x ys xs' x' ys'
  after :
      (zs : List Operation) → xs ≡ xs' ++ x' ∷ zs → ys' ≡ zs ++ x ∷ ys → Splits xs x ys xs' x' ys'

splits :
    (xs : List Operation) {x : Operation} {ys : List Operation} (xs' : List Operation)
    {x' : Operation} {ys' : List Operation}
    → xs ++ x ∷ ys ≡ xs' ++ x' ∷ ys'
    → Splits xs x ys xs' x' ys'
splits [] [] e = Splits.same refl (cc e) (cc e)
splits [] (y ∷ xs') e = Splits.before xs' (cc e) (cc e)
splits (y ∷ xs) [] e = Splits.after xs (cc e) (cc e)
splits (y ∷ xs) (y' ∷ xs') e = elim (splits xs xs' (cc e)) [
  | Splits.same a b c ↦ Splits.same (cc (a, e)) b c
  | Splits.before zs a b ↦ Splits.before zs (cc (a, e)) b
  | Splits.after zs a b ↦ Splits.after zs (cc (a, e)) b
]

All-middle :
    (P : Operation → Type 0) (xs : List Operation) {x : Operation} (ys : List Operation)
    → All P (xs ++ x ∷ ys)
    → P x
All-middle P [] ys a = a.0
All-middle P (y ∷ xs) ys a = All-middle P xs ys a.1

abbrev AtLeast : TokenType → List Operation → Type 0
AtLeast op = All (λ entry. binary_operator_precedence op ≤ precedence entry)

abbrev Above : TokenType → List Operation → Type 0
Above op = All (λ entry. binary_operator_precedence op < precedence entry)

nil-ne-append : (xs : List Operation) (x : Operation) (ys : List Operation) → [] ≡ xs ++ x ∷ ys → ⊥
nil-ne-append [] x ys e = absurd (cc e)
nil-ne-append (y ∷ xs) x ys e = absurd (cc e)

-- An operator with another one on its right binds less, and one with another on its left not more.
apart :
    (op op' : TokenType) (middle middle' : Ast) {xs' ys : List Operation}
    (xs zs ws : List Operation)
    → xs' ≡ xs ++ (op, middle) ∷ zs
    → ys ≡ zs ++ (op', middle') ∷ ws
    → AtLeast op' xs'
    → Above op ys
    → ⊥
apart op op' middle middle' xs zs ws e e' least above =
    let le =
      All-middle (λ entry. binary_operator_precedence op' ≤ precedence entry) xs zs
        (subst (AtLeast op') e least) in
    let lt =
      All-middle (λ entry. binary_operator_precedence op < precedence entry) zs ws
        (subst (Above op) e' above) in
    omega (arith, le, lt)

-- An operand and the operators behind it have only one tree.
Tree-unique :
    {first first' e e' : Ast} {ops ops' : List Operation}
    → Tree first e ops
    → Tree first' e' ops'
    → first ≡ first'
    → ops ≡ ops'
    → e ≡ e'
Tree-unique (Tree.operand a) (Tree.operand b) p q = p
Tree-unique (Tree.operand a) (Tree.operation {before} l r b a') p q =
    absurd (nil-ne-append before _ _ q)
Tree-unique (Tree.operation {before} l r b a) (Tree.operand a') p q =
    absurd (nil-ne-append before _ _ (sym q))
Tree-unique (Tree.operation {op} {lhs} {rhs} {before} l r b a)
      (Tree.operation {op = op'} {lhs = lhs'} {rhs = rhs'} {before = before'} l' r' b' a') p q =
    elim (splits before before' q) [
      | Splits.same x y z ↦
          let y' : op ≡ op' = ap (λ entry. entry.0) y in
          let left : lhs ≡ lhs' = Tree-unique l l' p x in
          let right : rhs ≡ rhs' = Tree-unique r r' (ap (λ entry. entry.1) y) z in
          cc (y', left, right)
      | Splits.before zs x y ↦ absurd (apart op op' _ _ before zs _ x y b' a)
      | Splits.after zs x y ↦ absurd (apart op' op _ _ before' zs _ x y b a')
    ]

-- Where `parse_binary_expr` returns an expression, it has read an operand and operators with operands
-- behind it whose trees by precedence and left associativity are exactly that expression.
pub parse_binary_expr-only :
    (lib : FloatLibrary) (f : ℕ) (p : Parser) (prev : ℕ) (e : Ast) (q : Parser)
    → parse_binary_expr lib f p prev ≡ ok (some (e, q))
    → (first : Ast) × (middle : Parser) × (ops : List Operation) × Operand lib p first middle
      × Operations lib middle ops q
      × ((e' : Ast) → Tree first e' ops ↔ (e' ≡ e))
parse_binary_expr-only lib f p prev e q run =
    let r = (parse_binary_expr-Climbs lib f p prev e q run).reading in
    (
      r.first,
      r.middle,
      r.ops,
      r.begins,
      r.goes_on,
      λ e'. (
        λ t. Tree-unique t r.tree refl refl,
        λ same. subst (λ x. Tree r.first x r.ops) (sym same) r.tree,
      ),
    )
