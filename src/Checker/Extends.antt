-- ===== src/Checker/Extends.antt =====
-- typecheck.cpp: what the type checker may do to the nodes and to its own fields.
use mathlib.Core.Path.{subst}
use janguage.Base.{
  ◌≡◌, ◌⊎◌, inl, inr, refl, sym, ◌∙◌, ap, Bool, true, false, List, [], ◌∷◌, ◌++◌, append-nil,
  append_assoc, negsuc, some, arith,
}
use janguage.Types.{Kind}
use janguage.Ast.{CompilerErrorKind}
use janguage.Nodes.{Address, NodePointer, Node, Pool}
use janguage.Checker.{State, Error, node_of}
use janguage.Checker.Casts.{Field, lhs, rhs, field_of, with_field}

abbrev pub is_return : Node → Bool
is_return (Node.return_statement _) = true
is_return _ = false

-- A change of a node: a cast is put around one of its fields, or a return statement is added to the
-- statements of a block.
pub data Step (pool : Pool) (x y : Node) : Type 0 where
  wraps :
      (f : Field) (e c t : Address)
      → field_of f x ≡ some e
      → node_of pool c ≡ some (Node.type_cast t e)
      → y ≡ with_field f c x
      → Step pool x y
  returns :
      (statements : List NodePointer) (parent : NodePointer) (kind : CompilerErrorKind)
      (r : Address) (z : Node)
      → node_of pool r ≡ some z
      → is_return z ≡ true
      → x ≡ Node.block statements parent kind
      → y ≡ Node.block (statements ++ some r ∷ []) parent kind
      → Step pool x y

pub data Becomes (pool : Pool) (x : Node) : Node → Type 0 where
  same : Becomes pool x x
  then_step : {y z : Node} → Becomes pool x y → Step pool y z → Becomes pool x z

-- Every node is still there, with no other changes than these.
abbrev pub Later : Pool → Pool → Type 0
Later pool pool' =
    (a : Address) (x : Node)
    → node_of pool a ≡ some x
    → (y : Node) × (node_of pool' a ≡ some y) × Becomes pool' x y

-- A type that another may be set in place of: the poison type, or that of a node that is left out.
abbrev pub Replaceable : Pool → Address → Type 0
Replaceable pool t =
    (node_of pool t ≡ some (Node.basic_type Kind.poison (negsuc 0)))
    ⊎ (node_of pool t ≡ some Node.nop)

pub record Extends (s s' : State) : Type 0 where
  pub nodes : Later s.pool s'.pool
  pub types :
      (a : Address) (x : Node) (t : Address)
      → node_of s.pool a ≡ some x
      → s.inferred a ≡ some t
      → (u : Address) × (s'.inferred a ≡ some u) × ((u ≡ t) ⊎ Replaceable s'.pool t)
  pub errors : (more : List Error) × (s'.errors ≡ s.errors ++ more)
  pub block : s'.current_block ≡ s.current_block
  pub procedure : s'.current_procedure ≡ s.current_procedure
  pub tables : s'.table ≡ s.table
  pub containing : s'.containing_block ≡ s.containing_block

-- Nodes that no step changes.
abbrev is_fixed : Node → Bool
is_fixed Node.nop = true
is_fixed (Node.basic_type _ _) = true
is_fixed (Node.type_cast _ _) = true
is_fixed _ = false

is_fixed-field :
    (f : Field) (x : Node) (e : Address) → is_fixed x ≡ true → field_of f x ≡ some e → ⊥
unfolding field_of
is_fixed-field lhs Node.nop e h p = cc
is_fixed-field rhs Node.nop e h p = cc
is_fixed-field f x e h p = ground arith

Step-is_fixed : (pool : Pool) (x y : Node) → Step pool x y → is_fixed x ≡ true → ⊥
Step-is_fixed pool x y (wraps f e c t p n q) h = is_fixed-field f x e h p
Step-is_fixed pool x y (returns _ _ _ _ _ _ _ p q) h = cc (ap is_fixed p)

Becomes-is_fixed : (pool : Pool) (x y : Node) → Becomes pool x y → is_fixed x ≡ true → y ≡ x
Becomes-is_fixed pool x y same h = refl
Becomes-is_fixed pool x y (then_step b st) h =
    let e = Becomes-is_fixed pool x _ b h in absurd (Step-is_fixed pool _ y st (ap is_fixed e ∙ h))

is_return-with_field :
    (f : Field) (c : Address) (x : Node) → is_return (with_field f c x) ≡ is_return x
unfolding with_field
is_return-with_field f c x = ground arith

Step-is_return : (pool : Pool) (x y : Node) → Step pool x y → is_return y ≡ is_return x
Step-is_return pool x y (wraps f e c t p n q) = ap is_return q ∙ is_return-with_field f c x
Step-is_return pool x y (returns _ _ _ _ _ _ _ p q) = ap is_return q ∙ sym (ap is_return p)

Becomes-is_return : (pool : Pool) (x y : Node) → Becomes pool x y → is_return y ≡ is_return x
Becomes-is_return pool x y same = refl
Becomes-is_return pool x y (then_step b st) =
    Step-is_return pool _ y st ∙ Becomes-is_return pool x _ b

module _ (pool pool' : Pool) (later : Later pool pool') where
  -- Nodes that no step changes are still there as they were.
  pub fixed_later :
      (a : Address) (x : Node)
      → node_of pool a ≡ some x
      → is_fixed x ≡ true
      → node_of pool' a ≡ some x
  fixed_later a x e h =
      let (y, e', b) = later a x e in e' ∙ ap some (Becomes-is_fixed pool' x y b h)

  Step-later : (x y : Node) → Step pool x y → Step pool' x y
  Step-later x y (wraps f e c t p n q) = wraps f e c t p (fixed_later c _ n refl) q
  Step-later x y (returns xs parent kind r z n h p q) =
      let (z', n', b) = later r z n in
      returns xs parent kind r z' n' (Becomes-is_return pool' z z' b ∙ h) p q

  pub Becomes-later : (x y : Node) → Becomes pool x y → Becomes pool' x y
  Becomes-later x y same = same
  Becomes-later x y (then_step b st) = then_step (Becomes-later x _ b) (Step-later _ y st)

  pub Replaceable-later : (t : Address) → Replaceable pool t → Replaceable pool' t
  Replaceable-later t (inl e) = inl (fixed_later t _ e refl)
  Replaceable-later t (inr e) = inr (fixed_later t _ e refl)

Becomes-trans :
    (pool : Pool) (x y z : Node) → Becomes pool x y → Becomes pool y z → Becomes pool x z
Becomes-trans pool x y z b same = b
Becomes-trans pool x y z b (then_step c st) = then_step (Becomes-trans pool x y _ b c) st

pub Later-trans : (p p' p'' : Pool) → Later p p' → Later p' p'' → Later p p''
Later-trans p p' p'' f g a x e =
    let (y, e', b) = f a x e in
    let (z, e'', c) = g a y e' in (z, e'', Becomes-trans p'' x y z (Becomes-later p' p'' g x y b) c)

pub Extends-refl : (s : State) → Extends s s
Extends-refl s = record {
  nodes = λ a x e. (x, e, same);
  types = λ a x t e h. (t, h, inl refl);
  errors = ([], sym (append-nil s.errors));
  block = refl;
  procedure = refl;
  tables = refl;
  containing = refl;
}

module _ (s s' s'' : State) (e : Extends s s') (e' : Extends s' s'') where
  types_later :
      (t u v : Address)
      → (u ≡ t) ⊎ Replaceable s'.pool t
      → (v ≡ u) ⊎ Replaceable s''.pool u
      → (v ≡ t) ⊎ Replaceable s''.pool t
  types_later t u v (inr r) h' = inr (Replaceable-later s'.pool s''.pool e'.nodes t r)
  types_later t u v (inl h) (inl h') = inl (h' ∙ h)
  types_later t u v (inl h) (inr r) = inr (subst (Replaceable s''.pool) h r)

  pub Extends-trans : Extends s s''
  Extends-trans = record {
    nodes = Later-trans s.pool s'.pool s''.pool e.nodes e'.nodes;
    types = λ a x t n h.
        let (y, n', _) = e.nodes a x n in
        let (u, h', w) = e.types a x t n h in
        let (v, h'', w') = e'.types a y u n' h' in (v, h'', types_later t u v w w');
    errors =
        let (more, h) = e.errors in
        let (more', h') = e'.errors in
        (more ++ more', h' ∙ (ap (λ es. es ++ more') h ∙ append_assoc s.errors more more'));
    block = e'.block ∙ e.block;
    procedure = e'.procedure ∙ e.procedure;
    tables = e'.tables ∙ e.tables;
    containing = e'.containing ∙ e.containing;
  }
