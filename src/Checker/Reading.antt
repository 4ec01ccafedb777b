-- ===== src/Checker/Reading.antt =====
-- node.cpp: `types_equal` on the nodes of the pool, against its definition on types that are trees.
use janguage.Base.{
  ◌≡◌, refl, ap, sym, ◌∙◌, Bool, true, false, ℕ, zero, suc, ◌+◌, ◌≤◌, List, [], ◌∷◌, length, max,
  ◌==◌, if◌then◌else◌, none, some, Outcome, ok, abort, assertion, bool_ne, ◌>>=◌, arith,
}
use janguage.Types.{
  TypeNode, Arguments, basic, pointer, array, signature, struct_type, nop, end, typed, untyped,
  lengths_equal, and_then, arguments_size,
}
use janguage.Types as Types
use janguage.Nodes.{Address, NodePointer, Node, is_type_node}
use janguage.Checker.{State, node_of}
use janguage.Checker.Compare.{
  types_equal, types_equal_within, nodes_match, arguments_match, argument_type, node_at_address,
  length_of, depth_limit,
}

-- How deep a tree is.
unfoldable mutual
  pub depth : TypeNode → ℕ
  depth (pointer t) = suc (depth t)
  depth (array n t) = suc (depth t)
  depth (signature args v r) = suc (max (depth r) (arguments_depth args))
  depth (basic k n) = 1
  depth struct_type = 1
  depth nop = 1

  pub arguments_depth : Arguments → ℕ
  arguments_depth end = 0
  arguments_depth (typed name t args) = max (depth t) (arguments_depth args)
  arguments_depth (untyped name args) = arguments_depth args

module _ (s : State) where
  -- A pointer to a node that has a property.
  abbrev pub LeadsTo : NodePointer → (Node → Type 0) → Type 0
  LeadsTo p P = (a : Address) × (x : Node) × (p ≡ some a) × (node_of s.pool a ≡ some x) × P x

  unfoldable mutual
    -- A node that is a type, with those that it leads to.
    pub Content : Node → TypeNode → Type 0
    Content x (basic k n) = x ≡ Node.basic_type k n
    Content x (pointer t) =
        (b : Address) × (x ≡ Node.pointer_type b) × LeadsTo (some b) (λ z. Content z t)
    Content x (array n t) =
        (c : Address) × (b : Address) × (y : Node) × (x ≡ Node.array_type c b)
        × (node_of s.pool c ≡ some y)
        × (length_of y ≡ n)
        × LeadsTo (some b) (λ z. Content z t)
    Content x (signature args v r) =
        (ds : List Address) × (b : Address) × (x ≡ Node.procedure_signature ds v b)
        × LeadsTo (some b) (λ z. Content z r)
        × AreArguments ds args
    Content x struct_type = ⊥
    Content x nop = x ≡ Node.nop

    -- Declarations of arguments, with the inferred types of their init expressions.
    pub AreArguments : List Address → Arguments → Type 0
    AreArguments ds end = ds ≡ []
    AreArguments ds (typed name t args) =
        (d : Address) × (rest : List Address) × (specified : Address) × (init : Address)
        × (is_argument : Bool) × (ds ≡ d ∷ rest)
        × (node_of s.pool d ≡ some (Node.declaration name specified init is_argument))
        × LeadsTo (s.inferred init) (λ z. Content z t)
        × AreArguments rest args
    AreArguments ds (untyped name args) =
        (d : Address) × (rest : List Address) × (specified : Address) × (init : Address)
        × (is_argument : Bool) × (ds ≡ d ∷ rest)
        × (node_of s.pool d ≡ some (Node.declaration name specified init is_argument))
        × (s.inferred init ≡ none)
        × AreArguments rest args

  abbrev pub IsType : NodePointer → TypeNode → Type 0
  IsType p t = LeadsTo p (λ x. Content x t)

-- One level of the comparison.
step :
    (fuel : ℕ) (s : State) (a b : Address) (x y : Node)
    → node_of s.pool a ≡ some x
    → node_of s.pool b ≡ some y
    → is_type_node x ≡ true
    → is_type_node y ≡ true
    → types_equal_within (suc fuel) s (some a) (some b)
      ≡ nodes_match (types_equal_within fuel s) s x y
unfolding types_equal_within node_at_address
step fuel s a b x y h h' k k' = ground arith

depth_pos : (t : TypeNode) → 1 ≤ depth t
unfolding depth
depth_pos (basic k n) = omega arith
depth_pos t = omega arith

and_then-eq : {o o' r r' : Outcome Bool} → o ≡ o' → r ≡ r' → and_then o r ≡ and_then o' r'
and_then-eq h k = λ j. and_then (h j) (k j)

module _ (s : State) where
  Content-is_type_node : (x : Node) (t : TypeNode) → Content s x t → is_type_node x ≡ true
  unfolding Content is_type_node
  Content-is_type_node x (basic k n) c = rw c refl
  Content-is_type_node x (pointer t) (b, e, _) = rw e refl
  Content-is_type_node x (array n t) (_, _, _, e, _, _, _) = rw e refl
  Content-is_type_node x (signature args v r) (_, _, e, _, _) = rw e refl
  Content-is_type_node x struct_type c = absurd c
  Content-is_type_node x nop c = rw c refl

  -- The comparison at two pointers, from that of the nodes that they lead to.
  at_pointers :
      (fuel : ℕ) (t u : TypeNode) (p q : NodePointer)
      → depth t ≤ fuel
      → ((below : ℕ) (x y : Node)
          → suc below ≡ fuel
          → Content s x t
          → Content s y u
          → nodes_match (types_equal_within below s) s x y ≡ Types.types_equal t u)
      → IsType s p t
      → IsType s q u
      → types_equal_within fuel s p q ≡ Types.types_equal t u
  at_pointers zero t u p q h f c d = absurd (omega (arith, depth_pos t))
  at_pointers (suc fuel) t u p q h f (a, x, e, n, c) (b, y, e', n', d) =
      rw (e, e')
        (step fuel s a b x y n n' (Content-is_type_node x t c) (Content-is_type_node y u d)
          ∙ f fuel x y refl c d)

  length-AreArguments :
      (ds : List Address) (args : Arguments)
      → AreArguments s ds args
      → length ds ≡ arguments_size args
  unfolding Content arguments_size
  length-AreArguments ds end c = rw c refl
  length-AreArguments ds (typed name t args) (_, rest, _, _, _, e, _, _, c) =
      rw e (omega (arith, length-AreArguments rest args c))
  length-AreArguments ds (untyped name args) (_, rest, _, _, _, e, _, _, c) =
      rw e (omega (arith, length-AreArguments rest args c))

  -- The inferred type of an argument.
  argument_type-eq :
      (d : Address) (name : janguage.Base.Bytes) (specified init : Address) (is_argument : Bool)
      → node_of s.pool d ≡ some (Node.declaration name specified init is_argument)
      → argument_type s d ≡ ok (s.inferred init)
  unfolding argument_type node_at_address
  argument_type-eq d name specified init is_argument n = ground arith

  lengths_read :
      (c c' : Address) (x y : Node)
      → node_of s.pool c ≡ some x
      → node_of s.pool c' ≡ some y
      → (node_at_address s c >>= λ x.
          node_at_address s c' >>= λ y. lengths_equal (length_of x) (length_of y))
        ≡ lengths_equal (length_of x) (length_of y)
  unfolding node_at_address
  lengths_read c c' x y n n' = ground arith

  module _ (below : NodePointer → NodePointer → Outcome Bool) where
    -- The comparison of two arguments that are there.
    arguments_step :
        (d d' : Address) (ds ds' : List Address) (p q : NodePointer)
        → argument_type s d ≡ ok p
        → argument_type s d' ≡ ok q
        → arguments_match below s (d ∷ ds) (d' ∷ ds')
          ≡ and_then (below p q) (arguments_match below s ds ds')
    unfolding arguments_match
    arguments_step d d' ds ds' p q e e' = rw (e, e')

    array_step :
        (c c' b b' : Address)
        → nodes_match below s (Node.array_type c b) (Node.array_type c' b')
          ≡ and_then (below (some b) (some b')) (
              node_at_address s c >>= λ x.
              node_at_address s c' >>= λ y. lengths_equal (length_of x) (length_of y))
    unfolding nodes_match
    array_step c c' b b' = refl

    signature_step :
        (ds ds' : List Address) (v v' : Bool) (b b' : Address) (m n : ℕ)
        {same same_arguments : Outcome Bool}
        → length ds ≡ m
        → length ds' ≡ n
        → below (some b) (some b') ≡ same
        → arguments_match below s ds ds' ≡ same_arguments
        → nodes_match below s (Node.procedure_signature ds v b) (Node.procedure_signature ds' v' b')
          ≡ (if bool_ne v v'
              then ok false
              else and_then same (if m == n then same_arguments else ok false))
    unfolding nodes_match
    signature_step ds ds' v v' b b' m n l l' h k = rw (l, l', h, k) refl

  -- A type that is not there fails the assertion.
  missing_left :
      (fuel : ℕ) (q : NodePointer) → 1 ≤ fuel → types_equal_within fuel s none q ≡ abort assertion
  unfolding types_equal_within
  missing_left zero q h = absurd (omega arith)
  missing_left (suc fuel) q h = refl

  missing_right :
      (fuel : ℕ) (t : TypeNode) (p : NodePointer)
      → 1 ≤ fuel
      → IsType s p t
      → types_equal_within fuel s p none ≡ abort assertion
  unfolding types_equal_within
  missing_right zero t p h c = absurd (omega arith)
  missing_right (suc fuel) t p h (a, x, e, _, _) = rw e

  mutual
    unfolding Content nodes_match depth Types.types_equal

    nodes_equal :
        (fuel : ℕ) (t u : TypeNode) (x y : Node)
        → depth t ≤ suc fuel
        → Content s x t
        → Content s y u
        → nodes_match (types_equal_within fuel s) s x y ≡ Types.types_equal t u
    nodes_equal fuel (basic k n) (basic k' n') x y h c d = rw (c, d) refl
    nodes_equal fuel (pointer t) (pointer u) x y h (b, e, c) (b', e', d) =
        rw (e, e')
          (at_pointers fuel t u (some b) (some b') (omega arith)
            (λ below x y p. nodes_equal below t u x y (omega arith)) c d)
    nodes_equal fuel (array n t) (array n' u) x y h (k, b, z, e, m, l, c)
          (k', b', z', e', m', l', d) =
        let same =
          at_pointers fuel t u (some b) (some b') (omega arith)
            (λ below x y p. nodes_equal below t u x y (omega arith)) c d in
        rw (e, e')
          (array_step (types_equal_within fuel s) k k' b b'
            ∙ and_then-eq same (lengths_read k k' z z' m m' ∙ λ j. lengths_equal (l j) (l' j)))
    nodes_equal fuel (signature args v r) (signature args' v' r') x y h (ds, b, e, c, k)
          (ds', b', e', d, k') =
        let same =
          at_pointers fuel r r' (some b) (some b') (omega arith)
            (λ below x y p. nodes_equal below r r' x y (omega arith)) c d in
        let same_arguments =
          arguments_equal_lem fuel args args' ds ds' (omega (arith, depth_pos r)) (omega arith) k
            k' in
        rw (e, e')
          (signature_step (types_equal_within fuel s) ds ds' v v' b b' (arguments_size args)
            (arguments_size args') (length-AreArguments ds args k)
            (length-AreArguments ds' args' k') same same_arguments)
    nodes_equal fuel nop nop x y h c d = rw (c, d) refl
    nodes_equal fuel struct_type u x y h c d = absurd c
    nodes_equal fuel t struct_type x y h c d = absurd d
    nodes_equal fuel t u x y h c d = ground arith

    arguments_equal_lem :
        (fuel : ℕ) (args args' : Arguments) (ds ds' : List Address)
        → 1 ≤ fuel
        → arguments_depth args ≤ fuel
        → AreArguments s ds args
        → AreArguments s ds' args'
        → arguments_match (types_equal_within fuel s) s ds ds' ≡ Types.arguments_equal args args'
    arguments_equal_lem fuel end args' ds ds' pos h c c' = rw c refl
    arguments_equal_lem fuel (typed name t args) end ds ds' pos h (_, _, _, _, _, e, _, _, _) c' =
        rw (e, c') refl
    arguments_equal_lem fuel (typed name t args) (typed name' u args') ds ds' pos h
          (d, rest, sp, i, ia, e, n, c, k) (d', rest', sp', i', ia', e', n', c', k') =
        let same =
          at_pointers fuel t u (s.inferred i) (s.inferred i') (omega arith)
            (λ below x y p. nodes_equal below t u x y (omega arith)) c c' in
        let others = arguments_equal_lem fuel args args' rest rest' pos (omega arith) k k' in
        let first =
          arguments_step (types_equal_within fuel s) d d' rest rest' (s.inferred i) (s.inferred i')
            (argument_type-eq d name sp i ia n) (argument_type-eq d' name' sp' i' ia' n') in
        rw (e, e') (first ∙ and_then-eq same others)
    arguments_equal_lem fuel (typed name t args) (untyped name' args') ds ds' pos h
          (d, rest, sp, i, ia, e, n, c, k) (d', rest', sp', i', ia', e', n', c', k') =
        let first =
          arguments_step (types_equal_within fuel s) d d' rest rest' (s.inferred i) (s.inferred i')
            (argument_type-eq d name sp i ia n) (argument_type-eq d' name' sp' i' ia' n') in
        rw (e, e')
          (first
            ∙ and_then-eq {o' = abort assertion}
                {r' = arguments_match (types_equal_within fuel s) s rest rest'}
                (rw c' (missing_right fuel t (s.inferred i) pos c)) refl)
    arguments_equal_lem fuel (untyped name args) end ds ds' pos h (_, _, _, _, _, e, _, _, _) c' =
        rw (e, c') refl
    arguments_equal_lem fuel (untyped name args) (typed name' u args') ds ds' pos h
          (d, rest, sp, i, ia, e, n, c, k) (d', rest', sp', i', ia', e', n', c', k') =
        let first =
          arguments_step (types_equal_within fuel s) d d' rest rest' (s.inferred i) (s.inferred i')
            (argument_type-eq d name sp i ia n) (argument_type-eq d' name' sp' i' ia' n') in
        rw (e, e')
          (first
            ∙ and_then-eq {o' = abort assertion}
                {r' = arguments_match (types_equal_within fuel s) s rest rest'}
                (rw c (missing_left fuel (s.inferred i') pos)) refl)
    arguments_equal_lem fuel (untyped name args) (untyped name' args') ds ds' pos h
          (d, rest, sp, i, ia, e, n, c, k) (d', rest', sp', i', ia', e', n', c', k') =
        let first =
          arguments_step (types_equal_within fuel s) d d' rest rest' (s.inferred i) (s.inferred i')
            (argument_type-eq d name sp i ia n) (argument_type-eq d' name' sp' i' ia' n') in
        rw (e, e')
          (first
            ∙ and_then-eq {o' = abort assertion}
                {r' = arguments_match (types_equal_within fuel s) s rest rest'}
                (rw c (missing_left fuel (s.inferred i') pos)) refl)

module _ (s : State) (t u : TypeNode) (p q : NodePointer) where
  -- At two pointers to nodes that make up types, the first no deeper than there are nodes,
  -- `types_equal` returns what its definition on trees does.
  pub types_equal-trees :
      depth t ≤ depth_limit s
      → IsType s p t
      → IsType s q u
      → types_equal s p q ≡ Types.types_equal t u
  unfolding types_equal
  types_equal-trees h c d =
      at_pointers s (depth_limit s) t u p q h
        (λ below x y e. nodes_equal s below t u x y (omega arith)) c d
