-- ===== src/Checker/Clean/Stores.antt =====
-- typecheck.cpp: nodes that are assigned to, and coercion, in programs in which a poisoned node is
-- reported.
use mathlib.Core.Path.{subst}
use janguage.Base.{
  ◌≡◌, ◌≢◌, ◌⊎◌, inl, inr, ap, sym, ◌∙◌, Bool, ℕ, zero, suc, [], ◌∷◌, negsuc, some, ok,
}
use janguage.Types.{Kind}
use janguage.Ast.{no_error, declaration_error, typecheck_error}
use janguage.Nodes.{Address, builtin, at, NodePointer, Node, Pool, node_at}
use janguage.Checker.{
  State, Check, poison, node_of, replace, pure, load, follow, store, allocate, ◌>>=◌, ◌>>◌,
}
use janguage.Checker.Casts.{
  Field, lhs, rhs, init_expression, expression, do_implicit_cast_if_necessary, cast_field, field_of,
  with_field, read_field,
}
use janguage.Checker.Procedures.{with_statement, add_return}
use janguage.Checker.Along.{bind-eq-ok, pure-eq-ok, load-eq-ok, follow-eq-ok}
use janguage.Checker.Clean.{
  PlainNode, Plain, IsSound, Soundly, Sounding, Sounding-allocate, Sounding-bind, sound_rules,
}
use janguage.Checker.Clean.Casts.{Sounding-do_implicit_cast}

abbrev poison_node : Node
poison_node = Node.basic_type Kind.poison (negsuc 0)

node_at-replaced :
    (pool : Pool) (i j : ℕ) (y z : Node)
    → node_at (replace pool i y) j ≡ some z
    → (z ≡ y) ⊎ (node_at pool j ≡ some z)
unfolding node_at replace
node_at-replaced [] i j y z e = inr e
node_at-replaced (x ∷ pool) zero zero y z e = inl (cc e)
node_at-replaced (x ∷ pool) zero (suc j) y z e = inr e
node_at-replaced (x ∷ pool) (suc i) zero y z e = inr e
node_at-replaced (x ∷ pool) (suc i) (suc j) y z e = node_at-replaced pool i j y z e

Plain-replace :
    (pool : Pool) (i : ℕ) (y : Node)
    → PlainNode y
    → y ≢ poison_node
    → Plain pool
    → Plain (replace pool i y)
unfolding node_of
Plain-replace pool i y fine other plain = record { nodes = nodes; basics = basics }
  where
    nodes : (a : Address) (z : Node) → node_of (replace pool i y) a ≡ some z → PlainNode z
    nodes (builtin j) z e = plain.nodes (builtin j) z e
    nodes (at j) z e = elim (node_at-replaced pool i j y z e) [
      | inl h ↦ subst PlainNode (sym h) fine
      | inr h ↦ plain.nodes (at j) z h
    ]

    basics : (t : Address) → node_of (replace pool i y) t ≡ some poison_node → t ≡ poison
    basics (builtin j) e = plain.basics (builtin j) e
    basics (at j) e = elim (node_at-replaced pool i j y poison_node e) [
      | inl h ↦ absurd (other (sym h))
      | inr h ↦ plain.basics (at j) h
    ]

store-Soundly :
    (a : Address) (y : Node) (s s' : State) (b : Unit {0})
    → PlainNode y
    → y ≢ poison_node
    → store a y s ≡ ok (b, s')
    → Soundly s s'
unfolding store
store-Soundly (builtin i) y s s' b fine other e x = cc
store-Soundly (at i) y s s' b fine other e x =
    let same_state : record s { pool = replace s.pool i y } ≡ s' = cc in
    subst IsSound same_state
      (record { plain = Plain-replace s.pool i y fine other x.plain; clean = x.clean })

PlainNode-with_field :
    (f : Field) (x : Node) (e c : Address)
    → field_of f x ≡ some e
    → PlainNode x
    → PlainNode (with_field f c x) × (with_field f c x ≢ poison_node)
unfolding field_of with_field
PlainNode-with_field lhs (Node.binary_operator k l r) e c h p = (tt, λ q. cc q)
PlainNode-with_field rhs (Node.binary_operator k l r) e c h p = (tt, λ q. cc q)
PlainNode-with_field init_expression (Node.declaration n t i a) e c h p = (p, λ q. cc q)
PlainNode-with_field expression (Node.return_statement r) e c h p = (tt, λ q. cc q)
PlainNode-with_field f x e c h p = absurd (cc h)

pub Sounding-cast_field :
    (f : Field) (a : Address) (type : NodePointer) → Sounding (cast_field f a type)
unfolding cast_field
Sounding-cast_field f a type = record {
  from = λ s r s' run x0.
      let put = λ (x : Node) (c : Bool × Address). store a (with_field f c.1 x) >> pure c.0 in
      let (x, s1, e1, k1) =
        bind-eq-ok (load a)
          (λ x. follow (field_of f x) >>= λ e. do_implicit_cast_if_necessary e type >>= put x) s r
          s' run in
      let (here, p1) = load-eq-ok a x s s1 e1 in
      let (e, s2, e2, k2) =
        bind-eq-ok (follow (field_of f x)) (λ e. do_implicit_cast_if_necessary e type >>= put x) s1
          r s' k1 in
      let (h, p2) = follow-eq-ok (field_of f x) e s1 s2 e2 in
      let (c, s3, e3, k3) = bind-eq-ok (do_implicit_cast_if_necessary e type) (put x) s2 r s' k2 in
      let x3 =
        (Sounding-do_implicit_cast e type).from s2 c s3 e3 (subst IsSound (sym (p2 ∙ p1)) x0) in
      let (fine, other) = PlainNode-with_field f x e c.1 h (x0.plain.nodes a x here) in
      let (u, s4, e4, k4) = bind-eq-ok (store a (with_field f c.1 x)) (λ _. pure c.0) s3 r s' k3 in
      subst IsSound (sym (pure-eq-ok c.0 r s4 s' k4).1)
        (store-Soundly a (with_field f c.1 x) s3 s4 u fine other e4 x3);
}

PlainNode-with_statement :
    (p : NodePointer) (x : Node)
    → PlainNode x
    → x ≢ poison_node
    → PlainNode (with_statement p x) × (with_statement p x ≢ poison_node)
unfolding with_statement
PlainNode-with_statement p (Node.block xs q no_error) h o = (tt, λ e. cc e)
PlainNode-with_statement p (Node.block xs q declaration_error) h o = (tt, λ e. cc e)
PlainNode-with_statement p (Node.block xs q typecheck_error) h o = absurd h
PlainNode-with_statement p Node.nop h o = (h, o)
PlainNode-with_statement p x h o = (h, o)

at-ne-poison : (i : ℕ) → at i ≢ poison
at-ne-poison i e = cc e

no_store : (i : ℕ) (y : Node) (s s' : State) (b : Unit {0}) → store (builtin i) y s ≡ ok (b, s') → ⊥
unfolding store
no_store i y s s' b e = cc e

-- The body with the return statement.
put_return : Address → Address → Check (Unit {0})
put_return body r = do x ← load body; store body (with_statement (some r) x)

put_return-Soundly :
    (body r : Address) (s s' : State) (b : Unit {0})
    → put_return body r s ≡ ok (b, s')
    → Soundly s s'
unfolding put_return
put_return-Soundly body r s s' b run x0 =
    let (x, s1, e1, k1) =
      bind-eq-ok (load body) (λ x. store body (with_statement (some r) x)) s b s' run in
    let (here, p) = load-eq-ok body x s s1 e1 in
    let k = subst (λ s. store body (with_statement (some r) x) s ≡ ok (b, s')) p k1 in
    stored body x here k
  where
    stored :
        (body : Address) (x : Node)
        → node_of s.pool body ≡ some x
        → store body (with_statement (some r) x) s ≡ ok (b, s')
        → IsSound s'
    stored (builtin i) x here k = absurd (no_store i (with_statement (some r) x) s s' b k)
    stored (at i) x here k =
        let other =
          λ (e : x ≡ poison_node). at-ne-poison i (x0.plain.basics (at i) (here ∙ ap some e)) in
        let (fine, o) = PlainNode-with_statement (some r) x (x0.plain.nodes (at i) x here) other in
        store-Soundly (at i) (with_statement (some r) x) s s' b fine o k x0

pub Sounding-add_return : (body : Address) → Sounding (add_return body)
unfolding add_return put_return
Sounding-add_return body =
    Sounding-bind (allocate Node.nop) _ (Sounding-allocate Node.nop tt (λ e. cc e)) (λ nothing.
      Sounding-bind (allocate (Node.return_statement nothing)) (put_return body)
        (Sounding-allocate (Node.return_statement nothing) tt (λ e. cc e))
        (λ r. record { from = λ s b s' e. put_return-Soundly body r s s' b e }))

pub Sounding-read_field : (f : Field) (a : Address) → Sounding (read_field f a)
unfolding read_field
Sounding-read_field f a = search sound_rules depth 30
