-- ===== src/Checker/Bodies.antt =====
-- typecheck.cpp: the return statement that is added to a procedure's body, and the errors of a block
-- that is to have one.
use mathlib.Core.Path.{subst}
use janguage.Base.{
  ◌≡◌, ◌⊎◌, inl, inr, refl, ap, sym, ◌∙◌, Bool, true, false, ℕ, List, [], ◌∷◌, ◌++◌, append-nil,
  take, take-append, length, some, ok, ◌==◌, if◌then◌else◌,
}
use janguage.Ast.{CompilerErrorKind, no_error, declaration_error, typecheck_error}
use janguage.Nodes.{Address, at, NodePointer, Node, Pool}
use janguage.Nodes.Building.{node_at-last}
use janguage.Checker.{
  Error, State, Check, voyd, node_of, pure, gets, load, store, allocate, with_block, ◌>>=◌, ◌>>◌,
}
use janguage.Checker.Casts.{report, set_inferred_type}
use janguage.Checker.Statements.{resize_errors, settle_errors, check_statements, check_block}
use janguage.Checker.Procedures.{with_statement, add_return}
use janguage.Checker.Extends.{Extends, Extends-trans, Step, returns, is_return}
use janguage.Checker.Along.{bind-eq-ok, pure-eq-ok, gets-eq-ok, load-eq-ok}
use janguage.Checker.Rules.{Extending, Extending-allocate, Extending-with_block, Extending-bind}
use janguage.Checker.Sets.{Extending-report, Extending-set_inferred_type}
use janguage.Checker.Stores.{store-Extends}

allocate-new :
    (x : Node) (s s' : State) (a : Address) → allocate x s ≡ ok (a, s') → node_of s'.pool a ≡ some x
unfolding allocate node_of
allocate-new x s s' a e =
    let p : s'.pool ≡ s.pool ++ x ∷ [] = cc e in
    let q : a ≡ at (length s.pool) = cc e in
    ap (λ pool. node_of pool a) p ∙ (ap (node_of (s.pool ++ x ∷ [])) q ∙ node_at-last s.pool x)

statement_Step :
    (pool : Pool) (x y : Node) (r : Address)
    → node_of pool r ≡ some y
    → is_return y ≡ true
    → (with_statement (some r) x ≡ x) ⊎ Step pool x (with_statement (some r) x)
unfolding with_statement
statement_Step pool (Node.block xs parent kind) y r n h =
    inr (returns xs parent kind r y n h refl refl)
statement_Step pool Node.nop y r n h = inl refl
statement_Step pool x y r n h = inl refl

pub Extending-add_return : (body : Address) → Extending (add_return body)
unfolding add_return
Extending-add_return body = record {
  from = λ s b s' run.
      let put = λ (r : Address). load body >>= λ x. store body (with_statement (some r) x) in
      let (nothing, s1, e1, k1) =
        bind-eq-ok (allocate Node.nop) (λ nothing. allocate (Node.return_statement nothing) >>= put)
          s b s' run in
      let (r, s2, e2, k2) = bind-eq-ok (allocate (Node.return_statement nothing)) put s1 b s' k1 in
      let (x, s3, e3, k3) =
        bind-eq-ok (load body) (λ x. store body (with_statement (some r) x)) s2 b s' k2 in
      let (here, p) = load-eq-ok body x s2 s3 e3 in
      let st =
        statement_Step s2.pool x (Node.return_statement nothing) r (allocate-new _ s1 s2 r e2)
          refl in
      let stored =
        store-Extends body x (with_statement (some r) x) s2 s' b here st
          (subst (λ s3. store body (with_statement (some r) x) s3 ≡ ok (b, s')) p k3) in
      Extends-trans s s1 s' ((Extending-allocate Node.nop).from s nothing s1 e1) (
        Extends-trans s1 s2 s'
          ((Extending-allocate (Node.return_statement nothing)).from s1 r s2 e2) stored);
}

resize_errors-Extends :
    (s s1 s' : State) (b : Unit {0})
    → Extends s s1
    → resize_errors (length s.errors) s1 ≡ ok (b, s')
    → Extends s s'
unfolding resize_errors
resize_errors-Extends s s1 s' b x e =
    let (more, h) = x.errors in
    let p : record s1 { errors = take (length s.errors) s1.errors } ≡ s' = cc e in
    subst (Extends s) p (record {
      nodes = x.nodes;
      types = x.types;
      errors = (
        [],
        ap (take (length s.errors)) h ∙ (take-append s.errors more ∙ sym (append-nil s.errors)),
      );
      block = x.block;
      procedure = x.procedure;
      tables = x.tables;
      containing = x.containing;
    })

settle_errors-Extends :
    (a : Address) (kind : CompilerErrorKind) (s s1 s' : State) (b : Unit {0})
    → Extends s s1
    → settle_errors a (length s.errors) kind s1 ≡ ok (b, s')
    → Extends s s'
unfolding settle_errors
settle_errors-Extends a no_error s s1 s' b x e =
    subst (Extends s) (sym (pure-eq-ok tt b s1 s' e).1) x
settle_errors-Extends a declaration_error s s1 s' b x e =
    subst (Extends s) (sym (pure-eq-ok tt b s1 s' e).1) x
settle_errors-Extends a typecheck_error s s1 s' b x e =
    let before = length s.errors in
    let settle = λ (now : ℕ).
      if before == now then report a false Error.no_error_found else resize_errors before in
    let (now, s2, e1, k1) = bind-eq-ok (gets (λ s. length s.errors)) settle s1 b s' e in
    let p = (gets-eq-ok _ now s1 s2 e1).1 in
    let k2 = subst (λ s2. settle now s2 ≡ ok (b, s')) p k1 in decide (before == now) k2
  where
    decide :
        (t : Bool)
        → (if t then report a false Error.no_error_found else resize_errors (length s.errors)) s1
          ≡ ok (b, s')
        → Extends s s'
    decide true k =
        Extends-trans s s1 s' x ((Extending-report a false Error.no_error_found).from s1 b s' k)
    decide false k = resize_errors-Extends s s1 s' b x k

module _ (typecheck : NodePointer → Check (Unit {0}))
    (below : (p : NodePointer) → Extending (typecheck p)) where
  pub Extending-check_statements :
      (ps : List NodePointer) → Extending (check_statements typecheck ps)
  unfolding check_statements
  Extending-check_statements [] = search janguage.Checker.Rules.extending_rules
  Extending-check_statements (p ∷ ps) =
      Extending-bind (typecheck p) (λ _. check_statements typecheck ps) (below p)
        (λ _. Extending-check_statements ps)

  block_statements :
      (a : Address) (ps : List NodePointer) (kind : CompilerErrorKind)
      → Extending (
          gets (λ s. length s.errors) >>= λ before.
          check_statements typecheck ps >> settle_errors a before kind)
  block_statements a ps kind = record {
    from = λ s b s' run.
        let rest = λ (before : ℕ). check_statements typecheck ps >> settle_errors a before kind in
        let (before, s1, e1, k1) = bind-eq-ok (gets (λ s. length s.errors)) rest s b s' run in
        let (h, p) = gets-eq-ok (λ s. length s.errors) before s s1 e1 in
        let (u, s2, e2, k2) =
          bind-eq-ok (check_statements typecheck ps) (λ _. settle_errors a before kind) s1 b s'
            k1 in
        let x = (Extending-check_statements ps).from s1 u s2 e2 in
        settle_errors-Extends a kind s s2 s' b (subst (λ s. Extends s s2) p x)
          (subst (λ n. settle_errors a n kind s2 ≡ ok (b, s')) h k2);
  }

  pub Extending-check_block :
      (a : Address) (ps : List NodePointer) (kind : CompilerErrorKind)
      → Extending (check_block typecheck a ps kind)
  unfolding check_block
  Extending-check_block a ps kind =
      Extending-bind (set_inferred_type a voyd)
        (λ _. with_block (some a) (
          gets (λ s. length s.errors) >>= λ before.
          check_statements typecheck ps >> settle_errors a before kind))
        (Extending-set_inferred_type a voyd)
        (λ _. Extending-with_block (some a) _ (block_statements a ps kind))
