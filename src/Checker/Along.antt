-- ===== src/Checker/Along.antt =====
-- typecheck.cpp and node.h: a rule for each way in which the methods of the passes are put together.
use mathlib.Core.Path.{subst}
use janguage.Base.{
  ◌≡◌, refl, sym, Bool, true, false, none, some, if◌then◌else◌, Outcome, ok, abort, Abort, arith,
}
use janguage.Nodes.{Address, NodePointer, Node}
use janguage.Checker.{
  State, Check, node_of, pure, stop, gets, reads, guard, load, follow, with_block, with_procedure,
  ◌>>=◌,
}

-- What a step that only reads the state returns.
pub pure-eq-ok : {A : Type 0} (a b : A) (s s' : State) → pure a s ≡ ok (b, s') → (b ≡ a) × (s' ≡ s)
unfolding pure
pure-eq-ok a b s s' e = (cc, cc)

pub gets-eq-ok :
    {A : Type 0} (f : State → A) (a : A) (s s' : State)
    → gets f s ≡ ok (a, s')
    → (a ≡ f s) × (s' ≡ s)
unfolding gets
gets-eq-ok f a s s' e = (cc, cc)

pub reads-eq-ok :
    {A : Type 0} (f : State → Outcome A) (a : A) (s s' : State)
    → reads f s ≡ ok (a, s')
    → (f s ≡ ok a) × (s' ≡ s)
unfolding reads
reads-eq-ok f a s s' e = ground arith

pub guard-eq-ok :
    (t : Bool) (b : Unit {0}) (s s' : State) → guard t s ≡ ok (b, s') → (t ≡ true) × (s' ≡ s)
unfolding guard
guard-eq-ok true b s s' e = (refl, cc)
guard-eq-ok false b s s' e = cc

pub load-eq-ok :
    (a : Address) (x : Node) (s s' : State)
    → load a s ≡ ok (x, s')
    → (node_of s.pool a ≡ some x) × (s' ≡ s)
unfolding load
load-eq-ok a x s s' e = ground arith

pub follow-eq-ok :
    (p : NodePointer) (a : Address) (s s' : State)
    → follow p s ≡ ok (a, s')
    → (p ≡ some a) × (s' ≡ s)
unfolding follow
follow-eq-ok none a s s' e = cc
follow-eq-ok (some b) a s s' e = (cc, cc)

-- An action that leaves the state as it is.
pub record Still {A : Type 0} (m : Check A) : Type 0 where
  pub at_state : (s : State) (a : A) (s' : State) → m s ≡ ok (a, s') → s' ≡ s

pub Still-pure : {A : Type 0} (a : A) → Still (pure a)
Still-pure a = record { at_state = λ s b s' e. (pure-eq-ok a b s s' e).1 }

pub Still-gets : {A : Type 0} (f : State → A) → Still (gets f)
Still-gets f = record { at_state = λ s b s' e. (gets-eq-ok f b s s' e).1 }

pub Still-reads : {A : Type 0} (f : State → Outcome A) → Still (reads f)
Still-reads f = record { at_state = λ s b s' e. (reads-eq-ok f b s s' e).1 }

pub Still-guard : (b : Bool) → Still (guard b)
Still-guard b = record { at_state = λ s c s' e. (guard-eq-ok b c s s' e).1 }

pub Still-load : (a : Address) → Still (load a)
Still-load a = record { at_state = λ s b s' e. (load-eq-ok a b s s' e).1 }

pub Still-follow : (p : NodePointer) → Still (follow p)
Still-follow p = record { at_state = λ s b s' e. (follow-eq-ok p b s s' e).1 }

pub ruleset still_rules =
    (Still-pure, Still-gets, Still-reads, Still-guard, Still-load, Still-follow)

-- The two parts of a sequence that returns.
pub bind-eq-ok :
    {A B : Type 0} (m : Check A) (f : A → Check B) (s : State) (b : B) (s'' : State)
    → (m >>= f) s ≡ ok (b, s'')
    → (a : A) × (s' : State) × (m s ≡ ok (a, s')) × (f a s' ≡ ok (b, s''))
unfolding ◌>>=◌
bind-eq-ok {A} {B} m f s b s'' e = cases (m s) refl e
  where
    cases :
        (o : Outcome (A × State))
        → m s ≡ o
        → (elim o as (λ _. Outcome (B × State)) [
          | ok (a, s') ↦ f a s'
          | abort reason ↦ abort reason
        ])
          ≡ ok (b, s'')
        → (a : A) × (s' : State) × (m s ≡ ok (a, s')) × (f a s' ≡ ok (b, s''))
    cases (ok (a, s')) h e = (a, s', h, e)
    cases (abort reason) h e = cc

-- What an action makes of a state stands in a relation to it.
pub record Along (R : State → State → Type 0) {A : Type 0} (m : Check A) : Type 0 where
  pub from : (s : State) (a : A) (s' : State) → m s ≡ ok (a, s') → R s s'

module _ (R : State → State → Type 0) where
  pub Along-Still : {A : Type 0} → ((s : State) → R s s) → (m : Check A) → Still m → Along R m
  Along-Still R-refl m h = record {
    from = λ s a s' e. subst (R s) (sym (h.at_state s a s' e)) (R-refl s);
  }

  pub Along-stop : {A : Type 0} (reason : Abort) → Along R (stop {A = A} reason)
  unfolding stop
  Along-stop reason = record { from = λ s a s' e. absurd (cc e) }

  pub Along-if :
      {A : Type 0} (b : Bool) (m n : Check A) → Along R m → Along R n → Along R (if b then m else n)
  Along-if true m n h h' = h
  Along-if false m n h h' = h'

  pub Along-bind :
      {A B : Type 0}
      → ((s s' s'' : State) → R s s' → R s' s'' → R s s'')
      → (m : Check A) (f : A → Check B) → Along R m
      → ((a : A) → Along R (f a))
      → Along R (m >>= f)
  Along-bind R-trans m f h h' = record {
    from = λ s b s'' e.
        let (a, s', em, ef) = bind-eq-ok m f s b s'' e in
        R-trans s s' s'' (h.from s a s' em) ((h' a).from s' b s'' ef);
  }

  -- The fields that a scope sets are what they were when it ends.
  pub Along-with_block :
      {A : Type 0} (b : NodePointer) (m : Check A)
      → ((s s' : State)
          → R (record s { current_block = b }) s'
          → R s (record s' { current_block = s.current_block }))
      → Along R m
      → Along R (with_block b m)
  unfolding with_block
  Along-with_block {A} b m restore h = record {
    from = λ s a s' e. cases s a s' (m (record s { current_block = b })) refl e;
  }
    where
      cases :
          (s : State) (a : A) (s' : State) (o : Outcome (A × State))
          → m (record s { current_block = b }) ≡ o
          → (elim o as (λ _. Outcome (A × State)) [
            | ok (a, s') ↦ ok (a, record s' { current_block = s.current_block })
            | abort reason ↦ abort reason
          ])
            ≡ ok (a, s')
          → R s s'
      cases s a s' (abort reason) p e = cc
      cases s a s' (ok (a', s1)) p e =
          let same_state : record s1 { current_block = s.current_block } ≡ s' = cc in
          subst (R s) same_state (restore s s1 (h.from (record s { current_block = b }) a' s1 p))

  pub Along-with_procedure :
      {A : Type 0} (p : NodePointer) (m : Check A)
      → ((s s' : State)
          → R (record s { current_procedure = p }) s'
          → R s (record s' { current_procedure = s.current_procedure }))
      → Along R m
      → Along R (with_procedure p m)
  unfolding with_procedure
  Along-with_procedure {A} p m restore h = record {
    from = λ s a s' e. cases s a s' (m (record s { current_procedure = p })) refl e;
  }
    where
      cases :
          (s : State) (a : A) (s' : State) (o : Outcome (A × State))
          → m (record s { current_procedure = p }) ≡ o
          → (elim o as (λ _. Outcome (A × State)) [
            | ok (a, s') ↦ ok (a, record s' { current_procedure = s.current_procedure })
            | abort reason ↦ abort reason
          ])
            ≡ ok (a, s')
          → R s s'
      cases s a s' (abort reason) q e = cc
      cases s a s' (ok (a', s1)) q e =
          let same_state : record s1 { current_procedure = s.current_procedure } ≡ s' = cc in
          subst (R s) same_state
            (restore s s1 (h.from (record s { current_procedure = p }) a' s1 q))
