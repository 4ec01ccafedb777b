-- ===== src/Checker/Clean/Blames.antt =====
-- typecheck.cpp: the poison type is what `coerce_types` returns only with an error.
use mathlib.Core.Path.{subst}
use janguage.Base.{
  ◌≡◌, ◌≢◌, refl, ap, sym, ◌∙◌, Bool, true, false, not, ◌||◌, ℤ, [], Option, none, some, ok,
  if◌then◌else◌,
}
use janguage.Types.{Kind}
use janguage.Nodes.{Address, NodePointer, Node, is_type_node}
use janguage.Checker.{
  Error, State, Check, poison, pure, gets, reads, guard, load, follow, store, ◌>>=◌, ◌>>◌,
}
use janguage.Checker.Compare.{types_equal}
use janguage.Checker.Casts.{
  Field, lhs, rhs, do_implicit_cast_if_necessary, cast_or_report, cast_field, is_nop, field_of,
  with_field, read_field, spread_poison, coerce_operands, coerce_kinds, coerce_pair, coerce_types,
  report_types, set_inferred_type,
}
use janguage.Checker.Along.{bind-eq-ok, pure-eq-ok, follow-eq-ok, reads-eq-ok, guard-eq-ok}
use janguage.Checker.Rules.{Extending}
use janguage.Checker.Cases.{field_rules}
use janguage.Checker.Clean.{Sounding, set_inferred_type-Soundly}
use janguage.Checker.Clean.Casts.{errors-ne-nil, Complains-report_types, poison_differs}
use janguage.Checker.Clean.Coerce.{
  Blames, Blames-then, Blames-if, Blames-after, Blames-do_implicit_cast, Sounding-coerce_types,
}

-- What follows the assertions on the type.
cast_to : Address → Address → Check (Bool × Address)
cast_to a t = do
  x ← load a
  guard (not (is_type_node x) || is_nop x)
  same ← reads (λ s. types_equal s (s.inferred a) (some t))
  if same then pure (true, a) else cast_or_report a t

checked_cast_to : Address → Address → Check (Bool × Address)
checked_cast_to a t = do
  poisoned ← reads (λ s. types_equal s (some t) (some poison))
  guard (not poisoned)
  cast_to a t

-- No expression is cast to the poison type.
checked-fine :
    (a t : Address) (s s' : State) (r : Bool × Address)
    → checked_cast_to a t s ≡ ok (r, s')
    → t ≢ poison
unfolding checked_cast_to
checked-fine a t s s' r run e =
    let (p, s1, e1, k1) =
      bind-eq-ok (reads (λ s. types_equal s (some t) (some poison)))
        (λ p. guard (not p) >>= λ _. cast_to a t) s r s' run in
    let (same, q1) = reads-eq-ok (λ s. types_equal s (some t) (some poison)) p s s1 e1 in
    let (u, s2, e2, k2) = bind-eq-ok (guard (not p)) (λ _. cast_to a t) s1 r s' k1 in
    let (differs, q2) = guard-eq-ok (not p) u s1 s2 e2 in poison_differs s t p same differs e

cast-fine :
    (a : Address) (type : NodePointer) (s s' : State) (r : Bool × Address)
    → do_implicit_cast_if_necessary a type s ≡ ok (r, s')
    → type ≢ some poison
unfolding do_implicit_cast_if_necessary checked_cast_to cast_to
cast-fine a type s s' r run e =
    let rest = λ (t : Address) (y : Node). guard (is_type_node y) >>= λ _. checked_cast_to a t in
    let (t, s1, e1, k1) = bind-eq-ok (follow type) (λ t. load t >>= rest t) s r s' run in
    let (y, s2, e2, k2) = bind-eq-ok (load t) (rest t) s1 r s' k1 in
    let (u, s3, e3, k3) =
      bind-eq-ok (guard (is_type_node y)) (λ _. checked_cast_to a t) s2 r s' k2 in
    let (h, _) = follow-eq-ok type t s s1 e1 in checked-fine a t s3 s' r k3 (cc (h, e))

-- The outcome of a cast of a field.
pub cast_field-outcome :
    (f : Field) (a : Address) (type : NodePointer) (s s' : State) (r : Bool)
    → cast_field f a type s ≡ ok (r, s')
    → (type ≢ some poison) × (r ≡ false → s'.errors ≢ [])
unfolding cast_field store
cast_field-outcome f a type s s' r run =
    let put = λ (x : Node) (c : Bool × Address). store a (with_field f c.1 x) >> pure c.0 in
    let (x, s1, e1, k1) =
      bind-eq-ok (load a)
        (λ x. follow (field_of f x) >>= λ e. do_implicit_cast_if_necessary e type >>= put x) s r s'
        run in
    let (e, s2, e2, k2) =
      bind-eq-ok (follow (field_of f x)) (λ e. do_implicit_cast_if_necessary e type >>= put x) s1 r
        s' k1 in
    let (c, s3, e3, k3) = bind-eq-ok (do_implicit_cast_if_necessary e type) (put x) s2 r s' k2 in
    let (u, s4, e4, k4) = bind-eq-ok (store a (with_field f c.1 x)) (λ _. pure c.0) s3 r s' k3 in
    let (value, p) = pure-eq-ok c.0 r s4 s' k4 in
    (
      cast-fine e type s2 s3 c e3,
      λ failed.
          let blamed = (Blames-do_implicit_cast e type).after s2 c s3 e3 (sym value ∙ failed) in
          subst (λ errors. errors ≢ [])
            (sym (ap State.errors p ∙ store-errors a (with_field f c.1 x) s3 s4 u e4)) blamed,
    )
  where
    store-errors :
        (a : Address) (y : Node) (s s' : State) (u : Unit {0})
        → store a y s ≡ ok (u, s')
        → s'.errors ≡ s.errors
    store-errors (Address.builtin i) y s s' u e = cc
    store-errors (Address.at i) y s s' u e = cc e

abbrev IsPoison : Address → Type 0
IsPoison t = t ≡ poison

-- What is done once the left operand is cast, or is not.
after_left : Address → NodePointer → Bool → Check Address
after_left a type left =
    if left
    then (do
      right ← cast_field rhs a type
      if right
          then follow type
          else (do r ← read_field rhs a; spread_poison r a >>= λ _. pure poison))
    else (do l ← read_field lhs a; spread_poison l a >>= λ _. pure poison)

Extending-after_left :
    (a : Address) (type : NodePointer) (left : Bool) → Extending (after_left a type left)
unfolding after_left
Extending-after_left a type left = search field_rules depth 30

after_right : Address → NodePointer → Bool → Check Address
after_right a type right =
    if right then follow type else (do r ← read_field rhs a; spread_poison r a >>= λ _. pure poison)

Extending-after_right :
    (a : Address) (type : NodePointer) (right : Bool) → Extending (after_right a type right)
unfolding after_right
Extending-after_right a type right = search field_rules depth 30

right-Blames : (a : Address) (type : NodePointer) → Blames IsPoison (after_left a type true)
unfolding after_left after_right
right-Blames a type = record {
  after = λ s t s' run e.
      let (right, s1, e1, k1) =
        bind-eq-ok (cast_field rhs a type) (after_right a type) s t s' run in
      let (fine, failed) = cast_field-outcome rhs a type s s1 right e1 in
      decide s1 t s' right fine failed k1 e;
}
  where
    decide :
        (s1 : State) (t : Address) (s' : State) (right : Bool)
        → type ≢ some poison
        → (right ≡ false → s1.errors ≢ [])
        → after_right a type right s1 ≡ ok (t, s')
        → t ≡ poison
        → s'.errors ≢ []
    decide s1 t s' true fine failed k e =
        let (h, _) = follow-eq-ok type t s1 s' k in absurd (fine (h ∙ ap some e))
    decide s1 t s' false fine failed k e =
        errors-ne-nil s1 s' ((Extending-after_right a type false).from s1 t s' k) (failed refl)

Blames-coerce_operands :
    (a : Address) (type : NodePointer) → Blames IsPoison (coerce_operands a type)
unfolding coerce_operands after_left
Blames-coerce_operands a type = record {
  after = λ s t s' run e.
      let (left, s1, e1, k1) = bind-eq-ok (cast_field lhs a type) (after_left a type) s t s' run in
      let (_, failed) = cast_field-outcome lhs a type s s1 left e1 in
      decide s1 t s' left failed k1 e;
}
  where
    decide :
        (s1 : State) (t : Address) (s' : State) (left : Bool)
        → (left ≡ false → s1.errors ≢ [])
        → after_left a type left s1 ≡ ok (t, s')
        → t ≡ poison
        → s'.errors ≢ []
    decide s1 t s' true failed k e = (right-Blames a type).after s1 t s' k e
    decide s1 t s' false failed k e =
        errors-ne-nil s1 s' ((Extending-after_left a type false).from s1 t s' k) (failed refl)

-- The branch with the error on signedness.
Blames-differing :
    (a : Address)
    → Blames IsPoison (do
      l ← read_field lhs a
      r ← read_field rhs a
      t ← gets (λ s. s.inferred l)
      u ← gets (λ s. s.inferred r)
      report_types a true Error.different_signedness t u
      pure poison)
Blames-differing a = Blames-then IsPoison _ _ (λ l. Blames-then IsPoison _ _ (λ r.
    Blames-then IsPoison _ _ (λ t. Blames-then IsPoison _ _ (λ u.
      Blames-after IsPoison _ poison
        (Complains-report_types a true Error.different_signedness t u)))))

Blames-coerce_kinds :
    (a : Address) (l r : Kind × ℤ) (refuse : Check Address)
    → Blames IsPoison refuse
    → Blames IsPoison (coerce_kinds a l r refuse)
unfolding coerce_kinds
Blames-coerce_kinds a (k, n) (k', n') refuse h = Blames-if IsPoison _ _ _ h (
    Blames-if IsPoison _ _ _ (Blames-differing a)
      (Blames-then IsPoison _ _ (λ _. Blames-coerce_operands a _)))

Blames-coerce_pair :
    (a : Address) (l r : Option (Kind × ℤ)) (refuse : Check Address)
    → Blames IsPoison refuse
    → Blames IsPoison (coerce_pair a l r refuse)
unfolding coerce_pair
Blames-coerce_pair a (some l) (some r) refuse h = Blames-coerce_kinds a l r refuse h
Blames-coerce_pair a none r refuse h = h
Blames-coerce_pair a (some l) none refuse h = h

Blames-coerce_types : (a : Address) → Blames IsPoison (coerce_types a)
unfolding coerce_types
Blames-coerce_types a = Blames-then IsPoison _ _ (λ l. Blames-then IsPoison _ _ (λ r.
    Blames-then IsPoison _ _ (λ t. Blames-then IsPoison _ _ (λ u. Blames-then IsPoison _ _ (λ left.
      Blames-then IsPoison _ _ (λ right. Blames-coerce_pair a left right _ (
        Blames-after IsPoison _ poison
          (Complains-report_types a true Error.invalid_operands t u))))))))

-- The type that the operands are coerced to may be set.
pub Sounding-coerced : (a : Address) → Sounding (coerce_types a >>= λ t. set_inferred_type a t)
Sounding-coerced a = record {
  from = λ s b s' run x.
      let (t, s1, e1, k1) = bind-eq-ok (coerce_types a) (set_inferred_type a) s b s' run in
      set_inferred_type-Soundly a t s1 s' b (λ p. (Blames-coerce_types a).after s t s1 e1 p) k1
        ((Sounding-coerce_types a).from s t s1 e1 x);
}
