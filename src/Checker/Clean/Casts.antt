-- ===== src/Checker/Clean/Casts.antt =====
-- typecheck.cpp: casts and coercion in programs in which a poisoned node is reported.
use mathlib.Core.Path.{subst}
use janguage.Base.{
  ◌≡◌, ◌≢◌, inl, inr, refl, ap, sym, ◌∙◌, Bool, true, false, not, ◌||◌, List, [], ◌∷◌, ◌++◌,
  Option-cases, none, some, ok, if◌then◌else◌, Bytes,
}
use janguage.Nodes.{Address, NodePointer, Node, is_type_node}
use janguage.Checker.{
  Error, State, Check, poison, node_of, pure, reads, guard, load, follow, allocate, add_error,
  ◌>>=◌, ◌>>◌,
}
use janguage.Checker.Compare.{types_equal, is_poisoned}
use janguage.Checker.Casts.{
  set_inferred_type, report, report_types, spread_poison, make_type_cast, put_cast, refuse_cast,
  cast_or_report, do_implicit_cast_if_necessary, is_nop,
}
use janguage.Checker.Along.{bind-eq-ok, pure-eq-ok, reads-eq-ok, guard-eq-ok}
use janguage.Checker.Sets.{equal-poison, set_inferred_type-eq-ok}
use janguage.Checker.Extends.{Extends}
use janguage.Checker.Rules.{Extending}
use janguage.Checker.Clean.{
  Plain, IsSound, Soundly, Sounding, append-ne-nil, set_inferred_type-Soundly,
  Sounding-set_inferred_type, Sounding-allocate, Sounding-bind, sound_rules,
}

-- An action that returns only with an error reported.
pub record Complains {A : Type 0} (m : Check A) : Type 0 where
  pub after : (s : State) (a : A) (s' : State) → m s ≡ ok (a, s') → s'.errors ≢ []

pub errors-ne-nil : (s s' : State) → Extends s s' → s.errors ≢ [] → s'.errors ≢ []
errors-ne-nil s s' x h e = let (more, p) = x.errors in h (append-eq-nil s.errors more (sym p ∙ e))
  where
    append-eq-nil : (xs ys : List Error) → xs ++ ys ≡ [] → xs ≡ []
    append-eq-nil [] ys e = refl
    append-eq-nil (x ∷ xs) ys e = cc

pub Complains-then :
    {A B : Type 0} (m : Check A) (f : A → Check B)
    → ((a : A) → Complains (f a))
    → Complains (m >>= f)
Complains-then m f h = record {
  after = λ s b s'' e. let (a, s', em, ef) = bind-eq-ok m f s b s'' e in (h a).after s' b s'' ef;
}

pub Complains-keep :
    {A B : Type 0} (m : Check A) (f : A → Check B)
    → Complains m
    → ((a : A) → Extending (f a))
    → Complains (m >>= f)
Complains-keep m f h k = record {
  after = λ s b s'' e.
      let (a, s', em, ef) = bind-eq-ok m f s b s'' e in
      errors-ne-nil s' s'' ((k a).from s' b s'' ef) (h.after s a s' em);
}

add_error-errors :
    (e : Error) (s s' : State) (b : Unit {0})
    → add_error e s ≡ ok (b, s')
    → (s'.pool ≡ s.pool) × (s'.errors ≢ [])
unfolding add_error
add_error-errors e s s' b h =
    let p : s'.errors ≡ s.errors ++ e ∷ [] = cc h in
    (cc h, λ q. append-ne-nil s.errors e (sym p ∙ q))

Complains-add_error : (e : Error) → Complains (add_error e)
Complains-add_error e = record { after = λ s b s' h. (add_error-errors e s s' b h).1 }

Complains-report : (a : Address) (poisons : Bool) (e : Error) → Complains (report a poisons e)
unfolding report
Complains-report a poisons e = Complains-then _ _ (λ _. Complains-add_error e)

pub Complains-report_types :
    (a : Address) (poisons : Bool) (kind : Bytes → Bytes → Error) (t u : NodePointer)
    → Complains (report_types a poisons kind t u)
unfolding report_types
Complains-report_types a poisons kind t u =
    Complains-then _ _ (λ l. Complains-then _ _ (λ r. Complains-report a poisons (kind l r)))

-- An error may poison the node that it is about.
pub Sounding-report : (a : Address) (poisons : Bool) (e : Error) → Sounding (report a poisons e)
unfolding report
Sounding-report a true e = record {
  from = λ s b s' run x.
      let (b1, s1, e1, e2) =
        bind-eq-ok (set_inferred_type a poison) (λ _. add_error e) s b s' run in
      let (pool, nonempty) = add_error-errors e s1 s' b e2 in
      let (_, p) = set_inferred_type-eq-ok a poison s s1 b1 e1 in
      record {
        plain = subst Plain (sym (pool ∙ ap State.pool p)) x.plain;
        clean = λ _ _. nonempty;
      };
}
Sounding-report a false e = search sound_rules depth 30

ruleset report_rules = (sound_rules, Sounding-report)

pub Sounding-report_types :
    (a : Address) (poisons : Bool) (kind : Bytes → Bytes → Error) (t u : NodePointer)
    → Sounding (report_types a poisons kind t u)
unfolding report_types
Sounding-report_types a poisons kind t u = search report_rules depth 30

-- Where a node is poisoned, there is an error.
is_poisoned-errors :
    (s : State) (a : Address)
    → IsSound s
    → types_equal s (s.inferred a) (some poison) ≡ ok true
    → s.errors ≢ []
unfolding types_equal
is_poisoned-errors s a x h = elim (Option-cases (s.inferred a)) [
  | inl e ↦ absurd (missing s (subst (λ t. types_equal s t (some poison) ≡ ok true) e h))
  | inr (t, e) ↦
      let p = equal-poison s t (subst (λ t. types_equal s t (some poison) ≡ ok true) e h) in
      x.clean a (e ∙ ap some (x.plain.basics t p))
]
  where
    missing : (s : State) → types_equal s none (some poison) ≡ ok true → ⊥
    missing s e = cc e

pub poison_differs :
    (s : State) (t : Address) (p : Bool)
    → types_equal s (some t) (some poison) ≡ ok p
    → not p ≡ true
    → t ≡ poison
    → ⊥
unfolding types_equal node_of
poison_differs s t p same differs e =
    let same' : types_equal s (some poison) (some poison) ≡ ok p =
      subst (λ t. types_equal s (some t) (some poison) ≡ ok p) e same in
    cc (same', differs)

-- Poison spreads only from a node that is poisoned.
pub Sounding-spread_poison : (a b : Address) → Sounding (spread_poison a b)
unfolding spread_poison is_poisoned
Sounding-spread_poison a b = record {
  from = λ s r s' run.
      let spread =
        λ (p : Bool). if p then set_inferred_type b poison >> pure true else pure false in
      let (poisoned, s1, e1, k1) = bind-eq-ok (reads (λ s. is_poisoned s a)) spread s r s' run in
      let (h, p) = reads-eq-ok (λ s. is_poisoned s a) poisoned s s1 e1 in
      cases s s' r poisoned h (subst (λ s1. spread poisoned s1 ≡ ok (r, s')) p k1);
}
  where
    cases :
        (s s' : State) (r poisoned : Bool)
        → types_equal s (s.inferred a) (some poison) ≡ ok poisoned
        → (if poisoned then set_inferred_type b poison >> pure true else pure false) s ≡ ok (r, s')
        → Soundly s s'
    cases s s' r false h k x = subst IsSound (sym (pure-eq-ok false r s s' k).1) x
    cases s s' r true h k x =
        let (u, s1, e1, e2) = bind-eq-ok (set_inferred_type b poison) (λ _. pure true) s r s' k in
        subst IsSound (sym (pure-eq-ok true r s1 s' e2).1)
          (set_inferred_type-Soundly b poison s s1 u (λ _. is_poisoned-errors s a x h) e1 x)

-- An action behind the assertion that a type is not the poison type.
guarded :
    {A : Type 0} (t : Address) (m : Check A)
    → (t ≢ poison → Sounding m)
    → Sounding (reads (λ s. types_equal s (some t) (some poison)) >>= λ p. guard (not p) >>= λ _. m)
guarded t m h = record {
  from = λ s r s' run.
      let (p, s1, e1, k1) =
        bind-eq-ok (reads (λ s. types_equal s (some t) (some poison)))
          (λ p. guard (not p) >>= λ _. m) s r s' run in
      let (same, q1) = reads-eq-ok (λ s. types_equal s (some t) (some poison)) p s s1 e1 in
      let (u, s2, e2, k2) = bind-eq-ok (guard (not p)) (λ _. m) s1 r s' k1 in
      let (differs, q2) = guard-eq-ok (not p) u s1 s2 e2 in
      let fine = λ (e : t ≡ poison). poison_differs s t p same differs e in
      subst (λ s. Soundly s s') (q2 ∙ q1) ((h fine).from s2 r s' k2);
}

Sounding-allocate_cast : (t e : Address) → t ≢ poison → Sounding (allocate (Node.type_cast t e))
Sounding-allocate_cast t e h = Sounding-allocate (Node.type_cast t e) h (λ p. cc p)

Sounding-make_type_cast : (t a : Address) → t ≢ poison → Sounding (make_type_cast t a)
unfolding make_type_cast
Sounding-make_type_cast t a h = search (sound_rules, Sounding-allocate_cast) depth 30

Sounding-put_cast : (a t : Address) → t ≢ poison → Sounding (put_cast a t)
unfolding put_cast
Sounding-put_cast a t h =
    Sounding-bind (make_type_cast t a) (λ cast. set_inferred_type cast t >> pure (true, cast))
      (Sounding-make_type_cast t a h)
      (λ cast.
        Sounding-bind (set_inferred_type cast t) (λ _. pure (true, cast))
          (Sounding-set_inferred_type cast t h) (λ _. search sound_rules))

Sounding-refuse_cast : (a t : Address) (from : NodePointer) → Sounding (refuse_cast a t from)
unfolding refuse_cast
Sounding-refuse_cast a t from = search (sound_rules, Sounding-report_types) depth 30

Sounding-cast_or_report : (a t : Address) → t ≢ poison → Sounding (cast_or_report a t)
unfolding cast_or_report
Sounding-cast_or_report a t h =
    search (sound_rules, Sounding-put_cast, Sounding-refuse_cast) depth 30

-- What follows the assertion on the type.
cast_unless_same : Address → Address → Check (Bool × Address)
cast_unless_same a t = do
  x ← load a
  guard (not (is_type_node x) || is_nop x)
  same ← reads (λ s. types_equal s (s.inferred a) (some t))
  if same then pure (true, a) else cast_or_report a t

Sounding-cast_unless_same : (a t : Address) → t ≢ poison → Sounding (cast_unless_same a t)
unfolding cast_unless_same
Sounding-cast_unless_same a t h = search (sound_rules, Sounding-cast_or_report) depth 30

pub Sounding-do_implicit_cast :
    (a : Address) (type : NodePointer) → Sounding (do_implicit_cast_if_necessary a type)
unfolding do_implicit_cast_if_necessary cast_unless_same
Sounding-do_implicit_cast a type = Sounding-bind (follow type) _ (search sound_rules) (λ t.
    Sounding-bind (load t) _ (search sound_rules) (λ y.
      Sounding-bind (guard (is_type_node y)) _ (search sound_rules)
        (λ _. guarded t (cast_unless_same a t) (Sounding-cast_unless_same a t))))
