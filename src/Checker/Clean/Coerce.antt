-- ===== src/Checker/Clean/Coerce.antt =====
-- typecheck.cpp: `coerce_types` and the operators in programs in which a poisoned node is reported. The
-- poison type is what `coerce_types` returns only with an error.
use mathlib.Core.Path.{subst}
use janguage.Base.{◌≡◌, ◌≢◌, sym, Bool, true, false, ℤ, [], Option, none, some, ok, if◌then◌else◌}
use janguage.Types.{Kind}
use janguage.Nodes.{Address, NodePointer}
use janguage.Checker.{Error, State, Check, pure, ◌>>=◌}
use janguage.Checker.Casts.{
  do_implicit_cast_if_necessary, cast_or_report, put_cast, refuse_cast, coerce_operands,
  coerce_kinds, coerce_pair, coerce_types, make_type_cast, set_inferred_type,
}
use janguage.Checker.Along.{bind-eq-ok, pure-eq-ok}
use janguage.Checker.Clean.{IsSound, Soundly, Sounding, set_inferred_type-Soundly, sound_rules}
use janguage.Checker.Clean.Casts.{
  Complains, errors-ne-nil, Complains-report_types, Sounding-report_types, Sounding-spread_poison,
  Sounding-do_implicit_cast, poison_differs,
}
use janguage.Checker.Clean.Stores.{Sounding-cast_field, Sounding-read_field}

pub ruleset coerce_rules = (
  sound_rules, Sounding-cast_field, Sounding-read_field, Sounding-report_types,
  Sounding-spread_poison,
)

Sounding-coerce_operands : (a : Address) (type : NodePointer) → Sounding (coerce_operands a type)
unfolding coerce_operands
Sounding-coerce_operands a type = search coerce_rules depth 30

Sounding-coerce_kinds :
    (a : Address) (l r : Kind × ℤ) (refuse : Check Address)
    → Sounding refuse
    → Sounding (coerce_kinds a l r refuse)
unfolding coerce_kinds
Sounding-coerce_kinds a (k, n) (k', n') refuse h =
    search (coerce_rules, Sounding-coerce_operands) depth 30

Sounding-coerce_pair :
    (a : Address) (l r : Option (Kind × ℤ)) (refuse : Check Address)
    → Sounding refuse
    → Sounding (coerce_pair a l r refuse)
unfolding coerce_pair
Sounding-coerce_pair a (some l) (some r) refuse h = Sounding-coerce_kinds a l r refuse h
Sounding-coerce_pair a none r refuse h = h
Sounding-coerce_pair a (some l) none refuse h = h

pub Sounding-coerce_types : (a : Address) → Sounding (coerce_types a)
unfolding coerce_types
Sounding-coerce_types a = search (coerce_rules, Sounding-coerce_pair) depth 30

-- An action whose result has a property only with an error reported.
pub record Blames {A : Type 0} (P : A → Type 0) (m : Check A) : Type 0 where
  pub after : (s : State) (a : A) (s' : State) → m s ≡ ok (a, s') → P a → s'.errors ≢ []

module _ {A : Type 0} (P : A → Type 0) where
  pub Blames-Complains : (m : Check A) → Complains m → Blames P m
  Blames-Complains m h = record { after = λ s a s' e p. h.after s a s' e }

  pub Blames-pure : (a : A) → ¬ P a → Blames P (pure a)
  Blames-pure a h = record {
    after = λ s b s' e p. absurd (h (subst P (pure-eq-ok a b s s' e).0 p));
  }

  pub Blames-if :
      (b : Bool) (m n : Check A) → Blames P m → Blames P n → Blames P (if b then m else n)
  Blames-if true m n h h' = h
  Blames-if false m n h h' = h'

  pub Blames-then :
      {B : Type 0} (m : Check B) (f : B → Check A) → ((b : B) → Blames P (f b)) → Blames P (m >>= f)
  Blames-then m f h = record {
    after = λ s b s'' e. let (a, s', em, ef) = bind-eq-ok m f s b s'' e in (h a).after s' b s'' ef;
  }

  -- A complaint, and a result after it.
  pub Blames-after : {B : Type 0} (m : Check B) (a : A) → Complains m → Blames P (m >>= λ _. pure a)
  Blames-after m a h = record {
    after = λ s b s'' e p.
        let (c, s', em, ef) = bind-eq-ok m (λ _. pure a) s b s'' e in
        subst (λ s. s.errors ≢ []) (sym (pure-eq-ok a b s' s'' ef).1) (h.after s c s' em);
  }

abbrev pub Failed : Bool × Address → Type 0
Failed r = r.0 ≡ false

Blames-put_cast : (a t : Address) → Blames Failed (put_cast a t)
unfolding put_cast
Blames-put_cast a t = Blames-then Failed (make_type_cast t a) _ (λ cast.
    Blames-then Failed (set_inferred_type cast t) _
      (λ _. Blames-pure Failed (true, cast) (λ e. cc e)))

Blames-refuse_cast : (a t : Address) (from : NodePointer) → Blames Failed (refuse_cast a t from)
unfolding refuse_cast
Blames-refuse_cast a t from =
    Blames-after Failed _ (false, a) (Complains-report_types a _ Error.invalid_cast from (some t))

Blames-cast_or_report : (a t : Address) → Blames Failed (cast_or_report a t)
unfolding cast_or_report
Blames-cast_or_report a t = Blames-then Failed _ _ (λ can_cast.
    Blames-then Failed _ _
      (λ from. Blames-if Failed can_cast _ _ (Blames-put_cast a t) (Blames-refuse_cast a t from)))

pub Blames-do_implicit_cast :
    (a : Address) (type : NodePointer) → Blames Failed (do_implicit_cast_if_necessary a type)
unfolding do_implicit_cast_if_necessary
Blames-do_implicit_cast a type = Blames-then Failed _ _ (λ t. Blames-then Failed _ _ (λ y.
    Blames-then Failed _ _ (λ _. Blames-then Failed _ _ (λ p. Blames-then Failed _ _ (λ _.
      Blames-then Failed _ _ (λ x. Blames-then Failed _ _ (λ _. Blames-then Failed _ _ (λ same.
        Blames-if Failed same _ _ (Blames-pure Failed (true, a) (λ e. cc e))
          (Blames-cast_or_report a t)))))))))
