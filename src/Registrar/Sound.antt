-- ===== src/Registrar/Sound.antt =====
-- typecheck.cpp: the registration of declarations and the type checker after it, in programs in which a
-- poisoned node is reported.
use janguage.Base.{◌≡◌, ◌≢◌, inl, inr, Bool-cases, ℕ, [], some, ok, false, length, arith}
use janguage.Nodes.{Address, at, NodePointer, Node, Pool}
use janguage.Checker.{State, poison, label, address_eq}
use janguage.Checker.Check.{typecheck, initial}
use janguage.Checker.Clean.{Plain-append, IsSound, Soundly, append-ne-nil}
use janguage.Checker.Clean.Programs.{IsPlain, Plain-program}
use janguage.Checker.Clean.Whole.{Sounding-typecheck}
use janguage.Registrar.{visit}
use janguage.Registrar.Kept.{Keeping}
use janguage.Registrar.Visits.{Kept-visit}

Soundly-Keeping : Keeping Soundly
Soundly-Keeping = record {
  unchanged = λ s x. x;
  after = λ s s' s'' p q x. q (p x);
  block = λ b s s' k x.
      let y = k (record { plain = x.plain; clean = x.clean }) in
      record { plain = y.plain; clean = y.clean };
  procedure = λ p s s' k x.
      let y = k (record { plain = x.plain; clean = x.clean }) in
      record { plain = y.plain; clean = y.clean };
  error = λ s e x. record { plain = x.plain; clean = λ a p. append-ne-nil s.errors e };
  containing = λ s d b x. record { plain = x.plain; clean = x.clean };
  entry = λ s b name d new x. record { plain = x.plain; clean = x.clean };
  declared = λ s name a x. record {
    plain =
        Plain-append s.pool (Node.declaration name label a false) (λ e. cc e) (λ e. cc e) x.plain;
    clean = λ c q. elim (Bool-cases (address_eq c (at (length s.pool)))) [
      | inl k ↦ absurd (ground arith)
      | inr k ↦ x.clean c (ground arith)
    ];
  };
}

module _ (depth fuel : ℕ) (p : NodePointer) (pool : Pool) (s s' : State) (b b' : Unit {0})
    (plain : IsPlain pool) (registered : visit depth p (initial pool) ≡ ok (b, s))
    (run : typecheck fuel p s ≡ ok (b', s')) where
  checked-IsSound : IsSound s'
  checked-IsSound =
      let fresh : IsSound (initial pool) = record {
        plain = Plain-program pool plain;
        clean = λ a e. absurd (cc e);
      } in
      (Sounding-typecheck fuel p).from s b' s' run
        ((Kept-visit Soundly Soundly-Keeping depth p).from (initial pool) b s registered fresh)

  -- Over fresh nodes of which none is the poison type, specifies it, returns it, is cast to it or has it
  -- for a signature, and none is a block that expects an error of the type checker: where `visit` and
  -- then `typecheck` return and no error has been reported, no node has been given the poison type.
  pub typecheck-unpoisoned : (a : Address) → s'.errors ≡ [] → s'.inferred a ≢ some poison
  typecheck-unpoisoned a none_reported poisoned = checked-IsSound.clean a poisoned none_reported
