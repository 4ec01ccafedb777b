-- ===== src/Registrar/Kept.antt =====
-- typecheck.cpp: relations between the states before and after that the steps of the registration of
-- declarations stand in, and what is put together from these steps.
use mathlib.Core.Path.{subst}
use janguage.Base.{
  ◌≡◌, inl, inr, Bool, true, false, Bool-cases, Bytes, List, [], ◌∷◌, ◌++◌, length, none, ok,
  if◌then◌else◌, Abort, arith,
}
use janguage.Nodes.{Address, at, NodePointer, Node}
use janguage.Nodes.Context.{is_null}
use janguage.Checker.{
  Error, State, Check, label, assign, pure, gets, stop, allocate, add_error, with_block,
  with_procedure, ◌>>=◌, ◌>>◌,
}
use janguage.Checker.Expressions.{find}
use janguage.Checker.Along.{
  Along, Still, still_rules, Along-Still, Along-stop, Along-if, Along-bind, Along-with_block,
  Along-with_procedure, bind-eq-ok, gets-eq-ok,
}
use janguage.Registrar.{put_table, emplace, put_containing_block}

-- What holds of each step, and of steps that follow each other.
pub record Keeping (R : State → State → Type 0) : Type 0 where
  pub unchanged : (s : State) → R s s
  pub after : (s s' s'' : State) → R s s' → R s' s'' → R s s''
  pub block :
      (b : NodePointer) (s s' : State)
      → R (record s { current_block = b }) s'
      → R s (record s' { current_block = s.current_block })
  pub procedure :
      (p : NodePointer) (s s' : State)
      → R (record s { current_procedure = p }) s'
      → R s (record s' { current_procedure = s.current_procedure })
  pub error : (s : State) (e : Error) → R s (record s { errors = s.errors ++ e ∷ [] })
  pub containing :
      (s : State) (d : Address) (b : NodePointer)
      → R s (record s { containing_block = assign d b s.containing_block })
  pub entry :
      (s : State) (b : Address) (name : Bytes) (d : Address)
      → find name (s.table b) ≡ none
      → R s (record s { table = assign b (s.table b ++ (name, d) ∷ []) s.table })
  pub declared :
      (s : State) (name : Bytes) (a : Address)
      → R s (record s {
        pool = s.pool ++ Node.declaration name label a false ∷ [];
        inferred = assign (at (length s.pool)) none s.inferred;
      })

module _ (R : State → State → Type 0) (keeping : Keeping R) where
  pub Kept-Still : {A : Type 0} (m : Check A) → Still m → Along R m
  Kept-Still m h = Along-Still R keeping.unchanged m h

  pub Kept-stop : {A : Type 0} (reason : Abort) → Along R (stop {A = A} reason)
  Kept-stop reason = Along-stop R reason

  pub Kept-if :
      {A : Type 0} (b : Bool) (m n : Check A) → Along R m → Along R n → Along R (if b then m else n)
  Kept-if b m n h h' = Along-if R b m n h h'

  pub Kept-bind :
      {A B : Type 0} (m : Check A) (f : A → Check B)
      → Along R m
      → ((a : A) → Along R (f a))
      → Along R (m >>= f)
  Kept-bind m f h h' = Along-bind R keeping.after m f h h'

  pub Kept-with_block :
      {A : Type 0} (b : NodePointer) (m : Check A) → Along R m → Along R (with_block b m)
  Kept-with_block b m h = Along-with_block R b m (keeping.block b) h

  pub Kept-with_procedure :
      {A : Type 0} (p : NodePointer) (m : Check A) → Along R m → Along R (with_procedure p m)
  Kept-with_procedure p m h = Along-with_procedure R p m (keeping.procedure p) h

  pub Kept-add_error : (e : Error) → Along R (add_error e)
  unfolding add_error
  Kept-add_error e = record {
    from = λ s b s' h.
        let same_state : record s { errors = s.errors ++ e ∷ [] } ≡ s' = cc in
        subst (R s) same_state (keeping.error s e);
  }

  pub Kept-put_containing_block :
      (d : Address) (b : NodePointer) → Along R (put_containing_block d b)
  unfolding put_containing_block
  Kept-put_containing_block d b = record {
    from = λ s u s' h.
        let same_state : record s { containing_block = assign d b s.containing_block } ≡ s' = cc in
        subst (R s) same_state (keeping.containing s d b);
  }

  pub Kept-declare :
      (name : Bytes) (a : Address) → Along R (allocate (Node.declaration name label a false))
  unfolding allocate
  Kept-declare name a = record {
    from = λ s b s' h.
        let same_state : record s {
          pool = s.pool ++ Node.declaration name label a false ∷ [];
          inferred = assign (at (length s.pool)) none s.inferred;
        }
            ≡ s' =
          cc in
        subst (R s) same_state (keeping.declared s name a);
  }

  emplaced : Address → Bytes → Address → List (Bytes × Address) → Check Bool
  emplaced b name d table =
      if is_null (find name table)
      then put_table b (table ++ (name, d) ∷ []) >> pure true
      else pure false

  emplaced-Kept :
      (b : Address) (name : Bytes) (d : Address) (s s' : State) (r : Bool)
      → emplaced b name d (s.table b) s ≡ ok (r, s')
      → R s s'
  unfolding emplaced put_table ◌>>=◌ pure
  emplaced-Kept b name d s s' r e = elim (Bool-cases (is_null (find name (s.table b)))) [
    | inl h ↦
        let new : find name (s.table b) ≡ none = ground arith in
        let p : record s { table = assign b (s.table b ++ (name, d) ∷ []) s.table } ≡ s' =
          ground arith in
        subst (R s) p (keeping.entry s b name d new)
    | inr h ↦ let p : s ≡ s' = ground arith in subst (R s) p (keeping.unchanged s)
  ]

  pub Kept-emplace : (b : Address) (name : Bytes) (d : Address) → Along R (emplace b name d)
  unfolding emplace emplaced
  Kept-emplace b name d = record {
    from = λ s r s' e.
        let (table, s1, e1, k) = bind-eq-ok (gets (λ s. s.table b)) (emplaced b name d) s r s' e in
        let (h, p) = gets-eq-ok (λ s. s.table b) table s s1 e1 in
        emplaced-Kept b name d s s' r (
          subst (λ table. emplaced b name d table s ≡ ok (r, s')) h
            (subst (λ s1. emplaced b name d table s1 ≡ ok (r, s')) p k));
  }

pub ruleset kept_rules = (
  still_rules, Kept-Still, Kept-stop, Kept-if, Kept-bind, Kept-with_block, Kept-with_procedure,
  Kept-add_error, Kept-put_containing_block, Kept-declare, Kept-emplace,
)
