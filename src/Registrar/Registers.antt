-- ===== src/Registrar/Registers.antt =====
-- typecheck.cpp: what the registration of declarations keeps.
use janguage.Base.{
  ◌≡◌, inl, inr, refl, sym, ◌∙◌, ap, false, Bool-cases, Bytes, bytes_eq_iff, List, [], ◌∷◌, ◌++◌,
  append-nil, append_assoc, none, some, arith,
}
use janguage.Nodes.{Address, Node}
use janguage.Checker.{label, Error, State, node_of, assign, address_eq, address_eq_iff}
use janguage.Checker.Expressions.{find}
use janguage.Checker.Rules.{node_of-append}
use janguage.Registrar.Kept.{Keeping}

-- The names of a table are different.
abbrev pub Distinct : List (Bytes × Address) → Type 0
Distinct [] = Unit
Distinct ((name, d) ∷ table) = (find name table ≡ none) × Distinct table

-- Nodes, and the declarations that names have, stay, and so do errors and the visitor's fields. The
-- names of each table stay different.
pub record Registers (s s' : State) : Type 0 where
  pub nodes : (a : Address) (x : Node) → node_of s.pool a ≡ some x → node_of s'.pool a ≡ some x
  pub tables : (b : Address) → (more : List (Bytes × Address)) × (s'.table b ≡ s.table b ++ more)
  pub distinct : ((b : Address) → Distinct (s.table b)) → (b : Address) → Distinct (s'.table b)
  pub errors : (more : List Error) × (s'.errors ≡ s.errors ++ more)
  pub block : s'.current_block ≡ s.current_block
  pub procedure : s'.current_procedure ≡ s.current_procedure

Registers-refl : (s : State) → Registers s s
Registers-refl s = record {
  nodes = λ a x n. n;
  tables = λ b. ([], sym (append-nil (s.table b)));
  distinct = λ h. h;
  errors = ([], sym (append-nil s.errors));
  block = refl;
  procedure = refl;
}

append_more {ℓ} :
    {A : Type ℓ} (xs ys zs : List A)
    → (more : List A) × (ys ≡ xs ++ more)
    → (more : List A) × (zs ≡ ys ++ more)
    → (more : List A) × (zs ≡ xs ++ more)
append_more xs ys zs (more, h) (more', h') =
    (more ++ more', h' ∙ (ap (λ es. es ++ more') h ∙ append_assoc xs more more'))

Registers-trans : (s s' s'' : State) → Registers s s' → Registers s' s'' → Registers s s''
Registers-trans s s' s'' x y = record {
  nodes = λ a z n. y.nodes a z (x.nodes a z n);
  tables = λ b. append_more (s.table b) (s'.table b) (s''.table b) (x.tables b) (y.tables b);
  distinct = λ h. y.distinct (x.distinct h);
  errors = append_more s.errors s'.errors s''.errors x.errors y.errors;
  block = y.block ∙ x.block;
  procedure = y.procedure ∙ x.procedure;
}

find-append :
    (name n : Bytes) (d : Address) (table : List (Bytes × Address))
    → find n table ≡ none
    → (n ≡ name → ⊥)
    → find n (table ++ (name, d) ∷ []) ≡ none
unfolding find
find-append name n d [] h ne = ground (arith, bytes_eq_iff name n)
find-append name n d ((m, e) ∷ table) h ne = ground (arith, find-append name n d table)

-- A new name may be added to a table whose names are different.
Distinct-append :
    (name : Bytes) (d : Address) (table : List (Bytes × Address))
    → find name table ≡ none
    → Distinct table
    → Distinct (table ++ (name, d) ∷ [])
unfolding find
Distinct-append name d [] h k = (refl, tt)
Distinct-append name d ((m, e) ∷ table) h (new, k) = (
  find-append name m d table new (λ p. ground (arith, bytes_eq_iff m name)),
  Distinct-append name d table (ground arith) k,
)

put_table-Registers :
    (s : State) (b : Address) (name : Bytes) (d : Address)
    → find name (s.table b) ≡ none
    → Registers s (record s { table = assign b (s.table b ++ (name, d) ∷ []) s.table })
put_table-Registers s b name d new = record {
  nodes = λ a x n. n;
  tables = λ c. elim (Bool-cases (address_eq c b)) [
    | inl e ↦
        ((name, d) ∷ [], ground (arith, address_eq_iff c b, ap s.table ((address_eq_iff c b).0 e)))
    | inr e ↦ ([], ground (arith, append-nil (s.table c)))
  ];
  distinct = λ h c. elim (Bool-cases (address_eq c b)) [
    | inl e ↦ rw e (Distinct-append name d (s.table b) new (h b))
    | inr e ↦ rw e (h c)
  ];
  errors = ([], sym (append-nil s.errors));
  block = refl;
  procedure = refl;
}

pub Registers-Keeping : Keeping Registers
Registers-Keeping = record {
  unchanged = Registers-refl;
  after = Registers-trans;
  block = λ b s s' x. record {
    nodes = x.nodes;
    tables = x.tables;
    distinct = x.distinct;
    errors = x.errors;
    block = refl;
    procedure = x.procedure;
  };
  procedure = λ p s s' x. record {
    nodes = x.nodes;
    tables = x.tables;
    distinct = x.distinct;
    errors = x.errors;
    block = x.block;
    procedure = refl;
  };
  error = λ s e. record {
    nodes = λ a x n. n;
    tables = λ b. ([], sym (append-nil (s.table b)));
    distinct = λ d. d;
    errors = (e ∷ [], refl);
    block = refl;
    procedure = refl;
  };
  containing = λ s d b. record {
    nodes = λ a x n. n;
    tables = λ c. ([], sym (append-nil (s.table c)));
    distinct = λ h. h;
    errors = ([], sym (append-nil s.errors));
    block = refl;
    procedure = refl;
  };
  entry = put_table-Registers;
  declared = λ s name a. record {
    nodes = λ c y n. node_of-append s.pool (Node.declaration name label a false ∷ []) c y n;
    tables = λ c. ([], sym (append-nil (s.table c)));
    distinct = λ h. h;
    errors = ([], sym (append-nil s.errors));
    block = refl;
    procedure = refl;
  };
}
