-- ===== src/Desugar/Parsed.antt =====
-- parse.cpp and desugar.cpp in a row, as main.cpp calls them.
use janguage.Base.{ℕ, Bool, ◌⊎◌, abort, fatal, ◌≡◌, refl, sym, ◌∙◌, inl, inr, Bytes, some, ok}
use janguage.Ast.{Ast}
use janguage.Parser.Literals.{FloatLibrary}
use janguage.Parser.Grammar.{parse_module_source}
use janguage.Parser.Reports.{IsTerminated}
use janguage.Parser.Safe.Modules.{parse_module_source-returns}
use janguage.Desugar.{Desugared, desugar}
use janguage.Desugar.Lowered.{IsLowered}
use janguage.Ast.Kinds.{AstKind}
use janguage.MemoryPool.{MemoryPool, allocate}
use janguage.Desugar.Growth.{Lowers, Grows}
use janguage.Desugar.Result.{desugar-Lowers}

-- The two ends where `H` holds.
abbrev pub Ends : (AstKind → ℕ) → MemoryPool → (Ast → Type 0) → Desugared Ast → Type 0
Ends size_of pool P o =
    ((b : Ast) × (changed : Bool) × (pool' : MemoryPool) × (o ≡ ok (b, changed, pool')) × P b)
    ⊎ ((pool' : MemoryPool) × (kind : AstKind) × Grows pool pool'
        × (allocate pool' (size_of kind) ≡ abort fatal)
        × (o ≡ abort fatal))

Lowers-Ends :
    {H : Type 0} {P : Ast → Type 0} (size_of : AstKind → ℕ) (a : Ast) (pool : MemoryPool)
    {o : Desugared Ast}
    → Lowers size_of H P a pool o
    → H
    → Ends size_of pool P o
Lowers-Ends size_of a pool (Lowers.lowers {a = b} {changed} {pool'} h p s g) _ =
    inl (b, changed, pool', refl, p)
Lowers-Ends size_of a pool (Lowers.refuses n) h = absurd (n h)
Lowers-Ends size_of a pool (Lowers.exhausts {pool'} kind g e) h = inr (pool', kind, g, e, refl)

-- A module that is parsed from a source that ends in a NUL byte is desugared to a tree in which no `for`
-- loop stands but in prologues of `while` loops, which hold the steps of `for` loops, in return types and
-- in array types, or the program stops with FATAL, where allocations have led to a pool that has no
-- room for a node.
pub desugar-parsed :
    (lib : FloatLibrary) (size_of : AstKind → ℕ) (source : Bytes) (a : Ast) (pool : MemoryPool)
    → IsTerminated source
    → parse_module_source lib source ≡ ok (some a)
    → Ends size_of pool IsLowered (desugar size_of a pool)
desugar-parsed lib size_of source a pool z e = elim (parse_module_source-returns lib z) [
  | inr s ↦ absurd (cc (s, e))
  | inl (m, r, h) ↦
      let found : ok m ≡ ok (some a) = sym r ∙ e in
      Lowers-Ends size_of a pool (desugar-Lowers size_of a pool) (h a (cc found))
]
