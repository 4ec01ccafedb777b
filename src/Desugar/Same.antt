-- ===== src/Desugar/Same.antt =====
-- desugar.cpp: what has been desugared is given back.
use mathlib.Core.Path.{subst}
use janguage.Base.{ℕ, Bool, false, ◌≡◌, refl, ok}
use janguage.Ast.{
  Ast, type_identifier, identifier, pointer_type, array_type, declaration, binary_operator, label,
  goto_statement, literal, procedure_signature, block, if_statement, while_loop, for_loop,
  break_statement, continue_statement, return_statement, procedure, procedure_call, module_node,
  Pointer, null, to, Nodes, end, node, Block, statements, BlockPointer, no_block, to_block,
  Declaration, declares, Declarations, no_declarations, also, Signature, takes,
}
use janguage.Desugar.{
  Desugared, desugar, desugar_pointer, desugar_nodes, desugar_block, desugar_block_pointer,
  desugar_declaration, desugar_declarations, desugar_signature,
}
use janguage.Parser.Ranges.{HasRanges}
use janguage.Desugar.Lowered.{
  IsLowered, IsLoweredPointer, IsLoweredNodes, IsLoweredBlock, IsLoweredBlockPointer,
  IsLoweredDeclaration, IsLoweredDeclarations, IsLoweredSignature,
}
use janguage.Ast.Kinds.{AstKind}
use janguage.MemoryPool.{MemoryPool}
use janguage.Desugar.Growth.{Lowers}
use janguage.Desugar.Result.{desugar-Lowers}

module _ (size_of : AstKind → ℕ) where
  mutual
    unfolding desugar IsLowered

    ast-same :
        (a : Ast) (pool : MemoryPool) → IsLowered a → desugar size_of a pool ≡ ok (a, false, pool)
    ast-same (type_identifier t) pool p = refl
    ast-same (identifier t) pool p = refl
    ast-same (pointer_type target) pool p = rw (ast-same target pool p) refl
    ast-same (array_type length_expression element) pool p = refl
    ast-same (declaration d) pool p = rw (declaration-same d pool p) refl
    ast-same (binary_operator op lhs rhs) pool p =
        rw (ast-same lhs pool p.0, ast-same rhs pool p.1) refl
    ast-same (label name) pool p = refl
    ast-same (goto_statement name) pool p = refl
    ast-same (literal l) pool p = refl
    ast-same (procedure_signature signature) pool p = rw (signature-same signature pool p) refl
    ast-same (block b) pool p = rw (block-same b pool p) refl
    ast-same (if_statement condition then_block else_block) pool p =
        rw
          (
            ast-same condition pool p.0,
            block-same then_block pool p.1.0,
            block_pointer-same else_block pool p.1.1,
          )
          refl
    ast-same (while_loop condition b prologue) pool p =
        rw (ast-same condition pool p.0, block-same b pool p.1) refl
    ast-same (for_loop id range_begin comparison range_end step body) pool p = absurd p
    ast-same break_statement pool p = refl
    ast-same continue_statement pool p = refl
    ast-same (return_statement expression) pool p = rw (pointer-same expression pool p) refl
    ast-same (procedure signature body is_external) pool p =
        rw (signature-same signature pool p.0, block_pointer-same body pool p.1) refl
    ast-same (procedure_call callee arguments) pool p =
        rw (ast-same callee pool p.0, nodes-same arguments pool p.1) refl
    ast-same (module_node b) pool p = rw (block-same b pool p) refl

    pointer-same :
        (x : Pointer) (pool : MemoryPool)
        → IsLoweredPointer x
        → desugar_pointer size_of x pool ≡ ok (x, false, pool)
    pointer-same null pool p = refl
    pointer-same (to x) pool p = rw (ast-same x pool p) refl

    nodes-same :
        (xs : Nodes) (pool : MemoryPool)
        → IsLoweredNodes xs
        → desugar_nodes size_of xs pool ≡ ok (xs, false, pool)
    nodes-same end pool p = refl
    nodes-same (node x xs) pool p = rw (ast-same x pool p.0, nodes-same xs pool p.1) refl

    block-same :
        (b : Block) (pool : MemoryPool)
        → IsLoweredBlock b
        → desugar_block size_of b pool ≡ ok (b, false, pool)
    block-same (statements xs kind) pool p = rw (nodes-same xs pool p) refl

    block_pointer-same :
        (b : BlockPointer) (pool : MemoryPool)
        → IsLoweredBlockPointer b
        → desugar_block_pointer size_of b pool ≡ ok (b, false, pool)
    block_pointer-same no_block pool p = refl
    block_pointer-same (to_block b) pool p = rw (block-same b pool p) refl

    declaration-same :
        (d : Declaration) (pool : MemoryPool)
        → IsLoweredDeclaration d
        → desugar_declaration size_of d pool ≡ ok (d, false, pool)
    declaration-same (declares id type init is_argument) pool p =
        rw (pointer-same type pool p.0, pointer-same init pool p.1) refl

    declarations-same :
        (ds : Declarations) (pool : MemoryPool)
        → IsLoweredDeclarations ds
        → desugar_declarations size_of ds pool ≡ ok (ds, false, pool)
    declarations-same no_declarations pool p = refl
    declarations-same (also d ds) pool p =
        rw (declaration-same d pool p.0, declarations-same ds pool p.1) refl

    signature-same :
        (s : Signature) (pool : MemoryPool)
        → IsLoweredSignature s
        → desugar_signature size_of s pool ≡ ok (s, false, pool)
    signature-same (takes arguments is_vararg return_type) pool p =
        rw (declarations-same arguments pool p) refl

  result-same :
      (a : Ast) {b : Ast} {changed : Bool} {pool pool' : MemoryPool} {o : Desugared Ast}
      (other : MemoryPool)
      → Lowers size_of (HasRanges a) IsLowered a pool o
      → o ≡ ok (b, changed, pool')
      → desugar size_of b other ≡ ok (b, false, other)
  result-same _ other (Lowers.lowers {a} h p s g) e = ast-same _ other (subst IsLowered (cc e) p)
  result-same _ other (Lowers.refuses n) e = absurd (cc e)
  result-same _ other (Lowers.exhausts kind g q) e = absurd (cc e)

-- Desugaring what `desugar` has returned, with whatever pool, gives it back as the same node, and
-- allocates nothing.
pub desugar-idempotent :
    (size_of : AstKind → ℕ) (a b : Ast) (changed : Bool) (pool pool' other : MemoryPool)
    → desugar size_of a pool ≡ ok (b, changed, pool')
    → desugar size_of b other ≡ ok (b, false, other)
desugar-idempotent size_of a b changed pool pool' other e =
    result-same size_of a other (desugar-Lowers size_of a pool) e
