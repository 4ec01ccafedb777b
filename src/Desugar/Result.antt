-- ===== src/Desugar/Result.antt =====
-- desugar.cpp: what `desugar` does with a tree.
use janguage.Base.{
  ℕ, refl, ◌||◌, ◌≡◌, ◌⊎◌, inl, inr, Bool-cases, true, false, ok, abort, unreached, ◌>>=◌, arith,
}
use janguage.Token.{TokenType, Token, plus, minus}
use janguage.Ast.{
  Ast, type_identifier, identifier, pointer_type, array_type, declaration, binary_operator, label,
  goto_statement, literal, procedure_signature, block, if_statement, while_loop, for_loop,
  break_statement, continue_statement, return_statement, procedure, procedure_call, module_node,
  Pointer, null, to, Nodes, end, node, Block, statements, BlockPointer, no_block, to_block,
  Declaration, declares, Declarations, no_declarations, also, Signature, takes,
}
use janguage.Parser.Grammar.{is_range_operator}
use janguage.Desugar.{
  step_operator, counter_declaration, Desugared, is_left_out, desugar, desugar_pointer,
  desugar_nodes, desugar_block, rebuilt, desugar_block_pointer, desugar_declaration,
  desugar_declarations, desugar_signature,
}
use janguage.Ast.Kinds.{AstKind}
use janguage.MemoryPool.{MemoryPool}
use janguage.Desugar.Growth.{
  Grows, Same-pair, Same-map, Lowers, and-Lowers, bind-Lowers, last-Lowers, new-Lowers,
  new_if-Lowers, rebuilt-Lowers,
}
use janguage.Parser.Ranges.{
  HasRanges, HasRangesPointer, HasRangesNodes, HasRangesBlock, HasRangesBlockPointer,
  HasRangesDeclaration, HasRangesDeclarations, HasRangesSignature,
}
use janguage.Desugar.Lowered.{
  IsLowered, IsLoweredPointer, IsLoweredNodes, IsLoweredBlock, IsLoweredBlockPointer,
  IsLoweredDeclaration, IsLoweredDeclarations, IsLoweredSignature,
}

step_operator-range :
    (t : TokenType)
    → is_range_operator t ≡ true
    → (step_operator t ≡ ok plus) ⊎ (step_operator t ≡ ok minus)
unfolding step_operator is_range_operator
step_operator-range t h = ground arith

step_operator-other :
    (t : TokenType) → is_range_operator t ≡ false → step_operator t ≡ abort unreached
unfolding step_operator is_range_operator
step_operator-other t h = ground arith

counter-IsLowered :
    (id : Token) (begin : Pointer)
    → IsLoweredPointer begin
    → IsLoweredDeclaration (counter_declaration id begin)
unfolding IsLowered
counter-IsLowered id null p = (tt, tt)
counter-IsLowered id (to x) p = (tt, p)

module _ (size_of : AstKind → ℕ) where
  step_operator-Lowers :
      {B : Type 0} {K : Type 0} {Q : B → Type 0} {y : B} {pool : MemoryPool}
      (comparison : TokenType) (k : TokenType → Desugared B)
      → ((op : TokenType) → Lowers size_of K Q y pool (k op))
      → Lowers size_of
          ((is_range_operator comparison ≡ true) × K)
          Q
          y
          pool
          (step_operator comparison >>= k)
  step_operator-Lowers comparison k f = elim (Bool-cases (is_range_operator comparison)) [
    | inr b ↦ rw (step_operator-other comparison b) (Lowers.refuses (λ h. cc (b, h.0)))
    | inl b ↦ elim (step_operator-range comparison b) [
      | inl e ↦ rw e (and-Lowers size_of b (f plus))
      | inr e ↦ rw e (and-Lowers size_of b (f minus))
    ]
  ]

  -- A node that is given back.
  leaf :
      {A : Type 0} {P : A → Type 0} (a : A) (pool : MemoryPool)
      → P a
      → Lowers size_of (Unit {0}) P a pool (ok (a, false, pool))
  leaf a pool p = Lowers.lowers tt p (λ _. (refl, refl)) Grows.done

  -- A node with one part, which is another one if that is.
  wrap :
      {A B : Type 0} {H : Type 0} {P : A → Type 0} {Q : B → Type 0} (f : A → B) {x : A}
      {pool : MemoryPool} {m : Desugared A}
      → Lowers size_of H P x pool m
      → ((a : A) → P a → Q (f a))
      → Lowers size_of H Q (f x) pool (m >>= λ (a, c, pool1). ok (f a, c, pool1))
  wrap f l q =
      last-Lowers size_of Grows.done _ l
        (λ a c pool1 p s g. Lowers.lowers tt (q a p) (Same-map f s) g)

  rebuild :
      {A B : Type 0} {H : Type 0} {P : A → Type 0} {Q : B → Type 0} (kind : AstKind) (f : A → B)
      {x : A} {pool : MemoryPool} {m : Desugared A}
      → Lowers size_of H P x pool m
      → ((a : A) → P a → Q (f a))
      → Lowers size_of H Q
          (f x)
          pool
          (m >>= λ (a, c, pool1). rebuilt size_of kind c (f x) (f a) pool1)
  rebuild kind f l q =
      last-Lowers size_of Grows.done _ l
        (λ a c pool1 p s g. rebuilt-Lowers size_of g kind c (q a p) (Same-map f s))

  -- Two parts, one after the other.
  rebuild_pair :
      {A B C : Type 0} {H K : Type 0} {P : A → Type 0} {Q : B → Type 0} {R : C → Type 0}
      (kind : AstKind) (f : A → B → C) {x : A} {y : B} {pool : MemoryPool} {m : Desugared A}
      {n : MemoryPool → Desugared B}
      → Lowers size_of H P x pool m
      → ((pool1 : MemoryPool) → Lowers size_of K Q y pool1 (n pool1))
      → ((a : A) (b : B) → P a → Q b → R (f a b))
      → Lowers size_of (H × K) R (f x y) pool (
          m >>= λ (a, c, pool1).
          n pool1 >>= λ (b, d, pool2). rebuilt size_of kind (c || d) (f x y) (f a b) pool2)
  rebuild_pair kind f l k r = bind-Lowers size_of Grows.done _ l (λ a c pool1 p s g.
      last-Lowers size_of g _ (k pool1)
        (λ b d pool2 q t g2. rebuilt-Lowers size_of g2 kind (c || d) (r a b p q) (Same-pair f s t)))

  join_pair :
      {A B C : Type 0} {H K : Type 0} {P : A → Type 0} {Q : B → Type 0} {R : C → Type 0}
      (f : A → B → C) {x : A} {y : B} {pool : MemoryPool} {m : Desugared A}
      {n : MemoryPool → Desugared B}
      → Lowers size_of H P x pool m
      → ((pool1 : MemoryPool) → Lowers size_of K Q y pool1 (n pool1))
      → ((a : A) (b : B) → P a → Q b → R (f a b))
      → Lowers size_of
          (H × K)
          R
          (f x y)
          pool
          (m >>= λ (a, c, pool1). n pool1 >>= λ (b, d, pool2). ok (f a b, c || d, pool2))
  join_pair f l k r = bind-Lowers size_of Grows.done _ l (λ a c pool1 p s g.
      last-Lowers size_of g _ (k pool1)
        (λ b d pool2 q t g2. Lowers.lowers tt (r a b p q) (Same-pair f s t) g2))

  mutual
    unfolding desugar HasRanges IsLowered

    ast-Lowers :
        (a : Ast) (pool : MemoryPool)
        → Lowers size_of (HasRanges a) IsLowered a pool (desugar size_of a pool)
    ast-Lowers (type_identifier t) pool = leaf (type_identifier t) pool tt
    ast-Lowers (identifier t) pool = leaf (identifier t) pool tt
    ast-Lowers (pointer_type target) pool =
        rebuild AstKind.pointer_type pointer_type (ast-Lowers target pool) (λ a p. p)
    ast-Lowers (array_type length_expression element) pool =
        leaf (array_type length_expression element) pool tt
    ast-Lowers (declaration d) pool =
        wrap declaration (desugar_declaration-Lowers d pool) (λ a p. p)
    ast-Lowers (binary_operator op lhs rhs) pool =
        rebuild_pair AstKind.binary_operator (binary_operator op) (ast-Lowers lhs pool)
          (ast-Lowers rhs) (λ l r p q. (p, q))
    ast-Lowers (label name) pool = leaf (label name) pool tt
    ast-Lowers (goto_statement name) pool = leaf (goto_statement name) pool tt
    ast-Lowers (literal l) pool = leaf (literal l) pool tt
    ast-Lowers (procedure_signature signature) pool =
        wrap procedure_signature (desugar_signature-Lowers signature pool) (λ a p. p)
    ast-Lowers (block b) pool = wrap block (desugar_block-Lowers b pool) (λ a p. p)
    ast-Lowers (if_statement condition then_block else_block) pool =
        bind-Lowers size_of Grows.done _ (ast-Lowers condition pool) (λ test c1 pool1 p s1 g1.
          bind-Lowers size_of g1 _ (desugar_block-Lowers then_block pool1)
            (λ first c2 pool2 q s2 g2.
              last-Lowers size_of g2 _ (desugar_block_pointer-Lowers else_block pool2)
                (λ second c3 pool3 r s3 g3.
                  rebuilt-Lowers size_of g3 AstKind.if_statement (c1 || (c2 || c3)) (p, (q, r))
                    (Same-pair
                      (λ t (branches : Block × BlockPointer). if_statement t branches.0 branches.1)
                      s1 (Same-pair (λ t e. (t, e)) s2 s3)))))
    ast-Lowers (while_loop condition b prologue) pool =
        rebuild_pair AstKind.while_loop (λ t body. while_loop t body prologue)
          (ast-Lowers condition pool) (desugar_block-Lowers b) (λ c b p q. (p, q))
    ast-Lowers (for_loop id range_begin comparison range_end step body) pool =
        new-Lowers size_of Grows.done AstKind.declaration _ (λ pool1 g1.
          new_if-Lowers size_of g1 (is_left_out range_begin) AstKind.literal _ (λ pool2 g2.
            new-Lowers size_of g2 AstKind.identifier _ (λ pool3 g3.
              new-Lowers size_of g3 AstKind.binary_operator _ (λ pool4 g4.
                new-Lowers size_of g4 AstKind.binary_operator _ (λ pool5 g5.
                  step_operator-Lowers comparison _ (λ op.
                    new_if-Lowers size_of g5 (is_left_out step) AstKind.literal _ (λ pool6 g6.
                      new-Lowers size_of g6 AstKind.binary_operator _ (λ pool7 g7.
                        new-Lowers size_of g7 AstKind.while_loop _ (λ pool8 g8.
                          new-Lowers size_of g8 AstKind.block _ (λ pool9 g9.
                            bind-Lowers size_of g9 _ (desugar_pointer-Lowers range_begin pool9)
                              (λ begin c1 pool10 p s1 g10.
                                new_if-Lowers size_of g10 c1 AstKind.declaration _ (λ pool11 g11.
                                  bind-Lowers size_of g11 _ (ast-Lowers range_end pool11)
                                    (λ stop c2 pool12 q s2 g12.
                                      new_if-Lowers size_of g12 c2 AstKind.binary_operator _
                                        (λ pool13 g13.
                                          last-Lowers size_of g13 _
                                            (desugar_block-Lowers body pool13)
                                            (λ lowered c3 pool14 r s3 g14.
                                              new_if-Lowers size_of g14 (c2 || c3)
                                                AstKind.while_loop _
                                                (λ pool15 g15.
                                                  new_if-Lowers size_of g15 (c1 || (c2 || c3))
                                                    AstKind.block _
                                                    (λ pool16 g16.
                                                      Lowers.lowers tt
                                                        (
                                                          counter-IsLowered id begin p,
                                                          (((tt, q), r), tt),
                                                        )
                                                        (λ e. absurd (cc e)) g16)))))))))))))))))
    ast-Lowers break_statement pool = leaf break_statement pool tt
    ast-Lowers continue_statement pool = leaf continue_statement pool tt
    ast-Lowers (return_statement expression) pool =
        rebuild AstKind.return_statement return_statement (desugar_pointer-Lowers expression pool)
          (λ a p. p)
    ast-Lowers (procedure signature body is_external) pool =
        rebuild_pair AstKind.procedure (λ s b. procedure s b is_external)
          (desugar_signature-Lowers signature pool) (desugar_block_pointer-Lowers body)
          (λ s b p q. (p, q))
    ast-Lowers (procedure_call callee arguments) pool =
        rebuild_pair AstKind.procedure_call procedure_call (ast-Lowers callee pool)
          (desugar_nodes-Lowers arguments) (λ c a p q. (p, q))
    ast-Lowers (module_node b) pool =
        rebuild AstKind.module_ module_node (desugar_block-Lowers b pool) (λ a p. p)

    desugar_pointer-Lowers :
        (p : Pointer) (pool : MemoryPool)
        → Lowers size_of
            (HasRangesPointer p)
            IsLoweredPointer
            p
            pool
            (desugar_pointer size_of p pool)
    desugar_pointer-Lowers null pool = leaf null pool tt
    desugar_pointer-Lowers (to x) pool = wrap to (ast-Lowers x pool) (λ a p. p)

    desugar_nodes-Lowers :
        (xs : Nodes) (pool : MemoryPool)
        → Lowers size_of (HasRangesNodes xs) IsLoweredNodes xs pool (desugar_nodes size_of xs pool)
    desugar_nodes-Lowers end pool = leaf end pool tt
    desugar_nodes-Lowers (node x xs) pool =
        join_pair node (ast-Lowers x pool) (desugar_nodes-Lowers xs) (λ y ys p q. (p, q))

    desugar_block-Lowers :
        (b : Block) (pool : MemoryPool)
        → Lowers size_of (HasRangesBlock b) IsLoweredBlock b pool (desugar_block size_of b pool)
    desugar_block-Lowers (statements xs kind) pool =
        rebuild AstKind.block (λ ys. statements ys kind) (desugar_nodes-Lowers xs pool) (λ ys q. q)

    desugar_block_pointer-Lowers :
        (b : BlockPointer) (pool : MemoryPool)
        → Lowers size_of
            (HasRangesBlockPointer b)
            IsLoweredBlockPointer
            b
            pool
            (desugar_block_pointer size_of b pool)
    desugar_block_pointer-Lowers no_block pool = leaf no_block pool tt
    desugar_block_pointer-Lowers (to_block b) pool =
        wrap to_block (desugar_block-Lowers b pool) (λ a p. p)

    desugar_declaration-Lowers :
        (d : Declaration) (pool : MemoryPool)
        → Lowers size_of
            (HasRangesDeclaration d)
            IsLoweredDeclaration
            d
            pool
            (desugar_declaration size_of d pool)
    desugar_declaration-Lowers (declares id type init is_argument) pool =
        rebuild_pair AstKind.declaration (λ t i. declares id t i is_argument)
          (desugar_pointer-Lowers type pool) (desugar_pointer-Lowers init) (λ t i p q. (p, q))

    desugar_declarations-Lowers :
        (ds : Declarations) (pool : MemoryPool)
        → Lowers size_of
            (HasRangesDeclarations ds)
            IsLoweredDeclarations
            ds
            pool
            (desugar_declarations size_of ds pool)
    desugar_declarations-Lowers no_declarations pool = leaf no_declarations pool tt
    desugar_declarations-Lowers (also d ds) pool =
        join_pair also (desugar_declaration-Lowers d pool) (desugar_declarations-Lowers ds)
          (λ e es p q. (p, q))

    desugar_signature-Lowers :
        (s : Signature) (pool : MemoryPool)
        → Lowers size_of
            (HasRangesSignature s)
            IsLoweredSignature
            s
            pool
            (desugar_signature size_of s pool)
    desugar_signature-Lowers (takes arguments is_vararg return_type) pool =
        rebuild AstKind.procedure_signature (λ ds. takes ds is_vararg return_type)
          (desugar_declarations-Lowers arguments pool) (λ ds p. p)

-- `desugar` returns a tree in which no `for` loop stands but in prologues of `while` loops, which hold the
-- steps of `for` loops, in return types and in array types, and only from a tree whose `for` loops, but
-- those in these places, all have one of the operators `<`, `<=`, `>` and `>=`. If it does not say that
-- this is another node, then it is the tree that was given, and nothing was allocated. It stops at an
-- UNREACHED only where a loop has another operator, and otherwise only where allocations have led to
-- a pool that has no room for a node.
pub desugar-Lowers :
    (size_of : AstKind → ℕ) (a : Ast) (pool : MemoryPool)
    → Lowers size_of (HasRanges a) IsLowered a pool (desugar size_of a pool)
desugar-Lowers size_of a pool = ast-Lowers size_of a pool
