-- ===== src/Desugar.antt =====
-- desugar.cpp: a `for` loop becomes a block with a counter and a `while` loop. Nodes are values, and what
-- is returned with one says whether it is another node than the one that was given. `size_of` has the
-- sizes of the classes, and the pool the room that is left for new nodes.
use janguage.MemoryPool.{MemoryPool, allocate}
use janguage.Base.{ℕ, Bool, true, false, ◌||◌, if◌then◌else◌, Outcome, ok, abort, unreached, ◌>>=◌}
use janguage.Token.{
  TokenType, Token, plus, minus, assign, less_than, less_than_or_equal, greater_than,
  greater_than_or_equal,
}
use janguage.Ast.Kinds.{AstKind}
use janguage.Ast.{
  no_error, uint64, Ast, type_identifier, identifier, pointer_type, array_type, declaration,
  binary_operator, label, goto_statement, literal, procedure_signature, block, if_statement,
  while_loop, for_loop, break_statement, continue_statement, return_statement, procedure,
  procedure_call, module_node, Pointer, null, to, Nodes, end, node, Block, statements, BlockPointer,
  no_block, to_block, Declaration, declares, Declarations, no_declarations, also, Signature, takes,
}
pub mod Lowered
pub mod Growth
pub mod Result
pub mod Same
pub mod Parsed

-- The operator by which the counter of a loop is moved on.
unfoldable pub step_operator : TokenType → Outcome TokenType
step_operator less_than = ok plus
step_operator less_than_or_equal = ok plus
step_operator greater_than = ok minus
step_operator greater_than_or_equal = ok minus
step_operator _ = abort unreached

abbrev number : ℕ → Ast
number n = literal (record { suffix = 0; value = uint64 n })

abbrev pub counter_declaration : Token → Pointer → Declaration
counter_declaration id null = declares id null (to (number 0)) false
counter_declaration id (to range_begin) = declares id null (to range_begin) false

abbrev pub next_value : TokenType → Token → Pointer → Ast
next_value op id null = binary_operator op (identifier id) (number 1)
next_value op id (to step) = binary_operator op (identifier id) step

abbrev pub prologue : TokenType → Token → Pointer → Pointer
prologue op id step = to (binary_operator assign (identifier id) (next_value op id step))

abbrev pub is_left_out : Pointer → Bool
is_left_out null = true
is_left_out (to _) = false

-- A node, whether it is another one than the one that was given, and the pool.
abbrev pub Desugared : Type 0 → Type 0
Desugared A = Outcome (A × Bool × MemoryPool)

module _ (size_of : AstKind → ℕ) where
  -- `new (pool) …`
  unfoldable pub new_node : AstKind → MemoryPool → Outcome MemoryPool
  unfolding allocate
  new_node kind pool = do (_, pool') ← allocate pool (size_of kind); ok pool'

  unfoldable pub new_node_if : Bool → AstKind → MemoryPool → Outcome MemoryPool
  unfolding new_node
  new_node_if needed kind pool = if needed then new_node kind pool else ok pool

  -- The end of a case: a new node if its parts are not the same.
  unfoldable pub rebuilt : {A : Type 0} → AstKind → Bool → A → A → MemoryPool → Desugared A
  unfolding new_node
  rebuilt kind changed original x pool =
      if changed
      then (do pool' ← new_node kind pool; ok (x, true, pool'))
      else ok (original, false, pool)

  unfoldable mutual
    unfolding new_node_if rebuilt step_operator

    -- `desugar`. The code desugars the block that it makes for a `for` loop; here the parts of this
    -- block are desugared, in the same order.
    pub desugar : Ast → MemoryPool → Desugared Ast
    desugar (for_loop id range_begin comparison range_end step body) pool = do
      pool1 ← new_node AstKind.declaration pool
      pool2 ← new_node_if (is_left_out range_begin) AstKind.literal pool1
      pool3 ← new_node AstKind.identifier pool2
      pool4 ← new_node AstKind.binary_operator pool3
      pool5 ← new_node AstKind.binary_operator pool4
      op ← step_operator comparison
      pool6 ← new_node_if (is_left_out step) AstKind.literal pool5
      pool7 ← new_node AstKind.binary_operator pool6
      pool8 ← new_node AstKind.while_loop pool7
      pool9 ← new_node AstKind.block pool8
      (begin, c1, pool10) ← desugar_pointer range_begin pool9
      pool11 ← new_node_if c1 AstKind.declaration pool10
      (stop, c2, pool12) ← desugar range_end pool11
      pool13 ← new_node_if c2 AstKind.binary_operator pool12
      (lowered, c3, pool14) ← desugar_block body pool13
      pool15 ← new_node_if (c2 || c3) AstKind.while_loop pool14
      pool16 ← new_node_if (c1 || (c2 || c3)) AstKind.block pool15
      ok (
        block (
            statements
              (node (declaration (counter_declaration id begin)) (
                node
                  (while_loop (binary_operator comparison (identifier id) stop) lowered
                    (prologue op id step))
                  end))
              no_error),
        true,
        pool16,
      )
    -- The kind of an `AstArrayType` is `type_identifier`.
    desugar (array_type length_expression element) pool =
        ok (array_type length_expression element, false, pool)
    desugar (binary_operator op lhs rhs) pool = do
      (left, c1, pool1) ← desugar lhs pool
      (right, c2, pool2) ← desugar rhs pool1
      rebuilt AstKind.binary_operator (c1 || c2) (binary_operator op lhs rhs)
          (binary_operator op left right) pool2
    desugar (block b) pool = do
      (lowered, c, pool1) ← desugar_block b pool
      ok (block lowered, c, pool1)
    desugar break_statement pool = ok (break_statement, false, pool)
    desugar continue_statement pool = ok (continue_statement, false, pool)
    desugar (declaration d) pool = do
      (lowered, c, pool1) ← desugar_declaration d pool
      ok (declaration lowered, c, pool1)
    desugar (goto_statement name) pool = ok (goto_statement name, false, pool)
    desugar (identifier t) pool = ok (identifier t, false, pool)
    desugar (if_statement condition then_block else_block) pool = do
      (test, c1, pool1) ← desugar condition pool
      (first, c2, pool2) ← desugar_block then_block pool1
      (second, c3, pool3) ← desugar_block_pointer else_block pool2
      rebuilt AstKind.if_statement (c1 || (c2 || c3)) (if_statement condition then_block else_block)
          (if_statement test first second) pool3
    desugar (label name) pool = ok (label name, false, pool)
    desugar (literal l) pool = ok (literal l, false, pool)
    desugar (module_node b) pool = do
      (lowered, c, pool1) ← desugar_block b pool
      rebuilt AstKind.module_ c (module_node b) (module_node lowered) pool1
    desugar (pointer_type target) pool = do
      (lowered, c, pool1) ← desugar target pool
      rebuilt AstKind.pointer_type c (pointer_type target) (pointer_type lowered) pool1
    desugar (procedure signature body is_external) pool = do
      (lowered, c1, pool1) ← desugar_signature signature pool
      (rest, c2, pool2) ← desugar_block_pointer body pool1
      rebuilt AstKind.procedure (c1 || c2) (procedure signature body is_external)
          (procedure lowered rest is_external) pool2
    desugar (procedure_call callee arguments) pool = do
      (lowered, c1, pool1) ← desugar callee pool
      (rest, c2, pool2) ← desugar_nodes arguments pool1
      rebuilt AstKind.procedure_call (c1 || c2) (procedure_call callee arguments)
          (procedure_call lowered rest) pool2
    desugar (procedure_signature signature) pool = do
      (lowered, c, pool1) ← desugar_signature signature pool
      ok (procedure_signature lowered, c, pool1)
    desugar (return_statement expression) pool = do
      (lowered, c, pool1) ← desugar_pointer expression pool
      rebuilt AstKind.return_statement c (return_statement expression) (return_statement lowered)
          pool1
    desugar (type_identifier t) pool = ok (type_identifier t, false, pool)
    desugar (while_loop condition b prologue) pool = do
      (test, c1, pool1) ← desugar condition pool
      (lowered, c2, pool2) ← desugar_block b pool1
      rebuilt AstKind.while_loop (c1 || c2) (while_loop condition b prologue)
          (while_loop test lowered prologue) pool2

    pub desugar_pointer : Pointer → MemoryPool → Desugared Pointer
    desugar_pointer null pool = ok (null, false, pool)
    desugar_pointer (to x) pool = do (lowered, c, pool1) ← desugar x pool; ok (to lowered, c, pool1)

    pub desugar_nodes : Nodes → MemoryPool → Desugared Nodes
    desugar_nodes end pool = ok (end, false, pool)
    desugar_nodes (node x xs) pool = do
      (lowered, c1, pool1) ← desugar x pool
      (rest, c2, pool2) ← desugar_nodes xs pool1
      ok (node lowered rest, c1 || c2, pool2)

    pub desugar_block : Block → MemoryPool → Desugared Block
    desugar_block (statements xs kind) pool = do
      (lowered, c, pool1) ← desugar_nodes xs pool
      rebuilt AstKind.block c (statements xs kind) (statements lowered kind) pool1

    pub desugar_block_pointer : BlockPointer → MemoryPool → Desugared BlockPointer
    desugar_block_pointer no_block pool = ok (no_block, false, pool)
    desugar_block_pointer (to_block b) pool = do
      (lowered, c, pool1) ← desugar_block b pool
      ok (to_block lowered, c, pool1)

    pub desugar_declaration : Declaration → MemoryPool → Desugared Declaration
    desugar_declaration (declares id type init is_argument) pool = do
      (kind, c1, pool1) ← desugar_pointer type pool
      (value, c2, pool2) ← desugar_pointer init pool1
      rebuilt AstKind.declaration (c1 || c2) (declares id type init is_argument)
          (declares id kind value is_argument) pool2

    pub desugar_declarations : Declarations → MemoryPool → Desugared Declarations
    desugar_declarations no_declarations pool = ok (no_declarations, false, pool)
    desugar_declarations (also d ds) pool = do
      (lowered, c1, pool1) ← desugar_declaration d pool
      (rest, c2, pool2) ← desugar_declarations ds pool1
      ok (also lowered rest, c1 || c2, pool2)

    -- The return type stays as it is.
    pub desugar_signature : Signature → MemoryPool → Desugared Signature
    desugar_signature (takes arguments is_vararg return_type) pool = do
      (lowered, c, pool1) ← desugar_declarations arguments pool
      rebuilt AstKind.procedure_signature c (takes arguments is_vararg return_type)
          (takes lowered is_vararg return_type) pool1
