-- ===== src/Parser/Ranges.antt =====
-- parse.cpp: the trees on which the desugaring returns. Nothing is said of what it does not go into:
-- prologues, return types, and array types.
use janguage.Base.{◌≡◌, true}
use janguage.Ast.{
  Ast, type_identifier, identifier, pointer_type, array_type, declaration, binary_operator, label,
  goto_statement, literal, procedure_signature, block, if_statement, while_loop, for_loop,
  break_statement, continue_statement, return_statement, procedure, procedure_call, module_node,
  Pointer, null, to, Nodes, end, node, Block, statements, BlockPointer, no_block, to_block,
  Declaration, declares, Declarations, no_declarations, also, Signature, takes, push_node,
  push_declaration,
}
use janguage.Parser.Grammar.{is_range_operator, as_argument}

unfoldable mutual
  -- Every `for` loop has one of the operators `<`, `<=`, `>` and `>=`.
  pub HasRanges : Ast → Type 0
  HasRanges (type_identifier t) = Unit
  HasRanges (identifier t) = Unit
  HasRanges (pointer_type target) = HasRanges target
  HasRanges (array_type length_expression element) = Unit
  HasRanges (declaration d) = HasRangesDeclaration d
  HasRanges (binary_operator op lhs rhs) = HasRanges lhs × HasRanges rhs
  HasRanges (label name) = Unit
  HasRanges (goto_statement name) = Unit
  HasRanges (literal l) = Unit
  HasRanges (procedure_signature signature) = HasRangesSignature signature
  HasRanges (block b) = HasRangesBlock b
  HasRanges (if_statement condition then_block else_block) =
      HasRanges condition × (HasRangesBlock then_block × HasRangesBlockPointer else_block)
  HasRanges (while_loop condition b prologue) = HasRanges condition × HasRangesBlock b
  HasRanges (for_loop id range_begin comparison range_end step body) =
      (is_range_operator comparison ≡ true)
      × (HasRangesPointer range_begin × (HasRanges range_end × HasRangesBlock body))
  HasRanges break_statement = Unit
  HasRanges continue_statement = Unit
  HasRanges (return_statement expression) = HasRangesPointer expression
  HasRanges (procedure signature body is_external) =
      HasRangesSignature signature × HasRangesBlockPointer body
  HasRanges (procedure_call callee arguments) = HasRanges callee × HasRangesNodes arguments
  HasRanges (module_node b) = HasRangesBlock b

  pub HasRangesPointer : Pointer → Type 0
  HasRangesPointer null = Unit
  HasRangesPointer (to x) = HasRanges x

  pub HasRangesNodes : Nodes → Type 0
  HasRangesNodes end = Unit
  HasRangesNodes (node x xs) = HasRanges x × HasRangesNodes xs

  pub HasRangesBlock : Block → Type 0
  HasRangesBlock (statements xs kind) = HasRangesNodes xs

  pub HasRangesBlockPointer : BlockPointer → Type 0
  HasRangesBlockPointer no_block = Unit
  HasRangesBlockPointer (to_block b) = HasRangesBlock b

  pub HasRangesDeclaration : Declaration → Type 0
  HasRangesDeclaration (declares id type init is_argument) =
      HasRangesPointer type × HasRangesPointer init

  pub HasRangesDeclarations : Declarations → Type 0
  HasRangesDeclarations no_declarations = Unit
  HasRangesDeclarations (also d ds) = HasRangesDeclaration d × HasRangesDeclarations ds

  pub HasRangesSignature : Signature → Type 0
  HasRangesSignature (takes arguments is_vararg return_type) = HasRangesDeclarations arguments

pub push_node-HasRanges :
    (xs : Nodes) (x : Ast) → HasRangesNodes xs → HasRanges x → HasRangesNodes (push_node xs x)
unfolding HasRanges
push_node-HasRanges end x hs h = (h, tt)
push_node-HasRanges (node y ys) x (k, hs) h = (k, push_node-HasRanges ys x hs h)

pub push_declaration-HasRanges :
    (ds : Declarations) (d : Declaration)
    → HasRangesDeclarations ds
    → HasRangesDeclaration d
    → HasRangesDeclarations (push_declaration ds (as_argument d))
unfolding HasRanges
push_declaration-HasRanges no_declarations (declares id type init b) hs h = (h, tt)
push_declaration-HasRanges (also e es) d (k, hs) h = (k, push_declaration-HasRanges es d hs h)
