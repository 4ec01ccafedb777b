-- ===== src/Desugar/Lowered.antt =====
-- desugar.cpp: the trees that the desugaring returns. Nothing is said of what the code does not go
-- into: prologues, where the steps of `for` loops are, return types, and array types.
use janguage.Ast.{
  Ast, type_identifier, identifier, pointer_type, array_type, declaration, binary_operator, label,
  goto_statement, literal, procedure_signature, block, if_statement, while_loop, for_loop,
  break_statement, continue_statement, return_statement, procedure, procedure_call, module_node,
  Pointer, null, to, Nodes, end, node, Block, statements, BlockPointer, no_block, to_block,
  Declaration, declares, Declarations, no_declarations, also, Signature, takes,
}

unfoldable mutual
  -- There are no `for` loops but in prologues, return types and array types.
  pub IsLowered : Ast → Type 0
  IsLowered (type_identifier t) = Unit
  IsLowered (identifier t) = Unit
  IsLowered (pointer_type target) = IsLowered target
  IsLowered (array_type length_expression element) = Unit
  IsLowered (declaration d) = IsLoweredDeclaration d
  IsLowered (binary_operator op lhs rhs) = IsLowered lhs × IsLowered rhs
  IsLowered (label name) = Unit
  IsLowered (goto_statement name) = Unit
  IsLowered (literal l) = Unit
  IsLowered (procedure_signature signature) = IsLoweredSignature signature
  IsLowered (block b) = IsLoweredBlock b
  IsLowered (if_statement condition then_block else_block) =
      IsLowered condition × (IsLoweredBlock then_block × IsLoweredBlockPointer else_block)
  IsLowered (while_loop condition b prologue) = IsLowered condition × IsLoweredBlock b
  IsLowered (for_loop id range_begin comparison range_end step body) = ⊥
  IsLowered break_statement = Unit
  IsLowered continue_statement = Unit
  IsLowered (return_statement expression) = IsLoweredPointer expression
  IsLowered (procedure signature body is_external) =
      IsLoweredSignature signature × IsLoweredBlockPointer body
  IsLowered (procedure_call callee arguments) = IsLowered callee × IsLoweredNodes arguments
  IsLowered (module_node b) = IsLoweredBlock b

  pub IsLoweredPointer : Pointer → Type 0
  IsLoweredPointer null = Unit
  IsLoweredPointer (to x) = IsLowered x

  pub IsLoweredNodes : Nodes → Type 0
  IsLoweredNodes end = Unit
  IsLoweredNodes (node x xs) = IsLowered x × IsLoweredNodes xs

  pub IsLoweredBlock : Block → Type 0
  IsLoweredBlock (statements xs kind) = IsLoweredNodes xs

  pub IsLoweredBlockPointer : BlockPointer → Type 0
  IsLoweredBlockPointer no_block = Unit
  IsLoweredBlockPointer (to_block b) = IsLoweredBlock b

  pub IsLoweredDeclaration : Declaration → Type 0
  IsLoweredDeclaration (declares id type init is_argument) =
      IsLoweredPointer type × IsLoweredPointer init

  pub IsLoweredDeclarations : Declarations → Type 0
  IsLoweredDeclarations no_declarations = Unit
  IsLoweredDeclarations (also d ds) = IsLoweredDeclaration d × IsLoweredDeclarations ds

  pub IsLoweredSignature : Signature → Type 0
  IsLoweredSignature (takes arguments is_vararg return_type) = IsLoweredDeclarations arguments
