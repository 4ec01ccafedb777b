-- ===== src/Ast/Kinds.antt =====
-- parse.h: the classes of syntax nodes.
-- `AstKind`
pub data AstKind : Type 0 where
  array_type binary_operator block break_statement continue_statement declaration for_loop : AstKind
  goto_statement identifier if_statement label literal module_ pointer_type procedure : AstKind
  procedure_call procedure_signature return_statement type_identifier while_loop : AstKind
