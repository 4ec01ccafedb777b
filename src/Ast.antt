-- ===== src/Ast.antt =====
-- parse.h: the abstract syntax tree. A node is a value: the code shares nodes and compares their
-- addresses, in place of which `desugar` here says whether a node is another one. A pointer that may be null is a type of its own,
-- since a tree holds no other containers of trees.
pub mod Kinds
use janguage.Base.{ℕ, Bool, Bytes}
use janguage.Token.{TokenType, Token}

-- `AstBlock::CompilerErrorKind`; its first enumerator is `none`.
pub data CompilerErrorKind : Type 0 where
  no_error declaration_error typecheck_error : CompilerErrorKind

-- The variant `AstLiteral::value`. A floating point number is its bit pattern.
pub data LiteralValue : Type 0 where
  bool : Bool → LiteralValue
  uint64 float double : ℕ → LiteralValue
  string : Bytes → LiteralValue

-- `AstLiteral`. The token is not kept: nothing reads it, and a literal that the desugaring makes has
-- none. `suffix` is a byte, 0 for no suffix.
pub record Literal : Type 0 where
  pub suffix : ℕ
  pub value : LiteralValue

mutual
  pub data Ast : Type 0 where
    type_identifier identifier : Token → Ast
    pointer_type : Ast → Ast
    array_type : Ast → Ast → Ast
    declaration : Declaration → Ast
    binary_operator : TokenType → Ast → Ast → Ast
    label goto_statement : Bytes → Ast
    literal : Literal → Ast
    procedure_signature : Signature → Ast
    block : Block → Ast
    if_statement : Ast → Block → BlockPointer → Ast
    while_loop : Ast → Block → Pointer → Ast
    for_loop : Token → Pointer → TokenType → Ast → Pointer → Block → Ast
    break_statement continue_statement : Ast
    return_statement : Pointer → Ast
    procedure : Signature → BlockPointer → Bool → Ast
    procedure_call : Ast → Nodes → Ast
    module_node : Block → Ast

  -- An `AstNode *` that may be null.
  pub data Pointer : Type 0 where
    null : Pointer
    to : Ast → Pointer

  -- A `std::vector<AstNode *>`.
  pub data Nodes : Type 0 where
    end : Nodes
    node : Ast → Nodes → Nodes

  -- `AstBlock`: its statements, and the error that the compiler is expected to find in it.
  pub data Block : Type 0 where
    statements : Nodes → CompilerErrorKind → Block

  pub data BlockPointer : Type 0 where
    no_block : BlockPointer
    to_block : Block → BlockPointer

  -- `AstDeclaration`: identifier, type, init expression, and whether it is a procedure's argument.
  pub data Declaration : Type 0 where
    declares : Token → Pointer → Pointer → Bool → Declaration

  pub data Declarations : Type 0 where
    no_declarations : Declarations
    also : Declaration → Declarations → Declarations

  -- `AstProcedureSignature`: arguments, whether more may follow, and the return type.
  pub data Signature : Type 0 where
    takes : Declarations → Bool → Ast → Signature

-- `push_back` on the vectors.
abbrev pub push_node : Nodes → Ast → Nodes
push_node end x = node x end
push_node (node y ys) x = node y (push_node ys x)

abbrev pub push_declaration : Declarations → Declaration → Declarations
push_declaration no_declarations x = also x no_declarations
push_declaration (also y ys) x = also y (push_declaration ys x)
