-- ===== src/Examples/Desugaring.antt =====
-- desugar.cpp at a short loop.
use janguage.Base.{ℕ, ◌≡◌, refl, false, true, abort, fatal, ok, codes}
use janguage.Token.{Token, plus, less_than, identifier, assign}
use janguage.Ast.{
  Ast, literal, uint64, binary_operator, declaration, declares, block, while_loop, for_loop,
  break_statement, null, to, Block, statements, end, node, no_error,
}
use janguage.Parser.Ranges.{HasRanges}
use janguage.Desugar.{step_operator, desugar}
use janguage.Desugar.Lowered.{IsLowered}
use janguage.Ast.Kinds.{AstKind}
use janguage.MemoryPool.{MemoryPool}
use janguage.Desugar.Growth.{Lowers}
use janguage.Desugar.Result.{desugar-Lowers}
use janguage.Desugar.Same.{desugar-idempotent}

abbrev pub number : ℕ → Ast
number n = literal (record { suffix = 0; value = uint64 n })

abbrev pub counter : Token
counter = record {
  type = identifier;
  pos = record { rest = codes "i: < 9 break"; offset = 4; line = 0; line_offset = 4 };
  length = 1;
}

abbrev pub body : Block
body = statements (node break_statement end) no_error

-- `for i: < 9 break`
abbrev loop : Ast
loop = for_loop counter null less_than (number 9) null body

abbrev pub lowered : Ast
lowered = block (
    statements
      (node (declaration (declares counter null (to (number 0)) false)) (
        node
          (while_loop (binary_operator less_than (Ast.identifier counter) (number 9)) body (
            to (
              binary_operator assign (Ast.identifier counter)
                (binary_operator plus (Ast.identifier counter) (number 1)))))
          end))
      no_error)

-- Each node has a byte.
abbrev size_of : AstKind → ℕ
size_of _ = 1

abbrev room : MemoryPool
room = record { capacity = 100; memory_start = 4096; cursor = 4096 }

-- The loop takes nine nodes, two of them numbers.
loop_run : desugar size_of loop room ≡ ok (lowered, true, record room { cursor = 4105 })
unfolding desugar step_operator
loop_run = refl

-- A pool of four bytes is not enough.
exhausted_run :
    desugar size_of loop (record { capacity = 4; memory_start = 4096; cursor = 4096 }) ≡ abort fatal
unfolding desugar step_operator
exhausted_run = refl

desugar-Lowers_example :
    Lowers size_of (HasRanges loop) IsLowered loop room (desugar size_of loop room)
desugar-Lowers_example = desugar-Lowers size_of loop room

desugar-idempotent_example : desugar size_of lowered room ≡ ok (lowered, false, room)
desugar-idempotent_example =
    desugar-idempotent size_of loop lowered true room (record room { cursor = 4105 }) room loop_run
