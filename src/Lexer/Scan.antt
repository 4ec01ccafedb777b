-- ===== src/Lexer/Scan.antt =====
-- lex.cpp: character classes, `next`, `consume_sequence`, `emit`, and the loops of `next_token`.
use janguage.Base.{
  ℕ, zero, suc, ◌+◌, Bool, true, false, ◌&&◌, ◌||◌, Bytes, [], ◌∷◌, Option, none, some, ltb, leb,
  ◌==◌, if◌then◌else◌, length, codes, Outcome, ok, abort, todo, out_of_fuel,
}
use janguage.Token.{Cursor, peek, peek_second}

pub record Lexer : Type 0 where
  pub source : Bytes
  pub cursor : Cursor

-- The body of the loop of `next`, on the bytes from the cursor on: a cursor at a NUL byte stays.
unfoldable pub next_at : Bytes → Cursor → Cursor
next_at [] c = c
next_at (b ∷ bs) c =
    if b == 0
    then c
    else if b == b'\n'
    then record { rest = bs; offset = c.offset + 1; line = c.line + 1; line_offset = 0 }
    else record { rest = bs; offset = c.offset + 1; line = c.line; line_offset = c.line_offset + 1 }

-- `next` with its default `n = 1`
unfoldable pub next : Cursor → Cursor
unfolding next_at
next c = next_at c.rest c

-- `next(cursor, n)`. Once a round stays at a NUL byte, so do all later ones: that is its `break`.
unfoldable pub next_times : ℕ → Cursor → Cursor
next_times zero c = c
next_times (suc n) c = next_times n (next c)

-- The comparison loop of `consume_sequence`.
unfoldable pub matches : Bytes → Bytes → Bool
matches [] rest = true
matches (p ∷ ps) [] = false
matches (p ∷ ps) (b ∷ bs) = b == p && matches ps bs

-- `none` is the result `false`, which leaves the lexer as it is.
unfoldable pub consume_sequence : Lexer → Bytes → Option Lexer
unfolding matches
consume_sequence lx prefix =
    if ltb (length lx.source) (lx.cursor.offset + length prefix)
    then none
    else if matches prefix lx.cursor.rest
    then some (record lx { cursor = next_times (length prefix) lx.cursor })
    else none

abbrev within : ℕ → ℕ → ℕ → Bool
within lo hi c = leb lo c && leb c hi

unfoldable pub is_ident : ℕ → ℕ → Bool
is_ident c i =
    within b'a' b'z' c || within b'A' b'Z' c || c == b'_' || (ltb 0 i && within b'0' b'9' c)

unfoldable pub is_white : ℕ → Bool
is_white c = c == b' ' || c == b'\t' || c == b'\n'

unfoldable pub is_digit : ℕ → Bool
is_digit c = within b'0' b'9' c

unfoldable pub is_hex_digit : ℕ → Bool
is_hex_digit c = within b'0' b'9' c || within b'a' b'f' c || within b'A' b'F' c

-- `for (; test; next(cursor))`, where the test reads the offset and the byte at the cursor.
unfoldable pub while_next : (ℕ → ℕ → Bool) → ℕ → Cursor → Cursor
while_next test zero c = c
while_next test (suc fuel) c =
    let later = while_next test fuel (next c) in if test c.offset (peek c.rest) then later else c

-- Runs a loop on the lexer's cursor, with a round for each byte that is left.
abbrev pub loop_next : (ℕ → ℕ → Bool) → Lexer → Lexer
loop_next test lx = record lx { cursor = while_next test (length lx.cursor.rest) lx.cursor }

-- The loop of a multi-line comment, at the given depth.
unfoldable pub skip_comment : ℕ → ℕ → Lexer → Lexer
skip_comment zero depth lx = lx
skip_comment (suc fuel) zero lx = lx
skip_comment (suc fuel) (suc depth) lx = elim (consume_sequence lx (codes "/*")) [
  | some lx' ↦ skip_comment fuel (suc (suc depth)) lx'
  | none ↦ elim (consume_sequence lx (codes "*/")) [
    | some lx' ↦ skip_comment fuel depth lx'
    | none ↦ elim (peek lx.cursor.rest == 0) [
      | true ↦ lx
      | false ↦ skip_comment fuel (suc depth) (record lx { cursor = next lx.cursor })
    ]
  ]
]

-- The loop of a number literal; the flag is `has_point`.
unfoldable pub skip_digits : ℕ → Bool → Cursor → Cursor
skip_digits zero has_point c = c
skip_digits (suc fuel) has_point c =
    let b = peek c.rest in
    let later = skip_digits fuel (has_point || b == b'.') (next c) in
    if is_hex_digit b || b == b'.' then (if b == b'.' && has_point then c else later) else c

-- The loop of a string literal, behind the opening quote. It aborts at the end of the source.
unfoldable pub skip_string : ℕ → Cursor → Outcome Cursor
skip_string zero c = abort out_of_fuel
skip_string (suc fuel) c = elim (peek c.rest == b'"') [
  | true ↦ ok c
  | false ↦ elim (peek c.rest == 0) [
    | true ↦ abort todo
    | false ↦
        skip_string fuel
          (next (if peek c.rest == b'\\' && peek_second c.rest == b'"' then next c else c))
  ]
]
