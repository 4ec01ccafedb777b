-- ===== src/Lexer/Shape.antt =====
-- The form that the text of a token of each type has: an independent description of the tokens of
-- lex.cpp.
use janguage.Base.{
  ℕ, ◌<◌, ◌≡◌, ◌≢◌, true, false, not, ◌&&◌, Bytes, List, [], ◌∷◌, ◌++◌, ◌==◌, ◌⊎◌, All, codes,
  length, Outcome, ok, abort, todo,
}
use janguage.Token.{
  TokenType, identifier, keyword, number_literal, string_literal, single_line_comment,
  multi_line_comment, eof, Token, Cursor, peek,
}
use janguage.Lexer.Scan.{Lexer, matches, is_ident}
use janguage.Lexer.Next.{contains, keywords, simple_tokens}
use janguage.Lexer.Reads.{Reads}
use janguage.Lexer.Skips.{AllFrom}
use janguage.Lexer.Comments.{Closes}
use janguage.Lexer.Strings.{StringBody}
use janguage.Lexer.Numbers.{IsNumber, begins_number}

-- The first entry of the table whose text stands at the head of the stream.
pub data Picks (stream : Bytes) (bs : Bytes) (t : TokenType)
    : List (Bytes × TokenType) → Type 0 where
  here :
      {table : List (Bytes × TokenType)}
      → matches bs stream ≡ true
      → Picks stream bs t ((bs, t) ∷ table)
  there :
      {prefix : Bytes} {u : TokenType} {table : List (Bytes × TokenType)}
      → matches prefix stream ≡ false
      → Picks stream bs t table
      → Picks stream bs t ((prefix, u) ∷ table)

-- What holds of all types of a table holds of the type that is picked.
pub Picks-All :
    (P : TokenType → Type 0) {stream bs : Bytes} {t : TokenType} (table : List (Bytes × TokenType))
    → All (λ entry. P entry.1) table
    → Picks stream bs t table
    → P t
Picks-All P [] a p = elim p [ ]
Picks-All P (entry ∷ table) a (here m) = a.0
Picks-All P (entry ∷ table) a (there m p) = Picks-All P table a.1 p

-- No comment begins.
abbrev pub NoComment : Bytes → Type 0
NoComment stream = (matches (codes "//") stream ≡ false) × (matches (codes "/*") stream ≡ false)

-- No number, no string literal and no operator or punctuation begins.
pub record BeginsNone (stream : Bytes) : Type 0 where
  pub no_number : begins_number stream ≡ false
  pub no_string : (peek stream == b'"') ≡ false
  pub no_simple : All (λ entry. matches entry.0 stream ≡ false) simple_tokens

-- Letters, digits and underscores, the first one no digit.
abbrev pub IsWord : Bytes → Type 0
IsWord = AllFrom (λ i b. is_ident b i) 0

-- `bs` is the text of a token of the type `t` in front of `rest`.
pub data Shape (bs rest : Bytes) : TokenType → Type 0 where
  line_comment :
      (body : Bytes)
      → bs ≡ codes "//" ++ body
      → All (λ b. (not (b == 0) && not (b == b'\n')) ≡ true) body
      → (not (peek rest == 0) && not (peek rest == b'\n')) ≡ false
      → Shape bs rest single_line_comment
  block_comment :
      (body : Bytes)
      → bs ≡ codes "/*" ++ body
      → Closes 1 body ⊎ ((peek rest == 0) ≡ true)
      → Shape bs rest multi_line_comment
  number : IsNumber bs → Shape bs rest number_literal
  string :
      (body : Bytes)
      → bs ≡ b'"' ∷ (body ++ b'"' ∷ [])
      → StringBody body
      → Shape bs rest string_literal
  simple :
      {t : TokenType}
      → Picks (bs ++ rest) bs t simple_tokens
      → NoComment (bs ++ rest)
      → Shape bs rest t
  word :
      IsWord bs
      → 0 < length bs
      → is_ident (peek rest) (length bs) ≡ false
      → contains keywords bs ≡ false
      → Shape bs rest identifier
  keyword_word :
      IsWord bs
      → 0 < length bs
      → is_ident (peek rest) (length bs) ≡ false
      → contains keywords bs ≡ true
      → Shape bs rest keyword
  end : bs ≡ [] → (peek rest == 0) ≡ true → Shape bs rest eof
  -- The code reports a byte that begins no token, and goes on as at the end.
  bad_byte :
      (b : ℕ)
      → bs ≡ b ∷ []
      → (b == 0) ≡ false
      → is_ident b 0 ≡ false
      → BeginsNone (bs ++ rest)
      → Shape bs rest eof

-- A token that begins at `start`, and the lexer behind it.
pub record Emitted (start : Cursor) (source : Bytes) (t : Token) (lx : Lexer) : Type 0 where
  pub bytes : Bytes
  pub pos_is : t.pos ≡ start
  pub reads : Reads start bytes lx.cursor
  pub length_is : t.length ≡ length bytes
  pub source_is : lx.source ≡ source
  pub shape : Shape bytes lx.cursor.rest t.type

-- The two ends of `next_token` from `start` on: a token, or a quote behind which the source has no string
-- body with a quote at its end.
pub data Lexed (start : Cursor) (source : Bytes) : Outcome (Token × Lexer) → Type 0 where
  token : {t : Token} {lx : Lexer} → Emitted start source t lx → Lexed start source (ok (t, lx))
  unterminated :
      {c : Cursor} {bs : Bytes}
      → (peek start.rest == b'"') ≡ true
      → Reads start bs c
      → (peek c.rest == 0) ≡ true
      → ((body later : Bytes) → StringBody body → start.rest ≢ b'"' ∷ (body ++ b'"' ∷ later))
      → Lexed start source (abort todo)
