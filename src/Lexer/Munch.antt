-- ===== src/Lexer/Munch.antt =====
-- lex.cpp: the loop over `simple_tokens` takes the longest operator.
use mathlib.Core.Bool.{false≢true}
use janguage.Base.{
  ℕ, ◌-◌, ◌≤◌, ◌≡◌, sym, ◌∙◌, true, false, ◌||◌, Bytes, List, [], ◌∷◌, ltb, inl, inr, length, ok,
  some, none, Option-cases, arith,
}
use janguage.Token.{TokenType}
use janguage.Lexer.Scan.{Lexer, matches, consume_sequence}
use janguage.Lexer.Next.{is_eof, simple_tokens, emit, lex_simple}
use janguage.Lexer.Reads.{Reads, IsWithin, consume_sequence-some}
use janguage.Lexer.Comments.{consume_sequence-none}
use janguage.Lexer.Sound.{IsTable, simple_tokens-IsTable}
use janguage.Lexer.Words.{emit-ok}

pub data Listed (bs : Bytes) (t : TokenType) : List (Bytes × TokenType) → Type 0 where
  here : {table : List (Bytes × TokenType)} → Listed bs t ((bs, t) ∷ table)
  there :
      {prefix : Bytes} {u : TokenType} {table : List (Bytes × TokenType)}
      → Listed bs t table
      → Listed bs t ((prefix, u) ∷ table)

-- No text is longer than `n`.
abbrev AtMost : ℕ → List (Bytes × TokenType) → Type 0
AtMost n [] = Unit
AtMost n ((bs, t) ∷ table) = (length bs ≤ n) × AtMost n table

-- The texts stand by falling length.
abbrev IsSorted : List (Bytes × TokenType) → Type 0
IsSorted [] = Unit
IsSorted ((bs, t) ∷ table) = AtMost (length bs) table × IsSorted table

simple_tokens-IsSorted : IsSorted simple_tokens
simple_tokens-IsSorted = omega arith

Listed-AtMost :
    {n : ℕ} {bs : Bytes} {t : TokenType} (table : List (Bytes × TokenType))
    → AtMost n table
    → Listed bs t table
    → length bs ≤ n
Listed-AtMost [] a l = elim l [ ]
Listed-AtMost ((p, u) ∷ table) a here = a.0
Listed-AtMost ((p, u) ∷ table) a (there l) = Listed-AtMost table a.1 l

-- `lex_simple` returns an operator of the table that is as long as any that stands at the cursor.
pub record TakesLongest (table : List (Bytes × TokenType)) (lx : Lexer) (n : ℕ) : Type 0 where
  pub bytes : Bytes
  pub type : TokenType
  pub behind : Lexer
  pub listed : Listed bytes type table
  pub reads : Reads lx.cursor bytes behind.cursor
  pub longest : n ≤ length bytes
  pub result :
      lex_simple table lx.cursor lx
      ≡ ok (record { type = type; pos = lx.cursor; length = length bytes }, behind)

lex_simple-some :
    (table : List (Bytes × TokenType)) (lx lx' : Lexer) (p : Bytes) (u : TokenType)
    → consume_sequence lx p ≡ some lx'
    → lex_simple ((p, u) ∷ table) lx.cursor lx ≡ emit lx' lx.cursor u
unfolding lex_simple
lex_simple-some table lx lx' p u e = rw (e, lex_simple)

lex_simple-none :
    (table : List (Bytes × TokenType)) (lx : Lexer) (p : Bytes) (u : TokenType)
    → consume_sequence lx p ≡ none
    → lex_simple ((p, u) ∷ table) lx.cursor lx ≡ lex_simple table lx.cursor lx
unfolding lex_simple
lex_simple-none table lx p u e = rw (e, lex_simple)

TakesLongest-head :
    (table : List (Bytes × TokenType)) (lx lx' : Lexer) (p : Bytes) (u : TokenType) (n : ℕ)
    → IsTable ((p, u) ∷ table)
    → consume_sequence lx p ≡ some lx'
    → n ≤ length p
    → TakesLongest ((p, u) ∷ table) lx n
TakesLongest-head table lx lx' p u n (is_text, pos, _) e le =
    let r = (consume_sequence-some lx p is_text e).0 in
    let moved : (is_eof u || ltb lx.cursor.offset lx'.cursor.offset) ≡ true =
      ground (arith, r.offset_is, pos) in
    let size : lx'.cursor.offset - lx.cursor.offset ≡ length p = omega (arith, r.offset_is) in
    record {
      bytes = p;
      type = u;
      behind = lx';
      listed = here;
      reads = r;
      longest = le;
      result = lex_simple-some table lx lx' p u e ∙ emit-ok lx' lx.cursor u moved ∙ rw size;
    }

TakesLongest-tail :
    (table : List (Bytes × TokenType)) (lx : Lexer) (p : Bytes) (u : TokenType) (n : ℕ)
    → consume_sequence lx p ≡ none
    → TakesLongest table lx n
    → TakesLongest ((p, u) ∷ table) lx n
TakesLongest-tail table lx p u n e t = record {
  bytes = t.bytes;
  type = t.type;
  behind = t.behind;
  listed = there t.listed;
  reads = t.reads;
  longest = t.longest;
  result = lex_simple-none table lx p u e ∙ t.result;
}

Listed-le :
    {p q : Bytes} {u v : TokenType} (table : List (Bytes × TokenType))
    → AtMost (length p) table
    → Listed q v ((p, u) ∷ table)
    → length q ≤ length p
Listed-le table a here = omega arith
Listed-le table a (there l) = Listed-AtMost table a l

Listed-tail :
    {p q : Bytes} {u v : TokenType} (stream : Bytes) (table : List (Bytes × TokenType))
    → Listed q v ((p, u) ∷ table)
    → matches q stream ≡ true
    → matches p stream ≡ false
    → Listed q v table
Listed-tail stream table here m f = absurd (false≢true (sym f ∙ m))
Listed-tail stream table (there l) m f = l

lex_simple-TakesLongest :
    (table : List (Bytes × TokenType)) (lx : Lexer) {q : Bytes} {v : TokenType}
    → IsWithin lx
    → IsTable table
    → IsSorted table
    → Listed q v table
    → matches q lx.cursor.rest ≡ true
    → TakesLongest table lx (length q)
lex_simple-TakesLongest [] lx w i s l m = elim l [ ]
lex_simple-TakesLongest ((p, u) ∷ table) lx {q} {v} w i s l m =
    elim (Option-cases (consume_sequence lx p)) [
      | inr (lx', e) ↦ TakesLongest-head table lx lx' p u (length q) i e (Listed-le table s.0 l)
      | inl n ↦ TakesLongest-tail table lx p u (length q) n (
          lex_simple-TakesLongest table lx w i.2 s.1
            (Listed-tail lx.cursor.rest table l m (consume_sequence-none lx p w n)) m)
    ]

-- Where an operator of the table stands at the cursor of a lexer within its source, `lex_simple`
-- returns an operator of the table that is at least as long.
pub lex_simple-longest :
    (lx : Lexer) (q : Bytes) (v : TokenType)
    → IsWithin lx
    → Listed q v simple_tokens
    → matches q lx.cursor.rest ≡ true
    → TakesLongest simple_tokens lx (length q)
lex_simple-longest lx q v w l m =
    lex_simple-TakesLongest simple_tokens lx w simple_tokens-IsTable simple_tokens-IsSorted l m
