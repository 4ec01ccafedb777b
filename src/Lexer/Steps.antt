-- ===== src/Lexer/Steps.antt =====
-- lex.cpp: the lexer as a machine whose steps are its tokens, from the start of a source.
use mathlib.Core.Path.{subst}
use janguage.Base.{
  ℕ, ◌<◌, ◌≤◌, ◌≡◌, ◌≢◌, refl, sym, ap, ◌∙◌, true, false, Bytes, List, [], ◌∷◌, ◌++◌, length, All,
  take-append, Outcome, ok, abort, Abort, todo, arith, ◌==◌,
}
use janguage.Token.{TokenType, eof, Token, text, Cursor, peek}
use janguage.Lexer.Scan.{Lexer, is_white}
use janguage.Lexer.Strings.{StringBody}
use janguage.Lexer.Complete.{next_token-string}
use janguage.Lexer.Next.{next_token, lexer_at, simple_tokens}
use janguage.Lexer.Reads.{Reads, Reads-refl, Reads-trans, Reads-length, IsWithin, Reads-IsWithin}
use janguage.Lexer.Shape.{
  Picks, here, there, Shape, line_comment, block_comment, number, string, simple, word,
  keyword_word, end, bad_byte, Emitted, Lexed, token, unterminated,
}
use janguage.Lexer.Sound.{next_token-Tokenizes, IsTable, simple_tokens-IsTable}

-- The lexers that `next_token` leads to from the start of the source.
pub data Steps (source : Bytes) : Lexer → Type 0 where
  begun : Steps source (lexer_at source)
  step :
      {lx lx' : Lexer} {t : Token}
      → Steps source lx
      → next_token lx ≡ ok (t, lx')
      → Steps source lx'

-- The lexer holds the source, and its cursor stands behind the bytes `consumed`, with the line
-- and the column that these lead to.
pub record IsAt (source : Bytes) (lx : Lexer) : Type 0 where
  pub consumed : Bytes
  pub source_is : lx.source ≡ source
  pub reads : Reads (lexer_at source).cursor consumed lx.cursor

pub IsAt-IsWithin : {source : Bytes} (lx : Lexer) → IsAt source lx → IsWithin lx
IsAt-IsWithin {source} lx a =
    Reads-IsWithin {lx = lexer_at source} lx (record { size_is = omega arith }) a.reads a.source_is

Picks-pos :
    {stream bs : Bytes} {t : TokenType} (table : List (Bytes × TokenType))
    → IsTable table
    → Picks stream bs t table
    → 0 < length bs
Picks-pos [] i p = elim p [ ]
Picks-pos ((q, u) ∷ table) i (here m) = i.1
Picks-pos ((q, u) ∷ table) i (there n p) = Picks-pos table i.2 p

-- Only the end of the source, and a byte that begins no token, can make an empty token.
pub Shape-pos : {bs rest : Bytes} {t : TokenType} → Shape bs rest t → t ≢ eof → 0 < length bs
Shape-pos (line_comment body e _ _) ne = rw e (omega arith)
Shape-pos (block_comment body e _) ne = rw e (omega arith)
Shape-pos (number n) ne = rw n.splits (omega arith)
Shape-pos (string body e _) ne = rw e (omega arith)
Shape-pos (simple p _) ne = Picks-pos simple_tokens simple_tokens-IsTable p
Shape-pos (word _ pos _ _) ne = pos
Shape-pos (keyword_word _ pos _ _) ne = pos
Shape-pos (end _ _) ne = absurd (ne refl)
Shape-pos (bad_byte b e _ _ _) ne = absurd (ne refl)

-- What a successful step has read.
pub record Stepped (lx : Lexer) (t : Token) (lx' : Lexer) : Type 0 where
  pub blank : Bytes
  pub skips : Reads lx.cursor blank t.pos
  pub blank_is : All (λ b. is_white b ≡ true) blank
  pub begins : is_white (peek t.pos.rest) ≡ false
  pub reads : Reads t.pos (text t) lx'.cursor
  pub length_is : t.length ≡ length (text t)
  pub shape : Shape (text t) lx'.cursor.rest t.type
  pub source_is : lx'.source ≡ lx.source
  pub progress : t.type ≢ eof → lx.cursor.offset < lx'.cursor.offset

text-Emitted :
    {start : Cursor} {source : Bytes} {t : Token} {lx : Lexer} (e : Emitted start source t lx)
    → text t ≡ e.bytes
unfolding text
text-Emitted {t = t} {lx = lx} e =
    rw (e.pos_is, e.length_is, e.reads.splits) (take-append e.bytes lx.cursor.rest)

abbrev EmittedIf : Cursor → Bytes → Outcome (Token × Lexer) → Type 0
EmittedIf start source (ok (t, lx)) = Emitted start source t lx
EmittedIf start source (abort _) = Unit

Lexed-EmittedIf :
    {start : Cursor} {source : Bytes} {o : Outcome (Token × Lexer)}
    → Lexed start source o
    → EmittedIf start source o
Lexed-EmittedIf (token e) = e
Lexed-EmittedIf (unterminated _ _ _ _) = tt

pub next_token-Stepped :
    (lx : Lexer) {lx' : Lexer} {t : Token}
    → IsWithin lx
    → next_token lx ≡ ok (t, lx')
    → Stepped lx t lx'
next_token-Stepped lx {lx'} {t} w e =
    let k = next_token-Tokenizes lx w in
    let m : Emitted k.start lx.source t lx' =
      subst (EmittedIf k.start lx.source) e (Lexed-EmittedIf k.lexed) in
    let x = text-Emitted m in
    record {
      blank = k.blank;
      skips = rw m.pos_is k.skips;
      blank_is = k.blank_is;
      begins = rw m.pos_is k.begins;
      reads = rw (x, m.pos_is) m.reads;
      length_is = m.length_is ∙ ap length (sym x);
      shape = rw x m.shape;
      source_is = m.source_is;
      progress = λ ne. omega (arith, Shape-pos m.shape ne, m.reads.offset_is, k.skips.offset_is);
    }

-- Every reachable lexer stands where the bytes that it has read lead to.
pub Steps-IsAt : {source : Bytes} {lx : Lexer} → Steps source lx → IsAt source lx
Steps-IsAt {source} begun = record {
  consumed = [];
  source_is = refl;
  reads = Reads-refl (lexer_at source).cursor;
}
Steps-IsAt (step {lx} {lx'} {t} s e) =
    let a = Steps-IsAt s in
    let k = next_token-Stepped lx (IsAt-IsWithin lx a) e in
    record {
      consumed = a.consumed ++ (k.blank ++ text t);
      source_is = k.source_is ∙ a.source_is;
      reads = Reads-trans a.reads (Reads-trans k.skips k.reads);
    }

-- From a reachable lexer, every token that is not the end of the source moves the cursor on, and
-- not past the end of the source.
pub Steps-advances :
    {source : Bytes} {lx lx' : Lexer} {t : Token}
    → Steps source lx
    → next_token lx ≡ ok (t, lx')
    → t.type ≢ eof
    → (lx.cursor.offset < lx'.cursor.offset) × (lx'.cursor.offset ≤ length source)
Steps-advances {source} {lx} {lx'} {t} s e ne =
    let w = IsAt-IsWithin lx (Steps-IsAt s) in
    let a = Steps-IsAt (step s e) in
    (
      (next_token-Stepped lx w e).progress ne,
      omega (arith, a.reads.offset_is, Reads-length a.reads),
    )

abbrev AbortsWith : Cursor → Outcome (Token × Lexer) → Type 0
AbortsWith start (ok _) = Unit
AbortsWith start (abort e) = (e ≡ todo) × ((peek start.rest == b'"') ≡ true)

Lexed-AbortsWith :
    {start : Cursor} {source : Bytes} {o : Outcome (Token × Lexer)}
    → Lexed start source o
    → AbortsWith start o
Lexed-AbortsWith (token e) = tt
Lexed-AbortsWith (unterminated q _ _ _) = (refl, q)

-- Behind white space stands a quote that nothing closes.
pub record Unterminated (lx : Lexer) : Type 0 where
  pub blank : Bytes
  pub rest : Bytes
  pub splits : lx.cursor.rest ≡ blank ++ (b'"' ∷ rest)
  pub blank_is : All (λ b. is_white b ≡ true) blank
  pub unclosed : (body later : Bytes) → StringBody body → rest ≢ body ++ (b'"' ∷ later)

peek_cons : (bs : Bytes) (k : ℕ) → (peek bs == k) ≡ true → k ≢ 0 → (t : Bytes) × (bs ≡ k ∷ t)
peek_cons [] k h ne = ground arith
peek_cons (b ∷ t) k h ne = (t, ground arith)

-- A reachable lexer aborts only at a string literal that is not closed: no assertion fails, and no
-- loop runs on.
pub Steps-abort :
    {source : Bytes} {lx : Lexer} (a : Abort)
    → Steps source lx
    → next_token lx ≡ abort a
    → (a ≡ todo) × Unterminated lx
Steps-abort {source} {lx} a s e =
    let k = next_token-Tokenizes lx (IsAt-IsWithin lx (Steps-IsAt s)) in
    let (is_todo, q) = subst (AbortsWith k.start) e (Lexed-AbortsWith k.lexed) in
    let (rest, at_quote) = peek_cons k.start.rest b'"' q (omega arith) in
    (
      is_todo,
      record {
        blank = k.blank;
        rest = rest;
        splits = k.skips.splits ∙ ap (λ t. k.blank ++ t) at_quote;
        blank_is = k.blank_is;
        unclosed = λ body later b split. cc (
          sym e ∙ k.same,
          (next_token-string (record lx { cursor = k.start }) body later
              (at_quote ∙ ap (λ t. b'"' ∷ t) split) b).result,
        );
      },
    )
