-- ===== src/Lexer/Sound.antt =====
-- lex.cpp: every token is well formed, stands where its position says, and no byte is lost.
use mathlib.Core.Path.{subst}
use janguage.Base.{
  ℕ, suc, ◌+◌, ◌<◌, ◌≡◌, refl, sym, ◌∙◌, Bool, true, false, not, ◌&&◌, Bytes, List, [], ◌∷◌, ◌==◌,
  ltb, inl, inr, All, codes, length, abort, Abort, todo, ◌++◌, ◌≢◌, Outcome, ◌>>=◌, Bool-cases,
  Option-cases, arith,
}
use janguage.Token.{
  TokenType, number_literal, string_literal, single_line_comment, multi_line_comment, Token, Cursor,
  peek,
}
use janguage.Lexer.Scan.{matches, Lexer, is_white, consume_sequence, next, loop_next, skip_comment}
use janguage.Lexer.Next.{
  simple_tokens, emit, lex_simple, lex_string, lex_number, lex_comment, next_token, skip_number,
  skip_suffix,
}
use janguage.Lexer.Reads.{
  Reads, Reads-trans, Reads-rest, Reads-IsWithin, IsWithin, IsText, next-Reads_byte,
  next-Reads_cons, matches-append, consume_sequence-some,
}
use janguage.Lexer.Skips.{AllFrom, while_next-Skips}
use janguage.Lexer.Comments.{consume_sequence-none, skip_comment-Comment}
use janguage.Lexer.Strings.{
  StringBody, StringScan, closed, unclosed, skip_string-StringScan, skip_string-unclosed,
}
use janguage.Lexer.Numbers.{begins_number, skip_number-none, skip_number-IsNumber}
use janguage.Lexer.Shape.{
  NoComment, Picks, here, there, line_comment, block_comment, number, string, simple, Lexed,
  unterminated,
}
use janguage.Lexer.Stages.{next_token-lex_comment}
use janguage.Lexer.Words.{emit-Lexed, lex_word-Lexed}

-- The texts of a table have no NUL byte and are not empty.
abbrev pub IsTable : List (Bytes × TokenType) → Type 0
IsTable [] = Unit
IsTable ((bs, t) ∷ table) = IsText bs × (0 < length bs) × IsTable table

-- A suffix of the table of simple tokens, none of whose earlier entries stands at the stream.
abbrev Remains : Bytes → List (Bytes × TokenType) → Type 0
Remains stream table =
    (bs : Bytes) (t : TokenType) → Picks stream bs t table → Picks stream bs t simple_tokens

-- If none of a suffix of the table stands at the stream, then none of the table does.
abbrev NoneBefore : Bytes → List (Bytes × TokenType) → Type 0
NoneBefore stream table =
    All (λ entry. matches entry.0 stream ≡ false) table
    → All (λ entry. matches entry.0 stream ≡ false) simple_tokens

lex_simple-Lexed :
    (table : List (Bytes × TokenType)) (lx : Lexer)
    → IsWithin lx
    → IsTable table
    → NoComment lx.cursor.rest
    → begins_number lx.cursor.rest ≡ false
    → (peek lx.cursor.rest == b'"') ≡ false
    → Remains lx.cursor.rest table
    → NoneBefore lx.cursor.rest table
    → Lexed lx.cursor lx.source (lex_simple table lx.cursor lx)
unfolding lex_simple
lex_simple-Lexed [] lx w ok_table no_comment no_number no_string left none =
    lex_word-Lexed lx (record { no_number = no_number; no_string = no_string; no_simple = none tt })
lex_simple-Lexed ((prefix, t) ∷ table) lx w (is_text, pos, later) no_comment no_number no_string
      left none =
    elim (Option-cases (consume_sequence lx prefix)) [
      | inl n ↦
          rw (n, lex_simple)
            (let other = consume_sequence-none lx prefix w n in
              lex_simple-Lexed table lx w later no_comment no_number no_string
                (λ bs u p. left bs u (there other p)) (λ h. none (other, h)))
      | inr (lx', e) ↦
          let (r, s) = consume_sequence-some lx prefix is_text e in
          rw (e, lex_simple)
            (emit-Lexed lx' lx.cursor t r s
              (simple
                (subst (λ st. Picks st prefix t simple_tokens) r.splits
                  (left prefix t (here (rw r.splits (matches-append prefix lx'.cursor.rest)))))
                (subst NoComment r.splits no_comment))
              (ground (arith, pos)))
    ]

pub simple_tokens-IsTable : IsTable simple_tokens
simple_tokens-IsTable = ground arith

-- The loop over a string literal, and what follows it.
string_tail-Lexed :
    (lx : Lexer) {o : Outcome Cursor}
    → (peek lx.cursor.rest == b'"') ≡ true
    → StringScan (next lx.cursor) o
    → ((reason : Abort) (body later : Bytes)
        → o ≡ abort reason
        → StringBody body
        → (next lx.cursor).rest ≢ body ++ (b'"' ∷ later))
    → Lexed lx.cursor lx.source
        (o >>= λ c. emit (record lx { cursor = next c }) lx.cursor string_literal)
string_tail-Lexed lx q (closed {c'} {bs} body r q') none =
    let r' =
      Reads-trans (next-Reads_byte lx.cursor b'"' q refl)
        (Reads-trans r (next-Reads_byte c' b'"' q' refl)) in
    emit-Lexed (record lx { cursor = next c' }) lx.cursor string_literal r' refl
      (string bs refl body) (ground arith)
string_tail-Lexed lx q (unclosed {c'} {bs} r n) none =
    unterminated q (Reads-trans (next-Reads_byte lx.cursor b'"' q refl) r) n
      (λ body later ok_body e.
        none todo body later refl ok_body (Reads-rest (next-Reads_cons lx.cursor e refl) e))

lex_string-Lexed :
    (lx : Lexer)
    → IsWithin lx
    → NoComment lx.cursor.rest
    → begins_number lx.cursor.rest ≡ false
    → Lexed lx.cursor lx.source (lex_string lx.cursor lx)
unfolding lex_string
lex_string-Lexed lx w no_comment no_number = elim (Bool-cases (peek lx.cursor.rest == b'"')) [
  | inl q ↦ rw q (
      string_tail-Lexed lx q
        (skip_string-StringScan (suc (length (next lx.cursor).rest)) (next lx.cursor) (omega arith))
        (λ reason body later.
          skip_string-unclosed (suc (length (next lx.cursor).rest)) (next lx.cursor) reason body
            later (omega arith)))
  | inr q ↦ rw q (
      lex_simple-Lexed simple_tokens lx w simple_tokens-IsTable no_comment no_number q (λ bs t p. p)
        (λ h. h))
]

lex_number-Lexed :
    (lx : Lexer)
    → IsWithin lx
    → NoComment lx.cursor.rest
    → Lexed lx.cursor lx.source (lex_number lx.cursor lx)
unfolding lex_number
lex_number-Lexed lx w no_comment = elim (Bool-cases (begins_number lx.cursor.rest)) [
  | inl b ↦
      let (bs, r, is_number, moved) = skip_number-IsNumber lx.cursor b in
      let t : ltb lx.cursor.offset (skip_number lx.cursor).offset ≡ true = ground (arith, moved) in
      rw t (
        emit-Lexed (record lx { cursor = skip_suffix (skip_number lx.cursor) }) lx.cursor
          number_literal r refl (number is_number) (rw is_number.splits (ground arith)))
  | inr b ↦
      let t : ltb lx.cursor.offset lx.cursor.offset ≡ false = ground arith in
      rw (skip_number-none lx.cursor b, t) (lex_string-Lexed lx w no_comment b)
]

AllFrom-All :
    (f : ℕ → Bool) (i : ℕ) (bs : Bytes) → AllFrom (λ _ b. f b) i bs → All (λ b. f b ≡ true) bs
AllFrom-All f i [] h = tt
AllFrom-All f i (b ∷ bs) h = (h.0, AllFrom-All f (i + 1) bs h.1)

abbrev line_test : ℕ → Bool
line_test b = not (b == 0) && not (b == b'\n')

lex_comment-Lexed :
    (lx : Lexer) → IsWithin lx → Lexed lx.cursor lx.source (lex_comment lx.cursor lx)
unfolding lex_comment
lex_comment-Lexed lx w = elim (Option-cases (consume_sequence lx (codes "//"))) [
  | inr (lx', e) ↦
      let (r, s) = consume_sequence-some lx (codes "//") (refl, (refl, tt)) e in
      let sk =
        while_next-Skips (λ _ b. line_test b) (length lx'.cursor.rest) lx'.cursor (λ _. refl)
          (omega arith) in
      rw (e, lex_comment)
        (emit-Lexed (loop_next (λ _ b. line_test b) lx') lx.cursor single_line_comment
          (Reads-trans r sk.reads) s
          (line_comment sk.bytes refl (AllFrom-All line_test _ sk.bytes sk.accepted) sk.stopped)
          (ground arith))
  | inl n ↦ elim (Option-cases (consume_sequence lx (codes "/*"))) [
    | inr (lx', e) ↦
        let (r, s) = consume_sequence-some lx (codes "/*") (refl, (refl, tt)) e in
        let c =
          skip_comment-Comment (suc (length lx'.cursor.rest)) 1 lx' (Reads-IsWithin lx' w r s)
            (omega arith) in
        rw (n, e, lex_comment)
          (emit-Lexed (skip_comment (suc (length lx'.cursor.rest)) 1 lx') lx.cursor
            multi_line_comment (Reads-trans r c.reads) (c.source_is ∙ s)
            (block_comment c.bytes refl c.ends) (ground arith))
    | inl n' ↦
        rw (n, n', lex_comment)
          (lex_number-Lexed lx w
            (consume_sequence-none lx (codes "//") w n, consume_sequence-none lx (codes "/*") w n'))
  ]
]

white-nul : is_white 0 ≡ false
unfolding is_white
white-nul = refl

-- White space is skipped up to `start`, and there a token begins.
pub record Tokenizes (lx : Lexer) (o : Outcome (Token × Lexer)) : Type 0 where
  pub blank : Bytes
  pub start : Cursor
  pub skips : Reads lx.cursor blank start
  pub blank_is : All (λ b. is_white b ≡ true) blank
  pub begins : is_white (peek start.rest) ≡ false
  pub lexed : Lexed start lx.source o
  pub same : o ≡ next_token (record lx { cursor = start })

-- From every lexer whose cursor lies within its source, `next_token` skips exactly the white space,
-- and from there either returns a token that begins there, whose text has the form of its type, with
-- the lexer behind that text, or stops at a quote where the rest of the source has no string body with
-- a quote behind it. An end token is returned only at the end of the source and at a byte that begins
-- no token.
pub next_token-Tokenizes : (lx : Lexer) → IsWithin lx → Tokenizes lx (next_token lx)
unfolding next_token
next_token-Tokenizes lx w =
    let test = λ (_ b : ℕ). is_white b in
    let sk =
      while_next-Skips test (length lx.cursor.rest) lx.cursor (λ _. white-nul) (omega arith) in
    let lx' = loop_next test lx in
    record {
      blank = sk.bytes;
      start = lx'.cursor;
      skips = sk.reads;
      blank_is = AllFrom-All is_white _ sk.bytes sk.accepted;
      begins = sk.stopped;
      lexed = lex_comment-Lexed lx' (Reads-IsWithin lx' w sk.reads refl);
      same = sym (next_token-lex_comment lx' sk.stopped);
    }
