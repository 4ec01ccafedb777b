-- ===== src/Parser/Outcomes.antt =====
-- parse.cpp: a postcondition of parse functions, with a rule for each form of Combine.
use mathlib.Core.Path.{subst}
use janguage.Base.{
  ℕ, suc, ◌+◌, ◌*◌, ◌≤◌, ◌<◌, ◌≡◌, ◌≢◌, sym, ◌∙◌, ◌⊎◌, inl, inr, Bool, true, Bytes, none, some, ltb,
  length, ok, abort, todo, ◌>>=◌, ◌>>◌, assert, Bool-cases, arith, if◌then◌else◌,
}
use janguage.Token.{TokenType, TokenType-discrete, Token, eof, string_literal}
use janguage.Lexer.Scan.{Lexer}
use janguage.Lexer.Reads.{Reads-length}
use janguage.Lexer.Steps.{Steps, Steps-IsAt}
use janguage.Parser.Tokens.{
  Parser, same_type, is_keyword, parser_error, parser_peek_token, parser_next_token, parse_token,
  parse_keyword, same_prefix,
}
use janguage.Parser.Advance.{decided_iff, advance-true, advance-same, keyword-ne-eof}
use janguage.Parser.Combine.{Parsed, moved, branch, choose, fail, token, keyword}
use janguage.Parser.Reports.{IsTerminated, parser_error-cases}
use janguage.Parser.Goes.{offset_of, Goes, next-cases, peek-cases}

-- A parse function on a source, from an offset on: it gives back the parser that it was given, or
-- returns one that has moved on to a place that the lexer reaches, with an output that satisfies `P`,
-- or the program stops at a string literal that is not closed.
pub data Parses (source : Bytes) (from : ℕ) {A : Type 0} (P : A → Type 0) : Parsed A → Type 0 where
  refuses : Parses source from P (ok none)
  reads :
      {out : A} {p : Parser}
      → Steps source p.lexer
      → from < offset_of p
      → P out
      → Parses source from P (ok (some (out, p)))
  stops : Parses source from P (abort todo)

abbrev pub Any : {A : Type 0} → A → Type 0
Any _ = Unit

-- Enough fuel for a function that at most `level` calls lead away from without reading a token.
abbrev pub Enough : Bytes → ℕ → ℕ → Parser → Type 0
Enough source fuel level p = 20 * length source + level ≤ fuel + 20 * offset_of p

-- A token of a type: it is not empty, and a string has its quotes.
abbrev pub Spans : TokenType → Token → Type 0
Spans type t = (0 < t.length) × (type ≡ string_literal → 2 ≤ t.length)

pub Steps-le : {source : Bytes} {lx : Lexer} → Steps source lx → lx.cursor.offset ≤ length source
Steps-le s = let a = Steps-IsAt s in omega (arith, a.reads.offset_is, Reads-length a.reads)

-- A function without fuel does not have enough.
pub Enough-zero :
    {source : Bytes} {P : Type 0} (level : ℕ) (p : Parser)
    → Steps source p.lexer
    → Enough source 0 (suc level) p
    → P
Enough-zero level p s h = absurd (omega (arith, h, Steps-le s))

module _ {source : Bytes} {A : Type 0} {P : A → Type 0} where
  pub Parses-from :
      {from to : ℕ} {m : Parsed A} → from ≤ to → Parses source to P m → Parses source from P m
  Parses-from le Parses.refuses = Parses.refuses
  Parses-from le (Parses.reads s lt h) = Parses.reads s (omega (arith, le, lt)) h
  Parses-from le Parses.stops = Parses.stops

moved-on :
    {A : Type 0} (p q : Parser) (out : A)
    → offset_of p < offset_of q
    → moved p (some (out, q)) ≡ some (out, record p { lexer = q.lexer })
unfolding moved
moved-on p q out lt = rw (advance-true p q lt)

module _ {source : Bytes} {A B : Type 0} {P : A → Type 0} {Q : B → Type 0} {from : ℕ} where
  pub choose-Parses :
      {m : Parsed A} (p : Parser) (then_do : A → Parser → Parsed B)
      (otherwise : Unit {0} → Parsed B)
      → Parses source (offset_of p) P m
      → ((out : A) (q : Parser)
          → Steps source q.lexer
          → offset_of p < offset_of q
          → P out
          → Parses source from Q (then_do out q))
      → Parses source from Q (otherwise tt)
      → Parses source from Q (choose p m then_do otherwise)
  unfolding choose moved branch
  choose-Parses p then_do otherwise Parses.refuses g h = h
  choose-Parses p then_do otherwise Parses.stops g h = Parses.stops
  choose-Parses p then_do otherwise (Parses.reads {out} {p = q} s lt x) g h =
      subst (λ r. Parses source from Q (branch r then_do otherwise)) (sym (moved-on p q out lt))
        (g out (record p { lexer = q.lexer }) s lt x)

  pub require-Parses :
      {m : Parsed A} (p : Parser) (then_do : A → Parser → Parsed B)
      → Parses source (offset_of p) P m
      → ((out : A) (q : Parser)
          → Steps source q.lexer
          → offset_of p < offset_of q
          → P out
          → Parses source from Q (then_do out q))
      → Parses source from Q (choose p m then_do (λ _. ok none))
  require-Parses p then_do m g = choose-Parses p then_do (λ _. ok none) m g Parses.refuses

module _ {source : Bytes} {from : ℕ} {B : Type 0} {Q : B → Type 0} where
  pub error-Parses :
      {m : Parsed B} (p start : Parser)
      → IsTerminated source
      → Steps source start.lexer
      → Parses source from Q m
      → Parses source from Q (parser_error p start >> m)
  error-Parses p start z s h = elim (parser_error-cases p start z s) [
    | inl e ↦ rw e h
    | inr e ↦ rw e Parses.stops
  ]

  pub fail-Parses :
      (p start : Parser)
      → IsTerminated source
      → Steps source start.lexer
      → Parses source from Q (fail p start)
  unfolding fail
  fail-Parses p start z s = error-Parses p start z s Parses.refuses

  pub assert-Parses :
      {b : Bool} {m : Parsed B}
      → b ≡ true
      → Parses source from Q m
      → Parses source from Q (assert b >> m)
  assert-Parses e h = rw e h

  -- `Parser::peek_token`, and then `Parser::next_token`.
  pub peek-Parses :
      (p : Parser) (k : Token → Parsed B)
      → Steps source p.lexer
      → ((t : Token) → parser_peek_token p ≡ ok t → Parses source from Q (k t))
      → Parses source from Q (parser_peek_token p >>= k)
  peek-Parses p k s h = elim (peek-cases p s) [
    | inl e ↦ rw e Parses.stops
    | inr (t, e) ↦ rw e (h t e)
  ]

  pub next-Parses :
      (p : Parser) (k : Token × Parser → Parsed B)
      → Steps source p.lexer
      → ((t : Token) (q : Parser) → Goes source p t q → Parses source from Q (k (t, q)))
      → Parses source from Q (parser_next_token p >>= k)
  next-Parses p k s h = elim (next-cases p s) [
    | inl e ↦ rw e Parses.stops
    | inr (t, q, e, g) ↦ rw e (h t q g)
  ]

module _ {source : Bytes} (p : Parser) (z : IsTerminated source) (s : Steps source p.lexer) where
  pub token-Parses :
      (type : TokenType) → type ≢ eof → Parses source (offset_of p) (Spans type) (token p type)
  unfolding token parse_token
  token-Parses type ne = elim (next-cases p s) [
    | inl e ↦ rw e Parses.stops
    | inr (t, q, e, g) ↦ elim (Bool-cases (same_type t.type type)) [
      | inl same ↦
          let is = (decided_iff (TokenType-discrete t.type type)).0 same in
          let ne' = λ (f : t.type ≡ eof). ne (sym is ∙ f) in
          rw (e, same) (Parses.reads g.reached (g.moves ne') (g.size ne', λ f. g.quotes (is ∙ f)))
      | inr other ↦ elim (parser_error-cases p p z s) [
        | inl r ↦ rw (e, other, r) Parses.refuses
        | inr r ↦ rw (e, other, r) Parses.stops
      ]
    ]
  ]

  -- `parse_keyword` stops, returns the parser that it was given, or goes behind a token.
  parse_keyword-cases :
      (word : Bytes)
      → (parse_keyword p word ≡ abort todo)
        ⊎ ((parse_keyword p word ≡ ok p)
            ⊎ ((q : Parser) × (parse_keyword p word ≡ ok q)
                × Steps source q.lexer
                × (offset_of p < offset_of q)))
  unfolding parse_keyword
  parse_keyword-cases word = elim (next-cases p s) [
    | inl e ↦ inl (rw e)
    | inr (t, q, e, g) ↦
        let len = (if ltb t.length (length word) then t.length else length word) in
        elim (Bool-cases (is_keyword t.type)) [
          | inr k ↦ elim (parser_error-cases p p z s) [
            | inl r ↦ inr (inl (rw (e, k, r)))
            | inr r ↦ inl (rw (e, k, r))
          ]
          | inl k ↦ elim (Bool-cases (same_prefix len t.pos.rest word)) [
            | inl same ↦
                inr (inr (q, rw (e, k, same), g.reached, g.moves (keyword-ne-eof t.type k)))
            | inr other ↦ elim (parser_error-cases q p z s) [
              | inl r ↦ inr (inl (rw (e, k, other, r)))
              | inr r ↦ inl (rw (e, k, other, r))
            ]
          ]
        ]
  ]

  pub keyword-Parses : (word : Bytes) → Parses source (offset_of p) Any (keyword p word)
  unfolding keyword moved
  keyword-Parses word = elim (parse_keyword-cases word) [
    | inl e ↦ rw e Parses.stops
    | inr (inl e) ↦ rw (e, advance-same p) Parses.refuses
    | inr (inr (q, e, s', lt)) ↦ rw (e, advance-true p q lt) (Parses.reads s' lt tt)
  ]
