-- ===== src/Lexer/Stages.antt =====
-- lex.cpp: when `next_token` passes a stage by.
use janguage.Base.{
  ℕ, zero, suc, ◌≡◌, refl, Bool, false, Bytes, ltb, inl, inr, codes, length, none, Option-cases,
  arith,
}
use janguage.Token.{Cursor, peek}
use janguage.Lexer.Scan.{Lexer, matches, is_white, consume_sequence, while_next}
use janguage.Lexer.Next.{lex_string, lex_number, lex_comment, next_token}
use janguage.Lexer.Reads.{consume_sequence-eq}
use janguage.Lexer.Numbers.{begins_number, skip_number-none}

pub while_next_stop :
    (test : ℕ → ℕ → Bool) (fuel : ℕ) (c : Cursor)
    → test c.offset (peek c.rest) ≡ false
    → while_next test fuel c ≡ c
unfolding while_next
while_next_stop test zero c h = refl
while_next_stop test (suc fuel) c h = rw h

pub consume_sequence-false :
    (lx : Lexer) (prefix : Bytes)
    → matches prefix lx.cursor.rest ≡ false
    → consume_sequence lx prefix ≡ none
consume_sequence-false lx prefix h = elim (Option-cases (consume_sequence lx prefix)) [
  | inl n ↦ n
  | inr (lx', e) ↦ cc (h, (consume_sequence-eq lx prefix e).0)
]

pub next_token-lex_comment :
    (lx : Lexer) → is_white (peek lx.cursor.rest) ≡ false → next_token lx ≡ lex_comment lx.cursor lx
unfolding next_token
next_token-lex_comment lx h =
    rw (while_next_stop (λ _ b. is_white b) (length lx.cursor.rest) lx.cursor h)

pub lex_comment-lex_number :
    (lx : Lexer)
    → matches (codes "//") lx.cursor.rest ≡ false
    → matches (codes "/*") lx.cursor.rest ≡ false
    → lex_comment lx.cursor lx ≡ lex_number lx.cursor lx
unfolding lex_comment
lex_comment-lex_number lx h k = rw (
  consume_sequence-false lx (codes "//") h,
  consume_sequence-false lx (codes "/*") k,
  lex_comment,
)

pub lex_number-lex_string :
    (lx : Lexer)
    → begins_number lx.cursor.rest ≡ false
    → lex_number lx.cursor lx ≡ lex_string lx.cursor lx
unfolding lex_number
lex_number-lex_string lx h =
    let t : ltb lx.cursor.offset lx.cursor.offset ≡ false = ground arith in
    rw (skip_number-none lx.cursor h, t)
