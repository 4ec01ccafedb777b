-- ===== src/Parser/Reports.antt =====
-- parse.cpp: `Parser::error` on a source that ends in a NUL byte, as `read_file_as_string` gives it.
use mathlib.Core.Path.{subst}
use janguage.Base.{
  append-nil, ℕ, ◌<◌, ◌≡◌, refl, sym, ap, ◌∙◌, ◌⊎◌, inl, inr, false, Bytes, [], ◌∷◌, ◌++◌, ◌==◌,
  length, length-append, ok, abort, todo, Bool-cases, arith,
}
use janguage.Token.{Cursor, peek}
use janguage.Lexer.Scan.{is_white}
use janguage.Lexer.Next.{next_token, peek_token, lexer_at}
use janguage.Lexer.Reads.{Reads, Reads-trans, IsText}
use janguage.Lexer.Steps.{Steps, Steps-IsAt, IsAt-IsWithin, next_token-Stepped, Steps-abort}
use janguage.StringUtil.{byte_at, is_blank}
use janguage.StringUtil.Lines.{extract_line-Extracts}
use janguage.Parser.Tokens.{Parser, parser_error}
use janguage.Parser.Comments.{Outcome-cases}

-- The last byte of the source is NUL.
abbrev pub IsTerminated : Bytes → Type 0
IsTerminated source = (body : Bytes) × (source ≡ body ++ 0 ∷ [])

IsText-ends : (body : Bytes) → IsText (body ++ 0 ∷ []) → ⊥
IsText-ends [] t = absurd (cc t.0)
IsText-ends (b ∷ body) t = IsText-ends body t.1

byte_at-append : (xs ys : Bytes) → byte_at (xs ++ ys) (length xs) ≡ peek ys
unfolding byte_at
byte_at-append [] [] = refl
byte_at-append [] (y ∷ ys) = refl
byte_at-append (x ∷ xs) ys = byte_at-append xs ys

rest-pos :
    {source : Bytes} (body bs rest : Bytes)
    → source ≡ body ++ 0 ∷ []
    → source ≡ bs ++ rest
    → IsText bs
    → length bs < length source
rest-pos body bs [] e split t =
    absurd (IsText-ends body (subst IsText (sym (append-nil bs) ∙ sym split ∙ e) t))
rest-pos body bs (b ∷ rest) e split t = omega (arith, ap length split, length-append bs (b ∷ rest))

-- A cursor that was reached without reading a NUL byte is in front of the last byte of the source.
terminated-lt :
    {source bs : Bytes} (c : Cursor)
    → IsTerminated source
    → Reads (lexer_at source).cursor bs c
    → (c.offset < length source) × (byte_at source c.offset ≡ peek c.rest)
terminated-lt {source} {bs} c (body, e) r =
    let at : c.offset ≡ length bs = omega (arith, r.offset_is) in
    (
      omega (arith, at, rest-pos body bs c.rest e r.splits r.no_nul),
      rw at (ap (λ t. byte_at t (length bs)) r.splits ∙ byte_at-append bs c.rest),
    )

white-blank : (b : ℕ) → is_white b ≡ false → (is_blank b ≡ false) × ((b == b'\n') ≡ false)
unfolding is_white
white-blank b h = ground arith

-- `Parser::error` on such a source prints, or stops at a string literal that is not closed.
pub parser_error-cases :
    {source : Bytes} (p start : Parser)
    → IsTerminated source
    → Steps source start.lexer
    → (parser_error p start ≡ ok tt) ⊎ (parser_error p start ≡ abort todo)
unfolding parser_error peek_token
parser_error-cases {source} p start z s = elim (Bool-cases p.armed) [
  | inr q ↦ inl (rw q)
  | inl q ↦ elim (Outcome-cases (next_token start.lexer)) [
    | inr (a, e) ↦ inr (rw (q, e, (Steps-abort a s e).0))
    | inl ((t, lx'), e) ↦
        let a = Steps-IsAt s in
        let k = next_token-Stepped start.lexer (IsAt-IsWithin start.lexer a) e in
        let (lt, byte) = terminated-lt t.pos z (Reads-trans a.reads k.skips) in
        let (no_blank, no_feed) = white-blank (peek t.pos.rest) k.begins in
        let x = extract_line-Extracts source t.pos.offset lt (rw byte no_blank) (rw byte no_feed) in
        inl (rw (q, e, a.source_is, x.result))
  ]
]
