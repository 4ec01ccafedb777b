-- ===== src/Lexer/Traces.antt =====
-- lex.cpp: the tokens of a source, from its start on.
use janguage.Base.{
  ◌≤◌, ◌≡◌, ◌≢◌, refl, sym, ap, ◌∙◌, true, Bytes, List, [], ◌∷◌, ◌++◌, append_assoc, length,
  length-append, All, ok, arith,
}
use janguage.Token.{eof, Token, text}
use janguage.Lexer.Scan.{Lexer, is_white}
use janguage.Lexer.Next.{next_token, lexer_at}
use janguage.Lexer.Steps.{
  Steps, begun, step, Steps-IsAt, IsAt-IsWithin, next_token-Stepped, Steps-advances,
}

-- The tokens that lead from the start of the source to a lexer, the last one first.
pub data Trace (source : Bytes) : List Token → Lexer → Type 0 where
  start : Trace source [] (lexer_at source)
  read :
      {tokens : List Token} {lx lx' : Lexer} {t : Token}
      → Trace source tokens lx
      → next_token lx ≡ ok (t, lx')
      → Trace source (t ∷ tokens) lx'

-- Bytes that the tokens, the last one first, and white space in front of each make up, where each
-- token has the offset at which its text begins, and its text's length.
pub data Woven : List Token → Bytes → Type 0 where
  none : Woven [] []
  more :
      {tokens : List Token} {t : Token} {bs : Bytes} (blank : Bytes)
      → Woven tokens bs
      → All (λ b. is_white b ≡ true) blank
      → t.pos.offset ≡ length (bs ++ blank)
      → t.length ≡ length (text t)
      → Woven (t ∷ tokens) ((bs ++ blank) ++ text t)

Trace-Steps :
    {source : Bytes} {tokens : List Token} {lx : Lexer} → Trace source tokens lx → Steps source lx
Trace-Steps start = begun
Trace-Steps (read earlier e) = step (Trace-Steps earlier) e

-- The source is what the tokens that were read and the white space between them make up, followed by
-- what is left to read, and the cursor's offset is the length of the part that was read.
pub Trace-Woven :
    {source : Bytes} {tokens : List Token} {lx : Lexer}
    → Trace source tokens lx
    → (bs : Bytes) × Woven tokens bs
      × (source ≡ bs ++ lx.cursor.rest)
      × (lx.cursor.offset ≡ length bs)
Trace-Woven start = ([], none, refl, omega arith)
Trace-Woven (read {lx = lx} {lx' = lx'} {t = t} earlier e) =
    let (bs, woven, split, offset) = Trace-Woven earlier in
    let k = next_token-Stepped lx (IsAt-IsWithin lx (Steps-IsAt (Trace-Steps earlier))) e in
    let at : t.pos.offset ≡ length (bs ++ k.blank) =
      omega (arith, k.skips.offset_is, offset, length-append bs k.blank) in
    (
      (bs ++ k.blank) ++ text t,
      more k.blank woven k.blank_is at k.length_is,
      split
          ∙ ap (λ rest. bs ++ rest) k.skips.splits
          ∙ sym (append_assoc bs k.blank t.pos.rest)
          ∙ ap (λ rest. (bs ++ k.blank) ++ rest) k.reads.splits
          ∙ sym (append_assoc (bs ++ k.blank) (text t) lx'.cursor.rest),
      omega (arith, k.reads.offset_is, at, length-append (bs ++ k.blank) (text t)),
    )

-- As long as none of the tokens that were read is the end, there are at most as many of them as
-- there are bytes in front of the cursor, and these are at most as many as the source has.
pub Trace-length :
    {source : Bytes} {tokens : List Token} {lx : Lexer}
    → Trace source tokens lx
    → All (λ t. t.type ≢ eof) tokens
    → (length tokens ≤ lx.cursor.offset) × (lx.cursor.offset ≤ length source)
Trace-length start a = (omega arith, omega arith)
Trace-length (read earlier e) a =
    let (le, _) = Trace-length earlier a.1 in
    let (lt, inside) = Steps-advances (Trace-Steps earlier) e a.0 in (omega (arith, le, lt), inside)
