-- ===== src/Lexer/Words.antt =====
-- lex.cpp: `emit`, and the end of `next_token`: identifiers, keywords, the end of the source.
use mathlib.Core.Path.{subst}
use janguage.Base.{
  ℕ, ◌+◌, ◌-◌, ◌<◌, ◌≡◌, refl, Bool, true, false, ◌||◌, Bytes, [], ◌∷◌, ◌==◌, ltb, ◌⊎◌, inl, inr,
  length, take, take-append, Outcome, ok, Bool-cases, arith, if◌then◌else◌,
}
use janguage.Token.{TokenType, identifier, keyword, eof, Token, Cursor, peek}
use janguage.Lexer.Scan.{Lexer, is_ident, next, loop_next}
use janguage.Lexer.Next.{contains, keywords, is_eof, emit, lex_word}
use janguage.Lexer.Reads.{Reads, Reads-trans, next-Reads}
use janguage.Lexer.Skips.{AllFrom, Skips, while_next-Skips}
use janguage.Lexer.Shape.{
  BeginsNone, IsWord, Shape, word, keyword_word, end, bad_byte, Lexed, token,
}

pub emit-ok :
    (lx : Lexer) (start : Cursor) (t : TokenType)
    → (is_eof t || ltb start.offset lx.cursor.offset) ≡ true
    → emit lx start t
      ≡ ok (record { type = t; pos = start; length = lx.cursor.offset - start.offset }, lx)
unfolding emit
emit-ok lx start t h = rw h

-- The assertion of `emit` holds, and the token is the bytes read.
pub emit-Lexed :
    (lx : Lexer) (start : Cursor) (t : TokenType) {source bs : Bytes}
    → Reads start bs lx.cursor
    → lx.source ≡ source
    → Shape bs lx.cursor.rest t
    → (is_eof t || ltb 0 (length bs)) ≡ true
    → Lexed start source (emit lx start t)
emit-Lexed lx start t {bs = bs} r s shape h =
    rw (emit-ok lx start t (ground (arith, r.offset_is, h))) (
      token (record {
        bytes = bs;
        pos_is = refl;
        reads = r;
        length_is = omega (arith, r.offset_is);
        source_is = s;
        shape = shape;
      }))

-- `is_ident` of the position within the word.
AllFrom-IsWord :
    (s i : ℕ) (bs : Bytes)
    → AllFrom (λ o b. is_ident b (o - s)) (s + i) bs
    → AllFrom (λ j b. is_ident b j) i bs
AllFrom-IsWord s i [] h = tt
AllFrom-IsWord s i (b ∷ bs) h =
    let position : s + i - s ≡ i = omega arith in
    let shift : s + i + 1 ≡ s + (i + 1) = omega arith in
    (
      rw position at h.0,
      AllFrom-IsWord s (i + 1) bs (subst (λ j. AllFrom (λ o b. is_ident b (o - s)) j bs) shift h.1),
    )

ident-nul : (i : ℕ) → is_ident 0 i ≡ false
unfolding is_ident
ident-nul i = ground arith

abbrev word_test : Cursor → ℕ → ℕ → Bool
word_test start o b = is_ident b (o - start.offset)

-- The end of `next_token`, behind the loop over a word.
end_of_word : Cursor → Lexer → Outcome (Token × Lexer)
end_of_word start lx =
    if ltb start.offset lx.cursor.offset
    then (let bs = take (lx.cursor.offset - start.offset) start.rest in
        if contains keywords bs then emit lx start keyword else emit lx start identifier)
    else if peek lx.cursor.rest == 0
    then emit lx start eof
    else emit (record lx { cursor = next lx.cursor }) start eof

lex_word-end_of_word :
    (start : Cursor) (lx : Lexer)
    → lex_word start lx ≡ end_of_word start (loop_next (word_test start) lx)
unfolding lex_word end_of_word
lex_word-end_of_word start lx = refl

take_of_Reads :
    {c c' : Cursor} {bs : Bytes} → Reads c bs c' → take (c'.offset - c.offset) c.rest ≡ bs
take_of_Reads {c} {c'} {bs} r =
    let n : c'.offset - c.offset ≡ length bs = omega (arith, r.offset_is) in
    rw (n, r.splits) (take-append bs c'.rest)

module _ (start : Cursor) (lx : Lexer) (s : Skips (word_test start) start lx.cursor) where
  while_next-IsWord : IsWord s.bytes
  while_next-IsWord =
      AllFrom-IsWord start.offset 0 s.bytes
        (subst (λ j. AllFrom (word_test start) j s.bytes) (omega arith) s.accepted)

  word_stops : is_ident (peek lx.cursor.rest) (length s.bytes) ≡ false
  word_stops =
      let n : lx.cursor.offset - start.offset ≡ length s.bytes = omega (arith, s.reads.offset_is) in
      rw n at s.stopped

  end_of_word-some : 0 < length s.bytes → Lexed start lx.source (end_of_word start lx)
  unfolding end_of_word
  end_of_word-some pos =
      let t : ltb start.offset lx.cursor.offset ≡ true = ground (arith, s.reads.offset_is, pos) in
      elim (Bool-cases (contains keywords s.bytes)) [
        | inl k ↦
            rw (t, take_of_Reads s.reads, k)
              (emit-Lexed lx start keyword s.reads refl
                (keyword_word while_next-IsWord pos word_stops k) (ground (arith, pos)))
        | inr k ↦
            rw (t, take_of_Reads s.reads, k)
              (emit-Lexed lx start identifier s.reads refl (word while_next-IsWord pos word_stops k)
                (ground (arith, pos)))
      ]

  end_of_word-none :
      s.bytes ≡ [] → BeginsNone start.rest → Lexed start lx.source (end_of_word start lx)
  unfolding end_of_word
  end_of_word-none e none =
      let r : Reads start [] lx.cursor = subst (λ bs. Reads start bs lx.cursor) e s.reads in
      let t : ltb start.offset lx.cursor.offset ≡ false = ground (arith, r.offset_is) in
      let b = peek lx.cursor.rest in
      elim (Bool-cases (b == 0)) [
        | inl n ↦ rw (t, n) (emit-Lexed lx start eof r refl (end refl n) refl)
        | inr n ↦
            let stop : is_ident b 0 ≡ false =
              subst (λ bs. is_ident b (length {A = ℕ} bs) ≡ false) e word_stops in
            let all = Reads-trans r (next-Reads lx.cursor n) in
            rw (t, n)
              (emit-Lexed (record lx { cursor = next lx.cursor }) start eof all refl
                (bad_byte b refl n stop (subst BeginsNone all.splits none)) refl)
      ]

List-cases : (bs : Bytes) → (bs ≡ []) ⊎ (0 < length bs)
List-cases [] = inl refl
List-cases (b ∷ bs) = inr (omega arith)

pub lex_word-Lexed :
    (lx : Lexer) → BeginsNone lx.cursor.rest → Lexed lx.cursor lx.source (lex_word lx.cursor lx)
lex_word-Lexed lx none =
    let start = lx.cursor in
    let lx' = loop_next (word_test start) lx in
    let s =
      while_next-Skips (word_test start) (length start.rest) start
        (λ i. ident-nul (i - start.offset)) (omega arith) in
    rw (lex_word-end_of_word start lx) (elim (List-cases s.bytes) [
      | inl e ↦ end_of_word-none start lx' s e none
      | inr pos ↦ end_of_word-some start lx' s pos
    ])
