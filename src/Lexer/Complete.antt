-- ===== src/Lexer/Complete.antt =====
-- lex.cpp: a balanced comment and a well formed string literal are each read as one token.
use janguage.Base.{
  ℕ, zero, suc, ◌-◌, ◌<◌, ◌≡◌, refl, ap, ◌∙◌, true, false, Bytes, [], ◌∷◌, ◌++◌, ltb, ◌==◌, codes,
  length, length-append, ok, some, none, arith,
}
use janguage.Token.{TokenType, Cursor, peek, string_literal, multi_line_comment}
use janguage.Lexer.Scan.{
  Lexer, matches, is_white, is_digit, consume_sequence, next, skip_string, skip_comment,
}
use janguage.Lexer.Next.{emit, lex_string, lex_comment, next_token}
use janguage.Lexer.Reads.{
  Reads, Reads-refl, Reads-trans, Reads-rest, Reads-IsWithin, IsWithin, next-Reads_cons,
  consume_sequence-append, consume_sequence-some,
}
use janguage.Lexer.Comments.{Closes, skip_opening, skip_closing, skip_other}
use janguage.Lexer.Strings.{StringBody, skip_string-StringBody}
use janguage.Lexer.Stages.{
  consume_sequence-false, next_token-lex_comment, lex_comment-lex_number, lex_number-lex_string,
}
use janguage.Lexer.Words.{emit-ok}

-- `next_token` returns the token of type `t` that has the text `bs`, and stands behind it.
pub record Finds (lx : Lexer) (t : TokenType) (bs : Bytes) : Type 0 where
  pub behind : Lexer
  pub reads : Reads lx.cursor bs behind.cursor
  pub source_is : behind.source ≡ lx.source
  pub result : next_token lx ≡ ok (record { type = t; pos = lx.cursor; length = length bs }, behind)

lex_string-ok :
    (lx : Lexer) {c : Cursor}
    → (peek lx.cursor.rest == b'"') ≡ true
    → skip_string (suc (length (next lx.cursor).rest)) (next lx.cursor) ≡ ok c
    → lex_string lx.cursor lx ≡ emit (record lx { cursor = next c }) lx.cursor string_literal
unfolding lex_string
lex_string-ok lx q s = rw (q, s)

module _ (lx : Lexer) (body rest : Bytes)
    (at_string : lx.cursor.rest ≡ b'"' ∷ (body ++ b'"' ∷ rest)) where
  next_token-lex_string : next_token lx ≡ lex_string lx.cursor lx
  unfolding is_white is_digit matches
  next_token-lex_string =
      next_token-lex_comment lx (rw at_string)
      ∙ lex_comment-lex_number lx (rw at_string) (rw at_string)
      ∙ lex_number-lex_string lx (rw at_string)

  -- Where a quote, a well formed string body and a quote stand at the cursor, `next_token` reads
  -- them as one string literal.
  pub next_token-string : StringBody body → Finds lx string_literal (b'"' ∷ (body ++ b'"' ∷ []))
  next_token-string ok_body =
      let inside = next lx.cursor in
      let r = next-Reads_cons lx.cursor at_string refl in
      let e = Reads-rest r at_string in
      let enough : length body < suc (length inside.rest) =
        omega (arith, ap length e, length-append body (b'"' ∷ rest)) in
      let (c', s, r') =
        skip_string-StringBody (suc (length inside.rest)) inside rest ok_body enough e in
      let r'' = next-Reads_cons c' (Reads-rest r' e) refl in
      let all = Reads-trans r (Reads-trans r' r'') in
      let lx' = record lx { cursor = next c' } in
      let n : (next c').offset - lx.cursor.offset ≡ length (b'"' ∷ (body ++ b'"' ∷ [])) =
        omega (arith, all.offset_is) in
      let moved : ltb lx.cursor.offset (next c').offset ≡ true = ground (arith, all.offset_is) in
      record {
        behind = lx';
        reads = all;
        source_is = refl;
        result =
            next_token-lex_string
            ∙ lex_string-ok lx (rw at_string) s
            ∙ emit-ok lx' lx.cursor string_literal (ground (arith, moved))
            ∙ rw n;
      }

-- Two bytes of lookahead see the same in front of any two rests.
matches_two :
    (p q b x : ℕ) (xs ys : Bytes)
    → matches (p ∷ q ∷ []) (b ∷ x ∷ xs) ≡ matches (p ∷ q ∷ []) (b ∷ x ∷ ys)
unfolding matches
matches_two p q b x xs ys = refl

Closes-matches :
    {d : ℕ} (p q b : ℕ) (bs rest : Bytes)
    → Closes (suc d) bs
    → matches (p ∷ q ∷ []) (b ∷ bs) ≡ false
    → matches (p ∷ q ∷ []) (b ∷ (bs ++ rest)) ≡ false
unfolding matches
Closes-matches p q b _ rest (Closes.opening c) h = h
Closes-matches p q b _ rest (Closes.closing c) h = h
Closes-matches p q b _ rest (Closes.other n o c l) h = h

-- Reading `bs` and then what closes the rest.
abbrev ReadsAll : Lexer → Bytes → Lexer → Type 0
ReadsAll lx bs lx' = Reads lx.cursor bs lx'.cursor × (lx'.source ≡ lx.source)

ReadsAll-trans :
    (lx lx' lx'' : Lexer) {xs ys : Bytes}
    → ReadsAll lx xs lx'
    → ReadsAll lx' ys lx''
    → ReadsAll lx (xs ++ ys) lx''
ReadsAll-trans lx lx' lx'' (r, e) (s, f) = (Reads-trans r s, f ∙ e)

-- A two byte sequence at the cursor is consumed.
consume_pair :
    (lx : Lexer) (p q : ℕ) {rest : Bytes}
    → IsWithin lx
    → (p == 0) ≡ false
    → (q == 0) ≡ false
    → lx.cursor.rest ≡ p ∷ q ∷ rest
    → (lx' : Lexer) × (consume_sequence lx (p ∷ q ∷ []) ≡ some lx') × ReadsAll lx (p ∷ q ∷ []) lx'
consume_pair lx p q {rest} w np nq e =
    let s = consume_sequence-append lx (p ∷ q ∷ []) rest w e in
    (_, s, consume_sequence-some lx (p ∷ q ∷ []) (np, (nq, tt)) s)

opening-closing : (bs : Bytes) → matches (codes "/*") (b'*' ∷ bs) ≡ false
unfolding matches
opening-closing bs = refl

-- The loop of a comment reads what closes it, and no more.
skip_comment-Closes :
    {bs : Bytes} (fuel depth : ℕ) (lx : Lexer) (rest : Bytes)
    → IsWithin lx
    → Closes depth bs
    → length bs < fuel
    → lx.cursor.rest ≡ bs ++ rest
    → ReadsAll lx bs (skip_comment fuel depth lx)
skip_comment-Closes zero depth lx rest w c h e = elim h [ ]
skip_comment-Closes (suc fuel) zero lx rest w Closes.done h e =
    unfold skip_comment in (Reads-refl lx.cursor, refl)
skip_comment-Closes (suc fuel) (suc depth) lx rest w (Closes.opening c) h e =
    let (lx', s, r) = consume_pair lx b'/' b'*' w refl refl e in
    rw (skip_opening fuel depth lx s) (
      ReadsAll-trans lx lx' (skip_comment fuel (suc (suc depth)) lx') r (
        skip_comment-Closes fuel (suc (suc depth)) lx' rest (Reads-IsWithin lx' w r.0 r.1) c
          (omega (arith, h)) (Reads-rest r.0 e)))
skip_comment-Closes (suc fuel) (suc depth) lx rest w (Closes.closing c) h e =
    let (lx', s, r) = consume_pair lx b'*' b'/' w refl refl e in
    let o = consume_sequence-false lx (codes "/*") (rw e (opening-closing _)) in
    rw (skip_closing fuel depth lx o s) (
      ReadsAll-trans lx lx' (skip_comment fuel depth lx') r (
        skip_comment-Closes fuel depth lx' rest (Reads-IsWithin lx' w r.0 r.1) c (omega (arith, h))
          (Reads-rest r.0 e)))
skip_comment-Closes (suc fuel) (suc depth) lx rest w (Closes.other {b = b} {bs = bs} nz o cl c) h
      e =
    let o' =
      consume_sequence-false lx (codes "/*") (rw e (Closes-matches b'/' b'*' b bs rest c o)) in
    let c' =
      consume_sequence-false lx (codes "*/") (rw e (Closes-matches b'*' b'/' b bs rest c cl)) in
    let lx' = record lx { cursor = next lx.cursor } in
    let r = next-Reads_cons lx.cursor e nz in
    rw (skip_other fuel depth lx o' c' (rw e nz)) (
      ReadsAll-trans lx lx' (skip_comment fuel (suc depth) lx') (r, refl)
        (skip_comment-Closes fuel (suc depth) lx' rest (Reads-IsWithin lx' w r refl) c
          (omega (arith, h)) (Reads-rest r e)))

comment_start : (bs : Bytes) → matches (codes "//") (b'/' ∷ b'*' ∷ bs) ≡ false
unfolding matches
comment_start bs = refl

lex_comment-block :
    (lx lx' : Lexer)
    → consume_sequence lx (codes "//") ≡ none
    → consume_sequence lx (codes "/*") ≡ some lx'
    → lex_comment lx.cursor lx
      ≡ emit (skip_comment (suc (length lx'.cursor.rest)) 1 lx') lx.cursor multi_line_comment
unfolding lex_comment
lex_comment-block lx lx' n s = rw (n, s, lex_comment)

-- Where `/*` and a body stand at the cursor of a lexer within its source, and the body closes the
-- comment and those that it opens and ends there, `next_token` reads them as one multi-line
-- comment.
pub next_token-comment :
    (lx : Lexer) (body rest : Bytes)
    → IsWithin lx
    → Closes 1 body
    → lx.cursor.rest ≡ codes "/*" ++ (body ++ rest)
    → Finds lx multi_line_comment (codes "/*" ++ body)
unfolding is_white
next_token-comment lx body rest w c e =
    let (lx', s, r) = consume_pair lx b'/' b'*' w refl refl e in
    let n = consume_sequence-false lx (codes "//") (rw e (comment_start _)) in
    let e' = Reads-rest r.0 e in
    let fuel = suc (length lx'.cursor.rest) in
    let behind = skip_comment fuel 1 lx' in
    let enough : length body < fuel = omega (arith, ap length e', length-append body rest) in
    let r' = skip_comment-Closes fuel 1 lx' rest (Reads-IsWithin lx' w r.0 r.1) c enough e' in
    let all = ReadsAll-trans lx lx' behind r r' in
    let size : behind.cursor.offset - lx.cursor.offset ≡ length (codes "/*" ++ body) =
      omega (arith, all.0.offset_is) in
    let moved : ltb lx.cursor.offset behind.cursor.offset ≡ true =
      ground (arith, all.0.offset_is) in
    record {
      behind = behind;
      reads = all.0;
      source_is = all.1;
      result =
          next_token-lex_comment lx (rw e)
          ∙ lex_comment-block lx lx' n s
          ∙ emit-ok behind lx.cursor multi_line_comment (ground (arith, moved))
          ∙ rw size;
    }
