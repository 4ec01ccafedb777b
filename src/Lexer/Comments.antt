-- ===== src/Lexer/Comments.antt =====
-- lex.cpp: what the loop of a multi-line comment reads.
use mathlib.Core.Path.{subst}
use janguage.Base.{
  ℕ, zero, suc, ◌<◌, ◌≡◌, refl, ap, ◌∙◌, true, false, Bytes, [], ◌∷◌, ◌++◌, none, some,
  Option-cases, ◌⊎◌, ◌==◌, length, Bool-cases, inl, inr, arith, codes,
}
use janguage.Token.{peek}
use janguage.Lexer.Scan.{Lexer, next, matches, consume_sequence, skip_comment}
use janguage.Lexer.Reads.{
  Reads, Reads-refl, Reads-trans, Reads-length, next-Reads, consume_sequence-some,
  consume_sequence-append, IsWithin, Reads-IsWithin, matches_lem,
}

-- Bytes that close as many comments as the depth says, with the comments that they open, and end
-- where the last one closes.
pub data Closes : ℕ → Bytes → Type 0 where
  done : Closes 0 []
  opening : {d : ℕ} {bs : Bytes} → Closes (suc (suc d)) bs → Closes (suc d) (b'/' ∷ b'*' ∷ bs)
  closing : {d : ℕ} {bs : Bytes} → Closes d bs → Closes (suc d) (b'*' ∷ b'/' ∷ bs)
  other :
      {d b : ℕ} {bs : Bytes}
      → (b == 0) ≡ false
      → matches (codes "/*") (b ∷ bs) ≡ false
      → matches (codes "*/") (b ∷ bs) ≡ false
      → Closes (suc d) bs
      → Closes (suc d) (b ∷ bs)

-- What the loop has read: all comments are closed, or it stopped at the end of the source.
pub record Comment (depth : ℕ) (lx lx' : Lexer) : Type 0 where
  pub bytes : Bytes
  pub reads : Reads lx.cursor bytes lx'.cursor
  pub source_is : lx'.source ≡ lx.source
  pub ends : Closes depth bytes ⊎ ((peek lx'.cursor.rest == 0) ≡ true)

matches_mono : (ps xs ys : Bytes) → matches ps (xs ++ ys) ≡ false → matches ps xs ≡ false
unfolding matches
matches_mono [] xs ys h = h
matches_mono (p ∷ ps) [] ys h = refl
matches_mono (p ∷ ps) (x ∷ xs) ys h = ground (arith, matches_mono ps xs ys)

-- A sequence that is not consumed does not stand at the cursor.
pub consume_sequence-none :
    (lx : Lexer) (prefix : Bytes)
    → IsWithin lx
    → consume_sequence lx prefix ≡ none
    → matches prefix lx.cursor.rest ≡ false
consume_sequence-none lx prefix w h = elim (Bool-cases (matches prefix lx.cursor.rest)) [
  | inl m ↦
      let (rest, e) = matches_lem prefix lx.cursor.rest m in
      cc (h, consume_sequence-append lx prefix rest w e)
  | inr m ↦ m
]

-- Puts what was read in front of what the loop reads next.
Comment-step :
    {depth depth' : ℕ} (lx lx' : Lexer) {lx'' : Lexer} (bs : Bytes)
    → Reads lx.cursor bs lx'.cursor
    → lx'.source ≡ lx.source
    → ((later : Bytes) (rest : Bytes)
        → lx.cursor.rest ≡ bs ++ (later ++ rest)
        → Closes depth' later
        → Closes depth (bs ++ later))
    → Comment depth' lx' lx''
    → Comment depth lx lx''
Comment-step lx lx' bs r e close later = record {
  bytes = bs ++ later.bytes;
  reads = Reads-trans r later.reads;
  source_is = later.source_is ∙ e;
  ends = elim later.ends [
    | inl c ↦ inl (close later.bytes _ (r.splits ∙ ap (λ t. bs ++ t) later.reads.splits) c)
    | inr n ↦ inr n
  ];
}

-- The four ways in which a round of the loop goes.
module _ (fuel depth : ℕ) (lx : Lexer) where
  pub skip_opening :
      {lx' : Lexer}
      → consume_sequence lx (codes "/*") ≡ some lx'
      → skip_comment (suc fuel) (suc depth) lx ≡ skip_comment fuel (suc (suc depth)) lx'
  unfolding skip_comment
  skip_opening e = rw (e, skip_comment)

  module _ (no_opening : consume_sequence lx (codes "/*") ≡ none) where
    pub skip_closing :
        {lx' : Lexer}
        → consume_sequence lx (codes "*/") ≡ some lx'
        → skip_comment (suc fuel) (suc depth) lx ≡ skip_comment fuel depth lx'
    unfolding skip_comment
    skip_closing e = rw (no_opening, e, skip_comment)

    module _ (no_closing : consume_sequence lx (codes "*/") ≡ none) where
      skip_end : (peek lx.cursor.rest == 0) ≡ true → skip_comment (suc fuel) (suc depth) lx ≡ lx
      unfolding skip_comment
      skip_end e = rw (no_opening, no_closing, e, skip_comment)

      pub skip_other :
          (peek lx.cursor.rest == 0) ≡ false
          → skip_comment (suc fuel) (suc depth) lx
            ≡ skip_comment fuel (suc depth) (record lx { cursor = next lx.cursor })
      unfolding skip_comment
      skip_other e = rw (no_opening, no_closing, e, skip_comment)

Closes-other :
    {depth : ℕ} (lx : Lexer)
    → IsWithin lx
    → consume_sequence lx (codes "/*") ≡ none
    → consume_sequence lx (codes "*/") ≡ none
    → (peek lx.cursor.rest == 0) ≡ false
    → (later rest : Bytes) → lx.cursor.rest ≡ peek lx.cursor.rest ∷ (later ++ rest)
    → Closes (suc depth) later
    → Closes (suc depth) (peek lx.cursor.rest ∷ later)
Closes-other lx w o c nz later rest e closes =
    let b = peek lx.cursor.rest in
    let m = λ (ps : Bytes) (h : matches ps lx.cursor.rest ≡ false).
      matches_mono ps (b ∷ later) rest (subst (λ t. matches ps t ≡ false) e h) in
    other nz (m (codes "/*") (consume_sequence-none lx (codes "/*") w o))
      (m (codes "*/") (consume_sequence-none lx (codes "*/") w c)) closes

-- With a round for each byte that is left, and one more, the loop ends by one of its tests.
pub skip_comment-Comment :
    (fuel depth : ℕ) (lx : Lexer)
    → IsWithin lx
    → length lx.cursor.rest < fuel
    → Comment depth lx (skip_comment fuel depth lx)
skip_comment-Comment zero depth lx w h = elim h [ ]
skip_comment-Comment (suc fuel) zero lx w h = record {
  bytes = [];
  reads = unfold skip_comment in Reads-refl lx.cursor;
  source_is = unfold skip_comment in refl;
  ends = inl done;
}
skip_comment-Comment (suc fuel) (suc depth) lx w h =
    elim (Option-cases (consume_sequence lx (codes "/*"))) [
      | inr (lx', e) ↦
          let (r, s) = consume_sequence-some lx (codes "/*") (refl, (refl, tt)) e in
          let w' = Reads-IsWithin lx' w r s in
          rw (skip_opening fuel depth lx e) (
            Comment-step lx lx' (codes "/*") r s (λ later rest _ c. opening c)
              (skip_comment-Comment fuel (suc (suc depth)) lx' w'
                (omega (arith, h, Reads-length r))))
      | inl o ↦ elim (Option-cases (consume_sequence lx (codes "*/"))) [
        | inr (lx', e) ↦
            let (r, s) = consume_sequence-some lx (codes "*/") (refl, (refl, tt)) e in
            let w' = Reads-IsWithin lx' w r s in
            rw (skip_closing fuel depth lx o e) (
              Comment-step lx lx' (codes "*/") r s (λ later rest _ c. closing c)
                (skip_comment-Comment fuel depth lx' w' (omega (arith, h, Reads-length r))))
        | inl c ↦ elim (Bool-cases (peek lx.cursor.rest == 0)) [
          | inl n ↦
              rw (skip_end fuel depth lx o c n) (record {
                bytes = [];
                reads = Reads-refl lx.cursor;
                source_is = refl;
                ends = inr n;
              })
          | inr nz ↦
              let lx' = record lx { cursor = next lx.cursor } in
              let r = next-Reads lx.cursor nz in
              let w' = Reads-IsWithin lx' w r refl in
              rw (skip_other fuel depth lx o c nz) (
                Comment-step lx lx' (peek lx.cursor.rest ∷ []) r refl (Closes-other lx w o c nz)
                  (skip_comment-Comment fuel (suc depth) lx' w' (omega (arith, h, Reads-length r))))
        ]
      ]
    ]
