-- ===== src/Parser/Escapes.antt =====
-- lex.cpp and parse.cpp 650-686: a string literal stands for the text whose quotes and backslashes it escapes.
use mathlib.Core.Path.{subst}
use janguage.Base.{
  true, ok, append_assoc, codes, ℕ, suc, ◌+◌, ◌-◌, ◌<◌, ◌≡◌, refl, sym, ap, ◌∙◌, false, Bytes, [],
  ◌∷◌, ◌++◌, ◌==◌, length, length-append, if◌then◌else◌, All, Bool-cases, ==_iff, ◌⊎◌, some, inl,
  inr, arith,
}
use janguage.Token.{Token, string_literal}
use janguage.Lexer.Scan.{Lexer}
use janguage.Lexer.Next.{next_token}
use janguage.Lexer.Reads.{Reads-rest}
use janguage.Lexer.Strings.{StringBody}
use janguage.Lexer.Complete.{next_token-string}
use janguage.Ast.{string}
use janguage.StringUtil.{drop}
use janguage.Parser.Literals.{escape_value, cons_byte, unescape, until_nul, string_literal_value}

-- A byte as it is written between quotes.
abbrev pub escape_byte : ℕ → Bytes
escape_byte b = if b == b'"' then codes "\\\"" else if b == b'\\' then codes "\\\\" else b ∷ []

abbrev pub escape : Bytes → Bytes
escape [] = []
escape (b ∷ bs) = escape_byte b ++ escape bs

-- Bytes of a text, as `std::string` takes it from a buffer: none of them is NUL.
abbrev pub NoNul : Bytes → Type 0
NoNul = All (λ b. (b == 0) ≡ false)

until_nul-NoNul : (bs : Bytes) → NoNul bs → until_nul bs ≡ bs
unfolding until_nul
until_nul-NoNul [] a = refl
until_nul-NoNul (b ∷ bs) (h, a) = rw (h, until_nul-NoNul bs a) refl

module _ (n : ℕ) (z : (n == 0) ≡ false) (bs : Bytes) where
  unescape-plain :
      (b c : ℕ)
      → (b == b'\\') ≡ false
      → unescape n (b ∷ c ∷ bs) ≡ cons_byte b (unescape (n - 1) (c ∷ bs))
  unfolding unescape
  unescape-plain b c h = cc (z, h)

  unescape-escaped :
      (c e : ℕ)
      → escape_value c ≡ some e
      → unescape n (b'\\' ∷ c ∷ bs) ≡ cons_byte e (unescape (n - 2) bs)
  unfolding unescape
  unescape-escaped c e h = cc (z, h)

unescape-zero : (bs : Bytes) → unescape 0 bs ≡ some []
unfolding unescape
unescape-zero [] = refl
unescape-zero (b ∷ []) = refl
unescape-zero (b ∷ c ∷ bs) = refl

positive : (n : ℕ) → 0 < n → (n == 0) ≡ false
positive n h = ground arith

-- One byte more, in front of a text that is not empty.
step-plain :
    (b n : ℕ) (t : Bytes)
    → (b == b'\\') ≡ false
    → 0 < length t
    → unescape (suc n) (b ∷ t) ≡ cons_byte b (unescape n t)
step-plain b n [] h l = absurd (omega (arith, l))
step-plain b n (c ∷ t) h l =
    let e : suc n - 1 ≡ n = omega arith in
    unescape-plain (suc n) (positive (suc n) (omega arith)) t b c h
    ∙ ap (λ m. cons_byte b (unescape m (c ∷ t))) e

step-escaped :
    (c e n : ℕ) (t : Bytes)
    → escape_value c ≡ some e
    → unescape (suc (suc n)) (b'\\' ∷ c ∷ t) ≡ cons_byte e (unescape n t)
step-escaped c e n t h =
    let m : suc (suc n) - 2 ≡ n = omega arith in
    unescape-escaped (suc (suc n)) (positive (suc (suc n)) (omega arith)) t c e h
    ∙ ap (λ k. cons_byte e (unescape k t)) m

quote-value : escape_value b'"' ≡ some b'"'
unfolding escape_value
quote-value = refl

backslash-value : escape_value b'\\' ≡ some b'\\'
unfolding escape_value
backslash-value = refl

-- The two ways to write a byte.
escape_byte-cases :
    (b : ℕ)
    → ((escape_byte b ≡ b'\\' ∷ b ∷ []) × (escape_value b ≡ some b))
      ⊎ ((escape_byte b ≡ b ∷ []) × ((b == b'\\') ≡ false))
escape_byte-cases b = elim (Bool-cases (b == b'"')) [
  | inl h ↦
      let e : b ≡ b'"' = (==_iff b b'"').0 h in
      inl (cc e, ap escape_value e ∙ quote-value ∙ ap some (sym e))
  | inr h ↦ elim (Bool-cases (b == b'\\')) [
    | inl k ↦
        let e : b ≡ b'\\' = (==_iff b b'\\').0 k in
        inl (cc e, ap escape_value e ∙ backslash-value ∙ ap some (sym e))
    | inr k ↦ inr (cc (h, k), k)
  ]
]

-- Behind the text stands something, at least the quote.
unescape-escape :
    (bs : Bytes) (q : ℕ) (rest : Bytes)
    → unescape (length (escape bs)) (escape bs ++ q ∷ rest) ≡ some bs
unescape-escape [] q rest = unescape-zero (q ∷ rest)
unescape-escape (b ∷ bs) q rest = elim (escape_byte-cases b) [
  | inl (e, v) ↦ rw e (
      step-escaped b b (length (escape bs)) (escape bs ++ q ∷ rest) v
      ∙ ap (cons_byte b) (unescape-escape bs q rest))
  | inr (e, h) ↦ rw e (
      step-plain b (length (escape bs)) (escape bs ++ q ∷ rest) h
        (omega (arith, length-append (escape bs) (q ∷ rest)))
      ∙ ap (cons_byte b) (unescape-escape bs q rest))
]

-- A token that stands for a text has it as its value.
string_literal_value-text :
    (t : Token) (bs rest : Bytes)
    → NoNul bs
    → t.pos.rest ≡ b'"' ∷ (escape bs ++ b'"' ∷ rest)
    → t.length ≡ length (escape bs) + 2
    → string_literal_value t ≡ some (record { suffix = 0; value = string bs })
unfolding string_literal_value
string_literal_value-text t bs rest a e l =
    let m : t.length - 2 ≡ length (escape bs) = omega (arith, l) in
    let u : unescape (t.length - 2) (drop 1 t.pos.rest) ≡ some bs =
      ap (λ r. unescape (t.length - 2) (drop 1 r)) e
      ∙ ap (λ n. unescape n (escape bs ++ b'"' ∷ rest)) m
      ∙ unescape-escape bs b'"' rest in
    cc (u, until_nul-NoNul bs a)

-- The last byte, if there is one, is no backslash.
abbrev pub EndsPlain : Bytes → Type 0
EndsPlain [] = Unit
EndsPlain (b ∷ []) = (b == b'\\') ≡ false
EndsPlain (b ∷ c ∷ bs) = EndsPlain (c ∷ bs)

EndsPlain-tail : (b : ℕ) (bs : Bytes) → EndsPlain (b ∷ bs) → EndsPlain bs
EndsPlain-tail b [] h = tt
EndsPlain-tail b (c ∷ bs) h = h

-- What is written for a byte does not begin with a quote.
escape-first :
    (b : ℕ) (bs : Bytes)
    → (c : ℕ) × (later : Bytes) × (escape (b ∷ bs) ≡ c ∷ later) × ((c == b'"') ≡ false)
escape-first b bs = elim (Bool-cases (b == b'"')) [
  | inl h ↦ (b'\\', b'"' ∷ escape bs, rw h refl, refl)
  | inr h ↦ elim (Bool-cases (b == b'\\')) [
    | inl k ↦ (b'\\', b'\\' ∷ escape bs, rw (h, k) refl, refl)
    | inr k ↦ (b, escape bs, rw (h, k) refl, h)
  ]
]

behind_backslash :
    (b : ℕ) (bs : Bytes) → StringBody (escape (b ∷ bs)) → StringBody (b'\\' ∷ escape (b ∷ bs))
behind_backslash b bs body =
    let (c, later, e, plain_byte) = escape-first b bs in
    subst (λ s. StringBody (b'\\' ∷ s)) (sym e)
      (StringBody.backslash plain_byte (subst StringBody e body))

escape-StringBody : (bs : Bytes) → NoNul bs → EndsPlain bs → StringBody (escape bs)
escape-StringBody [] a e = StringBody.nil
escape-StringBody (b ∷ bs) (n, a) e =
    let rest = escape-StringBody bs a (EndsPlain-tail b bs e) in
    elim (Bool-cases (b == b'"')) [
      | inl h ↦ rw h (StringBody.quote rest)
      | inr h ↦ elim (Bool-cases (b == b'\\')) [
        | inl k ↦ rw (h, k) (doubled b bs e k rest)
        | inr k ↦ rw (h, k) (StringBody.plain n h k rest)
      ]
    ]
  where
    doubled :
        (b : ℕ) (bs : Bytes)
        → EndsPlain (b ∷ bs)
        → (b == b'\\') ≡ true
        → StringBody (escape bs)
        → StringBody (b'\\' ∷ b'\\' ∷ escape bs)
    doubled b [] e k rest = cc
    doubled b (c ∷ bs) e k rest = StringBody.backslash refl (behind_backslash c bs rest)

-- A string literal token with the text as its value, and the lexer behind it.
pub record ReadsText (lx : Lexer) (bs later : Bytes) : Type 0 where
  pub token : Token
  pub behind : Lexer
  pub result : next_token lx ≡ ok (token, behind)
  pub type_is : token.type ≡ string_literal
  pub value_is : string_literal_value token ≡ some (record { suffix = 0; value = string bs })
  pub left : behind.cursor.rest ≡ later

-- Where a text without NUL bytes that does not end in a backslash stands at the cursor, its quotes and
-- backslashes escaped and quotes around it, `next_token` returns a string literal, whose value is the
-- text, and stands behind the quote.
pub next_token-escape :
    (lx : Lexer) (bs later : Bytes)
    → NoNul bs
    → EndsPlain bs
    → lx.cursor.rest ≡ b'"' ∷ (escape bs ++ b'"' ∷ later)
    → ReadsText lx bs later
next_token-escape lx bs later a ends e =
    let found = next_token-string lx (escape bs) later e (escape-StringBody bs a ends) in
    let size : length (b'"' ∷ (escape bs ++ b'"' ∷ [])) ≡ length (escape bs) + 2 =
      omega (arith, length-append (escape bs) (b'"' ∷ [])) in
    record {
      token = record {
        type = string_literal;
        pos = lx.cursor;
        length = length (b'"' ∷ (escape bs ++ b'"' ∷ []));
      };
      behind = found.behind;
      result = found.result;
      type_is = refl;
      value_is = string_literal_value-text _ bs later a e size;
      left =
          Reads-rest found.reads
            (e ∙ ap (λ s. b'"' ∷ s) (sym (append_assoc (escape bs) (b'"' ∷ []) later)));
    }
