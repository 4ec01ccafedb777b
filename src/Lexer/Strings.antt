-- ===== src/Lexer/Strings.antt =====
-- lex.cpp: what the loop of a string literal reads.
use janguage.Base.{
  ℕ, zero, suc, ◌<◌, ◌≡◌, ◌≢◌, refl, ap, ◌∙◌, true, false, ◌&&◌, Bytes, [], ◌∷◌, ◌++◌, ◌==◌, ==_iff,
  length, length-append, Bool-cases, inl, inr, arith, Outcome, ok, abort, Abort, todo,
}
use janguage.Token.{Cursor, peek, peek_second}
use janguage.Lexer.Scan.{next, skip_string}
use janguage.Lexer.Reads.{
  Reads, Reads-refl, Reads-trans, Reads-length, Reads-rest, next-Reads, next-Reads_cons,
}

-- The bytes between the quotes of a string literal, as the lexer takes them: a quote stands only
-- behind a backslash, and a backslash that is the last byte would take the closing quote.
pub data StringBody : Bytes → Type 0 where
  nil : StringBody []
  plain :
      {b : ℕ} {bs : Bytes}
      → (b == 0) ≡ false
      → (b == b'"') ≡ false
      → (b == b'\\') ≡ false
      → StringBody bs
      → StringBody (b ∷ bs)
  quote : {bs : Bytes} → StringBody bs → StringBody (b'\\' ∷ b'"' ∷ bs)
  backslash :
      {b : ℕ} {bs : Bytes} → (b == b'"') ≡ false → StringBody (b ∷ bs) → StringBody (b'\\' ∷ b ∷ bs)

-- The four ways in which a round of the loop goes.
module _ (fuel : ℕ) (c : Cursor) where
  string_end : (peek c.rest == b'"') ≡ true → skip_string (suc fuel) c ≡ ok c
  unfolding skip_string
  string_end e = rw (e, skip_string)

  module _ (no_quote : (peek c.rest == b'"') ≡ false) where
    string_nul : (peek c.rest == 0) ≡ true → skip_string (suc fuel) c ≡ abort todo
    unfolding skip_string
    string_nul e = rw (no_quote, e, skip_string)

    module _ (no_nul : (peek c.rest == 0) ≡ false) where
      string_escape :
          (peek c.rest == b'\\' && peek_second c.rest == b'"') ≡ true
          → skip_string (suc fuel) c ≡ skip_string fuel (next (next c))
      unfolding skip_string
      string_escape e = rw (no_quote, no_nul, e, skip_string)

      string_byte :
          (peek c.rest == b'\\' && peek_second c.rest == b'"') ≡ false
          → skip_string (suc fuel) c ≡ skip_string fuel (next c)
      unfolding skip_string
      string_byte e = rw (no_quote, no_nul, e, skip_string)

-- What the loop has done: it stands at the closing quote, or it has met the end of the source.
pub data StringScan (c : Cursor) : Outcome Cursor → Type 0 where
  closed :
      {c' : Cursor} {bs : Bytes}
      → StringBody bs
      → Reads c bs c'
      → (peek c'.rest == b'"') ≡ true
      → StringScan c (ok c')
  unclosed :
      {c' : Cursor} {bs : Bytes}
      → Reads c bs c'
      → (peek c'.rest == 0) ≡ true
      → StringScan c (abort todo)

StringScan-step :
    {c d : Cursor} {o : Outcome Cursor} (bs : Bytes)
    → Reads c bs d
    → ((later rest : Bytes)
        → c.rest ≡ bs ++ (later ++ rest)
        → (peek rest == b'"') ≡ true
        → StringBody later
        → StringBody (bs ++ later))
    → StringScan d o
    → StringScan c o
StringScan-step bs r body (closed {bs = later} b s q) =
    closed (body later _ (r.splits ∙ ap (λ t. bs ++ t) s.splits) q b) (Reads-trans r s) q
StringScan-step bs r body (unclosed s n) = unclosed (Reads-trans r s) n

backslash_byte :
    (later rest : Bytes)
    → (peek (later ++ rest) == b'"') ≡ false
    → (peek rest == b'"') ≡ true
    → StringBody later
    → StringBody (b'\\' ∷ later)
backslash_byte [] rest e close body = cc
backslash_byte (x ∷ xs) rest e close body = backslash e body

StringBody-byte :
    (b : ℕ) (later rest : Bytes)
    → (b == 0) ≡ false
    → (b == b'"') ≡ false
    → (b == b'\\' && peek (later ++ rest) == b'"') ≡ false
    → (peek rest == b'"') ≡ true
    → StringBody later
    → StringBody (b ∷ later)
StringBody-byte b later rest n q e close body = elim (Bool-cases (b == b'\\')) [
  | inl s ↦ rw ((==_iff b b'\\').0 s) (backslash_byte later rest (ground (arith, e, s)) close body)
  | inr p ↦ plain n q p body
]

peek_second-cons : {bs : Bytes} {b : ℕ} {t : Bytes} → bs ≡ b ∷ t → peek_second bs ≡ peek t
peek_second-cons e = ap peek_second e

escape_pair :
    (bs : Bytes)
    → (peek bs == b'\\' && peek_second bs == b'"') ≡ true
    → (t : Bytes) × (bs ≡ b'\\' ∷ b'"' ∷ t)
escape_pair [] h = cc
escape_pair (a ∷ []) h = ground arith
escape_pair (a ∷ b ∷ t) h = (t, ground arith)

next_twice-Reads :
    (c : Cursor)
    → (peek c.rest == b'\\' && peek_second c.rest == b'"') ≡ true
    → Reads c (b'\\' ∷ b'"' ∷ []) (next (next c))
next_twice-Reads c e =
    let (t, s) = escape_pair c.rest e in
    let r = next-Reads_cons c s refl in
    Reads-trans r (next-Reads_cons (next c) (Reads-rest r s) refl)

-- With a round for each byte that is left, and one more, the loop ends by one of its tests.
pub skip_string-StringScan :
    (fuel : ℕ) (c : Cursor) → length c.rest < fuel → StringScan c (skip_string fuel c)
skip_string-StringScan zero c h = elim h [ ]
skip_string-StringScan (suc fuel) c h = elim (Bool-cases (peek c.rest == b'"')) [
  | inl q ↦ rw (string_end fuel c q) (closed nil (Reads-refl c) q)
  | inr q ↦ elim (Bool-cases (peek c.rest == 0)) [
    | inl n ↦ rw (string_nul fuel c q n) (unclosed (Reads-refl c) n)
    | inr n ↦ elim (Bool-cases (peek c.rest == b'\\' && peek_second c.rest == b'"')) [
      | inl e ↦
          let r = next_twice-Reads c e in
          rw (string_escape fuel c q n e) (
            StringScan-step _ r (λ later rest _ _ body. quote body)
              (skip_string-StringScan fuel (next (next c)) (omega (arith, h, Reads-length r))))
      | inr e ↦
          let r = next-Reads c n in
          rw (string_byte fuel c q n e) (
            StringScan-step _ r
              (λ later rest s close body.
                StringBody-byte _ later rest n q (rw (peek_second-cons s) at e) close body)
              (skip_string-StringScan fuel (next c) (omega (arith, h, Reads-length r))))
    ]
  ]
]

-- The loop from `c` on ends behind `bs`.
abbrev Ends : ℕ → Cursor → Bytes → Type 0
Ends fuel c bs = (c' : Cursor) × (skip_string fuel c ≡ ok c') × Reads c bs c'

Ends-step :
    (fuel : ℕ) (c d : Cursor) {bs later : Bytes}
    → skip_string (suc fuel) c ≡ skip_string fuel d
    → Reads c bs d
    → Ends fuel d later
    → Ends (suc fuel) c (bs ++ later)
Ends-step fuel c d e r (c', s, r') = (c', e ∙ s, Reads-trans r r')

-- A string body in front of a quote is read whole.
pub skip_string-StringBody :
    {bs : Bytes} (fuel : ℕ) (c : Cursor) (rest : Bytes)
    → StringBody bs
    → length bs < fuel
    → c.rest ≡ bs ++ (b'"' ∷ rest)
    → Ends fuel c bs
skip_string-StringBody zero c rest body h e = elim h [ ]
skip_string-StringBody (suc fuel) c rest nil h e = (c, string_end fuel c (rw e), Reads-refl c)
skip_string-StringBody (suc fuel) c rest (plain {b} {bs} n q p body) h e =
    let r = next-Reads_cons c e n in
    Ends-step fuel c (next c) (string_byte fuel c (rw e q) (rw e n) (rw (e, p))) r
      (skip_string-StringBody fuel (next c) rest body (omega (arith, h)) (Reads-rest r e))
skip_string-StringBody (suc fuel) c rest (quote {bs} body) h e =
    let r = next_twice-Reads c (rw e) in
    Ends-step fuel c (next (next c)) (string_escape fuel c (rw e) (rw e) (rw e)) r
      (skip_string-StringBody fuel (next (next c)) rest body (omega (arith, h)) (Reads-rest r e))
skip_string-StringBody (suc fuel) c rest (backslash {b} {bs} q body) h e =
    let r = next-Reads_cons c e refl in
    Ends-step fuel c (next c) (string_byte fuel c (rw e) (rw e) (rw e q)) r
      (skip_string-StringBody fuel (next c) rest body (omega (arith, h)) (Reads-rest r e))

-- Where the loop stops the program, no string body with a quote behind it stands.
pub skip_string-unclosed :
    (fuel : ℕ) (c : Cursor) (reason : Abort) (body later : Bytes)
    → length c.rest < fuel
    → skip_string fuel c ≡ abort reason
    → StringBody body
    → c.rest ≢ body ++ (b'"' ∷ later)
skip_string-unclosed fuel c reason body later enough stops ok_body e =
    let fits : length body < fuel =
      omega (arith, enough, ap length e, length-append body (b'"' ∷ later)) in
    let (c', returns, _) = skip_string-StringBody fuel c later ok_body fits e in cc (stops, returns)
