-- ===== src/Lexer/Numbers.antt =====
-- lex.cpp: what the number branch of `next_token` reads.
use janguage.Base.{
  ℕ, zero, suc, ◌+◌, ◌≤◌, ◌<◌, ◌≡◌, refl, ◌∙◌, Bool, true, false, not, ◌&&◌, ◌||◌, Bytes, [], ◌∷◌,
  ◌++◌, ◌==◌, if◌then◌else◌, length, Bool-cases, inl, inr, ◌⊎◌, arith, All, codes,
}
use janguage.Token.{Cursor, peek, peek_second}
use janguage.Lexer.Scan.{next, is_digit, is_hex_digit, skip_digits}
use janguage.Lexer.Next.{skip_number, skip_suffix}
use janguage.Lexer.Reads.{Reads, Reads-refl, Reads-trans, Reads-length, next-Reads, next-Reads_byte}
use janguage.Lexer.Skips.{peek_of_length}

-- The number of decimal points.
abbrev pub points : Bytes → ℕ
points [] = 0
points (b ∷ bs) = if b == b'.' then suc (points bs) else points bs

abbrev pub IsDigits : Bytes → Type 0
IsDigits = All (λ b. (is_hex_digit b || b == b'.') ≡ true)

abbrev pub flag : Bool → ℕ
flag has_point = if has_point then 1 else 0

-- What the loop reads: hexadecimal digits and at most one point, counting the one before it, as
-- far as they go.
pub record Digits (has_point : Bool) (c c' : Cursor) : Type 0 where
  pub bytes : Bytes
  pub reads : Reads c bytes c'
  pub digits : IsDigits bytes
  pub points_le : points bytes + flag has_point ≤ 1
  pub no_digit : is_hex_digit (peek c'.rest) ≡ false
  pub no_point : (peek c'.rest == b'.') ≡ true → points bytes + flag has_point ≡ 1

digit-ne-nul : (b : ℕ) → (is_hex_digit b || b == b'.') ≡ true → (b == 0) ≡ false
unfolding is_hex_digit
digit-ne-nul b h = ground arith

-- The three ways in which a round of the loop goes.
module _ (fuel : ℕ) (has_point : Bool) (c : Cursor) where
  digits_end :
      (is_hex_digit (peek c.rest) || peek c.rest == b'.') ≡ false
      → skip_digits (suc fuel) has_point c ≡ c
  unfolding skip_digits
  digits_end e = rw e

  module _ (accepted : (is_hex_digit (peek c.rest) || peek c.rest == b'.') ≡ true) where
    digits_break :
        (peek c.rest == b'.' && has_point) ≡ true → skip_digits (suc fuel) has_point c ≡ c
    unfolding skip_digits
    digits_break e = rw (accepted, e)

    digits_step :
        (peek c.rest == b'.' && has_point) ≡ false
        → skip_digits (suc fuel) has_point c
          ≡ skip_digits fuel (has_point || peek c.rest == b'.') (next c)
    unfolding skip_digits
    digits_step e = rw (accepted, e)

point-no-digit : (b : ℕ) → (b == b'.') ≡ true → is_hex_digit b ≡ false
unfolding is_hex_digit
point-no-digit b e = ground arith

Digits-stop :
    (has_point : Bool) (c : Cursor)
    → is_hex_digit (peek c.rest) ≡ false
    → ((peek c.rest == b'.') ≡ true → has_point ≡ true)
    → Digits has_point c c
Digits-stop has_point c d p = record {
  bytes = [];
  reads = Reads-refl c;
  digits = tt;
  points_le = ground arith;
  no_digit = d;
  no_point = λ e. ground (arith, p e);
}

points_step :
    (has_point : Bool) (b : ℕ) (bs : Bytes)
    → (b == b'.' && has_point) ≡ false
    → points (b ∷ bs) + flag has_point ≡ points bs + flag (has_point || b == b'.')
points_step has_point b bs e = ground arith

Digits-next :
    (has_point : Bool) (c : Cursor) {c' : Cursor}
    → (is_hex_digit (peek c.rest) || peek c.rest == b'.') ≡ true
    → (peek c.rest == b'.' && has_point) ≡ false
    → Digits (has_point || peek c.rest == b'.') (next c) c'
    → Digits has_point c c'
Digits-next has_point c a e later =
    let b = peek c.rest in
    let p = points_step has_point b later.bytes e in
    record {
      bytes = b ∷ later.bytes;
      reads = Reads-trans (next-Reads c (digit-ne-nul b a)) later.reads;
      digits = (a, later.digits);
      points_le = omega (arith, p, later.points_le);
      no_digit = later.no_digit;
      no_point = λ n. p ∙ later.no_point n;
    }

nul-no-digit : {b : ℕ} → b ≡ 0 → is_hex_digit b ≡ false
unfolding is_hex_digit
nul-no-digit e = rw e

-- With a round for each byte that is left, the loop ends by its test.
pub skip_digits-Digits :
    (fuel : ℕ) (has_point : Bool) (c : Cursor)
    → length c.rest ≤ fuel
    → Digits has_point c (skip_digits fuel has_point c)
skip_digits-Digits zero has_point c h =
    let n = peek_of_length c.rest h in
    unfold skip_digits in Digits-stop has_point c (nul-no-digit n) (λ e. ground (arith, n))
skip_digits-Digits (suc fuel) has_point c h =
    let b = peek c.rest in
    elim (Bool-cases (is_hex_digit b || b == b'.')) [
      | inr e ↦
          rw (digits_end fuel has_point c e)
            (Digits-stop has_point c (ground arith) (λ p. ground arith))
      | inl a ↦ elim (Bool-cases (b == b'.' && has_point)) [
        | inl e ↦
            rw (digits_break fuel has_point c a e)
              (Digits-stop has_point c (point-no-digit b (ground arith)) (λ p. ground arith))
        | inr e ↦
            let shorter = Reads-length (next-Reads c (digit-ne-nul b a)) in
            rw (digits_step fuel has_point c a e) (
              Digits-next has_point c a e (
                skip_digits-Digits fuel (has_point || b == b'.') (next c)
                  (omega (arith, h, shorter))))
      ]
    ]

-- The text of a number literal: a digit or a point, perhaps an `x`, hexadecimal digits with at
-- most one point in all, and perhaps a suffix.
pub record IsNumber (bs : Bytes) : Type 0 where
  pub first : ℕ
  pub prefix : Bytes
  pub digits : Bytes
  pub suffix : Bytes
  pub splits : bs ≡ first ∷ (prefix ++ (digits ++ suffix))
  pub first_is : (is_digit first || first == b'.') ≡ true
  pub prefix_is : (prefix ≡ []) ⊎ (prefix ≡ codes "x")
  pub digits_are : IsDigits digits
  pub points_le : points (first ∷ digits) ≤ 1
  pub suffix_is : (suffix ≡ []) ⊎ ((suffix ≡ codes "u") ⊎ (suffix ≡ codes "f"))

-- The test under which the code reads a number.
abbrev pub begins_number : Bytes → Bool
begins_number s = is_digit (peek s) || (peek s == b'.' && not (peek_second s == b'.'))

pub skip_number-none : (c : Cursor) → begins_number c.rest ≡ false → skip_number c ≡ c
unfolding skip_number
skip_number-none c h = rw h

skip_suffix-Reads :
    (c : Cursor)
    → (bs : Bytes) × Reads c bs (skip_suffix c)
      × ((bs ≡ []) ⊎ ((bs ≡ codes "u") ⊎ (bs ≡ codes "f")))
unfolding skip_suffix
skip_suffix-Reads c = elim (Bool-cases (peek c.rest == b'u')) [
  | inl u ↦ rw u (codes "u", next-Reads_byte c b'u' u refl, inr (inl refl))
  | inr u ↦ elim (Bool-cases (peek c.rest == b'f')) [
    | inl f ↦ rw (u, f) (codes "f", next-Reads_byte c b'f' f refl, inr (inr refl))
    | inr f ↦ rw (u, f) ([], Reads-refl c, inl refl)
  ]
]

-- The cursor behind the optional `x`.
skip_prefix-Reads :
    (c : Cursor)
    → (bs : Bytes) × Reads c bs (if peek c.rest == b'x' then next c else c)
      × ((bs ≡ []) ⊎ (bs ≡ codes "x"))
skip_prefix-Reads c = elim (Bool-cases (peek c.rest == b'x')) [
  | inl x ↦ rw x (codes "x", next-Reads_byte c b'x' x refl, inr refl)
  | inr x ↦ rw x ([], Reads-refl c, inl refl)
]

begins_number-first :
    (s : Bytes)
    → begins_number s ≡ true
    → ((peek s == 0) ≡ false) × ((is_digit (peek s) || peek s == b'.') ≡ true)
unfolding is_digit
begins_number-first s h = ground arith

-- Where a number begins, `skip_number` and `skip_suffix` read its text.
pub skip_number-IsNumber :
    (c : Cursor)
    → begins_number c.rest ≡ true
    → (bs : Bytes) × Reads c bs (skip_suffix (skip_number c))
      × IsNumber bs
      × (c.offset < (skip_number c).offset)
unfolding skip_number
skip_number-IsNumber c h =
    let (nz, first) = begins_number-first c.rest h in
    let point = peek c.rest == b'.' in
    let r = next-Reads c nz in
    let (prefix, rp, is_prefix) = skip_prefix-Reads (next c) in
    let c2 = (if peek (next c).rest == b'x' then next (next c) else next c) in
    let d = skip_digits-Digits (length c2.rest) point c2 (omega arith) in
    let (suffix, rs, is_suffix) = skip_suffix-Reads (skip_digits (length c2.rest) point c2) in
    rw h (
      peek c.rest ∷ (prefix ++ (d.bytes ++ suffix)),
      Reads-trans r (Reads-trans rp (Reads-trans d.reads rs)),
      record {
        first = peek c.rest;
        prefix = prefix;
        digits = d.bytes;
        suffix = suffix;
        splits = refl;
        first_is = first;
        prefix_is = is_prefix;
        digits_are = d.digits;
        points_le = ground (arith, d.points_le);
        suffix_is = is_suffix;
      },
      omega (arith, r.offset_is, rp.offset_is, d.reads.offset_is),
    )
