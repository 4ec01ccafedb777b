-- ===== src/StringUtil/Lines.antt =====
-- string_util.cpp: what `extract_line` cuts out of the source.
use janguage.Base.{
  ℕ, zero, suc, ◌+◌, ◌-◌, ◌≤◌, ◌<◌, ◌≡◌, refl, true, false, not, ◌&&◌, Bytes, [], ◌∷◌, ltb, ◌==◌,
  ==_iff, length, take, Outcome, ok, Bool-cases, inl, inr, arith,
}
use janguage.StringUtil.{
  byte_at, drop, is_blank, find_line_start, skip_indent, find_line_end, trim_line_end, has_newline,
  cut_line, extract_line,
}

-- No line feed stands from `a` on and in front of `b`.
abbrev pub OnOneLine : Bytes → ℕ → ℕ → Type 0
OnOneLine source a b = (j : ℕ) → a ≤ j → j < b → (byte_at source j == b'\n') ≡ false

OnOneLine-snoc :
    (source : Bytes) (a i : ℕ)
    → OnOneLine source a i
    → (byte_at source i == b'\n') ≡ false
    → OnOneLine source a (suc i)
OnOneLine-snoc source a i line n j le lt = elim (Bool-cases (j == i)) [
  | inl same ↦ rw ((==_iff j i).0 same) n
  | inr other ↦ line j le (ground (arith, lt, other))
]

OnOneLine-cons :
    (source : Bytes) (a b : ℕ)
    → (byte_at source a == b'\n') ≡ false
    → OnOneLine source (suc a) b
    → OnOneLine source a b
OnOneLine-cons source a b n line j le lt = elim (Bool-cases (j == a)) [
  | inl same ↦ rw ((==_iff j a).0 same) n
  | inr other ↦ line j (ground (arith, le, other)) lt
]

-- A blank byte and one that is not blank stand at different offsets.
blank-ne :
    (source : Bytes) (i offset : ℕ)
    → is_blank (byte_at source i) ≡ true
    → is_blank (byte_at source offset) ≡ false
    → (i == offset) ≡ false
blank-ne source i offset b n = elim (Bool-cases (i == offset)) [
  | inl same ↦ cc (b, n, (==_iff i offset).0 same)
  | inr other ↦ other
]

find_line_start-OnOneLine :
    (source : Bytes) (i : ℕ)
    → (find_line_start source i ≤ i) × OnOneLine source (find_line_start source i) i
unfolding find_line_start
find_line_start-OnOneLine source zero = (omega arith, λ j le lt. absurd (omega arith))
find_line_start-OnOneLine source (suc i) =
    let (le, line) = find_line_start-OnOneLine source i in
    elim (Bool-cases (byte_at source i == b'\n')) [
      | inl e ↦ rw e (omega arith, λ j le' lt. absurd (omega arith))
      | inr e ↦ rw e (omega (arith, le), OnOneLine-snoc source (find_line_start source i) i line e)
    ]

skip_indent-le :
    (fuel : ℕ) (source : Bytes) (i offset : ℕ)
    → i ≤ offset
    → is_blank (byte_at source offset) ≡ false
    → (i ≤ skip_indent fuel source i) × (skip_indent fuel source i ≤ offset)
unfolding skip_indent
skip_indent-le zero source i offset h n = (omega arith, omega (arith, h))
skip_indent-le (suc fuel) source i offset h n =
    let b = byte_at source i in
    elim (Bool-cases (not (b == 0) && not (b == b'\n') && is_blank b)) [
      | inl t ↦
          let ne = blank-ne source i offset (ground (arith, t)) n in
          let (le, le') = skip_indent-le fuel source (suc i) offset (ground (arith, h, ne)) n in
          rw t (omega (arith, le), le')
      | inr f ↦ rw f (omega arith, h)
    ]

byte_at-lt : (source : Bytes) (i : ℕ) → (byte_at source i == 0) ≡ false → i < length source
unfolding byte_at
byte_at-lt [] i h = ground arith
byte_at-lt (b ∷ bs) zero h = omega arith
byte_at-lt (b ∷ bs) (suc i) h = omega (arith, byte_at-lt bs i h)

find_line_end-OnOneLine :
    (fuel : ℕ) (source : Bytes) (i : ℕ)
    → i < length source
    → (i ≤ find_line_end fuel source i)
      × (find_line_end fuel source i < length source)
      × OnOneLine source (suc i) (suc (find_line_end fuel source i))
unfolding find_line_end
find_line_end-OnOneLine zero source i h = (omega arith, h, λ j le lt. absurd (omega arith))
find_line_end-OnOneLine (suc fuel) source i h =
    let b = byte_at source (suc i) in
    elim (Bool-cases (not (b == 0) && not (b == b'\n'))) [
      | inl t ↦
          let (le, lt, line) =
            find_line_end-OnOneLine fuel source (suc i)
              (byte_at-lt source (suc i) (ground (arith, t))) in
          rw t (
            omega (arith, le),
            lt,
            OnOneLine-cons source (suc i) (suc (find_line_end fuel source (suc i)))
                (ground (arith, t)) line,
          )
      | inr f ↦ rw f (omega arith, h, λ j le lt. absurd (omega arith))
    ]

trim_line_end-le :
    (source : Bytes) (i offset : ℕ)
    → offset ≤ i
    → is_blank (byte_at source offset) ≡ false
    → (offset ≤ trim_line_end source i) × (trim_line_end source i ≤ i)
unfolding trim_line_end
trim_line_end-le source zero offset h n = (h, omega arith)
trim_line_end-le source (suc i) offset h n = elim (Bool-cases (is_blank (byte_at source (suc i)))) [
  | inl t ↦
      let ne = blank-ne source (suc i) offset t n in
      let (le, le') = trim_line_end-le source i offset (ground (arith, h, ne)) n in
      rw t (le, omega (arith, le'))
  | inr f ↦ rw f (h, omega arith)
]

has_newline-take :
    (source : Bytes) (a n : ℕ)
    → OnOneLine source a (a + n)
    → has_newline (take n (drop a source)) ≡ false
unfolding byte_at
has_newline-take [] zero zero h = refl
has_newline-take [] zero (suc n) h = refl
has_newline-take [] (suc a) zero h = refl
has_newline-take [] (suc a) (suc n) h = refl
has_newline-take (b ∷ bs) zero zero h = refl
has_newline-take (b ∷ bs) zero (suc n) h =
    rw
      (
        h 0 (omega arith) (omega arith),
        has_newline-take bs zero n (λ j le lt. h (suc j) (omega arith) (omega (arith, lt))),
      )
      refl
has_newline-take (b ∷ bs) (suc a) n h =
    has_newline-take bs a n (λ j le lt. h (suc j) (omega (arith, le)) (omega (arith, lt)))

cut_line-ok :
    (source : Bytes) (offset first last : ℕ)
    → offset < length source
    → first ≤ suc last
    → has_newline (take (suc last - first) (drop first source)) ≡ false
    → cut_line source offset first last ≡ ok (take (suc last - first) (drop first source))
unfolding cut_line
cut_line-ok source offset first last h le feedless =
    let inside : ltb offset (length source) ≡ true = ground (arith, h) in
    let ordered : ltb (suc last) first ≡ false = ground (arith, le) in
    rw (inside, ordered, feedless) refl

-- The bytes from `first` up to and with `last`: they include the one at the
-- offset, and none of them is a line feed.
pub record Extracts (source : Bytes) (offset : ℕ) (o : Outcome Bytes) : Type 0 where
  pub first : ℕ
  pub last : ℕ
  pub first_le : first ≤ offset
  pub last_ge : offset ≤ last
  pub last_lt : last < length source
  pub one_line : OnOneLine source first (suc last)
  pub result : o ≡ ok (take (suc last - first) (drop first source))

-- At an offset within the source where a byte stands that is no blank and no line feed,
-- `extract_line` returns a part of the source that includes this byte and has no line feed; no
-- assertion fails.
pub extract_line-Extracts :
    (source : Bytes) (offset : ℕ)
    → offset < length source
    → is_blank (byte_at source offset) ≡ false
    → (byte_at source offset == b'\n') ≡ false
    → Extracts source offset (extract_line source offset)
unfolding extract_line
extract_line-Extracts [] offset h n nl = absurd (omega (arith, h))
extract_line-Extracts (b ∷ bs) offset h n nl =
    let source = b ∷ bs in
    let (start_le, left) = find_line_start-OnOneLine source offset in
    let (first_ge, first_le) =
      skip_indent-le (length source) source (find_line_start source offset) offset start_le n in
    let (end_ge, end_lt, right) = find_line_end-OnOneLine (length source) source offset h in
    let (last_ge, last_le) =
      trim_line_end-le source (find_line_end (length source) source offset) offset end_ge n in
    let first = skip_indent (length source) source (find_line_start source offset) in
    let last = trim_line_end source (find_line_end (length source) source offset) in
    let line : OnOneLine source first (suc last) = λ j le lt. elim (Bool-cases (ltb j offset)) [
      | inl before ↦ left j (omega (arith, first_ge, le)) (ground (arith, before))
      | inr behind ↦
          OnOneLine-cons source offset (suc (find_line_end (length source) source offset)) nl right
            j (ground (arith, behind)) (omega (arith, lt, last_le))
    ] in
    let feedless : has_newline (take (suc last - first) (drop first source)) ≡ false =
      has_newline-take source first (suc last - first)
        (λ j le lt. line j le (omega (arith, lt, first_le, last_ge))) in
    record {
      first = first;
      last = last;
      first_le = first_le;
      last_ge = last_ge;
      last_lt = omega (arith, last_le, end_lt);
      one_line = line;
      result = cut_line-ok source offset first last h (omega (arith, first_le, last_ge)) feedless;
    }
