-- ===== src/Lexer/Reads.antt =====
-- What it means that a cursor has moved over given bytes, and that `next` and
-- `consume_sequence` of lex.cpp do so.
use mathlib.Core.Path.{subst}
use janguage.Base.{
  ℕ, suc, ◌+◌, ◌≡◌, refl, sym, ap, ◌∙◌, true, false, Bytes, [], ◌∷◌, ◌++◌, append_assoc, some, ◌==◌,
  ==_iff, if◌then◌else◌, length, length-append, All, arith,
}
use janguage.Token.{Cursor, peek}
use janguage.Lexer.Scan.{Lexer, next_at, next, next_times, matches, consume_sequence}

-- The number of line feeds among the bytes.
abbrev pub newlines : Bytes → ℕ
newlines [] = 0
newlines (b ∷ bs) = if b == b'\n' then suc (newlines bs) else newlines bs

-- The column behind the bytes, from a given column.
abbrev pub column : ℕ → Bytes → ℕ
column n [] = n
column n (b ∷ bs) = column (if b == b'\n' then 0 else n + 1) bs

-- No byte is NUL.
abbrev pub IsText : Bytes → Type 0
IsText = All (λ b. (b == 0) ≡ false)

IsText-append : (xs ys : Bytes) → IsText xs → IsText ys → IsText (xs ++ ys)
IsText-append [] ys a b = b
IsText-append (x ∷ xs) ys a b = (a.0, IsText-append xs ys a.1 b)

-- `c'` stands behind the bytes `bs` that `c` stands at, none of which is NUL.
pub record Reads (c : Cursor) (bs : Bytes) (c' : Cursor) : Type 0 where
  pub splits : c.rest ≡ bs ++ c'.rest
  pub offset_is : c'.offset ≡ c.offset + length bs
  pub line_is : c'.line ≡ c.line + newlines bs
  pub column_is : c'.line_offset ≡ column c.line_offset bs
  pub no_nul : IsText bs

pub newlines-append : (xs ys : Bytes) → newlines (xs ++ ys) ≡ newlines xs + newlines ys
newlines-append [] ys = omega arith
newlines-append (x ∷ xs) ys = ground (arith, newlines-append xs ys)

pub column-append : (n : ℕ) (xs ys : Bytes) → column n (xs ++ ys) ≡ column (column n xs) ys
column-append n [] ys = refl
column-append n (x ∷ xs) ys = column-append (if x == b'\n' then 0 else n + 1) xs ys

pub Reads-refl : (c : Cursor) → Reads c [] c
Reads-refl c = record {
  splits = refl;
  offset_is = omega arith;
  line_is = omega arith;
  column_is = refl;
  no_nul = tt;
}

pub Reads-trans :
    {c d e : Cursor} {xs ys : Bytes} → Reads c xs d → Reads d ys e → Reads c (xs ++ ys) e
Reads-trans {c} {xs = xs} {ys = ys} r s = record {
  splits = r.splits ∙ ap (λ t. xs ++ t) s.splits ∙ sym (append_assoc xs ys _);
  offset_is = omega (arith, r.offset_is, s.offset_is, length-append xs ys);
  line_is = omega (arith, r.line_is, s.line_is, newlines-append xs ys);
  column_is =
      s.column_is ∙ ap (λ n. column n ys) r.column_is ∙ sym (column-append c.line_offset xs ys);
  no_nul = IsText-append xs ys r.no_nul s.no_nul;
}

-- What a read leaves is shorter by the bytes read.
pub Reads-length :
    {c c' : Cursor} {bs : Bytes} → Reads c bs c' → length c.rest ≡ length bs + length c'.rest
Reads-length {c' = c'} {bs = bs} r = ap length r.splits ∙ length-append bs c'.rest

append_cancel : (xs : Bytes) {ys zs : Bytes} → xs ++ ys ≡ xs ++ zs → ys ≡ zs
append_cancel [] e = e
append_cancel (x ∷ xs) e = append_cancel xs (ground arith)

-- The cursor reached stands at what follows the bytes read.
pub Reads-rest :
    {c c' : Cursor} {bs rest : Bytes} → Reads c bs c' → c.rest ≡ bs ++ rest → c'.rest ≡ rest
Reads-rest {bs = bs} r e = append_cancel bs (sym r.splits ∙ e)

next_at-Reads :
    (b : ℕ) (bs : Bytes) (c : Cursor)
    → c.rest ≡ b ∷ bs
    → (b == 0) ≡ false
    → Reads c (b ∷ []) (next_at (b ∷ bs) c)
unfolding next_at
next_at-Reads b bs c e h = ground arith

pub next-Reads_cons :
    {b : ℕ} {bs : Bytes} (c : Cursor)
    → c.rest ≡ b ∷ bs
    → (b == 0) ≡ false
    → Reads c (b ∷ []) (next c)
unfolding next
next-Reads_cons {b} {bs} c e h =
    subst (λ t. Reads c (b ∷ []) (next_at t c)) (sym e) (next_at-Reads b bs c e h)

pub peek-cons : (bs : Bytes) → (peek bs == 0) ≡ false → (t : Bytes) × (bs ≡ peek bs ∷ t)
peek-cons [] h = cc
peek-cons (b ∷ bs) h = (bs, refl)

-- `next` reads one byte, unless the cursor is at a NUL byte or at the end.
pub next-Reads : (c : Cursor) → (peek c.rest == 0) ≡ false → Reads c (peek c.rest ∷ []) (next c)
next-Reads c h = next-Reads_cons c (peek-cons c.rest h).1 h

-- The same where the byte is known.
pub next-Reads_byte :
    (c : Cursor) (k : ℕ) → (peek c.rest == k) ≡ true → (k == 0) ≡ false → Reads c (k ∷ []) (next c)
next-Reads_byte c k e nz =
    let e' = (==_iff (peek c.rest) k).0 e in
    subst (λ b. Reads c (b ∷ []) (next c)) e' (next-Reads c (rw e' nz))

next_at_nul : (bs : Bytes) (c : Cursor) → (peek bs == 0) ≡ true → next_at bs c ≡ c
unfolding next_at
next_at_nul [] c h = refl
next_at_nul (b ∷ bs) c h = rw h

-- At a NUL byte or at the end it stays.
pub next_nul : (c : Cursor) → (peek c.rest == 0) ≡ true → next c ≡ c
unfolding next
next_nul c h = next_at_nul c.rest c h

pub matches_lem : (ps bs : Bytes) → matches ps bs ≡ true → (rest : Bytes) × (bs ≡ ps ++ rest)
unfolding matches
matches_lem [] bs h = (bs, refl)
matches_lem (p ∷ ps) [] h = cc
matches_lem (p ∷ ps) (b ∷ bs) h =
    let (rest, e) = matches_lem ps bs (ground arith) in (rest, ground arith)

pub next_times-Reads :
    (ps rest : Bytes) (c : Cursor)
    → IsText ps
    → c.rest ≡ ps ++ rest
    → Reads c ps (next_times (length ps) c)
unfolding next_times
next_times-Reads [] rest c t e = Reads-refl c
next_times-Reads (p ∷ ps) rest c t e =
    let r = next-Reads_cons c e t.0 in
    let e' : (next c).rest ≡ ps ++ rest = ground (arith, r.splits) in
    Reads-trans r (next_times-Reads ps rest (next c) t.1 e')

pub consume_sequence-eq :
    (lx : Lexer) (prefix : Bytes) {lx' : Lexer}
    → consume_sequence lx prefix ≡ some lx'
    → (matches prefix lx.cursor.rest ≡ true)
      × (lx' ≡ record lx { cursor = next_times (length prefix) lx.cursor })
unfolding consume_sequence
consume_sequence-eq lx prefix h = ground arith

-- A sequence that is consumed stood at the cursor, and is read.
pub consume_sequence-some :
    (lx : Lexer) (prefix : Bytes) {lx' : Lexer}
    → IsText prefix
    → consume_sequence lx prefix ≡ some lx'
    → Reads lx.cursor prefix lx'.cursor × (lx'.source ≡ lx.source)
consume_sequence-some lx prefix t h =
    let (m, e) = consume_sequence-eq lx prefix h in
    let (rest, split) = matches_lem prefix lx.cursor.rest m in
    rw e (next_times-Reads prefix rest lx.cursor t split, refl)

-- The lexer is within its source: the bytes left of the cursor and those from it make it up.
pub record IsWithin (lx : Lexer) : Type 0 where
  pub size_is : length lx.source ≡ lx.cursor.offset + length lx.cursor.rest

pub Reads-IsWithin :
    {lx : Lexer} {bs : Bytes} (lx' : Lexer)
    → IsWithin lx
    → Reads lx.cursor bs lx'.cursor
    → lx'.source ≡ lx.source
    → IsWithin lx'
Reads-IsWithin {lx} {bs} lx' w r e = record {
  size_is = omega (
    arith,
    w.size_is,
    r.offset_is,
    ap length r.splits,
    length-append bs lx'.cursor.rest,
    ap length e,
  );
}

pub matches-append : (ps rest : Bytes) → matches ps (ps ++ rest) ≡ true
unfolding matches
matches-append [] rest = refl
matches-append (p ∷ ps) rest = ground (arith, matches-append ps rest)

-- A sequence that stands at the cursor is consumed.
pub consume_sequence-append :
    (lx : Lexer) (prefix rest : Bytes)
    → IsWithin lx
    → lx.cursor.rest ≡ prefix ++ rest
    → consume_sequence lx prefix
      ≡ some (record lx { cursor = next_times (length prefix) lx.cursor })
unfolding consume_sequence
consume_sequence-append lx prefix rest w e = ground (
  arith,
  w.size_is,
  ap length e,
  length-append prefix rest,
  ap (matches prefix) e,
  matches-append prefix rest,
)
