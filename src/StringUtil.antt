-- ===== src/StringUtil.antt =====
-- string_util.cpp: `extract_line`. A pointer into the source is its offset from the first byte.
pub mod Lines
use janguage.Base.{
  ℕ, zero, suc, ◌+◌, ◌-◌, Bool, true, false, not, ◌&&◌, ◌||◌, Bytes, [], ◌∷◌, ltb, ◌==◌,
  if◌then◌else◌, length, take, Outcome, ok, abort, out_of_bounds, ◌>>=◌, ◌>>◌, assert,
}

-- The byte at an offset; behind the source stands a NUL byte.
unfoldable pub byte_at : Bytes → ℕ → ℕ
byte_at [] i = 0
byte_at (b ∷ bs) zero = b
byte_at (b ∷ bs) (suc i) = byte_at bs i

abbrev pub drop : ℕ → Bytes → Bytes
drop zero bs = bs
drop (suc n) [] = []
drop (suc n) (b ∷ bs) = drop n bs

abbrev pub is_blank : ℕ → Bool
is_blank b = b == b' ' || b == b'\t'

-- The four loops of `extract_line`, in their order. The first and the last one count down.
unfoldable pub find_line_start : Bytes → ℕ → ℕ
unfolding byte_at
find_line_start source zero = zero
find_line_start source (suc i) =
    let rest = find_line_start source i in if not (byte_at source i == b'\n') then rest else suc i

unfoldable pub skip_indent : ℕ → Bytes → ℕ → ℕ
unfolding byte_at
skip_indent zero source i = i
skip_indent (suc fuel) source i =
    let b = byte_at source i in
    let rest = skip_indent fuel source (suc i) in
    if not (b == 0) && not (b == b'\n') && is_blank b then rest else i

unfoldable pub find_line_end : ℕ → Bytes → ℕ → ℕ
unfolding byte_at
find_line_end zero source i = i
find_line_end (suc fuel) source i =
    let b = byte_at source (suc i) in
    let rest = find_line_end fuel source (suc i) in
    if not (b == 0) && not (b == b'\n') then rest else i

unfoldable pub trim_line_end : Bytes → ℕ → ℕ
unfolding byte_at
trim_line_end source zero = zero
trim_line_end source (suc i) =
    let rest = trim_line_end source i in if is_blank (byte_at source (suc i)) then rest else suc i

abbrev pub has_newline : Bytes → Bool
has_newline [] = false
has_newline (b ∷ bs) = b == b'\n' || has_newline bs

-- The end of `extract_line`, with its assertions. A view whose end lies in front of its start is
-- out of bounds.
unfoldable pub cut_line : Bytes → ℕ → ℕ → ℕ → Outcome Bytes
cut_line source offset line_start line_end =
    let line = take (suc line_end - line_start) (drop line_start source) in
    assert (ltb offset (length source))
    >> ((if ltb (suc line_end) line_start then abort out_of_bounds else ok tt)
        >> (assert (not (has_newline line)) >> ok line))

unfoldable pub extract_line : Bytes → ℕ → Outcome Bytes
extract_line [] offset = ok []
extract_line (b ∷ bs) offset =
    let source = b ∷ bs in
    cut_line source offset (skip_indent (length source) source (find_line_start source offset))
      (trim_line_end source (find_line_end (length source) source offset))
