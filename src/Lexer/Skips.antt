-- ===== src/Lexer/Skips.antt =====
-- lex.cpp: what a loop `for (; test; next(cursor))` reads.
use mathlib.Core.Path.{subst}
use mathlib.Core.Bool.{false≢true}
use janguage.Base.{
  ℕ, zero, suc, ◌+◌, ◌≤◌, ◌≡◌, refl, sym, ap, ◌∙◌, Bool, true, false, Bytes, [], ◌∷◌, ◌==◌, ==_iff,
  length, Bool-cases, inl, inr, arith,
}
use janguage.Token.{Cursor, peek}
use janguage.Lexer.Scan.{next, while_next}
use janguage.Lexer.Reads.{Reads, Reads-refl, Reads-trans, next-Reads}

-- The bytes from position `i` on satisfy a test of position and byte.
abbrev pub AllFrom : (ℕ → ℕ → Bool) → ℕ → Bytes → Type 0
AllFrom test i [] = Unit
AllFrom test i (b ∷ bs) = (test i b ≡ true) × AllFrom test (i + 1) bs

-- What a loop over a test reads: bytes that satisfy it, up to one that does not.
pub record Skips (test : ℕ → ℕ → Bool) (c c' : Cursor) : Type 0 where
  pub bytes : Bytes
  pub reads : Reads c bytes c'
  pub accepted : AllFrom test c.offset bytes
  pub stopped : test c'.offset (peek c'.rest) ≡ false

pub peek_of_length : (bs : Bytes) → length bs ≤ 0 → peek bs ≡ 0
peek_of_length [] h = refl
peek_of_length (b ∷ bs) h = absurd (omega arith)

ne_nul :
    (test : ℕ → ℕ → Bool) (i b : ℕ)
    → ((i : ℕ) → test i 0 ≡ false)
    → test i b ≡ true
    → (b == 0) ≡ false
ne_nul test i b nul t = elim (Bool-cases (b == 0)) [
  | inl e ↦
      let t' : test i 0 ≡ true = rw ((==_iff b 0).0 e) at t in
      absurd (false≢true (sym (nul i) ∙ t'))
  | inr e ↦ e
]

Skips-next :
    (test : ℕ → ℕ → Bool) (c : Cursor) {c' : Cursor}
    → (peek c.rest == 0) ≡ false
    → test c.offset (peek c.rest) ≡ true
    → Skips test (next c) c'
    → Skips test c c'
Skips-next test c nz t later =
    let r = next-Reads c nz in
    let step : (next c).offset ≡ c.offset + 1 = omega (arith, r.offset_is) in
    record {
      bytes = peek c.rest ∷ later.bytes;
      reads = Reads-trans r later.reads;
      accepted = (t, subst (λ i. AllFrom test i later.bytes) step later.accepted);
      stopped = later.stopped;
    }

-- With a round for each byte that is left, a loop ends by its test.
pub while_next-Skips :
    (test : ℕ → ℕ → Bool) (fuel : ℕ) (c : Cursor)
    → ((i : ℕ) → test i 0 ≡ false)
    → length c.rest ≤ fuel
    → Skips test c (while_next test fuel c)
unfolding while_next
while_next-Skips test zero c nul h = record {
  bytes = [];
  reads = Reads-refl c;
  accepted = tt;
  stopped = rw (peek_of_length c.rest h) (nul c.offset);
}
while_next-Skips test (suc fuel) c nul h = elim (Bool-cases (test c.offset (peek c.rest))) [
  | inl t ↦
      let nz = ne_nul test c.offset (peek c.rest) nul t in
      let shorter : length (next c).rest ≤ fuel =
        omega (arith, h, ap length (next-Reads c nz).splits) in
      rw t (Skips-next test c nz t (while_next-Skips test fuel (next c) nul shorter))
  | inr f ↦ rw f (record { bytes = []; reads = Reads-refl c; accepted = tt; stopped = f })
]
