-- ===== src/Base/Effects.antt =====
-- The outcome of C++ code that may call `std::abort` (basics.h): the macros FATAL, TODO,
-- UNREACHED, a failed `assert`, and the use of a null pointer or of a range of bytes that ends before it starts. `out_of_fuel` has no counterpart in
-- the code: it marks the end of a recursion bound that is never met.
use mathlib.Core.Bool.{Bool, true, false}

pub data Abort : Type 0 where
  fatal todo unreached assertion null_pointer out_of_bounds out_of_fuel : Abort

pub data Outcome {ℓ} (A : Type ℓ) : Type ℓ where
  ok : A → Outcome A
  abort : Abort → Outcome A

module _ {ℓ κ} {A : Type ℓ} {B : Type κ} where
  infixl 5 ◌>>=◌
  -- Runs the rest of the code on the value, unless the program has stopped.
  abbrev pub ◌>>=◌ : Outcome A → (A → Outcome B) → Outcome B
  abort reason >>= rest = abort reason
  ok value >>= rest = rest value

abbrev pub assert : Bool → Outcome (Unit {0})
assert true = ok tt
assert false = abort assertion

infixl 5 ◌>>◌
abbrev pub ◌>>◌ : {B : Type 0} → Outcome (Unit {0}) → Outcome B → Outcome B
first >> rest = first >>= λ _. rest
