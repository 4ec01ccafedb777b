-- ===== src/Typecheck/Values.antt =====
-- The builtin types that values have, and the order in which `coerce_types` widens them.
use janguage.Base.{◌≡◌, Bool, true, false, not, ◌&&◌, leb, ltb, ℕ, if◌then◌else◌, pos, arith}
use janguage.Types.{signed_integer, unsigned_integer, floatingpoint, TypeNode, basic}
use janguage.Typecheck.Casts.{boolean_type}

pub data Width : Type 0 where
  one two four eight : Width

abbrev pub bytes : Width → ℕ
bytes one = 1
bytes two = 2
bytes four = 4
bytes eight = 8

pub data Value : Type 0 where
  boolean : Value
  int uint : Width → Value
  single double : Value

abbrev pub type_of : Value → TypeNode
type_of boolean = boolean_type
type_of (int w) = basic signed_integer (pos (bytes w))
type_of (uint w) = basic unsigned_integer (pos (bytes w))
type_of single = basic floatingpoint (pos 4)
type_of double = basic floatingpoint (pos 8)

-- Integers widen to wider integers of the same signedness, and numbers to floating point numbers
-- that are as wide.
abbrev pub widens : Value → Value → Bool
widens boolean boolean = true
widens (int w) (int w') = leb (bytes w) (bytes w')
widens (uint w) (uint w') = leb (bytes w) (bytes w')
widens (int w) single = leb (bytes w) 4
widens (uint w) single = leb (bytes w) 4
widens (int w) double = true
widens (uint w) double = true
widens single single = true
widens single double = true
widens double double = true
widens _ _ = false

-- A boolean on the left of an integer that is wider than a byte.
abbrev pub boolean_before_wide : Value → Value → Bool
boolean_before_wide boolean (int w) = ltb 1 (bytes w)
boolean_before_wide boolean (uint w) = ltb 1 (bytes w)
boolean_before_wide _ _ = false

abbrev pub is_number : Value → Bool
is_number boolean = false
is_number _ = true

-- The wider of two widths.
abbrev wider : Width → Width → Width
wider w w' = if leb (bytes w) (bytes w') then w' else w

abbrev float_of : Width → Value
float_of eight = double
float_of _ = single

-- The least type that two types widen to, if there is one.
abbrev pub join : Value → Value → Value
join (int w) (int w') = int (wider w w')
join (uint w) (uint w') = uint (wider w w')
join (int w) single = float_of w
join (uint w) single = float_of w
join single (int w) = float_of w
join single (uint w) = float_of w
join single single = single
join boolean b = b
join a b = double

-- Integers of different signedness.
abbrev pub is_mixed : Value → Value → Bool
is_mixed (int _) (uint _) = true
is_mixed (uint _) (int _) = true
is_mixed _ _ = false

-- Whether two types have a common type that is no mixture of signedness.
abbrev pub has_join : Value → Value → Bool
has_join a b = not (is_mixed a b) && widens a (join a b) && widens b (join a b)

pub join-least :
    (a b c : Value)
    → is_mixed a b ≡ false
    → widens a c ≡ true
    → widens b c ≡ true
    → (has_join a b ≡ true) × (widens (join a b) c ≡ true)
join-least _ _ _ m h h' = ground arith
