-- ===== src/Parser/Combine.antt =====
-- parse.cpp: the forms that the parse functions are made of. A parse function that returns the parser
-- it was given, `start`, has the result `none`; one that returns `p` has that parser, and what it
-- wrote to its output.
use janguage.Base.{Bytes, Option, none, some, if◌then◌else◌, Outcome, ok, ◌>>=◌, ◌>>◌}
use janguage.Token.{TokenType, Token}
use janguage.Parser.Tokens.{Parser, parser_error, parse_token, parse_keyword, advance}

abbrev pub Parsed : Type 0 → Type 0
Parsed A = Outcome (Option (A × Parser))

-- `p >>= …`: goes on behind what was parsed, if it moves the parser on.
unfoldable pub moved : {A : Type 0} → Parser → Option (A × Parser) → Option (A × Parser)
moved p none = none
moved p (some (out, parsed)) =
    let (on, p') = advance p parsed in if on then some (out, p') else none

unfoldable pub branch :
    {A B : Type 0}
    → Option (A × Parser)
    → (A → Parser → Parsed B)
    → (Unit {0} → Parsed B)
    → Parsed B
branch none then_do otherwise = otherwise tt
branch (some (out, p)) then_do otherwise = then_do out p

-- `if (p >>= …) { …then… } …otherwise…`
unfoldable pub choose :
    {A B : Type 0} → Parser → Parsed A → (A → Parser → Parsed B) → (Unit {0} → Parsed B) → Parsed B
choose p parsed then_do otherwise = parsed >>= λ r. branch (moved p r) then_do otherwise

-- `if (!(p >>= …)) { return start; } …`
abbrev pub require : {A B : Type 0} → Parser → Parsed A → (A → Parser → Parsed B) → Parsed B
require p parsed then_do = choose p parsed then_do (λ _. ok none)

-- `p.error(start, …); return start;`
unfoldable pub fail : {A : Type 0} → Parser → Parser → Parsed A
fail p start = parser_error p start >> ok none

-- `parse_token`, which writes the token if it returns a parser behind it.
unfoldable pub token : Parser → TokenType → Parsed Token
token p type = do
  (out, parsed) ← parse_token p type
  ok (elim out [ none ↦ none | some t ↦ some (t, parsed) ])

-- `parse_keyword`, which returns the parser it was given if the keyword is another.
unfoldable pub keyword : Parser → Bytes → Parsed (Unit {0})
unfolding moved
keyword p word = do parsed ← parse_keyword p word; ok (moved p (some (tt, parsed)))
