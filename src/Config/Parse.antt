-- ===== src/Config/Parse.antt =====
-- How text becomes a value: `strconv.Atoi`, `strconv.ParseBool` and `strings.Split`, as
-- internal/config/config.go uses them.
use Prim.Native.Char.{code}
use text.Mathlib.Text.{◌==◌ as text_eq}
use neongrid.Base.{
  Bool, List, Option, String, [], any, false, if◌then◌else◌, leb, none, some, true, ℕ, ◌&&◌, ◌*◌,
  ◌+◌, ◌-◌, ◌==◌, ◌^◌, ◌∷◌,
}
use neongrid.Base.Int.{leb_ℤ, ltb_ℤ, minus, negsuc, pos, ℤ}
use neongrid.Base.Text.{◌⧺◌}

-- The number that decimal digits write, after the `n` that came before them.
digits : ℕ → String → Option ℕ
digits n String.[] = some n
digits n (String.◌∷◌ c s) =
    let rest = digits (10 * n + (code c - b'0')) s in
    if leb b'0' (code c) && leb (code c) b'9' then rest else none

unfoldable pub numeral : String → Option ℕ
unfolding digits
numeral s = if text_eq s "" then none else digits 0 s

abbrev pub in_range : ℤ → Option ℤ
in_range z = if leb_ℤ (negsuc (2 ^ 63 - 1)) z && ltb_ℤ z (pos (2 ^ 63)) then some z else none

abbrev pub signed_numeral : Bool → String → Option ℤ
signed_numeral minus_sign s = elim (numeral s) [
  | none ↦ none
  | some n ↦ in_range (if minus_sign then minus n else pos n)
]

-- An optional sign and decimal digits, in the range of `int`.
unfoldable pub atoi : String → Option ℤ
unfolding numeral
atoi String.[] = none
atoi (String.◌∷◌ c s) =
    if code c == b'-'
    then signed_numeral true s
    else if code c == b'+'
    then signed_numeral false s
    else signed_numeral false (String.◌∷◌ c s)

abbrev member : String → List String → Bool
member s names = any (λ x. text_eq x s) names

unfoldable pub parse_bool : String → Option Bool
parse_bool s =
    if member s ("1" ∷ "t" ∷ "T" ∷ "true" ∷ "TRUE" ∷ "True" ∷ [])
    then some true
    else if member s ("0" ∷ "f" ∷ "F" ∷ "false" ∷ "FALSE" ∷ "False" ∷ [])
    then some false
    else none

-- The first piece grows by a character.
abbrev onto_head : String → List String → List String
onto_head c [] = c ∷ []
onto_head c (piece ∷ pieces) = (c ⧺ piece) ∷ pieces

-- `strings.Split(s, ",")`
unfoldable pub split_commas : String → List String
split_commas String.[] = "" ∷ []
split_commas (String.◌∷◌ c s) =
    let rest = split_commas s in
    if code c == b',' then "" ∷ rest else onto_head (String.◌∷◌ c String.[]) rest
