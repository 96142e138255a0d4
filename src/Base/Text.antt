-- ===== src/Base/Text.antt =====
-- Go's `strings` functions on native texts. Case is that of ASCII: a letter outside it is its own
-- lower case, which is exact for IRC nicks, accounts, channels and commands over ASCII.
use Prim.Native.Char.{Char, code, len_utf8}
use Prim.Native.String
use Prim.Native.String.len as bytes
use Prim.Native.String.{len, slice, char_at, [], ◌∷◌, find}
use text.Mathlib.Text.{◌==◌ as text_eq, starts_with, is_lt}
use neongrid.Base.{
  ℕ, zero, suc, ◌+◌, ◌-◌, ◌/◌, ◌%◌, ◌≡◌, refl, String, Bool, ◌&&◌, ◌||◌, ltb, leb, ◌==◌,
  if◌then◌else◌,
}
use neongrid.Base.Int.{ℤ, pos, negsuc}

infixr 65 ◌⧺◌
abbrev pub ◌⧺◌ : String → String → String
s ⧺ t = String.◌++◌ s t

is_upper : ℕ → Bool
is_upper c = leb b'A' c && leb c b'Z'

lower_char : Char → Char
unfolding is_upper
lower_char c = if is_upper (code c) then char_at "abcdefghijklmnopqrstuvwxyz" (code c - b'A') else c

-- strings.ToLower
unfoldable pub to_lower : String → String
unfolding lower_char
to_lower [] = ""
to_lower (c ∷ s) = lower_char c ∷ to_lower s

-- strings.EqualFold
unfoldable pub equal_fold : String → String → Bool
unfolding to_lower
equal_fold s t = text_eq (to_lower s) (to_lower t)

is_space : Char → Bool
is_space c = code c == b' ' || (leb 9 (code c) && leb (code c) 13)

trim_left : String → String
unfolding is_space
trim_left [] = ""
trim_left (c ∷ s) = let rest = trim_left s in if is_space c then rest else c ∷ s

-- A trailing run of spaces is dropped from the end inwards.
trim_right : String → String
unfolding is_space
trim_right [] = ""
trim_right (c ∷ s) =
    let rest = trim_right s in if text_eq rest "" && is_space c then "" else c ∷ rest

-- strings.TrimSpace
unfoldable pub trim_space : String → String
unfolding trim_left trim_right
trim_space s = trim_right (trim_left s)

-- strings.TrimPrefix
unfoldable pub trim_prefix : String → String → String
trim_prefix s p = if starts_with s p then slice s (len p) (len s) else s

-- strings.Contains
unfoldable pub contains : String → String → Bool
contains s t = leb (find s t) (len s)

-- Go compares strings bytewise, which for UTF-8 is the order of the characters.
abbrev pub text_ltb : String → String → Bool
text_ltb s t = is_lt (String.compare s t)

digit : ℕ → String
digit n = char_at "0123456789" n ∷ ""

-- The decimal digits of a number; `n` rounds are enough for `n`, as each divides it by ten.
decimal : ℕ → ℕ → String → String
decimal zero n acc = digit n ⧺ acc
decimal (suc f) n acc =
    let more = decimal f (n / 10) (digit (n % 10) ⧺ acc) in if ltb n 10 then digit n ⧺ acc else more

-- The verb %d of fmt.
unfoldable pub show : ℤ → String
unfolding decimal digit
show (pos n) = decimal n n ""
show (negsuc n) = "-" ⧺ decimal (suc n) (suc n) ""

pub len-cons : (c : Char) (s : String) → len (c ∷ s) ≡ len_utf8 c + len s
len-cons c s = bytes.cons c s

lowered : to_lower "AcctName" ≡ "acctname"
unfolding to_lower
lowered = refl

trimmed : trim_space "  a b " ≡ "a b"
unfolding trim_space
trimmed = refl

shown : show (negsuc 1204) ≡ "-1205"
unfolding show
shown = refl

stripped : trim_prefix "acct:neo" "acct:" ≡ "neo"
unfolding trim_prefix
stripped = refl
