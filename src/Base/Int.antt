-- ===== src/Base/Int.antt =====
-- Go's integers. ℤ is the unbounded integer; `int` and `int64` (both 64 bits wide) are values of ℤ
-- whose sums, differences and products wrap around: `◌⊕◌`, `◌⊖◌` and `◌⊗◌`.
use neongrid.Base.{
  ℕ, suc, ◌+◌, ◌-◌, ◌*◌, ◌/◌, ◌%◌, ◌^◌, ◌≤◌, ◌<◌, ◌≡◌, refl, Bool, arith, ltb, leb, ◌==◌,
  if◌then◌else◌,
}

-- `negsuc n` is -(n + 1).
pub data ℤ : Type 0 where
  pos : ℕ → ℤ
  negsuc : ℕ → ℤ

abbrev pub pos_part : ℤ → ℕ
pos_part (pos n) = n
pos_part (negsuc n) = 0

abbrev pub neg_part : ℤ → ℕ
neg_part (pos n) = 0
neg_part (negsuc n) = suc n

-- a - b, as an integer.
abbrev pub sub_ℕ : ℕ → ℕ → ℤ
sub_ℕ a b = if leb b a then pos (a - b) else negsuc (b - a - 1)

abbrev pub minus : ℕ → ℤ
minus n = sub_ℕ 0 n

infixl 65 ◌+ℤ◌ ◌-ℤ◌ ◌⊕◌ ◌⊖◌
infixl 70 ◌*ℤ◌ ◌⊗◌
infix 50 ◌≤ℤ◌ ◌<ℤ◌
unfoldable pub ◌+ℤ◌ : ℤ → ℤ → ℤ
a +ℤ b = sub_ℕ (pos_part a + pos_part b) (neg_part a + neg_part b)

unfoldable pub ◌-ℤ◌ : ℤ → ℤ → ℤ
a -ℤ b = sub_ℕ (pos_part a + neg_part b) (neg_part a + pos_part b)

unfoldable pub ◌*ℤ◌ : ℤ → ℤ → ℤ
a *ℤ b =
    sub_ℕ (pos_part a * pos_part b + neg_part a * neg_part b)
      (pos_part a * neg_part b + neg_part a * pos_part b)

abbrev pub ◌≤ℤ◌ : ℤ → ℤ → Type 0
a ≤ℤ b = pos_part a + neg_part b ≤ pos_part b + neg_part a

abbrev pub ◌<ℤ◌ : ℤ → ℤ → Type 0
a <ℤ b = pos_part a + neg_part b < pos_part b + neg_part a

abbrev pub ltb_ℤ : ℤ → ℤ → Bool
ltb_ℤ a b = ltb (pos_part a + neg_part b) (pos_part b + neg_part a)

abbrev pub leb_ℤ : ℤ → ℤ → Bool
leb_ℤ a b = leb (pos_part a + neg_part b) (pos_part b + neg_part a)

abbrev pub eqb_ℤ : ℤ → ℤ → Bool
eqb_ℤ a b = pos_part a + neg_part b == pos_part b + neg_part a

-- The low 64 bits of an integer, read as a signed number.
residue : ℤ → ℕ
residue (pos n) = n % 2 ^ 64
residue (negsuc n) = 2 ^ 64 - 1 - n % 2 ^ 64

signed : ℕ → ℤ
signed r = if ltb r (2 ^ 63) then pos r else negsuc (2 ^ 64 - 1 - r)

unfoldable pub wrap : ℤ → ℤ
unfolding residue signed
wrap z = signed (residue z)

unfoldable pub ◌⊕◌ : ℤ → ℤ → ℤ
unfolding wrap ◌+ℤ◌
a ⊕ b = wrap (a +ℤ b)

unfoldable pub ◌⊖◌ : ℤ → ℤ → ℤ
unfolding wrap ◌-ℤ◌
a ⊖ b = wrap (a -ℤ b)

unfoldable pub ◌⊗◌ : ℤ → ℤ → ℤ
unfolding wrap ◌*ℤ◌
a ⊗ b = wrap (a *ℤ b)

-- Go's division by a positive number truncates towards zero.
unfoldable pub quot : ℤ → ℕ → ℤ
quot (pos n) d = pos (n / d)
quot (negsuc n) d = minus (suc n / d)

-- Division by any `int64`; Go panics where the divisor is 0, and the result is 0 here. It wraps for
-- the least `int64` over -1.
unfoldable pub divide : ℤ → ℤ → ℤ
unfolding quot wrap ◌+ℤ◌
divide a (pos d) = quot a d
divide a (negsuc d) = wrap (quot (minus (pos_part a) +ℤ pos (neg_part a)) (suc d))

-- The operands and results that an `int64` can hold.
abbrev pub IsInt64 : ℤ → Type 0
IsInt64 z = (pos_part z < 2 ^ 63) × (neg_part z ≤ 2 ^ 63)

pub wrap-IsInt64 : (z : ℤ) → IsInt64 (wrap z)
unfolding wrap
wrap-IsInt64 (pos n) = ground arith
wrap-IsInt64 (negsuc n) = ground arith

-- Where the exact result fits, nothing wraps.
pub wrap_exact : (z : ℤ) → IsInt64 z → wrap z ≡ z
unfolding wrap
wrap_exact (pos n) h = ground arith
wrap_exact (negsuc n) h = ground arith

pub +ℤ_parts :
    (a b : ℤ)
    → pos_part (a +ℤ b) + neg_part a + neg_part b ≡ neg_part (a +ℤ b) + pos_part a + pos_part b
unfolding ◌+ℤ◌
+ℤ_parts a b = ground arith

pub -ℤ_parts :
    (a b : ℤ)
    → pos_part (a -ℤ b) + neg_part a + pos_part b ≡ neg_part (a -ℤ b) + pos_part a + neg_part b
unfolding ◌-ℤ◌
-ℤ_parts a b = ground arith

pub eq_of_parts : (a b : ℤ) → pos_part a + neg_part b ≡ pos_part b + neg_part a → a ≡ b
eq_of_parts a b h = ground arith

pub ruleset int_laws = (arith, +ℤ_parts, -ℤ_parts, eq_of_parts)

pub add-exact : (a b : ℤ) → IsInt64 (a +ℤ b) → a ⊕ b ≡ a +ℤ b
unfolding ◌⊕◌
add-exact a b h = wrap_exact (a +ℤ b) h

pub sub-exact : (a b : ℤ) → IsInt64 (a -ℤ b) → a ⊖ b ≡ a -ℤ b
unfolding ◌⊖◌
sub-exact a b h = wrap_exact (a -ℤ b) h

wraps_over : pos (2 ^ 63 - 1) ⊕ pos 1 ≡ negsuc (2 ^ 63 - 1)
unfolding ◌⊕◌
wraps_over = refl
