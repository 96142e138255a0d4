-- ===== src/Game/World/DeadDrop/Noise.antt =====
-- The code of a dead drop, and the noise that hides it.
use Prim.Native.Char.{Char, len_utf8}
use Prim.Native.String.{len}
use neongrid.Base.{
  Bool, Bool-cases, String, ap, arith, false, if◌then◌else◌, inl, inr, not, refl, suc, true,
  true-not, zero, ℕ, ◌&&◌, ◌+◌, ◌<◌, ◌==◌, ◌∙◌, ◌≡◌,
}
use neongrid.Base.Text.{contains, len-cons}
use neongrid.Game.Engine.Action.{Engine}
use neongrid.Game.Engine.Gives.{Returns, Returns-bind, Returns-pure, intn-Returns}
use neongrid.Game.Repository.{ok}
use neongrid.Game.World.DeadDrop.{dead_drop_noise, letter, noise, write_code}

is_noise : Char → Bool
is_noise c = contains dead_drop_noise (String.◌∷◌ c "")

-- What the announcement asks of a runner: "strip the noise".
unfoldable pub strip_noise : String → String
unfolding is_noise
strip_noise String.[] = ""
strip_noise (String.◌∷◌ c s) =
    let rest = strip_noise s in if is_noise c then rest else String.◌∷◌ c rest

-- A test of every number below a bound.
abbrev holds_below : ℕ → (ℕ → Bool) → Bool
holds_below zero test = true
holds_below (suc n) test = test n && holds_below n test

at_each : (n : ℕ) (test : ℕ → Bool) → holds_below n test ≡ true → (i : ℕ) → i < n → test i ≡ true
at_each zero test h i below = absurd (omega arith)
at_each (suc n) test h i below = elim (Bool-cases (i == n)) [
  | inl last ↦
      let same : i ≡ n = ground (arith, last) in
      let first : test n ≡ true = ground (arith, h) in ap test same ∙ first
  | inr other ↦ at_each n test (ground (arith, h)) i (ground (arith, other, below))
]

letter_stays : (i : ℕ) → i < 21 → is_noise (letter i) ≡ false
unfolding is_noise contains
letter_stays i h = true-not _ (at_each 21 (λ k. not (is_noise (letter k))) refl i h)

noise_goes : (j : ℕ) → j < 8 → is_noise (noise j) ≡ true
unfolding is_noise contains
noise_goes j h = at_each 8 (λ k. is_noise (noise k)) refl j h

-- The code has as many letters, and without its noise the garbled text is the code.
abbrev pub Hidden : ℕ → String × String → Type 0
Hidden n (word, garbled) = (len word ≡ n) × (strip_noise garbled ≡ word) × (strip_noise word ≡ word)

-- A letter is one byte, as is a character of the noise.
letter_size : (i : ℕ) → i < 21 → len_utf8 (letter i) ≡ 1
letter_size i h =
    let small = at_each 21 (λ k. len_utf8 (letter k) == 1) refl i h in ground (arith, small)

strip-letter :
    (c : Char) (s : String)
    → is_noise c ≡ false
    → strip_noise (String.◌∷◌ c s) ≡ String.◌∷◌ c (strip_noise s)
unfolding strip_noise
strip-letter c s plain = rw plain refl

strip-noise :
    (c : Char) (s : String) → is_noise c ≡ true → strip_noise (String.◌∷◌ c s) ≡ strip_noise s
unfolding strip_noise
strip-noise c s noisy = rw noisy refl

one_letter :
    (c : Char) → is_noise c ≡ false → len_utf8 c ≡ 1 → Hidden 1 (String.◌∷◌ c "", String.◌∷◌ c "")
unfolding strip_noise
one_letter c h size =
    (len-cons c "" ∙ ap (λ n. n + 0) size, strip-letter c "" h, strip-letter c "" h)

more_letters :
    (c d : Char) (n : ℕ) (word garbled : String)
    → is_noise c ≡ false
    → len_utf8 c ≡ 1
    → is_noise d ≡ true
    → Hidden n (word, garbled)
    → Hidden (suc n) (String.◌∷◌ c word, String.◌∷◌ c (String.◌∷◌ d garbled))
more_letters c d n word garbled plain one noisy (size, found, clean) = (
  len-cons c word ∙ omega (arith, one, size),
  strip-letter c _ plain ∙ ap (String.◌∷◌ c) (strip-noise d garbled noisy ∙ found),
  strip-letter c word plain ∙ ap (String.◌∷◌ c) clean,
)

module _ {R : Type 0} where
  write_code-Returns : (n : ℕ) → Returns {R = R} (Hidden n) (write_code n)
  unfolding write_code strip_noise
  write_code-Returns zero = Returns-pure _ _ (refl, refl, refl)
  write_code-Returns (suc zero) =
      Returns-bind _ _ _ _ (intn-Returns 20)
        λ i h. Returns-pure _ _ (one_letter (letter i) (letter_stays i h) (letter_size i h))
  write_code-Returns (suc (suc n)) = Returns-bind _ _ _ _ (intn-Returns 20) λ i h.
      Returns-bind _ _ _ _ (intn-Returns 7) λ j k.
        Returns-bind _ _ _ _ (write_code-Returns (suc n)) λ (word, garbled) m. Returns-pure _ _ (
          more_letters (letter i) (noise j) _ word garbled (letter_stays i h) (letter_size i h)
            (noise_goes j k) m)

  -- Whatever the random numbers, the loop that writes a code of `n` letters returns; the code has `n`
  -- bytes, and stripping the noise from the garbled text gives back the code.
  pub write_code_strips :
      (n : ℕ) (e : Engine R)
      → (r : String × String) × ((write_code n e).0 ≡ ok r)
        × (len r.0 ≡ n)
        × (strip_noise r.1 ≡ r.0)
  write_code_strips n e =
      let ((word, garbled), run, (size, found, clean)) = (write_code-Returns n).returns e in
      ((word, garbled), run, size, found)
