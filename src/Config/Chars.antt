-- ===== src/Config/Chars.antt =====
-- std::from_chars to an int, as exercises/cookbook/errors.cpp, expected.cpp and flags.cpp call it: the
-- value and what stands behind it, or none where `ec` is set and the target is left alone.
use going_unmanaged.Prelude.{
  ℕ, ◌≡◌, refl, ap, [], ◌∷◌, Option, none, some, Bool-cases, true, false, not, ◌&&◌, if◌then◌else◌,
  ◌==◌, Bytes, inl, inr,
}
use going_unmanaged.Plugin.Int32.{ℤ, pos, neg, fits}
use going_unmanaged.Strings.Parts.{is_empty, matches_digit, all_digits, digits_value}

-- The digits that the text starts with, and what is behind them.
unfoldable pub leading_digits : Bytes → Bytes
leading_digits [] = []
leading_digits (b ∷ s) = let rest = leading_digits s in if matches_digit b then b ∷ rest else []

unfoldable pub behind_digits : Bytes → Bytes
behind_digits [] = []
behind_digits (b ∷ s) = let rest = behind_digits s in if matches_digit b then rest else b ∷ s

-- The number that the digits in front spell, with its sign.
unfoldable pub scan : (ℕ → ℤ) → Bytes → Option (ℤ × Bytes)
unfolding leading_digits behind_digits digits_value fits
scan sign s =
    let value = sign (digits_value 0 (leading_digits s)) in
    if not (is_empty (leading_digits s)) && fits value then some (value, behind_digits s) else none

unfoldable pub from_chars : Bytes → Option (ℤ × Bytes)
unfolding scan
from_chars [] = none
from_chars (b ∷ s) = if b == b'-' then scan neg s else scan pos (b ∷ s)

-- Digits and nothing else.
pub leading_digits-all : (s : Bytes) → all_digits s ≡ true → leading_digits s ≡ s
unfolding leading_digits all_digits
leading_digits-all [] e = refl
leading_digits-all (b ∷ s) e = elim (Bool-cases (matches_digit b)) [
  | inl y ↦ rw y (ap (λ t. b ∷ t) (leading_digits-all s (rw y at e)))
  | inr n ↦ cc (rw n at e)
]

pub behind_digits-all : (s : Bytes) → all_digits s ≡ true → behind_digits s ≡ []
unfolding behind_digits all_digits
behind_digits-all [] e = refl
behind_digits-all (b ∷ s) e = elim (Bool-cases (matches_digit b)) [
  | inl y ↦ rw y (behind_digits-all s (rw y at e))
  | inr n ↦ cc (rw n at e)
]

pub behind_digits-other : (s : Bytes) → all_digits s ≡ false → is_empty (behind_digits s) ≡ false
unfolding behind_digits all_digits
behind_digits-other [] e = cc
behind_digits-other (b ∷ s) e = elim (Bool-cases (matches_digit b)) [
  | inl y ↦ rw y (behind_digits-other s (rw y at e))
  | inr n ↦ rw n refl
]
