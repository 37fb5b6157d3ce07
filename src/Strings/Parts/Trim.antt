-- ===== src/Strings/Parts/Trim.antt =====
-- exercises/cookbook/strings.cpp: what trim takes off.
use going_unmanaged.Prelude.{
  ℕ, ◌≡◌, refl, ap, ◌∙◌, inl, inr, [], ◌∷◌, ◌++◌, Bool-cases, true, false, ◌&&◌, if◌then◌else◌,
  Bytes, All,
}
use going_unmanaged.Strings.Parts.{is_empty, is_blank, from_first, up_to_last, trim}

abbrev pub IsBlank : ℕ → Type 0
IsBlank b = is_blank b ≡ true

abbrev pub StartsFull : Bytes → Type 0
StartsFull [] = Unit {0}
StartsFull (b ∷ s) = is_blank b ≡ false

abbrev pub EndsFull : Bytes → Type 0
EndsFull [] = Unit {0}
EndsFull (b ∷ []) = is_blank b ≡ false
EndsFull (b ∷ c ∷ s) = EndsFull (c ∷ s)

from_first_lem :
    (s : Bytes)
    → (front : Bytes) × All IsBlank front × (s ≡ front ++ from_first s) × StartsFull (from_first s)
unfolding from_first
from_first_lem [] = ([], tt, refl, tt)
from_first_lem (b ∷ s) = elim (Bool-cases (is_blank b)) [
  | inl y ↦
      let (front, blank, same, full) = from_first_lem s in
      rw y (b ∷ front, (y, blank), ap (λ t. b ∷ t) same, full)
  | inr n ↦ rw n ([], tt, refl, n)
]

up_to_last_lem :
    (s : Bytes)
    → (back : Bytes) × All IsBlank back × (s ≡ up_to_last s ++ back) × EndsFull (up_to_last s)
unfolding up_to_last
up_to_last_lem [] = ([], tt, refl, tt)
up_to_last_lem (b ∷ s) = go (up_to_last s) (up_to_last_lem s)
  where
    go :
        (rest : Bytes)
        → (back : Bytes) × All IsBlank back × (s ≡ rest ++ back) × EndsFull rest
        → (back : Bytes) × All IsBlank back
          × (b ∷ s ≡ (if is_empty rest && is_blank b then [] else b ∷ rest) ++ back)
          × EndsFull (if is_empty rest && is_blank b then [] else b ∷ rest)
    go (c ∷ rest) (back, blank, same, full) = (back, blank, ap (λ t. b ∷ t) same, full)
    go [] (back, blank, same, full) = elim (Bool-cases (is_blank b)) [
      | inl y ↦ rw y (b ∷ back, (y, blank), ap (λ t. b ∷ t) same, tt)
      | inr n ↦ rw n (back, blank, ap (λ t. b ∷ t) same, n)
    ]

StartsFull-up_to_last : (s : Bytes) → StartsFull s → StartsFull (up_to_last s)
unfolding up_to_last
StartsFull-up_to_last [] h = tt
StartsFull-up_to_last (b ∷ s) h = elim (Bool-cases (is_empty (up_to_last s))) [
  | inl y ↦ rw (up_to_last, y, h) h
  | inr n ↦ rw (up_to_last, n) h
]

-- Whatever the text, it is some blanks, then what trim gives, then some blanks, and what trim gives
-- neither starts nor ends with a blank.
pub trim_lem :
    (s : Bytes)
    → (front back : Bytes) × All IsBlank front
      × All IsBlank back
      × (s ≡ front ++ (trim s ++ back))
      × StartsFull (trim s)
      × EndsFull (trim s)
unfolding trim
trim_lem s =
    let (front, blank, same, full) = from_first_lem s in
    let (back, blank', same', full') = up_to_last_lem (from_first s) in
    (
      front,
      back,
      blank,
      blank',
      same ∙ ap (λ t. front ++ t) same',
      StartsFull-up_to_last (from_first s) full,
      full',
    )
