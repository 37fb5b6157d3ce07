-- ===== src/Lookups/Places.antt =====
-- exercises/cookbook/lookups.cpp: what is found, and where.
use going_unmanaged.Prelude.{
  ℕ, ◌+◌, ◌≡◌, refl, ap, List, [], ◌∷◌, ◌++◌, Option, none, some, Bool, Bool-cases, true, false,
  length, All, arith, inl, inr,
}
use going_unmanaged.Lookups.{index_of_value}

-- Where the index is `none`, no element is wanted, and else the elements before the index are not wanted and
-- the one there is.
pub data Found {A : Type 0} (is_wanted : A → Bool) (xs : List A) : Option ℕ → Type 0 where
  nowhere : All (λ x. is_wanted x ≡ false) xs → Found is_wanted xs none
  somewhere :
      (front : List A) (x : A) (back : List A) (i : ℕ)
      → xs ≡ front ++ x ∷ back
      → i ≡ length front
      → All (λ y. is_wanted y ≡ false) front
      → is_wanted x ≡ true
      → Found is_wanted xs (some i)

behind :
    {A : Type 0} (is_wanted : A → Bool) (x : A) (xs : List A)
    → is_wanted x ≡ false
    → (r : Option ℕ) → Found is_wanted xs r
    → Found is_wanted (x ∷ xs) (elim r as (λ z. Option ℕ) [ none ↦ none | some i ↦ some (i + 1) ])
behind is_wanted x xs n none (nowhere all) = nowhere (n, all)
behind is_wanted x xs n (some i) (somewhere front y back i' e k all w) =
    somewhere (x ∷ front) y back (i + 1) (ap (λ t. x ∷ t) e) (omega (arith, k)) (n, all) w

-- index_of gives the place of the first wanted element, if there is one.
pub index_of_value-Found :
    {A : Type 0} (is_wanted : A → Bool) (xs : List A)
    → Found is_wanted xs (index_of_value is_wanted xs)
unfolding index_of_value
index_of_value-Found is_wanted [] = nowhere tt
index_of_value-Found is_wanted (x ∷ xs) = elim (Bool-cases (is_wanted x)) [
  | inl y ↦ rw y (somewhere [] x xs 0 refl refl tt y)
  | inr n ↦
      rw n
        (behind is_wanted x xs n (index_of_value is_wanted xs) (index_of_value-Found is_wanted xs))
]
