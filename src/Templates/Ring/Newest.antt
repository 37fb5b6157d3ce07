-- ===== src/Templates/Ring/Newest.antt =====
-- exercises/templatelab/util.h: Ring against the list of what it should remember.
use going_unmanaged.Prelude.{
  ℕ, zero, suc, ◌+◌, ◌-◌, ◌≤◌, ◌<◌, ◌≡◌, refl, ap, ◌∙◌, sym, inl, inr, List, [], ◌∷◌, ◌++◌,
  append_assoc, append-nil, ltb, ge→ltb, ltb→lt, not_ltb→ge, subst, Bool-cases, length,
  length-append, get_elem?, length-drop, drop, arith,
}
use going_unmanaged.Templates.Ring.{empty_ring, push_all, oldest}
use going_unmanaged.Templates.Ring.Holds.{
  remember, remember_all, Holds, empty_ring-Holds, push_all-Holds, oldest-Holds, size-Holds,
}

-- The last n of a list.
abbrev pub newest : {T : Type 0} → ℕ → List T → List T
newest n xs = drop (length xs - n) xs

drop-append :
    {T : Type 0} (k : ℕ) (xs ys : List T) → k ≤ length xs → drop k (xs ++ ys) ≡ drop k xs ++ ys
drop-append zero xs ys l = refl
drop-append (suc k) [] ys l = absurd (omega arith)
drop-append (suc k) (x ∷ xs) ys l = drop-append k xs ys (omega arith)

drop-nil : {T : Type 0} (k : ℕ) → ◌≡◌ {A = List T} (drop k []) []
drop-nil zero = refl
drop-nil (suc k) = refl

drop-drop : {T : Type 0} (k : ℕ) (xs : List T) → drop 1 (drop k xs) ≡ drop (k + 1) xs
drop-drop zero xs = refl
drop-drop (suc k) [] = sym (drop-nil (suc k + 1))
drop-drop (suc k) (x ∷ xs) =
    let further : suc (k + 1) ≡ suc k + 1 = omega arith in
    drop-drop k xs ∙ ap (λ z. drop z (x ∷ xs)) further

remember-newest :
    {T : Type 0} (n : ℕ) (value : T) (xs : List T)
    → 0 < n
    → remember n value (newest n xs) ≡ newest n (xs ++ value ∷ [])
remember-newest n value xs l = elim (Bool-cases (ltb (length xs) n)) [
  | inl y ↦
      let few : length xs - n ≡ 0 = omega (arith, ltb→lt (length xs) n y) in
      let few' : length (xs ++ value ∷ []) - n ≡ 0 =
        omega (arith, ltb→lt (length xs) n y, length-append xs (value ∷ [])) in
      rw (few, y, few') refl
  | inr m ↦
      let k = length xs - n in
      let more : length (drop k xs) ≡ n =
        omega (arith, length-drop k xs, not_ltb→ge (length xs) n m) in
      let next : length (xs ++ value ∷ []) - n ≡ k + 1 =
        omega (arith, not_ltb→ge (length xs) n m, length-append xs (value ∷ [])) in
      rw (ge→ltb (length (drop k xs)) n (omega arith)) (
        ap (λ t. t ++ value ∷ []) (drop-drop k xs)
        ∙ sym (drop-append (k + 1) xs (value ∷ []) (omega (arith, not_ltb→ge (length xs) n m)))
        ∙ ap (λ z. drop z (xs ++ value ∷ [])) (sym next))
]

remember_all-newest :
    {T : Type 0} (n : ℕ) (values xs : List T)
    → 0 < n
    → remember_all n values (newest n xs) ≡ newest n (xs ++ values)
remember_all-newest n [] xs l = ap (newest n) (sym (append-nil xs))
remember_all-newest n (value ∷ values) xs l =
    ap (remember_all n values) (remember-newest n value xs l)
    ∙ remember_all-newest n values (xs ++ value ∷ []) l
    ∙ ap (newest n) (append_assoc xs (value ∷ []) values)

-- After at least one push to a new ring of a size that is not 0, Size is the number of the last n values
-- pushed, and Oldest the first of them.
pub push_all_lem :
    {T : Type 0} (n : ℕ) (value : T) (values : List T)
    → 0 < n
    → 0 < length values
    → ((push_all n values (empty_ring n value)).size ≡ length (newest n values))
      × (oldest n (push_all n values (empty_ring n value)) ≡ get_elem? (newest n values) 0)
push_all_lem n value values l some' =
    let r = push_all n values (empty_ring n value) in
    let kept : Holds n r (newest n values) =
      subst (Holds n r)
        (ap (remember_all n values) (sym (drop-nil (0 - n))) ∙ remember_all-newest n values [] l)
        (push_all-Holds n values [] (empty_ring n value) (empty_ring-Holds n value l)) in
    (
      size-Holds n r (newest n values) kept,
      oldest-Holds n r (newest n values) kept
          (omega (arith, length-drop (length values - n) values)),
    )
