-- ===== src/Buffers/Run.antt =====
-- solutions/Buffer.h: programs of Buffer operations, against the same programs on plain values.
use going_unmanaged.Prelude.{
  ℕ, ◌+◌, ◌≡◌, refl, ◌∙◌, subst, List, [], ◌∷◌, Option, none, some, Option-cases, Bool-cases, ◌⊎◌,
  if◌then◌else◌, ltb, ltb→lt, ◌==◌, inl, inr, length, set, get_elem?, replicate,
}
use going_unmanaged.Buffers.{
  State, nothing_made, construct, destroy, copy_construct, swap, copy_assign, move_construct,
  move_assign, at, set_at,
}
use going_unmanaged.Buffers.Values.{Values, put, block_of, Shows, Owners, Rep, nothing-Rep}
use going_unmanaged.Buffers.Exchange.{exchange}
use going_unmanaged.Buffers.Sound.{
  Does, add_value, construct-Does, copy-Does, destroy-Does, swap-Does,
}
use going_unmanaged.Buffers.Assigns.{
  copy_assign-Does, move_construct-Does, move_assign-Does, at-Does, set_at-Does,
}

pub data Op (A : Type 0) : Type 0 where
  constructs : ℕ → Op A
  copies moves destroys : ℕ → Op A
  assigns move_assigns swaps : ℕ → ℕ → Op A
  sets : ℕ → ℕ → A → Op A

unfoldable pub step : {A : Type 0} → A → Op A → State A → Option (State A)
unfolding construct copy_construct move_construct destroy copy_assign move_assign swap set_at
step z (constructs n) s = construct z n s
step z (copies q) s = copy_construct q s
step z (moves q) s = move_construct q s
step z (destroys p) s = destroy p s
step z (assigns p q) s = copy_assign p q s
step z (move_assigns p q) s = move_assign p q s
step z (swaps p q) s = swap p q s
step z (sets p k a) s = set_at p k a s

unfoldable pub run : {A : Type 0} → A → List (Op A) → State A → Option (State A)
unfolding step
run z [] s = some s
run z (op ∷ ops) s = elim (step z op s) [ none ↦ none | some s' ↦ run z ops s' ]

-- The same on values: an object is its list of ints, and a moved-from object has none of them left.
abbrev pub on_value : {A : Type 0} → ℕ → Values A → (List A → Option (Values A)) → Option (Values A)
on_value p v f = elim (v.of p) [ none ↦ none | some xs ↦ f xs ]

unfoldable pub value_step : {A : Type 0} → A → Op A → Values A → Option (Values A)
value_step z (constructs n) v = some (add_value (replicate n z) v)
value_step z (copies q) v = on_value q v (λ ys. some (add_value ys v))
value_step z (moves q) v =
    on_value q v
      (λ ys. some (record (put v.made (some ys) (put q (some []) v)) { made = v.made + 1 }))
value_step z (destroys p) v = on_value p v (λ xs. some (put p none v))
value_step z (assigns p q) v =
    on_value p v
      (λ xs. on_value q v (λ ys. some (record (put p (some ys) v) { made = v.made + 1 })))
value_step z (move_assigns p q) v =
    on_value p v
      (λ xs. on_value q v (λ ys. some (if p == q then v else put p (some ys) (put q (some []) v))))
value_step z (swaps p q) v = on_value p v (λ xs. on_value q v (λ ys. some (exchange p q v)))
value_step z (sets p k a) v =
    on_value p v (λ xs. if ltb k (length xs) then some (put p (some (set xs k a)) v) else none)

unfoldable pub value_run : {A : Type 0} → A → List (Op A) → Values A → Option (Values A)
unfolding value_step
value_run z [] v = some v
value_run z (op ∷ ops) v = elim (value_step z op v) [ none ↦ none | some v' ↦ value_run z ops v' ]

unfoldable pub value_at : {A : Type 0} → ℕ → ℕ → Values A → Option A
value_at p k v = elim (v.of p) [ none ↦ none | some xs ↦ get_elem? xs k ]

abbrev pub no_values : {A : Type 0} → Values A
no_values = record { of = λ p. none; made = 0 }

module _ {A : Type 0} (z : A) where
  on_value-some :
      (p : ℕ) (v w : Values A) (f : List A → Option (Values A))
      → on_value p v f ≡ some w
      → (xs : List A) × (v.of p ≡ some xs) × (f xs ≡ some w)
  on_value-some p v w f e = elim (Option-cases (v.of p)) [
    | inl n ↦ let bad : none ≡ some w = rw (on_value, n) at e in cc
    | inr (xs, has) ↦ (xs, has, rw (on_value, has) at e)
  ]

  gives : (o : Option (State A)) (v w : Values A) → some v ≡ some w → Does o v → Does o w
  gives o v w e d = let eq : v ≡ w = cc in subst (Does o) eq d

  step-Does :
      (op : Op A) (own : Owners) (s : State A) (v w : Values A)
      → Rep own s v
      → value_step z op v ≡ some w
      → Does (step z op s) w
  unfolding step value_step
  step-Does (constructs n) own s v w i e =
      gives (construct z n s) (add_value (replicate n z) v) w e (construct-Does z n own s v i)
  step-Does (copies q) own s v w i e =
      let (ys, f, r) = on_value-some q v w (λ ys. some (add_value ys v)) e in
      gives (copy_construct q s) (add_value ys v) w r (copy-Does own q ys s v i f)
  step-Does (moves q) own s v w i e =
      let after =
        λ (ys : List A). record (put v.made (some ys) (put q (some []) v)) { made = v.made + 1 } in
      let (ys, f, r) = on_value-some q v w (λ ys. some (after ys)) e in
      gives (move_construct q s) (after ys) w r (move_construct-Does own q ys s v i f)
  step-Does (destroys p) own s v w i e =
      let (xs, f, r) = on_value-some p v w (λ xs. some (put p none v)) e in
      gives (destroy p s) (put p none v) w r (destroy-Does own p xs s v i f)
  step-Does (assigns p q) own s v w i e =
      let after = λ (ys : List A). record (put p (some ys) v) { made = v.made + 1 } in
      let (xs, f, r) = on_value-some p v w (λ xs. on_value q v (λ ys. some (after ys))) e in
      let (ys, g, t) = on_value-some q v w (λ ys. some (after ys)) r in
      gives (copy_assign p q s) (after ys) w t (copy_assign-Does own p q xs ys s v i f g)
  step-Does (move_assigns p q) own s v w i e =
      let after = λ (ys : List A). if p == q then v else put p (some ys) (put q (some []) v) in
      let (xs, f, r) = on_value-some p v w (λ xs. on_value q v (λ ys. some (after ys))) e in
      let (ys, g, t) = on_value-some q v w (λ ys. some (after ys)) r in
      gives (move_assign p q s) (after ys) w t (move_assign-Does own p q xs ys s v i f g)
  step-Does (swaps p q) own s v w i e =
      let (xs, f, r) = on_value-some p v w (λ xs. on_value q v (λ ys. some (exchange p q v))) e in
      let (ys, g, t) = on_value-some q v w (λ ys. some (exchange p q v)) r in
      gives (swap p q s) (exchange p q v) w t (swap-Does own p q xs ys s v i f g)
  step-Does (sets p k a) own s v w i e =
      let after = λ (xs : List A). put p (some (set xs k a)) v in
      let (xs, f, r) =
        on_value-some p v w (λ xs. if ltb k (length xs) then some (after xs) else none) e in
      elim (Bool-cases (ltb k (length xs))) [
        | inl y ↦
            gives (set_at p k a s) (after xs) w (rw y at r)
              (set_at-Does own p k a xs s v i f (ltb→lt k (length xs) y))
        | inr n ↦ let bad : none ≡ some w = rw n at r in cc
      ]

  run-Does :
      (ops : List (Op A)) (own : Owners) (s : State A) (v w : Values A)
      → Rep own s v
      → value_run z ops v ≡ some w
      → Does (run z ops s) w
  unfolding run value_run
  run-Does [] own s v w i e = gives (some s) v w e (s, refl, own, i)
  run-Does (op ∷ ops) own s v w i e = elim (Option-cases (value_step z op v)) [
    | inl n ↦ let bad : none ≡ some w = rw (value_run, n) at e in cc
    | inr (u, eq) ↦
        let (t, f, own', j) = step-Does op own s v u i eq in
        let (r, g, own'', k) = run-Does ops own' t u w j (rw (value_run, eq) at e) in
        (r, rw (run, f) g, own'', k)
  ]

  at-value :
      (own : Owners) (p k : ℕ) (s : State A) (v : Values A)
      → Rep own s v
      → at p k s ≡ value_at p k v
  unfolding at value_at
  at-value own p k s v i = elim (Option-cases (v.of p)) [
    | inr (xs, has) ↦ at-Does own p k xs s v i has ∙ rw (value_at, has) refl
    | inl n ↦ elim (Option-cases (s.objects p)) [
      | inl gone ↦ rw (at, gone) (rw (value_at, n) refl)
      | inr (x, has) ↦ absurd (
          subst (Shows s.blocks (some x)) n
            (subst (λ o. Shows s.blocks o (v.of p)) has (i.shows p)))
    ]
  ]

  owned_or_free :
      (own : Owners) (s : State A) (v : Values A) (b : ℕ)
      → Rep own s v
      → (s.blocks b ≡ none) ⊎ ((p : ℕ) × (block_of (s.objects p) ≡ some b))
  owned_or_free own s v b i = elim (Option-cases (own b)) [
    | inl n ↦ inl (i.no_leak b n)
    | inr (p, has) ↦ inr (p, i.back p b has)
  ]

  -- A program that is defined on values is defined on Buffers: no block is deleted twice or read when it
  -- is gone, each At reads what the value has there, and each block that is left belongs to an object.
  pub value_semantics :
      (ops : List (Op A)) (w : Values A)
      → value_run z ops no_values ≡ some w
      → (s : State A) × (run z ops nothing_made ≡ some s)
        × ((p k : ℕ) → at p k s ≡ value_at p k w)
        × ((b : ℕ) → (s.blocks b ≡ none) ⊎ ((p : ℕ) × (block_of (s.objects p) ≡ some b)))
  value_semantics ops w e =
      let (s, f, own, i) = run-Does ops (λ b. none) nothing_made no_values w nothing-Rep e in
      (s, f, λ p k. at-value own p k s w i, λ b. owned_or_free own s w b i)
