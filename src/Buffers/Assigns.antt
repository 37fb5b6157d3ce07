-- ===== src/Buffers/Assigns.antt =====
-- solutions/Buffer.h: the assignments and the move constructor.
use mathlib.Core.Path.{fun_ext}
use going_unmanaged.Prelude.{
  ℕ, zero, suc, ◌+◌, ◌≤◌, ◌<◌, ◌≡◌, refl, ap, ◌∙◌, sym, subst, List, [], ◌∷◌, none, some,
  Option-cases, Bool-cases, true, false, if◌then◌else◌, ltb, lt→ltb, not_ltb→ge, ◌==◌, ==_iff,
  ==_refl, ne→==, inl, inr, arith, length, set, get_elem?,
}
use going_unmanaged.Buffers.{
  State, empty_buffer, write_object, write_block, make, destroy, swap, copy_assign, move_construct,
  move_assign, at, set_at,
}
use going_unmanaged.Buffers.Values.{Values, put, block_of, InBlock, Owners, Rep, idle-Rep}
use going_unmanaged.Buffers.Exchange.{exchange, hand_over, swap-Rep, set-Rep}
use going_unmanaged.Buffers.Sound.{
  Does, add_value, found, alive_lt, copy-Does, drop_block, destroy-Does, swap-Does,
}

-- An exchange with a place that was written before.
exchange_written :
    {B : Type 0} (m q : ℕ) (a z : B) (f g : ℕ → B)
    → (m == q) ≡ false
    → f q ≡ a
    → ((r : ℕ) → g r ≡ (if m == r then z else f r))
    → ◌≡◌ {A = ℕ → B}
        (λ r. if m == r then g q else if q == r then g m else g r)
        (λ r. if m == r then a else if q == r then z else f r)
exchange_written {B} m q a z f g n e h =
    let at_q : g q ≡ a = h q ∙ rw n e in
    let at_m : g m ≡ z = h m ∙ rw (==_refl m) refl in
    fun_ext (λ r. elim (Bool-cases (m == r)) [
      | inl y ↦ rw y at_q
      | inr x ↦ elim (Bool-cases (q == r)) [
        | inl y ↦ rw (x, y) at_m
        | inr w ↦ rw (x, w) (h r ∙ rw x refl)
      ]
    ])

module _ {A : Type 0} where
  get_elem?-past : (xs : List A) (k : ℕ) → length xs ≤ k → get_elem? xs k ≡ none
  get_elem?-past [] k l = refl
  get_elem?-past (x ∷ xs) zero l = absurd (omega arith)
  get_elem?-past (x ∷ xs) (suc k) l = get_elem?-past xs k (omega arith)

  -- What has no object has no value.
  pub no_value :
      (own : Owners) (p : ℕ) (s : State A) (v : Values A)
      → Rep own s v
      → s.objects p ≡ none
      → v.of p ≡ none
  no_value own p s v i e = elim (Option-cases (v.of p)) [
    | inl n ↦ n
    | inr (xs, has) ↦ let (x, at, size, shown) = found own p xs s v i has in cc
  ]

  apart_of_new :
      (own : Owners) (p : ℕ) (xs : List A) (s : State A) (v : Values A)
      → Rep own s v
      → v.of p ≡ some xs
      → p < v.made
  apart_of_new own p xs s v i e =
      let (x, at, size, shown) = found own p xs s v i e in
      let l = alive_lt own p x s v i at in omega (arith, l, i.count)

  copy_assign-values :
      (p : ℕ) (xs : List A) (v : Values A)
      → p < v.made
      → v.of v.made ≡ none
      → put v.made none (exchange p v.made (add_value xs v))
        ≡ record (put p (some xs) v) { made = v.made + 1 }
  copy_assign-values p xs v l n =
      let m = v.made in
      let apart_p : (m == p) ≡ false = ne→== m p (λ e. absurd (omega arith)) in
      ap (λ f. record { of = f; made = m + 1 })
        (fun_ext (λ r. elim (Bool-cases (m == r)) [
          | inl y ↦
              let eq : m ≡ r = (==_iff m r).0 y in
              let other : (p == r) ≡ false = ne→== p r (λ e. absurd (omega arith)) in
              rw (y, other) (sym (ap v.of (sym eq) ∙ n))
          | inr x ↦ elim (Bool-cases (p == r)) [
            | inl y ↦
                let new_value : (add_value xs v).of m ≡ some xs = rw (==_refl m) refl in
                rw (x, y) new_value
            | inr z ↦ rw (x, z) refl
          ]
        ]))

  pub copy_assign-Does :
      (own : Owners) (p q : ℕ) (xs ys : List A) (s : State A) (v : Values A)
      → Rep own s v
      → v.of p ≡ some xs
      → v.of q ≡ some ys
      → Does (copy_assign p q s) (record (put p (some ys) v) { made = v.made + 1 })
  unfolding copy_assign
  copy_assign-Does own p q xs ys s v i e f =
      let m = v.made in
      let l = apart_of_new own p xs s v i e in
      let fresh = no_value own m s v i (i.unmade m (let c = i.count in omega (arith, c))) in
      let (s₁, e₁, own₁, i₁) = copy-Does own q ys s v i f in
      let apart_p : (m == p) ≡ false = ne→== m p (λ e. absurd (omega (arith, l, e))) in
      let apart_m : (p == m) ≡ false = ne→== p m (λ e. absurd (omega (arith, l, e))) in
      let v₁ = add_value ys v in
      let at_p : v₁.of p ≡ some xs = rw apart_p e in
      let at_m : v₁.of m ≡ some ys = rw (==_refl m) refl in
      let (s₂, e₂, own₂, i₂) = swap-Does own₁ p m xs ys s₁ v₁ i₁ at_p at_m in
      let old : (exchange p m v₁).of m ≡ some xs = rw (apart_m, ==_refl m) at_p in
      let (s₃, e₃, own₃, i₃) = destroy-Does own₂ m xs s₂ (exchange p m v₁) i₂ old in
      (
        s₃,
        rw (copy_assign, e₁)
            (rw (ap (λ k. swap p k s₁) i.count ∙ e₂) (ap (λ k. destroy k s₂) i.count ∙ e₃)),
        own₃,
        subst (λ w. Rep own₃ s₃ w) (copy_assign-values p ys v l fresh) i₃,
      )

  pub move_construct-Does :
      (own : Owners) (q : ℕ) (ys : List A) (s : State A) (v : Values A)
      → Rep own s v
      → v.of q ≡ some ys
      → Does
          (move_construct q s)
          (record (put v.made (some ys) (put q (some []) v)) { made = v.made + 1 })
  unfolding move_construct
  move_construct-Does own q ys s v i f =
      let m = s.made in
      let (x, at, size, shown) = found own q ys s v i f in
      let l = alive_lt own q x s v i at in
      let n : (m == q) ≡ false = ne→== m q (λ e. absurd (omega (arith, l, e))) in
      let fresh : block_of (s.objects m) ≡ none = ap block_of (i.unmade m (omega arith)) in
      let s₁ = record (write_object m (some empty_buffer) s) { made = m + 1 } in
      let v₁ = record (put m (some []) v) { made = m + 1 } in
      let one =
        idle-Rep own m (m + 1) (some empty_buffer) (some []) s v i fresh refl (refl, refl)
          (omega arith) (omega arith) in
      let own' : Owners = hand_over m q own in
      let two = swap-Rep own m q s₁ v₁ one (omega arith) (omega (arith, l)) in
      let t = make x (write_object q (some empty_buffer) s) in
      let three =
        subst (λ g. Rep own' (record t { objects = g }) (exchange m q v₁))
          (exchange_written m q (some x) (some empty_buffer) s.objects s₁.objects n at (λ r. refl))
          two in
      let four =
        subst (λ g. Rep own' t (record { of = g; made = m + 1 }))
          (exchange_written m q (some ys) (some []) v.of v₁.of n f (λ r. refl)) three in
      (
        t,
        rw (move_construct, at) refl,
        own',
        subst
            (λ k. Rep own' t (record {
              of = λ r. if k == r then some ys else if q == r then some [] else v.of r;
              made = k + 1;
            }))
            i.count four,
      )

  pub move_assign-Does :
      (own : Owners) (p q : ℕ) (xs ys : List A) (s : State A) (v : Values A)
      → Rep own s v
      → v.of p ≡ some xs
      → v.of q ≡ some ys
      → Does (move_assign p q s) (if p == q then v else put p (some ys) (put q (some []) v))
  unfolding move_assign
  move_assign-Does own p q xs ys s v i e f =
      let (mine, at, size, shown) = found own p xs s v i e in
      let (x, at', size', shown') = found own q ys s v i f in
      elim (Bool-cases (p == q)) [
        | inl y ↦ (s, rw (move_assign, at) (rw at' (rw y refl)), own, rw y i)
        | inr n ↦
            let (t, eq, own₁, j, same_objects, same_made) =
              drop_block own p mine (some empty_buffer) xs (some []) s v i at shown refl
                (λ blocks. (refl, refl)) in
            let s₁ = write_object p (some empty_buffer) t in
            let v₁ = put p (some []) v in
            let lp = alive_lt own p mine s v i at in
            let lq = alive_lt own q x s v i at' in
            let two =
              swap-Rep own₁ p q s₁ v₁ j (omega (arith, lp, same_made))
                (omega (arith, lq, same_made)) in
            let own' : Owners = hand_over p q own₁ in
            let u = write_object p (some x) (write_object q (some empty_buffer) t) in
            let three =
              subst (λ g. Rep own' (record u { objects = g }) (exchange p q v₁))
                (exchange_written p q (some x) (some empty_buffer) t.objects s₁.objects n
                  (ap (λ g. g q) same_objects ∙ at') (λ r. refl))
                two in
            let four =
              subst (λ g. Rep own' u (record v { of = g }))
                (exchange_written p q (some ys) (some []) v.of v₁.of n f (λ r. refl)) three in
            (u, rw (move_assign, at) (rw at' (rw n (rw eq refl))), own', rw n four)
      ]

  in_range :
      (xs : List A) (k : ℕ) → (if ltb k (length xs) then get_elem? xs k else none) ≡ get_elem? xs k
  in_range xs k = elim (Bool-cases (ltb k (length xs))) [
    | inl y ↦ rw y refl
    | inr n ↦ rw n (sym (get_elem?-past xs k (not_ltb→ge k (length xs) n)))
  ]

  pub at-Does :
      (own : Owners) (p k : ℕ) (xs : List A) (s : State A) (v : Values A)
      → Rep own s v
      → v.of p ≡ some xs
      → at p k s ≡ get_elem? xs k
  unfolding at
  at-Does own p k xs s v i e =
      let (x, here_is, size, shown) = found own p xs s v i e in
      elim (Option-cases x.block) [
        | inl n ↦
            let bare : xs ≡ [] = subst (λ o. InBlock s.blocks o xs) n shown in
            rw (at, here_is) (rw (at, n) (ap (λ z. get_elem? z k) (sym bare)))
        | inr (b, has) ↦
            let full : s.blocks b ≡ some xs = subst (λ o. InBlock s.blocks o xs) has shown in
            rw (at, here_is)
              (rw (at, has)
                (rw (at, full)
                  (ap (λ n. if ltb k n then get_elem? xs k else none) size ∙ in_range xs k)))
      ]

  pub set_at-Does :
      (own : Owners) (p k : ℕ) (a : A) (xs : List A) (s : State A) (v : Values A)
      → Rep own s v
      → v.of p ≡ some xs
      → k < length xs
      → Does (set_at p k a s) (put p (some (set xs k a)) v)
  unfolding set_at
  set_at-Does own p k a xs s v i e l =
      let (x, here_is, size, shown) = found own p xs s v i e in
      elim (Option-cases x.block) [
        | inl n ↦
            let bare : xs ≡ [] = subst (λ o. InBlock s.blocks o xs) n shown in
            let short = ap length bare in absurd (omega (arith, l, short))
        | inr (b, has) ↦
            let full : s.blocks b ≡ some xs = subst (λ o. InBlock s.blocks o xs) has shown in
            let inside : ltb k x.size ≡ true = ap (ltb k) size ∙ lt→ltb k (length xs) l in
            (
              write_block b (some (set xs k a)) s,
              rw (set_at, here_is) (rw (set_at, has) (rw (set_at, full) (rw inside refl))),
              own,
              set-Rep own p b k a x xs s v i here_is has e,
            )
      ]
