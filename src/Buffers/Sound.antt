-- ===== src/Buffers/Sound.antt =====
-- solutions/Buffer.h: each operation, on objects that are alive, does to the values what its name says.
use mathlib.Core.Path.{fun_ext}
use going_unmanaged.Prelude.{
  ℕ, ◌+◌, ◌<◌, ◌≡◌, refl, ap, ◌∙◌, sym, subst, List, [], ◌∷◌, Option, none, some, Option-cases,
  Bool-cases, if◌then◌else◌, ltb, ltb→lt, not_ltb→ge, ◌==◌, ==_refl, inl, inr, arith, length,
  replicate, length-replicate,
}
use going_unmanaged.Buffers.{
  Buffer, State, empty_buffer, write_object, write_block, make, allocate, free, front, read,
  construct, destroy, copy_construct, swap, at,
}
use going_unmanaged.Buffers.Values.{
  Values, put, block_of, InBlock, Shows, Owners, give, Rep, idle-Rep, fill-Rep, free-Rep,
}
use going_unmanaged.Buffers.Exchange.{swapped, exchange, swap-Rep}

-- The operation is defined, and these are the values behind it.
abbrev pub Does : {A : Type 0} → Option (State A) → Values A → Type 0
Does {A} r v = (s : State A) × (r ≡ some s) × (own : Owners) × Rep own s v

-- The values of an operation.
abbrev pub add_value : {A : Type 0} → List A → Values A → Values A
add_value xs v = record (put v.made (some xs) v) { made = v.made + 1 }

-- A function that is written twice at one place.
overwrite :
    {B : Type 0} (p : ℕ) (a b : B) (f : ℕ → B)
    → ◌≡◌ {A = ℕ → B}
        (λ q. if p == q then a else if p == q then b else f q)
        (λ q. if p == q then a else f q)
overwrite p a b f =
    fun_ext (λ q. elim (Bool-cases (p == q)) [ inl y ↦ rw y refl | inr n ↦ rw n refl ])

module _ {A : Type 0} where
  -- An object that has a value.
  pub found :
      (own : Owners) (p : ℕ) (xs : List A) (s : State A) (v : Values A)
      → Rep own s v
      → v.of p ≡ some xs
      → (x : Buffer) × (s.objects p ≡ some x) × (x.size ≡ length xs) × InBlock s.blocks x.block xs
  found own p xs s v i e =
      let shown = subst (Shows s.blocks (s.objects p)) e (i.shows p) in
      elim (Option-cases (s.objects p)) [
        | inl n ↦ absurd (subst (λ o. Shows s.blocks o (some xs)) n shown)
        | inr (x, at) ↦
            let h = subst (λ o. Shows s.blocks o (some xs)) at shown in (x, at, h.0, h.1)
      ]

  pub alive_lt :
      (own : Owners) (p : ℕ) (x : Buffer) (s : State A) (v : Values A)
      → Rep own s v
      → s.objects p ≡ some x
      → p < s.made
  alive_lt own p x s v i e = elim (Bool-cases (ltb p s.made)) [
    | inl y ↦ ltb→lt p s.made y
    | inr n ↦ let gone = i.unmade p (not_ltb→ge p s.made n) in cc
  ]

  pub made-Does :
      (own : Owners) (xs : List A) (s : State A) (v : Values A)
      → Rep own s v
      → Does
          (some (make (record { size = length xs; block = some s.allocated }) (allocate xs s)))
          (add_value xs v)
  made-Does own xs s v i =
      let m = s.made in
      let fresh : block_of (s.objects m) ≡ none = ap block_of (i.unmade m (omega arith)) in
      let one =
        idle-Rep own m (m + 1) (some empty_buffer) (some []) s v i fresh refl (refl, refl)
          (omega arith) (omega arith) in
      let s₁ = record (write_object m (some empty_buffer) s) { made = m + 1 } in
      let v₁ = record (put m (some []) v) { made = m + 1 } in
      let bare : block_of (s₁.objects m) ≡ none = rw (==_refl m) refl in
      let two = fill-Rep own m xs s₁ v₁ one bare (omega arith) in
      let x : Buffer = record { size = length xs; block = some s.allocated } in
      let t = make x (allocate xs s) in
      let own' = give s.allocated (some m) own in
      let three =
        subst (λ f. Rep own' (record t { objects = f }) (put m (some xs) v₁))
          (overwrite m (some x) (some empty_buffer) s.objects) two in
      let four =
        subst (λ f. Rep own' t (record v₁ { of = f })) (overwrite m (some xs) (some []) v.of)
          three in
      (
        t,
        refl,
        own',
        subst
            (λ n.
              Rep own' t (record { of = λ q. if n == q then some xs else v.of q; made = n + 1 }))
            i.count four,
      )

  pub construct-Does :
      (z : A) (n : ℕ) (own : Owners) (s : State A) (v : Values A)
      → Rep own s v
      → Does (construct z n s) (add_value (replicate n z) v)
  unfolding construct
  construct-Does z n own s v i =
      subst
        (λ k.
          Does
            (some
              (make (record { size = k; block = some s.allocated }) (allocate (replicate n z) s)))
            (add_value (replicate n z) v))
        (length-replicate n z) (made-Does own (replicate n z) s v i)

  front-all : (xs : List A) → front (length xs) xs ≡ some xs
  unfolding front
  front-all [] = refl
  front-all (x ∷ xs) = rw (front, front-all xs) refl

  read-InBlock :
      (o : Option ℕ) (xs : List A) (s : State A)
      → InBlock s.blocks o xs
      → read o (length xs) s ≡ some xs
  unfolding read front
  read-InBlock none xs s h = subst (λ z. read none (length z) s ≡ some z) (sym h) refl
  read-InBlock (some b) xs s h = rw (read, h) (front-all xs)

  pub copy-Does :
      (own : Owners) (p : ℕ) (xs : List A) (s : State A) (v : Values A)
      → Rep own s v
      → v.of p ≡ some xs
      → Does (copy_construct p s) (add_value xs v)
  unfolding copy_construct
  copy-Does own p xs s v i e =
      let (x, at, size, shown) = found own p xs s v i e in
      let r = ap (λ n. read x.block n s) size ∙ read-InBlock x.block xs s shown in
      let (t, eq, own', j) = made-Does own xs s v i in
      (
        t,
        rw (copy_construct, at)
            (rw r (
              ap (λ n. some (make (record { size = n; block = some s.allocated }) (allocate xs s)))
                size
              ∙ eq)),
        own',
        j,
      )

  free-none : (o : Option ℕ) (s : State A) → o ≡ none → free o s ≡ some s
  unfolding free
  free-none o s e = rw (free, e) refl

  free-some :
      (o : Option ℕ) (b : ℕ) (xs : List A) (s : State A)
      → o ≡ some b
      → s.blocks b ≡ some xs
      → free o s ≡ some (write_block b none s)
  unfolding free
  free-some o b xs s e f = rw (free, e) (rw f refl)

  -- The object gives back what it has, and something without a block takes its place.
  pub drop_block :
      (own : Owners) (p : ℕ) (x : Buffer) (y : Option Buffer) (xs : List A) (ys : Option (List A))
      (s : State A) (v : Values A)
      → Rep own s v
      → s.objects p ≡ some x
      → InBlock s.blocks x.block xs
      → block_of y ≡ none
      → ((blocks : ℕ → Option (List A)) → Shows blocks y ys)
      → (t : State A) × (free x.block s ≡ some t)
        × (own' : Owners) × Rep own' (write_object p y t) (put p ys v)
        × (t.objects ≡ s.objects)
        × (t.made ≡ s.made)
  drop_block own p x y xs ys s v i at h idle shown =
      let l = alive_lt own p x s v i at in
      elim (Option-cases x.block) [
        | inl n ↦
            let r =
              idle-Rep own p s.made y ys s v i (ap block_of at ∙ n) idle (shown s.blocks) l
                (omega arith) in
            (
              s,
              free-none x.block s n,
              own,
              subst (λ m. Rep own (write_object p y s) (record (put p ys v) { made = m })) i.count
                  r,
              refl,
              refl,
            )
        | inr (b, has) ↦
            let full = subst (λ o. InBlock s.blocks o xs) has h in
            (
              write_block b none s,
              free-some x.block b xs s has full,
              give b none own,
              free-Rep own p b y ys s v i (ap block_of at ∙ has) idle shown l,
              refl,
              refl,
            )
      ]

  pub destroy-Does :
      (own : Owners) (p : ℕ) (xs : List A) (s : State A) (v : Values A)
      → Rep own s v
      → v.of p ≡ some xs
      → Does (destroy p s) (put p none v)
  unfolding destroy
  destroy-Does own p xs s v i e =
      let (x, at, size, shown) = found own p xs s v i e in
      let (t, eq, own', j, same_objects, same_made) =
        drop_block own p x none xs none s v i at shown refl (λ blocks. tt) in
      (write_object p none t, rw (destroy, at) (rw eq refl), own', j)

  pub swap-Does :
      (own : Owners) (p q : ℕ) (xs ys : List A) (s : State A) (v : Values A)
      → Rep own s v
      → v.of p ≡ some xs
      → v.of q ≡ some ys
      → Does (swap p q s) (exchange p q v)
  unfolding swap
  swap-Does own p q xs ys s v i e f =
      let (x, at, size, shown) = found own p xs s v i e in
      let (y, at', size', shown') = found own q ys s v i f in
      (
        swapped p q s,
        rw (swap, at) (rw at' refl),
        _,
        swap-Rep own p q s v i (alive_lt own p x s v i at) (alive_lt own q y s v i at'),
      )
