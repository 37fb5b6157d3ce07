-- ===== src/Templates/Ring/Holds.antt =====
-- exercises/templatelab/util.h: what the array of a Ring holds.
use native.Mathlib.Nat.{mod_self, mod-eq_of_lt}
use going_unmanaged.Prelude.{
  ℕ, ◌+◌, ◌-◌, ◌%◌, ◌<◌, ◌≡◌, refl, ap, ◌∙◌, sym, List, [], ◌∷◌, ◌++◌, append_assoc, append-nil,
  if◌then◌else◌, ltb, lt→ltb, ge→ltb, subst, length, length-append, set, get_elem?,
  get_elem?-append_right, drop, replicate, length-replicate, arith,
}
use going_unmanaged.Templates.Ring.{Ring, empty_ring, push, push_all, oldest}

module _ {T : Type 0} (n : ℕ) where
  -- What is remembered, the oldest first, once a value has come.
  abbrev pub remember : T → List T → List T
  remember value kept =
      if ltb (length kept) n then kept ++ value ∷ [] else drop 1 kept ++ value ∷ []

  abbrev pub remember_all : List T → List T → List T
  remember_all [] kept = kept
  remember_all (value ∷ values) kept = remember_all values (remember value kept)

  -- The array has what is remembered from its start while there is room, and else from `head` around.
  pub data Holds (r : Ring T) (kept : List T) : Type 0 where
    filling :
        (rest : List T)
        → r.data_ ≡ kept ++ rest
        → r.head ≡ length kept
        → r.size ≡ length kept
        → length kept < n
        → length kept + length rest ≡ n
        → Holds r kept
    full :
        (before from : List T)
        → r.data_ ≡ before ++ from
        → r.head ≡ length before
        → 0 < length from
        → r.size ≡ n
        → length before + length from ≡ n
        → kept ≡ from ++ before
        → Holds r kept

set-length :
    {T : Type 0} (front back : List T) (old value : T)
    → set (front ++ old ∷ back) (length front) value ≡ front ++ value ∷ back
set-length [] back old value = refl
set-length (x ∷ front) back old value = ap (λ t. x ∷ t) (set-length front back old value)

first-append :
    {T : Type 0} (front back : List T)
    → 0 < length front
    → get_elem? (front ++ back) 0 ≡ get_elem? front 0
first-append [] back l = absurd (omega arith)
first-append (x ∷ front) back l = refl

pub empty_ring-Holds : {T : Type 0} (n : ℕ) (value : T) → 0 < n → Holds n (empty_ring n value) []
unfolding empty_ring
empty_ring-Holds n value l =
    filling (replicate n value) refl refl refl l (omega (arith, length-replicate n value))

-- `head` behind the last index, and before it.
wraps : (h k n : ℕ) → h ≡ k → k + 1 ≡ n → (h + 1) % n ≡ 0
wraps h k n e last = ap (λ z. (z + 1) % n) e ∙ ap (λ z. z % n) last ∙ mod_self n

moves_on : (h k n : ℕ) → h ≡ k → k + 1 < n → (h + 1) % n ≡ k + 1
moves_on h k n e l = ap (λ z. (z + 1) % n) e ∙ mod-eq_of_lt l

module _ {T : Type 0} (n : ℕ) (value : T) (r : Ring T) where
  written :
      (front back : List T) (old : T)
      → r.data_ ≡ front ++ old ∷ back
      → r.head ≡ length front
      → (push n value r).data_ ≡ front ++ value ∷ back
  unfolding push
  written front back old d h = rw (d, h) (set-length front back old value)

  push_filling :
      (kept rest : List T)
      → r.data_ ≡ kept ++ rest
      → r.head ≡ length kept
      → r.size ≡ length kept
      → length kept < n
      → length kept + length rest ≡ n
      → Holds n (push n value r) (kept ++ value ∷ [])
  unfolding push
  push_filling kept [] d h s l e = absurd (omega arith)
  push_filling kept (old ∷ []) d h s l e =
      full [] (kept ++ value ∷ []) (written kept [] old d h)
        (wraps r.head (length kept) n h (omega arith))
        (omega (arith, length-append kept (value ∷ []))) (ground (arith, s, l))
        (omega (arith, length-append kept (value ∷ []))) (sym (append-nil (kept ++ value ∷ [])))
  push_filling kept (old ∷ next ∷ rest) d h s l e =
      let longer : length (kept ++ value ∷ []) ≡ length kept + 1 =
        length-append kept (value ∷ []) in
      filling (next ∷ rest)
        (written kept (next ∷ rest) old d h ∙ sym (append_assoc kept (value ∷ []) (next ∷ rest)))
        (moves_on r.head (length kept) n h (omega arith) ∙ sym longer)
        (ground (arith, s, l, longer)) (omega arith) (omega arith)

  push_full :
      (before from : List T)
      → r.data_ ≡ before ++ from
      → r.head ≡ length before
      → 0 < length from
      → r.size ≡ n
      → length before + length from ≡ n
      → Holds n (push n value r) (drop 1 (from ++ before) ++ value ∷ [])
  unfolding push
  push_full before [] d h l s e = absurd (omega arith)
  push_full before (old ∷ []) d h l s e =
      full [] (before ++ value ∷ []) (written before [] old d h)
        (wraps r.head (length before) n h (omega arith))
        (omega (arith, length-append before (value ∷ []))) (ground (arith, s))
        (omega (arith, length-append before (value ∷ []))) (sym (append-nil (before ++ value ∷ [])))
  push_full before (old ∷ next ∷ from) d h l s e =
      full (before ++ value ∷ []) (next ∷ from)
        (written before (next ∷ from) old d h
          ∙ sym (append_assoc before (value ∷ []) (next ∷ from)))
        (moves_on r.head (length before) n h (omega arith)
          ∙ sym (length-append before (value ∷ [])))
        (omega arith) (ground (arith, s)) (omega (arith, length-append before (value ∷ [])))
        (ap (λ t. next ∷ t) (append_assoc from before (value ∷ [])))

  push-Holds : (kept : List T) → Holds n r kept → Holds n (push n value r) (remember n value kept)
  push-Holds kept (filling rest d h s l e) =
      rw (lt→ltb (length kept) n l) (push_filling kept rest d h s l e)
  push-Holds kept (full before from d h l s e k) =
      let much : length kept ≡ n = omega (arith, ap length k, length-append from before, e) in
      rw (ge→ltb (length kept) n (omega arith)) (
        subst (λ z. Holds n (push n value r) (drop 1 z ++ value ∷ [])) (sym k)
          (push_full before from d h l s e))

pub push_all-Holds :
    {T : Type 0} (n : ℕ) (values kept : List T) (r : Ring T)
    → Holds n r kept
    → Holds n (push_all n values r) (remember_all n values kept)
unfolding push_all
push_all-Holds n [] kept r i = i
push_all-Holds n (value ∷ values) kept r i =
    push_all-Holds n values (remember n value kept) (push n value r) (push-Holds n value r kept i)

pub oldest-Holds :
    {T : Type 0} (n : ℕ) (r : Ring T) (kept : List T)
    → Holds n r kept
    → 0 < length kept
    → oldest n r ≡ get_elem? kept 0
unfolding oldest
oldest-Holds n r kept (filling rest d h s l e) some' =
    let index : (r.head + n - r.size) % n ≡ 0 = ap (λ z. z % n) (omega arith) ∙ mod_self n in
    ap (λ z. get_elem? r.data_ z) index ∙ ap (λ z. get_elem? z 0) d ∙ first-append kept rest some'
oldest-Holds n r kept (full before from d h l s e k) some' =
    let index : (r.head + n - r.size) % n ≡ length before + 0 =
      ap (λ z. z % n) (omega arith) ∙ mod-eq_of_lt (omega arith) in
    ap (λ z. get_elem? r.data_ z) index
    ∙ ap (λ z. get_elem? z (length before + 0)) d
    ∙ get_elem?-append_right before from 0
    ∙ sym (first-append from before l)
    ∙ ap (λ z. get_elem? z 0) (sym k)

pub size-Holds :
    {T : Type 0} (n : ℕ) (r : Ring T) (kept : List T) → Holds n r kept → r.size ≡ length kept
size-Holds n r kept (filling rest d h s l e) = s
size-Holds n r kept (full before from d h l s e k) =
    omega (arith, s, e, ap length k, length-append from before)
