-- ===== src/RefCount/Store.antt =====
-- exercises/comlab/FakeSDK2.cpp: the store of Things under the two operations on a count.
use going_unmanaged.Prelude.{
  ℕ, zero, suc, ◌+◌, ◌-◌, ◌<◌, ◌≡◌, refl, ap, ◌∙◌, sym, List, [], ◌∷◌, Option, none, some, arith,
  if◌then◌else◌, ◌==◌, get_elem?, set, length, Bool-cases, ◌⊎◌, inl, inr, get_elem?-set_self,
  get_elem?-set_ne, ==_iff, subst, true, false,
}
use going_unmanaged.RefCount.{Thing, State, thing_retain, thing_release, decrement}

-- How many Things are alive.
unfoldable pub count_live : List (Option Thing) → ℕ
count_live [] = 0
count_live (none ∷ ts) = count_live ts
count_live (some t ∷ ts) = suc (count_live ts)

-- The references that the store counts for a pointer.
abbrev pub count_of : Option (Option Thing) → ℕ
count_of none = 0
count_of (some none) = 0
count_of (some (some t)) = t.refs

abbrev pub refs_at : List (Option Thing) → ℕ → ℕ
refs_at ts p = count_of (get_elem? ts p)

-- A Thing that is alive has a reference, and `g_live` is the number of those alive.
pub record IsSound (s : State) : Type 0 where
  pub counted : s.live ≡ count_live s.things
  pub positive : (p : ℕ) (t : Thing) → get_elem? s.things p ≡ some (some t) → 0 < t.refs

-- A count in use is that of a Thing alive.
pub alive :
    (ts : List (Option Thing)) (p : ℕ)
    → 0 < refs_at ts p
    → (t : Thing) × (get_elem? ts p ≡ some (some t))
alive ts p h = go (get_elem? ts p) refl h
  where
    go :
        (o : Option (Option Thing))
        → get_elem? ts p ≡ o
        → 0 < count_of o
        → (t : Thing) × (get_elem? ts p ≡ some (some t))
    go none e h = absurd (omega arith)
    go (some none) e h = absurd (omega arith)
    go (some (some t)) e h = (t, e)

count_live-set-some :
    (ts : List (Option Thing)) (p : ℕ) (t u : Thing)
    → get_elem? ts p ≡ some (some t)
    → count_live (set ts p (some u)) ≡ count_live ts
unfolding count_live
count_live-set-some [] p t u e = refl
count_live-set-some (none ∷ ts) zero t u e = cc
count_live-set-some (some x ∷ ts) zero t u e = refl
count_live-set-some (none ∷ ts) (suc p) t u e = count_live-set-some ts p t u e
count_live-set-some (some x ∷ ts) (suc p) t u e = ap suc (count_live-set-some ts p t u e)

count_live-set-none :
    (ts : List (Option Thing)) (p : ℕ) (t : Thing)
    → get_elem? ts p ≡ some (some t)
    → suc (count_live (set ts p none)) ≡ count_live ts
unfolding count_live
count_live-set-none [] p t e = cc
count_live-set-none (none ∷ ts) zero t e = cc
count_live-set-none (some x ∷ ts) zero t e = refl
count_live-set-none (none ∷ ts) (suc p) t e = count_live-set-none ts p t e
count_live-set-none (some x ∷ ts) (suc p) t e = ap suc (count_live-set-none ts p t e)

lt-length_of_get :
    {A : Type 0} (xs : List A) (p : ℕ) (a : A) → get_elem? xs p ≡ some a → p < length xs
lt-length_of_get [] p a e = cc
lt-length_of_get (x ∷ xs) zero a e = omega arith
lt-length_of_get (x ∷ xs) (suc p) a e = omega (arith, lt-length_of_get xs p a e)

-- What is stored at a pointer after a write at one that is in the list.
get-set :
    (ts : List (Option Thing)) (p q : ℕ) (t : Thing) (o : Option Thing)
    → get_elem? ts p ≡ some (some t)
    → get_elem? (set ts p o) q ≡ (if p == q then some o else get_elem? ts q)
get-set ts p q t o e = elim (Bool-cases (p == q)) [
  | inl y ↦
      let same : p ≡ q = (==_iff p q).0 y in
      rw y (
        subst (λ z. get_elem? (set ts p o) z ≡ some o) same
          (get_elem?-set_self ts p o (lt-length_of_get ts p _ e)))
  | inr n ↦ rw n (get_elem?-set_ne ts p q o (λ same. cc ((==_iff p q).1 same)))
]

-- The count at `q` after the write, and the count at `p` before it where they are the same.
refs_at-set :
    (ts : List (Option Thing)) (p q : ℕ) (t : Thing) (o : Option Thing)
    → get_elem? ts p ≡ some (some t)
    → (((p == q) ≡ true) × (refs_at (set ts p o) q ≡ count_of (some o)) × (refs_at ts q ≡ t.refs))
      ⊎ (((p == q) ≡ false) × (refs_at (set ts p o) q ≡ refs_at ts q))
refs_at-set ts p q t o e = elim (Bool-cases (p == q)) [
  | inl y ↦
      let w : get_elem? (set ts p o) q ≡ some o = rw y at (get-set ts p q t o e) in
      let v : get_elem? ts q ≡ some (some t) =
        subst (λ z. get_elem? ts z ≡ some (some t)) ((==_iff p q).0 y) e in
      inl (y, ap count_of w, ap count_of v)
  | inr n ↦
      let w : get_elem? (set ts p o) q ≡ get_elem? ts q = rw n at (get-set ts p q t o e) in
      inr (n, ap count_of w)
]

-- One reference more or less at `p`, and nothing else.
abbrev pub one_at : ℕ → ℕ → ℕ
one_at p q = if p == q then 1 else 0

pub record Retained (s : State) (p : ℕ) (s' : State) : Type 0 where
  pub sound : IsSound s'
  pub refs : (q : ℕ) → refs_at s'.things q ≡ refs_at s.things q + one_at p q
  pub same_table : s'.table ≡ s.table
  pub same_handles : s'.handles ≡ s.handles

pub record Released (s : State) (p : ℕ) (s' : State) : Type 0 where
  pub sound : IsSound s'
  pub refs : (q : ℕ) → refs_at s'.things q + one_at p q ≡ refs_at s.things q
  pub same_table : s'.table ≡ s.table
  pub same_handles : s'.handles ≡ s.handles

-- Positive counts after a write at `p` of a Thing with references, or of none.
positive-set :
    (s : State) (p : ℕ) (t : Thing) (o : Option Thing)
    → IsSound s
    → get_elem? s.things p ≡ some (some t)
    → ((u : Thing) → o ≡ some u → 0 < u.refs)
    → (q : ℕ) (u : Thing) → get_elem? (set s.things p o) q ≡ some (some u)
    → 0 < u.refs
positive-set s p t o i e pos q u h = elim (Bool-cases (p == q)) [
  | inl y ↦ pos u (cc (get-set s.things p q t o e, y))
  | inr n ↦ i.positive q u (cc (get-set s.things p q t o e, n))
]

pub thing_retain_lem :
    (s : State) (p : ℕ)
    → IsSound s
    → 0 < refs_at s.things p
    → (n : ℕ) × (s' : State) × (thing_retain (some p) s ≡ some (n, s')) × Retained s p s'
unfolding thing_retain
thing_retain_lem s p i h =
    let (t, e) = alive s.things p h in
    let u : Thing = record t { refs = t.refs + 1 } in
    (
      t.refs + 1,
      record s { things = set s.things p (some u) },
      rw (e, thing_retain),
      record {
        sound = record {
          counted = i.counted ∙ sym (count_live-set-some s.things p t u e);
          positive = positive-set s p t (some u) i e (λ v is_v. ground arith);
        };
        refs = λ q. ground (arith, refs_at-set s.things p q t (some u) e);
        same_table = refl;
        same_handles = refl;
      },
    )

decrement_lem : (n : ℕ) → 0 < n → decrement n ≡ n - 1
unfolding decrement
decrement_lem n h = ground arith

pub thing_release_lem :
    (s : State) (p : ℕ)
    → IsSound s
    → 0 < refs_at s.things p
    → (n : ℕ) × (s' : State) × (thing_release (some p) s ≡ some (n, s')) × Released s p s'
unfolding thing_release
thing_release_lem s p i h =
    let (t, e) = alive s.things p h in
    let u : Thing = record t { refs = t.refs - 1 } in
    let pos = i.positive p t e in
    let some_live : 0 < s.live = omega (arith, i.counted, count_live-set-none s.things p t e) in
    elim (Bool-cases (t.refs - 1 == 0)) [
      | inl last ↦ (
        0,
        record s { things = set s.things p none; live = s.live - 1 },
        rw (e, thing_release)
            (rw (decrement_lem t.refs pos) (rw (last, decrement_lem s.live some_live) refl)),
        record {
          sound = record {
            counted = omega (arith, i.counted, count_live-set-none s.things p t e);
            positive = positive-set s p t none i e (λ v is_v. cc);
          };
          refs = λ q. ground (arith, refs_at-set s.things p q t none e);
          same_table = refl;
          same_handles = refl;
        },
      )
      | inr more ↦ (
        t.refs - 1,
        record s { things = set s.things p (some u) },
        rw (e, thing_release) (rw (decrement_lem t.refs pos) (rw more refl)),
        record {
          sound = record {
            counted = i.counted ∙ sym (count_live-set-some s.things p t u e);
            positive = positive-set s p t (some u) i e (λ v is_v. ground arith);
          };
          refs = λ q. ground (arith, refs_at-set s.things p q t (some u) e);
          same_table = refl;
          same_handles = refl;
        },
      )
    ]
