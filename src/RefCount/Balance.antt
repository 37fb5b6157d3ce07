-- ===== src/RefCount/Balance.antt =====
-- exercises/comlab: who holds the references that the store counts.
use going_unmanaged.Prelude.{
  ℕ, zero, suc, ◌+◌, ◌≤◌, ◌<◌, ◌≡◌, refl, ◌∙◌, List, [], ◌∷◌, ◌++◌, Option, none, some, arith,
  ==_refl, get_elem?, set, length, replicate,
}
use going_unmanaged.RefCount.{Thing, State, entries, make_thing, make_things, release_entries}
use going_unmanaged.RefCount.Store.{
  IsSound, refs_at, one_at, count_live, thing_retain_lem, thing_release_lem,
}
use going_unmanaged.RefCount.Handles.{slot, keep_ref, drop_ref}

-- How often a pointer stands in the table, and how many handles hold it.
abbrev pub count : ℕ → List ℕ → ℕ
count q [] = 0
count q (p ∷ ps) = one_at p q + count q ps

abbrev pub own : ℕ → Option ℕ → ℕ
own q none = 0
own q (some p) = one_at p q

abbrev pub holds : ℕ → List (Option ℕ) → ℕ
holds q [] = 0
holds q (h ∷ hs) = own q h + holds q hs

-- The count of every Thing is the number of its entries in the project's table and of its handles.
pub record Inv (s : State) : Type 0 where
  pub sound : IsSound s
  pub balance : (q : ℕ) → refs_at s.things q ≡ count q (entries s) + holds q s.handles

pub holds-append :
    (q : ℕ) (hs : List (Option ℕ)) (h : Option ℕ) → holds q (hs ++ h ∷ []) ≡ holds q hs + own q h
holds-append q [] h = omega arith
holds-append q (x ∷ hs) h = omega (arith, holds-append q hs h)

-- A handle that is set drops what it held.
pub holds-set :
    (q i : ℕ) (hs : List (Option ℕ)) (h : Option ℕ)
    → i < length hs
    → holds q (set hs i h) + own q (slot hs i) ≡ holds q hs + own q h
holds-set q i [] h l = absurd (omega arith)
holds-set q zero (x ∷ hs) h l = omega arith
holds-set q (suc i) (x ∷ hs) h l = omega (arith, holds-set q i hs h (omega arith))

-- Out of range nothing is held.
pub holds-set-none :
    (q i : ℕ) (hs : List (Option ℕ)) → holds q (set hs i none) + own q (slot hs i) ≡ holds q hs
holds-set-none q i [] = omega arith
holds-set-none q zero (x ∷ hs) = omega arith
holds-set-none q (suc i) (x ∷ hs) = omega (arith, holds-set-none q i hs)

pub own-le-holds : (q i : ℕ) (hs : List (Option ℕ)) → own q (slot hs i) ≤ holds q hs
own-le-holds q i [] = omega arith
own-le-holds q zero (x ∷ hs) = omega arith
own-le-holds q (suc i) (x ∷ hs) = omega (arith, own-le-holds q i hs)

pub one_at_self : (p : ℕ) → one_at p p ≡ 1
one_at_self p = rw (==_refl p)

-- The state with other counts, by one reference of a handle.
pub record Counts (d : ℕ → ℕ) (e : ℕ → ℕ) (s s' : State) : Type 0 where
  pub sound : IsSound s'
  pub refs : (q : ℕ) → refs_at s'.things q + d q ≡ refs_at s.things q + e q
  pub same_table : s'.table ≡ s.table
  pub same_handles : s'.handles ≡ s.handles

pub keep_ref_lem :
    (o : Option ℕ) (s : State)
    → IsSound s
    → ((p : ℕ) → o ≡ some p → 0 < refs_at s.things p)
    → (s' : State) × (keep_ref o s ≡ some s') × Counts (λ q. 0) (λ q. own q o) s s'
unfolding keep_ref
keep_ref_lem none s i h =
    (s, refl, record { sound = i; refs = λ q. refl; same_table = refl; same_handles = refl })
keep_ref_lem (some p) s i h =
    let (n, s', e, r) = thing_retain_lem s p i (h p refl) in
    (
      s',
      rw e,
      record {
        sound = r.sound;
        refs = λ q. omega (arith, r.refs q);
        same_table = r.same_table;
        same_handles = r.same_handles;
      },
    )

pub drop_ref_lem :
    (o : Option ℕ) (s : State)
    → IsSound s
    → ((p : ℕ) → o ≡ some p → 0 < refs_at s.things p)
    → (s' : State) × (drop_ref o s ≡ some s') × Counts (λ q. own q o) (λ q. 0) s s'
unfolding drop_ref
drop_ref_lem none s i h =
    (s, refl, record { sound = i; refs = λ q. refl; same_table = refl; same_handles = refl })
drop_ref_lem (some p) s i h =
    let (n, s', e, r) = thing_release_lem s p i (h p refl) in
    (
      s',
      rw e,
      record {
        sound = r.sound;
        refs = λ q. omega (arith, r.refs q);
        same_table = r.same_table;
        same_handles = r.same_handles;
      },
    )

-- The project's own references: an entry is given back for each of these pointers.
pub release_entries_lem :
    (ps : List ℕ) (s : State)
    → IsSound s
    → ((q : ℕ) → count q ps ≤ refs_at s.things q)
    → (s' : State) × (release_entries ps s ≡ some s') × Counts (λ q. count q ps) (λ q. 0) s s'
unfolding release_entries
release_entries_lem [] s i h =
    (s, refl, record { sound = i; refs = λ q. refl; same_table = refl; same_handles = refl })
release_entries_lem (p ∷ ps) s i h =
    let (n, s₁, e₁, r₁) = thing_release_lem s p i (omega (arith, h p, one_at_self p)) in
    let (s₂, e₂, r₂) = release_entries_lem ps s₁ r₁.sound (λ q. omega (arith, h q, r₁.refs q)) in
    (
      s₂,
      rw (e₁, release_entries) e₂,
      record {
        sound = r₂.sound;
        refs = λ q. omega (arith, r₁.refs q, r₂.refs q);
        same_table = r₂.same_table ∙ r₁.same_table;
        same_handles = r₂.same_handles ∙ r₁.same_handles;
      },
    )

-- A new Thing has one reference, at a pointer that had none.
refs_at-append :
    (ts : List (Option Thing)) (t : Thing) (q : ℕ)
    → t.refs ≡ 1
    → refs_at (ts ++ some t ∷ []) q ≡ refs_at ts q + one_at (length ts) q
refs_at-append [] t zero e = ground arith
refs_at-append [] t (suc q) e = ground arith
refs_at-append (x ∷ ts) t zero e = ground arith
refs_at-append (x ∷ ts) t (suc q) e = ground (arith, refs_at-append ts t q e)

positive-append :
    (ts : List (Option Thing)) (t : Thing)
    → ((q : ℕ) (u : Thing) → get_elem? ts q ≡ some (some u) → 0 < u.refs)
    → 0 < t.refs
    → (q : ℕ) (u : Thing) → get_elem? (ts ++ some t ∷ []) q ≡ some (some u)
    → 0 < u.refs
positive-append [] t old new zero u e = ground arith
positive-append [] t old new (suc q) u e = cc
positive-append (x ∷ ts) t old new zero u e = old zero u e
positive-append (x ∷ ts) t old new (suc q) u e =
    positive-append ts t (λ p v h. old (suc p) v h) new q u e

count_live-append :
    (ts : List (Option Thing)) (t : Thing) → count_live (ts ++ some t ∷ []) ≡ count_live ts + 1
unfolding count_live
count_live-append [] t = omega arith
count_live-append (none ∷ ts) t = count_live-append ts t
count_live-append (some x ∷ ts) t = omega (arith, count_live-append ts t)

make_thing_lem :
    (id : ℕ) (s : State)
    → IsSound s
    → Counts (λ q. 0) (λ q. one_at (make_thing id s).0 q) s (make_thing id s).1
unfolding make_thing
make_thing_lem id s i =
    let t : Thing = record { id = id; refs = 1; values = replicate 3 id } in
    record {
      sound = record {
        counted = omega (arith, i.counted, count_live-append s.things t);
        positive = positive-append s.things t i.positive (omega arith);
      };
      refs = λ q. omega (arith, refs_at-append s.things t q refl);
      same_table = refl;
      same_handles = refl;
    }

pub make_things_lem :
    (i n : ℕ) (s : State)
    → IsSound s
    → Counts (λ q. 0) (λ q. count q (make_things i n s).0) s (make_things i n s).1
unfolding make_things
make_things_lem i zero s h = record {
  sound = h;
  refs = λ q. refl;
  same_table = refl;
  same_handles = refl;
}
make_things_lem i (suc n) s h =
    let r₁ = make_thing_lem (i + 1) s h in
    let r₂ = make_things_lem (i + 1) n (make_thing (i + 1) s).1 r₁.sound in
    record {
      sound = r₂.sound;
      refs = λ q. omega (arith, r₁.refs q, r₂.refs q);
      same_table = r₂.same_table ∙ r₁.same_table;
      same_handles = r₂.same_handles ∙ r₁.same_handles;
    }
