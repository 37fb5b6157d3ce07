-- ===== src/RefCount/Copies.antt =====
-- exercises/comlab/ref.h: copies and moves of a ThingHandle keep each count what it should be.
use going_unmanaged.Prelude.{
  ℕ, zero, suc, ◌+◌, ◌<◌, ◌≡◌, refl, ap, List, [], ◌∷◌, Option, none, some, arith, get_elem?, set,
  length, length-set,
}
use going_unmanaged.RefCount.{State, entries}
use going_unmanaged.RefCount.Store.{IsSound, refs_at}
use going_unmanaged.RefCount.Handles.{
  slot, handle_at, add_handle, set_handle, drop_ref, share, copy_construct, copy_assign,
  move_construct, move_assign, destroy,
}
use going_unmanaged.RefCount.Balance.{
  Inv, count, own, holds, holds-append, holds-set, holds-set-none, own-le-holds, one_at_self,
  keep_ref_lem, drop_ref_lem,
}

-- The operation succeeds and keeps the balance.
abbrev pub Keeps : Option State → Type 0
Keeps r = (s' : State) × (r ≡ some s') × Inv s'

-- A pointer that a handle holds, or the table, is counted.
pub held_pos :
    (s : State) (i : ℕ) → Inv s → (p : ℕ) → handle_at s i ≡ some p → 0 < refs_at s.things p
held_pos s i v p e =
    let held : own p (handle_at s i) ≡ 1 = rw e (one_at_self p) in
    omega (arith, v.balance p, own-le-holds p i s.handles, held)

pub count-get : (ps : List ℕ) (i p : ℕ) → get_elem? ps i ≡ some p → 0 < count p ps
count-get [] i p e = cc
count-get (x ∷ ps) zero p e = let same : x ≡ p = cc in rw same (omega (arith, one_at_self p))
count-get (x ∷ ps) (suc i) p e = omega (arith, count-get ps i p e)

pub entry_pos :
    (s : State) (i p : ℕ) → Inv s → get_elem? (entries s) i ≡ some p → 0 < refs_at s.things p
entry_pos s i p v e = omega (arith, v.balance p, count-get (entries s) i p e)

-- The counts do not look at the handles, nor at the table.
pub IsSound-handles :
    (s : State) (hs : List (Option ℕ)) → IsSound s → IsSound (record s { handles = hs })
IsSound-handles s hs i = record { counted = i.counted; positive = i.positive }

pub IsSound-table :
    (s : State) (t : Option (List ℕ)) (a : ℕ)
    → IsSound s
    → IsSound (record s { table = t; active = a })
IsSound-table s t a i = record { counted = i.counted; positive = i.positive }

pub share-Keeps :
    (raw : Option ℕ) (s : State)
    → Inv s
    → ((p : ℕ) → raw ≡ some p → 0 < refs_at s.things p)
    → Keeps (share raw s)
unfolding share
share-Keeps raw s v pos =
    let (s₁, e₁, r₁) = keep_ref_lem raw s v.sound pos in
    (
      add_handle s₁ raw,
      rw e₁,
      record {
        sound = IsSound-handles s₁ _ r₁.sound;
        balance = λ q.
            rw (r₁.same_table, r₁.same_handles)
              (omega (arith, v.balance q, r₁.refs q, holds-append q s.handles raw));
      },
    )

pub copy_construct-Keeps : (other : ℕ) (s : State) → Inv s → Keeps (copy_construct other s)
unfolding copy_construct
copy_construct-Keeps other s v =
    let (s₁, e₁, r₁) = keep_ref_lem (handle_at s other) s v.sound (held_pos s other v) in
    (
      add_handle s₁ (handle_at s other),
      rw e₁,
      record {
        sound = IsSound-handles s₁ _ r₁.sound;
        balance = λ q.
            rw (r₁.same_table, r₁.same_handles)
              (omega (arith, v.balance q, r₁.refs q, holds-append q s.handles (handle_at s other)));
      },
    )

pub count-entries :
    (s s' : State) → s'.table ≡ s.table → (q : ℕ) → count q (entries s') ≡ count q (entries s)
count-entries s s' e q = ap (λ t. count q (elim t [ none ↦ [] | some ps ↦ ps ])) e

pub dropped_pos :
    (o : Option ℕ) (s : State)
    → ((q : ℕ) → refs_at s.things q ≡ count q (entries s) + holds q s.handles + own q o)
    → (p : ℕ) → o ≡ some p
    → 0 < refs_at s.things p
dropped_pos o s b p e = let mine : own p o ≡ 1 = rw e (one_at_self p) in omega (arith, b p, mine)

-- The reference of a handle is dropped once another value stands in it.
pub dropped-Keeps :
    (o : Option ℕ) (s : State)
    → IsSound s
    → ((q : ℕ) → refs_at s.things q ≡ count q (entries s) + holds q s.handles + own q o)
    → Keeps (drop_ref o s)
dropped-Keeps o s i b =
    let (s₁, e₁, r₁) = drop_ref_lem o s i (dropped_pos o s b) in
    (
      s₁,
      e₁,
      record {
        sound = r₁.sound;
        balance = λ q. omega (
          arith,
          b q,
          r₁.refs q,
          count-entries s s₁ r₁.same_table q,
          ap (holds q) r₁.same_handles,
        );
      },
    )

pub destroy-Keeps : (this : ℕ) (s : State) → Inv s → Keeps (destroy this s)
unfolding destroy
destroy-Keeps this s v =
    dropped-Keeps (handle_at s this) (set_handle s this none) (IsSound-handles s _ v.sound)
      λ q. omega (arith, v.balance q, holds-set-none q this s.handles)

pub copy_assign-Keeps :
    (this other : ℕ) (s : State)
    → this < length s.handles
    → Inv s
    → Keeps (copy_assign this other s)
unfolding copy_assign
copy_assign-Keeps this other s l v =
    let (s₁, e₁, r₁) = keep_ref_lem (handle_at s other) s v.sound (held_pos s other v) in
    rw e₁ (
      dropped-Keeps (handle_at s this) (set_handle s₁ this (handle_at s other))
        (IsSound-handles s₁ _ r₁.sound)
        λ q.
          rw (r₁.same_table, r₁.same_handles)
            (omega
              (arith, v.balance q, r₁.refs q, holds-set q this s.handles (handle_at s other) l)))

pub move_construct-Keeps : (other : ℕ) (s : State) → Inv s → Keeps (move_construct other s)
unfolding move_construct
move_construct-Keeps other s v = (
  add_handle (set_handle s other none) (handle_at s other),
  refl,
  record {
    sound = IsSound-handles s _ v.sound;
    balance = λ q. omega (
      arith,
      v.balance q,
      holds-set-none q other s.handles,
      holds-append q (set s.handles other none) (handle_at s other),
    );
  },
)

pub slot-set-slot : (hs : List (Option ℕ)) (i j : ℕ) → slot (set hs i (slot hs j)) j ≡ slot hs j
slot-set-slot [] i j = refl
slot-set-slot (x ∷ hs) zero zero = refl
slot-set-slot (x ∷ hs) zero (suc j) = refl
slot-set-slot (x ∷ hs) (suc i) zero = refl
slot-set-slot (x ∷ hs) (suc i) (suc j) = slot-set-slot hs i j

pub holds-swap :
    (q i j : ℕ) (hs : List (Option ℕ))
    → i < length hs
    → j < length hs
    → holds q (set (set hs i (slot hs j)) j (slot hs i)) ≡ holds q hs
holds-swap q i j hs l m =
    let same : own q (slot (set hs i (slot hs j)) j) ≡ own q (slot hs j) =
      ap (own q) (slot-set-slot hs i j) in
    let fits : j < length (set hs i (slot hs j)) = omega (arith, m, length-set hs i (slot hs j)) in
    omega (
      arith,
      holds-set q i hs (slot hs j) l,
      holds-set q j (set hs i (slot hs j)) (slot hs i) fits,
      same,
    )

pub move_assign-Keeps :
    (this other : ℕ) (s : State)
    → this < length s.handles
    → other < length s.handles
    → Inv s
    → Keeps (move_assign this other s)
unfolding move_assign
move_assign-Keeps this other s l m v = (
  set_handle (set_handle s this (handle_at s other)) other (handle_at s this),
  refl,
  record {
    sound = IsSound-handles s _ v.sound;
    balance = λ q. omega (arith, v.balance q, holds-swap q this other s.handles l m);
  },
)
