-- ===== src/RefCount/Safe.antt =====
-- exercises/comlab: no operation of a client that keeps its pointers in handles fails, and what is
-- left alive when it has let go.
use going_unmanaged.Prelude.{
  ℕ, zero, suc, ◌<◌, ◌≡◌, refl, ap, ◌∙◌, subst, List, [], ◌∷◌, Option, none, some, arith, get_elem?,
}
use going_unmanaged.RefCount.{Thing, State}
use going_unmanaged.RefCount.Store.{refs_at, count_live, alive}
use going_unmanaged.RefCount.Handles.{Op, run, start, handle_at, slot}
use going_unmanaged.RefCount.Balance.{Inv, holds, own}
use going_unmanaged.RefCount.Copies.{Keeps, held_pos, count-entries}
use going_unmanaged.RefCount.Leak.{step-Keeps}

start-Inv : Inv start
unfolding start count_live
start-Inv = record {
  sound = record { counted = refl; positive = λ p t e. cc };
  balance = λ q. refl;
}

run-Keeps : (os : List Op) (s : State) → Inv s → Keeps (run os s)
unfolding run
run-Keeps [] s v = (s, refl, v)
run-Keeps (o ∷ os) s v =
    let (s₁, e₁, v₁) = step-Keeps o s v in
    let (s₂, e₂, v₂) = run-Keeps os s₁ v₁ in (s₂, rw (run, e₁) e₂, v₂)

-- Any sequence of the host's setup and shutdown, Thing_Acquire and Project_PeekActive into a handle, and
-- ThingHandle operations runs through without touching a freed Thing, and leaves a state in which each
-- Thing's count is the number of its table entries and of the handles that hold it.
pub run_balanced : (os : List Op) → (s : State) × (run os start ≡ some s) × Inv s
run_balanced os = run-Keeps os start start-Inv

reached-Inv : (os : List Op) (s : State) → run os start ≡ some s → Inv s
reached-Inv os s e =
    let (s₁, e₁, v₁) = run_balanced os in let same : s₁ ≡ s = cc in subst Inv same v₁

-- After any sequence of operations that ran through, the pointer in a handle that holds one is to a
-- Thing that has not been freed.
pub no_dangling_handle :
    (os : List Op) (s : State) (i p : ℕ)
    → run os start ≡ some s
    → handle_at s i ≡ some p
    → (t : Thing) × (get_elem? s.things p ≡ some (some t))
no_dangling_handle os s i p e h = alive s.things p (held_pos s i (reached-Inv os s e) p h)

-- When the table is released and every handle is empty, no Thing is alive.
none_alive :
    (ts : List (Option Thing))
    → ((p : ℕ) (t : Thing) → get_elem? ts p ≡ some (some t) → 0 < t.refs)
    → ((p : ℕ) → refs_at ts p ≡ 0)
    → count_live ts ≡ 0
unfolding count_live
none_alive [] pos zeros = refl
none_alive (none ∷ ts) pos zeros = none_alive ts (λ p t e. pos (suc p) t e) (λ p. zeros (suc p))
none_alive (some t ∷ ts) pos zeros = absurd (omega (arith, pos zero t refl, zeros zero))

holds_nothing : (q : ℕ) (hs : List (Option ℕ)) → ((i : ℕ) → slot hs i ≡ none) → holds q hs ≡ 0
holds_nothing q [] z = refl
holds_nothing q (h ∷ hs) z = omega (arith, ap (own q) (z zero), holds_nothing q hs (λ i. z (suc i)))

-- After any sequence of operations that ran through, if the project has been released and no handle
-- holds a pointer, then `g_live`, the number of leaked Things, is zero.
pub no_leak :
    (os : List Op) (s : State)
    → run os start ≡ some s
    → s.table ≡ none
    → ((i : ℕ) → handle_at s i ≡ none)
    → s.live ≡ 0
no_leak os s e t z =
    let v = reached-Inv os s e in
    v.sound.counted
    ∙ none_alive s.things v.sound.positive λ q. omega (
      arith,
      v.balance q,
      holds_nothing q s.handles z,
      count-entries (record s { table = none }) s t q,
    )
