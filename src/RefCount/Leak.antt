-- ===== src/RefCount/Leak.antt =====
-- exercises/comlab: a plug-in that keeps each pointer in a ThingHandle neither touches a freed Thing
-- nor leaks one.
use going_unmanaged.Prelude.{
  ◌>>=◌, ℕ, ◌≤◌, ◌<◌, ◌≡◌, refl, Option, none, some, arith, ltb, ltb→lt, get_elem?, length,
  Bool-cases, Option-cases, inl, inr, true,
}
use going_unmanaged.RefCount.{
  State, entries, thing_acquire, project_peek_active, release_project, make_things, setup, shutdown,
}
use going_unmanaged.RefCount.Store.{IsSound, refs_at, thing_retain_lem}
use going_unmanaged.RefCount.Handles.{
  add_handle, adopt, Op, acquire, peek, copies, assigns, moves, move_assigns, destroys, setups,
  shutdowns, adopt_acquired, with_variable, step,
}
use going_unmanaged.RefCount.Balance.{
  Inv, count, holds, holds-append, release_entries_lem, make_things_lem,
}
use going_unmanaged.RefCount.Copies.{
  entry_pos, IsSound-handles, IsSound-table, share-Keeps, copy_construct-Keeps, count-entries,
  destroy-Keeps, copy_assign-Keeps, move_construct-Keeps, move_assign-Keeps, Keeps,
}

-- Thing_Acquire leaves one more reference at what it wrote, for the handle that adopts it.
acquire-Keeps :
    (index : ℕ) (s : State) → Inv s → Keeps (thing_acquire index true s >>= adopt_acquired)
unfolding thing_acquire adopt
acquire-Keeps index s v = elim (Option-cases (get_elem? (entries s) index)) [
  | inl missing ↦ (s, rw missing, v)
  | inr (p, e) ↦
      let (n, s₁, e₁, r) = thing_retain_lem s p v.sound (entry_pos s index p v e) in
      (
        add_handle s₁ (some p),
        rw e (rw e₁),
        record {
          sound = IsSound-handles s₁ _ r.sound;
          balance = λ q.
              rw (r.same_table, r.same_handles)
                (omega (arith, v.balance q, r.refs q, holds-append q s.handles (some p)));
        },
      )
]

entries-le-refs : (s : State) → Inv s → (q : ℕ) → count q (entries s) ≤ refs_at s.things q
entries-le-refs s v q = omega (arith, v.balance q)

-- release_project gives back a reference for each entry, and the table is gone.
release_project-Keeps :
    (s : State)
    → Inv s
    → (s' : State) × (release_project s ≡ some s')
      × IsSound s'
      × ((q : ℕ) → refs_at s'.things q ≡ holds q s'.handles)
      × (s'.table ≡ none)
unfolding release_project
release_project-Keeps s v =
    let (s₁, e₁, r) = release_entries_lem (entries s) s v.sound (entries-le-refs s v) in
    (
      record s₁ { table = none },
      rw (release_project, e₁) refl,
      IsSound-table s₁ none s₁.active r.sound,
      (λ q. rw r.same_handles (omega (arith, v.balance q, r.refs q))),
      refl,
    )

-- Each new Thing stands in the new table once, with one reference.
setup_things-Inv :
    (n a : ℕ) (s : State)
    → IsSound s
    → ((q : ℕ) → refs_at s.things q ≡ holds q s.handles)
    → Inv (record (make_things 0 n s).1 { table = some (make_things 0 n s).0; active = a })
setup_things-Inv n a s i b =
    let r = make_things_lem 0 n s i in
    record {
      sound = IsSound-table (make_things 0 n s).1 _ a r.sound;
      balance = λ q. rw r.same_handles (omega (arith, r.refs q, b q));
    }

setup-Keeps : (n a : ℕ) (s : State) → Inv s → Keeps (setup n a s)
unfolding setup
setup-Keeps n a s v =
    let (s₁, e₁, i₁, b₁, none₁) = release_project-Keeps s v in
    (
      record (make_things 0 n s₁).1 { table = some (make_things 0 n s₁).0; active = a },
      rw (setup, e₁) refl,
      setup_things-Inv n a s₁ i₁ b₁,
    )

shutdown-Keeps : (s : State) → Inv s → Keeps (shutdown s)
unfolding shutdown
shutdown-Keeps s v =
    let (s₁, e₁, i₁, b₁, none₁) = release_project-Keeps s v in
    (
      s₁,
      e₁,
      record {
        sound = i₁;
        balance = λ q. omega (arith, b₁ q, count-entries (record s₁ { table = none }) s₁ none₁ q);
      },
    )

guarded :
    (i : ℕ) (s : State) (r : Option State)
    → Inv s
    → (i < length s.handles → Keeps r)
    → Keeps (with_variable i s r)
guarded i s r v k = elim (Bool-cases (ltb i (length s.handles))) [
  | inl y ↦ let (s', e, w) = k (ltb→lt i (length s.handles) y) in (s', rw y e, w)
  | inr n ↦ (s, rw n, v)
]

pub step-Keeps : (o : Op) (s : State) → Inv s → Keeps (step o s)
unfolding step project_peek_active
step-Keeps (acquire index) s v = acquire-Keeps index s v
step-Keeps peek s v = share-Keeps (project_peek_active s) s v (λ p e. entry_pos s s.active p v e)
step-Keeps (copies other) s v = copy_construct-Keeps other s v
step-Keeps (assigns this other) s v = guarded this s _ v (λ l. copy_assign-Keeps this other s l v)
step-Keeps (moves other) s v = move_construct-Keeps other s v
step-Keeps (move_assigns this other) s v =
    guarded this s _ v (λ l. guarded other s _ v (λ m. move_assign-Keeps this other s l m v))
step-Keeps (destroys this) s v = destroy-Keeps this s v
step-Keeps (setups n a) s v = setup-Keeps n a s v
step-Keeps shutdowns s v = shutdown-Keeps s v
