-- ===== src/Device/Session/Safe.antt =====
-- solutions/device_solution.cpp: the operations that make, move and destroy sessions.
use mathlib.Core.Path.{fun_ext}
use going_unmanaged.Prelude.{
  ℕ, ◌+◌, ◌≤◌, ◌<◌, ◌≡◌, ◌≢◌, refl, ap, ◌∙◌, sym, subst, Option, none, some, Option-cases,
  Bool-cases, true, false, ◌==◌, ==_iff, ==_refl, ne→==, inl, inr, arith,
}
use going_unmanaged.Device.{DeviceHandle, Sdk, device_close}
use going_unmanaged.Device.Session.{
  Session, State, write, make, rebind, empty_session, construct, destroy, move_construct,
  move_assign,
}
use going_unmanaged.Device.Session.Owned.{Owners, give, handle_of, is_some, Inv, write_idle-Inv}
use going_unmanaged.Device.Session.Steps.{
  closed, device_close-open, release-Inv, rebind-open, rebind-idle, live_lt, hand_on-Inv,
}

abbrev pub Keeps : Option State → Type 0
Keeps r = (s : State) × (r ≡ some s) × (own : Owners) × Inv own s

pub ne_of : (p q : ℕ) → (p == q) ≡ false → p ≢ q
ne_of p q n e = let y : (p == q) ≡ true = (==_iff p q).1 e in cc

-- A device that a session has is open.
pub open_of :
    (own : Owners) (p : ℕ) (h : DeviceHandle) (s : State)
    → Inv own s
    → handle_of (s.objects p) ≡ some h
    → (s.sdk.devices h).is_open ≡ true
open_of own p h s i e = i.opened h ∙ ap is_some (i.forth p h e)

pub construct-Keeps : (own : Owners) (s : State) → Inv own s → Keeps (construct s)
unfolding construct
construct-Keeps own s i = (
  make empty_session s,
  refl,
  own,
  write_idle-Inv own s.next (s.next + 1) (some empty_session) s i
      (ap handle_of (i.fresh s.next (omega arith))) refl (omega arith) (omega arith),
)

pub destroy-Keeps :
    (own : Owners) (p : ℕ) (x : Session) (s : State)
    → Inv own s
    → s.objects p ≡ some x
    → Keeps (destroy p s)
unfolding destroy device_close
destroy-Keeps own p x s i e = elim (Option-cases x.handle) [
  | inl idle ↦ (
    write p none s,
    rw (destroy, e) (rw idle refl),
    own,
    write_idle-Inv own p s.next none s i (ap handle_of e ∙ idle) refl (live_lt own p x s i e)
        (omega arith),
  )
  | inr (h, has) ↦
      let held : handle_of (s.objects p) ≡ some h = ap handle_of e ∙ has in
      (
        write p none (record s { sdk = closed h s.sdk }),
        rw (destroy, e) (rw has (rw (device_close-open h s.sdk (open_of own p h s i held)) refl)),
        give h none own,
        release-Inv own p h none s i held refl (live_lt own p x s i e),
      )
]

-- The members of `q` go to `p`, and their callback with them.
pub pass-Inv :
    (own : Owners) (p q n : ℕ) (x : Session) (s : State)
    → Inv own s
    → s.objects q ≡ some x
    → handle_of (s.objects p) ≡ none
    → (p == q) ≡ false
    → p < n
    → s.next ≤ n
    → (own' : Owners) × Inv own'
        (rebind p x (record (write p (some x) (write q (some empty_session) s)) { next = n })).1
pass-Inv own p q n x s i e free pq l g = elim (Option-cases x.handle) [
  | inl idle ↦
      let s₁ = write q (some empty_session) s in
      let i₁ : Inv own s₁ =
        write_idle-Inv own q s.next (some empty_session) s i (ap handle_of e ∙ idle) refl
          (live_lt own q x s i e) (omega arith) in
      let free₁ : handle_of (s₁.objects p) ≡ none =
        rw (ne→== q p (λ z. ne_of p q pq (sym z))) free in
      (
        own,
        subst (Inv own) (sym (rebind-idle p x _ idle))
            (write_idle-Inv own p n (some x) s₁ i₁ free₁ idle l g),
      )
  | inr (h, has) ↦
      let held : handle_of (s.objects q) ≡ some h = ap handle_of e ∙ has in
      (
        give h (some p) own,
        subst (Inv (give h (some p) own)) (sym (rebind-open p x h _ has (open_of own q h s i held)))
            (hand_on-Inv own p q n x h s i e has free pq l g),
      )
]

pub move_construct-Keeps :
    (own : Owners) (q : ℕ) (x : Session) (s : State)
    → Inv own s
    → s.objects q ≡ some x
    → Keeps (move_construct q s)
unfolding move_construct
move_construct-Keeps own q x s i e =
    let free : handle_of (s.objects s.next) ≡ none = ap handle_of (i.fresh s.next (omega arith)) in
    let apart' : (s.next == q) ≡ false =
      ne→== s.next q (λ z. absurd (omega (arith, live_lt own q x s i e))) in
    let (own', i') =
      pass-Inv own s.next q (s.next + 1) x s i e free apart' (omega arith) (omega arith) in
    (
      (rebind s.next x (make x (write q (some empty_session) s))).1,
      rw (move_construct, e) refl,
      own',
      i',
    )

-- What the SDK is once a session has closed its device, if it has one.
unfoldable pub let_go : Option DeviceHandle → Sdk ℕ → Sdk ℕ
let_go h sdk = (device_close h sdk).1

pub let_go-Inv :
    (own : Owners) (p : ℕ) (x : Session) (s : State)
    → Inv own s
    → s.objects p ≡ some x
    → (own' : Owners) × Inv own'
        (write p (some empty_session) (record s { sdk = let_go x.handle s.sdk }))
unfolding let_go device_close
let_go-Inv own p x s i e = elim (Option-cases x.handle) [
  | inl idle ↦ (
    own,
    rw idle (
        write_idle-Inv own p s.next (some empty_session) s i (ap handle_of e ∙ idle) refl
          (live_lt own p x s i e) (omega arith)),
  )
  | inr (h, has) ↦
      let held : handle_of (s.objects p) ≡ some h = ap handle_of e ∙ has in
      (
        give h none own,
        rw has (
            rw (device_close-open h s.sdk (open_of own p h s i held))
              (release-Inv own p h (some empty_session) s i held refl (live_lt own p x s i e))),
      )
]

overwritten :
    (p q : ℕ) (x y z : Option Session) (s : State)
    → write p x (write q y (write p z s)) ≡ write p x (write q y s)
overwritten p q x y z s =
    ap (λ o. record s { objects = o })
      (fun_ext λ r. elim (Bool-cases (p == r)) [ inl yes' ↦ rw yes' refl | inr n ↦ rw n refl ])

pub move_assign-Keeps :
    (own : Owners) (p q : ℕ) (x y : Session) (s : State)
    → Inv own s
    → s.objects p ≡ some x
    → s.objects q ≡ some y
    → Keeps (move_assign p q s)
unfolding move_assign let_go
move_assign-Keeps own p q x y s i ep eq = elim (Bool-cases (p == q)) [
  | inl yes' ↦ (s, rw (move_assign, ep) (rw eq (rw yes' refl)), own, i)
  | inr n ↦
      let (own₁, i₁) = let_go-Inv own p x s i ep in
      let s₁ = write p (some empty_session) (record s { sdk = let_go x.handle s.sdk }) in
      let at_q : s₁.objects q ≡ some y = rw n eq in
      let idle : handle_of (s₁.objects p) ≡ none = rw (==_refl p) refl in
      let (own₂, i₂) =
        pass-Inv own₁ p q s.next y s₁ i₁ at_q idle n (live_lt own p x s i ep) (omega arith) in
      let base = record s { sdk = let_go x.handle s.sdk } in
      let same' = overwritten p q (some y) (some empty_session) (some empty_session) base in
      (
        (rebind p y (write p (some y) (write q (some empty_session) base))).1,
        rw (move_assign, ep) (rw eq (rw n refl)),
        own₂,
        subst (λ t. Inv own₂ (rebind p y t).1) same' i₂,
      )
]
