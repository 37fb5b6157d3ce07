-- ===== src/Device/Session/Opens.antt =====
-- solutions/device_solution.cpp: DeviceSession::Open.
use going_unmanaged.Prelude.{
  ℕ, ◌+◌, ◌≡◌, refl, ap, ◌∙◌, sym, [], Option, none, some, Option-cases, Bool-cases, true, false,
  ◌==◌, ==_refl, ne→==, inl, inr, arith, Bytes,
}
use going_unmanaged.Device.{DeviceHandle, Sdk, DevErr, dev_ok, put, index_of, device_open}
use going_unmanaged.Device.Session.{
  Session, State, write, make, rebind, empty_session, destroy, move_assign, open_session,
}
use going_unmanaged.Device.Session.Owned.{Owners, give, Inv}
use going_unmanaged.Device.Session.Steps.{live_lt}
use going_unmanaged.Device.Session.Begins.{opened_for, open-Inv}
use going_unmanaged.Device.Session.Safe.{Keeps, let_go, destroy-Keeps, move_assign-Keeps}

rebind-objects : (p : ℕ) (x : Session) (s : State) → (rebind p x s).1.objects ≡ s.objects
unfolding rebind
rebind-objects p x s = elim (Option-cases x.handle) [
  | inl idle ↦ rw (rebind, idle) refl
  | inr (h, has) ↦ rw (rebind, has) refl
]

-- What a move leaves in the session that was moved from.
moved_from :
    (p q : ℕ) (x y : Session) (s s' : State)
    → s.objects p ≡ some x
    → s.objects q ≡ some y
    → (p == q) ≡ false
    → move_assign p q s ≡ some s'
    → s'.objects q ≡ some empty_session
unfolding move_assign let_go
moved_from p q x y s s' ep eq n e =
    let base = record s { sdk = let_go x.handle s.sdk } in
    let t = write p (some y) (write q (some empty_session) base) in
    let run : move_assign p q s ≡ some ((rebind p y t).1) =
      rw (move_assign, ep) (rw eq (rw n refl)) in
    let same' : (rebind p y t).1 ≡ s' = cc in
    let there : t.objects q ≡ some empty_session = rw (n, ==_refl q) refl in
    ap (λ u. u.objects q) (sym same') ∙ ap (λ o. o q) (rebind-objects p y t) ∙ there

-- What a session is made of an open device, moved to `out`, and destroyed.
opened-Keeps :
    (own : Owners) (out : ℕ) (x : Session) (h : DeviceHandle) (s : State)
    → Inv own s
    → s.objects out ≡ some x
    → (s.sdk.devices h).is_open ≡ false
    → Keeps (elim (move_assign out s.next (opened_for h s)) as (λ r. Option State) [
      | none ↦ none
      | some s' ↦ destroy s.next s'
    ])
opened-Keeps own out x h s i e shut =
    let made = opened_for h s in
    let fits = live_lt own out x s i e in
    let n : (s.next == out) ≡ false = ne→== s.next out (λ z. absurd (omega arith)) in
    let n' : (out == s.next) ≡ false = ne→== out s.next (λ z. absurd (omega arith)) in
    let at_out : made.objects out ≡ some x = rw n e in
    let at_new : made.objects s.next ≡ some (record { handle = some h; on_sample = none }) =
      rw (==_refl s.next) refl in
    let (s₁, e₁, own₁, i₁) =
      move_assign-Keeps (give h (some (s.next)) own) out s.next x _ made (open-Inv own h s i shut)
        at_out at_new in
    let left = moved_from out s.next x _ made s₁ at_out at_new n' e₁ in
    let (s₂, e₂, own₂, i₂) = destroy-Keeps own₁ s.next empty_session s₁ i₁ left in
    (s₂, rw e₁ e₂, own₂, i₂)

device_open-shut :
    (name : Bytes) (h : DeviceHandle) (sdk : Sdk ℕ)
    → index_of name ≡ some h
    → (sdk.devices h).is_open ≡ false
    → device_open (some name) true sdk ≡ (
      dev_ok,
      some h,
      record (put h (record { is_open = true; callback = none; pending = [] }) sdk) {
        open_count = sdk.open_count + 1;
      },
    )
unfolding device_open
device_open-shut name h sdk w shut = rw (device_open, w) (rw shut refl)

open_session-shut :
    (name : Bytes) (out : ℕ) (h : DeviceHandle) (s : State)
    → index_of name ≡ some h
    → (s.sdk.devices h).is_open ≡ false
    → (open_session name out s).1
      ≡ elim (move_assign out s.next (opened_for h s)) as (λ r. Option State) [
        | none ↦ none
        | some s' ↦ destroy s.next s'
      ]
unfolding open_session
open_session-shut name out h s w shut =
    ap
      (λ t.
        let (e, d, sdk) = t in
        (elim d as (λ z. DevErr × Option State) [
          | none ↦ (e, some s)
          | some d ↦
              let made =
                make (record { handle = some d; on_sample = none }) (record s { sdk = sdk }) in
              (
                dev_ok,
                elim (move_assign out s.next made) as (λ r. Option State) [
                  | none ↦ none
                  | some s' ↦ destroy s.next s'
                ],
              )
        ]).1)
      (device_open-shut name h s.sdk w shut)

pub open_session-Keeps :
    (own : Owners) (name : Bytes) (out : ℕ) (x : Session) (s : State)
    → Inv own s
    → s.objects out ≡ some x
    → Keeps (open_session name out s).1
unfolding open_session device_open
open_session-Keeps own name out x s i e = elim (Option-cases (index_of name)) [
  | inl w ↦ (s, rw (open_session, w) refl, own, i)
  | inr (h, w) ↦ elim (Bool-cases (s.sdk.devices h).is_open) [
    | inl busy ↦ (s, rw (open_session, w) (rw busy refl), own, i)
    | inr shut ↦
        let (s', e', own', i') = opened-Keeps own out x h s i e shut in
        (s', open_session-shut name out h s w shut ∙ e', own', i')
  ]
]
