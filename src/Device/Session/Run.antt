-- ===== src/Device/Session/Run.antt =====
-- solutions/device_solution.cpp: sequences of operations on sessions.
use going_unmanaged.Prelude.{
  ℕ, ◌≡◌, refl, ap, subst, arith, List, [], ◌∷◌, ◌++◌, Option, none, some, Option-cases, inl, inr,
  Bytes,
}
use going_unmanaged.Device.{DeviceHandle, sensor0, sensor1, sensor2, sensor3, dev_ok, put}
use going_unmanaged.Device.Session.{
  Session, State, start, construct, destroy, move_construct, move_assign, open_session, on_sample,
  poll, inject,
}
use going_unmanaged.Device.Session.Owned.{Owners, handle_of, one_if, Inv, start-Inv}
use going_unmanaged.Device.Session.Safe.{
  Keeps, construct-Keeps, destroy-Keeps, move_construct-Keeps, move_assign-Keeps,
}
use going_unmanaged.Device.Session.Opens.{open_session-Keeps}
use going_unmanaged.Device.Session.Calls.{
  on_sample-Keeps, heard, poll_lem, poll-Keeps, inject-Keeps,
}

-- What a client may do with the sessions it has.
pub data Op : Type 0 where
  constructs : Op
  destroys moves polls : ℕ → Op
  move_assigns injects : ℕ → ℕ → Op
  opens : Bytes → ℕ → Op
  hears : ℕ → Option ℕ → Op

-- A client has no object that was not made or that is destroyed: an operation on one is left out.
abbrev pub if_live : ℕ → State → Option State → Option State
if_live p s r = elim (s.objects p) [ none ↦ some s | some x ↦ r ]

abbrev pub state_of : {A : Type 0} → Option (A × State) → Option State
state_of none = none
state_of (some (a, s)) = some s

unfoldable pub step : Op → State → Option State
step constructs s = construct s
step (destroys p) s = if_live p s (destroy p s)
step (moves q) s = if_live q s (move_construct q s)
step (move_assigns p q) s = if_live p s (if_live q s (move_assign p q s))
step (opens name out) s = if_live out s (open_session name out s).1
step (hears p f) s = if_live p s (state_of (on_sample p f s))
step (polls p) s = if_live p s (poll p s).1
step (injects p n) s = if_live p s (inject p n s).1

unfoldable pub run : List Op → State → Option State
unfolding step
run [] s = some s
run (op ∷ ops) s = elim (step op s) [ none ↦ none | some s' ↦ run ops s' ]

live-Keeps :
    (own : Owners) (p : ℕ) (s : State) (r : Option State)
    → Inv own s
    → ((x : Session) → s.objects p ≡ some x → Keeps r)
    → Keeps (if_live p s r)
live-Keeps own p s r i k = elim (Option-cases (s.objects p)) [
  | inl dead ↦ (s, rw (if_live, dead) refl, own, i)
  | inr (x, e) ↦ let (s', e', own', i') = k x e in (s', rw (if_live, e) e', own', i')
]

step-Keeps : (own : Owners) (op : Op) (s : State) → Inv own s → Keeps (step op s)
unfolding step
step-Keeps own constructs s i = construct-Keeps own s i
step-Keeps own (destroys p) s i = live-Keeps own p s _ i (λ x e. destroy-Keeps own p x s i e)
step-Keeps own (moves q) s i = live-Keeps own q s _ i (λ x e. move_construct-Keeps own q x s i e)
step-Keeps own (move_assigns p q) s i =
    live-Keeps own p s _ i
      (λ x e. live-Keeps own q s _ i (λ y e'. move_assign-Keeps own p q x y s i e e'))
step-Keeps own (opens name out) s i =
    live-Keeps own out s _ i (λ x e. open_session-Keeps own name out x s i e)
step-Keeps own (hears p f) s i = live-Keeps own p s _ i λ x e.
    let (c, s', e', own', k) = on_sample-Keeps own p f x s i e in (s', ap state_of e', own', k)
step-Keeps own (polls p) s i = live-Keeps own p s _ i (λ x e. poll-Keeps own p x s i e)
step-Keeps own (injects p n) s i = live-Keeps own p s _ i (λ x e. inject-Keeps own p n x s i e)

run-Keeps : (ops : List Op) (own : Owners) (s : State) → Inv own s → Keeps (run ops s)
unfolding run
run-Keeps [] own s i = (s, refl, own, i)
run-Keeps (op ∷ ops) own s i =
    let (s₁, e₁, own₁, i₁) = step-Keeps own op s i in
    let (s₂, e₂, own₂, i₂) = run-Keeps ops own₁ s₁ i₁ in (s₂, rw (run, e₁) e₂, own₂, i₂)

pub run_safe : (ops : List Op) → Keeps (run ops start)
run_safe ops = run-Keeps ops (λ d. none) start start-Inv

reached-Inv : (ops : List Op) (s : State) → run ops start ≡ some s → (own : Owners) × Inv own s
reached-Inv ops s e =
    let (s', e', own, i) = run_safe ops in let same : s' ≡ s = cc in (own, subst (Inv own) same i)

nobody :
    (own : Owners) (s : State) (d : DeviceHandle)
    → Inv own s
    → ((p : ℕ) → s.objects p ≡ none)
    → one_if (own d) ≡ 0
nobody own s d i gone = elim (Option-cases (own d)) [
  | inl e ↦ ap one_if e
  | inr (p, e) ↦ cc (i.back p d e, ap handle_of (gone p))
]

pub none_open :
    (ops : List Op) (s : State)
    → run ops start ≡ some s
    → ((p : ℕ) → s.objects p ≡ none)
    → s.sdk.open_count ≡ 0
none_open ops s e gone =
    let (own, i) = reached-Inv ops s e in
    omega (
      arith,
      i.counted,
      nobody own s sensor0 i gone,
      nobody own s sensor1 i gone,
      nobody own s sensor2 i gone,
      nobody own s sensor3 i gone,
    )

pub poll_delivers :
    (ops : List Op) (s : State) (p : ℕ) (x : Session) (h : DeviceHandle)
    → run ops start ≡ some s
    → s.objects p ≡ some x
    → x.handle ≡ some h
    → poll p s ≡ (
      dev_ok,
      some (record s {
        sdk = put h (record (s.sdk.devices h) { pending = [] }) s.sdk;
        received = s.received ++ heard x.on_sample (s.sdk.devices h).pending;
      }),
    )
poll_delivers ops s p x h e at has =
    let (own, i) = reached-Inv ops s e in poll_lem own p x h s i at has
