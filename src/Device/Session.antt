-- ===== src/Device/Session.antt =====
-- solutions/device_solution.cpp: DeviceSession. An object is a number, and those not yet made or already
-- destroyed are `none`, as is what the source does with one of those, which is undefined. The `ctx` of
-- every callback is the object that `this` was. A std::function is its number; what it is called with is
-- written down.
pub mod Owned
pub mod Steps
pub mod Begins
pub mod Safe
pub mod Opens
pub mod Calls
pub mod Run
use going_unmanaged.Prelude.{
  ℕ, ◌+◌, List, [], ◌∷◌, ◌++◌, Option, none, some, Bool, true, false, if◌then◌else◌, ◌==◌, Bytes,
}
use going_unmanaged.Device.{
  DeviceHandle, DevErr, dev_ok, dev_closed, Sdk, closed_sdk, device_open, device_close,
  device_set_callback, device_poll, inject_samples,
}

pub record Session : Type 0 where
  pub handle : Option DeviceHandle
  pub on_sample : Option ℕ

abbrev pub empty_session : Session
empty_session = record { handle = none; on_sample = none }

pub record State : Type 0 where
  pub sdk : Sdk ℕ
  pub objects : ℕ → Option Session
  pub next : ℕ
  pub received : List (ℕ × ℕ)

unfoldable pub start : State
unfolding closed_sdk
start = record { sdk = closed_sdk; objects = λ p. none; next = 0; received = [] }

abbrev pub write : ℕ → Option Session → State → State
write p x s = record s { objects = λ q. if p == q then x else s.objects q }

-- A new object.
abbrev pub make : Session → State → State
make x s = record s {
  objects = λ q. if s.next == q then some x else s.objects q;
  next = s.next + 1;
}

-- The context that Rebind registers: the object, if it has a function to call.
abbrev pub target : ℕ → Option ℕ → Option ℕ
target p none = none
target p (some f) = some p

-- Rebind, on an object whose members are these.
unfoldable pub rebind : ℕ → Session → State → DevErr × State
unfolding device_set_callback
rebind p x s = elim x.handle [
  | none ↦ (dev_ok, s)
  | some h ↦
      let (e, sdk) = device_set_callback (some h) (target p x.on_sample) s.sdk in
      (e, record s { sdk = sdk })
]

-- The default constructor.
unfoldable pub construct : State → Option State
construct s = some (make empty_session s)

-- The destructor.
unfoldable pub destroy : ℕ → State → Option State
unfolding device_close
destroy this s = elim (s.objects this) [
  | none ↦ none
  | some x ↦
      let (e, sdk) = device_close x.handle s.sdk in some (write this none (record s { sdk = sdk }))
]

-- The move constructor; a std::function that was moved from is empty.
unfoldable pub move_construct : ℕ → State → Option State
unfolding rebind
move_construct other s = elim (s.objects other) [
  | none ↦ none
  | some x ↦ let (e, s') = rebind s.next x (make x (write other (some empty_session) s)) in some s'
]

unfoldable pub move_assign : ℕ → ℕ → State → Option State
unfolding rebind device_close
move_assign this other s = elim (s.objects this) [
  | none ↦ none
  | some mine ↦ elim (s.objects other) [
    | none ↦ none
    | some x ↦
        if this == other
        then some s
        else (let (e, sdk) = device_close mine.handle s.sdk in
            let (e', s') =
              rebind this x
                (write this (some x) (write other (some empty_session) (record s { sdk = sdk }))) in
            some s')
  ]
]

-- DeviceSession::Open. The session made of the handle is an object of its own, which is moved from and
-- then destroyed.
unfoldable pub open_session : Bytes → ℕ → State → DevErr × Option State
unfolding device_open move_assign destroy
open_session name out s =
    let (e, h, sdk) = device_open (some name) true s.sdk in
    elim h [
      | none ↦ (e, some s)
      | some d ↦
          let made = make (record { handle = some d; on_sample = none }) (record s { sdk = sdk }) in
          (dev_ok, elim (move_assign out s.next made) [ none ↦ none | some s' ↦ destroy s.next s' ])
    ]

unfoldable pub on_sample : ℕ → Option ℕ → State → Option (DevErr × State)
unfolding rebind
on_sample this f s = elim (s.objects this) [
  | none ↦ none
  | some x ↦ let y = record x { on_sample = f } in some (rebind this y (write this (some y) s))
]

-- Trampoline.
unfoldable pub trampoline : ℕ → ℕ → State → Option State
trampoline sample ctx s = elim (s.objects ctx) [
  | none ↦ none
  | some x ↦ elim x.on_sample [
    | none ↦ some s
    | some f ↦ some (record s { received = s.received ++ (f, sample) ∷ [] })
  ]
]

unfoldable pub run_calls : List (ℕ × ℕ) → State → Option State
unfolding trampoline
run_calls [] s = some s
run_calls ((ctx, sample) ∷ calls) s = elim (trampoline sample ctx s) [
  | none ↦ none
  | some s' ↦ run_calls calls s'
]

unfoldable pub poll : ℕ → State → DevErr × Option State
unfolding device_poll run_calls
poll this s = elim (s.objects this) [
  | none ↦ (dev_closed, none)
  | some x ↦ elim x.handle [
    | none ↦ (dev_closed, some s)
    | some h ↦
        let (e, calls, sdk) = device_poll (some h) s.sdk in
        (e, run_calls calls (record s { sdk = sdk }))
  ]
]

unfoldable pub inject : ℕ → ℕ → State → DevErr × Option State
unfolding inject_samples
inject this n s = elim (s.objects this) [
  | none ↦ (dev_closed, none)
  | some x ↦ elim x.handle [
    | none ↦ (dev_closed, some s)
    | some h ↦ let (e, sdk) = inject_samples (some h) n s.sdk in (e, some (record s { sdk = sdk }))
  ]
]
