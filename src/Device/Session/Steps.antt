-- ===== src/Device/Session/Steps.antt =====
-- solutions/device_solution.cpp: a session's device is closed, handed on, or gets another callback.
use going_unmanaged.Prelude.{
  ℕ, ◌≤◌, ◌<◌, ◌≡◌, refl, ap, ◌∙◌, sym, subst, Option, none, some, Bool-cases, true, false, ◌==◌,
  ltb, ltb→lt, not_ltb→ge, ==_iff, ==_refl, ne→==, inl, inr, arith,
}
use going_unmanaged.Device.{
  DeviceHandle, Sdk, put, same, one_closed, device_close, device_set_callback,
}
use going_unmanaged.Device.Session.{Session, State, write, target, rebind, empty_session}
use going_unmanaged.Device.Session.Owned.{
  same→eq, same_refl, Owners, give, handle_of, is_some, one_if, Inv, how_many-give, expected-eq,
  apart, one_owner, other_device,
}

-- What Device_Close leaves of an open device.
abbrev pub closed : DeviceHandle → Sdk ℕ → Sdk ℕ
closed h sdk = record (put h (record (sdk.devices h) { is_open = false; callback = none }) sdk) {
  open_count = one_closed sdk.open_count;
}

pub device_close-open :
    (h : DeviceHandle) (sdk : Sdk ℕ)
    → (sdk.devices h).is_open ≡ true
    → (device_close (some h) sdk).1 ≡ closed h sdk
unfolding device_close
device_close-open h sdk e = rw (device_close, e) refl

pub release-Inv :
    (own : Owners) (p : ℕ) (h : DeviceHandle) (y : Option Session) (s : State)
    → Inv own s
    → handle_of (s.objects p) ≡ some h
    → handle_of y ≡ none
    → p < s.next
    → Inv (give h none own) (write p y (record s { sdk = closed h s.sdk }))
unfolding one_closed
release-Inv own p h y s i held idle l = record {
  forth = λ q d e. elim (Bool-cases (p == q)) [
    | inl yes' ↦ cc (rw yes' at e, idle)
    | inr other ↦
        let theirs = i.forth q d (rw other at e) in
        rw (one_owner p q h d i held theirs other) theirs
  ];
  back = λ q d e. elim (Bool-cases (same h d)) [
    | inl yes' ↦ cc (rw yes' at e)
    | inr other ↦
        let theirs : own d ≡ some q = rw other at e in
        rw (apart p q d i theirs (other_device (s.objects p) h d held other)) (i.back q d theirs)
  ];
  opened = λ d. elim (Bool-cases (same h d)) [
    | inl yes' ↦ rw yes' refl
    | inr other ↦ rw other (i.opened d)
  ];
  called = λ d. elim (Bool-cases (same h d)) [
    | inl yes' ↦ rw yes' refl
    | inr other ↦ rw other (
        i.called d
        ∙ expected-eq (own d) s (write p y (record s { sdk = closed h s.sdk }))
            (λ q e. rw (apart p q d i e (other_device (s.objects p) h d held other)) refl))
  ];
  counted =
      let one : one_if (own h) ≡ 1 = ap one_if (i.forth p h held) in
      let left = how_many-give h none own in ground (arith, i.counted, one, left);
  fresh = λ q m. rw (ne→== p q (λ e. absurd (omega arith))) (i.fresh q m);
}

-- What registering a callback leaves of the SDK.
abbrev pub registered : DeviceHandle → Option ℕ → Sdk ℕ → Sdk ℕ
registered h c sdk = put h (record (sdk.devices h) { callback = c }) sdk

pub rebind-open :
    (p : ℕ) (x : Session) (h : DeviceHandle) (s : State)
    → x.handle ≡ some h
    → (s.sdk.devices h).is_open ≡ true
    → (rebind p x s).1 ≡ record s { sdk = registered h (target p x.on_sample) s.sdk }
unfolding rebind device_set_callback
rebind-open p x h s e o = rw (rebind, e) (rw o refl)

pub rebind-idle : (p : ℕ) (x : Session) (s : State) → x.handle ≡ none → (rebind p x s).1 ≡ s
unfolding rebind
rebind-idle p x s e = rw (rebind, e) refl

pub live_lt :
    (own : Owners) (q : ℕ) (x : Session) (s : State) → Inv own s → s.objects q ≡ some x → q < s.next
live_lt own q x s i e = elim (Bool-cases (ltb q s.next)) [
  | inl y ↦ ltb→lt q s.next y
  | inr n ↦ let gone = i.fresh q (not_ltb→ge q s.next n) in cc
]

-- The state with the members of `q` in `p`, and the callback of their device bound to `p`.
abbrev pub handed_on : ℕ → ℕ → ℕ → Session → DeviceHandle → State → State
handed_on p q n x h s = record (write p (some x) (write q (some empty_session) s)) {
  next = n;
  sdk = registered h (target p x.on_sample) s.sdk;
}

pub hand_on-Inv :
    (own : Owners) (p q n : ℕ) (x : Session) (h : DeviceHandle) (s : State)
    → Inv own s
    → s.objects q ≡ some x
    → x.handle ≡ some h
    → handle_of (s.objects p) ≡ none
    → (p == q) ≡ false
    → p < n
    → s.next ≤ n
    → Inv (give h (some p) own) (handed_on p q n x h s)
hand_on-Inv own p q n x h s i at_q has idle pq l g =
    let held : handle_of (s.objects q) ≡ some h = ap handle_of at_q ∙ has in
    let was : own h ≡ some q = i.forth q h held in
    record {
      forth = λ r d e. elim (Bool-cases (p == r)) [
        | inl yes' ↦
            let mine : x.handle ≡ some d = rw yes' at e in
            let both : some h ≡ some d = sym has ∙ mine in
            let eq : h ≡ d = cc in
            let hd : same h d ≡ true = subst (λ z. same h z ≡ true) eq (same_refl h) in
            rw hd (ap some ((==_iff p r).0 yes'))
        | inr np ↦ elim (Bool-cases (q == r)) [
          | inl yes' ↦ cc (rw (np, yes') at e)
          | inr nq ↦
              let theirs : own d ≡ some r = i.forth r d (rw (np, nq) at e) in
              rw (one_owner q r h d i held theirs nq) theirs
        ]
      ];
      back = λ r d e. elim (Bool-cases (same h d)) [
        | inl yes' ↦
            let pr : some p ≡ some r = rw yes' at e in
            let agree : p ≡ r = cc in rw ((==_iff p r).1 agree) (has ∙ ap some (same→eq h d yes'))
        | inr other ↦
            let theirs : own d ≡ some r = rw other at e in
            rw
              (
                apart p r d i theirs (λ z. cc),
                apart q r d i theirs (other_device (s.objects q) h d held other),
              )
              (i.back r d theirs)
      ];
      opened = λ d. elim (Bool-cases (same h d)) [
        | inl yes' ↦ rw yes' (i.opened h ∙ ap is_some was)
        | inr other ↦ rw other (i.opened d)
      ];
      called = λ d. elim (Bool-cases (same h d)) [
        | inl yes' ↦ rw (yes', ==_refl p) refl
        | inr other ↦ rw other (
            i.called d
            ∙ expected-eq (own d) s (handed_on p q n x h s) (λ r e.
              rw
                (
                  apart p r d i e (λ z. cc),
                  apart q r d i e (other_device (s.objects q) h d held other),
                )
                refl))
      ];
      counted =
          let one : one_if (own h) ≡ 1 = ap one_if was in
          omega (arith, i.counted, one, how_many-give h (some p) own);
      fresh = λ r m.
          rw
            (
              ne→== p r (λ e. absurd (omega arith)),
              ne→== q r (λ e. absurd (omega (arith, live_lt own q x s i at_q))),
            )
            (i.fresh r (omega arith));
    }
