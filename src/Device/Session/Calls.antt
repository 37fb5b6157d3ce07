-- ===== src/Device/Session/Calls.antt =====
-- solutions/device_solution.cpp: what a session hears, and Poll.
use going_unmanaged.Prelude.{
  ℕ, ◌≡◌, refl, ap, ◌∙◌, sym, subst, List, [], ◌∷◌, ◌++◌, append-nil, append_assoc, Option, none,
  some, Option-cases, Bool-cases, inl, inr, arith,
}
use going_unmanaged.Device.{
  DeviceHandle, DevErr, dev_ok, put, same, calls_of, inject_samples, samples_from,
}
use going_unmanaged.Device.Open.{device_poll-open}
use going_unmanaged.Device.Session.{
  Session, State, write, target, rebind, on_sample, trampoline, run_calls, poll, inject,
}
use going_unmanaged.Device.Session.Owned.{
  Owners, handle_of, function_of, expected, Inv, same→eq, expected-eq, write_idle-Inv,
}
use going_unmanaged.Device.Session.Steps.{rebind-open, rebind-idle, live_lt}
use going_unmanaged.Device.Session.Begins.{hear-Inv}
use going_unmanaged.Device.Session.Safe.{Keeps, open_of}

pub on_sample-Keeps :
    (own : Owners) (p : ℕ) (f : Option ℕ) (x : Session) (s : State)
    → Inv own s
    → s.objects p ≡ some x
    → (e : DevErr) × (s' : State) × (on_sample p f s ≡ some (e, s')) × (own' : Owners) × Inv own' s'
unfolding on_sample
on_sample-Keeps own p f x s i e =
    let y : Session = record x { on_sample = f } in
    let t = write p (some y) s in
    (
      (rebind p y t).0,
      (rebind p y t).1,
      rw (on_sample, e) refl,
      own,
      elim (Option-cases x.handle) [
        | inl idle ↦ subst (Inv own) (sym (rebind-idle p y t idle)) (
            write_idle-Inv own p s.next (some y) s i (ap handle_of e ∙ idle) idle
              (live_lt own p x s i e) (omega arith))
        | inr (h, has) ↦
            let held : handle_of (s.objects p) ≡ some h = ap handle_of e ∙ has in
            subst (Inv own) (sym (rebind-open p y h t has (open_of own p h s i held)))
              (hear-Inv own p x f h s i e has)
      ],
    )

-- Other samples, or other records of what was received, change nothing of this.
pending-Inv :
    (own : Owners) (h : DeviceHandle) (pending : List ℕ) (received : List (ℕ × ℕ)) (s : State)
    → Inv own s
    → Inv own (record s {
      sdk = put h (record (s.sdk.devices h) { pending = pending }) s.sdk;
      received = received;
    })
pending-Inv own h pending received s i = record {
  forth = i.forth;
  back = i.back;
  opened = λ d. elim (Bool-cases (same h d)) [
    | inl y ↦ rw y (ap (λ z. (s.sdk.devices z).is_open) (same→eq h d y) ∙ i.opened d)
    | inr n ↦ rw n (i.opened d)
  ];
  called = λ d. elim (Bool-cases (same h d)) [
    | inl y ↦ rw y (
        ap (λ z. (s.sdk.devices z).callback) (same→eq h d y)
        ∙ i.called d
        ∙ expected-eq (own d) s _ (λ q e. refl))
    | inr n ↦ rw n (i.called d ∙ expected-eq (own d) s _ (λ q e. refl))
  ];
  counted = i.counted;
  fresh = i.fresh;
}

-- What the function of a session is called with.
abbrev pub heard : Option ℕ → List ℕ → List (ℕ × ℕ)
heard none pending = []
heard (some f) [] = []
heard (some f) (sample ∷ pending) = (f, sample) ∷ heard (some f) pending

run_calls_lem :
    (p : ℕ) (x : Session) (f : Option ℕ) (pending : List ℕ) (s : State)
    → s.objects p ≡ some x
    → x.on_sample ≡ f
    → run_calls (calls_of (target p f) pending) s
      ≡ some (record s { received = s.received ++ heard f pending })
unfolding run_calls calls_of trampoline
run_calls_lem p x none pending s e g =
    ap (λ r. some (record s { received = r })) (sym (append-nil s.received))
run_calls_lem p x (some f) [] s e g =
    ap (λ r. some (record s { received = r })) (sym (append-nil s.received))
run_calls_lem p x (some f) (sample ∷ pending) s e g =
    let s₁ = record s { received = s.received ++ (f, sample) ∷ [] } in
    let first : trampoline sample p s ≡ some s₁ = rw (trampoline, e) (rw g refl) in
    rw (run_calls, first)
      (run_calls_lem p x (some f) pending s₁ e g
        ∙ ap (λ r. some (record s { received = r }))
            (append_assoc s.received ((f, sample) ∷ []) (heard (some f) pending)))

-- Poll of an open session calls its function with every sample that the device has, in their order, and
-- leaves none.
pub poll_lem :
    (own : Owners) (p : ℕ) (x : Session) (h : DeviceHandle) (s : State)
    → Inv own s
    → s.objects p ≡ some x
    → x.handle ≡ some h
    → poll p s ≡ (
      dev_ok,
      some (record s {
        sdk = put h (record (s.sdk.devices h) { pending = [] }) s.sdk;
        received = s.received ++ heard x.on_sample (s.sdk.devices h).pending;
      }),
    )
unfolding poll
poll_lem own p x h s i e has =
    let held : handle_of (s.objects p) ≡ some h = ap handle_of e ∙ has in
    let bound : (s.sdk.devices h).callback ≡ target p x.on_sample =
      i.called h
      ∙ ap (λ o. expected o s) (i.forth p h held)
      ∙ ap (λ o. target p (function_of o)) e in
    let polled = record s { sdk = put h (record (s.sdk.devices h) { pending = [] }) s.sdk } in
    rw (poll, e)
      (rw has (
        ap (λ t. let (e', calls, sdk) = t in (e', run_calls calls (record s { sdk = sdk })))
          (device_poll-open h s.sdk (open_of own p h s i held))
        ∙ ap (λ c. (dev_ok, run_calls (calls_of c (s.sdk.devices h).pending) polled)) bound
        ∙ ap (λ r. (dev_ok, r))
            (run_calls_lem p x x.on_sample (s.sdk.devices h).pending polled e refl)))

pub poll-Keeps :
    (own : Owners) (p : ℕ) (x : Session) (s : State)
    → Inv own s
    → s.objects p ≡ some x
    → Keeps (poll p s).1
unfolding poll
poll-Keeps own p x s i e = elim (Option-cases x.handle) [
  | inl idle ↦ (s, rw (poll, e) (rw idle refl), own, i)
  | inr (h, has) ↦ (
    _,
    ap (λ r. r.1) (poll_lem own p x h s i e has),
    own,
    pending-Inv own h [] (s.received ++ heard x.on_sample (s.sdk.devices h).pending) s i,
  )
]

pub inject-Keeps :
    (own : Owners) (p n : ℕ) (x : Session) (s : State)
    → Inv own s
    → s.objects p ≡ some x
    → Keeps (inject p n s).1
unfolding inject inject_samples
inject-Keeps own p n x s i e = elim (Option-cases x.handle) [
  | inl idle ↦ (s, rw (inject, e) (rw idle refl), own, i)
  | inr (h, has) ↦
      let held : handle_of (s.objects p) ≡ some h = ap handle_of e ∙ has in
      let more = (s.sdk.devices h).pending ++ samples_from 0 n in
      (
        record s { sdk = put h (record (s.sdk.devices h) { pending = more }) s.sdk },
        rw (inject, e) (rw has (rw (open_of own p h s i held) refl)),
        own,
        pending-Inv own h more s.received s i,
      )
]
