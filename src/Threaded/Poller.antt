-- ===== src/Threaded/Poller.antt =====
-- solutions/device_threaded_solution.cpp: every step of the poller's thread keeps the invariant, and no
-- assertion of its code fails.
use going_unmanaged.Prelude.{
  ℕ, ◌+◌, ◌≡◌, refl, ap, ◌∙◌, sym, subst, List, [], ◌∷◌, ◌++◌, Option, none, some, Bool, Bool-cases,
  true, false, ◌||◌, ltb, if◌then◌else◌, ◌==◌, ==_iff, ne→==, inl, inr,
}
use going_unmanaged.Device.{DeviceHandle, samples_from, calls_of}
use going_unmanaged.Threaded.{
  Sink, Name, Job, Phase, Main, State, k_batch, set_sink, poll_entry, trampoline, deliver,
}
use going_unmanaged.Threaded.Samples.{with_flight}
use going_unmanaged.Threaded.Invariant.{Devices, Flow, MainKnows, Places, Inv}
use going_unmanaged.Threaded.Flow.{Flow-inject, Flow-poll, Flow-drop, Flow-deliver, polled}
use going_unmanaged.Threaded.Devices.{Queue-pending, Queue-sinks}
use going_unmanaged.Threaded.Calls.{
  injected, after_poll, poll_entry-null, poll_entry-closed, poll_entry-still, poll_entry-stream,
}

-- No assertion fails; behind the step the invariant holds, and a Sink that was told is as it was.
abbrev pub Moves : (ℕ → Sink) → Option State → Type 0
Moves sinks o =
    (t : State) × (o ≡ some t) × Inv t × ((c : ℕ) → (sinks c).alive ≡ false → t.sinks c ≡ sinks c)

pub MainKnows-sinks :
    (sinks sinks' : ℕ → Sink) (sessions : Name → Option ℕ) (main : Main)
    → ((c : ℕ) → (sinks c).alive ≡ false → (sinks' c).alive ≡ false)
    → MainKnows sinks sessions main
    → MainKnows sinks' sessions main
MainKnows-sinks sinks sinks' sessions Main.ready f k = tt
MainKnows-sinks sinks sinks' sessions (Main.told n c) f k = (f c k.0, k.1)
MainKnows-sinks sinks sinks' sessions (Main.asked c) f k = f c k
MainKnows-sinks sinks sinks' sessions Main.waiting f k = tt
MainKnows-sinks sinks sinks' sessions Main.joining f k = k

-- One Sink is written, which is as dead as it was.
pub still_dead :
    (c : ℕ) (x : Sink) (sinks : ℕ → Sink)
    → ((sinks c).alive ≡ false → x.alive ≡ false)
    → (d : ℕ) → (sinks d).alive ≡ false
    → (if c == d then x else sinks d).alive ≡ false
still_dead c x sinks f d e = elim (Bool-cases (c == d)) [
  | inl y ↦ rw y (f (subst (λ z. (sinks z).alive ≡ false) (sym ((==_iff c d).0 y)) e))
  | inr n ↦ rw n e
]

pub Places-sinks :
    (sinks sinks' : ℕ → Sink) (sessions : Name → Option ℕ) (main : Main) (jobs batch : List Job)
    (stop : Bool) (phase : Phase)
    → ((c : ℕ) → (sinks c).alive ≡ false → (sinks' c).alive ≡ false)
    → Places sinks sessions main jobs batch stop phase
    → Places sinks' sessions main jobs batch stop phase
Places-sinks sinks sinks' sessions main jobs batch stop phase f p = record {
  main_knows = MainKnows-sinks sinks sinks' sessions main f p.main_knows;
  phase_knows = p.phase_knows;
  stopped = p.stopped;
  set_stop = p.set_stop;
}

abbrev dropped : State → State
dropped s = record s { in_flight = none }

abbrev given : ℕ → ℕ → State → State
given c x s =
    record (set_sink c (record (s.sinks c) { samples = (s.sinks c).samples ++ x ∷ [] }) s) {
      in_flight = none;
      delivered = s.delivered + 1;
    }

deliver-dead : (c x : ℕ) (s : State) → (s.sinks c).alive ≡ false → deliver c x s ≡ dropped s
unfolding deliver
deliver-dead c x s e = rw (deliver, e) refl

deliver-live : (c x : ℕ) (s : State) → (s.sinks c).alive ≡ true → deliver c x s ≡ given c x s
unfolding deliver
deliver-live c x s e = rw (deliver, e) refl

pub deliver-Inv : (c x : ℕ) (s : State) → s.in_flight ≡ some (c, x) → Inv s → Inv (deliver c x s)
deliver-Inv c x s e i =
    let f = subst (λ o. Flow i.lo s.sinks s.sdk.devices (with_flight o s.calls)) e i.flow in
    elim (Bool-cases (s.sinks c).alive) [
      | inl live ↦
          let keeps =
            still_dead c (record (s.sinks c) { samples = (s.sinks c).samples ++ x ∷ [] }) s.sinks
              (λ d. d) in
          subst Inv (sym (deliver-live c x s live)) (record {
            lo = i.lo;
            queue =
                Queue-sinks i.lo s.sinks s.contexts s.sessions (s.batch ++ s.jobs) s.sdk.devices
                  s.sdk.open_count s.opened (given c x s).sinks (λ d g. (g.0, keeps d g.1)) i.queue;
            flow = Flow-deliver i.lo c x s.sinks s.sdk.devices s.calls f live;
            places =
                Places-sinks s.sinks (given c x s).sinks s.sessions s.main s.jobs s.batch s.stop
                  s.phase keeps i.places;
          })
      | inr dead ↦ subst Inv (sym (deliver-dead c x s dead)) (record {
        lo = i.lo;
        queue = i.queue;
        flow = Flow-drop i.lo c x s.sinks s.sdk.devices s.calls f dead;
        places = i.places;
      })
    ]

trampoline-found :
    (c x : ℕ) (s : State)
    → ((s.sinks c).owned || ltb 0 (s.sinks c).kept) ≡ true
    → trampoline c x s ≡ record s { in_flight = some (c, x) }
unfolding trampoline
trampoline-found c x s e = rw (trampoline, e) refl

trampoline-expired :
    (c x : ℕ) (s : State)
    → ((s.sinks c).owned || ltb 0 (s.sinks c).kept) ≡ false
    → trampoline c x s ≡ s
unfolding trampoline
trampoline-expired c x s e = rw (trampoline, e) refl

or_left : (a b : Bool) → (a || b) ≡ false → a ≡ false
or_left Bool.true b e = cc
or_left Bool.false b e = refl

-- A Sink that no one has a reference to belongs to no Session that is alive.
pub trampoline-Inv :
    (c x : ℕ) (calls : List (ℕ × ℕ)) (s : State)
    → s.in_flight ≡ none
    → s.calls ≡ (c, x) ∷ calls
    → Inv s
    → Inv (trampoline c x (record s { calls = calls }))
trampoline-Inv c x calls s e k i =
    let f₀ = subst (λ o. Flow i.lo s.sinks s.sdk.devices (with_flight o s.calls)) e i.flow in
    let f = subst (Flow i.lo s.sinks s.sdk.devices) k f₀ in
    let s₁ = record s { calls = calls } in
    elim (Bool-cases ((s.sinks c).owned || ltb 0 (s.sinks c).kept)) [
      | inl y ↦
          subst Inv (sym (trampoline-found c x s₁ y))
            (record { lo = i.lo; queue = i.queue; flow = f; places = i.places })
      | inr n ↦
          let off : (s.sinks c).owned ≡ false =
            or_left (s.sinks c).owned (ltb 0 (s.sinks c).kept) n in
          let dead : (s.sinks c).alive ≡ false = elim (Bool-cases (s.sinks c).alive) [
            | inl live ↦ let on = (f c).held live in cc
            | inr d ↦ d
          ] in
          subst Inv (sym (trampoline-expired c x s₁ n)) (record {
            lo = i.lo;
            queue = i.queue;
            flow =
                subst (λ o. Flow i.lo s.sinks s.sdk.devices (with_flight o calls)) (sym e)
                  (Flow-drop i.lo c x s.sinks s.sdk.devices calls f dead);
            places = i.places;
          })
    ]

-- No call is left.
abbrev pub Quiet : State → Type 0
Quiet s = (s.in_flight ≡ none) × (s.calls ≡ [])

pub Quiet-Flow : (s : State) → Quiet s → (i : Inv s) → Flow i.lo s.sinks s.sdk.devices []
Quiet-Flow s (e, k) i =
    subst (Flow i.lo s.sinks s.sdk.devices) k
      (subst (λ o. Flow i.lo s.sinks s.sdk.devices (with_flight o s.calls)) e i.flow)

pub Quiet-back :
    (lo : ℕ) (sinks : ℕ → Sink) (devices : Devices) (t : State)
    → Quiet t
    → Flow lo sinks devices []
    → Flow lo sinks devices (with_flight t.in_flight t.calls)
Quiet-back lo sinks devices t (e, k) f =
    subst (λ o. Flow lo sinks devices (with_flight o t.calls)) (sym e)
      (subst (Flow lo sinks devices) (sym k) f)

injected-Inv : (n : Name) (s : State) → Inv s → Inv (injected n s)
injected-Inv n s i = record {
  lo = i.lo;
  queue =
      Queue-pending i.lo s.sinks s.contexts s.sessions (s.batch ++ s.jobs) s.sdk.devices
        s.sdk.open_count s.opened n ((s.sdk.devices n).pending ++ samples_from 0 k_batch) i.queue;
  flow = Flow-inject i.lo n s.sinks s.sdk.devices (with_flight s.in_flight s.calls) i.flow;
  places = i.places;
}

after_poll-Inv : (n : Name) (s : State) → Quiet s → Inv s → Inv (after_poll n s)
after_poll-Inv n s q i =
    let f =
      Flow-poll i.lo n s.sinks s.sdk.devices (Quiet-Flow s q i) (λ m c e g. (i.queue).one n m c e g)
        (λ c e. (i.queue).early n c e) in
    record {
      lo = i.lo;
      queue =
          Queue-pending i.lo s.sinks s.contexts s.sessions (s.batch ++ s.jobs) s.sdk.devices
            s.sdk.open_count s.opened n [] i.queue;
      flow =
          subst
            (λ o.
              Flow i.lo s.sinks (polled n s.sdk.devices)
                (with_flight o (calls_of (s.sdk.devices n).callback (s.sdk.devices n).pending)))
            (sym q.0) f;
      places = i.places;
    }

pub poll_entry-Inv : (h : Option DeviceHandle) (s : State) → Quiet s → Inv s → Inv (poll_entry h s)
poll_entry-Inv h s q i =
    let idle : Inv (record s { calls = [] }) = record {
      lo = i.lo;
      queue = i.queue;
      flow =
          Quiet-back i.lo s.sinks s.sdk.devices (record s { calls = [] }) (q.0, refl)
            (Quiet-Flow s q i);
      places = i.places;
    } in
    elim h as (λ k. Inv (poll_entry k s)) [
      | none ↦ subst Inv (sym (poll_entry-null s)) idle
      | some n ↦ elim (Bool-cases (s.sdk.devices n).is_open) [
        | inr shut ↦ subst Inv (sym (poll_entry-closed n s shut)) idle
        | inl on ↦ elim (Bool-cases s.stream) [
          | inl flowing ↦
              subst Inv (sym (poll_entry-stream n s on flowing))
                (after_poll-Inv n (injected n s) q (injected-Inv n s i))
          | inr still ↦ subst Inv (sym (poll_entry-still n s on still)) (after_poll-Inv n s q i)
        ]
      ]
    ]

pub deliver-sinks :
    (c x : ℕ) (s : State) (d : ℕ) → (s.sinks d).alive ≡ false → (deliver c x s).sinks d ≡ s.sinks d
deliver-sinks c x s d e = elim (Bool-cases (s.sinks c).alive) [
  | inr dead ↦ ap (λ (t : State). t.sinks d) (deliver-dead c x s dead)
  | inl live ↦
      let other : (c == d) ≡ false = ne→== c d (λ k.
        let was : (s.sinks d).alive ≡ true = subst (λ z. (s.sinks z).alive ≡ true) k live in cc) in
      ap (λ (t : State). t.sinks d) (deliver-live c x s live) ∙ rw other refl
]

pub trampoline-sinks : (c x : ℕ) (s : State) (d : ℕ) → (trampoline c x s).sinks d ≡ s.sinks d
trampoline-sinks c x s d = elim (Bool-cases ((s.sinks c).owned || ltb 0 (s.sinks c).kept)) [
  | inl y ↦ ap (λ (t : State). t.sinks d) (trampoline-found c x s y)
  | inr n ↦ ap (λ (t : State). t.sinks d) (trampoline-expired c x s n)
]

pub poll_entry-sinks : (h : Option DeviceHandle) (s : State) → (poll_entry h s).sinks ≡ s.sinks
unfolding poll_entry
poll_entry-sinks h s = refl
