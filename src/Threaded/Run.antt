-- ===== src/Threaded/Run.antt =====
-- solutions/device_threaded_solution.cpp: Poller::Run, and what is true at its end.
use going_unmanaged.Prelude.{
  ℕ, ◌≡◌, refl, ap, ◌∙◌, sym, subst, List, [], ◌∷◌, ◌++◌, append-nil, Option, none, some,
  Bool-cases, Option-cases, ◌⊎◌, inl, inr, arith,
}
use going_unmanaged.Device.{DeviceHandle, sensor0, sensor1, sensor2, sensor3}
use going_unmanaged.Device.Session.Owned.{one_if}
use going_unmanaged.Threaded.{
  Name, Job, Phase, State, joining, testing, swapping, running, last_swap, last_run, finished,
  entries, run_job, deliver, trampoline, poll_entry, run_phase, poller,
}
use going_unmanaged.Threaded.Invariant.{Linked, Queue, MainKnows, PhaseKnows, Places, Inv}
use going_unmanaged.Threaded.Poller.{
  Moves, Quiet, deliver-Inv, trampoline-Inv, poll_entry-Inv, deliver-sinks, trampoline-sinks,
  poll_entry-sinks,
}
use going_unmanaged.Threaded.Jobs.{run_job-Moves}

pub list_cases : {A : Type 0} (xs : List A) → (xs ≡ []) ⊎ ((x : A) × (r : List A) × (xs ≡ x ∷ r))
list_cases [] = inl refl
list_cases (x ∷ r) = inr (x, r, refl)

no_events :
    (lo : ℕ) (s : State) (js : List Job)
    → s.main ≡ joining
    → js ≡ []
    → Queue lo s.sinks s.contexts s.sessions js s.sdk.devices s.sdk.open_count s.opened
    → Places s.sinks s.sessions s.main s.jobs s.batch s.stop s.phase
    → (n : Name) → (s.sdk.devices n).callback ≡ none
no_events lo s js m e q p n =
    let q₀ =
      subst (λ z. Queue lo s.sinks s.contexts s.sessions z s.sdk.devices s.sdk.open_count s.opened)
        e q in
    let gone = subst (MainKnows s.sinks s.sessions) m p.main_knows in q₀.plan n ∙ gone n

-- When no job is left and none can come, every device is closed.
pub all_closed :
    (s : State)
    → Inv s
    → s.main ≡ joining
    → s.jobs ≡ []
    → s.batch ≡ []
    → ((n : Name) → s.opened n ≡ none) × (s.sdk.open_count ≡ 0)
all_closed s i m j b =
    let shut =
      no_events i.lo s (s.batch ++ s.jobs) m (ap (λ z. z ++ s.jobs) b ∙ j) i.queue i.places in
    (
      λ n.
          (subst (λ o. Linked n o (s.opened n) (s.sdk.devices n).is_open) (shut n)
            ((i.queue).linked n)).0,
      let one = λ (n : Name). ap one_if (shut n) in
          omega (arith, (i.queue).counted, one sensor0, one sensor1, one sensor2, one sensor3),
    )

pub entries-none :
    (f : Name → Option (Option DeviceHandle)) → ((n : Name) → f n ≡ none) → entries f ≡ []
unfolding entries
entries-none f h = rw (h sensor0, h sensor1, h sensor2, h sensor3) refl

swapped :
    (s : State) (phase : Phase)
    → s.batch ≡ []
    → (i : Inv s) → PhaseKnows s.main [] s.jobs phase
    → Inv (record s { batch = s.jobs; jobs = []; phase = phase })
swapped s phase b i k = record {
  lo = i.lo;
  queue =
      subst
        (λ z. Queue i.lo s.sinks s.contexts s.sessions z s.sdk.devices s.sdk.open_count s.opened)
        (ap (λ z. z ++ s.jobs) b ∙ sym (append-nil s.jobs)) i.queue;
  flow = i.flow;
  places = record {
    main_knows = (i.places).main_knows;
    phase_knows = k;
    stopped = (i.places).stopped;
    set_stop = (i.places).set_stop;
  };
}

entered :
    (s : State) (phase : Phase) (polls : List (Option DeviceHandle)) (i : Inv s)
    → PhaseKnows s.main s.jobs s.batch phase
    → Inv (record s { polls = polls; phase = phase })
entered s phase polls i k = record {
  lo = i.lo;
  queue = i.queue;
  flow = i.flow;
  places = record {
    main_knows = (i.places).main_knows;
    phase_knows = k;
    stopped = (i.places).stopped;
    set_stop = (i.places).set_stop;
  };
}

run_phase-Moves :
    (p : Phase) (s : State)
    → s.phase ≡ p
    → s.polls ≡ []
    → s.batch ≡ []
    → Inv s
    → Moves s.sinks (run_phase p s)
unfolding run_phase
run_phase-Moves testing s e z b i = elim (Bool-cases s.stop) [
  | inl y ↦ (
    record s { phase = last_swap },
    rw (run_phase, y) refl,
    entered s last_swap s.polls i ((i.places).stopped y),
    λ d g. refl,
  )
  | inr n ↦ (
    record s { phase = swapping },
    rw (run_phase, n) refl,
    entered s swapping s.polls i tt,
    λ d g. refl,
  )
]
run_phase-Moves swapping s e z b i = (
  record s { batch = s.jobs; jobs = []; phase = running },
  refl,
  swapped s running b i tt,
  λ d g. refl,
)
run_phase-Moves running s e z b i = (
  record s { polls = entries s.opened; phase = testing },
  refl,
  entered s testing (entries s.opened) i tt,
  λ d g. refl,
)
run_phase-Moves last_swap s e z b i =
    let k = subst (PhaseKnows s.main s.jobs s.batch) e (i.places).phase_knows in
    (
      record s { batch = s.jobs; jobs = []; phase = last_run },
      refl,
      swapped s last_run b i (k, refl),
      λ d g. refl,
    )
run_phase-Moves last_run s e z b i =
    let (m, j) = subst (PhaseKnows s.main s.jobs s.batch) e (i.places).phase_knows in
    let shut = entries-none s.opened (all_closed s i m j b).0 in
    (
      record s { phase = finished },
      rw (run_phase, shut) refl,
      entered s finished s.polls i (m, j, b),
      λ d g. refl,
    )
run_phase-Moves finished s e z b i = (s, refl, i, λ d g. refl)

-- What `poller` does, by what is left to do.
pub poller-in_flight :
    (s : State) (c x : ℕ) (o : Option State)
    → s.in_flight ≡ some (c, x)
    → some (deliver c x s) ≡ o
    → poller s ≡ o
unfolding poller
poller-in_flight s c x o e eq = rw (poller, e) eq

pub poller-calls :
    (s : State) (c x : ℕ) (calls : List (ℕ × ℕ)) (o : Option State)
    → s.in_flight ≡ none
    → s.calls ≡ (c, x) ∷ calls
    → some (trampoline c x (record s { calls = calls })) ≡ o
    → poller s ≡ o
unfolding poller
poller-calls s c x calls o e k eq = rw (poller, e) (rw k eq)

pub poller-polls :
    (s : State) (h : Option DeviceHandle) (polls : List (Option DeviceHandle)) (o : Option State)
    → Quiet s
    → s.polls ≡ h ∷ polls
    → some (poll_entry h (record s { polls = polls })) ≡ o
    → poller s ≡ o
unfolding poller
poller-polls s h polls o (e, k) p eq = rw (poller, e) (rw k (rw p eq))

pub poller-batch :
    (s : State) (job : Job) (batch : List Job) (o : Option State)
    → Quiet s
    → s.polls ≡ []
    → s.batch ≡ job ∷ batch
    → run_job job (record s { batch = batch }) ≡ o
    → poller s ≡ o
unfolding poller
poller-batch s job batch o (e, k) p b eq = rw (poller, e) (rw k (rw p (rw b eq)))

pub poller-phase :
    (s : State) (o : Option State)
    → Quiet s
    → s.polls ≡ []
    → s.batch ≡ []
    → run_phase s.phase s ≡ o
    → poller s ≡ o
unfolding poller
poller-phase s o (e, k) p b eq = rw (poller, e) (rw k (rw p (rw b eq)))

-- No assertion of the poller's code fails.
pub poller-Moves : (s : State) → Inv s → Moves s.sinks (poller s)
poller-Moves s i = elim (Option-cases s.in_flight) [
  | inr ((c, x), e) ↦ (
    deliver c x s,
    poller-in_flight s c x (some (deliver c x s)) e refl,
    deliver-Inv c x s e i,
    deliver-sinks c x s,
  )
  | inl e ↦ elim (list_cases s.calls) [
    | inr ((c, x), calls, k) ↦
        let t = trampoline c x (record s { calls = calls }) in
        (
          t,
          poller-calls s c x calls (some t) e k refl,
          trampoline-Inv c x calls s e k i,
          λ d g. trampoline-sinks c x (record s { calls = calls }) d,
        )
    | inl k ↦ elim (list_cases s.polls) [
      | inr (h, polls, p) ↦
          let t = poll_entry h (record s { polls = polls }) in
          (
            t,
            poller-polls s h polls (some t) (e, k) p refl,
            poll_entry-Inv h (record s { polls = polls }) (e, k)
                (record { lo = i.lo; queue = i.queue; flow = i.flow; places = i.places }),
            λ d g. ap (λ f. f d) (poll_entry-sinks h (record s { polls = polls })),
          )
      | inl p ↦ elim (list_cases s.batch) [
        | inr (job, batch, b) ↦
            let (t, eq, j, f, x, y, z) = run_job-Moves job batch s b (e, k) i in
            (t, poller-batch s job batch (some t) (e, k) p b eq, j, f)
        | inl b ↦
            let (t, eq, j, f) = run_phase-Moves s.phase s refl p b i in
            (t, poller-phase s (some t) (e, k) p b eq, j, f)
      ]
    ]
  ]
]
