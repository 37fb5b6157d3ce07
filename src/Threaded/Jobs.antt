-- ===== src/Threaded/Jobs.antt =====
-- solutions/device_threaded_solution.cpp: the jobs of a batch.
use going_unmanaged.Prelude.{
  ℕ, ◌+◌, ◌≡◌, refl, sym, subst, List, ◌∷◌, ◌++◌, Option, some, Bool, true, false,
}
use going_unmanaged.Device.{samples_from}
use going_unmanaged.Threaded.{
  Name, Job, open_job, close_job, flush_job, set_value, stream_job, Phase, Main, State, k_batch,
  entries, run_job, open_device, close_device,
}
use going_unmanaged.Threaded.Samples.{with_flight}
use going_unmanaged.Threaded.Plan.{Rising, events}
use going_unmanaged.Threaded.Invariant.{Linked, Queue, PhaseKnows, Places, Inv}
use going_unmanaged.Threaded.Flow.{Flow-open, Flow-close}
use going_unmanaged.Threaded.Devices.{
  opens_closed, closes_open, Queue-open, Queue-close, Queue-jobs,
}
use going_unmanaged.Threaded.Calls.{after_open, open_device-closed, after_close, close_device-open}
use going_unmanaged.Threaded.Poller.{Quiet, Quiet-Flow, Quiet-back}

PhaseKnows-batch :
    (main : Main) (jobs : List Job) (job : Job) (batch batch' : List Job) (phase : Phase)
    → PhaseKnows main jobs (job ∷ batch) phase
    → PhaseKnows main jobs batch' phase
PhaseKnows-batch main jobs job batch batch' Phase.testing k = tt
PhaseKnows-batch main jobs job batch batch' Phase.swapping k = tt
PhaseKnows-batch main jobs job batch batch' Phase.running k = tt
PhaseKnows-batch main jobs job batch batch' Phase.last_swap k = k
PhaseKnows-batch main jobs job batch batch' Phase.last_run k = k
PhaseKnows-batch main jobs job batch batch' Phase.finished k = let (a, b, e) = k in cc

module _ (job : Job) (batch : List Job) (s : State) (e : s.batch ≡ job ∷ batch) (i : Inv s) where
  next_job :
      Queue i.lo s.sinks s.contexts s.sessions
        (job ∷ (batch ++ s.jobs))
        s.sdk.devices
        s.sdk.open_count
        s.opened
  next_job =
      subst
        (λ b.
          Queue i.lo s.sinks s.contexts s.sessions (b ++ s.jobs) s.sdk.devices s.sdk.open_count
            s.opened)
        e i.queue

  next-Places : (batch' : List Job) → Places s.sinks s.sessions s.main s.jobs batch' s.stop s.phase
  next-Places batch' = record {
    main_knows = (i.places).main_knows;
    phase_knows =
        PhaseKnows-batch s.main s.jobs job batch batch' s.phase
          (subst (λ b. PhaseKnows s.main s.jobs b s.phase) e (i.places).phase_knows);
    stopped = (i.places).stopped;
    set_stop = (i.places).set_stop;
  }

  -- A job without a call of the SDK.
  next_quiet :
      (batch' : List Job)
      → ((n : Name) → events n (job ∷ (batch ++ s.jobs)) ≡ events n (batch' ++ s.jobs))
      → (Rising i.lo s.contexts (job ∷ (batch ++ s.jobs))
          → Rising i.lo s.contexts (batch' ++ s.jobs))
      → Inv (record s { batch = batch' })
  next_quiet batch' f r = record {
    lo = i.lo;
    queue =
        Queue-jobs i.lo s.sinks s.contexts s.sessions (job ∷ (batch ++ s.jobs)) s.sdk.devices
          s.sdk.open_count s.opened (batch' ++ s.jobs) f r next_job;
    flow = i.flow;
    places = next-Places batch';
  }

-- What a job leaves alone, and the batch that it leaves.
abbrev pub rest : State → List Job × Main × Bool × Phase
rest s = (s.jobs, s.main, s.stop, s.phase)

abbrev pub left_over : Job → List Job → List Job
left_over (open_job n c) batch = batch
left_over (close_job n) batch = batch
left_over flush_job batch = set_value ∷ batch
left_over set_value batch = batch
left_over stream_job batch = batch

abbrev pub kept_after : Job → Bool → Bool
kept_after (open_job n c) k = k
kept_after (close_job n) k = k
kept_after flush_job k = k
kept_after set_value k = true
kept_after stream_job k = k

abbrev pub JobMoves : Job → List Job → State → Option State → Type 0
JobMoves job batch s o =
    (t : State) × (o ≡ some t)
    × Inv t
    × ((c : ℕ) → (s.sinks c).alive ≡ false → t.sinks c ≡ s.sinks c)
    × (rest t ≡ rest s)
    × (t.batch ≡ left_over job batch)
    × (t.kept_promise ≡ kept_after job s.kept_promise)

open_job-Moves :
    (n : Name) (c : ℕ) (batch : List Job) (s : State)
    → s.batch ≡ open_job n c ∷ batch
    → Quiet s
    → Inv s
    → JobMoves (open_job n c) batch s (open_device n c (record s { batch = batch }))
open_job-Moves n c batch s e q i =
    let s₁ = record s { batch = batch } in
    let js = batch ++ s.jobs in
    let job = next_job (open_job n c) batch s e i in
    let found =
      opens_closed i.lo s.sinks s.contexts s.sessions js s.sdk.devices s.sdk.open_count s.opened n c
        job in
    let shut =
      subst (λ o. Linked n o (s.opened n) (s.sdk.devices n).is_open) found.0 (job.linked n) in
    (
      after_open n c s₁,
      open_device-closed n c s₁ shut.1 shut.0,
      subst (λ z. Inv (after_open n z s₁)) (sym found.1)
          (record {
            lo = i.lo + 1;
            queue =
                Queue-open i.lo s.sinks s.contexts s.sessions js s.sdk.devices s.sdk.open_count
                  s.opened n c (samples_from 0 k_batch) job;
            flow =
                Quiet-back (i.lo + 1) s.sinks (after_open n i.lo s₁).sdk.devices s q
                  (Flow-open i.lo n s.sinks s.sdk.devices (Quiet-Flow s q i));
            places = next-Places (open_job n c) batch s e i batch;
          }),
      λ d g. refl,
      refl,
      refl,
      refl,
    )

close_job-Moves :
    (n : Name) (batch : List Job) (s : State)
    → s.batch ≡ close_job n ∷ batch
    → Quiet s
    → Inv s
    → JobMoves (close_job n) batch s (close_device n (record s { batch = batch }))
close_job-Moves n batch s e q i =
    let s₁ = record s { batch = batch } in
    let js = batch ++ s.jobs in
    let job = next_job (close_job n) batch s e i in
    let (c, has, gone) =
      closes_open i.lo s.sinks s.contexts s.sessions js s.sdk.devices s.sdk.open_count s.opened n
        job in
    let on = subst (λ o. Linked n o (s.opened n) (s.sdk.devices n).is_open) has (job.linked n) in
    (
      after_close n s₁,
      close_device-open n s₁ on.1 on.0,
      record {
        lo = i.lo;
        queue =
            Queue-close i.lo s.sinks s.contexts s.sessions js s.sdk.devices s.sdk.open_count
              s.opened n job;
        flow = Flow-close i.lo n s.sinks s.sdk.devices (with_flight s.in_flight s.calls) i.flow;
        places = next-Places (close_job n) batch s e i batch;
      },
      λ d g. refl,
      refl,
      refl,
      refl,
    )

pub run_job-Moves :
    (job : Job) (batch : List Job) (s : State)
    → s.batch ≡ job ∷ batch
    → Quiet s
    → Inv s
    → JobMoves job batch s (run_job job (record s { batch = batch }))
unfolding run_job
run_job-Moves (open_job n c) batch s e q i = open_job-Moves n c batch s e q i
run_job-Moves (close_job n) batch s e q i = close_job-Moves n batch s e q i
run_job-Moves flush_job batch s e q i = (
  record s { polls = entries s.opened; batch = set_value ∷ batch },
  refl,
  let x = next_quiet flush_job batch s e i (set_value ∷ batch) (λ n. refl) (λ r. r) in
      record { lo = x.lo; queue = x.queue; flow = x.flow; places = x.places },
  λ d g. refl,
  refl,
  refl,
  refl,
)
run_job-Moves set_value batch s e q i = (
  record s { batch = batch; kept_promise = true },
  refl,
  let x = next_quiet set_value batch s e i (batch) (λ n. refl) (λ r. r) in
      record { lo = x.lo; queue = x.queue; flow = x.flow; places = x.places },
  λ d g. refl,
  refl,
  refl,
  refl,
)
run_job-Moves stream_job batch s e q i = (
  record s { batch = batch; stream = true },
  refl,
  let x = next_quiet stream_job batch s e i (batch) (λ n. refl) (λ r. r) in
      record { lo = x.lo; queue = x.queue; flow = x.flow; places = x.places },
  λ d g. refl,
  refl,
  refl,
  refl,
)
