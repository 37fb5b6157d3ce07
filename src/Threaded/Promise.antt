-- ===== src/Threaded/Promise.antt =====
-- solutions/device_threaded_solution.cpp: no step forgets the promise of FlushAndWait.
use going_unmanaged.Prelude.{
  ℕ, ◌≡◌, ◌≢◌, refl, ap, ◌∙◌, sym, subst, List, [], ◌∷◌, ◌++◌, append-nil, Option, none, some,
  Option-cases, Bool, Bool-cases, true, false, inl, inr, ◌||◌, ltb, if◌then◌else◌,
}
use going_unmanaged.Device.{DeviceHandle}
use going_unmanaged.Threaded.{
  Job, open_job, close_job, flush_job, set_value, stream_job, Phase, Main, State, Reach, Step,
  initial, waiting, testing, swapping, running, last_swap, last_run, finished, entries, is_empty,
  run_phase, poll_entry, trampoline, deliver, poller, construct, tell, ask, leave, keep, release,
  flush,
}
use going_unmanaged.Threaded.Invariant.{Inv}
use going_unmanaged.Threaded.Jobs.{left_over, kept_after, run_job-Moves}
use going_unmanaged.Threaded.Run.{
  list_cases, poller-in_flight, poller-calls, poller-polls, poller-batch, poller-phase,
}
use going_unmanaged.Threaded.Safe.{reach-Inv}
use going_unmanaged.Threaded.Drain.{Leads, step-Inv}

-- Whether a promise is still to be kept by these jobs.
abbrev pub has_flush : List Job → Bool
has_flush [] = false
has_flush (open_job n c ∷ js) = has_flush js
has_flush (close_job n ∷ js) = has_flush js
has_flush (flush_job ∷ js) = true
has_flush (set_value ∷ js) = true
has_flush (stream_job ∷ js) = has_flush js

has_flush-append : (js ks : List Job) → has_flush (js ++ ks) ≡ (has_flush js || has_flush ks)
has_flush-append [] ks = refl
has_flush-append (open_job n c ∷ js) ks = has_flush-append js ks
has_flush-append (close_job n ∷ js) ks = has_flush-append js ks
has_flush-append (flush_job ∷ js) ks = refl
has_flush-append (set_value ∷ js) ks = refl
has_flush-append (stream_job ∷ js) ks = has_flush-append js ks

-- What a promise depends on.
abbrev pub Promise : Main → List Job → List Job → Bool → Type 0
Promise main batch jobs kept = main ≡ waiting → (has_flush (batch ++ jobs) || kept) ≡ true

abbrev pub Promised : State → Type 0
Promised s = Promise s.main s.batch s.jobs s.kept_promise

abbrev promise : State → Main × List Job × List Job × Bool
promise s = (s.main, s.batch, s.jobs, s.kept_promise)

Promised-eq : (s t : State) → promise t ≡ promise s → Promised s → Promised t
Promised-eq s t e p = subst (λ (a, b, c, d). Promise a b c d) (sym e) p

deliver-promise : (c x : ℕ) (s : State) → promise (deliver c x s) ≡ promise s
unfolding deliver
deliver-promise c x s = elim (Bool-cases (s.sinks c).alive) [
  | inl y ↦ rw y refl
  | inr n ↦ rw n refl
]

trampoline-promise : (c x : ℕ) (s : State) → promise (trampoline c x s) ≡ promise s
unfolding trampoline
trampoline-promise c x s = elim (Bool-cases ((s.sinks c).owned || ltb 0 (s.sinks c).kept)) [
  | inl y ↦ rw y refl
  | inr n ↦ rw n refl
]

poll_entry-promise : (h : Option DeviceHandle) (s : State) → promise (poll_entry h s) ≡ promise s
unfolding poll_entry
poll_entry-promise h s = refl

or_true : (a : Bool) → (a || true) ≡ true
or_true Bool.true = refl
or_true Bool.false = refl

job-Promise :
    (job : Job) (main : Main) (batch jobs : List Job) (kept : Bool)
    → Promise main (job ∷ batch) jobs kept
    → Promise main (left_over job batch) jobs (kept_after job kept)
job-Promise (open_job n c) main batch jobs kept p = p
job-Promise (close_job n) main batch jobs kept p = p
job-Promise flush_job main batch jobs kept p = λ e. refl
job-Promise set_value main batch jobs kept p = λ e. or_true (has_flush (batch ++ jobs))
job-Promise stream_job main batch jobs kept p = p

Promise-cast :
    (main main' : Main) (batch batch' jobs jobs' : List Job) (kept kept' : Bool)
    → main' ≡ main
    → batch' ≡ batch
    → jobs' ≡ jobs
    → kept' ≡ kept
    → Promise main batch jobs kept
    → Promise main' batch' jobs' kept'
Promise-cast main main' batch batch' jobs jobs' kept kept' m b j k p =
    λ e. rw (b, j, k) (p (sym m ∙ e))

flush_last :
    (batch jobs : List Job) → (has_flush (batch ++ (jobs ++ flush_job ∷ [])) || false) ≡ true
flush_last batch jobs =
    ap (λ z. z || false)
      (has_flush-append batch (jobs ++ flush_job ∷ [])
        ∙ ap (λ z. has_flush batch || z)
            (has_flush-append jobs (flush_job ∷ []) ∙ or_true (has_flush jobs))
        ∙ or_true (has_flush batch))

swap-Promise :
    (main : Main) (batch jobs : List Job) (kept : Bool)
    → batch ≡ []
    → Promise main batch jobs kept
    → Promise main jobs [] kept
swap-Promise main batch jobs kept b p =
    subst (λ js. main ≡ waiting → (has_flush js || kept) ≡ true)
      (ap (λ z. z ++ jobs) b ∙ sym (append-nil jobs)) p

step-Promised : (s t u : State) → some u ≡ some t → Promised u → Promised t
step-Promised s t u e p = let same_state : u ≡ t = cc in subst Promised same_state p

phase-Promised :
    (p : Phase) (s t : State) → s.batch ≡ [] → run_phase p s ≡ some t → Promised s → Promised t
unfolding run_phase
phase-Promised testing s t b e p =
    step-Promised s t (record s { phase = if s.stop then last_swap else swapping }) e p
phase-Promised swapping s t b e p =
    step-Promised s t (record s { batch = s.jobs; jobs = []; phase = running }) e
      (swap-Promise s.main s.batch s.jobs s.kept_promise b p)
phase-Promised running s t b e p =
    step-Promised s t (record s { polls = entries s.opened; phase = testing }) e p
phase-Promised last_swap s t b e p =
    step-Promised s t (record s { batch = s.jobs; jobs = []; phase = last_run }) e
      (swap-Promise s.main s.batch s.jobs s.kept_promise b p)
phase-Promised last_run s t b e p = elim (Bool-cases (is_empty (entries s.opened))) [
  | inl y ↦ step-Promised s t (record s { phase = finished }) (rw (run_phase, y) at e) p
  | inr n ↦ let stuck : none ≡ some t = rw (run_phase, n) at e in cc
]
phase-Promised finished s t b e p = step-Promised s t s e p

-- The poller's thread forgets no promise.
pub poller-Promised : (s t : State) → Inv s → poller s ≡ some t → Promised s → Promised t
poller-Promised s t i e p = elim (Option-cases s.in_flight) [
  | inr ((c, x), f) ↦
      let u = deliver c x s in
      step-Promised s t u (sym (poller-in_flight s c x (some u) f refl) ∙ e)
        (Promised-eq s u (deliver-promise c x s) p)
  | inl f ↦ elim (list_cases s.calls) [
    | inr ((c, x), calls, k) ↦
        let u = trampoline c x (record s { calls = calls }) in
        step-Promised s t u (sym (poller-calls s c x calls (some u) f k refl) ∙ e)
          (Promised-eq s u (trampoline-promise c x (record s { calls = calls })) p)
    | inl k ↦ elim (list_cases s.polls) [
      | inr (h, polls, q) ↦
          let u = poll_entry h (record s { polls = polls }) in
          step-Promised s t u (sym (poller-polls s h polls (some u) (f, k) q refl) ∙ e)
            (Promised-eq s u (poll_entry-promise h (record s { polls = polls })) p)
      | inl q ↦ elim (list_cases s.batch) [
        | inr (job, batch, b) ↦
            let (u, eq, j, g, r, l, m) = run_job-Moves job batch s b (f, k) i in
            let before = subst (λ z. Promise s.main z s.jobs s.kept_promise) b p in
            let after = job-Promise job s.main batch s.jobs s.kept_promise before in
            step-Promised s t u (sym (poller-batch s job batch (some u) (f, k) q b eq) ∙ e) (
              Promise-cast s.main u.main (left_over job batch) u.batch s.jobs u.jobs
                (kept_after job s.kept_promise) u.kept_promise (ap (λ z. z.1) r) l (ap (λ z. z.0) r)
                m after)
        | inl b ↦
            phase-Promised s.phase s t b
              (sym (poller-phase s (run_phase s.phase s) (f, k) q b refl) ∙ e) p
      ]
    ]
  ]
]

ready-Promised : (s : State) → s.main ≢ waiting → Promised s
ready-Promised s n e = absurd (n e)

Step-keeps : {s t : State} → Inv s → Step s t → Promised s → Promised t
unfolding construct tell ask leave keep release flush
Step-keeps {s} {t} i (Step.constructs n m f) p = ready-Promised t (λ e. cc)
Step-keeps {s} {t} i (Step.tells n c m f) p = ready-Promised t (λ e. cc)
Step-keeps {s} {t} i (Step.asks n c m) p = ready-Promised t (λ e. cc)
Step-keeps {s} {t} i (Step.leaves c m) p = ready-Promised t (λ e. cc)
Step-keeps {s} {t} i (Step.keeps n c m f) p = p
Step-keeps {s} {t} i (Step.releases c m l) p = p
Step-keeps {s} {t} i (Step.flushes m) p = λ e. flush_last s.batch s.jobs
Step-keeps {s} {t} i (Step.wakes m k) p = ready-Promised t (λ e. cc)
Step-keeps {s} {t} i (Step.streams m) p = ready-Promised t (λ e. cc)
Step-keeps {s} {t} i (Step.stops m f) p = ready-Promised t (λ e. cc)
Step-keeps {s} {t} i (Step.polls e) p = poller-Promised s t i e p

pub Reach-Promised : {s : State} → Reach s → Promised s
unfolding initial
Reach-Promised Reach.here = λ e. cc
Reach-Promised (Reach.next r t) = Step-keeps (reach-Inv r) t (Reach-Promised r)

pub Leads-Promised : {s t : State} → Leads s t → Inv s → Promised s → Promised t
Leads-Promised Leads.done i p = p
Leads-Promised {s} (Leads.more {t = u} e l) i p =
    Leads-Promised l (step-Inv s u e i) (poller-Promised s u i e p)
