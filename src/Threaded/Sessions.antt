-- ===== src/Threaded/Sessions.antt =====
-- solutions/device_threaded_solution.cpp: every step of the main thread keeps the invariant.
use going_unmanaged.Prelude.{
  ℕ, ◌+◌, ◌-◌, ◌≡◌, ◌≢◌, refl, ap, ◌∙◌, sym, subst, List, [], ◌∷◌, ◌++◌, append-nil, append_assoc,
  Option, some, Bool-cases, true, false, ==_refl, inl, inr,
}
use going_unmanaged.Threaded.{
  Sink, Name, Job, flush_job, stream_job, Phase, Main, State, ready, told, asked, waiting, joining,
  set_sink, post, tell, leave, keep, release, flush,
}
use going_unmanaged.Threaded.Samples.{Follows, Whole, coming, with_flight}
use going_unmanaged.Threaded.Plan.{Rising, Rising-append, events, events-append}
use going_unmanaged.Threaded.Invariant.{Queue, Flow, MainKnows, PhaseKnows, Places, Inv}
use going_unmanaged.Threaded.Flow.{Flow-sink}
use going_unmanaged.Threaded.Devices.{Queue-jobs, Queue-sinks}
use going_unmanaged.Threaded.Poller.{still_dead}

-- While the main thread has not yet stopped the other, that one is not at its end.
pub PhaseKnows-free :
    (main main' : Main) (jobs jobs' batch : List Job) (phase : Phase)
    → main ≢ joining
    → PhaseKnows main jobs batch phase
    → PhaseKnows main' jobs' batch phase
PhaseKnows-free main main' jobs jobs' batch Phase.testing f k = tt
PhaseKnows-free main main' jobs jobs' batch Phase.swapping f k = tt
PhaseKnows-free main main' jobs jobs' batch Phase.running f k = tt
PhaseKnows-free main main' jobs jobs' batch Phase.last_swap f k = absurd (f k)
PhaseKnows-free main main' jobs jobs' batch Phase.last_run f k = absurd (f k.0)
PhaseKnows-free main main' jobs jobs' batch Phase.finished f k = absurd (f k.0)

-- The main thread goes on, and what it knows there is given.
pub go_on :
    (s : State) (sinks : ℕ → Sink) (sessions : Name → Option ℕ) (main : Main) (jobs : List Job)
    → s.main ≢ joining
    → main ≢ joining
    → MainKnows sinks sessions main
    → Places s.sinks s.sessions s.main s.jobs s.batch s.stop s.phase
    → Places sinks sessions main jobs s.batch s.stop s.phase
go_on s sinks sessions main jobs f g k p = record {
  main_knows = k;
  phase_knows = PhaseKnows-free s.main main s.jobs jobs s.batch s.phase f p.phase_knows;
  stopped = λ e. absurd (f (p.stopped e));
  set_stop = λ e. absurd (g e);
}

-- A job without an event of its own is posted.
Queue-quiet :
    (lo : ℕ) (s : State) (job : Job)
    → ((n : Name) → events n (job ∷ []) ≡ [])
    → ((hi : ℕ) → Rising hi hi (job ∷ []))
    → Queue lo s.sinks s.contexts s.sessions
        (s.batch ++ s.jobs)
        s.sdk.devices
        s.sdk.open_count
        s.opened
    → Queue lo s.sinks s.contexts s.sessions
        (s.batch ++ (s.jobs ++ job ∷ []))
        s.sdk.devices
        s.sdk.open_count
        s.opened
Queue-quiet lo s job f r q =
    let assoc = append_assoc s.batch s.jobs (job ∷ []) in
    Queue-jobs lo s.sinks s.contexts s.sessions (s.batch ++ s.jobs) s.sdk.devices s.sdk.open_count
      s.opened (s.batch ++ (s.jobs ++ job ∷ []))
      (λ n.
        sym (append-nil (events n (s.batch ++ s.jobs)))
        ∙ ap (λ z. events n (s.batch ++ s.jobs) ++ z) (sym (f n))
        ∙ sym (events-append n (s.batch ++ s.jobs) (job ∷ []))
        ∙ ap (events n) assoc)
      (λ k.
        subst (Rising lo s.contexts) assoc
          (Rising-append lo s.contexts s.contexts (s.batch ++ s.jobs) (job ∷ []) k (r s.contexts)))
      q

pub flush-Inv : (s : State) → s.main ≡ ready → Inv s → Inv (flush s)
unfolding flush
flush-Inv s m i = record {
  lo = i.lo;
  queue = Queue-quiet i.lo s flush_job (λ n. refl) (λ h. refl) i.queue;
  flow = i.flow;
  places =
      go_on s s.sinks s.sessions waiting (s.jobs ++ flush_job ∷ []) (λ e. cc) (λ e. cc) tt i.places;
}

pub stream-Inv : (s : State) → s.main ≡ ready → Inv s → Inv (post stream_job s)
stream-Inv s m i = record {
  lo = i.lo;
  queue = Queue-quiet i.lo s stream_job (λ n. refl) (λ h. refl) i.queue;
  flow = i.flow;
  places =
      go_on s s.sinks s.sessions s.main (s.jobs ++ stream_job ∷ []) (λ e. cc) (λ e. cc)
        (i.places).main_knows i.places;
}

pub wake-Inv : (s : State) → s.main ≡ waiting → Inv s → Inv (record s { main = ready })
wake-Inv s m i = record {
  lo = i.lo;
  queue = i.queue;
  flow = i.flow;
  places = go_on s s.sinks s.sessions ready s.jobs (λ e. cc) (λ e. cc) tt i.places;
}

-- A Sink is written, but neither `samples` nor, but for its end, `alive`.
rewritten :
    (c : ℕ) (x : Sink) (s : State)
    → (x.alive ≡ true → (s.sinks c).alive ≡ true)
    → (s.sinks c).samples ≡ x.samples
    → (x.alive ≡ true → x.owned ≡ true)
    → (i : Inv s) → Flow i.lo (set_sink c x s).sinks s.sdk.devices (with_flight s.in_flight s.calls)
rewritten c x s a e o i =
    let ps = with_flight s.in_flight s.calls in
    let g = i.flow c in
    Flow-sink i.lo c x s.sinks s.sdk.devices ps ps i.flow (λ d n. refl)
      (record {
        unused = λ l. let (u, v) = g.unused l in (u, sym e ∙ v);
        held = o;
        whole = λ n b y.
            subst (λ z. Whole (z ++ (coming c ps ++ (s.sdk.devices n).pending))) e
              (g.whole n b (a y));
        on_the_way = λ y. subst (λ z. Follows 0 (z ++ coming c ps)) e (g.on_the_way (a y));
        right = subst (Follows 0) e g.right;
      })

dead_still :
    (c : ℕ) (x : Sink) (s : State)
    → (x.alive ≡ true → (s.sinks c).alive ≡ true)
    → (d : ℕ) → (s.sinks d).alive ≡ false
    → ((set_sink c x s).sinks d).alive ≡ false
dead_still c x s a =
    still_dead c x s.sinks
      (λ e. elim (Bool-cases x.alive) [ inl y ↦ let live = a y in cc | inr n ↦ n ])

sink-Queue :
    (c : ℕ) (x : Sink) (s : State)
    → (x.alive ≡ true → (s.sinks c).alive ≡ true)
    → (i : Inv s)
    → Queue i.lo
        (set_sink c x s).sinks
        s.contexts
        s.sessions
        (s.batch ++ s.jobs)
        s.sdk.devices
        s.sdk.open_count
        s.opened
sink-Queue c x s a i =
    Queue-sinks i.lo s.sinks s.contexts s.sessions (s.batch ++ s.jobs) s.sdk.devices
      s.sdk.open_count s.opened (set_sink c x s).sinks (λ d g. (g.0, dead_still c x s a d g.1))
      i.queue

pub keep-Inv : (c : ℕ) (s : State) → s.main ≡ ready → Inv s → Inv (keep c s)
unfolding keep
keep-Inv c s m i =
    let x = record (s.sinks c) { kept = (s.sinks c).kept + 1 } in
    record {
      lo = i.lo;
      queue = sink-Queue c x s (λ y. y) i;
      flow = rewritten c x s (λ y. y) refl (i.flow c).held i;
      places =
          go_on s (set_sink c x s).sinks s.sessions s.main s.jobs (λ e. cc) (λ e. cc)
            (subst (MainKnows (set_sink c x s).sinks s.sessions) (sym m) tt) i.places;
    }

pub release-Inv : (c : ℕ) (s : State) → s.main ≡ ready → Inv s → Inv (release c s)
unfolding release
release-Inv c s m i =
    let x = record (s.sinks c) { kept = (s.sinks c).kept - 1 } in
    record {
      lo = i.lo;
      queue = sink-Queue c x s (λ y. y) i;
      flow = rewritten c x s (λ y. y) refl (i.flow c).held i;
      places =
          go_on s (set_sink c x s).sinks s.sessions s.main s.jobs (λ e. cc) (λ e. cc)
            (subst (MainKnows (set_sink c x s).sinks s.sessions) (sym m) tt) i.places;
    }

pub tell-Inv :
    (n : Name) (c : ℕ) (s : State)
    → s.main ≡ ready
    → s.sessions n ≡ some c
    → Inv s
    → Inv (tell n c s)
unfolding tell
tell-Inv n c s m e i =
    let x = record (s.sinks c) { alive = false } in
    let a : (false ≡ true → (s.sinks c).alive ≡ true) = λ y. cc in
    record {
      lo = i.lo;
      queue = sink-Queue c x s a i;
      flow = rewritten c x s a refl (λ y. cc) i;
      places =
          go_on s (set_sink c x s).sinks s.sessions (told n c) s.jobs (λ e. cc) (λ e. cc)
            (rw (==_refl c) refl, e) i.places;
    }

pub leave-Inv : (c : ℕ) (s : State) → s.main ≡ asked c → Inv s → Inv (leave c s)
unfolding leave
leave-Inv c s m i =
    let x = record (s.sinks c) { owned = false } in
    let dead = subst (MainKnows s.sinks s.sessions) m (i.places).main_knows in
    record {
      lo = i.lo;
      queue = sink-Queue c x s (λ y. y) i;
      flow = rewritten c x s (λ y. y) refl (λ y. cc) i;
      places =
          go_on s (set_sink c x s).sinks s.sessions ready s.jobs (λ e. cc) (λ e. cc) tt i.places;
    }
