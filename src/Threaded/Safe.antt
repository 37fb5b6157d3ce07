-- ===== src/Threaded/Safe.antt =====
-- solutions/device_threaded_solution.cpp: Sessions are made and destroyed, in all interleavings.
use going_unmanaged.Prelude.{
  ℕ, ◌+◌, ◌<◌, ◌≤◌, ◌≡◌, refl, ap, ◌∙◌, sym, subst, [], ◌∷◌, ◌++◌, append-nil, append_assoc, none,
  some, Bool-cases, true, false, ◌==◌, ne→==, inl, inr, arith,
}
use going_unmanaged.Device.{same}
use going_unmanaged.Device.Session.Owned.{same→eq}
use going_unmanaged.Threaded.{
  Name, Job, open_job, close_job, State, ready, told, asked, joining, set_sink, set_name, new_sink,
  construct, ask, Step, Reach,
}
use going_unmanaged.Threaded.Samples.{Follows, with_flight}
use going_unmanaged.Threaded.Plan.{
  Rising, Rising-append, Rising-le, events, events-append, Plan, Plan-open, Plan-close, Plan-mono,
}
use going_unmanaged.Threaded.Invariant.{Gone, Queue, MainKnows, Inv, initial-Inv}
use going_unmanaged.Threaded.Flow.{Flow-sink}
use going_unmanaged.Threaded.Run.{poller-Moves}
use going_unmanaged.Threaded.Sessions.{
  PhaseKnows-free, go_on, keep-Inv, release-Inv, tell-Inv, leave-Inv, flush-Inv, stream-Inv,
  wake-Inv,
}

-- The events of a name, when a job is posted.
events-post :
    (n : Name) (s : State) (job : Job)
    → events n (s.batch ++ (s.jobs ++ job ∷ []))
      ≡ events n (s.batch ++ s.jobs) ++ events n (job ∷ [])
events-post n s job =
    ap (events n) (sym (append_assoc s.batch s.jobs (job ∷ [])))
    ∙ events-append n (s.batch ++ s.jobs) (job ∷ [])

Rising-post :
    (lo hi : ℕ) (s : State) (job : Job)
    → Rising lo s.contexts (s.batch ++ s.jobs)
    → Rising s.contexts hi (job ∷ [])
    → Rising lo hi (s.batch ++ (s.jobs ++ job ∷ []))
Rising-post lo hi s job r q =
    subst (Rising lo hi) (append_assoc s.batch s.jobs (job ∷ []))
      (Rising-append lo s.contexts hi (s.batch ++ s.jobs) (job ∷ []) r q)

ask-Inv : (n : Name) (c : ℕ) (s : State) → s.main ≡ told n c → Inv s → Inv (ask n c s)
unfolding ask
ask-Inv n c s m i =
    let (dead, has) = subst (MainKnows s.sinks s.sessions) m (i.places).main_knows in
    let q = i.queue in
    let gone : Gone s.sinks s.contexts c = (q.known n c has, dead) in
    record {
      lo = i.lo;
      queue = record {
        linked = q.linked;
        plan = λ k.
            let now = (s.sdk.devices k).callback in
            subst (Plan (Gone s.sinks s.contexts) (set_name n none s.sessions k) now)
              (sym (events-post k s (close_job n)))
              (elim (Bool-cases (same n k)) [
                | inl y ↦
                    let mine = ap s.sessions (sym (same→eq n k y)) ∙ has in
                    rw y (
                      Plan-close (Gone s.sinks s.contexts) c now (events k (s.batch ++ s.jobs)) gone
                        (subst
                          (λ l. Plan (Gone s.sinks s.contexts) l now (events k (s.batch ++ s.jobs)))
                          mine (q.plan k)))
                | inr x ↦ rw x (
                    subst (Plan (Gone s.sinks s.contexts) (s.sessions k) now)
                      (sym (append-nil (events k (s.batch ++ s.jobs)))) (q.plan k))
              ]);
        rising = Rising-post i.lo s.contexts s (close_job n) q.rising refl;
        early = q.early;
        one = q.one;
        known = λ k d e. elim (Bool-cases (same n k)) [
          | inl y ↦ let was : none ≡ some d = rw y at e in cc
          | inr x ↦ q.known k d (rw x at e)
        ];
        counted = q.counted;
      };
      flow = i.flow;
      places =
          go_on s s.sinks (set_name n none s.sessions) (asked c) (s.jobs ++ close_job n ∷ [])
            (λ e. cc) (λ e. cc) dead i.places;
    }

-- The new context is none of those that anyone knows.
pub new_context : (d : ℕ) (s : State) → d < s.contexts → (s.contexts == d) ≡ false
new_context d s l = ne→== s.contexts d (λ e. absurd (omega (arith, l, e)))

construct-Queue :
    (n : Name) (s : State)
    → s.sessions n ≡ none
    → (i : Inv s)
    → Queue i.lo
        (set_sink s.contexts new_sink s).sinks
        (s.contexts + 1)
        (set_name n (some s.contexts) s.sessions)
        (s.batch ++ (s.jobs ++ open_job n s.contexts ∷ []))
        s.sdk.devices
        s.sdk.open_count
        s.opened
construct-Queue n s free i =
    let q = i.queue in
    let sinks' = (set_sink s.contexts new_sink s).sinks in
    let G = Gone s.sinks s.contexts in
    let G' = Gone sinks' (s.contexts + 1) in
    let js = s.batch ++ s.jobs in
    let still : (d : ℕ) → G d → G' d =
      λ d g. (let l = g.0 in omega (arith, l), rw (new_context d s g.0) g.1) in
    let old = λ (k : Name).
      Plan-mono G G' (s.sessions k) (s.sdk.devices k).callback (events k js) still (q.plan k) in
    record {
      linked = q.linked;
      plan = λ k.
          let now = (s.sdk.devices k).callback in
          subst (Plan G' (set_name n (some s.contexts) s.sessions k) now)
            (sym (events-post k s (open_job n s.contexts)))
            (elim (Bool-cases (same n k)) [
              | inl y ↦
                  let mine = ap s.sessions (sym (same→eq n k y)) ∙ free in
                  rw y (
                    Plan-open G' s.contexts now (events k js)
                      (subst (λ l. Plan G' l now (events k js)) mine (old k)))
              | inr x ↦
                  rw x (subst (Plan G' (s.sessions k) now) (sym (append-nil (events k js))) (old k))
            ]);
      rising = Rising-post i.lo (s.contexts + 1) s (open_job n s.contexts) q.rising (refl, refl);
      early = q.early;
      one = q.one;
      known = λ k d e. elim (Bool-cases (same n k)) [
        | inl y ↦
            let was : some s.contexts ≡ some d = rw y at e in
            let eq : s.contexts ≡ d = cc in omega (arith, eq)
        | inr x ↦ let l = q.known k d (rw x at e) in omega (arith, l)
      ];
      counted = q.counted;
    }

construct-Inv :
    (n : Name) (s : State) → s.main ≡ ready → s.sessions n ≡ none → Inv s → Inv (construct n s)
unfolding construct
construct-Inv n s m free i =
    let q = i.queue in
    let c = s.contexts in
    let ps = with_flight s.in_flight s.calls in
    let le : i.lo ≤ c = Rising-le i.lo c (s.batch ++ s.jobs) q.rising in
    let none_coming = ((i.flow c).unused le).0 in
    record {
      lo = i.lo;
      queue = construct-Queue n s free i;
      flow =
          Flow-sink i.lo c new_sink s.sinks s.sdk.devices ps ps i.flow (λ d e. refl)
            (record {
              unused = λ l. (none_coming, refl);
              held = λ y. refl;
              whole = λ k b y. let l = q.early k c b in absurd (omega (arith, l, le));
              on_the_way = λ y. subst (Follows 0) (sym none_coming) tt;
              right = tt;
            });
      places =
          go_on s (set_sink c new_sink s).sinks (set_name n (some c) s.sessions) s.main
            (s.jobs ++ open_job n c ∷ []) (λ e. cc) (λ e. cc)
            (subst (MainKnows (set_sink c new_sink s).sinks (set_name n (some c) s.sessions))
              (sym m) tt)
            i.places;
    }

stop-Inv :
    (s : State)
    → s.main ≡ ready
    → ((n : Name) → s.sessions n ≡ none)
    → Inv s
    → Inv (record s { stop = true; main = joining })
stop-Inv s m f i = record {
  lo = i.lo;
  queue = i.queue;
  flow = i.flow;
  places = record {
    main_knows = f;
    phase_knows =
        PhaseKnows-free s.main joining s.jobs s.jobs s.batch s.phase (λ e. cc)
          (i.places).phase_knows;
    stopped = λ e. refl;
    set_stop = λ e. refl;
  };
}

step-Inv : {s t : State} → Step s t → Inv s → Inv t
step-Inv {s} (Step.constructs n m f) i = construct-Inv n s m f i
step-Inv {s} (Step.tells n c m f) i = tell-Inv n c s m f i
step-Inv {s} (Step.asks n c m) i = ask-Inv n c s m i
step-Inv {s} (Step.leaves c m) i = leave-Inv c s m i
step-Inv {s} (Step.keeps n c m f) i = keep-Inv c s m i
step-Inv {s} (Step.releases c m l) i = release-Inv c s m i
step-Inv {s} (Step.flushes m) i = flush-Inv s m i
step-Inv {s} (Step.wakes m k) i = wake-Inv s m i
step-Inv {s} (Step.streams m) i = stream-Inv s m i
step-Inv {s} (Step.stops m f) i = stop-Inv s m f i
step-Inv {s} (Step.polls e) i =
    let (t, eq, j, f) = poller-Moves s i in let same_state : t ≡ _ = cc in subst Inv same_state j

pub reach-Inv : {s : State} → Reach s → Inv s
reach-Inv Reach.here = initial-Inv
reach-Inv (Reach.next r t) = step-Inv t (reach-Inv r)
