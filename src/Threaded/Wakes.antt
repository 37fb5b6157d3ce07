-- ===== src/Threaded/Wakes.antt =====
-- solutions/device_threaded_solution.cpp: FlushAndWait returns.
use going_unmanaged.Prelude.{
  ℕ, ◌≡◌, refl, ap, ◌∙◌, sym, subst, [], ◌++◌, some, Bool-cases, true, false, inl, inr, ◌||◌,
}
use going_unmanaged.Threaded.{
  Phase, State, Reach, waiting, joining, testing, swapping, running, last_swap, last_run, finished,
  entries, run_phase,
}
use going_unmanaged.Threaded.Invariant.{Inv, PhaseKnows}
use going_unmanaged.Threaded.Poller.{Quiet}
use going_unmanaged.Threaded.Run.{poller-phase}
use going_unmanaged.Threaded.Safe.{reach-Inv}
use going_unmanaged.Threaded.Drain.{done, Gets, Gets-step, Gets-then, step-Inv, drain_batch}
use going_unmanaged.Threaded.Ends.{poller_runs, Leads-runs}
use going_unmanaged.Threaded.Promise.{
  has_flush, Promised, poller-Promised, Reach-Promised, Leads-Promised,
}

-- The poller's thread, at a statement of Run while the other waits in FlushAndWait.
abbrev Waits : Phase → State → Type 0
Waits phase t =
    Quiet t × (t.polls ≡ []) × (t.batch ≡ []) × (t.main ≡ waiting) × (t.phase ≡ phase) × Promised t

abbrev Kept : State → Type 0
Kept t = t.kept_promise ≡ true

-- The batch is run, and the promise that it was to keep is kept if no other job is left.
run_waiting :
    (phase : Phase) (s : State)
    → s.main ≡ waiting
    → s.phase ≡ phase
    → Promised s
    → Inv s
    → Gets s (λ t. Waits phase t × (t.jobs ≡ s.jobs))
run_waiting phase s m f p i =
    let (t, l, j, (q, c, b, r)) = drain_batch s.batch s refl i in
    (
      t,
      l,
      j,
      ((q, c, b, ap (λ z. z.1) r ∙ m, ap (λ z. z.3) r ∙ f, Leads-Promised l i p), ap (λ z. z.0) r),
    )

wait_step :
    (phase : Phase) (s t : State) (P : State → Type 0)
    → Waits phase s
    → Inv s
    → run_phase phase s ≡ some t
    → (Inv t → Promised t → Gets t P)
    → Gets s P
wait_step phase s t P (q, c, b, m, f, p) i r k =
    let eq = poller-phase s (some t) q c b (ap (λ z. run_phase z s) f ∙ r) in
    Gets-step s t P eq (k (step-Inv s t eq i) (poller-Promised s t i eq p))

wake_swapping : (s : State) → Inv s → Waits swapping s → Gets s Kept
unfolding run_phase
wake_swapping s i w =
    let (q, c, b, m, f, p) = w in
    let t = record s { batch = s.jobs; jobs = []; phase = running } in
    wait_step swapping s t Kept w i refl (λ k z.
      Gets-then t (λ u. Waits running u × (u.jobs ≡ [])) Kept (run_waiting running t m refl z k)
        (λ u h ((a, d, x, y, g, n), e). (
          u,
          done,
          h,
          ap (λ v. has_flush v || u.kept_promise) (sym (ap (λ v. v ++ u.jobs) x ∙ e)) ∙ n y,
        )))

-- It was not told to stop.
not_stopped : (s : State) → Inv s → s.main ≡ waiting → s.stop ≡ false
not_stopped s i m = elim (Bool-cases s.stop) [
  | inl y ↦ let told_to = (i.places).stopped y in cc
  | inr n ↦ n
]

wake_testing : (s : State) → Inv s → Waits testing s → Gets s Kept
unfolding run_phase
wake_testing s i w =
    let (q, c, b, m, f, p) = w in
    let t = record s { phase = swapping } in
    wait_step testing s t Kept w i (rw (run_phase, not_stopped s i m) refl)
      (λ k z. wake_swapping t k (q, c, b, m, refl, z))

wake_running : (s : State) → Inv s → Waits running s → Gets s Kept
unfolding run_phase
wake_running s i w =
    let (q, c, b, m, f, p) = w in
    let t = record s { polls = entries s.opened; phase = testing } in
    wait_step running s t Kept w i refl (λ k z.
      Gets-then t (λ u. Waits testing u × (u.jobs ≡ s.jobs)) Kept (run_waiting testing t m refl z k)
        (λ u h (v, e). wake_testing u h v))

not_last : {A : Type 0} (s : State) → s.main ≡ waiting → s.main ≡ joining → A
not_last s m e = let no_such : waiting ≡ joining = sym m ∙ e in absurd (cc)

wake : (phase : Phase) (s : State) → Inv s → Waits phase s → Gets s Kept
wake testing s i w = wake_testing s i w
wake swapping s i w = wake_swapping s i w
wake running s i w = wake_running s i w
wake last_swap s i (q, c, b, m, f, p) =
    not_last s m (subst (PhaseKnows s.main s.jobs s.batch) f (i.places).phase_knows)
wake last_run s i (q, c, b, m, f, p) =
    not_last s m (subst (PhaseKnows s.main s.jobs s.batch) f (i.places).phase_knows).0
wake finished s i (q, c, b, m, f, p) =
    not_last s m (subst (PhaseKnows s.main s.jobs s.batch) f (i.places).phase_knows).0

-- From every reached state in which the main thread waits in FlushAndWait, some number of steps of the
-- poller's thread keeps the promise that it waits for.
pub flush_returns :
    (s : State)
    → Reach s
    → s.main ≡ waiting
    → (k : ℕ) × (t : State) × (poller_runs k s ≡ some t) × (t.kept_promise ≡ true)
flush_returns s r m =
    let i = reach-Inv r in
    let (t, l, j, z) =
      Gets-then s (λ t. Waits s.phase t × (t.jobs ≡ s.jobs)) Kept
        (run_waiting s.phase s m refl (Reach-Promised r) i) (λ t j (w, e). wake s.phase t j w) in
    let (k, e) = Leads-runs l in (k, t, e, z)
