-- ===== src/Threaded/Drain.antt =====
-- solutions/device_threaded_solution.cpp: the poller's thread comes to the end of PollAll and of a batch.
use going_unmanaged.Prelude.{
  ℕ, ◌≡◌, refl, ap, ◌∙◌, subst, List, [], ◌∷◌, Option, none, some, Option-cases, Bool-cases, inl,
  inr, ◌||◌, ltb,
}
use going_unmanaged.Device.{DeviceHandle}
use going_unmanaged.Threaded.{
  Job, open_job, close_job, flush_job, set_value, stream_job, State, poll_entry, trampoline,
  deliver, poller,
}
use going_unmanaged.Threaded.Invariant.{Inv}
use going_unmanaged.Threaded.Poller.{Quiet}
use going_unmanaged.Threaded.Jobs.{rest, left_over, run_job-Moves}
use going_unmanaged.Threaded.Run.{
  poller-Moves, poller-in_flight, poller-calls, poller-polls, poller-batch,
}

pub data Leads : State → State → Type 0 where
  done : {s : State} → Leads s s
  more : {s t u : State} → poller s ≡ some t → Leads t u → Leads s u

-- Steps of the poller's thread alone lead to a state of which P holds.
abbrev pub Gets : State → (State → Type 0) → Type 0
Gets s P = (t : State) × Leads s t × Inv t × P t

pub Gets-step : (s t : State) (P : State → Type 0) → poller s ≡ some t → Gets t P → Gets s P
Gets-step s t P e (u, l, i, p) = (u, more e l, i, p)

Leads-trans : {s t u : State} → Leads s t → Leads t u → Leads s u
Leads-trans Leads.done m = m
Leads-trans (Leads.more e l) m = more e (Leads-trans l m)

pub Gets-then :
    (s : State) (P Q : State → Type 0)
    → Gets s P
    → ((t : State) → Inv t → P t → Gets t Q)
    → Gets s Q
Gets-then s P Q (t, l, i, p) f = let (u, m, j, q) = f t i p in (u, Leads-trans l m, j, q)

pub step-Inv : (s t : State) → poller s ≡ some t → Inv s → Inv t
step-Inv s t e i =
    let (u, eq, j, f) = poller-Moves s i in let same_state : u ≡ t = cc in subst Inv same_state j

-- The rest of PollAll's loop, and of the batch.
abbrev polls_and_batch : State → List (Option DeviceHandle) × List Job
polls_and_batch s = (s.polls, s.batch)

-- No call is under way, and `calls` are left.
abbrev Settled : State → List (ℕ × ℕ) → State → Type 0
Settled s calls t =
    (t.in_flight ≡ none)
    × (t.calls ≡ calls)
    × (polls_and_batch t ≡ polls_and_batch s)
    × (rest t ≡ rest s)

deliver-Settled : (c x : ℕ) (s : State) → Settled s s.calls (deliver c x s)
unfolding deliver
deliver-Settled c x s = elim (Bool-cases (s.sinks c).alive) [
  | inl y ↦ rw y (refl, refl, refl, refl)
  | inr n ↦ rw n (refl, refl, refl, refl)
]

settle : (s : State) → Inv s → Gets s (Settled s s.calls)
settle s i = elim (Option-cases s.in_flight) [
  | inl e ↦ (s, done, i, (e, refl, refl, refl))
  | inr ((c, x), e) ↦
      let eq = poller-in_flight s c x (some (deliver c x s)) e refl in
      (deliver c x s, more eq done, step-Inv s (deliver c x s) eq i, deliver-Settled c x s)
]

trampoline-left :
    (c x : ℕ) (s : State)
    → ((trampoline c x s).calls ≡ s.calls)
      × (polls_and_batch (trampoline c x s) ≡ polls_and_batch s)
      × (rest (trampoline c x s) ≡ rest s)
unfolding trampoline
trampoline-left c x s = elim (Bool-cases ((s.sinks c).owned || ltb 0 (s.sinks c).kept)) [
  | inl y ↦ rw y (refl, refl, refl)
  | inr n ↦ rw n (refl, refl, refl)
]

drain_calls : (calls : List (ℕ × ℕ)) (s : State) → s.calls ≡ calls → Inv s → Gets s (Settled s [])
drain_calls [] s k i =
    Gets-then s (Settled s s.calls) (Settled s []) (settle s i)
      (λ t j (e, c, p, r). (t, done, j, (e, c ∙ k, p, r)))
drain_calls ((c, x) ∷ calls) s k i =
    Gets-then s (Settled s s.calls) (Settled s []) (settle s i) (λ t j (e, m, p, r).
      let u = trampoline c x (record t { calls = calls }) in
      let eq = poller-calls t c x calls (some u) e (m ∙ k) refl in
      let (m', p', r') = trampoline-left c x (record t { calls = calls }) in
      Gets-step t u (Settled s []) eq (
        Gets-then u (Settled u []) (Settled s []) (drain_calls calls u m' (step-Inv t u eq j))
          (λ v h (a, b, y, z). (v, done, h, (a, b, y ∙ p' ∙ p, z ∙ r' ∙ r)))))

-- Nothing of PollAll is left.
abbrev pub Polled : State → List Job → State → Type 0
Polled s batch t = Quiet t × (t.polls ≡ []) × (t.batch ≡ batch) × (rest t ≡ rest s)

poll_entry-left :
    (h : Option DeviceHandle) (s : State)
    → (polls_and_batch (poll_entry h s) ≡ polls_and_batch s) × (rest (poll_entry h s) ≡ rest s)
unfolding poll_entry
poll_entry-left h s = (refl, refl)

pub drain_polls :
    (polls : List (Option DeviceHandle)) (s : State)
    → s.polls ≡ polls
    → Inv s
    → Gets s (Polled s s.batch)
drain_polls [] s k i =
    Gets-then s (Settled s []) (Polled s s.batch) (drain_calls s.calls s refl i)
      (λ t j (e, c, p, r). (t, done, j, ((e, c), ap (λ z. z.0) p ∙ k, ap (λ z. z.1) p, r)))
drain_polls (h ∷ polls) s k i =
    Gets-then s (Settled s []) (Polled s s.batch) (drain_calls s.calls s refl i)
      (λ t j (e, c, p, r).
        let u = poll_entry h (record t { polls = polls }) in
        let eq = poller-polls t h polls (some u) (e, c) (ap (λ z. z.0) p ∙ k) refl in
        let (p', r') = poll_entry-left h (record t { polls = polls }) in
        Gets-step t u (Polled s s.batch) eq (
          Gets-then u (Polled u u.batch) (Polled s s.batch)
            (drain_polls polls u (ap (λ z. z.0) p') (step-Inv t u eq j))
            (λ v h (a, b, y, z).
              (v, done, h, (a, b, y ∙ ap (λ z. z.1) p' ∙ ap (λ z. z.1) p, z ∙ r' ∙ r)))))

-- One job that is not that of FlushAndWait.
one_job :
    (job : Job) (batch : List Job) (s : State)
    → Quiet s
    → s.polls ≡ []
    → s.batch ≡ job ∷ batch
    → Inv s
    → Gets s (λ t. (t.batch ≡ left_over job batch) × (rest t ≡ rest s))
one_job job batch s q p b i =
    let (t, eq, j, f, r, l, y) = run_job-Moves job batch s b q i in
    let e = poller-batch s job batch (some t) q p b eq in (t, more e done, j, (l, r))

-- And the rest of FlushAndWait's job, if it was that.
whole_job :
    (job : Job) (batch : List Job) (s : State)
    → s.batch ≡ left_over job batch
    → Inv s
    → Gets s (λ t. (t.batch ≡ batch) × (rest t ≡ rest s))
whole_job (open_job n c) batch s b i = (s, done, i, (b, refl))
whole_job (close_job n) batch s b i = (s, done, i, (b, refl))
whole_job set_value batch s b i = (s, done, i, (b, refl))
whole_job stream_job batch s b i = (s, done, i, (b, refl))
whole_job flush_job batch s b i =
    let P : State → Type 0 = λ t. (t.batch ≡ batch) × (rest t ≡ rest s) in
    Gets-then s (Polled s s.batch) P (drain_polls s.polls s refl i) (λ t j (q, p, c, r).
      Gets-then t (λ u. (u.batch ≡ batch) × (rest u ≡ rest t)) P
        (one_job set_value batch t q p (c ∙ b) j) (λ u h (d, z). (u, done, h, (d, z ∙ r))))

pub drain_batch : (batch : List Job) (s : State) → s.batch ≡ batch → Inv s → Gets s (Polled s [])
drain_batch [] s b i =
    Gets-then s (Polled s s.batch) (Polled s []) (drain_polls s.polls s refl i)
      (λ t j (q, p, c, r). (t, done, j, (q, p, c ∙ b, r)))
drain_batch (job ∷ batch) s b i =
    Gets-then s (Polled s s.batch) (Polled s []) (drain_polls s.polls s refl i) (λ t j (q, p, c, r).
      Gets-then t (λ u. (u.batch ≡ left_over job batch) × (rest u ≡ rest t)) (Polled s [])
        (one_job job batch t q p (c ∙ b) j)
        (λ u h (d, z).
          Gets-then u (λ v. (v.batch ≡ batch) × (rest v ≡ rest u)) (Polled s [])
            (whole_job job batch u d h)
            (λ v g (f, y).
              Gets-then v (Polled v []) (Polled s []) (drain_batch batch v f g)
                (λ w k (a, l, m, x). (w, done, k, (a, l, m, x ∙ y ∙ z ∙ r))))))
