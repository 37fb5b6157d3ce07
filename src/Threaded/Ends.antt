-- ===== src/Threaded/Ends.antt =====
-- solutions/device_threaded_solution.cpp: Poller::Run ends when it is told to.
use going_unmanaged.Prelude.{
  ℕ, zero, suc, ◌≡◌, refl, ap, ◌∙◌, subst, [], Option, none, some, Option-cases, true, inl, inr,
}
use going_unmanaged.Threaded.{
  next, polls, Name, Phase, State, Reach, joining, testing, swapping, running, last_swap, last_run,
  finished, entries, is_empty, run_phase, poller,
}
use going_unmanaged.Threaded.Invariant.{Inv, PhaseKnows}
use going_unmanaged.Threaded.Poller.{Quiet}
use going_unmanaged.Threaded.Run.{poller-phase, all_closed, entries-none}
use going_unmanaged.Threaded.Safe.{reach-Inv}
use going_unmanaged.Threaded.Drain.{
  Leads, done, Gets, Gets-step, Gets-then, step-Inv, Polled, drain_batch,
}

-- So many steps of the poller's thread, with none of the other.
unfoldable pub poller_runs : ℕ → State → Option State
unfolding poller
poller_runs zero s = some s
poller_runs (suc k) s = elim (poller s) [ none ↦ none | some t ↦ poller_runs k t ]

-- They lead to a reached state.
pub poller_runs-Reach : (k : ℕ) (s t : State) → Reach s → poller_runs k s ≡ some t → Reach t
unfolding poller_runs
poller_runs-Reach zero s t r e = let same_state : s ≡ t = cc in subst Reach same_state r
poller_runs-Reach (suc k) s t r e = elim (Option-cases (poller s)) [
  | inl stuck ↦ let none_left : none ≡ some t = rw (poller_runs, stuck) at e in cc
  | inr (u, eq) ↦ poller_runs-Reach k u t (next r (polls eq)) (rw (poller_runs, eq) at e)
]

-- Nothing is left but the statements of Run, in a thread that was told to stop.
abbrev Idle : Phase → State → Type 0
Idle phase t =
    Quiet t
    × (t.polls ≡ [])
    × (t.batch ≡ [])
    × (t.main ≡ joining)
    × (t.stop ≡ true)
    × (t.phase ≡ phase)

abbrev Ended : State → Type 0
Ended t = (t.phase ≡ finished) × ((n : Name) → t.opened n ≡ none) × (t.sdk.open_count ≡ 0)

-- The batch of a swap is run.
run_swapped :
    (phase : Phase) (s : State)
    → s.main ≡ joining
    → s.stop ≡ true
    → s.phase ≡ phase
    → Inv s
    → Gets s (Idle phase)
run_swapped phase s m e f i =
    Gets-then s (Polled s []) (Idle phase) (drain_batch s.batch s refl i) (λ t j (q, p, b, r).
      (t, done, j, (q, p, b, ap (λ z. z.1) r ∙ m, ap (λ z. z.2) r ∙ e, ap (λ z. z.3) r ∙ f)))

-- One statement of Run.
statement :
    (phase : Phase) (s t : State) (P : State → Type 0)
    → Idle phase s
    → Inv s
    → run_phase phase s ≡ some t
    → (Inv t → Gets t P)
    → Gets s P
statement phase s t P (q, p, b, m, e, f) i r k =
    let eq = poller-phase s (some t) q p b (ap (λ z. run_phase z s) f ∙ r) in
    Gets-step s t P eq (k (step-Inv s t eq i))

end_finished : (s : State) → Inv s → Idle finished s → Gets s Ended
end_finished s i (q, p, b, m, e, f) =
    let (x, j, y) = subst (PhaseKnows s.main s.jobs s.batch) f (i.places).phase_knows in
    let (shut, none_open) = all_closed s i m j b in (s, done, i, (f, shut, none_open))

end_last_run : (s : State) → Inv s → Idle last_run s → Gets s Ended
unfolding run_phase is_empty
end_last_run s i (q, p, b, m, e, f) =
    let (x, j) = subst (PhaseKnows s.main s.jobs s.batch) f (i.places).phase_knows in
    let shut = entries-none s.opened (all_closed s i m j b).0 in
    let t = record s { phase = finished } in
    statement last_run s t Ended (q, p, b, m, e, f) i (rw (run_phase, shut) refl)
      (λ k. end_finished t k (q, p, b, m, e, refl))

end_last_swap : (s : State) → Inv s → Idle last_swap s → Gets s Ended
unfolding run_phase
end_last_swap s i (q, p, b, m, e, f) =
    let t = record s { batch = s.jobs; jobs = []; phase = last_run } in
    statement last_swap s t Ended (q, p, b, m, e, f) i refl
      (λ k. Gets-then t (Idle last_run) Ended (run_swapped last_run t m e refl k) end_last_run)

end_testing : (s : State) → Inv s → Idle testing s → Gets s Ended
unfolding run_phase
end_testing s i (q, p, b, m, e, f) =
    let t = record s { phase = last_swap } in
    statement testing s t Ended (q, p, b, m, e, f) i (rw (run_phase, e) refl)
      (λ k. end_last_swap t k (q, p, b, m, e, refl))

end_running : (s : State) → Inv s → Idle running s → Gets s Ended
unfolding run_phase
end_running s i (q, p, b, m, e, f) =
    let t = record s { polls = entries s.opened; phase = testing } in
    statement running s t Ended (q, p, b, m, e, f) i refl
      (λ k. Gets-then t (Idle testing) Ended (run_swapped testing t m e refl k) end_testing)

end_swapping : (s : State) → Inv s → Idle swapping s → Gets s Ended
unfolding run_phase
end_swapping s i (q, p, b, m, e, f) =
    let t = record s { batch = s.jobs; jobs = []; phase = running } in
    statement swapping s t Ended (q, p, b, m, e, f) i refl
      (λ k. Gets-then t (Idle running) Ended (run_swapped running t m e refl k) end_running)

end-Idle : (phase : Phase) (s : State) → Inv s → Idle phase s → Gets s Ended
end-Idle testing s i k = end_testing s i k
end-Idle swapping s i k = end_swapping s i k
end-Idle running s i k = end_running s i k
end-Idle last_swap s i k = end_last_swap s i k
end-Idle last_run s i k = end_last_run s i k
end-Idle finished s i k = end_finished s i k

pub Leads-runs : {s t : State} → Leads s t → (k : ℕ) × (poller_runs k s ≡ some t)
unfolding poller_runs
Leads-runs Leads.done = (0, refl)
Leads-runs (Leads.more e l) = let (k, r) = Leads-runs l in (suc k, rw (poller_runs, e) r)

-- From every reached state in which the main thread waits in StopAndJoin, some number of steps of the
-- poller's thread brings it to the end of Run, where no name is open and the SDK counts no open handle.
pub run_ends :
    (s : State)
    → Reach s
    → s.main ≡ joining
    → (k : ℕ) × (t : State) × (poller_runs k s ≡ some t)
      × (t.phase ≡ finished)
      × ((n : Name) → t.opened n ≡ none)
      × (t.sdk.open_count ≡ 0)
run_ends s r m =
    let i = reach-Inv r in
    let (t, l, j, (f, c, z)) =
      Gets-then s (Idle s.phase) Ended (run_swapped s.phase s m ((i.places).set_stop m) refl i)
        (end-Idle s.phase) in
    let (k, e) = Leads-runs l in (k, t, e, f, c, z)
