-- ===== src/Bridge/Drain.antt =====
-- exercises/bridgelab: what one Drain does, and what a caller of Invoke gets.
use going_unmanaged.Prelude.{
  ℕ, zero, suc, ◌<◌, ◌≡◌, refl, ap, ◌∙◌, sym, List, [], ◌∷◌, ◌++◌, append_assoc, append-nil, none,
  some, true, false, length, length-append, arith, replicate, get_elem?, Bytes, codes, Option-cases,
  Bool-cases, ◌⊎◌, inl, inr, All,
}
use going_unmanaged.Bridge.{
  Job, Completion, returned, Handler, State, Core, ready, ticket, CommandResult, host_busy, post,
  drain_begin, take_front, job_done, drain_end, drain_nested, call, drain_loop, drain, invoke_job,
  is_idle, invoke, find_handler,
}
use going_unmanaged.Bridge.Order.{Inv, post-Inv, drain_begin-Inv}
use going_unmanaged.Bridge.Loop.{drain_loop_lem}

-- What a Drain that is not nested leaves: everything that had been posted before it has run, in its order
-- and with a completion, and what its own jobs posted is queued.
pub record Ran (s t : State) : Type 0 where
  pub inv : Inv t
  pub not_draining : t.draining ≡ false
  pub batch_ran : t.ran ≡ s.ran ++ s.jobs
  pub all_ran : t.ran ≡ s.posted
  pub kept : t.posted ≡ s.posted ++ t.jobs
  pub answered : length t.answers ≡ length s.posted

-- In a state that satisfies Inv and with no other thread in between, Drain returns: a nested one 0, with
-- nothing done, and any other the number of the jobs that were queued, whatever these do. Then everything
-- that was posted before the Drain has run, in its order, and has its completion, and the jobs that the
-- jobs posted are those in the queue.
pub drain_runs_all :
    (s : State)
    → Inv s
    → ((s.draining ≡ true) × (drain s ≡ some (0, s)))
      ⊎ ((s.draining ≡ false) × (t : State) × (drain s ≡ some (length s.jobs, t)) × Ran s t)
unfolding drain drain_begin drain_end
drain_runs_all s i = elim (Bool-cases s.draining) [
  | inl y ↦ inl (y, rw (drain, y) refl)
  | inr n ↦
      let (t, looped, w) =
        drain_loop_lem s.jobs (drain_begin s) refl (i.no_job n) refl (drain_begin-Inv s n i) in
      let batchless : s.posted ≡ s.ran ++ s.jobs = rw (i.no_batch n) at i.order in
      let all_ran : t.ran ≡ s.posted = w.all_ran ∙ sym batchless in
      let idle = w.no_current in
      inr (
        n,
        drain_end t,
        rw (drain, n, looped) refl,
        record {
          inv = record {
            order = w.inv.order;
            answered = w.inv.answered;
            no_batch = λ h. w.empty;
            no_job = λ h. idle;
          };
          not_draining = refl;
          all_ran = all_ran;
          kept = w.more_posted ∙ ap (λ x. s.posted ++ x) (sym w.more_jobs);
          answered = omega (arith, rw idle at w.inv.answered, ap length all_ran);
          batch_ran = w.all_ran;
        },
      )
]

-- The jobs of Invoke.
abbrev pub IsInvoke : Job → Type 0
IsInvoke j = (handler : Handler) × (args : Bytes) × (j ≡ invoke_job handler args)

-- While the host is modal, a job of Invoke gives HOST_BUSY and leaves everything as it is.
busy_call :
    (j : Job) (s : State)
    → IsInvoke j
    → s.host.modal ≡ true
    → call drain_nested j s ≡ some (returned host_busy, s)
unfolding call invoke_job is_idle
busy_call j s (handler, args, e) m = rw e (rw m refl)

busy_loop :
    (batch : List Job) (s : State)
    → All IsInvoke batch
    → s.host.modal ≡ true
    → (t : State) × (drain_loop batch s ≡ some t)
      × (t.host ≡ s.host)
      × (t.answers ≡ s.answers ++ replicate (length batch) (returned host_busy))
unfolding drain_loop take_front job_done
busy_loop [] s h m = (s, refl, refl, sym (append-nil s.answers))
busy_loop (j ∷ rest) s h m =
    let busy = busy_call j (take_front j rest s) h.0 m in
    let (t, e, same, more) =
      busy_loop rest (job_done (returned host_busy) (take_front j rest s)) h.1 m in
    (
      t,
      rw (drain_loop, busy) e,
      same,
      more
          ∙ append_assoc s.answers (returned host_busy ∷ [])
              (replicate (length rest) (returned host_busy)),
    )

-- A Drain that is not nested, with only jobs of Invoke in the queue, the host modal and no other thread in
-- between, returns, leaves the host as it is, and answers HOST_BUSY to every job that was queued.
pub drain_busy :
    (s : State)
    → s.draining ≡ false
    → All IsInvoke s.jobs
    → s.host.modal ≡ true
    → (t : State) × (drain s ≡ some (length s.jobs, t))
      × (t.host ≡ s.host)
      × (t.answers ≡ s.answers ++ replicate (length s.jobs) (returned host_busy))
unfolding drain drain_begin drain_end
drain_busy s n h m =
    let (t, e, same, more) = busy_loop s.jobs (drain_begin s) h m in
    (drain_end t, rw (drain, n, e) refl, same, more)

get-in_range {ℓ} :
    {A : Type ℓ} (xs : List A) (i : ℕ) → i < length xs → (a : A) × (get_elem? xs i ≡ some a)
get-in_range [] i l = absurd (omega arith)
get-in_range (x ∷ xs) zero l = (x, refl)
get-in_range (x ∷ xs) (suc i) l = get-in_range xs i (omega arith)

get-behind {ℓ} : {A : Type ℓ} (xs : List A) (x : A) → get_elem? (xs ++ x ∷ []) (length xs) ≡ some x
get-behind [] x = refl
get-behind (y ∷ xs) x = get-behind xs x

-- A call of Invoke from another thread, with the bridge started, no Drain running and Inv, answers at
-- once where no handler has the name, and otherwise gives a future that the next Drain completes, with no
-- other thread in between: that Drain returns, the job at the future's place among those that ran is the call's, and it
-- has its completion.
pub invoke_answered :
    (name args : Bytes) (b : Core) (s : State)
    → Inv s
    → s.draining ≡ false
    → b.started ≡ true
    → ((r : CommandResult) × (find_handler name b.handlers ≡ none)
        × (invoke false name args b s ≡ some (ready r, s)))
      ⊎ ((handler : Handler) × (i : ℕ) × (s' : State) × (n : ℕ) × (t : State) × (c : Completion)
          × (find_handler name b.handlers ≡ some handler)
          × (invoke false name args b s ≡ some (ticket i, s'))
          × (drain s' ≡ some (n, t))
          × (get_elem? t.ran i ≡ some (invoke_job handler args))
          × (get_elem? t.answers i ≡ some c))
unfolding invoke post
invoke_answered name args b s i d go = elim (Option-cases (find_handler name b.handlers)) [
  | inl w ↦
      let refusal : CommandResult = record {
        done = false;
        text = codes "NO_SUCH_COMMAND: " ++ name;
      } in
      inl (refusal, w, rw (invoke, go, w) refl)
  | inr (handler, w) ↦
      let job = invoke_job handler args in
      elim (drain_runs_all (post job s) (post-Inv job s i)) [
        | inl (bad, e) ↦ absurd (cc)
        | inr (e0, t, drained, ran) ↦
            let (c, e) =
              get-in_range t.answers (length s.posted)
                (omega (arith, ran.answered, length-append s.posted (job ∷ []))) in
            inr (
              handler,
              length s.posted,
              post job s,
              length (post job s).jobs,
              t,
              c,
              w,
              rw (invoke, go, w) refl,
              drained,
              ap (λ x. get_elem? x (length s.posted)) ran.all_ran ∙ get-behind s.posted job,
              e,
            )
      ]
]
