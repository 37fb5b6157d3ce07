-- ===== src/Tests/Bridge.antt =====
-- exercises/bridgelab: a command that asks the host for an undo step, and the reentrancy test of main.cpp.
use going_unmanaged.Prelude.{
  ℕ, ◌≡◌, ◌⊎◌, ◌++◌, refl, List, [], ◌∷◌, Option, some, none, true, false, codes, get_elem?, length,
  replicate, ◌>>=◌, bytes_eq,
}
use going_unmanaged.Bridge.{
  CommandResult, Host, Handler, Job, gives, calls_post, calls_drain, Completion, returned, number,
  thrown, State, Core, ready, ticket, escapes, initial, post, drain_begin, take_front, drain_end,
  drain, act, invoke, invoke_job, find_handler, run_undoable, set_modal, start, register_command,
  host_busy,
}
use going_unmanaged.Bridge.Order.{Reach, here, next, posts, begins, takes, acts, Inv, Reach-Inv}
use going_unmanaged.Bridge.Drain.{Ran, drain_runs_all, drain_busy, invoke_answered}

abbrev paint : Handler
paint args = run_undoable (codes "paint") (gives (returned (record { done = true; text = args })))

abbrev red : Job
red = invoke_job paint (codes "red")

-- The job that posts another one and calls Drain.
abbrev forty_one : Job
forty_one = gives (number 41)

abbrev pumping : Job
pumping = calls_post forty_one (λ later. calls_drain (λ n. gives (number n)))

abbrev quiet : Host
quiet = record { modal = false; undo = [] }

abbrev s1 : State
s1 = post pumping (initial quiet)

-- Another thread posts before the job is begun.
abbrev s2 : State
s2 = take_front pumping [] (post red (drain_begin s1))

first_steps : Reach (initial quiet) s2
unfolding initial post drain_begin
first_steps =
    next
      (next (next (next here (posts (initial quiet) pumping)) (begins s1 refl))
        (posts (drain_begin s1) red))
      (takes (post red (drain_begin s1)) pumping [] refl refl refl)

abbrev s3 : State
s3 = record (post forty_one s2) { current = some (calls_drain (λ n. gives (number n))) }

Reach-Inv_example : Inv s3
unfolding act post take_front
Reach-Inv_example = Reach-Inv quiet s3 (next first_steps (acts s2 s3 pumping refl refl))

drain_runs_all_example :
    ((s1.draining ≡ true) × (drain s1 ≡ some (0, s1)))
    ⊎ ((s1.draining ≡ false) × (t : State) × (drain s1 ≡ some (length s1.jobs, t)) × Ran s1 t)
drain_runs_all_example =
    drain_runs_all s1 (Reach-Inv quiet s1 (next here (posts (initial quiet) pumping)))

-- The pumping job alone runs and its Drain gives 0; the job that it posted runs in the next Drain.
abbrev counts_and_completions : Option (ℕ × List Completion × ℕ × List Completion)
counts_and_completions = do (n, t) ← drain s1; (m, u) ← drain t; some (n, t.answers, m, u.answers)

reentrancy : counts_and_completions ≡ some (1, number 0 ∷ [], 1, number 0 ∷ number 41 ∷ [])
unfolding drain post initial drain_begin drain_end
reentrancy = refl

abbrev waiting : State
waiting = post red (initial quiet)

waiting_free : waiting.draining ≡ false
unfolding initial post
waiting_free = refl

abbrev undo_steps : Option (ℕ × State) → Option (List (List ℕ))
undo_steps r = do (n, t) ← r; some t.host.undo

painted : undo_steps (drain waiting) ≡ some (codes "paint" ∷ [])
unfolding drain post initial drain_begin drain_end invoke_job run_undoable
painted = refl

abbrev busy : State
busy = record waiting { host = set_modal true quiet }

drain_busy_example :
    (t : State) × (drain busy ≡ some (length busy.jobs, t))
    × (t.host ≡ busy.host)
    × (t.answers ≡ busy.answers ++ replicate (length busy.jobs) (returned host_busy))
unfolding set_modal initial post
drain_busy_example = drain_busy busy refl ((paint, codes "red", refl), tt) refl

abbrev served : Core
served = record { started = true; handlers = (codes "paint", paint) ∷ [] }

wired :
    register_command (codes "paint") paint (record { started = false; handlers = [] })
    ≡ some (record served { started = false })
unfolding register_command
wired = refl

started : start (record served { started = false }) ≡ served
unfolding start
started = refl

-- A handler that throws: from another thread its future gets the exception, and on the main thread it
-- leaves Invoke.
abbrev broken : Core
broken = record { started = true; handlers = (codes "oops", (λ args. gives thrown)) ∷ [] }

thrown_on_main :
    invoke true (codes "oops") [] broken (initial quiet) ≡ some (escapes, initial quiet)
unfolding invoke initial bytes_eq
thrown_on_main = refl

invoke_answered_example :
    ((r : CommandResult) × (find_handler (codes "paint") served.handlers ≡ none)
      × (invoke false (codes "paint") (codes "red") served waiting ≡ some (ready r, waiting)))
    ⊎ ((handler : Handler) × (i : ℕ) × (s' : State) × (n : ℕ) × (t : State) × (c : Completion)
        × (find_handler (codes "paint") served.handlers ≡ some handler)
        × (invoke false (codes "paint") (codes "red") served waiting ≡ some (ticket i, s'))
        × (drain s' ≡ some (n, t))
        × (get_elem? t.ran i ≡ some (invoke_job handler (codes "red")))
        × (get_elem? t.answers i ≡ some c))
invoke_answered_example =
    invoke_answered (codes "paint") (codes "red") served waiting
      (Reach-Inv quiet waiting (next here (posts (initial quiet) red))) waiting_free refl
