-- ===== src/Tests/Threaded.antt =====
-- solutions/device_threaded_solution.cpp: one Session on sensor0, which is destroyed behind its first sample.
use going_unmanaged.Prelude.{ℕ, ◌+◌, ◌%◌, ◌≡◌, refl, [], ◌∷◌, none, some, true, false, arith}
use going_unmanaged.Device.{sensor0, sensor1, sensor2, sensor3}
use going_unmanaged.Threaded.{
  flush, flushes, State, Name, Reach, here, next, initial, construct, tell, ask, leave, poller,
  constructs, tells, asks, leaves, stops, polls, joining, finished,
}
use going_unmanaged.Threaded.Ends.{poller_runs, poller_runs-Reach, run_ends}
use going_unmanaged.Threaded.Wakes.{flush_returns}
use going_unmanaged.Threaded.Outcome.{samples_in_order, none_late, no_assertion_fails}

unfoldable after : ℕ → State → State
unfolding poller_runs
after k s = elim (poller_runs k s) [ none ↦ s | some t ↦ t ]

unfoldable made : State
unfolding initial construct
made = construct sensor0 initial

unfoldable one_sample : State
unfolding after made
one_sample = after 7 made

test_samples : (one_sample.sinks 0).samples ≡ 100 ∷ []
unfolding one_sample after made
test_samples = refl

made-Reach : Reach made
unfolding made initial
made-Reach = next here (constructs sensor0 refl refl)

one_sample-Reach : Reach one_sample
unfolding one_sample after made poller_runs
one_sample-Reach = poller_runs-Reach 7 made one_sample made-Reach refl

samples_in_order_example : 100 ≡ 100 + 0 % 8
unfolding one_sample after made
samples_in_order_example = samples_in_order one_sample 0 0 100 one_sample-Reach refl

unfoldable told_state : State
unfolding one_sample tell
told_state = tell sensor0 0 one_sample

told_state-Reach : Reach told_state
unfolding told_state one_sample after made
told_state-Reach = next one_sample-Reach (tells sensor0 0 refl refl)

-- The next sample is on its way to the Sink of the Session that was told, and is dropped.
unfoldable late : State
unfolding after told_state
late = after 1 told_state

unfoldable dropped_one : State
unfolding after told_state
dropped_one = after 2 told_state

late-Reach : Reach late
unfolding late after told_state one_sample made poller_runs
late-Reach = poller_runs-Reach 1 told_state late told_state-Reach refl

none_late_example :
    ((dropped_one.sinks 0).samples ≡ (late.sinks 0).samples) × ((dropped_one.sinks 0).alive ≡ false)
unfolding dropped_one late after told_state one_sample made poller_runs
none_late_example = none_late late dropped_one 0 late-Reach (polls refl) (omega arith) refl

no_assertion_fails_example : (t : State) × (poller one_sample ≡ some t)
no_assertion_fails_example = no_assertion_fails one_sample one_sample-Reach

-- The main thread goes on to StopAndJoin.
unfoldable left_state : State
unfolding told_state ask leave
left_state = leave 0 (ask sensor0 0 told_state)

unfoldable stopped : State
unfolding left_state
stopped = record left_state { stop = true; main = joining }

sessions_none : (n : Name) → left_state.sessions n ≡ none
unfolding left_state told_state ask leave tell one_sample after made
sessions_none sensor0 = refl
sessions_none sensor1 = refl
sessions_none sensor2 = refl
sessions_none sensor3 = refl

left_state-Reach : Reach left_state
unfolding left_state told_state ask leave tell
left_state-Reach = next (next told_state-Reach (asks sensor0 0 refl)) (leaves 0 refl)

stopped-Reach : Reach stopped
unfolding stopped left_state told_state ask leave tell one_sample after made
stopped-Reach = next left_state-Reach (stops refl (λ n. sessions_none n))

run_ends_example :
    (k : ℕ) × (t : State) × (poller_runs k stopped ≡ some t)
    × (t.phase ≡ finished)
    × ((n : Name) → t.opened n ≡ none)
    × (t.sdk.open_count ≡ 0)
unfolding stopped
run_ends_example = run_ends stopped stopped-Reach refl

test_ends : (after 40 stopped).phase ≡ finished
unfolding stopped left_state told_state ask leave tell one_sample after made
test_ends = refl

-- FlushAndWait behind the first Session, as in the first part of main.
unfoldable flushing : State
unfolding made flush
flushing = flush made

flushing-Reach : Reach flushing
unfolding flushing made initial construct
flushing-Reach = next made-Reach (flushes refl)

flush_returns_example :
    (k : ℕ) × (t : State) × (poller_runs k flushing ≡ some t) × (t.kept_promise ≡ true)
unfolding flushing flush
flush_returns_example = flush_returns flushing flushing-Reach refl

test_one_batch :
    ((after 22 flushing).kept_promise ≡ true)
    × (((after 22 flushing).sinks 0).samples ≡ 100 ∷ 101 ∷ 102 ∷ 103 ∷ 104 ∷ 105 ∷ 106 ∷ 107 ∷ [])
unfolding flushing flush made after
test_one_batch = (refl, refl)
