-- ===== src/Tests/Device.antt =====
-- solutions/device_solution.cpp: a session that is opened, listens, is moved, polls and goes, over the
-- SDK of exercises/fakedevice.
use going_unmanaged.Prelude.{arith, ℕ, ◌≡◌, refl, List, [], ◌∷◌, ◌++◌, Option, none, some, codes}
use going_unmanaged.Device.{sensor1, dev_ok, put}
use going_unmanaged.Device.Session.{
  State, start, poll, construct, open_session, on_sample, inject, move_construct, destroy,
}
use going_unmanaged.Device.Session.Safe.{Keeps}
use going_unmanaged.Device.Session.Run.{
  Op, constructs, opens, hears, injects, moves, polls, destroys, run, run_safe, none_open,
  poll_delivers,
}

-- The session is object 0, the one that Open makes and destroys is object 1, and the moved one object 2.
abbrev until_moved : List Op
until_moved = constructs ∷ opens (codes "sensor1") 0 ∷ hears 0 (some 7) ∷ injects 0 2 ∷ moves 0 ∷ []

abbrev all_gone : List Op
all_gone = until_moved ++ polls 2 ∷ destroys 0 ∷ destroys 2 ∷ []

abbrev state_after : Option State → State
state_after none = start
state_after (some s) = s

abbrev after_move : State
after_move = state_after (run until_moved start)

abbrev at_the_end : State
at_the_end = state_after (run all_gone start)

both_received : at_the_end.received ≡ (7, 100) ∷ (7, 101) ∷ []
unfolding run construct start open_session on_sample inject move_construct poll
both_received = refl

run_safe_example : Keeps (run all_gone start)
run_safe_example = run_safe all_gone

gone : (p : ℕ) → at_the_end.objects p ≡ none
unfolding run construct start open_session on_sample inject move_construct poll destroy
gone p = ground arith

none_open_example : at_the_end.sdk.open_count ≡ 0
unfolding run construct start open_session on_sample inject move_construct poll
none_open_example = none_open all_gone at_the_end refl gone

poll_delivers_example : poll 2 after_move ≡ (
  dev_ok,
  some (record after_move {
    sdk = put sensor1 (record (after_move.sdk.devices sensor1) { pending = [] }) after_move.sdk;
    received = (7, 100) ∷ (7, 101) ∷ [];
  }),
)
unfolding run construct start open_session on_sample inject move_construct
poll_delivers_example =
    poll_delivers until_moved after_move 2 (record { handle = some sensor1; on_sample = some 7 })
      sensor1 refl refl refl
