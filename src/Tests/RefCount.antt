-- ===== src/Tests/RefCount.antt =====
-- exercises/comlab: a project of two Things, whose second is active.
use going_unmanaged.Prelude.{ℕ, zero, suc, ◌≡◌, refl, List, [], ◌∷◌, none, some, true}
use going_unmanaged.RefCount.{
  State, thing_sum, no_err, setup, shutdown, thing_acquire, project_peek_active,
}
use going_unmanaged.RefCount.Handles.{
  Op, acquire, peek, copies, assigns, moves, move_assigns, destroys, setups, shutdowns, run, start,
  handle_at, adopt, share, copy_construct, copy_assign, move_construct, move_assign, destroy,
}
use going_unmanaged.RefCount.Safe.{run_balanced, no_leak}
use going_unmanaged.RefCount.Balance.{Inv}

abbrev client : List Op
client = setups 2 1 ∷ acquire 0 ∷ peek ∷ copies 0 ∷ assigns 0 1 ∷ shutdowns ∷ []

abbrev both_held : State
both_held = record {
  things =
      some (record { id = 1; refs = 1; values = 1 ∷ 1 ∷ 1 ∷ [] })
      ∷ some (record { id = 2; refs = 2; values = 2 ∷ 2 ∷ 2 ∷ [] })
      ∷ [];
  table = none;
  active = 1;
  live = 2;
  handles = some 1 ∷ some 1 ∷ some 0 ∷ [];
}

client-run : run client start ≡ some both_held
unfolding run start setup thing_acquire adopt share project_peek_active copy_construct copy_assign
    shutdown
client-run = refl

-- A copy is a second reference: the Thing outlives the project and the first handle.

sum_of_second : thing_sum (some 1) true both_held ≡ some (no_err, some 6)
unfolding thing_sum
sum_of_second = refl

abbrev closing : List Op
closing =
    setups 2 1
    ∷ acquire 0
    ∷ peek
    ∷ moves 0
    ∷ move_assigns 1 2
    ∷ shutdowns
    ∷ destroys 2
    ∷ destroys 1
    ∷ destroys 0
    ∷ []

abbrev closed : State
closed = record {
  things = none ∷ none ∷ [];
  table = none;
  active = 1;
  live = 0;
  handles = none ∷ none ∷ none ∷ [];
}

closing-run : run closing start ≡ some closed
unfolding run start setup thing_acquire adopt share project_peek_active move_construct move_assign
    shutdown destroy
closing-run = refl

closed_handles : (i : ℕ) → handle_at closed i ≡ none
closed_handles zero = refl
closed_handles (suc zero) = refl
closed_handles (suc (suc zero)) = refl
closed_handles (suc (suc (suc i))) = refl

no_leak_example : closed.live ≡ 0
no_leak_example = no_leak closing closed closing-run refl closed_handles

run_balanced_example : (s : State) × (run client start ≡ some s) × Inv s
run_balanced_example = run_balanced client
