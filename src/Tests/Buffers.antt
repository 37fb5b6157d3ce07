-- ===== src/Tests/Buffers.antt =====
-- solutions/Buffer.h: the moves and copies of the demo in solutions/buffer.cpp, and misuse.
use going_unmanaged.Prelude.{ℕ, ◌≡◌, refl, List, [], ◌∷◌, none, some, ◌⊎◌}
use going_unmanaged.Buffers.{State, nothing_made, construct, destroy, at, set_at, free}
use going_unmanaged.Buffers.Values.{Values, block_of}
use going_unmanaged.Buffers.Run.{
  Op, run, step, value_run, value_step, value_at, no_values, value_semantics,
}

-- A buffer is written, copied, moved from, assigned to, and its copy is destroyed.
abbrev program : List (Op ℕ)
program =
    Op.constructs 3
    ∷ Op.sets 0 1 7
    ∷ Op.copies 0
    ∷ Op.sets 1 1 8
    ∷ Op.moves 0
    ∷ Op.assigns 0 1
    ∷ Op.move_assigns 0 0
    ∷ Op.swaps 0 2
    ∷ Op.destroys 1
    ∷ []

unfoldable values_after : Values ℕ
unfolding value_run
values_after = elim (value_run 0 program no_values) [ none ↦ no_values | some v ↦ v ]

value_semantics_example :
    (s : State ℕ) × (run 0 program nothing_made ≡ some s)
    × ((p k : ℕ) → at p k s ≡ value_at p k values_after)
    × ((b : ℕ) → (s.blocks b ≡ none) ⊎ ((p : ℕ) × (block_of (s.objects p) ≡ some b)))
unfolding values_after value_run value_step
value_semantics_example = value_semantics 0 program values_after refl

test_values : (value_at 0 1 values_after ≡ some 7) × (value_at 2 1 values_after ≡ some 8)
unfolding values_after value_run value_step value_at
test_values = (refl, refl)

-- A second destructor of one object, and At past the end.
test_twice :
    run 0 (Op.constructs 1 ∷ Op.destroys 0 ∷ Op.destroys 0 ∷ []) (nothing_made {A = ℕ}) ≡ none
unfolding run step nothing_made construct destroy free
test_twice = refl

test_past : run 0 (Op.constructs 1 ∷ Op.sets 0 1 5 ∷ []) (nothing_made {A = ℕ}) ≡ none
unfolding run step nothing_made construct set_at
test_past = refl
