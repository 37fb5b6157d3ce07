-- ===== src/Tests/Counter.antt =====
-- exercises/constlab/counter.h, with the number of the samples for their average: a reference that is
-- written to behind Average.
use going_unmanaged.Prelude.{◌≡◌, refl, List, [], ◌∷◌}
use going_unmanaged.Plugin.Int32.{ℤ, pos}
use going_unmanaged.Counter.{Counter, new_counter, take_average, refer, write_through, add_sample}

abbrev first : List ℤ → ℤ
first [] = pos 0
first (sample ∷ samples) = sample

abbrev referred : Counter ℤ
referred = (take_average first (refer 0 (add_sample (pos 1) (new_counter (pos 0))))).1

stale : (take_average first (write_through 0 (pos 5) referred)).0 ≡ pos 1
unfolding take_average write_through refer add_sample new_counter
stale = refl
