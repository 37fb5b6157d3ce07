-- ===== src/Counter.antt =====
-- exercises/constlab/counter.h: Counter, whose average is cached. The average of a list of samples is a
-- parameter `mean` into a type of numbers, for floating point is not modelled. The non-const At gives a
-- reference: `refer` is the call, and `write_through` a later write through it.
pub mod Fresh
use going_unmanaged.Prelude.{
  ℕ, ◌+◌, List, [], ◌∷◌, ◌++◌, Option, Bool, true, false, not, if◌then◌else◌, length, get_elem?,
  set,
}
use going_unmanaged.Plugin.Int32.{ℤ}

pub record Counter (D : Type 0) : Type 0 where
  pub samples : List ℤ
  pub average : D
  pub cached : Bool
  pub recomputes : ℕ

module _ {D : Type 0} where
  -- A new counter; `zero_value` is 0.0.
  unfoldable pub new_counter : D → Counter D
  new_counter zero_value = record {
    samples = [];
    average = zero_value;
    cached = false;
    recomputes = 0;
  }

  unfoldable pub size : Counter D → ℕ
  size c = length c.samples

  -- Average: what it returns, and the mutable members behind the call.
  unfoldable pub take_average : (List ℤ → D) → Counter D → D × Counter D
  take_average mean c =
      if not c.cached
      then (
        mean c.samples,
        record c { average = mean c.samples; cached = true; recomputes = c.recomputes + 1 },
      )
      else (c.average, c)

  -- At of a const Counter.
  unfoldable pub at_const : ℕ → Counter D → Option ℤ
  at_const i c = get_elem? c.samples i

  unfoldable pub refer : ℕ → Counter D → Counter D
  refer i c = record c { cached = false }

  unfoldable pub write_through : ℕ → ℤ → Counter D → Counter D
  write_through i value c = record c { samples = set c.samples i value }

  unfoldable pub add_sample : ℤ → Counter D → Counter D
  add_sample sample c = record c { samples = c.samples ++ sample ∷ []; cached = false }
