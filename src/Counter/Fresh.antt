-- ===== src/Counter/Fresh.antt =====
-- exercises/constlab/counter.h: the cache is never seen.
use going_unmanaged.Prelude.{ℕ, ◌≡◌, refl, List, Bool-cases, true, inl, inr}
use going_unmanaged.Plugin.Int32.{ℤ}
use going_unmanaged.Counter.{Counter, new_counter, take_average, refer, write_through, add_sample}

module _ {D : Type 0} (mean : List ℤ → D) (zero_value : D) where
  -- What a client reaches whose every write follows the At that gave the reference.
  pub data Reached : Counter D → Type 0 where
    new : Reached (new_counter zero_value)
    averaged : (c : Counter D) → Reached c → Reached (take_average mean c).1
    added : (sample : ℤ) (c : Counter D) → Reached c → Reached (add_sample sample c)
    wrote :
        (i : ℕ) (value : ℤ) (c : Counter D)
        → Reached c
        → Reached (write_through i value (refer i c))

  Reached-fresh : (c : Counter D) → Reached c → c.cached ≡ true → c.average ≡ mean c.samples
  unfolding new_counter add_sample refer write_through take_average
  Reached-fresh c new e = cc
  Reached-fresh c (averaged d r) e = elim (Bool-cases d.cached) [
    | inl y ↦ rw (take_average, y) (Reached-fresh d r y)
    | inr n ↦ rw (take_average, n) refl
  ]
  Reached-fresh c (added sample d r) e = cc
  Reached-fresh c (wrote i value d r) e = cc

  -- Average gives the average of the samples, cached or not, in all that such a client reaches.
  pub take_average_lem : (c : Counter D) → Reached c → (take_average mean c).0 ≡ mean c.samples
  unfolding take_average
  take_average_lem c r = elim (Bool-cases c.cached) [
    | inl y ↦ rw (take_average, y) (Reached-fresh c r y)
    | inr n ↦ rw (take_average, n) refl
  ]
