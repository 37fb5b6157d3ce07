-- ===== src/Engine.antt =====
-- exercises/abilab/engine.cpp: an engine behind a C interface. A handle is the place of an engine in the
-- list of all that were made, where a deleted one is `none`; a null handle or output parameter is `none` or
-- false. What is undefined, a dangling handle or a product that an int does not hold, is `none`.
pub mod Life
use going_unmanaged.Prelude.{
  ℕ, ◌+◌, List, [], ◌∷◌, ◌++◌, Option, none, some, Bool, true, false, not, if◌then◌else◌, Bytes,
  codes, length, get_elem?, set,
}
use going_unmanaged.Plugin.Int32.{ℤ, pos, times, fits}

pub record EngineImpl : Type 0 where
  pub seed : ℤ
  pub note : Bytes

pub data EngineCode : Type 0 where
  engine_ok engine_null engine_threw : EngineCode

abbrev pub Engines : Type 0
Engines = List (Option EngineImpl)

-- Engine_Create, by whether `out` is not null and whether `new` has the memory: the code, what is written to
-- `*out`, and the engines.
unfoldable pub engine_create : ℤ → Bool → Bool → Engines → EngineCode × Option ℕ × Engines
engine_create seed false memory es = (engine_null, none, es)
engine_create seed true false es = (engine_threw, none, es)
engine_create seed true true es =
    (engine_ok, some (length es), es ++ some (record { seed = seed; note = codes "internal" }) ∷ [])

abbrev pub engine_at : ℕ → Engines → Option EngineImpl
engine_at h es = elim (get_elem? es h) [ none ↦ none | some e ↦ e ]

-- Engine_Score: the code, and what is written to `*outScore`.
unfoldable pub engine_score : Option ℕ → Bool → Engines → Option (EngineCode × Option ℤ)
unfolding times fits
engine_score none out es = some (engine_null, none)
engine_score (some h) false es = some (engine_null, none)
engine_score (some h) true es = elim (engine_at h es) as (λ r. Option (EngineCode × Option ℤ)) [
  | none ↦ none
  | some e ↦
      if fits (times e.seed (pos 2)) then some (engine_ok, some (times e.seed (pos 2))) else none
]

unfoldable pub engine_destroy : Option ℕ → Engines → Option (EngineCode × Engines)
engine_destroy none es = some (engine_null, es)
engine_destroy (some h) es = elim (engine_at h es) as (λ r. Option (EngineCode × Engines)) [
  | none ↦ none
  | some e ↦ some (engine_ok, set es h none)
]
