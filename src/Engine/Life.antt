-- ===== src/Engine/Life.antt =====
-- exercises/abilab/engine.cpp: an engine from its creation to its end.
use going_unmanaged.Prelude.{
  ◌≡◌, refl, ap, [], ◌∷◌, ◌++◌, Option, none, some, true, codes, length, set,
}
use going_unmanaged.Plugin.Int32.{ℤ, pos, times, fits}
use going_unmanaged.Engine.{
  EngineImpl, engine_ok, Engines, engine_create, engine_at, engine_score, engine_destroy,
}

engine_at-last : (es : Engines) (e : Option EngineImpl) → engine_at (length es) (es ++ e ∷ []) ≡ e
engine_at-last [] e = refl
engine_at-last (x ∷ es) e = engine_at-last es e

set-last :
    (es : Engines) (e e' : Option EngineImpl) → set (es ++ e ∷ []) (length es) e' ≡ es ++ e' ∷ []
set-last [] e e' = refl
set-last (x ∷ es) e e' = ap (λ t. x ∷ t) (set-last es e e')

-- The engines behind a creation.
abbrev pub with_engine : ℤ → Engines → Engines
with_engine seed es = es ++ some (record { seed = seed; note = codes "internal" }) ∷ []

-- An engine that is created scores twice its seed, where an int holds that, can be destroyed, and cannot be
-- destroyed again: the second time is undefined.
pub engine_life :
    (seed : ℤ) (es : Engines)
    → fits (times seed (pos 2)) ≡ true
    → (engine_create seed true true es ≡ (engine_ok, some (length es), with_engine seed es))
      × (engine_score (some (length es)) true (with_engine seed es)
          ≡ some (engine_ok, some (times seed (pos 2))))
      × (engine_destroy (some (length es)) (with_engine seed es)
          ≡ some (engine_ok, es ++ none ∷ []))
      × (engine_destroy (some (length es)) (es ++ none ∷ []) ≡ none)
unfolding engine_create engine_score engine_destroy
engine_life seed es h =
    let made : Option EngineImpl = some (record { seed = seed; note = codes "internal" }) in
    (
      refl,
      rw (engine_score, engine_at-last es made) (rw h refl),
      rw (engine_destroy, engine_at-last es made)
          (ap (λ t. some (engine_ok, t)) (set-last es made none)),
      rw (engine_destroy, engine_at-last es none) refl,
    )
