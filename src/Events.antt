-- ===== src/Events.antt =====
-- exercises/cookbook/events.cpp, recipe 14: SampleSource. A handler is its number, and raise gives the calls
-- that it makes, in their order.
pub mod Tokens
use going_unmanaged.Prelude.{ℕ, ◌+◌, List, [], ◌∷◌, ◌++◌, Bool, true, false, if◌then◌else◌, ◌==◌}

pub record SampleSource : Type 0 where
  pub handlers : List (ℕ × ℕ)
  pub next_id : ℕ

unfoldable pub new_source : SampleSource
new_source = record { handlers = []; next_id = 0 }

-- The token, and the source behind the call.
unfoldable pub subscribe : ℕ → SampleSource → ℕ × SampleSource
subscribe handler s = (
  s.next_id,
  record { handlers = s.handlers ++ (s.next_id, handler) ∷ []; next_id = s.next_id + 1 },
)

-- std::remove_if and erase.
unfoldable pub remove_id : ℕ → List (ℕ × ℕ) → List (ℕ × ℕ)
remove_id id [] = []
remove_id id ((entry, handler) ∷ handlers) =
    let rest = remove_id id handlers in if entry == id then rest else (entry, handler) ∷ rest

unfoldable pub unsubscribe : ℕ → SampleSource → SampleSource
unfolding remove_id
unsubscribe id s = record s { handlers = remove_id id s.handlers }

unfoldable pub calls_for : ℕ → List (ℕ × ℕ) → List (ℕ × ℕ)
calls_for sample [] = []
calls_for sample ((entry, handler) ∷ handlers) = (handler, sample) ∷ calls_for sample handlers

unfoldable pub raise : ℕ → SampleSource → List (ℕ × ℕ)
unfolding calls_for
raise sample s = calls_for sample s.handlers
