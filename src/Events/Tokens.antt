-- ===== src/Events/Tokens.antt =====
-- exercises/cookbook/events.cpp: a token names one subscription.
use going_unmanaged.Prelude.{
  ℕ, ◌+◌, ◌<◌, ◌≡◌, refl, ap, List, [], ◌∷◌, ◌++◌, Bool-cases, ◌==◌, ==_refl, ne→==, All, arith,
  inl, inr,
}
use going_unmanaged.Events.{
  SampleSource, new_source, subscribe, remove_id, unsubscribe, calls_for, raise,
}

-- Every token given out is below the next one.
abbrev pub Below : ℕ → List (ℕ × ℕ) → Type 0
Below n = All (λ entry. entry.0 < n)

-- The sources that a client can reach.
pub data Reached : SampleSource → Type 0 where
  new : Reached new_source
  subscribed : (handler : ℕ) (s : SampleSource) → Reached s → Reached (subscribe handler s).1
  unsubscribed : (id : ℕ) (s : SampleSource) → Reached s → Reached (unsubscribe id s)

Below-mono : (n : ℕ) (es : List (ℕ × ℕ)) → Below n es → Below (n + 1) es
Below-mono n [] b = tt
Below-mono n (e ∷ es) (b, bs) = (omega arith, Below-mono n es bs)

Below-append :
    (n : ℕ) (es : List (ℕ × ℕ)) (e : ℕ × ℕ) → Below n es → e.0 < n → Below n (es ++ e ∷ [])
Below-append n [] e b l = (l, tt)
Below-append n (x ∷ es) e (b, bs) l = (b, Below-append n es e bs l)

Below-remove_id : (n id : ℕ) (es : List (ℕ × ℕ)) → Below n es → Below n (remove_id id es)
unfolding remove_id
Below-remove_id n id [] b = tt
Below-remove_id n id ((entry, handler) ∷ es) (b, bs) = elim (Bool-cases (entry == id)) [
  | inl y ↦ rw y (Below-remove_id n id es bs)
  | inr m ↦ rw m (b, Below-remove_id n id es bs)
]

Reached-Below : (s : SampleSource) → Reached s → Below s.next_id s.handlers
unfolding new_source subscribe unsubscribe
Reached-Below s new = tt
Reached-Below s (subscribed handler s' r) =
    Below-append (s'.next_id + 1) s'.handlers (s'.next_id, handler)
      (Below-mono s'.next_id s'.handlers (Reached-Below s' r)) (omega arith)
Reached-Below s (unsubscribed id s' r) =
    Below-remove_id s'.next_id id s'.handlers (Reached-Below s' r)

calls_for-append :
    (sample : ℕ) (es es' : List (ℕ × ℕ))
    → calls_for sample (es ++ es') ≡ calls_for sample es ++ calls_for sample es'
unfolding calls_for
calls_for-append sample [] es' = refl
calls_for-append sample ((entry, handler) ∷ es) es' =
    ap (λ t. (handler, sample) ∷ t) (calls_for-append sample es es')

remove_id-last :
    (id handler : ℕ) (es : List (ℕ × ℕ))
    → Below id es
    → remove_id id (es ++ (id, handler) ∷ []) ≡ es
unfolding remove_id
remove_id-last id handler [] b = rw (==_refl id) refl
remove_id-last id handler ((entry, h) ∷ es) (b, bs) =
    rw (ne→== entry id (λ e. absurd (omega arith)))
      (ap (λ t. (entry, h) ∷ t) (remove_id-last id handler es bs))

-- In every source that a client can reach, a new handler is called last, and to unsubscribe with its token
-- takes away this handler alone.
pub subscribe_lem :
    (handler sample : ℕ) (s : SampleSource)
    → Reached s
    → (raise sample (subscribe handler s).1 ≡ raise sample s ++ (handler, sample) ∷ [])
      × (raise sample (unsubscribe (subscribe handler s).0 (subscribe handler s).1)
          ≡ raise sample s)
unfolding raise subscribe unsubscribe calls_for
subscribe_lem handler sample s r = (
  calls_for-append sample s.handlers ((s.next_id, handler) ∷ []),
  ap (calls_for sample) (remove_id-last s.next_id handler s.handlers (Reached-Below s r)),
)
