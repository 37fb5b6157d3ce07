-- ===== src/Spsc/Window.antt =====
-- exercises/deadlinelab/spsc_queue.h: the slots from `head_` up to `tail_`, round the end of the array.
use going_unmanaged.Prelude.{
  ℕ, zero, suc, ◌+◌, ◌-◌, ◌<◌, ◌≡◌, ◌≢◌, ◌↔◌, refl, ◌∙◌, List, [], ◌∷◌, ◌++◌, some, arith,
  if◌then◌else◌, ltb, get_elem?, set, length, get_elem?-set_ne,
}
use going_unmanaged.Spsc.{next_index}

-- `k` slots behind the slot `i`.
unfoldable pub advance : ℕ → ℕ → ℕ → ℕ
advance n i zero = i
advance n i (suc k) = advance n (next_index n i) k

-- Below `n` steps it wraps once at most.
advance_lem :
    (n i k : ℕ) → i < n → k < n → advance n i k ≡ (if ltb (i + k) n then i + k else i + k - n)
unfolding advance
advance_lem n i zero h l = ground arith
advance_lem n i (suc k) h l = ground (arith, advance_lem n (next_index n i) k)

pub advance-lt : (n i k : ℕ) → i < n → k < n → advance n i k < n
advance-lt n i k h l = ground (arith, advance_lem n i k h l)

-- So up to `n` slots in a row are different.
pub advance-ne : (n i j k : ℕ) → i < n → j < k → k < n → advance n i j ≢ advance n i k
advance-ne n i j k h l m e =
    ground (arith, advance_lem n i j h (omega arith), advance_lem n i k h m)

pub advance-suc : (n i k : ℕ) → advance n i (suc k) ≡ next_index n (advance n i k)
unfolding advance
advance-suc n i zero = refl
advance-suc n i (suc k) = advance-suc n (next_index n i) k

-- The queue is full, with `n - 1` values in `n` slots, exactly when the slot behind the last one is
-- the first; it is empty exactly when the indices are equal.
pub full_iff : (n i k : ℕ) → i < n → k < n → (next_index n (advance n i k) ≡ i) ↔ (k + 1 ≡ n)
full_iff n i k h l = ground (arith, advance_lem n i k h l)

pub empty_iff : (n i k : ℕ) → i < n → k < n → (i ≡ advance n i k) ↔ (k ≡ 0)
empty_iff n i k h l = ground (arith, advance_lem n i k h l)

-- The slots from `i` on hold these values.
abbrev pub Holds : {A : Type 0} → ℕ → List A → ℕ → List A → Type 0
Holds n slots i [] = Unit
Holds n slots i (x ∷ xs) = (get_elem? slots i ≡ some x) × Holds n slots (next_index n i) xs

-- One more value at the end.
pub Holds-snoc :
    {A : Type 0} (n : ℕ) (slots : List A) (i : ℕ) (xs : List A) (v : A)
    → Holds n slots i xs
    → get_elem? slots (advance n i (length xs)) ≡ some v
    → Holds n slots i (xs ++ v ∷ [])
unfolding advance
Holds-snoc n slots i [] v h e = (e, tt)
Holds-snoc n slots i (x ∷ xs) v h e = (h.0, Holds-snoc n slots (next_index n i) xs v h.1 e)

-- A write outside the window.
pub Holds-set :
    {A : Type 0} (n : ℕ) (slots : List A) (i : ℕ) (xs : List A) (t : ℕ) (v : A)
    → ((k : ℕ) → k < length xs → t ≢ advance n i k)
    → Holds n slots i xs
    → Holds n (set slots t v) i xs
unfolding advance
Holds-set n slots i [] t v out h = tt
Holds-set n slots i (x ∷ xs) t v out h = (
  get_elem?-set_ne slots t i v (out 0 (omega arith)) ∙ h.0,
  Holds-set n slots (next_index n i) xs t v (λ k l. out (suc k) (omega arith)) h.1,
)
