-- ===== src/Threaded/Samples.antt =====
-- solutions/device_threaded_solution.cpp: the samples that the device hands out, and those of one Sink
-- among the calls that a poll makes.
use going_unmanaged.Prelude.{
  ℕ, suc, ◌+◌, ◌%◌, ◌≡◌, refl, ap, List, [], ◌∷◌, ◌++◌, Option, none, some, if◌then◌else◌, ◌==◌,
  ==_refl, length, length-append, get_elem?, arith, false, subst, zero,
}
use going_unmanaged.Device.{samples_from, calls_of}
use going_unmanaged.Threaded.{k_batch}

-- Sample number `i` is 100 + i % 8, and so on.
abbrev pub Follows : ℕ → List ℕ → Type 0
Follows i [] = Unit
Follows i (x ∷ xs) = (x ≡ 100 + i % k_batch) × Follows (i + 1) xs

-- A number of whole batches.
abbrev pub Whole : List ℕ → Type 0
Whole xs = Follows 0 xs × (length xs % k_batch ≡ 0)

pub Follows-front : (i : ℕ) (xs ys : List ℕ) → Follows i (xs ++ ys) → Follows i xs
Follows-front i [] ys h = tt
Follows-front i (x ∷ xs) ys h = (h.0, Follows-front (i + 1) xs ys h.1)

pub Follows-append :
    (i : ℕ) (xs ys : List ℕ) → Follows i xs → Follows (i + length xs) ys → Follows i (xs ++ ys)
Follows-append i [] ys h k = subst (λ j. Follows j ys) (omega arith) k
Follows-append i (x ∷ xs) ys h k =
    (h.0, Follows-append (i + 1) xs ys h.1 (subst (λ j. Follows j ys) (omega arith) k))

pub Follows-nth :
    (i : ℕ) (xs : List ℕ) (k x : ℕ)
    → Follows i xs
    → get_elem? xs k ≡ some x
    → x ≡ 100 + (i + k) % k_batch
Follows-nth i [] k x h e = cc
Follows-nth i (y ∷ xs) zero x h e = let same_value : y ≡ x = cc in ground (arith, h.0, same_value)
Follows-nth i (y ∷ xs) (suc k) x h e =
    let rest = Follows-nth (i + 1) xs k x h.1 e in omega (arith, rest)

batch-Follows : (i : ℕ) → i % k_batch ≡ 0 → Follows i (samples_from 0 k_batch)
unfolding samples_from
batch-Follows i h = (
  omega arith,
  (
    omega arith,
    (omega arith, (omega arith, (omega arith, (omega arith, (omega arith, (omega arith, tt)))))),
  ),
)

batch-length : length (samples_from 0 k_batch) ≡ 8
unfolding samples_from
batch-length = refl

pub Whole-batch : (xs : List ℕ) → Whole xs → Whole (xs ++ samples_from 0 k_batch)
Whole-batch xs h = (
  Follows-append 0 xs (samples_from 0 k_batch) h.0
      (batch-Follows (0 + length xs) (let w : length xs % k_batch ≡ 0 = h.1 in omega (arith, w))),
  let l = length-append xs (samples_from 0 k_batch) in
      let b = batch-length in let w : length xs % k_batch ≡ 0 = h.1 in omega (arith, l, b, w),
)

-- The samples that are on their way to a Sink.
abbrev pub coming : ℕ → List (ℕ × ℕ) → List ℕ
coming c [] = []
coming c ((d, x) ∷ calls) = if d == c then x ∷ coming c calls else coming c calls

pub coming-calls_self : (c : ℕ) (xs : List ℕ) → coming c (calls_of (some c) xs) ≡ xs
unfolding calls_of
coming-calls_self c [] = refl
coming-calls_self c (x ∷ xs) = rw (==_refl c) (ap (λ r. x ∷ r) (coming-calls_self c xs))

pub coming-calls_other :
    (c d : ℕ) (xs : List ℕ) → (d == c) ≡ false → coming c (calls_of (some d) xs) ≡ []
unfolding calls_of
coming-calls_other c d [] n = refl
coming-calls_other c d (x ∷ xs) n = rw n (coming-calls_other c d xs n)

pub coming-calls_none : (c : ℕ) (xs : List ℕ) → coming c (calls_of none xs) ≡ []
unfolding calls_of
coming-calls_none c xs = refl

-- The call under way, and the others.
abbrev pub with_flight : Option (ℕ × ℕ) → List (ℕ × ℕ) → List (ℕ × ℕ)
with_flight none calls = calls
with_flight (some p) calls = p ∷ calls
