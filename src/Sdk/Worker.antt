-- ===== src/Sdk/Worker.antt =====
-- solutions/fakesdk_solution.cpp: what SumAllThings adds up, and what it leaves allocated.
use going_unmanaged.Prelude.{
  ℕ, zero, suc, ◌+◌, ◌-◌, ◌*◌, ◌%◌, ◌≤◌, ◌<◌, ◌≡◌, refl, ap, ◌∙◌, some, if◌then◌else◌, ◌==◌, arith,
  Bool-cases, inl, inr, true, false, ==_iff, ==_refl, lt→ltb,
}
use going_unmanaged.Sdk.{
  Sdk, no_err, err_internal, fill, add_values, thing_get_data, thing_sum_values, thing_dispose_data,
  end_of_guard, one_less, after_get, after_sum, sum_loop, sum_all_things, thing_get_count,
}

-- The sum of the three, four or five values of a Thing with this index.
abbrev pub payload_of : ℕ → ℕ → ℕ
payload_of zero i = 30 * i + 3
payload_of (suc zero) i = 40 * i + 6
payload_of (suc (suc r)) i = 50 * i + 10

-- What the Things from `i` on, so many, add to the total, and how many of them are skipped.
abbrev pub total_of : Sdk → ℕ → ℕ → ℕ
total_of s i zero = 0
total_of s i (suc m) = (if i == s.empty then 0 else payload_of (i % 3) i) + total_of s (i + 1) m

abbrev pub skips_of : Sdk → ℕ → ℕ → ℕ
skips_of s i zero = 0
skips_of s i (suc m) = (if i == s.empty then 1 else 0) + skips_of s (i + 1) m

payload_lem : (i r : ℕ) → r < 3 → add_values 0 (3 + r) (fill i 0 (3 + r)) ≡ payload_of r i
unfolding add_values fill
payload_lem i zero h = omega arith
payload_lem i (suc zero) h = omega arith
payload_lem i (suc (suc zero)) h = omega arith
payload_lem i (suc (suc (suc r))) h = absurd (omega arith)

one_less_suc : (n : ℕ) → one_less (n + 1) ≡ n
unfolding one_less
one_less_suc n = ground arith

no_fail : (s : Sdk) (i : ℕ) → i < s.fail → (i == s.fail) ≡ false
no_fail s i h = elim (Bool-cases (i == s.fail)) [
  | inl y ↦ let same = (==_iff i s.fail).0 y in absurd (omega arith)
  | inr n ↦ n
]

-- One round at a Thing that can be read or is empty.
round :
    (n i total skipped : ℕ) (s : Sdk)
    → i < s.count
    → i < s.fail
    → sum_loop (suc n) i total skipped s
      ≡ sum_loop n
          (i + 1)
          (total + (if i == s.empty then 0 else payload_of (i % 3) i))
          (skipped + (if i == s.empty then 1 else 0))
          s
unfolding sum_loop thing_get_data after_get thing_sum_values after_sum end_of_guard
    thing_dispose_data
round n i total skipped s l f =
    let more : skipped ≡ skipped + 0 = omega arith in
    let same : total ≡ total + 0 = omega arith in
    elim (Bool-cases (i == s.empty)) [
      | inl y ↦
          rw (lt→ltb i s.count l, no_fail s i f, y)
            (ap (λ t. sum_loop n (i + 1) t (skipped + 1) s) same)
      | inr x ↦
          rw (lt→ltb i s.count l, no_fail s i f, x)
            (rw (payload_lem i (i % 3) (omega arith), one_less_suc s.live)
              (ap (λ k. sum_loop n (i + 1) (total + payload_of (i % 3) i) k s) more))
    ]

-- So many rounds, none of them at the Thing that fails.
rounds :
    (m n i total skipped : ℕ) (s : Sdk)
    → i + m ≤ s.count
    → i + m ≤ s.fail
    → sum_loop (m + n) i total skipped s
      ≡ sum_loop n (i + m) (total + total_of s i m) (skipped + skips_of s i m) s
rounds zero n i total skipped s l f =
    let same : i ≡ i + 0 = omega arith in
    let t : total ≡ total + 0 = omega arith in
    let k : skipped ≡ skipped + 0 = omega arith in
    let none_left : 0 + n ≡ n = omega arith in rw (← same, ← t, ← k, none_left) refl
rounds (suc m) n i total skipped s l f =
    let t = if i == s.empty then 0 else payload_of (i % 3) i in
    let k = if i == s.empty then 1 else 0 in
    let next : i + 1 + m ≡ i + suc m = omega arith in
    let total_eq : total + t + total_of s (i + 1) m ≡ total + (t + total_of s (i + 1) m) =
      omega arith in
    let skips_eq : skipped + k + skips_of s (i + 1) m ≡ skipped + (k + skips_of s (i + 1) m) =
      omega arith in
    let first : suc m + n ≡ suc (m + n) = omega arith in
    ap (λ c. sum_loop c i total skipped s) first
    ∙ round (m + n) i total skipped s (omega arith) (omega arith)
    ∙ rounds m n (i + 1) (total + t) (skipped + k) s (omega arith) (omega arith)
    ∙ rw (next, total_eq, skips_eq) refl

plus_zero : (n : ℕ) → 0 + n ≡ n
plus_zero n = omega arith

loop_completes :
    (s : Sdk)
    → s.count ≤ s.fail
    → sum_loop s.count 0 0 0 s ≡ (no_err, (total_of s 0 s.count, skips_of s 0 s.count), s)
unfolding sum_loop
loop_completes s f =
    let whole : s.count ≡ s.count + 0 = omega arith in
    ap (λ c. sum_loop c 0 0 0 s) whole
    ∙ rounds s.count 0 0 0 0 s (omega arith) (omega arith)
    ∙ rw (plus_zero (total_of s 0 s.count), plus_zero (skips_of s 0 s.count)) refl

stops_at_fail :
    (n t k : ℕ) (s : Sdk)
    → s.fail < s.count
    → sum_loop (suc n) s.fail t k s ≡ (err_internal, (t, k), s)
unfolding sum_loop thing_get_data after_get
stops_at_fail n t k s f = rw (lt→ltb s.fail s.count f, ==_refl s.fail) refl

loop_fails :
    (s : Sdk)
    → s.fail < s.count
    → sum_loop s.count 0 0 0 s ≡ (err_internal, (total_of s 0 s.fail, skips_of s 0 s.fail), s)
loop_fails s f =
    let left = s.count - s.fail - 1 in
    let whole : s.count ≡ s.fail + suc left = omega arith in
    ap (λ c. sum_loop c 0 0 0 s) whole
    ∙ rounds s.fail (suc left) 0 0 0 s (omega arith) (omega arith)
    ∙ rw (plus_zero (total_of s 0 s.fail), plus_zero (skips_of s 0 s.fail), plus_zero s.fail)
        (stops_at_fail left (total_of s 0 s.fail) (skips_of s 0 s.fail) s f)

-- Where no Thing fails, SumAllThings returns NoErr with the sum of the payloads of all Things but the
-- empty one and the number of empty ones, and the SDK is as it was: what was allocated is disposed.
pub sum_all_completes :
    (s : Sdk)
    → s.count ≤ s.fail
    → sum_all_things true true s ≡ (no_err, some (total_of s 0 s.count, skips_of s 0 s.count), s)
unfolding sum_all_things thing_get_count
sum_all_completes s f = rw (loop_completes s f) refl

-- Where a Thing fails, SumAllThings returns that failure, with the sum and the number of what stands
-- before it, and the SDK is as it was.
pub sum_all_fails :
    (s : Sdk)
    → s.fail < s.count
    → sum_all_things true true s
      ≡ (err_internal, some (total_of s 0 s.fail, skips_of s 0 s.fail), s)
unfolding sum_all_things thing_get_count
sum_all_fails s f = rw (loop_fails s f) refl
