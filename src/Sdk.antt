-- ===== src/Sdk.antt =====
-- exercises/fakesdk/FakeSDK.cpp and FakeSDK.h, and the worker and the guard of
-- solutions/fakesdk_solution.cpp. The payload of a ThingData is the list that `values` points to, with
-- `none` for the null pointer. Its doubles are whole numbers, exact below 2 ^ 53, and are ones here.
-- `g_live` is a size_t, whose decrement wraps; it does not reach 2 ^ 64 by increments.
pub mod Worker
use going_unmanaged.Prelude.{
  ℕ, zero, suc, ◌+◌, ◌-◌, ◌*◌, ◌%◌, List, [], ◌∷◌, Option, none, some, Bool, if◌then◌else◌, ltb,
  ◌==◌, not, ◌&&◌,
}

pub data ErrCode : Type 0 where
  no_err err_null_param err_bad_index err_no_data err_internal : ErrCode

pub record ThingData : Type 0 where
  pub id : ℕ
  pub value_count : ℕ
  pub values : Option (List ℕ)

-- `ThingData data = {}`
abbrev pub zero_data : ThingData
zero_data = record { id = 0; value_count = 0; values = none }

-- `g_count`, `g_empty`, `g_fail` and `g_live`.
pub record Sdk : Type 0 where
  pub count : ℕ
  pub empty : ℕ
  pub fail : ℕ
  pub live : ℕ

unfoldable pub setup : ℕ → ℕ → ℕ → Sdk
setup thing_count empty_index fail_at_index = record {
  count = thing_count;
  empty = empty_index;
  fail = fail_at_index;
  live = 0;
}

-- Thing_GetCount, for a pointer that is not null.
unfoldable pub thing_get_count : Sdk → ErrCode × ℕ
thing_get_count s = (no_err, s.count)

-- The loop that fills the payload, from `i` on for `n` more values.
unfoldable pub fill : ℕ → ℕ → ℕ → List ℕ
fill index i zero = []
fill index i (suc n) = (index * 10 + i) ∷ fill index (i + 1) n

-- Thing_GetData, on what the pointer points to, if it is not null.
unfoldable pub thing_get_data : ℕ → Option ThingData → Sdk → ErrCode × Option ThingData × Sdk
unfolding fill
thing_get_data index none s = (err_null_param, none, s)
thing_get_data index (some d) s =
    if not (ltb index s.count)
    then (err_bad_index, some d, s)
    else if index == s.fail
    then (err_internal, some d, s)
    else if index == s.empty
    then (err_no_data, some d, s)
    else (
      no_err,
      some (record {
        id = 1000 + index;
        value_count = 3 + index % 3;
        values = some (fill index 0 (3 + index % 3));
      }),
      record s { live = s.live + 1 },
    )

-- `--g_live`
unfoldable pub one_less : ℕ → ℕ
one_less live = if live == 0 then 0xffffffffffffffff else live - 1

unfoldable pub thing_dispose_data : Option ThingData → Sdk → ErrCode × Option ThingData × Sdk
unfolding one_less
thing_dispose_data none s = (err_null_param, none, s)
thing_dispose_data (some d) s = (
  no_err,
  some (record d { values = none; value_count = 0 }),
  elim d.values [ none ↦ s | some v ↦ record s { live = one_less s.live } ],
)

-- The loop of Thing_SumValues, over the first `n` values; one outside the payload, whose read is
-- undefined, adds nothing.
unfoldable pub add_values : ℕ → ℕ → List ℕ → ℕ
add_values total zero vs = total
add_values total (suc n) [] = total
add_values total (suc n) (v ∷ vs) = add_values (total + v) n vs

-- Thing_SumValues, with what is written to `*sum`, which is not null.
unfoldable pub thing_sum_values : Option ThingData → ErrCode × Option ℕ
unfolding add_values
thing_sum_values none = (err_null_param, none)
thing_sum_values (some d) = elim d.values [
  | none ↦ (err_no_data, none)
  | some vs ↦ (no_err, some (add_values 0 d.value_count vs))
]

-- What SumAllThings returns, what it wrote to `*total` and `*skippedCount`, and the SDK's state.
abbrev pub Answer : Type 0
Answer = ErrCode × (ℕ × ℕ) × Sdk

-- The destructor of ThingDataGuard.
unfoldable pub end_of_guard : Option ThingData → Sdk → Sdk
unfolding thing_dispose_data
end_of_guard d s = let (e, left, s') = thing_dispose_data d s in s'

-- The body of the loop behind Thing_SumValues: `rest` is the loop from the next index on.
unfoldable pub after_sum :
    (ℕ → ℕ → Sdk → Answer) → ℕ → ℕ → Option ThingData → Sdk → ErrCode × Option ℕ → Answer
unfolding end_of_guard
after_sum rest total skipped d s (no_err, some sum) = rest (total + sum) skipped (end_of_guard d s)
after_sum rest total skipped d s (e, sum) = (e, (total, skipped), end_of_guard d s)

-- The body of the loop behind Thing_GetData.
unfoldable pub after_get :
    (ℕ → ℕ → Sdk → Answer) → ℕ → ℕ → ErrCode × Option ThingData × Sdk → Answer
unfolding thing_sum_values after_sum
after_get rest total skipped (err_no_data, d, s) = rest total (skipped + 1) s
after_get rest total skipped (no_err, d, s) = after_sum rest total skipped d s (thing_sum_values d)
after_get rest total skipped (e, d, s) = (e, (total, skipped), s)

-- The loop of SumAllThings from index `i` on, for `n` more Things.
unfoldable pub sum_loop : ℕ → ℕ → ℕ → ℕ → Sdk → Answer
unfolding thing_get_data after_get
sum_loop zero i total skipped s = (no_err, (total, skipped), s)
sum_loop (suc n) i total skipped s =
    after_get (sum_loop n (i + 1)) total skipped (thing_get_data i (some zero_data) s)

-- SumAllThings, by whether its two pointers are not null.
unfoldable pub sum_all_things : Bool → Bool → Sdk → ErrCode × Option (ℕ × ℕ) × Sdk
unfolding sum_loop thing_get_count
sum_all_things total skipped_count s =
    if total && skipped_count
    then (let (e, written, s') = sum_loop (thing_get_count s).1 0 0 0 s in (e, some written, s'))
    else (err_null_param, none, s)
