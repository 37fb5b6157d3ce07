-- ===== src/RefCount.antt =====
-- exercises/comlab/FakeSDK2.cpp and FakeSDK2.h: reference-counted Things. A pointer to a Thing is its
-- place in the list of all Things ever made, and a freed one is `none` there; what the source does
-- through a pointer to a freed Thing is undefined and is `none` here. A decrement wraps; an increment
-- does not come to it, for there is no memory for 2 ^ 64 references. The values of a Thing are whole
-- numbers, its id each.
pub mod Store
pub mod Handles
pub mod Balance
pub mod Copies
pub mod Leak
pub mod Safe
use going_unmanaged.Prelude.{
  ℕ, suc, ◌+◌, ◌-◌, ◌<◌, List, [], ◌∷◌, ◌++◌, Option, none, some, Bool, if◌then◌else◌, ltb, ◌==◌,
  get_elem?, set, length, replicate,
}

pub record Thing : Type 0 where
  pub id : ℕ
  pub refs : ℕ
  pub values : List ℕ

-- The globals, with `table` for `g_table` and `g_count`: `none` is the null pointer. `handles` are
-- the ThingHandle objects of the client, one for each variable, with their `ref_`.
pub record State : Type 0 where
  pub things : List (Option Thing)
  pub table : Option (List ℕ)
  pub active : ℕ
  pub live : ℕ
  pub handles : List (Option ℕ)

pub data ErrCode : Type 0 where
  no_err err_null_param err_bad_index : ErrCode

-- The Thing behind a pointer.
abbrev pub thing_at : State → ℕ → Option Thing
thing_at s p = elim (get_elem? s.things p) [ none ↦ none | some t ↦ t ]

abbrev pub entries : State → List ℕ
entries s = elim s.table [ none ↦ [] | some ps ↦ ps ]

-- make_thing: the new pointer and the state.
unfoldable pub make_thing : ℕ → State → ℕ × State
make_thing id s = (
  length s.things,
  record s {
    things = s.things ++ some (record { id = id; refs = 1; values = replicate 3 id }) ∷ [];
    live = s.live + 1;
  },
)

-- `--` on a size_t.
unfoldable pub decrement : ℕ → ℕ
decrement n = if n == 0 then 0xffffffffffffffff else n - 1

-- Thing_Retain, Thing_Release: the new count, of no use but for diagnostics, and the state.
unfoldable pub thing_retain : Option ℕ → State → Option (ℕ × State)
thing_retain none s = some (0, s)
thing_retain (some p) s = elim (thing_at s p) [
  | none ↦ none
  | some t ↦
      some
        (t.refs + 1, record s { things = set s.things p (some (record t { refs = t.refs + 1 })) })
]

unfoldable pub thing_release : Option ℕ → State → Option (ℕ × State)
unfolding decrement
thing_release none s = some (0, s)
thing_release (some p) s = elim (thing_at s p) [
  | none ↦ none
  | some t ↦
      if decrement t.refs == 0
      then some (0, record s { things = set s.things p none; live = decrement s.live })
      else some (
        decrement t.refs,
        record s { things = set s.things p (some (record t { refs = decrement t.refs })) },
      )
]

-- The loop of release_project over the entries of the table.
unfoldable pub release_entries : List ℕ → State → Option State
unfolding thing_release
release_entries [] s = some s
release_entries (p ∷ ps) s = elim (thing_release (some p) s) [
  | none ↦ none
  | some (left, s') ↦ release_entries ps s'
]

unfoldable pub release_project : State → Option State
unfolding release_entries
release_project s = elim (release_entries (entries s) s) [
  | none ↦ none
  | some s' ↦ some (record s' { table = none })
]

-- Project_GetCount, for a pointer that is not null.
unfoldable pub project_get_count : State → ℕ
project_get_count s = length (entries s)

-- Thing_Acquire, with `out` for whether the caller's pointer is not null: the code, what is written
-- to `*out`, and the state.
unfoldable pub thing_acquire : ℕ → Bool → State → Option (ErrCode × Option ℕ × State)
unfolding thing_retain
thing_acquire index out s =
    if out
    then elim (get_elem? (entries s) index) [
      | none ↦ some (err_bad_index, none, s)
      | some p ↦ elim (thing_retain (some p) s) [
        | none ↦ none
        | some (count, s') ↦ some (no_err, some p, s')
      ]
    ]
    else some (err_null_param, none, s)

-- Project_PeekActive: borrowed, with no change of the count.
unfoldable pub project_peek_active : State → Option ℕ
project_peek_active s = get_elem? (entries s) s.active

-- The loop of FakeSdk2_Setup: a Thing for each index, with the index and one for its id.
unfoldable pub make_things : ℕ → ℕ → State → List ℕ × State
unfolding make_thing
make_things i ℕ.zero s = ([], s)
make_things i (suc n) s =
    let (p, s') = make_thing (i + 1) s in let (ps, s'') = make_things (i + 1) n s' in (p ∷ ps, s'')

unfoldable pub sum_from : ℕ → List ℕ → ℕ
sum_from total [] = total
sum_from total (v ∷ vs) = sum_from (total + v) vs

-- Thing_Sum, with what is written to `*sum` where that is not null.
unfoldable pub thing_sum : Option ℕ → Bool → State → Option (ErrCode × Option ℕ)
unfolding sum_from
thing_sum none sum s = some (err_null_param, none)
thing_sum (some p) sum s =
    if sum
    then elim (thing_at s p) [ none ↦ none | some t ↦ some (no_err, some (sum_from 0 t.values)) ]
    else some (err_null_param, none)

unfoldable pub setup : ℕ → ℕ → State → Option State
unfolding release_project make_things
setup thing_count active_index s = elim (release_project s) [
  | none ↦ none
  | some s' ↦
      let (ps, s'') = make_things 0 thing_count s' in
      some (record s'' { table = some ps; active = active_index })
]

unfoldable pub shutdown : State → Option State
unfolding release_project
shutdown s = release_project s
