-- ===== src/Catalog/Legacy/Run.antt =====
-- exercises/retrolab: sequences of calls on the catalogs before and after the retrofit.
use going_unmanaged.Prelude.{
  ℕ, zero, suc, ◌+◌, ◌≤◌, ◌≡◌, refl, ap, List, [], ◌∷◌, Option, none, some, Bytes, length, arith,
  inl, inr,
}
use going_unmanaged.Plugin.Int32.{ℤ, pos, negsuc}
use going_unmanaged.Catalog.{Catalog, find, add, try_get, count, clear}
use going_unmanaged.Catalog.Parse.{add_loop, parse_catalog}
use going_unmanaged.Catalog.Parse.Pairs.{
  Takes, no_pair, one_pair, Reads-length, check_loop-Takes, check_loop-ends,
}
use going_unmanaged.Catalog.Parse.Total.{defined_add}
use going_unmanaged.Catalog.Legacy.{
  LegacyCatalog, new_catalog, legacy_find, legacy_add, legacy_try_get, legacy_count, legacy_clear,
}
use going_unmanaged.Catalog.Legacy.Agrees.{
  Same, new_catalog-Same, clear-Same, find-Same, try_get-Same, count-Same, add-Same,
}

pub data Call : Type 0 where
  adds : Bytes → ℤ → Call
  parses finds tries : Bytes → Call
  counts clears : Call

-- What a caller sees of a call.
pub data Answer : Type 0 where
  nothing : Answer
  returned : ℤ → Answer
  found_at : Option ℕ → Answer
  got : Option ℤ → Answer
  counted : ℕ → Answer

-- A call that gives a number, and one that changes the catalog alone.
abbrev numbered : {C : Type 0} → Option (ℤ × C) → Option (Answer × C)
numbered none = none
numbered (some (n, c)) = some (returned n, c)

abbrev changed : {C : Type 0} → Option C → Option (Answer × C)
changed none = none
changed (some c) = some (nothing, c)

abbrev seen : {A C : Type 0} → (A → Answer) → C → Option A → Option (Answer × C)
seen answer c none = none
seen answer c (some a) = some (answer a, c)

unfoldable pub call_after : Call → Catalog ℤ → Option (Answer × Catalog ℤ)
unfolding parse_catalog
call_after (adds key v) c = some (nothing, add key v c)
call_after (parses text) c = numbered (parse_catalog defined_add text c)
call_after (finds key) c = some (found_at (find key c), c)
call_after (tries key) c = some (got (try_get key c), c)
call_after counts c = some (counted (count c), c)
call_after clears c = some (nothing, clear c)

unfoldable pub call_before : Call → LegacyCatalog ℤ → Option (Answer × LegacyCatalog ℤ)
unfolding parse_catalog
call_before (adds key v) c = changed (legacy_add key v c)
call_before (parses text) c = numbered (parse_catalog legacy_add text c)
call_before (finds key) c = seen found_at c (legacy_find key c)
call_before (tries key) c = seen got c (legacy_try_get key c)
call_before counts c = some (counted (legacy_count c), c)
call_before clears c = some (nothing, legacy_clear c)

-- The answers of a sequence of calls.
unfoldable pub answers :
    {C : Type 0} → (Call → C → Option (Answer × C)) → List Call → C → Option (List Answer)
answers call [] c = some []
answers call (op ∷ ops) c = elim (call op c) as (λ r. Option (List Answer)) [
  | none ↦ none
  | some (a, c') ↦ elim (answers call ops c') as (λ r. Option (List Answer)) [
    | none ↦ none
    | some as' ↦ some (a ∷ as')
  ]
]

-- Calls of both that answer the same and leave the same.
abbrev Agree : Option (Answer × LegacyCatalog ℤ) → Option (Answer × Catalog ℤ) → Type 0
Agree before after =
    (a : Answer) × (l : LegacyCatalog ℤ) × (c : Catalog ℤ) × (before ≡ some (a, l))
    × (after ≡ some (a, c))
    × Same l c

add_loop-Same :
    (fuel : ℕ) (p : Bytes) (ps : List (Bytes × ℤ)) (n : ℕ) (l : LegacyCatalog ℤ) (c : Catalog ℤ)
    → length p ≤ fuel
    → Takes p ps
    → Same l c
    → Agree (numbered (add_loop legacy_add fuel p n l)) (numbered (add_loop defined_add fuel p n c))
unfolding add_loop
add_loop-Same fuel p ps n l c f no_pair i = (returned (pos n), l, c, refl, refl, i)
add_loop-Same zero p ps n l c f (one_pair b p' key v rest ps' r spelt) i = absurd (omega arith)
add_loop-Same (suc fuel) p ps n l c f (one_pair b p' key v rest ps' r spelt) i =
    let (l', e, i') = add-Same key v l c i in
    let (a, l₂, c₂, before, after, i₂) =
      add_loop-Same fuel rest ps' (n + 1) l' (add key v c)
        (omega (arith, Reads-length (b ∷ p') key v rest r)) spelt i' in
    (a, l₂, c₂, rw (add_loop, r.1, e) before, rw (add_loop, r.1) after, i₂)

parse-Same :
    (text : Bytes) (l : LegacyCatalog ℤ) (c : Catalog ℤ)
    → Same l c
    → Agree (call_before (parses text) l) (call_after (parses text) c)
unfolding call_before call_after parse_catalog
parse-Same text l c i = elim (check_loop-ends (length text) text (omega arith)) [
  | inl y ↦
      let (ps, spelt) = check_loop-Takes (length text) text (omega arith) y in
      rw (parse_catalog, y) (add_loop-Same (length text) text ps 0 l c (omega arith) spelt i)
  | inr n ↦ rw (parse_catalog, n) (returned (negsuc 0), l, c, refl, refl, i)
]

call-Same :
    (op : Call) (l : LegacyCatalog ℤ) (c : Catalog ℤ)
    → Same l c
    → Agree (call_before op l) (call_after op c)
unfolding call_before call_after
call-Same (adds key v) l c i =
    let (l', e, i') = add-Same key v l c i in (nothing, l', add key v c, ap changed e, refl, i')
call-Same (parses text) l c i = parse-Same text l c i
call-Same (finds key) l c i =
    (found_at (find key c), l, c, ap (seen found_at l) (find-Same key l c i), refl, i)
call-Same (tries key) l c i =
    (got (try_get key c), l, c, ap (seen got l) (try_get-Same key l c i), refl, i)
call-Same counts l c i =
    (counted (count c), l, c, ap (λ n. some (counted n, l)) (count-Same l c i), refl, i)
call-Same clears l c i = (nothing, legacy_clear l, clear c, refl, refl, clear-Same l c i)

run-Same :
    (ops : List Call) (l : LegacyCatalog ℤ) (c : Catalog ℤ)
    → Same l c
    → (as' : List Answer) × (answers call_before ops l ≡ some as')
      × (answers call_after ops c ≡ some as')
unfolding answers
run-Same [] l c i = ([], refl, refl)
run-Same (op ∷ ops) l c i =
    let (a, l', c', before, after, i') = call-Same op l c i in
    let (as', before', after') = run-Same ops l' c' i' in
    (a ∷ as', rw (answers, before, before') refl, rw (answers, after, after') refl)

-- Any sequence of calls on a new catalog is defined and gives the same answers before and after the
-- retrofit.
pub retrofit_agrees :
    (ops : List Call)
    → (as' : List Answer) × (answers call_before ops new_catalog ≡ some as')
      × (answers call_after ops (record { entries = [] }) ≡ some as')
retrofit_agrees ops = run-Same ops new_catalog (record { entries = [] }) new_catalog-Same
