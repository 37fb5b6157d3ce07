-- ===== src/Tests/Retrofit.antt =====
-- exercises/retrolab: a sequence of calls on both catalogs, and Parse of two pairs and of a malformed text.
use going_unmanaged.Prelude.{◌≡◌, ◌⊎◌, refl, List, [], ◌∷◌, none, some, Bytes, codes, length}
use going_unmanaged.Prelude.{bytes_eq}
use going_unmanaged.Plugin.Int32.{ℤ, pos, negsuc}
use going_unmanaged.Catalog.{Catalog, try_get, find, count, add, clear}
use going_unmanaged.Catalog.Parse.{parse_catalog}
use going_unmanaged.Catalog.Parse.Pairs.{add_pairs}
use going_unmanaged.Catalog.Parse.Grammar.{Spells}
use going_unmanaged.Catalog.Parse.Total.{plus, defined_add, parse_catalog_lem}
use going_unmanaged.Catalog.Legacy.{new_catalog}
use going_unmanaged.Catalog.Legacy.Run.{
  Call, adds, parses, finds, tries, counts, clears, Answer, nothing, returned, found_at, got,
  counted, call_after, call_before, answers, retrofit_agrees,
}

-- Five keys make the array grow twice.
abbrev calls : List Call
calls =
    adds (codes "rate") (pos 48)
    ∷ parses (codes "gain=3;rate=-2;a=1;b=2;c=3")
    ∷ tries (codes "rate")
    ∷ finds (codes "c")
    ∷ parses (codes "gain=3;broken")
    ∷ counts
    ∷ clears
    ∷ finds (codes "rate")
    ∷ []

retrofit_agrees_example :
    (as' : List Answer) × (answers call_before calls new_catalog ≡ some as')
    × (answers call_after calls (record { entries = [] }) ≡ some as')
retrofit_agrees_example = retrofit_agrees calls

answers_after :
    answers call_after calls (record { entries = [] })
    ≡ some (
        nothing
        ∷ returned (pos 5)
        ∷ got (some (negsuc 1))
        ∷ found_at (some 4)
        ∷ returned (negsuc 0)
        ∷ counted 5
        ∷ nothing
        ∷ found_at none
        ∷ [])
unfolding answers call_after try_get find count add clear bytes_eq
answers_after = refl

abbrev no_entries : Catalog ℤ
no_entries = record { entries = [] }

-- A key has a byte at least, and the buffer of a key has room for 31.
empty_key : parse_catalog defined_add (codes "a=1;=2") no_entries ≡ some (negsuc 0, no_entries)
unfolding parse_catalog
empty_key = refl

with_spaces :
    parse_catalog defined_add (codes "a= -7;") no_entries
    ≡ some (pos 1, plus (codes "a") (negsuc 6) no_entries)
unfolding parse_catalog
with_spaces = refl

parse_catalog_lem_example :
    ((ps : List (Bytes × ℤ)) × Spells (codes "a=1;b=2") ps
      × (parse_catalog defined_add (codes "a=1;b=2") no_entries
          ≡ some (pos (length ps), add_pairs defined_add plus ps no_entries)))
    ⊎ (((ps : List (Bytes × ℤ)) → ¬ Spells (codes "a=1;b=2") ps)
        × (parse_catalog defined_add (codes "a=1;b=2") no_entries ≡ some (negsuc 0, no_entries)))
parse_catalog_lem_example = parse_catalog_lem (codes "a=1;b=2") no_entries
