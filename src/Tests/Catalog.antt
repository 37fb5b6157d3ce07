-- ===== src/Tests/Catalog.antt =====
-- exercises/retrolab/after/catalog.cpp: a catalog of two entries.
use going_unmanaged.Prelude.{
  bytes_eq, ℕ, ◌≡◌, refl, [], ◌∷◌, some, none, Bytes, codes, replicate, arith, All, suc,
}
use going_unmanaged.Catalog.{Catalog, add, find, try_get, count, copy_catalog, move_catalog}
use going_unmanaged.Catalog.Keys.{try_get-add, find-add, add_long_key, HasRoom}

abbrev two : Catalog ℕ
two = record {
  entries =
      record { key = codes "width"; value = 4 } ∷ record { key = codes "depth"; value = 7 } ∷ [];
}

try_get-add_example : try_get (codes "depth") (add (codes "width") 5 two) ≡ some 7
unfolding try_get find bytes_eq
try_get-add_example = try_get-add (codes "width") (codes "depth") 5 two (omega arith)

depth_found : find (codes "depth") two ≡ some 1
unfolding find bytes_eq
depth_found = refl

find-add_example : find (codes "depth") (add (codes "height") 5 two) ≡ some 1
find-add_example = find-add (codes "height") (codes "depth") 5 two 1 depth_found

abbrev long_key : Bytes
long_key = replicate 32 107

add_long_key_example :
    (try_get long_key (add long_key 5 two) ≡ none)
    × (count (add long_key 5 two) ≡ suc (count two))
    × All HasRoom (add long_key 5 two).entries
add_long_key_example = add_long_key long_key 5 two (omega arith, (omega arith, tt)) (omega arith)

copied : try_get (codes "width") (add (codes "width") 9 (copy_catalog two)) ≡ some 9
unfolding try_get find add copy_catalog bytes_eq
copied = refl

moved : count (move_catalog two).1 ≡ 0
unfolding move_catalog count
moved = refl
