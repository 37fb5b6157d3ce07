-- ===== src/Catalog/Parse/Total.antt =====
-- exercises/retrolab: Catalog::Parse adds all pairs of a text or none.
use going_unmanaged.Prelude.{
  ℕ, ◌+◌, ◌≡◌, ◌⊎◌, inl, inr, refl, ap, ◌∙◌, List, Option, some, Bytes, length, arith,
}
use going_unmanaged.Plugin.Int32.{ℤ, pos, negsuc}
use going_unmanaged.Catalog.{Catalog, add}
use going_unmanaged.Catalog.Parse.{parse_catalog}
use going_unmanaged.Catalog.Parse.Pairs.{
  check_loop-Takes, Takes-check_loop, check_loop-ends, add_pairs, add_loop-Takes,
}
use going_unmanaged.Catalog.Parse.Grammar.{Spells}
use going_unmanaged.Catalog.Parse.Exact.{Spells-Takes, Takes-Spells}

-- Add of after/catalog.cpp, which is always defined.
abbrev pub plus : Bytes → ℤ → Catalog ℤ → Catalog ℤ
plus key v c = add key v c

abbrev pub defined_add : Bytes → ℤ → Catalog ℤ → Option (Catalog ℤ)
defined_add key v c = some (plus key v c)

-- Parse ends and is defined for every text. Of a text that is pairs and nothing else, each a key of 1 to 31
-- bytes with no '=', then '=', a number as strtol reads it, and a semicolon or the end, it adds each pair
-- in its turn and returns their number; of any other text it returns -1 and the catalog is as it was.
pub parse_catalog_lem :
    (text : Bytes) (c : Catalog ℤ)
    → ((ps : List (Bytes × ℤ)) × Spells text ps
        × (parse_catalog defined_add text c
            ≡ some (pos (length ps), add_pairs defined_add plus ps c)))
      ⊎ (((ps : List (Bytes × ℤ)) → ¬ Spells text ps)
          × (parse_catalog defined_add text c ≡ some (negsuc 0, c)))
unfolding parse_catalog
parse_catalog_lem text c = elim (check_loop-ends (length text) text (omega arith)) [
  | inl y ↦
      let (ps, taken) = check_loop-Takes (length text) text (omega arith) y in
      inl (
        ps,
        Takes-Spells text ps taken,
        rw (parse_catalog, y)
            (add_loop-Takes defined_add plus (λ key v d. refl) (length text) text ps 0 c
                (omega arith) taken
              ∙ ap (λ z. some (pos z, add_pairs defined_add plus ps c)) (sum (length ps))),
      )
  | inr n ↦ inr (
    λ ps spelt.
        cc (Takes-check_loop (length text) text ps (omega arith) (Spells-Takes text ps spelt)),
    rw (parse_catalog, n) refl,
  )
]
  where
    sum : (n : ℕ) → 0 + n ≡ n
    sum n = omega arith
