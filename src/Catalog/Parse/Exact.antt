-- ===== src/Catalog/Parse/Exact.antt =====
-- exercises/retrolab: the two loops of Catalog::Parse take the texts of the grammar, and no others.
use going_unmanaged.Prelude.{
  ◌<◌, ◌≡◌, ◌≢◌, inl, inr, refl, ap, ◌∙◌, sym, subst, List, [], ◌∷◌, some, Option-cases, Bool,
  Bool-cases, true, false, ◌||◌, leb, Bytes, length, arith,
}
use going_unmanaged.Plugin.Int32.{ℤ}
use going_unmanaged.Strings.Parts.{is_empty}
use going_unmanaged.Catalog.Parse.{split_eq, strtol, to_int, check_pair, read_pair}
use going_unmanaged.Catalog.Parse.Pairs.{
  Reads, Takes, no_pair, one_pair, or_false_right, step_over-pair_end,
}
use going_unmanaged.Catalog.Parse.Grammar.{
  Pair, Spells, nothing, a_pair, split_eq-key, key-split_eq,
}
use going_unmanaged.Catalog.Parse.Numbers.{
  Tail-pair_end, pair_end-Tail, strtol-Number, Number-strtol,
}

is_empty_lem : (s : Bytes) → s ≢ [] → is_empty s ≡ false
is_empty_lem [] n = absurd (n refl)
is_empty_lem (b ∷ s) n = refl

-- A pair of the grammar passes the first loop, and the second one reads it.
Pair-Reads : (p key : Bytes) (v : ℤ) (rest : Bytes) → Pair p key v rest → Reads p key v rest
unfolding check_pair read_pair
Pair-Reads p key v rest r =
    let at_eq : split_eq p ≡ some (key, r.after_eq) =
      ap split_eq r.text ∙ split_eq-key key r.after_eq r.no_eq in
    let number = Number-strtol r.after_eq r.long r.tail rest r.number r.then_tail in
    let ended = Tail-pair_end r.tail rest r.then_tail in
    let some_key : is_empty key ≡ false = is_empty_lem key r.some_key in
    let short : length key < 32 = r.short_key in
    let fits : leb 32 (length key) ≡ false = ground arith in
    (
      rw (check_pair, at_eq, some_key, fits, number) ended,
      rw (read_pair, at_eq, fits, number)
          (ap (λ w. some (key, to_int r.long, w)) (step_over-pair_end r.tail rest ended)
            ∙ ap (λ w. some (key, w, rest)) (sym r.value)),
    )

or_false_left : (a b : Bool) → (a || b) ≡ false → a ≡ false
or_false_left true b e = e
or_false_left false b e = refl

-- What the first loop lets through is a pair of the grammar.
check_pair-Pair :
    (p rest : Bytes) → check_pair p ≡ some rest → (key : Bytes) × (v : ℤ) × Pair p key v rest
unfolding check_pair
check_pair-Pair p rest e = elim (Option-cases (split_eq p)) [
  | inl w ↦ cc (rw (check_pair, w) at e)
  | inr ((key, behind), w) ↦ elim (Bool-cases (is_empty key || leb 32 (length key))) [
    | inl y ↦ cc (rw (check_pair, w, y) at e)
    | inr n ↦ elim (Option-cases (strtol behind)) [
      | inl z ↦ cc (rw (check_pair, w, n, z) at e)
      | inr ((v, end), z) ↦
          let some_key = or_false_left (is_empty key) (leb 32 (length key)) n in
          let fits = or_false_right (is_empty key) (leb 32 (length key)) n in
          let (text, no_eq) = key-split_eq p key behind w in
          (
            key,
            to_int v,
            record {
              after_eq = behind;
              long = v;
              tail = end;
              text = text;
              some_key = λ q. let y : is_empty key ≡ true = ap is_empty q in cc;
              short_key = ground arith;
              no_eq = no_eq;
              number = strtol-Number behind v end z;
              then_tail = pair_end-Tail end rest (rw (check_pair, w, n, z) at e);
              value = refl;
            },
          )
    ]
  ]
]

pub Spells-Takes : (p : Bytes) (ps : List (Bytes × ℤ)) → Spells p ps → Takes p ps
unfolding check_pair split_eq
Spells-Takes p ps nothing = no_pair
Spells-Takes p ps (a_pair [] key v rest ps' r s) =
    let (checked, read) = Pair-Reads [] key v rest r in cc
Spells-Takes p ps (a_pair (b ∷ p') key v rest ps' r s) =
    one_pair b p' key v rest ps' (Pair-Reads (b ∷ p') key v rest r) (Spells-Takes rest ps' s)

pub Takes-Spells : (p : Bytes) (ps : List (Bytes × ℤ)) → Takes p ps → Spells p ps
Takes-Spells p ps no_pair = nothing
Takes-Spells p ps (one_pair b p' key v rest ps' r s) =
    let (key', v', pair) = check_pair-Pair (b ∷ p') rest r.0 in
    let (checked, read) = Pair-Reads (b ∷ p') key' v' rest pair in
    let same_read : some (key', v', rest) ≡ some (key, v, rest) = sym read ∙ r.1 in
    let same_key : key' ≡ key = cc in
    let same_value : v' ≡ v = cc in
    a_pair (b ∷ p') key v rest ps'
      (subst (λ w. Pair (b ∷ p') key w rest) same_value
        (subst (λ k. Pair (b ∷ p') k v' rest) same_key pair))
      (Takes-Spells rest ps' s)
