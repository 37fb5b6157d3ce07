-- ===== src/Catalog/Parse.antt =====
-- exercises/retrolab: Catalog::Parse, which is the same in before/catalog.cpp and after/catalog.cpp, over
-- the catalog and the Add of either. What is undefined is `none`.
pub mod Pairs
pub mod Grammar
pub mod Numbers
pub mod Exact
pub mod Total
use going_unmanaged.Prelude.{
  ℕ, zero, suc, ◌+◌, ◌-◌, ◌%◌, List, [], ◌∷◌, Option, none, some, Bool, true, false, not, ◌&&◌,
  ◌||◌, if◌then◌else◌, ◌==◌, ltb, leb, Bytes, length,
}
use going_unmanaged.Plugin.Int32.{ℤ, pos, negsuc, neg}
use going_unmanaged.Strings.Parts.{is_empty, digits_value}
use going_unmanaged.Config.Chars.{leading_digits, behind_digits}

-- std::strchr for '=': what is before it, and what is behind it.
unfoldable pub split_eq : Bytes → Option (Bytes × Bytes)
split_eq [] = none
split_eq (b ∷ s) =
    let later = split_eq s in
    if b == b'=' then some ([], s) else elim later as (λ r. Option (Bytes × Bytes)) [
      | none ↦ none
      | some (key, rest) ↦ some (b ∷ key, rest)
    ]

unfoldable pub skip_space : Bytes → Bytes
skip_space [] = []
skip_space (b ∷ s) =
    let rest = skip_space s in if b == 32 || leb 9 b && leb b 13 then rest else b ∷ s

-- A long has 64 bits, and strtol stops at its ends.
unfoldable pub saturate : ℤ → ℤ
saturate (pos n) = if ltb n 0x8000000000000000 then pos n else pos 0x7fffffffffffffff
saturate (negsuc n) = if ltb n 0x8000000000000000 then negsuc n else negsuc 0x7fffffffffffffff

unfoldable pub signed : (ℕ → ℤ) → Bytes → Option (ℤ × Bytes)
unfolding leading_digits behind_digits digits_value saturate
signed sign s =
    if is_empty (leading_digits s)
    then none
    else some (saturate (sign (digits_value 0 (leading_digits s))), behind_digits s)

-- std::strtol in base 10: the number and what is behind it, or `none` where `end` is left at the start.
unfoldable pub strtol : Bytes → Option (ℤ × Bytes)
unfolding skip_space signed
strtol s = elim (skip_space s) [
  | [] ↦ none
  | b ∷ rest ↦
      if b == b'-'
      then signed neg rest
      else if b == b'+'
      then signed pos rest
      else signed pos (b ∷ rest)
]

-- static_cast<int> of a long.
unfoldable pub to_int : ℤ → ℤ
to_int (pos n) =
    let r = n % 0x100000000 in if ltb r 0x80000000 then pos r else neg (0x100000000 - r)
to_int (negsuc n) =
    let r = n % 0x100000000 in if ltb r 0x80000000 then negsuc r else pos (0xffffffff - r)

-- Where the next pair starts, if the number ends as it should.
unfoldable pub pair_end : Bytes → Option Bytes
pair_end [] = some []
pair_end (b ∷ rest) = if b == b';' then some rest else none

-- A round of the first loop: where the next one starts, or `none` where it returns -1.
unfoldable pub check_pair : Bytes → Option Bytes
unfolding split_eq strtol pair_end
check_pair p = elim (split_eq p) [
  | none ↦ none
  | some (key, behind) ↦
      if is_empty key || leb 32 (length key)
      then none
      else elim (strtol behind) as (λ r. Option Bytes) [
        | none ↦ none
        | some (v, end) ↦ pair_end end
      ]
]

-- `*end == ';' ? end + 1 : end`
unfoldable pub step_over : Bytes → Bytes
step_over [] = []
step_over (b ∷ rest) = if b == b';' then rest else b ∷ rest

-- A round of the second loop: the key, the value, and where the next round starts. There is no '=', or the
-- key does not fit its buffer: undefined.
unfoldable pub read_pair : Bytes → Option (Bytes × ℤ × Bytes)
unfolding split_eq strtol to_int step_over
read_pair p = elim (split_eq p) [
  | none ↦ none
  | some (key, behind) ↦
      if leb 32 (length key)
      then none
      else elim (strtol behind) as (λ r. Option (Bytes × ℤ × Bytes)) [
        | none ↦ some (key, pos 0, step_over behind)
        | some (v, end) ↦ some (key, to_int v, step_over end)
      ]
]

-- The first loop: whether each round found a pair. A round takes at least two bytes; `none` is a loop that
-- is not at its end when the fuel is.
unfoldable pub check_loop : ℕ → Bytes → Option Bool
unfolding check_pair
check_loop fuel [] = some true
check_loop zero (b ∷ p) = none
check_loop (suc fuel) (b ∷ p) = elim (check_pair (b ∷ p)) as (λ r. Option Bool) [
  | none ↦ some false
  | some rest ↦ check_loop fuel rest
]

module _ {C : Type 0} (add : Bytes → ℤ → C → Option C) where
  -- The second loop, with `added` and the catalog.
  unfoldable pub add_loop : ℕ → Bytes → ℕ → C → Option (ℤ × C)
  unfolding read_pair
  add_loop fuel [] added c = some (pos added, c)
  add_loop zero (b ∷ p) added c = none
  add_loop (suc fuel) (b ∷ p) added c = elim (read_pair (b ∷ p)) as (λ r. Option (ℤ × C)) [
    | none ↦ none
    | some (key, v, rest) ↦ elim (add key v c) as (λ r. Option (ℤ × C)) [
      | none ↦ none
      | some c' ↦ add_loop fuel rest (added + 1) c'
    ]
  ]

  unfoldable pub parse_catalog : Bytes → C → Option (ℤ × C)
  unfolding check_loop add_loop
  parse_catalog text c = elim (check_loop (length text) text) as (λ r. Option (ℤ × C)) [
    | none ↦ none
    | some well_formed ↦ if well_formed then add_loop (length text) text 0 c else some (negsuc 0, c)
  ]
