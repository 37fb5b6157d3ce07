-- ===== src/Catalog/Parse/Pairs.antt =====
-- exercises/retrolab: the pairs that the two loops of Catalog::Parse take.
use going_unmanaged.Prelude.{
  ℕ, zero, suc, ◌+◌, ◌≤◌, ◌<◌, ◌≡◌, ◌⊎◌, inl, inr, refl, ap, ◌∙◌, List, [], ◌∷◌, Option, none, some,
  Option-cases, Bool, Bool-cases, true, false, ◌||◌, if◌then◌else◌, ◌==◌, leb, Bytes, length, arith,
}
use going_unmanaged.Plugin.Int32.{ℤ, pos, neg}
use going_unmanaged.Strings.Parts.{is_empty, digits_value}
use going_unmanaged.Config.Chars.{leading_digits, behind_digits}
use going_unmanaged.Catalog.Parse.{
  split_eq, skip_space, saturate, signed, strtol, pair_end, step_over, to_int, check_pair,
  read_pair, check_loop, add_loop,
}

-- A pair that both loops take: the key, the value and what is behind.
abbrev pub Reads : Bytes → Bytes → ℤ → Bytes → Type 0
Reads p key v rest = (check_pair p ≡ some rest) × (read_pair p ≡ some (key, v, rest))

length-split_eq :
    (p key behind : Bytes)
    → split_eq p ≡ some (key, behind)
    → length p ≡ length key + 1 + length behind
unfolding split_eq
length-split_eq [] key behind e = cc
length-split_eq (b ∷ p) key behind e = elim (Bool-cases (b == b'=')) [
  | inl y ↦
      let at_once : some ([], p) ≡ some (key, behind) = rw y at e in
      let no_key : [] ≡ key = cc in
      let rest : p ≡ behind = cc in omega (arith, ap length no_key, ap length rest)
  | inr n ↦ elim (Option-cases (split_eq p)) [
    | inl w ↦ cc (rw (n, w) at e)
    | inr ((key', behind'), w) ↦
        let later : some (b ∷ key', behind') ≡ some (key, behind) = rw (n, w) at e in
        let longer : b ∷ key' ≡ key = cc in
        let rest : behind' ≡ behind = cc in
        omega (arith, length-split_eq p key' behind' w, ap length longer, ap length rest)
  ]
]

pub step_over-pair_end : (end rest : Bytes) → pair_end end ≡ some rest → step_over end ≡ rest
unfolding pair_end step_over
step_over-pair_end [] rest e = cc
step_over-pair_end (b ∷ end) rest e = elim (Bool-cases (b == b';')) [
  | inl y ↦ let here : some end ≡ some rest = rw y at e in rw y cc
  | inr n ↦ cc (rw n at e)
]

length-step_over : (s : Bytes) → length (step_over s) ≤ length s
unfolding step_over
length-step_over [] = omega arith
length-step_over (b ∷ s) = ground arith

length-behind_digits : (s : Bytes) → length (behind_digits s) ≤ length s
unfolding behind_digits
length-behind_digits [] = omega arith
length-behind_digits (b ∷ s) = ground (arith, length-behind_digits s)

length-skip_space : (s : Bytes) → length (skip_space s) ≤ length s
unfolding skip_space
length-skip_space [] = omega arith
length-skip_space (b ∷ s) = ground (arith, length-skip_space s)

length-signed :
    (sign : ℕ → ℤ) (s : Bytes) (v : ℤ) (end : Bytes)
    → signed sign s ≡ some (v, end)
    → length end ≤ length s
unfolding signed
length-signed sign s v end e = elim (Bool-cases (is_empty (leading_digits s))) [
  | inl y ↦ cc (rw y at e)
  | inr n ↦
      let both : some (saturate (sign (digits_value 0 (leading_digits s))), behind_digits s)
          ≡ some (v, end) =
        rw n at e in
      let same : behind_digits s ≡ end = cc in omega (arith, length-behind_digits s, ap length same)
]

length-strtol : (s : Bytes) (v : ℤ) (end : Bytes) → strtol s ≡ some (v, end) → length end ≤ length s
unfolding strtol
length-strtol s v end e = omega (arith, go (skip_space s) e, length-skip_space s)
  where
    go :
        (t : Bytes)
        → (elim t as (λ z. Option (ℤ × Bytes)) [
          | [] ↦ none
          | b ∷ rest ↦
              if b == b'-'
              then signed neg rest
              else if b == b'+'
              then signed pos rest
              else signed pos (b ∷ rest)
        ])
          ≡ some (v, end)
        → length end ≤ length t
    go [] h = cc
    go (b ∷ rest) h = elim (Bool-cases (b == b'-')) [
      | inl y ↦ omega (arith, length-signed neg rest v end (rw y at h))
      | inr n ↦ elim (Bool-cases (b == b'+')) [
        | inl y ↦ omega (arith, length-signed pos rest v end (rw (n, y) at h))
        | inr n' ↦ length-signed pos (b ∷ rest) v end (rw (n, n') at h)
      ]
    ]

pub or_false_right : (a b : Bool) → (a || b) ≡ false → b ≡ false
or_false_right true b e = cc
or_false_right false b e = e

pub check_pair-Reads :
    (p rest : Bytes)
    → check_pair p ≡ some rest
    → (key : Bytes) × (v : ℤ) × Reads p key v rest × (length rest < length p)
unfolding check_pair read_pair
check_pair-Reads p rest e = elim (Option-cases (split_eq p)) [
  | inl w ↦ cc (rw (check_pair, w) at e)
  | inr ((key, behind), w) ↦ elim (Bool-cases (is_empty key || leb 32 (length key))) [
    | inl y ↦ cc (rw (check_pair, w, y) at e)
    | inr n ↦ elim (Option-cases (strtol behind)) [
      | inl z ↦ cc (rw (check_pair, w, n, z) at e)
      | inr ((v, end), z) ↦
          let ended : pair_end end ≡ some rest = rw (check_pair, w, n, z) at e in
          let over : step_over end ≡ rest = step_over-pair_end end rest ended in
          let small : leb 32 (length key) ≡ false =
            or_false_right (is_empty key) (leb 32 (length key)) n in
          (
            key,
            to_int v,
            (e, rw (read_pair, w, small, z) (ap (λ r. some (key, to_int v, r)) over)),
            omega (
              arith,
              length-split_eq p key behind w,
              length-strtol behind v end z,
              length-step_over end,
              ap length over,
            ),
          )
    ]
  ]
]

-- The pairs that both loops take, one after the other.
pub data Takes : Bytes → List (Bytes × ℤ) → Type 0 where
  no_pair : Takes [] []
  one_pair :
      (b : ℕ) (p key : Bytes) (v : ℤ) (rest : Bytes) (ps : List (Bytes × ℤ))
      → Reads (b ∷ p) key v rest
      → Takes rest ps
      → Takes (b ∷ p) ((key, v) ∷ ps)

pub Reads-length :
    (p key : Bytes) (v : ℤ) (rest : Bytes) → Reads p key v rest → length rest < length p
Reads-length p key v rest (checked, read) = let (k, w, r, l) = check_pair-Reads p rest checked in l

pub check_loop-Takes :
    (fuel : ℕ) (p : Bytes)
    → length p ≤ fuel
    → check_loop fuel p ≡ some true
    → (ps : List (Bytes × ℤ)) × Takes p ps
unfolding check_loop
check_loop-Takes fuel [] l e = ([], no_pair)
check_loop-Takes zero (b ∷ p) l e = cc
check_loop-Takes (suc fuel) (b ∷ p) l e = elim (Option-cases (check_pair (b ∷ p))) [
  | inl w ↦ cc (rw (check_loop, w) at e)
  | inr (rest, w) ↦
      let (key, v, r, shorter) = check_pair-Reads (b ∷ p) rest w in
      let (ps, spelt) = check_loop-Takes fuel rest (omega arith) (rw (check_loop, w) at e) in
      ((key, v) ∷ ps, one_pair b p key v rest ps r spelt)
]

pub Takes-check_loop :
    (fuel : ℕ) (p : Bytes) (ps : List (Bytes × ℤ))
    → length p ≤ fuel
    → Takes p ps
    → check_loop fuel p ≡ some true
unfolding check_loop
Takes-check_loop fuel p ps l no_pair = refl
Takes-check_loop zero p ps l (one_pair b p' key v rest ps' r spelt) = absurd (omega arith)
Takes-check_loop (suc fuel) p ps l (one_pair b p' key v rest ps' r spelt) =
    rw (check_loop, r.0)
      (Takes-check_loop fuel rest ps' (omega (arith, Reads-length (b ∷ p') key v rest r)) spelt)

-- The first loop comes to its end.
pub check_loop-ends :
    (fuel : ℕ) (p : Bytes)
    → length p ≤ fuel
    → (check_loop fuel p ≡ some true) ⊎ (check_loop fuel p ≡ some false)
unfolding check_loop
check_loop-ends fuel [] l = inl refl
check_loop-ends zero (b ∷ p) l = absurd (omega arith)
check_loop-ends (suc fuel) (b ∷ p) l = elim (Option-cases (check_pair (b ∷ p))) [
  | inl w ↦ inr (rw (check_loop, w) refl)
  | inr (rest, w) ↦
      let (key, v, r, shorter) = check_pair-Reads (b ∷ p) rest w in
      elim (check_loop-ends fuel rest (omega arith)) [
        | inl y ↦ inl (rw (check_loop, w) y)
        | inr n ↦ inr (rw (check_loop, w) n)
      ]
]

-- Both loops, where Add is always defined.
module _ {C : Type 0} (add : Bytes → ℤ → C → Option C) (plus : Bytes → ℤ → C → C) where
  abbrev pub add_pairs : List (Bytes × ℤ) → C → C
  add_pairs [] c = c
  add_pairs ((key, v) ∷ ps) c = add_pairs ps (plus key v c)

  pub add_loop-Takes :
      ((key : Bytes) (v : ℤ) (c : C) → add key v c ≡ some (plus key v c))
      → (fuel : ℕ) (p : Bytes) (ps : List (Bytes × ℤ)) (n : ℕ) (c : C) → length p ≤ fuel
      → Takes p ps
      → add_loop add fuel p n c ≡ some (pos (n + length ps), add_pairs ps c)
  unfolding add_loop
  add_loop-Takes defined fuel p ps n c l no_pair = ap (λ z. some (pos z, c)) (omega arith)
  add_loop-Takes defined zero p ps n c l (one_pair b p' key v rest ps' r spelt) =
      absurd (omega arith)
  add_loop-Takes defined (suc fuel) p ps n c l (one_pair b p' key v rest ps' r spelt) =
      rw (add_loop, r.1, defined key v c)
        (add_loop-Takes defined fuel rest ps' (n + 1) (plus key v c)
            (omega (arith, Reads-length (b ∷ p') key v rest r)) spelt
          ∙ ap (λ z. some (pos z, add_pairs ps' (plus key v c))) (omega arith))
