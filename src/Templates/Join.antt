-- ===== src/Templates/Join.antt =====
-- exercises/templatelab/util.h: Describe and Join. The types that Describe takes are the cases of a part;
-- floating point is not one of them.
use going_unmanaged.Prelude.{
  ℕ, ◌+◌, ◌≡◌, refl, ap, ◌∙◌, sym, List, [], ◌∷◌, ◌++◌, map, append-nil, append_assoc, ◌<◌, lt→ltb,
  if◌then◌else◌, ltb, Bytes, arith,
}
use going_unmanaged.Plugin.Int32.{ℤ}
use going_unmanaged.Strings.Parts.{spell, join, join_loop}
use going_unmanaged.Strings.Parts.RoundTrip.{IsFull, IsFull-append}

pub data Part : Type 0 where
  character : ℕ → Part
  number : ℤ → Part
  text : Bytes → Part

unfoldable pub describe : Part → Bytes
unfolding spell
describe (character c) = c ∷ []
describe (number value) = spell value
describe (text value) = value

-- The fold over the parts, with `n` and `out`.
unfoldable pub fold_parts : Bytes → ℕ → Bytes → List Part → Bytes
unfolding describe
fold_parts separator n out [] = out
fold_parts separator n out (part ∷ parts) =
    fold_parts separator (n + 1) (out ++ ((if ltb 0 n then separator else []) ++ describe part))
      parts

unfoldable pub join_parts : Bytes → List Part → Bytes
unfolding fold_parts
join_parts separator parts = fold_parts separator 0 [] parts

-- The texts behind the first one, each with the separator in front of it.
abbrev pub led_by : Bytes → List Bytes → Bytes
led_by separator [] = []
led_by separator (t ∷ texts) = (separator ++ t) ++ led_by separator texts

-- The texts with the separator between each two.
abbrev pub with_between : Bytes → List Bytes → Bytes
with_between separator [] = []
with_between separator (t ∷ texts) = t ++ led_by separator texts

fold_parts-led_by :
    (separator : Bytes) (n : ℕ) (out : Bytes) (parts : List Part)
    → 0 < n
    → fold_parts separator n out parts ≡ out ++ led_by separator (map describe parts)
unfolding fold_parts describe
fold_parts-led_by separator n out [] l = sym (append-nil out)
fold_parts-led_by separator n out (part ∷ parts) l = rw (lt→ltb 0 n l) (
    fold_parts-led_by separator (n + 1) (out ++ (separator ++ describe part)) parts (omega arith)
    ∙ append_assoc out (separator ++ describe part) (led_by separator (map describe parts)))

join_parts_lem :
    (separator : Bytes) (parts : List Part)
    → join_parts separator parts ≡ with_between separator (map describe parts)
unfolding join_parts fold_parts
join_parts_lem separator [] = refl
join_parts_lem separator (part ∷ parts) =
    fold_parts-led_by separator 1 (describe part) parts (omega arith)

join_loop-led_by :
    (separator result : Bytes) (texts : List Bytes)
    → IsFull result
    → join_loop separator result texts ≡ result ++ led_by separator texts
unfolding join_loop
join_loop-led_by separator result [] h = sym (append-nil result)
join_loop-led_by separator result (t ∷ texts) h = rw h (
    ap (λ r. join_loop separator r texts) (append_assoc result separator t)
    ∙ join_loop-led_by separator (result ++ (separator ++ t)) texts
        (IsFull-append result (separator ++ t) h)
    ∙ append_assoc result (separator ++ t) (led_by separator texts))

-- Join puts the separator between each two parts, and agrees with join of exercises/cookbook/strings.cpp on
-- the parts' descriptions where the first of them is not empty.
pub joins_agree :
    (separator : Bytes) (part : Part) (parts : List Part)
    → IsFull (describe part)
    → (join_parts separator (part ∷ parts) ≡ describe part ++ led_by separator (map describe parts))
      × (join (map describe (part ∷ parts)) separator ≡ join_parts separator (part ∷ parts))
unfolding join join_loop
joins_agree separator part parts full = (
  join_parts_lem separator (part ∷ parts),
  join_loop-led_by separator (describe part) (map describe parts) full
      ∙ sym (join_parts_lem separator (part ∷ parts)),
)
