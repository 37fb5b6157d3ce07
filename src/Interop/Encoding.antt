-- ===== src/Interop/Encoding.antt =====
-- UTF-8 and UTF-16 as their standards define them, for exercises/interoplab/marshal.h.
use going_unmanaged.Prelude.{
  ℕ, ◌+◌, ◌-◌, ◌*◌, ◌/◌, ◌%◌, ◌≤◌, ◌<◌, ◌⊎◌, List, [], ◌∷◌, ◌++◌, if◌then◌else◌, ltb, Bytes,
}

-- The scalar values of Unicode: no surrogate, and at most 0x10FFFF.
abbrev pub IsScalar : ℕ → Type 0
IsScalar cp = (cp < 0xd800) ⊎ ((0xe000 ≤ cp) × (cp < 0x110000))

-- The UTF-8 sequence of a code point.
unfoldable pub utf8 : ℕ → Bytes
utf8 cp =
    if ltb cp 0x80
    then cp ∷ []
    else if ltb cp 0x800
    then (0xc0 + cp / 64) ∷ (0x80 + cp % 64) ∷ []
    else if ltb cp 0x10000
    then (0xe0 + cp / 4096) ∷ (0x80 + cp / 64 % 64) ∷ (0x80 + cp % 64) ∷ []
    else ((0xf0 + cp / 262144)
        ∷ (0x80 + cp / 4096 % 64)
        ∷ (0x80 + cp / 64 % 64)
        ∷ (0x80 + cp % 64)
        ∷ [])

unfoldable pub encode : List ℕ → Bytes
unfolding utf8
encode [] = []
encode (cp ∷ cps) = utf8 cp ++ encode cps

-- A code unit that is a high surrogate pairs with the next one.
unfoldable pub decode : List ℕ → List ℕ
decode [] = []
decode (u ∷ []) = u ∷ []
decode (u ∷ v ∷ us) =
    if ltb u 0xd800
    then u ∷ decode (v ∷ us)
    else if ltb u 0xdc00
    then (0x10000 + (u - 0xd800) * 1024 + (v - 0xdc00)) ∷ decode us
    else u ∷ decode (v ∷ us)

-- The code units of a code point, and of a text.
abbrev pub utf16 : ℕ → List ℕ
utf16 cp =
    if ltb cp 0x10000
    then cp ∷ []
    else (0xd800 + (cp - 0x10000) / 1024) ∷ (0xdc00 + (cp - 0x10000) % 1024) ∷ []

abbrev pub encode16 : List ℕ → List ℕ
encode16 [] = []
encode16 (cp ∷ cps) = utf16 cp ++ encode16 cps
