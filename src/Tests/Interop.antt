-- ===== src/Tests/Interop.antt =====
-- exercises/interoplab/marshal.h: the name that plugin.cpp gives to its handles, whose nine characters
-- are 14 bytes and ten code units, and a sequence that is cut short.
use going_unmanaged.Prelude.{ℕ, ◌≡◌, ◌≤◌, refl, List, [], ◌∷◌, inl, inr, All, length, arith, Bytes}
use going_unmanaged.Plugin.{default_name}
use going_unmanaged.Interop.{utf16_from_utf8, code_points}
use going_unmanaged.Interop.Encoding.{IsScalar, encode, decode}
use going_unmanaged.Interop.Strings.{decode-utf16_from_utf8, length-utf16_from_utf8}

-- The letter, the umlaut, the micro sign and the clef of the name.
abbrev name : List ℕ
name = 90 ∷ 0xe4 ∷ 0xb5 ∷ 0x1d11e ∷ []

name-IsScalar : All IsScalar name
name-IsScalar = (
  inl (omega arith),
  (inl (omega arith), (inl (omega arith), (inr (omega arith, omega arith), tt))),
)

decode-utf16_from_utf8_example : decode (utf16_from_utf8 (encode name)) ≡ name
decode-utf16_from_utf8_example = decode-utf16_from_utf8 name name-IsScalar

test_code_points : code_points (encode name) ≡ 4
unfolding code_points encode
test_code_points = refl

name_units :
    utf16_from_utf8 (90 ∷ 0xc3 ∷ 0xa4 ∷ 0xf0 ∷ 0x9d ∷ 0x84 ∷ 0x9e ∷ [])
    ≡ 90 ∷ 0xe4 ∷ 0xd834 ∷ 0xdd1e ∷ []
unfolding utf16_from_utf8
name_units = refl

abbrev cut_short : Bytes
cut_short = 90 ∷ 0xf0 ∷ 0x9d ∷ []

length-utf16_from_utf8_example : length (utf16_from_utf8 cut_short) ≤ 3
length-utf16_from_utf8_example = length-utf16_from_utf8 cut_short

-- The counts that plugin.cpp states of its name.
default_name_bytes : length default_name ≡ 14
default_name_bytes = refl

default_name_units : length (utf16_from_utf8 default_name) ≡ 10
unfolding utf16_from_utf8
default_name_units = refl

default_name_points : code_points default_name ≡ 9
unfolding code_points
default_name_points = refl
