-- ===== src/Strings/Unicode/Encoder.antt =====
-- exercises/cookbook/strings.cpp: utf16_to_utf8, and the two conversions behind each other.
use going_unmanaged.Prelude.{
  ℕ, ◌+◌, ◌-◌, ◌*◌, ◌/◌, ◌%◌, ◌≤◌, ◌<◌, ◌≡◌, refl, ap, ◌∙◌, sym, ◌⊎◌, inl, inr, List, [], ◌∷◌, ◌++◌,
  ltb, Bool-cases, true, false, Bytes, All, append-nil, arith, ltb→lt, not_ltb→ge,
}
use going_unmanaged.Interop.Encoding.{IsScalar, utf8, encode, utf16, encode16}
use going_unmanaged.Strings.Unicode.{
  is_high, is_low, single, utf8_bytes, utf16_to_utf8, utf8_to_utf16,
}
use going_unmanaged.Strings.Unicode.Decoder.{utf8_to_utf16-encode, utf8_to_utf16-IsText16}
use going_unmanaged.Interop.{utf16_from_utf8}
use going_unmanaged.Interop.Strings.{utf16_from_utf8-encode}

utf8_bytes_lem : (cp : ℕ) → utf8_bytes cp ≡ utf8 cp
unfolding utf8_bytes utf8
utf8_bytes_lem cp = refl

-- A unit that is no surrogate stands for itself.
utf16_to_utf8_single :
    (u : ℕ) (us : List ℕ)
    → (u < 0xd800) ⊎ (0xe000 ≤ u)
    → utf16_to_utf8 (u ∷ us) ≡ utf8 u ++ utf16_to_utf8 us
unfolding utf16_to_utf8
utf16_to_utf8_single u [] h =
    let same : single u ≡ u = ground arith in
    rw (utf16_to_utf8, same, utf8_bytes_lem u) (sym (append-nil (utf8 u)))
utf16_to_utf8_single u (v ∷ us) h =
    let low : is_high u ≡ false = ground arith in
    let same : single u ≡ u = ground arith in rw (low, same, utf8_bytes_lem u) refl

utf16_to_utf8_pair :
    (u v : ℕ) (us : List ℕ)
    → is_high u ≡ true
    → is_low v ≡ true
    → utf16_to_utf8 (u ∷ v ∷ us)
      ≡ utf8 (0x10000 + (u - 0xd800) * 1024 + (v - 0xdc00)) ++ utf16_to_utf8 us
unfolding utf16_to_utf8
utf16_to_utf8_pair u v us h l = rw (h, l) (ap (λ bs. bs ++ utf16_to_utf8 us) (utf8_bytes_lem _))

utf16_to_utf8-utf16 :
    (cp : ℕ) (us : List ℕ)
    → IsScalar cp
    → utf16_to_utf8 (utf16 cp ++ us) ≡ utf8 cp ++ utf16_to_utf8 us
utf16_to_utf8-utf16 cp us s = elim (Bool-cases (ltb cp 0x10000)) [
  | inl y ↦ let l = ltb→lt cp 0x10000 y in rw y (utf16_to_utf8_single cp us (omega arith))
  | inr n ↦
      let g = not_ltb→ge cp 0x10000 n in
      let x = cp - 0x10000 in
      let h : is_high (0xd800 + x / 1024) ≡ true = ground arith in
      let l : is_low (0xdc00 + x % 1024) ≡ true = ground arith in
      let same : 0x10000 + (0xd800 + x / 1024 - 0xd800) * 1024 + (0xdc00 + x % 1024 - 0xdc00) ≡ cp =
        omega arith in
      rw n (
        utf16_to_utf8_pair (0xd800 + x / 1024) (0xdc00 + x % 1024) us h l
        ∙ ap (λ c. utf8 c ++ utf16_to_utf8 us) same)
]

-- utf16_to_utf8 of a text in UTF-16 is the text in UTF-8.
pub utf16_to_utf8-encode16 :
    (cps : List ℕ) → All IsScalar cps → utf16_to_utf8 (encode16 cps) ≡ encode cps
unfolding utf16_to_utf8 encode
utf16_to_utf8-encode16 [] h = refl
utf16_to_utf8-encode16 (cp ∷ cps) (h, hs) =
    utf16_to_utf8-utf16 cp (encode16 cps) h
    ∙ ap (λ bs. utf8 cp ++ bs) (utf16_to_utf8-encode16 cps hs)

-- Each conversion undoes the other on the encodings of a list of scalar values, and utf8_to_utf16 agrees
-- with Utf16FromUtf8 of exercises/interoplab/marshal.h there.
pub unicode_round_trip :
    (cps : List ℕ)
    → All IsScalar cps
    → (utf16_to_utf8 (utf8_to_utf16 (encode cps)) ≡ encode cps)
      × (utf8_to_utf16 (utf16_to_utf8 (encode16 cps)) ≡ encode16 cps)
      × (utf8_to_utf16 (encode cps) ≡ utf16_from_utf8 (encode cps))
unicode_round_trip cps h = (
  rw (utf8_to_utf16-encode cps h) (utf16_to_utf8-encode16 cps h),
  rw (utf16_to_utf8-encode16 cps h) (utf8_to_utf16-encode cps h),
  utf8_to_utf16-encode cps h ∙ sym (utf16_from_utf8-encode cps h),
)

-- For any bytes, damaged or not, converting to UTF-16, back and forth again gives the same code units:
-- what was lost is lost at once.
pub utf8_to_utf16_settles :
    (s : Bytes) → utf8_to_utf16 (utf16_to_utf8 (utf8_to_utf16 s)) ≡ utf8_to_utf16 s
utf8_to_utf16_settles s =
    let (cps, h, same) = utf8_to_utf16-IsText16 s in
    let back : utf8_to_utf16 (utf16_to_utf8 (encode16 cps)) ≡ encode16 cps =
      (unicode_round_trip cps h).1 in
    ap (λ us. utf8_to_utf16 (utf16_to_utf8 us)) same ∙ back ∙ sym same
