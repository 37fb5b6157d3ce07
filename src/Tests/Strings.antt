-- ===== src/Tests/Strings.antt =====
-- exercises/cookbook/strings.cpp: the text of main(), a damaged one, and the fields of a path.
use going_unmanaged.Prelude.{
  ℕ, ◌≡◌, refl, ◌++◌, true, some, List, [], ◌∷◌, inl, inr, All, codes, arith, Bytes,
}
use going_unmanaged.Interop.{utf16_from_utf8}
use going_unmanaged.Interop.Encoding.{IsScalar, encode, encode16}
use going_unmanaged.Plugin.Int32.{pos, negsuc}
use going_unmanaged.Strings.Unicode.{utf8_to_utf16, utf16_to_utf8}
use going_unmanaged.Strings.Unicode.Decoder.{utf8_to_utf16-IsText16}
use going_unmanaged.Strings.Unicode.Encoder.{unicode_round_trip}
use going_unmanaged.Strings.Parts.{
  split, join, trim, redact_digits, sensor_index, equals_ignore_case, build_report, starts_with,
  ends_with,
}
use going_unmanaged.Strings.Parts.RoundTrip.{split-join}

-- An umlaut and the clef.
abbrev text : List ℕ
text = 71 ∷ 0xfc ∷ 0x1d11e ∷ []

text-IsScalar : All IsScalar text
text-IsScalar = (inl (omega arith), (inl (omega arith), (inr (omega arith, omega arith), tt)))

unicode_round_trip_example :
    (utf16_to_utf8 (utf8_to_utf16 (encode text)) ≡ encode text)
    × (utf8_to_utf16 (utf16_to_utf8 (encode16 text)) ≡ encode16 text)
    × (utf8_to_utf16 (encode text) ≡ utf16_from_utf8 (encode text))
unicode_round_trip_example = unicode_round_trip text text-IsScalar

-- A continuation byte alone, an overlong slash, and a lead byte at the end.
abbrev damaged : Bytes
damaged = 0x80 ∷ 0xc0 ∷ 0xaf ∷ 65 ∷ 0xe2 ∷ []

damaged_units : utf8_to_utf16 damaged ≡ 0xfffd ∷ 0xfffd ∷ 65 ∷ 0xfffd ∷ []
unfolding utf8_to_utf16
damaged_units = refl

utf8_to_utf16-IsText16_example :
    (cps : List ℕ) × All IsScalar cps × (utf8_to_utf16 damaged ≡ encode16 cps)
utf8_to_utf16-IsText16_example = utf8_to_utf16-IsText16 damaged

split-join_example :
    split (join (codes "a" ∷ codes "" ∷ codes "b" ∷ []) (codes ",")) b','
    ≡ codes "a" ∷ codes "" ∷ codes "b" ∷ []
split-join_example =
    split-join b',' (codes "a") (codes "" ∷ codes "b" ∷ []) ((λ e. absurd (omega (arith, e))), tt)
      (tt, (((λ e. absurd (omega (arith, e))), tt), tt)) refl refl

join_leads_empty : join ([] ∷ codes "x" ∷ []) (codes ", ") ≡ codes "x"
unfolding join
join_leads_empty = refl

trimmed : trim (codes "  ab c ") ≡ codes "ab c"
unfolding trim
trimmed = refl

redacted : redact_digits (codes "sensor12 v3") ≡ codes "sensor# v#"
unfolding redact_digits
redacted = refl

sensor_of : sensor_index (codes "sensor42") ≡ some 42
unfolding sensor_index
sensor_of = refl

reported :
    build_report (pos 1 ∷ negsuc 1 ∷ []) ≡ codes "value=1" ++ 10 ∷ codes "value=-2" ++ 10 ∷ []
unfolding build_report
reported = refl

said : starts_with (codes "sensor3") (codes "sensor") ≡ true
unfolding starts_with
said = refl

said_last : ends_with (codes "sensor3") (codes "r3") ≡ true
unfolding ends_with
said_last = refl

same_but_case : equals_ignore_case (codes "Gain") (codes "gAIN") ≡ true
unfolding equals_ignore_case
same_but_case = refl
