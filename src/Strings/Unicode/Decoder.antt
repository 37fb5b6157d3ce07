-- ===== src/Strings/Unicode/Decoder.antt =====
-- exercises/cookbook/strings.cpp: utf8_to_utf16 on well-formed and on damaged text.
use going_unmanaged.Prelude.{
  ℕ, zero, suc, ◌+◌, ◌-◌, ◌*◌, ◌/◌, ◌%◌, ◌≤◌, ◌<◌, ◌≡◌, refl, ap, ◌∙◌, ◌⊎◌, inl, inr, List, [], ◌∷◌,
  ◌++◌, ltb, Bool, Bool-cases, true, false, Bytes, All, arith, ltb→lt, not_ltb→ge,
}
use going_unmanaged.Interop.Encoding.{IsScalar, utf8, encode, utf16, encode16}
use going_unmanaged.Strings.Unicode.{
  announced, lead_payload, continues, continuation, is_damaged, sequence, utf16_units, utf16_from,
  utf8_to_utf16,
}

-- What passes the tests is a scalar value.
undamaged-IsScalar :
    (n taken cp : ℕ) (whole : Bool) → is_damaged n whole taken cp ≡ false → IsScalar cp
unfolding is_damaged
undamaged-IsScalar n taken cp whole h = ground arith

sequence-IsScalar : (b0 : ℕ) (rest : Bytes) → IsScalar (sequence b0 rest).0
unfolding sequence
sequence-IsScalar b0 rest =
    let n = announced b0 in
    let (whole, cp, taken) = continuation (n - 1) (lead_payload n b0) 1 rest in
    elim (Bool-cases (is_damaged n whole taken cp)) [
      | inl y ↦ rw (sequence, y) (inr (omega arith, omega arith))
      | inr u ↦ rw (sequence, u) (undamaged-IsScalar n taken cp whole u)
    ]

-- The code units of some text.
abbrev IsText16 : List ℕ → Type 0
IsText16 us = (cps : List ℕ) × All IsScalar cps × (us ≡ encode16 cps)

utf16_from-IsText16 : (skip : ℕ) (s : Bytes) → IsText16 (utf16_from skip s)
unfolding utf16_from utf16_units
utf16_from-IsText16 skip [] = ([], tt, refl)
utf16_from-IsText16 (suc skip) (b ∷ rest) = utf16_from-IsText16 skip rest
utf16_from-IsText16 zero (b0 ∷ rest) =
    let (cp, taken) = sequence b0 rest in
    let (cps, scalars, same) = utf16_from-IsText16 (taken - 1) rest in
    (cp ∷ cps, (sequence-IsScalar b0 rest, scalars), ap (λ us. utf16 cp ++ us) same)

-- Whatever the bytes, utf8_to_utf16 gives the code units of a list of scalar values: no surrogate stands
-- alone in it.
pub utf8_to_utf16-IsText16 :
    (s : Bytes) → (cps : List ℕ) × All IsScalar cps × (utf8_to_utf16 s ≡ encode16 cps)
unfolding utf8_to_utf16
utf8_to_utf16-IsText16 s = utf16_from-IsText16 0 s

-- What the loop reads of the lead byte of each length.
announced_2 : (h : ℕ) → h < 32 → announced (0xc0 + h) ≡ 2
unfolding announced
announced_2 h l = ground arith

announced_3 : (h : ℕ) → h < 16 → announced (0xe0 + h) ≡ 3
unfolding announced
announced_3 h l = ground arith

announced_4 : (h : ℕ) → h < 8 → announced (0xf0 + h) ≡ 4
unfolding announced
announced_4 h l = ground arith

continues_yes : (x : ℕ) → x < 64 → continues (0x80 + x) ≡ true
continues_yes x l = ground arith

undamaged :
    (n cp : ℕ)
    → IsScalar cp
    → 0 < n
    → (n ≡ 1) ⊎ ((n ≡ 2) × (0x80 ≤ cp)) ⊎ ((n ≡ 3) × (0x800 ≤ cp)) ⊎ ((n ≡ 4) × (0x10000 ≤ cp))
    → is_damaged n true n cp ≡ false
unfolding is_damaged
undamaged n cp s p long = ground arith

sequence_1 : (cp : ℕ) (rest : Bytes) → cp < 0x80 → sequence cp rest ≡ (cp, 1)
unfolding sequence announced lead_payload continuation
sequence_1 cp rest l =
    let lead : announced cp ≡ 1 = ground arith in
    let fine = undamaged 1 cp (inl (omega arith)) (omega arith) (inl refl) in rw (lead, fine) refl

sequence_2 :
    (cp : ℕ) (rest : Bytes)
    → IsScalar cp
    → 0x80 ≤ cp
    → cp < 0x800
    → sequence (0xc0 + cp / 64) ((0x80 + cp % 64) ∷ rest) ≡ (cp, 2)
unfolding sequence lead_payload continuation
sequence_2 cp rest s g l =
    let same : (0xc0 + cp / 64) % 32 * 64 + (0x80 + cp % 64) % 64 ≡ cp = omega arith in
    let fine = undamaged 2 cp s (omega arith) (inr (inl (refl, g))) in
    rw (announced_2 (cp / 64) (omega arith), continues_yes (cp % 64) (omega arith), same, fine) refl

sequence_3 :
    (cp : ℕ) (rest : Bytes)
    → IsScalar cp
    → 0x800 ≤ cp
    → cp < 0x10000
    → sequence (0xe0 + cp / 4096) ((0x80 + cp / 64 % 64) ∷ (0x80 + cp % 64) ∷ rest) ≡ (cp, 3)
unfolding sequence lead_payload continuation
sequence_3 cp rest s g l =
    let same : ((0xe0 + cp / 4096) % 16 * 64 + (0x80 + cp / 64 % 64) % 64) * 64
          + (0x80 + cp % 64) % 64
        ≡ cp =
      omega arith in
    let fine = undamaged 3 cp s (omega arith) (inr (inr (inl (refl, g)))) in
    rw
      (
        announced_3 (cp / 4096) (omega arith),
        continues_yes (cp / 64 % 64) (omega arith),
        continues_yes (cp % 64) (omega arith),
        same,
        fine,
      )
      refl

sequence_4 :
    (cp : ℕ) (rest : Bytes)
    → IsScalar cp
    → 0x10000 ≤ cp
    → sequence
        (0xf0 + cp / 262144)
        ((0x80 + cp / 4096 % 64) ∷ (0x80 + cp / 64 % 64) ∷ (0x80 + cp % 64) ∷ rest)
      ≡ (cp, 4)
unfolding sequence lead_payload continuation
sequence_4 cp rest s g =
    let same : (((0xf0 + cp / 262144) % 8 * 64 + (0x80 + cp / 4096 % 64) % 64) * 64
              + (0x80 + cp / 64 % 64) % 64)
            * 64
          + (0x80 + cp % 64) % 64
        ≡ cp =
      omega arith in
    let fine = undamaged 4 cp s (omega arith) (inr (inr (inr (refl, g)))) in
    rw
      (
        announced_4 (cp / 262144) (omega arith),
        continues_yes (cp / 4096 % 64) (omega arith),
        continues_yes (cp / 64 % 64) (omega arith),
        continues_yes (cp % 64) (omega arith),
        same,
        fine,
      )
      refl

utf16_from_round :
    (b0 cp taken : ℕ) (rest : Bytes)
    → sequence b0 rest ≡ (cp, taken)
    → utf16_from 0 (b0 ∷ rest) ≡ utf16_units cp ++ utf16_from (taken - 1) rest
unfolding utf16_from
utf16_from_round b0 cp taken rest e = ap (λ p. utf16_units p.0 ++ utf16_from (p.1 - 1) rest) e

-- What utf8 gives, by length.
utf8_2 :
    (cp : ℕ)
    → ltb cp 0x80 ≡ false
    → ltb cp 0x800 ≡ true
    → utf8 cp ≡ (0xc0 + cp / 64) ∷ (0x80 + cp % 64) ∷ []
unfolding utf8
utf8_2 cp n y = rw (n, y) refl

utf8_3 :
    (cp : ℕ)
    → ltb cp 0x80 ≡ false
    → ltb cp 0x800 ≡ false
    → ltb cp 0x10000 ≡ true
    → utf8 cp ≡ (0xe0 + cp / 4096) ∷ (0x80 + cp / 64 % 64) ∷ (0x80 + cp % 64) ∷ []
unfolding utf8
utf8_3 cp n m y = rw (n, m, y) refl

utf8_4 :
    (cp : ℕ)
    → ltb cp 0x80 ≡ false
    → ltb cp 0x800 ≡ false
    → ltb cp 0x10000 ≡ false
    → utf8 cp
      ≡ (0xf0 + cp / 262144)
        ∷ (0x80 + cp / 4096 % 64)
        ∷ (0x80 + cp / 64 % 64)
        ∷ (0x80 + cp % 64)
        ∷ []
unfolding utf8
utf8_4 cp n m o = rw (n, m, o) refl

-- The sequence of a scalar value at the front of a text.
utf16_from-utf8 :
    (cp : ℕ) (rest : Bytes)
    → IsScalar cp
    → utf16_from 0 (utf8 cp ++ rest) ≡ utf16_units cp ++ utf16_from 0 rest
unfolding utf16_from
utf16_from-utf8 cp rest s = elim (Bool-cases (ltb cp 0x80)) [
  | inl y1 ↦
      let one : utf8 cp ≡ cp ∷ [] = unfold utf8 in rw y1 refl in
      rw one (utf16_from_round cp cp 1 rest (sequence_1 cp rest (ltb→lt cp 0x80 y1)))
  | inr n1 ↦ elim (Bool-cases (ltb cp 0x800)) [
    | inl y2 ↦ rw (utf8_2 cp n1 y2) (
        utf16_from_round (0xc0 + cp / 64) cp 2 ((0x80 + cp % 64) ∷ rest)
          (sequence_2 cp rest s (not_ltb→ge cp 0x80 n1) (ltb→lt cp 0x800 y2)))
    | inr n2 ↦ elim (Bool-cases (ltb cp 0x10000)) [
      | inl y3 ↦ rw (utf8_3 cp n1 n2 y3) (
          utf16_from_round (0xe0 + cp / 4096) cp 3 ((0x80 + cp / 64 % 64) ∷ (0x80 + cp % 64) ∷ rest)
            (sequence_3 cp rest s (not_ltb→ge cp 0x800 n2) (ltb→lt cp 0x10000 y3)))
      | inr n3 ↦ rw (utf8_4 cp n1 n2 n3) (
          utf16_from_round (0xf0 + cp / 262144) cp 4
            ((0x80 + cp / 4096 % 64) ∷ (0x80 + cp / 64 % 64) ∷ (0x80 + cp % 64) ∷ rest)
            (sequence_4 cp rest s (not_ltb→ge cp 0x10000 n3)))
    ]
  ]
]

-- utf8_to_utf16 of a text in UTF-8 is the text in UTF-16.
pub utf8_to_utf16-encode :
    (cps : List ℕ) → All IsScalar cps → utf8_to_utf16 (encode cps) ≡ encode16 cps
unfolding utf8_to_utf16 encode utf16_from utf16_units
utf8_to_utf16-encode [] h = refl
utf8_to_utf16-encode (cp ∷ cps) (h, hs) =
    utf16_from-utf8 cp (encode cps) h ∙ ap (λ us. utf16 cp ++ us) (utf8_to_utf16-encode cps hs)
