-- ===== src/Interop/Strings.antt =====
-- exercises/interoplab/marshal.h: Utf16FromUtf8 and CodePoints against the two encodings.
use going_unmanaged.Prelude.{
  ℕ, zero, suc, ◌+◌, ◌-◌, ◌*◌, ◌/◌, ◌%◌, ◌≤◌, ◌<◌, ◌≡◌, refl, ap, ◌∙◌, ◌⊎◌, inl, inr, List, [], ◌∷◌,
  ◌++◌, ltb, Bool-cases, true, false, Bytes, All, length, arith, ltb→lt, not_ltb→ge, length-append,
  lt→ltb, ge→ltb,
}
use going_unmanaged.Interop.{
  lead, continued, units, utf16_loop, utf16_from_utf8, code_points, starts_code_point,
}
use going_unmanaged.Interop.Encoding.{IsScalar, utf8, encode, decode, utf16, encode16}

lead_1 : (c : ℕ) → c < 0x80 → lead c ≡ (c, 1)
unfolding lead
lead_1 c h = ground arith

lead_2 : (h : ℕ) → h < 32 → lead (0xc0 + h) ≡ (h, 2)
unfolding lead
lead_2 h l = ground arith

lead_3 : (h : ℕ) → h < 16 → lead (0xe0 + h) ≡ (h, 3)
unfolding lead
lead_3 h l = ground arith

lead_4 : (h : ℕ) → h < 8 → lead (0xf0 + h) ≡ (h, 4)
unfolding lead
lead_4 h l = ground arith

-- The sequence of one code point at the front of a string.
utf16_loop-utf8 :
    (cp : ℕ) (rest : Bytes)
    → cp < 0x110000
    → utf16_loop 0 (utf8 cp ++ rest) ≡ units cp ++ utf16_loop 0 rest
unfolding utf16_loop utf8 continued
utf16_loop-utf8 cp rest l = elim (Bool-cases (ltb cp 0x80)) [
  | inl y1 ↦ rw (y1, lead_1 cp (ltb→lt cp 0x80 y1)) refl
  | inr n1 ↦ elim (Bool-cases (ltb cp 0x800)) [
    | inl y2 ↦
        let same : cp / 64 * 64 + (0x80 + cp % 64) % 64 ≡ cp = omega arith in
        rw (n1, y2, lead_2 (cp / 64) (omega (arith, ltb→lt cp 0x800 y2)), same) refl
    | inr n2 ↦ elim (Bool-cases (ltb cp 0x10000)) [
      | inl y3 ↦
          let same : (cp / 4096 * 64 + (0x80 + cp / 64 % 64) % 64) * 64 + (0x80 + cp % 64) % 64
              ≡ cp =
            omega arith in
          rw (n1, n2, y3, lead_3 (cp / 4096) (omega (arith, ltb→lt cp 0x10000 y3)), same, y3) refl
      | inr n3 ↦
          let same : ((cp / 262144 * 64 + (0x80 + cp / 4096 % 64) % 64) * 64
                    + (0x80 + cp / 64 % 64) % 64)
                  * 64
                + (0x80 + cp % 64) % 64
              ≡ cp =
            omega arith in
          rw (n1, n2, n3, lead_4 (cp / 262144) (omega arith), same, n3) refl
    ]
  ]
]

decode_single :
    (u : ℕ) (us : List ℕ) → (u < 0xd800) ⊎ (0xe000 ≤ u) → decode (u ∷ us) ≡ u ∷ decode us
unfolding decode
decode_single u [] h = refl
decode_single u (v ∷ us) (inl low) = rw (lt→ltb u 0xd800 low) refl
decode_single u (v ∷ us) (inr high) =
    rw (ge→ltb u 0xd800 (omega arith), ge→ltb u 0xdc00 (omega arith)) refl

-- The units of one scalar value at the front of a string of units.
decode-units : (cp : ℕ) (us : List ℕ) → IsScalar cp → decode (units cp ++ us) ≡ cp ∷ decode us
unfolding decode units
decode-units cp us h = elim (Bool-cases (ltb cp 0x10000)) [
  | inl y ↦
      let l = ltb→lt cp 0x10000 y in
      let same : cp % 0x10000 ≡ cp = omega arith in
      rw y (ap (λ u. decode (u ∷ us)) same ∙ decode_single cp us (omega arith))
  | inr n ↦
      let g = not_ltb→ge cp 0x10000 n in
      let x = cp - 0x10000 in
      let hi : (0xd800 + x / 1024) % 0x10000 ≡ 0xd800 + x / 1024 = omega arith in
      let lo : (0xdc00 + x % 1024) % 0x10000 ≡ 0xdc00 + x % 1024 = omega arith in
      let same : 0x10000 + (0xd800 + x / 1024 - 0xd800) * 1024 + (0xdc00 + x % 1024 - 0xdc00) ≡ cp =
        omega arith in
      rw
        (
          n,
          hi,
          lo,
          ge→ltb (0xd800 + x / 1024) 0xd800 (omega arith),
          lt→ltb (0xd800 + x / 1024) 0xdc00 (omega arith),
          same,
        )
        refl
]

start_yes : (c : ℕ) → (c < 0x80) ⊎ (0xc0 ≤ c) → starts_code_point c ≡ true
start_yes c h = ground arith

start_no : (c : ℕ) → c < 64 → starts_code_point (0x80 + c) ≡ false
start_no c h = ground arith

code_points-utf8 :
    (cp : ℕ) (rest : Bytes) → cp < 0x110000 → code_points (utf8 cp ++ rest) ≡ suc (code_points rest)
unfolding code_points utf8
code_points-utf8 cp rest l =
    let low = start_no (cp % 64) (omega arith) in
    let mid = start_no (cp / 64 % 64) (omega arith) in
    let high = start_no (cp / 4096 % 64) (omega arith) in
    elim (Bool-cases (ltb cp 0x80)) [
      | inl y1 ↦ rw (y1, start_yes cp (inl (ltb→lt cp 0x80 y1))) refl
      | inr n1 ↦ elim (Bool-cases (ltb cp 0x800)) [
        | inl y2 ↦ rw (n1, y2, start_yes (0xc0 + cp / 64) (omega arith), low) refl
        | inr n2 ↦ elim (Bool-cases (ltb cp 0x10000)) [
          | inl y3 ↦ rw (n1, n2, y3, start_yes (0xe0 + cp / 4096) (omega arith), mid, low) refl
          | inr n3 ↦
              rw (n1, n2, n3, start_yes (0xf0 + cp / 262144) (omega arith), high, mid, low) refl
        ]
      ]
    ]

IsScalar-lt : (cp : ℕ) → IsScalar cp → cp < 0x110000
IsScalar-lt cp h = omega arith

-- The code units that Utf16FromUtf8 gives for a text in UTF-8, read as UTF-16, are the text: no
-- scalar value is lost, split or changed.
pub decode-utf16_from_utf8 :
    (cps : List ℕ) → All IsScalar cps → decode (utf16_from_utf8 (encode cps)) ≡ cps
unfolding utf16_from_utf8 encode decode utf16_loop
decode-utf16_from_utf8 [] h = refl
decode-utf16_from_utf8 (cp ∷ cps) (h, hs) =
    rw (utf16_loop-utf8 cp (encode cps) (IsScalar-lt cp h)) (
      decode-units cp (utf16_loop 0 (encode cps)) h
      ∙ ap (λ us. cp ∷ us) (decode-utf16_from_utf8 cps hs))

-- CodePoints of a text in UTF-8 is the number of its scalar values.
pub code_points-encode : (cps : List ℕ) → All IsScalar cps → code_points (encode cps) ≡ length cps
unfolding code_points encode
code_points-encode [] h = refl
code_points-encode (cp ∷ cps) (h, hs) =
    code_points-utf8 cp (encode cps) (IsScalar-lt cp h) ∙ ap suc (code_points-encode cps hs)

-- Two units only come from a whole sequence of four bytes.
units-short : (cp : ℕ) → cp < 0x10000 → length (units cp) ≡ 1
unfolding units
units-short cp l = rw (lt→ltb cp 0x10000 l) refl

units-le-2 : (cp : ℕ) → length (units cp) ≤ 2
unfolding units
units-le-2 cp = elim (Bool-cases (ltb cp 0x10000)) [
  | inl y ↦ rw y (omega arith)
  | inr n ↦ rw n (omega arith)
]

units-continued :
    (n cp : ℕ) (bytes : Bytes)
    → cp < 0x10000
    → length (units (continued n cp bytes)) + (length bytes - n) ≤ suc (length bytes)
unfolding continued
units-continued zero cp bytes l = omega (arith, units-short cp l)
units-continued (suc n) cp [] l = omega (arith, units-short cp l)
units-continued (suc n) cp (b ∷ bytes) l =
    omega (arith, units-le-2 (continued n (cp * 64 + b % 64) bytes))

lead_bits : (c : ℕ) → (lead c).0 < 0x10000
unfolding lead
lead_bits c = ground arith

length-utf16_loop : (skip : ℕ) (s : Bytes) → length (utf16_loop skip s) ≤ length s - skip
unfolding utf16_loop
length-utf16_loop skip [] = omega arith
length-utf16_loop (suc skip) (b ∷ bytes) = omega (arith, length-utf16_loop skip bytes)
length-utf16_loop zero (c ∷ bytes) =
    let (bits, len) = lead c in
    let pushed = units (continued (len - 1) bits bytes) in
    omega (
      arith,
      length-append pushed (utf16_loop (len - 1) bytes),
      length-utf16_loop (len - 1) bytes,
      units-continued (len - 1) bits bytes (lead_bits c),
    )

-- For every string of bytes, also one that is not UTF-8, Utf16FromUtf8 pushes at most as many units as
-- there are bytes.
pub length-utf16_from_utf8 : (s : Bytes) → length (utf16_from_utf8 s) ≤ length s
unfolding utf16_from_utf8
length-utf16_from_utf8 s = omega (arith, length-utf16_loop 0 s)

units_lem : (cp : ℕ) → IsScalar cp → units cp ≡ utf16 cp
unfolding units
units_lem cp h = elim (Bool-cases (ltb cp 0x10000)) [
  | inl y ↦
      let l = ltb→lt cp 0x10000 y in let same : cp % 0x10000 ≡ cp = omega arith in rw (y, same) refl
  | inr n ↦
      let hi : (0xd800 + (cp - 0x10000) / 1024) % 0x10000 ≡ 0xd800 + (cp - 0x10000) / 1024 =
        omega arith in
      let lo : (0xdc00 + (cp - 0x10000) % 1024) % 0x10000 ≡ 0xdc00 + (cp - 0x10000) % 1024 =
        omega arith in
      rw (n, hi, lo) refl
]

pub utf16_from_utf8-encode :
    (cps : List ℕ) → All IsScalar cps → utf16_from_utf8 (encode cps) ≡ encode16 cps
unfolding utf16_from_utf8 encode utf16_loop
utf16_from_utf8-encode [] h = refl
utf16_from_utf8-encode (cp ∷ cps) (h, hs) =
    utf16_loop-utf8 cp (encode cps) (IsScalar-lt cp h)
    ∙ ap (λ us. us ++ utf16_loop 0 (encode cps)) (units_lem cp h)
    ∙ ap (λ us. utf16 cp ++ us) (utf16_from_utf8-encode cps hs)
