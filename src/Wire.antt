-- ===== src/Wire.antt =====
-- exercises/capturelab/wire.cpp and wire.h, and the loop of main.cpp. A pointer into the capture is the list
-- of the bytes from there to its end; a read past the end is `none`. What `out` has where the decoder
-- returns false is not looked at.
pub mod RoundTrip
use going_unmanaged.Prelude.{
  ℕ, zero, suc, ◌+◌, ◌-◌, ◌*◌, List, [], ◌∷◌, Option, none, some, Bool, true, false, not,
  if◌then◌else◌, ◌==◌, ltb, Bytes, length, drop, get_elem?,
}
use going_unmanaged.Strings.Parts.{substr}

abbrev pub header_size : ℕ
header_size = 8

unfoldable pub read_u16_be : Bytes → Option ℕ
read_u16_be (a ∷ b ∷ p) = some (a * 256 + b)
read_u16_be p = none

unfoldable pub read_u32_be : Bytes → Option ℕ
read_u32_be (a ∷ b ∷ c ∷ d ∷ p) = some (a * 16777216 + b * 65536 + c * 256 + d)
read_u32_be p = none

-- The payload is what it borrows: `size` bytes of the capture.
pub record Frame : Type 0 where
  pub sequence : ℕ
  pub size : ℕ
  pub kind : ℕ
  pub payload : Bytes

-- The part behind the tests: the values of the header, and the payload if it is all there.
unfoldable pub decode_body : Bytes → Option (Option (Frame × ℕ))
unfolding read_u16_be read_u32_be substr
decode_body p = elim (read_u32_be (drop 1 p)) [
  | none ↦ none
  | some sequence ↦ elim (read_u16_be (drop 5 p)) as (λ r. Option (Option (Frame × ℕ))) [
    | none ↦ none
    | some size ↦ elim (get_elem? p 7) as (λ r. Option (Option (Frame × ℕ))) [
      | none ↦ none
      | some kind ↦
          if ltb (length p - header_size) size
          then some none
          else some (
              some (
                record {
                  sequence = sequence;
                  size = size;
                  kind = kind;
                  payload = substr size (drop header_size p);
                },
                header_size + size,
              ))
    ]
  ]
]

-- decode_frame: `some none` is false, and else the frame and the bytes consumed.
unfoldable pub decode_frame : Bytes → Option (Option (Frame × ℕ))
unfolding decode_body
decode_frame p =
    let body = decode_body p in
    if ltb (length p) header_size
    then some none
    else elim (get_elem? p 0) as (λ r. Option (Option (Frame × ℕ))) [
      | none ↦ none
      | some sync ↦ if not (sync == 0xa5) then some none else body
    ]

-- The loop of main(), without its oracle: the frames, or `some none` where one is malformed.
unfoldable pub decode_all : ℕ → Bytes → Option (Option (List Frame))
unfolding decode_frame
decode_all fuel [] = some (some [])
decode_all zero (b ∷ p) = none
decode_all (suc fuel) (b ∷ p) = elim (decode_frame (b ∷ p)) as (λ r. Option (Option (List Frame))) [
  | none ↦ none
  | some none ↦ some none
  | some (some (frame, advance)) ↦
      elim (decode_all fuel (drop advance (b ∷ p))) as (λ r. Option (Option (List Frame))) [
        | none ↦ none
        | some none ↦ some none
        | some (some frames) ↦ some (some (frame ∷ frames))
      ]
]
