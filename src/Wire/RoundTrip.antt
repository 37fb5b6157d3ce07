-- ===== src/Wire/RoundTrip.antt =====
-- exercises/capturelab/wire.cpp: frames as the ICD lays them out.
use going_unmanaged.Prelude.{
  ℕ, zero, suc, ◌+◌, ◌-◌, ◌*◌, ◌/◌, ◌%◌, ◌≤◌, ◌≡◌, refl, ap, ◌∙◌, sym, List, [], ◌∷◌, ◌++◌, Option,
  none, some, Bool-cases, ◌⊎◌, ◌==◌, ltb, ge→ltb, not_ltb→ge, Bytes, length, length-append,
  length-drop, Option-cases, drop, All, arith, inl, inr,
}
use going_unmanaged.Strings.Parts.{substr}
use going_unmanaged.Wire.{Frame, read_u16_be, read_u32_be, decode_body, decode_frame, decode_all}

-- A frame on the wire: the sync byte, the sequence and the size in network order, the kind and the payload.
abbrev pub encode_frame : Frame → Bytes
encode_frame f =
    0xa5
    ∷ f.sequence / 16777216
    ∷ f.sequence / 65536 % 256
    ∷ f.sequence / 256 % 256
    ∷ f.sequence % 256
    ∷ f.size / 256
    ∷ f.size % 256
    ∷ f.kind
    ∷ f.payload

abbrev pub encode_frames : List Frame → Bytes
encode_frames [] = []
encode_frames (f ∷ fs) = encode_frame f ++ encode_frames fs

-- The size of a frame is that of its payload.
abbrev pub IsFrame : Frame → Type 0
IsFrame f = length f.payload ≡ f.size

substr-append : (s rest : Bytes) → substr (length s) (s ++ rest) ≡ s
unfolding substr
substr-append [] rest = refl
substr-append (b ∷ s) rest = ap (λ t. b ∷ t) (substr-append s rest)

drop-append : (s rest : Bytes) → drop (length s) (s ++ rest) ≡ rest
drop-append [] rest = refl
drop-append (b ∷ s) rest = drop-append s rest

sequence_back :
    (n : ℕ) → n / 16777216 * 16777216 + n / 65536 % 256 * 65536 + n / 256 % 256 * 256 + n % 256 ≡ n
sequence_back n = omega arith

size_back : (n : ℕ) → n / 256 * 256 + n % 256 ≡ n
size_back n = omega arith

decode_body-encode :
    (f : Frame) (rest : Bytes)
    → IsFrame f
    → decode_body (encode_frame f ++ rest) ≡ some (some (f, 8 + f.size))
unfolding decode_body read_u16_be read_u32_be
decode_body-encode f rest h =
    rw (size_back f.size, sequence_back f.sequence)
      (rw
        (ge→ltb (length (encode_frame f ++ rest) - 8) f.size
          (omega (arith, h, length-append f.payload rest)))
        (ap
          (λ s. some (
            some (
              record { sequence = f.sequence; size = f.size; kind = f.kind; payload = s },
              8 + f.size,
            )))
          (ap (λ n. substr n (f.payload ++ rest)) (sym h) ∙ substr-append f.payload rest)))

-- Decoding what starts with the bytes of a frame gives this frame and their number.
pub decode_frame-encode :
    (f : Frame) (rest : Bytes)
    → IsFrame f
    → decode_frame (encode_frame f ++ rest) ≡ some (some (f, 8 + f.size))
unfolding decode_frame
decode_frame-encode f rest h =
    rw (ge→ltb (length (encode_frame f ++ rest)) 8 (omega arith)) (decode_body-encode f rest h)

-- The frames of a capture come back, in their order.
pub decode_all-encode :
    (fuel : ℕ) (fs : List Frame)
    → All IsFrame fs
    → length (encode_frames fs) ≤ fuel
    → decode_all fuel (encode_frames fs) ≡ some (some fs)
unfolding decode_all
decode_all-encode fuel [] h l = refl
decode_all-encode zero (f ∷ fs) h l = absurd (omega arith)
decode_all-encode (suc fuel) (f ∷ fs) (h, hs) l =
    let whole : 8 + f.size ≡ length (encode_frame f) = omega (arith, h) in
    let onward : drop (8 + f.size) (encode_frame f ++ encode_frames fs) ≡ encode_frames fs =
      ap (λ n. drop n (encode_frame f ++ encode_frames fs)) whole
      ∙ drop-append (encode_frame f) (encode_frames fs) in
    let fits : length (encode_frames fs) ≤ fuel =
      omega (arith, l, length-append f.payload (encode_frames fs)) in
    let next : decode_all fuel (drop (8 + f.size) (encode_frame f ++ encode_frames fs))
        ≡ some (some fs) =
      ap (decode_all fuel) onward ∙ decode_all-encode fuel fs hs fits in
    rw (decode_all, decode_frame-encode f (encode_frames fs) h) (rw next refl)

-- Where the decoder is asked to read, there is a byte, and what it consumes is in the capture.
pub decode_frame_lem :
    (p : Bytes)
    → (decode_frame p ≡ some none)
      ⊎ ((f : Frame) × (n : ℕ) × (decode_frame p ≡ some (some (f, n))) × (8 ≤ n) × (n ≤ length p))
unfolding decode_frame decode_body read_u16_be read_u32_be
decode_frame_lem (sync ∷ a ∷ b ∷ c ∷ d ∷ e ∷ g ∷ kind ∷ p) =
    let size = e * 256 + g in
    let whole : Bytes = sync ∷ a ∷ b ∷ c ∷ d ∷ e ∷ g ∷ kind ∷ p in
    rw (ge→ltb (length whole) 8 (omega arith)) (elim (Bool-cases (sync == 0xa5)) [
      | inr n ↦ rw n (inl refl)
      | inl y ↦ rw y (elim (Bool-cases (ltb (length whole - 8) size)) [
        | inl short ↦ rw short (inl refl)
        | inr enough ↦ rw enough (
            inr (
              _,
              8 + size,
              refl,
              omega arith,
              omega (arith, not_ltb→ge (length whole - 8) size enough),
            ))
      ])
    ])
decode_frame_lem [] = inl refl
decode_frame_lem (a ∷ []) = inl refl
decode_frame_lem (a ∷ b ∷ []) = inl refl
decode_frame_lem (a ∷ b ∷ c ∷ []) = inl refl
decode_frame_lem (a ∷ b ∷ c ∷ d ∷ []) = inl refl
decode_frame_lem (a ∷ b ∷ c ∷ d ∷ e ∷ []) = inl refl
decode_frame_lem (a ∷ b ∷ c ∷ d ∷ e ∷ f ∷ []) = inl refl
decode_frame_lem (a ∷ b ∷ c ∷ d ∷ e ∷ f ∷ g ∷ []) = inl refl

-- With a unit of fuel for each byte the loop ends, whatever the capture.
pub decode_all_total :
    (fuel : ℕ) (p : Bytes)
    → length p ≤ fuel
    → (r : Option (List Frame)) × (decode_all fuel p ≡ some r)
unfolding decode_all
decode_all_total fuel [] l = (some [], refl)
decode_all_total zero (b ∷ p) l = absurd (omega arith)
decode_all_total (suc fuel) (b ∷ p) l = elim (decode_frame_lem (b ∷ p)) [
  | inl e ↦ (none, rw (decode_all, e) refl)
  | inr (f, n, e, low, high) ↦
      let (r, rest) =
        decode_all_total fuel (drop n (b ∷ p)) (omega (arith, length-drop n (b ∷ p))) in
      elim (Option-cases r) [
        | inl w ↦
            let none_left : decode_all fuel (drop n (b ∷ p)) ≡ some none =
              rest ∙ ap (λ z. some z) w in
            (none, rw (decode_all, e) (rw none_left refl))
        | inr (fs, w) ↦
            let more : decode_all fuel (drop n (b ∷ p)) ≡ some (some fs) =
              rest ∙ ap (λ z. some z) w in
            (some (f ∷ fs), rw (decode_all, e) (rw more refl))
      ]
]
