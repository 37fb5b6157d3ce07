-- ===== src/Tests/Wire.antt =====
-- exercises/capturelab/main.cpp: the capture of the ticket, and one that is cut short.
use going_unmanaged.Prelude.{ℕ, ◌≡◌, refl, [], ◌∷◌, ◌++◌, some, none, Bytes, arith}
use going_unmanaged.Wire.{Frame, decode_frame, decode_all}
use going_unmanaged.Wire.RoundTrip.{encode_frames, decode_all-encode}

abbrev reading : ℕ → ℕ → Frame
reading sequence low = record { sequence = sequence; size = 2; kind = 1; payload = 0x09 ∷ low ∷ [] }

abbrev capture : Bytes
capture =
    (0xa5 ∷ 0x00 ∷ 0x00 ∷ 0x00 ∷ 0x01 ∷ 0x00 ∷ 0x02 ∷ 0x01 ∷ 0x09 ∷ 0x29 ∷ [])
    ++ (0xa5 ∷ 0x00 ∷ 0x00 ∷ 0x00 ∷ 0x02 ∷ 0x00 ∷ 0x02 ∷ 0x01 ∷ 0x09 ∷ 0x2b ∷ [])

decode_all-encode_example :
    decode_all 20 (encode_frames (reading 1 0x29 ∷ reading 2 0x2b ∷ []))
    ≡ some (some (reading 1 0x29 ∷ reading 2 0x2b ∷ []))
decode_all-encode_example =
    decode_all-encode 20 (reading 1 0x29 ∷ reading 2 0x2b ∷ []) (refl, (refl, tt)) (omega arith)

hand_decoded : decode_all 20 capture ≡ some (some (reading 1 0x29 ∷ reading 2 0x2b ∷ []))
unfolding decode_all
hand_decoded = refl

payload_cut : decode_frame (0xa5 ∷ 0 ∷ 0 ∷ 0 ∷ 1 ∷ 0 ∷ 2 ∷ 1 ∷ 9 ∷ []) ≡ some none
unfolding decode_frame
payload_cut = refl
