-- ===== src/Interop.antt =====
-- exercises/interoplab/marshal.h: the strings and the callback of the stand-in marshaller. A string is
-- the list of its bytes, each below 256, so that shifts and masks are quotients and remainders, and
-- `(cp << 6) | (b & 0x3F)` is `cp * 64 + b % 64`; a code point stays below 2 ^ 21.
pub mod Encoding
pub mod Strings
use going_unmanaged.Prelude.{
  ℕ, zero, suc, ◌+◌, ◌-◌, ◌*◌, ◌/◌, ◌%◌, List, [], ◌∷◌, ◌++◌, Bool, true, false, if◌then◌else◌, ltb,
  ◌==◌, not, Bytes,
}

-- What the lead byte says: its bits of the code point, and the length of the sequence.
unfoldable pub lead : ℕ → ℕ × ℕ
lead c =
    if ltb c 0x80
    then (c, 1)
    else if c / 32 == 6
    then (c % 32, 2)
    else if c / 16 == 14
    then (c % 16, 3)
    else (c % 8, 4)

-- The loop over at most `n` further bytes of a sequence, as far as the string has them.
unfoldable pub continued : ℕ → ℕ → Bytes → ℕ
continued zero cp bytes = cp
continued (suc n) cp [] = cp
continued (suc n) cp (b ∷ bytes) = continued n (cp * 64 + b % 64) bytes

-- What is pushed for a code point.
unfoldable pub units : ℕ → List ℕ
units cp =
    if ltb cp 0x10000
    then cp % 0x10000 ∷ []
    else (0xd800 + (cp - 0x10000) / 1024) % 0x10000
      ∷ (0xdc00 + (cp - 0x10000) % 1024) % 0x10000
      ∷ []

-- The loop of Utf16FromUtf8, with the bytes by which `i` has still to move before the next round.
unfoldable pub utf16_loop : ℕ → Bytes → List ℕ
unfolding lead continued units
utf16_loop skip [] = []
utf16_loop (suc skip) (b ∷ bytes) = utf16_loop skip bytes
utf16_loop zero (c ∷ bytes) =
    let (bits, len) = lead c in units (continued (len - 1) bits bytes) ++ utf16_loop (len - 1) bytes

unfoldable pub utf16_from_utf8 : Bytes → List ℕ
unfolding utf16_loop
utf16_from_utf8 s = utf16_loop 0 s

-- `(c & 0xC0) != 0x80`
abbrev pub starts_code_point : ℕ → Bool
starts_code_point c = not (c / 64 == 2)

unfoldable pub code_points : Bytes → ℕ
code_points [] = 0
code_points (c ∷ bytes) = if starts_code_point c then suc (code_points bytes) else code_points bytes

-- The managed side of a callback.
pub record SinkTarget : Type 0 where
  pub received : List ℕ
  pub alive : Bool
  pub calls_after_death : ℕ
