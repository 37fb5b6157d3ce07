-- ===== src/Strings/Unicode.antt =====
-- exercises/cookbook/strings.cpp, recipe 17: the boundary between UTF-8 and UTF-16.
pub mod Decoder
pub mod Encoder
use going_unmanaged.Prelude.{
  ℕ, zero, suc, ◌+◌, ◌-◌, ◌*◌, ◌/◌, ◌%◌, List, [], ◌∷◌, ◌++◌, Bool, true, false, not, ◌&&◌, ◌||◌,
  if◌then◌else◌, ltb, leb, ◌==◌, Bytes,
}

-- `n`: the length that the lead byte announces, or 0.
unfoldable pub announced : ℕ → ℕ
announced b0 =
    if ltb b0 0x80
    then 1
    else if b0 / 32 == 6
    then 2
    else if b0 / 16 == 14
    then 3
    else if b0 / 8 == 30
    then 4
    else 0

-- The first value of `cp`: the lead byte's payload, `b0 & (0x7F >> n)` for two to four.
unfoldable pub lead_payload : ℕ → ℕ → ℕ
lead_payload n b0 =
    if n == 1
    then b0
    else if n == 2
    then b0 % 32
    else if n == 3
    then b0 % 16
    else if n == 4
    then b0 % 8
    else 0xfffd

-- `(b & 0xC0) == 0x80`
abbrev pub continues : ℕ → Bool
continues b = b / 64 == 2

-- The inner loop, for at most `m` further bytes: whether none of them cut the sequence short, `cp` and
-- `taken`.
unfoldable pub continuation : ℕ → ℕ → ℕ → Bytes → Bool × ℕ × ℕ
continuation zero cp taken rest = (true, cp, taken)
continuation (suc m) cp taken [] = (true, cp, taken)
continuation (suc m) cp taken (b ∷ rest) =
    let more = continuation m (cp * 64 + b % 64) (taken + 1) rest in
    if continues b then more else (false, cp, taken)

-- The tests that turn a sequence into U+FFFD.
unfoldable pub is_damaged : ℕ → Bool → ℕ → ℕ → Bool
is_damaged n whole taken cp =
    n == 0
    || not whole
    || not (taken == n)
    || ltb 0x10ffff cp
    || leb 0xd800 cp && leb cp 0xdfff
    || n == 2 && ltb cp 0x80
    || n == 3 && ltb cp 0x800
    || n == 4 && ltb cp 0x10000

-- A round of the loop at the lead byte: the code point and the bytes taken.
unfoldable pub sequence : ℕ → Bytes → ℕ × ℕ
unfolding announced lead_payload continuation is_damaged
sequence b0 rest =
    let n = announced b0 in
    let (whole, cp, taken) = continuation (n - 1) (lead_payload n b0) 1 rest in
    (if is_damaged n whole taken cp then 0xfffd else cp, taken)

-- What is pushed for a code point.
unfoldable pub utf16_units : ℕ → List ℕ
utf16_units cp =
    if ltb cp 0x10000
    then cp ∷ []
    else (0xd800 + (cp - 0x10000) / 1024) ∷ (0xdc00 + (cp - 0x10000) % 1024) ∷ []

-- The loop, with the bytes by which `i` has still to move before the next round.
unfoldable pub utf16_from : ℕ → Bytes → List ℕ
unfolding sequence utf16_units
utf16_from skip [] = []
utf16_from (suc skip) (b ∷ rest) = utf16_from skip rest
utf16_from zero (b0 ∷ rest) =
    let (cp, taken) = sequence b0 rest in utf16_units cp ++ utf16_from (taken - 1) rest

unfoldable pub utf8_to_utf16 : Bytes → List ℕ
unfolding utf16_from
utf8_to_utf16 utf8 = utf16_from 0 utf8

abbrev pub is_high : ℕ → Bool
is_high u = leb 0xd800 u && leb u 0xdbff

abbrev pub is_low : ℕ → Bool
is_low u = leb 0xdc00 u && leb u 0xdfff

-- A unit that is no part of a pair.
abbrev pub single : ℕ → ℕ
single u = if leb 0xd800 u && leb u 0xdfff then 0xfffd else u

unfoldable pub utf8_bytes : ℕ → Bytes
utf8_bytes cp =
    if ltb cp 0x80
    then cp ∷ []
    else if ltb cp 0x800
    then (0xc0 + cp / 64) ∷ (0x80 + cp % 64) ∷ []
    else if ltb cp 0x10000
    then (0xe0 + cp / 4096) ∷ (0x80 + cp / 64 % 64) ∷ (0x80 + cp % 64) ∷ []
    else ((0xf0 + cp / 262144)
        ∷ (0x80 + cp / 4096 % 64)
        ∷ (0x80 + cp / 64 % 64)
        ∷ (0x80 + cp % 64)
        ∷ [])

unfoldable pub utf16_to_utf8 : List ℕ → Bytes
unfolding utf8_bytes
utf16_to_utf8 [] = []
utf16_to_utf8 (u ∷ []) = utf8_bytes (single u)
utf16_to_utf8 (u ∷ v ∷ us) =
    let behind_pair = utf16_to_utf8 us in
    let behind_one = utf16_to_utf8 (v ∷ us) in
    if is_high u && is_low v
    then utf8_bytes (0x10000 + (u - 0xd800) * 1024 + (v - 0xdc00)) ++ behind_pair
    else utf8_bytes (single u) ++ behind_one
