-- ===== src/Config.antt =====
-- exercises/cookbook/errors.cpp, recipes 21 and 22, and expected.cpp. What a function throws is a value; of
-- the parsers here nothing but a ParseError is thrown, so that the second handler of channels_or_default
-- is never run.
pub mod Chars
pub mod Accepts
pub mod Flags
pub mod Alternatives
use going_unmanaged.Prelude.{
  ℕ, ◌+◌, ◌++◌, ◌∷◌, [], Option, none, some, Bool, true, false, not, ◌||◌, if◌then◌else◌, ltb,
  Bytes, codes,
}
use going_unmanaged.Plugin.Int32.{ℤ, pos, times, is_positive}
use going_unmanaged.Strings.Parts.{is_empty, spell}
use going_unmanaged.Config.Chars.{from_chars}

-- `line_` and what() of the base class.
pub record ParseError : Type 0 where
  pub line : ℤ
  pub what : Bytes

unfoldable pub parse_error : ℤ → Bytes → ParseError
unfolding spell
parse_error line what = record {
  line = line;
  what = codes "line " ++ (spell line ++ (codes ": " ++ what));
}

-- The end of a call.
pub data Attempt (A : Type 0) : Type 0 where
  returns : A → Attempt A
  throws : ParseError → Attempt A

unfoldable pub not_a_number : Bytes → ℤ → ParseError
unfolding parse_error
not_a_number text line =
    parse_error line (codes "channel count is not a number: '" ++ (text ++ codes "'"))

unfoldable pub parse_channel_count : Bytes → ℤ → Attempt ℤ
unfolding from_chars not_a_number
parse_channel_count text line = elim (from_chars text) [
  | none ↦ throws (not_a_number text line)
  | some (value, rest) ↦
      if not (is_empty rest) || not (is_positive value)
      then throws (not_a_number text line)
      else returns value
]

-- `logged_line` and `logged_what`.
pub record Log : Type 0 where
  pub logged_line : ℤ
  pub logged_what : Bytes

unfoldable pub log_line : ℤ → Bytes → Log → Log
log_line line what log = record { logged_line = line; logged_what = what }

unfoldable pub channels_or_default : Bytes → ℤ → Log → ℤ × Log
unfolding parse_channel_count log_line
channels_or_default text line log = elim (parse_channel_count text line) [
  | returns channels ↦ (channels, log)
  | throws e ↦ (pos 2, log_line e.line e.what log)
]

-- Result: the alternative at index 0, or the one at index 1.
pub data Result (T : Type 0) (E : Type 0) : Type 0 where
  success : T → Result T E
  failure : E → Result T E

module _ {T : Type 0} {E : Type 0} where
  unfoldable pub has_value : Result T E → Bool
  has_value (success t) = true
  has_value (failure e) = false

  -- `value` and `error`; bad_variant_access is `none`.
  unfoldable pub value : Result T E → Option T
  value (success t) = some t
  value (failure e) = none

  unfoldable pub error : Result T E → Option E
  error (success t) = none
  error (failure e) = some e

pub record ConfigError : Type 0 where
  pub line : ℤ
  pub what : Bytes

pub record Settings : Type 0 where
  pub channels : ℤ

unfoldable pub load_config : Bytes → Result Settings ConfigError
unfolding parse_channel_count
load_config text = elim (parse_channel_count text (pos 1)) [
  | returns channels ↦ success (record { channels = channels })
  | throws e ↦ failure (record { line = e.line; what = e.what })
]

-- load_config of expected.cpp.
unfoldable pub load_expected : Bytes → Result Settings ConfigError
unfolding from_chars
load_expected text =
    let refused = failure (record { line = pos 1; what = codes "channel count is not a number" }) in
    elim (from_chars text) [
      | none ↦ refused
      | some (channels, rest) ↦
          if not (is_empty rest) || not (is_positive channels)
          then refused
          else success (record { channels = channels })
    ]

unfoldable pub and_then : {A B E : Type 0} → Result A E → (A → Result B E) → Result B E
and_then (success a) f = f a
and_then (failure e) f = failure e

unfoldable pub transform : {A B E : Type 0} → Result A E → (A → B) → Result B E
transform (success a) f = success (f a)
transform (failure e) f = failure e

-- `n > 64`
abbrev pub too_many : ℤ → Bool
too_many (pos n) = ltb 64 n
too_many n = false

unfoldable pub channels_doubled : Bytes → Result ℤ ConfigError
unfolding load_expected and_then transform times
channels_doubled text =
    transform
      (and_then (load_expected text) (λ c.
        if too_many c.channels
        then failure (record { line = pos 1; what = codes "too many channels" })
        else success c.channels))
      (λ n. times n (pos 2))
