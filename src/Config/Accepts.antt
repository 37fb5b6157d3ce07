-- ===== src/Config/Accepts.antt =====
-- exercises/cookbook/errors.cpp and expected.cpp: the texts that are channel counts.
use going_unmanaged.Prelude.{
  ℕ, zero, suc, ◌*◌, ◌≡◌, refl, ap, ◌∙◌, [], ◌∷◌, Option, none, some, Bool, Bool-cases, true, false,
  not, ◌&&◌, ◌||◌, if◌then◌else◌, ◌==◌, ==_iff, ltb, Bytes, codes, inl, inr, arith,
}
use going_unmanaged.Plugin.Int32.{ℤ, pos, neg, times, fits, is_positive}
use going_unmanaged.Strings.Parts.{is_empty, matches_digit, all_digits, digits_value}
use going_unmanaged.Config.{
  returns, throws, not_a_number, parse_channel_count, Log, log_line, channels_or_default, success,
  failure, load_config, load_expected, channels_doubled, and_then, transform,
}
use going_unmanaged.Config.Chars.{
  leading_digits, behind_digits, scan, from_chars, leading_digits-all, behind_digits-all,
  behind_digits-other,
}

-- Digits only, at least one, and a number from 1 to 2147483647.
abbrev pub is_count : Bytes → Bool
is_count text =
    not (is_empty text)
    && all_digits text
    && (ltb 0 (digits_value 0 text) && ltb (digits_value 0 text) 0x80000000)

-- What the parsers make of what from_chars gives.
abbrev accepted : Option (ℤ × Bytes) → Option ℤ
accepted none = none
accepted (some (value, rest)) =
    if not (is_empty rest) || not (is_positive value) then none else some value

neg_not_positive : (n : ℕ) → is_positive (neg n) ≡ false
unfolding is_positive
neg_not_positive zero = refl
neg_not_positive (suc n) = refl

minus_refused : (s : Bytes) → accepted (scan neg s) ≡ none
unfolding scan
minus_refused s =
    let n = digits_value 0 (leading_digits s) in
    elim (Bool-cases (not (is_empty (leading_digits s)) && fits (neg n))) [
      | inl y ↦ rw y (elim (Bool-cases (is_empty (behind_digits s))) [
        | inl last ↦ rw (last, neg_not_positive n) refl
        | inr more ↦ rw more refl
      ])
      | inr unread ↦ rw unread refl
    ]

number_accepted :
    (v : ℕ)
    → accepted (if ltb v 0x80000000 then some (pos v, []) else none)
      ≡ (if ltb 0 v && ltb v 0x80000000 then some (pos v) else none)
unfolding is_positive
number_accepted v = elim (Bool-cases (ltb v 0x80000000)) [
  | inl y ↦ rw y (elim (Bool-cases (ltb 0 v)) [ inl z ↦ rw z refl | inr z ↦ rw z refl ])
  | inr n ↦ rw n (elim (Bool-cases (ltb 0 v)) [ inl z ↦ rw z refl | inr z ↦ rw z refl ])
]

-- Where something stands behind the digits.
rest_refused :
    (read : Bool) (value : ℤ) (rest : Bytes)
    → is_empty rest ≡ false
    → accepted (if read then some (value, rest) else none) ≡ none
rest_refused true value rest e = rw e refl
rest_refused false value rest e = refl

pos_accepted :
    (b : ℕ) (s : Bytes)
    → accepted (scan pos (b ∷ s))
      ≡ (if is_count (b ∷ s) then some (pos (digits_value 0 (b ∷ s))) else none)
unfolding scan fits
pos_accepted b s = elim (Bool-cases (all_digits (b ∷ s))) [
  | inl y ↦
      rw (leading_digits-all (b ∷ s) y, behind_digits-all (b ∷ s) y, y)
        (number_accepted (digits_value 0 (b ∷ s)))
  | inr n ↦ rw n (rest_refused _ _ (behind_digits (b ∷ s)) (behind_digits-other (b ∷ s) n))
]

minus_no_digit : (b : ℕ) → (b == b'-') ≡ true → matches_digit b ≡ false
minus_no_digit b e = ground (arith, (==_iff b b'-').0 e)

from_chars_lem :
    (text : Bytes)
    → accepted (from_chars text)
      ≡ (if is_count text then some (pos (digits_value 0 text)) else none)
unfolding from_chars all_digits
from_chars_lem [] = refl
from_chars_lem (b ∷ s) = elim (Bool-cases (b == b'-')) [
  | inl y ↦ rw (y, minus_no_digit b y) (minus_refused s)
  | inr n ↦ rw n (pos_accepted b s)
]

-- What a parser that gives `bad` or `good` makes of the text.
module _ {B : Type 0} (bad : B) (good : ℤ → B) where
  outcome : Option (ℤ × Bytes) → B
  unfolding is_empty
  outcome none = bad
  outcome (some (value, rest)) =
      if not (is_empty rest) || not (is_positive value) then bad else good value

  outcome-accepted :
      (r : Option (ℤ × Bytes))
      → outcome r ≡ elim (accepted r) as (λ a. B) [ none ↦ bad | some v ↦ good v ]
  unfolding outcome
  outcome-accepted none = refl
  outcome-accepted (some (value, rest)) =
      elim (Bool-cases (not (is_empty rest) || not (is_positive value))) [
        | inl y ↦ rw y refl
        | inr n ↦ rw n refl
      ]

  chosen :
      (b : Bool) (v : ℤ)
      → (elim (if b then some v else none) as (λ a. B) [ none ↦ bad | some w ↦ good w ])
        ≡ (if b then good v else bad)
  chosen true v = refl
  chosen false v = refl

  pub outcome_lem :
      (text : Bytes)
      → (elim (from_chars text) as (λ r. B) [
        | none ↦ bad
        | some (value, rest) ↦
            if not (is_empty rest) || not (is_positive value) then bad else good value
      ])
        ≡ (if is_count text then good (pos (digits_value 0 text)) else bad)
  unfolding outcome
  outcome_lem text =
      outcome-accepted (from_chars text)
      ∙ ap (λ a. elim a as (λ z. B) [ none ↦ bad | some v ↦ good v ]) (from_chars_lem text)
      ∙ chosen (is_count text) (pos (digits_value 0 text))

-- parse_channel_count returns the number of a text that is a count, and throws a ParseError that names the
-- line and the text for every other one.
pub parse_channel_count_lem :
    (text : Bytes) (line : ℤ)
    → parse_channel_count text line ≡ (
        if is_count text
        then returns (pos (digits_value 0 text))
        else throws (not_a_number text line))
unfolding parse_channel_count
parse_channel_count_lem text line =
    outcome_lem (throws (not_a_number text line)) (λ v. returns v) text

-- load_config of errors.cpp and load_config of expected.cpp accept the same texts, with the same number of
-- channels, and refuse the others with their errors.
pub load_configs_agree :
    (text : Bytes)
    → (load_config text ≡ (
        if is_count text
        then success (record { channels = pos (digits_value 0 text) })
        else failure (record {
          line = (not_a_number text (pos 1)).line;
          what = (not_a_number text (pos 1)).what;
        })))
      × (load_expected text ≡ (
          if is_count text
          then success (record { channels = pos (digits_value 0 text) })
          else failure (record { line = pos 1; what = codes "channel count is not a number" })))
unfolding load_config load_expected
load_configs_agree text = (
  rw (load_config, parse_channel_count_lem text (pos 1))
      (elim (Bool-cases (is_count text)) [ inl y ↦ rw y refl | inr n ↦ rw n refl ]),
  outcome_lem (failure (record { line = pos 1; what = codes "channel count is not a number" }))
      (λ v. success (record { channels = v })) text,
)

-- channels_or_default gives the number of a text that is a count and logs nothing; for every other one it
-- gives 2 and logs the line with the message.
pub channels_or_default_lem :
    (text : Bytes) (line : ℤ) (log : Log)
    → channels_or_default text line log ≡ (
        if is_count text
        then (pos (digits_value 0 text), log)
        else (pos 2, record { logged_line = line; logged_what = (not_a_number text line).what }))
unfolding channels_or_default log_line not_a_number
channels_or_default_lem text line log =
    rw (channels_or_default, parse_channel_count_lem text line)
      (elim (Bool-cases (is_count text)) [ inl y ↦ rw y refl | inr n ↦ rw n refl ])

-- channels_doubled gives twice the number of a text that is a count up to 64, and says of every other text
-- either that it is no count or that the count is too large.
pub channels_doubled_lem :
    (text : Bytes)
    → channels_doubled text ≡ (
        if is_count text
        then (if ltb 64 (digits_value 0 text)
            then failure (record { line = pos 1; what = codes "too many channels" })
            else success (pos (digits_value 0 text * 2)))
        else failure (record { line = pos 1; what = codes "channel count is not a number" }))
unfolding channels_doubled and_then transform times
channels_doubled_lem text =
    rw (channels_doubled, (load_configs_agree text).1)
      (elim (Bool-cases (is_count text)) [
        | inl y ↦ rw y (elim (Bool-cases (ltb 64 (digits_value 0 text))) [
          | inl more ↦ rw more refl
          | inr few ↦ rw few refl
        ])
        | inr n ↦ rw n refl
      ])
