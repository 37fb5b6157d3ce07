-- ===== src/Config/Alternatives.antt =====
-- exercises/cookbook/alternatives.cpp, recipes 19 and 20.
use going_unmanaged.Prelude.{
  ℕ, ◌≡◌, subst, ◌++◌, Option, none, some, Bool, Bool-cases, true, false, not, ◌||◌, if◌then◌else◌,
  ltb, Bytes, codes, length, inl, inr,
}
use going_unmanaged.Plugin.Int32.{ℤ, pos, negsuc}
use going_unmanaged.Strings.Parts.{is_empty, spell}
use going_unmanaged.Config.Chars.{from_chars}

-- `value < 0` and `value > 65535`.
abbrev pub below_zero : ℤ → Bool
below_zero (pos n) = false
below_zero (negsuc n) = true

abbrev pub above_ports : ℤ → Bool
above_ports (pos n) = ltb 65535 n
above_ports (negsuc n) = false

unfoldable pub parse_port : Bytes → Option ℤ
unfolding from_chars
parse_port text = elim (from_chars text) [
  | none ↦ none
  | some (value, rest) ↦
      if not (is_empty rest) || (below_zero value || above_ports value) then none else some value
]

unfoldable pub port_or_default : Option ℤ → ℤ
port_or_default none = pos 8080
port_or_default (some port) = port

unfoldable pub digits_in : Option Bytes → Option ℕ
digits_in none = none
digits_in (some text) = some (length text)

pub data Event : Type 0 where
  temperature fault : ℤ → Event
  heartbeat : Event

unfoldable pub describe_event : Event → Bytes
unfolding spell
describe_event (temperature centi) = codes "temperature " ++ (spell centi ++ codes " centi-degrees")
describe_event (fault code) = codes "fault " ++ spell code
describe_event heartbeat = codes "heartbeat"

-- A number from 0 to 65535.
abbrev pub IsPort : ℤ → Type 0
IsPort v = (below_zero v ≡ false) × (above_ports v ≡ false)

-- parse_port gives nothing but ports, whatever the text.
pub parse_port-IsPort : (text : Bytes) (v : ℤ) → parse_port text ≡ some v → IsPort v
unfolding parse_port
parse_port-IsPort text v e = go (from_chars text) e
  where
    go :
        (r : Option (ℤ × Bytes))
        → (elim r as (λ z. Option ℤ) [
          | none ↦ none
          | some (value, rest) ↦
              if not (is_empty rest) || (below_zero value || above_ports value)
              then none
              else some value
        ])
          ≡ some v
        → IsPort v
    go none h = cc
    go (some (value, rest)) h = elim (Bool-cases (is_empty rest)) [
      | inr more ↦ cc (rw more at h)
      | inl last ↦ elim (Bool-cases (below_zero value)) [
        | inl low ↦ cc (rw (last, low) at h)
        | inr n ↦ elim (Bool-cases (above_ports value)) [
          | inl high ↦ cc (rw (last, n, high) at h)
          | inr m ↦
              let same : some value ≡ some v = rw (last, n, m) at h in
              let eq : value ≡ v = cc in subst IsPort eq (n, m)
        ]
      ]
    ]
