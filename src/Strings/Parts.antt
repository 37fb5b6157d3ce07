-- ===== src/Strings/Parts.antt =====
-- exercises/cookbook/strings.cpp, recipes 2, 3, 4, 23, 44 and 45. The functions of the standard library
-- that they call are written out over bytes; a null `const char*` is `none`.
pub mod RoundTrip
pub mod Trim
use going_unmanaged.Prelude.{
  ℕ, zero, suc, ◌+◌, ◌-◌, ◌*◌, List, [], ◌∷◌, ◌++◌, Option, none, some, Bool, true, false, not,
  ◌&&◌, ◌||◌, if◌then◌else◌, ltb, leb, ◌==◌, Bytes, codes, bytes_eq, length, drop, to_string,
}
use going_unmanaged.Plugin.Int32.{ℤ, pos, negsuc}

-- `result.empty()`
abbrev pub is_empty : Bytes → Bool
is_empty [] = true
is_empty (b ∷ bs) = false

-- Recipe 2. std::getline puts bytes into `field` up to a separator or the end of the text, and fails at
-- once where there are none left: then the loop is over.
unfoldable pub split_loop : ℕ → Bytes → Bytes → List Bytes
split_loop sep field [] = if is_empty field then [] else field ∷ []
split_loop sep field (b ∷ text) =
    let next_field = split_loop sep [] text in
    let same_field = split_loop sep (field ++ b ∷ []) text in
    if b == sep then field ∷ next_field else same_field

unfoldable pub split : Bytes → ℕ → List Bytes
unfolding split_loop
split text sep = split_loop sep [] text

-- Recipe 3.
unfoldable pub join_loop : Bytes → Bytes → List Bytes → Bytes
join_loop sep result [] = result
join_loop sep result (part ∷ parts) =
    join_loop sep ((if is_empty result then result else result ++ sep) ++ part) parts

unfoldable pub join : List Bytes → Bytes → Bytes
unfolding join_loop
join parts sep = join_loop sep [] parts

-- std::to_string of an int.
unfoldable pub spell : ℤ → Bytes
unfolding to_string
spell (pos n) = to_string n
spell (negsuc n) = b'-' ∷ to_string (n + 1)

-- Recipe 4.
unfoldable pub build_report : List ℤ → Bytes
unfolding spell
build_report [] = []
build_report (value ∷ values) = codes "value=" ++ (spell value ++ (10 ∷ build_report values))

-- Recipe 23.
unfoldable pub name_or_default : Option Bytes → Bytes
name_or_default none = codes "unnamed"
name_or_default (some s) = s

abbrev pub matches_digit : ℕ → Bool
matches_digit b = leb b'0' b && leb b b'9'

unfoldable pub all_digits : Bytes → Bool
all_digits [] = true
all_digits (b ∷ bs) = matches_digit b && all_digits bs

-- What the digits spell behind `n`.
unfoldable pub digits_value : ℕ → Bytes → ℕ
digits_value n [] = n
digits_value n (b ∷ bs) = digits_value (n * 10 + (b - b'0')) bs

unfoldable pub is_prefix : Bytes → Bytes → Bool
is_prefix [] s = true
is_prefix (p ∷ prefix) [] = false
is_prefix (p ∷ prefix) (b ∷ s) = (p == b) && is_prefix prefix s

-- Recipe 44: a match of ^sensor([0-9]+)$ whose digits an int holds.
unfoldable pub sensor_index : Bytes → Option ℕ
unfolding is_prefix all_digits digits_value
sensor_index id =
    let digits = drop 6 id in
    if is_prefix (codes "sensor") id && not (is_empty digits) && all_digits digits
    then (if leb (digits_value 0 digits) 0x7fffffff then some (digits_value 0 digits) else none)
    else none

-- std::regex_replace of each [0-9]+, with whether the byte before belongs to a match.
unfoldable pub redact_loop : Bool → Bytes → Bytes
redact_loop matching [] = []
redact_loop matching (b ∷ text) =
    let rest = redact_loop (matches_digit b) text in
    if matches_digit b then (if matching then rest else b'#' ∷ rest) else b ∷ rest

unfoldable pub redact_digits : Bytes → Bytes
unfolding redact_loop
redact_digits text = redact_loop false text

-- Recipe 45. A blank is one of " \t\r\n".
abbrev pub is_blank : ℕ → Bool
is_blank b = b == 32 || b == 9 || b == 13 || b == 10

-- find_first_not_of, and what stands from there on.
unfoldable pub from_first : Bytes → Bytes
from_first [] = []
from_first (b ∷ s) = if is_blank b then from_first s else b ∷ s

-- What stands up to find_last_not_of.
unfoldable pub up_to_last : Bytes → Bytes
up_to_last [] = []
up_to_last (b ∷ s) = let rest = up_to_last s in if is_empty rest && is_blank b then [] else b ∷ rest

unfoldable pub trim : Bytes → Bytes
unfolding from_first up_to_last
trim s = up_to_last (from_first s)

-- std::tolower in the "C" locale.
abbrev pub to_lower : ℕ → ℕ
to_lower b = if leb b'A' b && leb b b'Z' then b + 32 else b

unfoldable pub same_lower : Bytes → Bytes → Bool
same_lower [] b = true
same_lower (x ∷ a) [] = true
same_lower (x ∷ a) (y ∷ b) = (to_lower x == to_lower y) && same_lower a b

unfoldable pub equals_ignore_case : Bytes → Bytes → Bool
unfolding same_lower
equals_ignore_case a b = if length a == length b then same_lower a b else false

-- `s.substr(0, n)`
unfoldable pub substr : ℕ → Bytes → Bytes
substr zero s = []
substr (suc n) [] = []
substr (suc n) (b ∷ s) = b ∷ substr n s

unfoldable pub starts_with : Bytes → Bytes → Bool
unfolding substr bytes_eq
starts_with s prefix = bytes_eq (substr (length prefix) s) prefix

unfoldable pub ends_with : Bytes → Bytes → Bool
unfolding bytes_eq
ends_with s suffix =
    leb (length suffix) (length s) && bytes_eq (drop (length s - length suffix) s) suffix
