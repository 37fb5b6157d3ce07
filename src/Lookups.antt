-- ===== src/Lookups.antt =====
-- exercises/cookbook/lookups.cpp, recipes 8 and 18, and exercises/reportlab/registry.cpp. A std::map is the
-- list of its keys and values, and a reading is of any type.
pub mod Places
use going_unmanaged.Prelude.{
  ℕ, zero, suc, ◌+◌, List, [], ◌∷◌, ◌++◌, Option, none, some, Bool, true, false, ◌||◌,
  if◌then◌else◌, ◌==◌, Bytes, codes, bytes_eq,
}
use going_unmanaged.Plugin.Int32.{ℤ, pos, negsuc}
use going_unmanaged.Strings.Parts.{is_prefix}

-- `settings.find`
unfoldable pub find_setting : Bytes → List (Bytes × ℤ) → Option ℤ
find_setting key [] = none
find_setting key ((name, value) ∷ settings) =
    let rest = find_setting key settings in if bytes_eq name key then some value else rest

-- What is `applied` behind the call.
unfoldable pub apply_timeout_setting : List (Bytes × ℤ) → ℤ → ℤ
unfolding find_setting
apply_timeout_setting settings applied = elim (find_setting (codes "timeout") settings) [
  | none ↦ applied
  | some value ↦ value
]

-- index_of, over a test for the wanted value.
unfoldable pub index_of_value : {A : Type 0} → (A → Bool) → List A → Option ℕ
index_of_value is_wanted [] = none
index_of_value is_wanted (x ∷ xs) =
    let rest = index_of_value is_wanted xs in
    if is_wanted x then some 0 else elim rest [ none ↦ none | some i ↦ some (i + 1) ]

unfoldable pub contains_word : Bytes → Bytes → Bool
unfolding is_prefix
contains_word [] word = is_prefix word []
contains_word (b ∷ text) word =
    let later = contains_word text word in is_prefix word (b ∷ text) || later

pub record Sensor (D : Type 0) : Type 0 where
  pub id : ℤ
  pub last : D

-- `s.id == id`
abbrev pub same_id : ℤ → ℤ → Bool
same_id (pos a) (pos b) = a == b
same_id (negsuc a) (negsuc b) = a == b
same_id a b = false

module _ {D : Type 0} where
  -- Registry::add; `value` is 0.0.
  unfoldable pub add_sensor : D → ℤ → List (Sensor D) → List (Sensor D)
  add_sensor value id sensors = sensors ++ record { id = id; last = value } ∷ []

  -- Registry::find, with the sensor itself for the pointer.
  unfoldable pub find_sensor : ℤ → List (Sensor D) → Option (Sensor D)
  find_sensor id [] = none
  find_sensor id (s ∷ sensors) =
      let rest = find_sensor id sensors in if same_id s.id id then some s else rest

  -- Registry::record
  unfoldable pub record_reading : ℤ → D → List (Sensor D) → List (Sensor D)
  record_reading id value [] = []
  record_reading id value (s ∷ sensors) =
      let rest = record_reading id value sensors in
      if same_id s.id id then record s { last = value } ∷ sensors else s ∷ rest
