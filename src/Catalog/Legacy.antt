-- ===== src/Catalog/Legacy.antt =====
-- exercises/retrolab/before/catalog.cpp: the catalog before the retrofit, an array of pointers to entries
-- with its capacity. A slot that was not written is `none`, and an access out of the array, or to a slot
-- that was not written, is `none` too. The address of an entry is its slot.
pub mod Slots
pub mod Agrees
pub mod Run
use going_unmanaged.Prelude.{
  ℕ, zero, suc, ◌+◌, ◌-◌, ◌*◌, List, [], ◌∷◌, ◌++◌, Option, none, some, Bool, true, false,
  if◌then◌else◌, ◌==◌, ltb, Bytes, bytes_eq, length, get_elem?, set, replicate,
}
use going_unmanaged.Catalog.{Entry, strncpy}

pub record LegacyCatalog (V : Type 0) : Type 0 where
  pub slots : List (Option (Entry V))
  pub held : ℕ
  pub capacity : ℕ

module _ {V : Type 0} where
  -- The constructor.
  unfoldable pub new_catalog : LegacyCatalog V
  new_catalog = record { slots = []; held = 0; capacity = 0 }

  -- `entries_[i]`
  abbrev pub slot_at : List (Option (Entry V)) → ℕ → Option (Entry V)
  slot_at slots i = elim (get_elem? slots i) [ none ↦ none | some e ↦ e ]

  -- The loop of Grow: the first `n` slots, and `room` that is not written behind them.
  unfoldable pub copy_slots : ℕ → List (Option (Entry V)) → ℕ → List (Option (Entry V))
  copy_slots zero slots room = replicate room none
  copy_slots (suc n) [] room = replicate room none
  copy_slots (suc n) (e ∷ slots) room = e ∷ copy_slots n slots (room - 1)

  unfoldable pub grow : LegacyCatalog V → LegacyCatalog V
  unfolding copy_slots
  grow c =
      let new_cap = if c.capacity == 0 then 4 else c.capacity * 2 in
      record c { slots = copy_slots c.held c.slots new_cap; capacity = new_cap }

  -- The loop of Find and Add from slot `i` on, `n` slots: the slot of the first entry with the key, if
  -- there is one.
  unfoldable pub seek : Bytes → List (Option (Entry V)) → ℕ → ℕ → Option (Option ℕ)
  seek key slots i zero = some none
  seek key slots i (suc n) =
      let later = seek key slots (i + 1) n in
      elim (slot_at slots i) as (λ r. Option (Option ℕ)) [
        | none ↦ none
        | some e ↦ if bytes_eq e.key key then some (some i) else later
      ]

  unfoldable pub legacy_find : Bytes → LegacyCatalog V → Option (Option ℕ)
  unfolding seek
  legacy_find key c = seek key c.slots 0 c.held

  -- `entries_[count_++] = e`
  unfoldable pub append_entry : Entry V → LegacyCatalog V → Option (LegacyCatalog V)
  append_entry e c =
      if ltb c.held (length c.slots)
      then some (record c { slots = set c.slots c.held (some e); held = c.held + 1 })
      else none

  unfoldable pub legacy_add : Bytes → V → LegacyCatalog V → Option (LegacyCatalog V)
  unfolding seek grow append_entry strncpy
  legacy_add key value c = elim (seek key c.slots 0 c.held) [
    | none ↦ none
    | some (some i) ↦ elim (slot_at c.slots i) as (λ r. Option (LegacyCatalog V)) [
      | none ↦ none
      | some e ↦ some (record c { slots = set c.slots i (some (record e { value = value })) })
    ]
    | some none ↦
        append_entry (record { key = strncpy 31 key; value = value })
          (if c.held == c.capacity then grow c else c)
  ]

  -- TryGet, with what is written to `*out` if it returns true.
  unfoldable pub legacy_try_get : Bytes → LegacyCatalog V → Option (Option V)
  unfolding legacy_find
  legacy_try_get key c = elim (legacy_find key c) [
    | none ↦ none
    | some none ↦ some none
    | some (some i) ↦ elim (slot_at c.slots i) as (λ r. Option (Option V)) [
      | none ↦ none
      | some e ↦ some (some (e.value))
    ]
  ]

  unfoldable pub legacy_count : LegacyCatalog V → ℕ
  legacy_count c = c.held

  -- The entries are deleted, so that their slots are not to be read again.
  unfoldable pub legacy_clear : LegacyCatalog V → LegacyCatalog V
  legacy_clear c = record c { slots = replicate (length c.slots) none; held = 0 }
