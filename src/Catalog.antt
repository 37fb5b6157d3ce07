-- ===== src/Catalog.antt =====
-- exercises/retrolab/after/catalog.cpp and catalog.h: the entries behind their unique_ptrs, in the
-- order of the vector. Where an Entry is kept is its place in that order: no operation removes one
-- entry or moves it. A key is a C string, so the list of its bytes without the zero at its end, and the
-- values are of any type, since nothing looks at them.
pub mod Keys
pub mod Parse
pub mod Legacy
use going_unmanaged.Prelude.{
  ℕ, zero, suc, List, [], ◌∷◌, ◌++◌, Option, none, some, if◌then◌else◌, Bytes, bytes_eq, length,
  get_elem?,
}

pub record Entry (V : Type 0) : Type 0 where
  pub key : Bytes
  pub value : V

pub record Catalog (V : Type 0) : Type 0 where
  pub entries : List (Entry V)

-- What std::strncpy with a zero behind it leaves of a string.
unfoldable pub strncpy : ℕ → Bytes → Bytes
strncpy zero s = []
strncpy (suc n) [] = []
strncpy (suc n) (b ∷ s) = b ∷ strncpy n s

module _ {V : Type 0} where
  unfoldable pub find_entry : Bytes → List (Entry V) → Option ℕ
  find_entry key [] = none
  find_entry key (e ∷ es) =
      let later = find_entry key es in
      if bytes_eq e.key key then some 0 else elim later [ none ↦ none | some i ↦ some (suc i) ]

  -- Catalog::Find, with the place of the entry for its address.
  unfoldable pub find : Bytes → Catalog V → Option ℕ
  unfolding find_entry
  find key c = find_entry key c.entries

  -- The loop of Catalog::Add: the first entry with the key has its value replaced.
  unfoldable pub replace : Bytes → V → List (Entry V) → Option (List (Entry V))
  replace key value [] = none
  replace key value (e ∷ es) =
      let later = replace key value es in
      if bytes_eq e.key key
      then some (record e { value = value } ∷ es)
      else elim later [ none ↦ none | some es' ↦ some (e ∷ es') ]

  unfoldable pub add : Bytes → V → Catalog V → Catalog V
  unfolding replace strncpy
  add key value c = elim (replace key value c.entries) [
    | some es ↦ record { entries = es }
    | none ↦ record { entries = c.entries ++ record { key = strncpy 31 key; value = value } ∷ [] }
  ]

  abbrev pub value_at : List (Entry V) → Option ℕ → Option V
  value_at es none = none
  value_at es (some i) = elim (get_elem? es i) [ none ↦ none | some e ↦ some (e.value) ]

  -- Catalog::TryGet, with what is written to `*out` if it returns true.
  unfoldable pub try_get : Bytes → Catalog V → Option V
  unfolding find
  try_get key c = value_at c.entries (find key c)

  unfoldable pub count : Catalog V → ℕ
  count c = length c.entries

  unfoldable pub clear : Catalog V → Catalog V
  clear c = record { entries = [] }

  unfoldable pub copy_entries : List (Entry V) → List (Entry V)
  copy_entries [] = []
  copy_entries (e ∷ es) = record { key = e.key; value = e.value } ∷ copy_entries es

  -- The copy constructor.
  unfoldable pub copy_catalog : Catalog V → Catalog V
  unfolding copy_entries
  copy_catalog other = record { entries = copy_entries other.entries }

  -- The move constructor: the new catalog, and what is left in the source.
  unfoldable pub move_catalog : Catalog V → Catalog V × Catalog V
  move_catalog other = (other, record { entries = [] })
