-- ===== src/Catalog/Keys.antt =====
-- exercises/retrolab/after/catalog.cpp: the catalog as a map from keys to values.
use going_unmanaged.Prelude.{
  ℕ, zero, suc, ◌≤◌, ◌<◌, ◌≡◌, refl, ap, ◌∙◌, sym, List, [], ◌∷◌, ◌++◌, Option, none, some, true,
  false, if◌then◌else◌, Bytes, bytes_eq, bytes_eq→eq, bytes_eq_refl, length, arith, Bool-cases,
  Option-cases, inl, inr, All,
}
use going_unmanaged.Catalog.{
  Entry, Catalog, strncpy, find_entry, find, replace, add, value_at, try_get, count,
}

strncpy_fits : (n : ℕ) (s : Bytes) → length s ≤ n → strncpy n s ≡ s
unfolding strncpy
strncpy_fits zero [] h = refl
strncpy_fits zero (b ∷ s) h = absurd (omega arith)
strncpy_fits (suc n) [] h = refl
strncpy_fits (suc n) (b ∷ s) h = ap (λ t. b ∷ t) (strncpy_fits n s (omega arith))

length-strncpy : (n : ℕ) (s : Bytes) → length (strncpy n s) ≤ n
unfolding strncpy
length-strncpy zero s = omega arith
length-strncpy (suc n) [] = omega arith
length-strncpy (suc n) (b ∷ s) = omega (arith, length-strncpy n s)

bytes_eq_other : (a b c : Bytes) → bytes_eq a b ≡ true → bytes_eq a c ≡ bytes_eq b c
bytes_eq_other a b c y = ap (λ x. bytes_eq x c) (bytes_eq→eq a b y)

bytes_eq_apart : (a b c : Bytes) → bytes_eq a b ≡ false → bytes_eq a c ≡ true → bytes_eq b c ≡ false
bytes_eq_apart a b c n y = elim (Bool-cases (bytes_eq b c)) [
  | inl z ↦
      let same : a ≡ b = bytes_eq→eq a c y ∙ sym (bytes_eq→eq b c z) in
      let yes : bytes_eq a b ≡ true = rw same (bytes_eq_refl b) in cc
  | inr z ↦ z
]

module _ {V : Type 0} where
  -- The value of the first entry with a key.
  abbrev pub lookup : Bytes → List (Entry V) → Option V
  lookup key [] = none
  lookup key (e ∷ es) = if bytes_eq e.key key then some (e.value) else lookup key es

  value_at-find_entry :
      (key : Bytes) (es : List (Entry V)) → value_at es (find_entry key es) ≡ lookup key es
  unfolding find_entry
  value_at-find_entry key [] = refl
  value_at-find_entry key (e ∷ es) = elim (Bool-cases (bytes_eq e.key key)) [
    | inl y ↦ rw y refl
    | inr n ↦ elim (Option-cases (find_entry key es)) [
      | inl w ↦
          let later : value_at es (find_entry key es) ≡ lookup key es =
            value_at-find_entry key es in
          rw (n, w) (rw w at later)
      | inr (i, w) ↦
          let later : value_at es (find_entry key es) ≡ lookup key es =
            value_at-find_entry key es in
          rw (n, w) (rw w at later)
    ]
  ]

  -- The entries behind Add.
  abbrev added : Bytes → V → List (Entry V) → List (Entry V)
  added key value es = elim (replace key value es) [
    | some es' ↦ es'
    | none ↦ es ++ record { key = strncpy 31 key; value = value } ∷ []
  ]

  -- Add on a list: at the first entry with the key, or else at the end.
  added_hit :
      (key : Bytes) (v : V) (e : Entry V) (es : List (Entry V))
      → bytes_eq e.key key ≡ true
      → added key v (e ∷ es) ≡ record e { value = v } ∷ es
  unfolding replace
  added_hit key v e es y = rw (added, y) refl

  added_miss :
      (key : Bytes) (v : V) (e : Entry V) (es : List (Entry V))
      → bytes_eq e.key key ≡ false
      → added key v (e ∷ es) ≡ e ∷ added key v es
  unfolding replace
  added_miss key v e es n = elim (Option-cases (replace key v es)) [
    | inl w ↦ rw (added, n, w) refl
    | inr (es', w) ↦ rw (added, n, w) refl
  ]

  lookup-added :
      (key other : Bytes) (v : V) (es : List (Entry V))
      → length key < 32
      → lookup other (added key v es) ≡ (if bytes_eq key other then some v else lookup other es)
  unfolding replace
  lookup-added key other v [] l = rw (strncpy_fits 31 key (omega arith)) refl
  lookup-added key other v (e ∷ es) l = elim (Bool-cases (bytes_eq e.key key)) [
    | inl y ↦
        rw (added_hit key v e es y, bytes_eq_other e.key key other y)
          (elim (Bool-cases (bytes_eq key other)) [ inl x ↦ rw x refl | inr x ↦ rw x refl ])
    | inr n ↦ elim (Bool-cases (bytes_eq e.key other)) [
      | inl z ↦ rw (added_miss key v e es n, z, bytes_eq_apart e.key key other n z) refl
      | inr z ↦ rw (added_miss key v e es n, z) (lookup-added key other v es l)
    ]
  ]

  try_get-lookup : (key : Bytes) (c : Catalog V) → try_get key c ≡ lookup key c.entries
  unfolding try_get find
  try_get-lookup key c = value_at-find_entry key c.entries

  add_entries :
      (key : Bytes) (v : V) (c : Catalog V) → (add key v c).entries ≡ added key v c.entries
  unfolding add
  add_entries key v c = elim (Option-cases (replace key v c.entries)) [
    | inl w ↦ rw (add, added, w) refl
    | inr (es, w) ↦ rw (add, added, w) refl
  ]

  -- After Add of a key that fits an Entry, TryGet gives the new value for this key and what it gave
  -- before for every other.
  pub try_get-add :
      (key other : Bytes) (v : V) (c : Catalog V)
      → length key < 32
      → try_get other (add key v c) ≡ (if bytes_eq key other then some v else try_get other c)
  try_get-add key other v c l =
      rw (try_get-lookup other (add key v c), try_get-lookup other c, add_entries key v c)
        (lookup-added key other v c.entries l)

  -- An entry stays where Find has found it.
  find_entry-added :
      (key other : Bytes) (v : V) (es : List (Entry V))
      → (i : ℕ) → find_entry other es ≡ some i
      → find_entry other (added key v es) ≡ some i
  unfolding find_entry
  find_entry-added key other v [] i h = cc
  find_entry-added key other v (e ∷ es) i h = elim (Bool-cases (bytes_eq e.key key)) [
    | inl y ↦ rw (added_hit key v e es y) h
    | inr m ↦ rw (added_miss key v e es m) (elim (Bool-cases (bytes_eq e.key other)) [
      | inl y ↦ rw y (rw y at h)
      | inr n ↦ elim (Option-cases (find_entry other es)) [
        | inl w ↦ absurd (cc (rw (n, w) at h))
        | inr (j, w) ↦ rw (n, find_entry-added key other v es j w) (rw (n, w) at h)
      ]
    ])
  ]

  -- Whatever is added, with a key of any length, Find gives for a key that it found the same place.
  pub find-add :
      (key other : Bytes) (v : V) (c : Catalog V) (i : ℕ)
      → find other c ≡ some i
      → find other (add key v c) ≡ some i
  unfolding find
  find-add key other v c i h = rw (add_entries key v c) (find_entry-added key other v c.entries i h)

  -- An Entry has room for 31 bytes of a key.
  abbrev pub HasRoom : Entry V → Type 0
  HasRoom e = length e.key < 32

  too_long : (e : Entry V) (key : Bytes) → HasRoom e → 32 ≤ length key → bytes_eq e.key key ≡ false
  too_long e key l h = elim (Bool-cases (bytes_eq e.key key)) [
    | inl y ↦
        let same : length e.key ≡ length key = ap length (bytes_eq→eq e.key key y) in
        absurd (omega arith)
    | inr n ↦ n
  ]

  added_long :
      (key : Bytes) (v : V) (es : List (Entry V))
      → All HasRoom es
      → 32 ≤ length key
      → (lookup key (added key v es) ≡ none)
        × (length (added key v es) ≡ suc (length es))
        × All HasRoom (added key v es)
  unfolding replace
  added_long key v [] r h =
      let e : Entry V = record { key = strncpy 31 key; value = v } in
      let room : HasRoom e = omega (arith, length-strncpy 31 key) in
      (rw (too_long e key room h) refl, refl, (room, tt))
  added_long key v (e ∷ es) (r, rs) h =
      let (none_yet, longer, rooms) = added_long key v es rs h in
      rw (added_miss key v e es (too_long e key r h))
        (rw (too_long e key r h) none_yet, ap suc longer, (r, rooms))

  -- In a catalog whose keys have at most 31 bytes, Add of a longer key makes one more entry, again with
  -- such a key, and TryGet does not find the key that was added.
  pub add_long_key :
      (key : Bytes) (v : V) (c : Catalog V)
      → All HasRoom c.entries
      → 32 ≤ length key
      → (try_get key (add key v c) ≡ none)
        × (count (add key v c) ≡ suc (count c))
        × All HasRoom (add key v c).entries
  unfolding count
  add_long_key key v c r h =
      rw (try_get-lookup key (add key v c), add_entries key v c) (added_long key v c.entries r h)
