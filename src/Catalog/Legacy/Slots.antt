-- ===== src/Catalog/Legacy/Slots.antt =====
-- exercises/retrolab/before/catalog.cpp: slots that hold a list of entries.
use going_unmanaged.Prelude.{
  ℕ, zero, suc, ◌+◌, ◌-◌, ◌<◌, ◌≡◌, refl, ap, ◌∙◌, sym, subst, List, [], ◌∷◌, ◌++◌, append_assoc,
  Option, none, some, Option-cases, Bool-cases, Bytes, bytes_eq, length, length-append, get_elem?,
  set, replicate, arith, inl, inr,
}
use going_unmanaged.Catalog.{Entry, find_entry, replace}
use going_unmanaged.Catalog.Legacy.{slot_at, seek}

plus_zero : (n : ℕ) → n ≡ n + 0
plus_zero n = omega arith

abbrev pub shift : ℕ → Option ℕ → Option ℕ
shift n none = none
shift n (some i) = some (n + i)

shift-suc :
    (n : ℕ) (r : Option ℕ)
    → shift (n + 1) r ≡ shift n (elim r as (λ z. Option ℕ) [ none ↦ none | some i ↦ some (suc i) ])
shift-suc n none = refl
shift-suc n (some i) = ap (λ z. some z) (omega arith)

module _ {V : Type 0} where
  abbrev pub written : List (Entry V) → List (Option (Entry V))
  written [] = []
  written (e ∷ es) = some e ∷ written es

  abbrev pub unwritten : ℕ → List (Option (Entry V))
  unwritten n = replicate n none

  pub length-written : (es : List (Entry V)) → length (written es) ≡ length es
  length-written [] = refl
  length-written (e ∷ es) = ap suc (length-written es)

  pub written-append :
      (es : List (Entry V)) (e : Entry V) → written (es ++ e ∷ []) ≡ written es ++ some e ∷ []
  written-append [] e = refl
  written-append (x ∷ es) e = ap (λ t. some x ∷ t) (written-append es e)

  pub slot_at-front :
      (front : List (Option (Entry V))) (e : Entry V) (rest : List (Option (Entry V)))
      → slot_at (front ++ some e ∷ rest) (length front) ≡ some e
  slot_at-front [] e rest = refl
  slot_at-front (x ∷ front) e rest = slot_at-front front e rest

  pub seek-written :
      (key : Bytes) (front : List (Option (Entry V))) (es : List (Entry V))
      (rest : List (Option (Entry V)))
      → seek key (front ++ (written es ++ rest)) (length front) (length es)
        ≡ some (shift (length front) (find_entry key es))
  unfolding seek find_entry
  seek-written key front [] rest = refl
  seek-written key front (e ∷ es) rest =
      let next : seek key (front ++ (some e ∷ (written es ++ rest))) (length front + 1) (length es)
          ≡ some (shift (length front + 1) (find_entry key es)) =
        subst
          (λ z.
            seek key z (length front + 1) (length es)
            ≡ some (shift (length front + 1) (find_entry key es)))
          (append_assoc front (some e ∷ []) (written es ++ rest))
          (subst
            (λ k.
              seek key ((front ++ some e ∷ []) ++ (written es ++ rest)) k (length es)
              ≡ some (shift k (find_entry key es)))
            (length-append front (some e ∷ []))
            (seek-written key (front ++ some e ∷ []) es rest)) in
      elim (Bool-cases (bytes_eq e.key key)) [
        | inl y ↦
            rw (seek, slot_at-front front e (written es ++ rest), y)
              (ap (λ z. some (some z)) (plus_zero (length front)))
        | inr n ↦
            rw (seek, slot_at-front front e (written es ++ rest), n)
              (next ∙ ap (λ z. some z) (shift-suc (length front) (find_entry key es)))
      ]

  -- Replacing in place.
  pub replace-find_entry :
      (key : Bytes) (v : V) (es : List (Entry V)) (i : ℕ)
      → find_entry key es ≡ some i
      → (e : Entry V) × (get_elem? es i ≡ some e)
        × (replace key v es ≡ some (set es i (record e { value = v })))
        × (i < length es)
  unfolding replace find_entry
  replace-find_entry key v [] i h = cc
  replace-find_entry key v (e ∷ es) i h = elim (Bool-cases (bytes_eq e.key key)) [
    | inl y ↦
        let here : some 0 ≡ some i = rw y at h in
        let at_0 : 0 ≡ i = cc in
        subst
          (λ z.
            (x : Entry V) × (get_elem? (e ∷ es) z ≡ some x)
            × (replace key v (e ∷ es) ≡ some (set (e ∷ es) z (record x { value = v })))
            × (z < length (e ∷ es)))
          at_0 (e, refl, rw (replace, y) refl, omega arith)
    | inr n ↦ elim (Option-cases (find_entry key es)) [
      | inl w ↦ cc (rw (n, w) at h)
      | inr (j, w) ↦
          let there : some (suc j) ≡ some i = rw (n, w) at h in
          let at_j : suc j ≡ i = cc in
          let (x, found, replaced, l) = replace-find_entry key v es j w in
          subst
            (λ z.
              (x : Entry V) × (get_elem? (e ∷ es) z ≡ some x)
              × (replace key v (e ∷ es) ≡ some (set (e ∷ es) z (record x { value = v })))
              × (z < length (e ∷ es)))
            at_j (x, found, rw (replace, n, replaced) refl, omega arith)
    ]
  ]

  pub replace-none :
      (key : Bytes) (v : V) (es : List (Entry V))
      → find_entry key es ≡ none
      → replace key v es ≡ none
  unfolding replace find_entry
  replace-none key v [] h = refl
  replace-none key v (e ∷ es) h = elim (Bool-cases (bytes_eq e.key key)) [
    | inl y ↦ cc (rw y at h)
    | inr n ↦ elim (Option-cases (find_entry key es)) [
      | inl w ↦ rw (replace, n, replace-none key v es w) refl
      | inr (j, w) ↦ cc (rw (n, w) at h)
    ]
  ]

  pub set-written :
      (es : List (Entry V)) (rest : List (Option (Entry V))) (i : ℕ) (x : Entry V)
      → i < length es
      → set (written es ++ rest) i (some x) ≡ written (set es i x) ++ rest
  set-written [] rest i x l = absurd (omega arith)
  set-written (e ∷ es) rest zero x l = refl
  set-written (e ∷ es) rest (suc i) x l =
      ap (λ t. some e ∷ t) (set-written es rest i x (omega arith))

  pub slot_at-written :
      (es : List (Entry V)) (rest : List (Option (Entry V))) (i : ℕ) (e : Entry V)
      → get_elem? es i ≡ some e
      → slot_at (written es ++ rest) i ≡ some e
  slot_at-written [] rest i e h = cc
  slot_at-written (x ∷ es) rest zero e h = h
  slot_at-written (x ∷ es) rest (suc i) e h = slot_at-written es rest i e h

  pub found-find_entry :
      (key : Bytes) (es : List (Entry V)) (i : ℕ)
      → find_entry key es ≡ some i
      → (e : Entry V) × (get_elem? es i ≡ some e)
  unfolding find_entry
  found-find_entry key [] i h = cc
  found-find_entry key (e ∷ es) i h = elim (Bool-cases (bytes_eq e.key key)) [
    | inl y ↦
        let here : some 0 ≡ some i = rw y at h in
        let at_0 : 0 ≡ i = cc in (e, ap (λ z. get_elem? (e ∷ es) z) (sym at_0))
    | inr n ↦ elim (Option-cases (find_entry key es)) [
      | inl w ↦ cc (rw (n, w) at h)
      | inr (j, w) ↦
          let there : some (suc j) ≡ some i = rw (n, w) at h in
          let at_j : suc j ≡ i = cc in
          let (x, found) = found-find_entry key es j w in
          (x, ap (λ z. get_elem? (e ∷ es) z) (sym at_j) ∙ found)
    ]
  ]

  -- The first slot that was not written.
  pub set-unwritten :
      (es : List (Entry V)) (room : ℕ) (e : Entry V)
      → 0 < room
      → set (written es ++ unwritten room) (length es) (some e)
        ≡ written (es ++ e ∷ []) ++ unwritten (room - 1)
  set-unwritten [] zero e l = absurd (omega arith)
  set-unwritten [] (suc room) e l = ap (λ n. some e ∷ unwritten n) (omega arith)
  set-unwritten (x ∷ es) room e l = ap (λ t. some x ∷ t) (set-unwritten es room e l)
