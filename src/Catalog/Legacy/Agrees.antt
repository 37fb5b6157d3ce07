-- ===== src/Catalog/Legacy/Agrees.antt =====
-- exercises/retrolab/before/catalog.cpp and after/catalog.cpp: the catalog behaves as after/catalog.cpp.
use going_unmanaged.Prelude.{
  ℕ, suc, ◌+◌, ◌-◌, ◌*◌, ◌≤◌, ◌<◌, ◌≡◌, ◌≢◌, refl, ap, ◌∙◌, sym, List, [], ◌∷◌, ◌++◌, Option, none,
  some, Option-cases, Bool-cases, true, false, if◌then◌else◌, ◌==◌, ==_iff, lt→ltb, Bytes, length,
  length-append, length-replicate, length-set, set, arith, inl, inr,
}
use going_unmanaged.Catalog.{
  Entry, Catalog, strncpy, find_entry, find, add, value_at, try_get, count, clear,
}
use going_unmanaged.Catalog.Legacy.{
  LegacyCatalog, new_catalog, slot_at, copy_slots, grow, seek, legacy_find, append_entry,
  legacy_add, legacy_try_get, legacy_count, legacy_clear,
}
use going_unmanaged.Catalog.Legacy.Slots.{
  shift, written, unwritten, length-written, seek-written, replace-find_entry, replace-none,
  set-written, slot_at-written, found-find_entry, set-unwritten,
}

apart : (a b : ℕ) → (a == b) ≡ false → a ≢ b
apart a b n e = let y : (a == b) ≡ true = (==_iff a b).1 e in cc

module _ {V : Type 0} where
  -- The array has the entries in its first slots, and `room` more.
  pub record Same (l : LegacyCatalog V) (c : Catalog V) : Type 0 where
    pub room : ℕ
    pub slots_are : l.slots ≡ written c.entries ++ unwritten room
    pub held_is : l.held ≡ length c.entries
    pub capacity_is : l.capacity ≡ length c.entries + room

  pub new_catalog-Same : Same new_catalog (record { entries = [] })
  unfolding new_catalog
  new_catalog-Same = record {
    room = 0;
    slots_are = refl;
    held_is = refl;
    capacity_is = omega arith;
  }

  pub clear-Same :
      (l : LegacyCatalog V) (c : Catalog V) → Same l c → Same (legacy_clear l) (clear c)
  unfolding legacy_clear clear
  clear-Same l c i = record {
    room = length l.slots;
    slots_are = refl;
    held_is = refl;
    capacity_is = omega (
      arith,
      i.capacity_is,
      ap length i.slots_are,
      length-append (written c.entries) (unwritten i.room),
      length-written c.entries,
      length-replicate {A = Option (Entry V)} i.room none,
    );
  }

  pub find-Same :
      (key : Bytes) (l : LegacyCatalog V) (c : Catalog V)
      → Same l c
      → legacy_find key l ≡ some (find key c)
  unfolding legacy_find find
  find-Same key l c i =
      ap (λ z. seek key z 0 l.held) i.slots_are
      ∙ ap (λ z. seek key (written c.entries ++ unwritten i.room) 0 z) i.held_is
      ∙ seek-written key [] c.entries (unwritten i.room)
      ∙ ap (λ z. some z) (unshifted (find_entry key c.entries))
    where
      unshifted : (r : Option ℕ) → shift 0 r ≡ r
      unshifted none = refl
      unshifted (some n) = ap (λ z. some z) (omega arith)

  pub try_get-Same :
      (key : Bytes) (l : LegacyCatalog V) (c : Catalog V)
      → Same l c
      → legacy_try_get key l ≡ some (try_get key c)
  unfolding legacy_try_get try_get find
  try_get-Same key l c i = elim (Option-cases (find_entry key c.entries)) [
    | inl w ↦ rw (legacy_try_get, find-Same key l c i, w) refl
    | inr (j, w) ↦
        let (e, found) = found-find_entry key c.entries j w in
        let at_slot : slot_at l.slots j ≡ some e =
          ap (λ z. slot_at z j) i.slots_are
          ∙ slot_at-written c.entries (unwritten i.room) j e found in
        let sought : legacy_find key l ≡ some (some j) = find-Same key l c i ∙ ap (λ z. some z) w in
        let before : legacy_try_get key l ≡ some (some (e.value)) =
          rw (legacy_try_get, sought) (rw at_slot refl) in
        let after : try_get key c ≡ some (e.value) =
          ap (λ z. value_at c.entries z) w
          ∙ ap (λ r. elim r as (λ z. Option V) [ none ↦ none | some x ↦ some (x.value) ]) found in
        before ∙ ap (λ z. some z) (sym after)
  ]

  pub count-Same : (l : LegacyCatalog V) (c : Catalog V) → Same l c → legacy_count l ≡ count c
  unfolding legacy_count count
  count-Same l c i = i.held_is

  -- A slot to write, once Grow was called where it is.
  abbrev ready : LegacyCatalog V → LegacyCatalog V
  ready l = if l.held == l.capacity then grow l else l

  copy_slots-written :
      (es : List (Entry V)) (rest : List (Option (Entry V))) (room : ℕ)
      → length es ≤ room
      → copy_slots (length es) (written es ++ rest) room
        ≡ written es ++ unwritten (room - length es)
  unfolding copy_slots
  copy_slots-written [] rest room l = ap (λ n. unwritten n) (omega arith)
  copy_slots-written (e ∷ es) rest room l =
      ap (λ t. some e ∷ t)
        (copy_slots-written es rest (room - 1) (omega arith)
          ∙ ap (λ n. written es ++ unwritten n) (one_less room (length es)))
    where
      one_less : (a b : ℕ) → a - 1 - b ≡ a - suc b
      one_less a b = omega arith

  ready-Same :
      (l : LegacyCatalog V) (c : Catalog V) → Same l c → (i : Same (ready l) c) × (0 < i.room)
  unfolding grow
  ready-Same l c i = elim (Bool-cases (l.held == l.capacity)) [
    | inl y ↦
        let at_end : l.held ≡ l.capacity = (==_iff l.held l.capacity).0 y in
        let cap = if l.capacity == 0 then 4 else l.capacity * 2 in
        let more : length c.entries < cap = ground (arith, at_end, i.held_is) in
        rw y (
          record {
            room = cap - length c.entries;
            slots_are =
                ap (λ z. copy_slots z l.slots cap) i.held_is
                ∙ ap (λ z. copy_slots (length c.entries) z cap) i.slots_are
                ∙ copy_slots-written c.entries (unwritten i.room) cap (omega arith);
            held_is = i.held_is;
            capacity_is = omega arith;
          },
          omega arith,
        )
    | inr n ↦ rw n (i, omega (arith, i.capacity_is, i.held_is, apart l.held l.capacity n))
  ]

  append-Same :
      (key : Bytes) (v : V) (l : LegacyCatalog V) (c : Catalog V) (i : Same l c)
      → 0 < i.room
      → find_entry key c.entries ≡ none
      → (l' : LegacyCatalog V) × (append_entry (record { key = strncpy 31 key; value = v }) l
          ≡ some l')
        × Same l' (add key v c)
  unfolding append_entry add
  append-Same key v l c i r w =
      let e : Entry V = record { key = strncpy 31 key; value = v } in
      let inside : l.held < length l.slots = omega (
        arith,
        i.held_is,
        ap length i.slots_are,
        length-append (written c.entries) (unwritten i.room),
        length-written c.entries,
        length-replicate {A = Option (Entry V)} i.room none,
      ) in
      (
        record l { slots = set l.slots l.held (some e); held = l.held + 1 },
        rw (append_entry, lt→ltb l.held (length l.slots) inside) refl,
        rw (add, replace-none key v c.entries w)
            (record {
              room = i.room - 1;
              slots_are =
                  ap (λ z. set z l.held (some e)) i.slots_are
                  ∙ ap (λ z. set (written c.entries ++ unwritten i.room) z (some e)) i.held_is
                  ∙ set-unwritten c.entries i.room e r;
              held_is = omega (arith, i.held_is, length-append c.entries (e ∷ []));
              capacity_is = omega (arith, i.capacity_is, length-append c.entries (e ∷ []));
            }),
      )

  pub add-Same :
      (key : Bytes) (v : V) (l : LegacyCatalog V) (c : Catalog V)
      → Same l c
      → (l' : LegacyCatalog V) × (legacy_add key v l ≡ some l') × Same l' (add key v c)
  unfolding legacy_add legacy_find find grow add
  add-Same key v l c i =
      let sought : seek key l.slots 0 l.held ≡ some (find_entry key c.entries) =
        find-Same key l c i in
      elim (Option-cases (find_entry key c.entries)) [
        | inl w ↦
            let (j, r) = ready-Same l c i in
            let (l', e, k) = append-Same key v (ready l) c j r w in
            (l', rw (legacy_add, sought, w) e, k)
        | inr (n, w) ↦
            let (e, found, replaced, inside) = replace-find_entry key v c.entries n w in
            let at_slot : slot_at l.slots n ≡ some e =
              ap (λ z. slot_at z n) i.slots_are
              ∙ slot_at-written c.entries (unwritten i.room) n e found in
            let x : Entry V = record e { value = v } in
            (
              record l { slots = set l.slots n (some x) },
              rw (legacy_add, sought, w, at_slot) refl,
              rw (add, replaced)
                  (record {
                    room = i.room;
                    slots_are =
                        ap (λ z. set z n (some x)) i.slots_are
                        ∙ set-written c.entries (unwritten i.room) n x inside;
                    held_is = i.held_is ∙ sym (length-set c.entries n x);
                    capacity_is = omega (arith, i.capacity_is, length-set c.entries n x);
                  }),
            )
      ]
