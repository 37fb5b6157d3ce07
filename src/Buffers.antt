-- ===== src/Buffers.antt =====
-- solutions/Buffer.h: class Buffer, over a heap of blocks. An object is a number, and so is the address of
-- a block; those not yet made or already gone are `none`. An operation that is undefined or fails its
-- assertion gives `none`: on an object that is gone, a second delete, a read past the end of a block.
pub mod Values
pub mod Exchange
pub mod Sound
pub mod Assigns
pub mod Run
use going_unmanaged.Prelude.{
  ℕ, zero, suc, ◌+◌, List, [], ◌∷◌, Option, none, some, Bool, true, false, if◌then◌else◌, ltb, leb,
  ◌==◌, length, get_elem?, set, replicate,
}

pub record Buffer : Type 0 where
  pub size : ℕ
  pub block : Option ℕ

-- An int is of a type `A`.
pub record State (A : Type 0) : Type 0 where
  pub objects : ℕ → Option Buffer
  pub made : ℕ
  pub blocks : ℕ → Option (List A)
  pub allocated : ℕ

unfoldable pub nothing_made : {A : Type 0} → State A
nothing_made = record { objects = λ p. none; made = 0; blocks = λ b. none; allocated = 0 }

-- What a moved-from object has.
abbrev pub empty_buffer : Buffer
empty_buffer = record { size = 0; block = none }

module _ {A : Type 0} where
  abbrev pub write_object : ℕ → Option Buffer → State A → State A
  write_object p x s = record s { objects = λ q. if p == q then x else s.objects q }

  abbrev pub write_block : ℕ → Option (List A) → State A → State A
  write_block b xs s = record s { blocks = λ c. if b == c then xs else s.blocks c }

  -- A new object, and a new block with these ints.
  abbrev pub make : Buffer → State A → State A
  make x s = record (write_object s.made (some x) s) { made = s.made + 1 }

  abbrev pub allocate : List A → State A → State A
  allocate xs s = record (write_block s.allocated (some xs) s) { allocated = s.allocated + 1 }

  -- `delete[] data_`
  unfoldable pub free : Option ℕ → State A → Option (State A)
  free none s = some s
  free (some b) s = elim (s.blocks b) [ none ↦ none | some xs ↦ some (write_block b none s) ]

  -- The ints from `first` to `first + n`, which `std::copy` reads.
  unfoldable pub front : ℕ → List A → Option (List A)
  front zero xs = some []
  front (suc n) [] = none
  front (suc n) (x ∷ xs) = elim (front n xs) [ none ↦ none | some ys ↦ some (x ∷ ys) ]

  unfoldable pub read : Option ℕ → ℕ → State A → Option (List A)
  unfolding front
  read none n s = front n []
  read (some b) n s = elim (s.blocks b) [ none ↦ none | some xs ↦ front n xs ]

  -- Buffer(size_t), where `z` is 0.
  unfoldable pub construct : A → ℕ → State A → Option (State A)
  construct z n s =
      some (make (record { size = n; block = some s.allocated }) (allocate (replicate n z) s))

  unfoldable pub destroy : ℕ → State A → Option (State A)
  unfolding free
  destroy this s = elim (s.objects this) [
    | none ↦ none
    | some x ↦ elim (free x.block s) [ none ↦ none | some s' ↦ some (write_object this none s') ]
  ]

  unfoldable pub copy_construct : ℕ → State A → Option (State A)
  unfolding read
  copy_construct other s = elim (s.objects other) [
    | none ↦ none
    | some x ↦ elim (read x.block x.size s) [
      | none ↦ none
      | some xs ↦ some (make (record { size = x.size; block = some s.allocated }) (allocate xs s))
    ]
  ]

  unfoldable pub swap : ℕ → ℕ → State A → Option (State A)
  swap this other s = elim (s.objects this) [
    | none ↦ none
    | some x ↦ elim (s.objects other) [
      | none ↦ none
      | some y ↦ some (write_object this (some y) (write_object other (some x) s))
    ]
  ]

  -- The copy is an object of its own, which is destroyed at the end.
  unfoldable pub copy_assign : ℕ → ℕ → State A → Option (State A)
  unfolding copy_construct swap destroy
  copy_assign this other s = elim (copy_construct other s) [
    | none ↦ none
    | some s' ↦ elim (swap this s.made s') [ none ↦ none | some t ↦ destroy s.made t ]
  ]

  unfoldable pub move_construct : ℕ → State A → Option (State A)
  move_construct other s = elim (s.objects other) [
    | none ↦ none
    | some x ↦ some (make x (write_object other (some empty_buffer) s))
  ]

  unfoldable pub move_assign : ℕ → ℕ → State A → Option (State A)
  unfolding free
  move_assign this other s = elim (s.objects this) [
    | none ↦ none
    | some mine ↦ elim (s.objects other) [
      | none ↦ none
      | some x ↦ if this == other then some s else elim (free mine.block s) [
        | none ↦ none
        | some s' ↦ some (write_object this (some x) (write_object other (some empty_buffer) s'))
      ]
    ]
  ]

  -- At, as it is read and as it is written.
  unfoldable pub at : ℕ → ℕ → State A → Option A
  at this i s = elim (s.objects this) [
    | none ↦ none
    | some x ↦ elim x.block [
      | none ↦ none
      | some b ↦ elim (s.blocks b) [
        | none ↦ none
        | some xs ↦ if ltb i x.size then get_elem? xs i else none
      ]
    ]
  ]

  unfoldable pub set_at : ℕ → ℕ → A → State A → Option (State A)
  set_at this i v s = elim (s.objects this) [
    | none ↦ none
    | some x ↦ elim x.block [
      | none ↦ none
      | some b ↦ elim (s.blocks b) [
        | none ↦ none
        | some xs ↦ if ltb i x.size then some (write_block b (some (set xs i v)) s) else none
      ]
    ]
  ]
