-- ===== src/Spsc.antt =====
-- exercises/deadlinelab/spsc_queue.h: the bounded queue between one producer and one consumer. An
-- operation is its sequence of accesses to the shared memory: a load or store of an index, a read or
-- write of a slot. The steps of the two threads interleave in any order; that each of them sees the
-- other's earlier accesses is what the acquire and release orders of the source provide, and is the
-- model's assumption (sequential consistency).
pub mod Window
pub mod Invariant
pub mod Fifo
use going_unmanaged.Prelude.{
  ℕ, suc, ◌+◌, ◌≤◌, ◌<◌, ◌≡◌, List, [], ◌∷◌, ◌++◌, Option, none, some, Bool, true, false,
  if◌then◌else◌, ◌==◌, get_elem?, set, replicate,
}

-- `tail + 1 == N ? 0 : tail + 1`
abbrev pub next_index : ℕ → ℕ → ℕ
next_index n i = if i + 1 == n then 0 else i + 1

-- The memory that the threads share.
pub record Shared (A : Type 0) : Type 0 where
  pub head : ℕ
  pub tail : ℕ
  pub slots : List A

-- Where the producer is in TryPush: outside, behind the load of `tail_`, behind the test of
-- `head_`, or behind the write of the slot.
pub data Producer (A : Type 0) : Type 0 where
  idle : Producer A
  loaded_tail : A → ℕ → Producer A
  writing : A → ℕ → Producer A
  publishing : A → ℕ → Producer A

-- Where the consumer is in TryPop: outside, behind the load of `head_`, behind the test of `tail_`,
-- or behind the read of the slot into `out`.
pub data Consumer (A : Type 0) : Type 0 where
  idle : Consumer A
  loaded_head : ℕ → Consumer A
  reading : ℕ → Consumer A
  freeing : ℕ → A → Consumer A

-- With the values for which TryPush returned true and those that TryPop gave out, oldest first, and
-- the last answer of each.
pub record State (A : Type 0) : Type 0 where
  pub shared : Shared A
  pub open shared use *
  pub producer : Producer A
  pub consumer : Consumer A
  pub pushed : List A
  pub popped : List A

-- Both indices are 0, and the slots hold the default value.
unfoldable pub initial : {A : Type 0} → ℕ → A → State A
initial n default = record {
  shared = record { head = 0; tail = 0; slots = replicate n default };
  producer = idle;
  consumer = idle;
  pushed = [];
  popped = [];
}

-- One access by the producer.
unfoldable pub produce : {A : Type 0} → ℕ → Producer A → State A → State A
produce n idle s = s
produce n (loaded_tail v t) s =
    if next_index n t == s.head
    then record s { producer = idle }
    else record s { producer = writing v t }
produce n (writing v t) s = record s {
  shared = record (s.shared) { slots = set s.slots t v };
  producer = publishing v t;
}
produce n (publishing v t) s = record s {
  shared = record (s.shared) { tail = next_index n t };
  producer = idle;
  pushed = s.pushed ++ v ∷ [];
}

-- One access by the consumer. A read outside the array, which is undefined, leaves the state as it is.
unfoldable pub consume : {A : Type 0} → ℕ → Consumer A → State A → State A
consume n idle s = s
consume n (loaded_head h) s =
    if h == s.tail then record s { consumer = idle } else record s { consumer = reading h }
consume n (reading h) s = elim (get_elem? s.slots h) [
  | none ↦ s
  | some v ↦ record s { consumer = freeing h v }
]
consume n (freeing h v) s = record s {
  shared = record (s.shared) { head = next_index n h };
  consumer = idle;
  popped = s.popped ++ v ∷ [];
}

-- A step of one of the threads. A call begins with the load of the thread's own index.
pub data Step {A : Type 0} (n : ℕ) : State A → State A → Type 0 where
  begin_push :
      (s : State A) (v : A)
      → s.producer ≡ idle
      → Step n s (record s { producer = loaded_tail v s.tail })
  begin_pop :
      (s : State A) → s.consumer ≡ idle → Step n s (record s { consumer = loaded_head s.head })
  produces : (s : State A) → Step n s (produce n s.producer s)
  consumes : (s : State A) → Step n s (consume n s.consumer s)

pub data Reach {A : Type 0} (n : ℕ) (s : State A) : State A → Type 0 where
  here : Reach n s s
  next : {t u : State A} → Reach n s t → Step n t u → Reach n s u
