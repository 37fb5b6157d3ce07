-- ===== src/Tests/Spsc.antt =====
-- exercises/deadlinelab/spsc_queue.h: a queue of three slots, which holds two values.
use going_unmanaged.Prelude.{ℕ, ◌+◌, ◌≤◌, ◌<◌, ◌≡◌, ◌≢◌, refl, List, [], ◌∷◌, ◌++◌, arith, length}
use going_unmanaged.Spsc.{
  State, Producer, Consumer, Reach, initial, produce, consume, begin_push, begin_pop, produces,
  consumes, here, next,
}
use going_unmanaged.Spsc.Fifo.{popped-prefix-pushed, no_slot_race}

-- A push of 7 runs to its end, with the consumer's begin in between.
abbrev s0 : State ℕ
s0 = record {
  shared = record { head = 0; tail = 0; slots = 0 ∷ 0 ∷ 0 ∷ [] };
  producer = Producer.idle;
  consumer = Consumer.idle;
  pushed = [];
  popped = [];
}

abbrev s1 : State ℕ
s1 = record s0 { producer = Producer.loaded_tail 7 0 }

abbrev s2 : State ℕ
s2 = record s1 { producer = Producer.writing 7 0 }

abbrev s3 : State ℕ
s3 = record s2 {
  shared = record { head = 0; tail = 0; slots = 7 ∷ 0 ∷ 0 ∷ [] };
  producer = Producer.publishing 7 0;
}

abbrev s4 : State ℕ
s4 = record s3 {
  shared = record { head = 0; tail = 1; slots = 7 ∷ 0 ∷ 0 ∷ [] };
  producer = Producer.idle;
  pushed = 7 ∷ [];
}

-- The consumer reads while the producer is about to write the next value.
abbrev s5 : State ℕ
s5 = record s4 { consumer = Consumer.loaded_head 0 }

abbrev s6 : State ℕ
s6 = record s5 { consumer = Consumer.reading 0 }

abbrev s7 : State ℕ
s7 = record s6 { producer = Producer.loaded_tail 8 1 }

abbrev s8 : State ℕ
s8 = record s7 { producer = Producer.writing 8 1 }

from_start : Reach 3 (initial 3 0) s1
unfolding initial
from_start = next here (begin_push s0 7 refl)

to_s4 : Reach 3 (initial 3 0) s4
unfolding produce
to_s4 = next (next (next from_start (produces s1)) (produces s2)) (produces s3)

to_s5 : Reach 3 (initial 3 0) s5
to_s5 = next to_s4 (begin_pop s4 refl)

to_s7 : Reach 3 (initial 3 0) s7
unfolding consume
to_s7 = next (next to_s5 (consumes s5)) (begin_push s6 8 refl)

to_s8 : Reach 3 (initial 3 0) s8
unfolding produce
to_s8 = next to_s7 (produces s7)

popped-prefix-pushed_example : (left : List ℕ) × (7 ∷ [] ≡ [] ++ left) × (length left + 1 ≤ 3)
popped-prefix-pushed_example = popped-prefix-pushed 3 0 (omega arith) to_s8

no_slot_race_example : (1 < length s8.slots) × (0 < length s8.slots) × (◌≢◌ {A = ℕ} 1 0)
no_slot_race_example = no_slot_race 3 0 (omega arith) to_s8 8 1 0 refl refl
