-- ===== src/Spsc/Fifo.antt =====
-- exercises/deadlinelab/spsc_queue.h: what the two threads can rely on in every interleaving.
use going_unmanaged.Prelude.{
  ℕ, ◌+◌, ◌≤◌, ◌<◌, ◌≡◌, ◌≢◌, ◌↔◌, ◌∙◌, refl, sym, ap, subst, List, ◌++◌, arith, length,
  length-append, ◌==◌, Bool-cases, inl, inr, ==_iff,
}
use going_unmanaged.Spsc.{State, Producer, Consumer, Reach, initial, produce, consume, next_index}
use going_unmanaged.Spsc.Window.{advance, advance-ne, advance-lt, full_iff, empty_iff}
use going_unmanaged.Spsc.Invariant.{Inv, ProducerKnows, ConsumerKnows, initial-Inv, Reach-Inv}

module _ {A : Type 0} (n : ℕ) (d : A) (h : 1 < n) {s : State A} (r : Reach n (initial n d) s) where
  inv : Inv n s
  inv = Reach-Inv n (initial-Inv n d h) r

  -- In every interleaving TryPop has given out a front part of what TryPush accepted, in order and
  -- each value once, and what is left is at most the capacity, one less than the slots.
  pub popped-prefix-pushed : (left : List A) × (s.pushed ≡ s.popped ++ left) × (length left + 1 ≤ n)
  popped-prefix-pushed = (inv.contents, inv.fifo, omega (arith, inv.room))

  count : length s.pushed ≡ length s.popped + length inv.contents
  count = ap length inv.fifo ∙ length-append s.popped inv.contents

  -- The test of TryPush refuses the value exactly when, at that moment, the queue holds its
  -- capacity: one value less than it has slots.
  pub push_refused_iff :
      (v : A) (t : ℕ)
      → s.producer ≡ Producer.loaded_tail v t
      → ((produce n s.producer s).producer ≡ Producer.idle)
        ↔ (length s.pushed + 1 ≡ length s.popped + n)
  unfolding produce
  push_refused_iff v t e =
      let k = length inv.contents in
      let known : t ≡ s.tail = subst (ProducerKnows n s.tail s.slots k) e inv.producer_knows in
      let full = full_iff n s.head k inv.head_lt inv.room in
      let behind : next_index n t ≡ next_index n (advance n s.head k) =
        ap (next_index n) (known ∙ inv.tail_eq) in
      subst
        (λ p.
          ((produce n p s).producer ≡ Producer.idle) ↔ (length s.pushed + 1 ≡ length s.popped + n))
        (sym e)
        (elim (Bool-cases (next_index n t == s.head)) [
          | inl hit ↦
              rw hit
                ((λ _. omega (arith, count, full.0 (sym behind ∙ (==_iff _ _).0 hit))), (λ _. refl))
          | inr miss ↦
              rw miss (
                (λ busy. cc),
                (λ all. cc ((==_iff _ _).1 (behind ∙ full.1 (omega (arith, count))))),
              )
        ])

  -- The test of TryPop finds nothing exactly when, at that moment, all that was pushed is popped.
  pub pop_refused_iff :
      (i : ℕ)
      → s.consumer ≡ Consumer.loaded_head i
      → ((consume n s.consumer s).consumer ≡ Consumer.idle) ↔ (length s.pushed ≡ length s.popped)
  unfolding consume
  pop_refused_iff i e =
      let k = length inv.contents in
      let known : i ≡ s.head = subst (ConsumerKnows s.head inv.contents) e inv.consumer_knows in
      let empty = empty_iff n s.head k inv.head_lt inv.room in
      subst (λ c. ((consume n c s).consumer ≡ Consumer.idle) ↔ (length s.pushed ≡ length s.popped))
        (sym e)
        (elim (Bool-cases (i == s.tail)) [
          | inl hit ↦ rw hit (
            (λ _. omega (arith, count, empty.0 (sym known ∙ ((==_iff _ _).0 hit ∙ inv.tail_eq)))),
            (λ _. refl),
          )
          | inr miss ↦ rw miss (
            (λ busy. cc),
            (λ all.
                cc ((==_iff _ _).1 (known ∙ (empty.1 (omega (arith, count)) ∙ sym inv.tail_eq)))),
          )
        ])

  -- The slot that the producer writes and the slot that the consumer reads lie in the array and are
  -- never the same one: the two threads do not race for a slot.
  pub no_slot_race :
      (v : A) (t i : ℕ)
      → s.producer ≡ Producer.writing v t
      → s.consumer ≡ Consumer.reading i
      → (t < length s.slots) × (i < length s.slots) × (t ≢ i)
  unfolding advance
  no_slot_race v t i ep ec =
      let xs = inv.contents in
      let p : (t ≡ s.tail) × (length xs + 1 < n) =
        subst (ProducerKnows n s.tail s.slots (length xs)) ep inv.producer_knows in
      let c : (i ≡ s.head) × (0 < length xs) =
        subst (ConsumerKnows s.head xs) ec inv.consumer_knows in
      let at : t ≡ advance n s.head (length xs) = p.0 ∙ inv.tail_eq in
      (
        omega (arith, at, advance-lt n s.head (length xs) inv.head_lt inv.room, inv.array),
        omega (arith, c.0, inv.head_lt, inv.array),
        λ same.
            advance-ne n s.head 0 (length xs) inv.head_lt c.1 inv.room
              (sym (c.0) ∙ (sym same ∙ at)),
      )
