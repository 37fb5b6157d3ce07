-- ===== src/Spsc/Invariant.antt =====
-- exercises/deadlinelab/spsc_queue.h: what holds between any two accesses of the two threads.
use going_unmanaged.Prelude.{
  ℕ, suc, ◌+◌, ◌≤◌, ◌<◌, ◌≡◌, refl, sym, ap, ◌∙◌, subst, inl, inr, List, [], ◌∷◌, ◌++◌,
  append_assoc, some, false, arith, ◌==◌, get_elem?, length, length-append, length-set,
  length-replicate, get_elem?-set_self, Bool-cases,
}
use going_unmanaged.Spsc.{
  State, Producer, Consumer, Step, Reach, begin_push, begin_pop, produces, consumes, here, next,
  next_index, produce, consume, initial,
}
use going_unmanaged.Spsc.Window.{
  advance, full_iff, empty_iff, advance-lt, advance-ne, advance-suc, Holds, Holds-snoc, Holds-set,
}

-- What the producer knows of `tail_`, the slots and the number of values in the queue. Behind its
-- test there is room for one more, whatever the consumer does meanwhile; behind its write the slot
-- holds the value.
abbrev pub ProducerKnows : {A : Type 0} → ℕ → ℕ → List A → ℕ → Producer A → Type 0
ProducerKnows n tail slots k Producer.idle = Unit
ProducerKnows n tail slots k (Producer.loaded_tail v t) = t ≡ tail
ProducerKnows n tail slots k (Producer.writing v t) = (t ≡ tail) × (k + 1 < n)
ProducerKnows n tail slots k (Producer.publishing v t) =
    (t ≡ tail) × (k + 1 < n) × (get_elem? slots t ≡ some v)

-- What the consumer knows of `head_` and the values in the queue: behind its test the queue is not
-- empty, behind its read `out` holds the oldest value.
abbrev pub ConsumerKnows : {A : Type 0} → ℕ → List A → Consumer A → Type 0
ConsumerKnows head xs Consumer.idle = Unit
ConsumerKnows head xs (Consumer.loaded_head h) = h ≡ head
ConsumerKnows head xs (Consumer.reading h) = (h ≡ head) × (0 < length xs)
ConsumerKnows {A} head xs (Consumer.freeing h v) = (h ≡ head) × ((r : List A) × (xs ≡ v ∷ r))

-- The values between the indices, `contents`, are those pushed and not yet popped, in order.
pub record Inv {A : Type 0} (n : ℕ) (s : State A) : Type 0 where
  pub contents : List A
  pub head_lt : s.head < n
  pub room : length contents < n
  pub tail_eq : s.tail ≡ advance n s.head (length contents)
  pub array : length s.slots ≡ n
  pub holds : Holds n s.slots s.head contents
  pub fifo : s.pushed ≡ s.popped ++ contents
  pub producer_knows : ProducerKnows n s.tail s.slots (length contents) s.producer
  pub consumer_knows : ConsumerKnows s.head contents s.consumer

not_full :
    (n h k t : ℕ) → h < n → k < n → t ≡ advance n h k → (next_index n t == h) ≡ false → k + 1 < n
not_full n h k t hn kn e ne = let off = full_iff n h k hn kn in ground (arith, off)

not_empty : (n h k l t : ℕ) → h < n → k < n → l ≡ h → t ≡ advance n h k → (l == t) ≡ false → 0 < k
not_empty n h k l t hn kn e et ne = let off = empty_iff n h k hn kn in ground (arith, off)

next_index-lt : (n i : ℕ) → i < n → next_index n i < n
next_index-lt n i h = ground arith

module _ {A : Type 0} (n : ℕ) where
  pub initial-Inv : (d : A) → 1 < n → Inv n (initial n d)
  unfolding initial advance
  initial-Inv d h = record {
    contents = [];
    head_lt = omega arith;
    room = omega arith;
    tail_eq = refl;
    array = length-replicate n d;
    holds = tt;
    fifo = refl;
    producer_knows = tt;
    consumer_knows = tt;
  }

  -- The oldest value of a queue that is not empty stands in the slot at `head_`.
  oldest :
      (slots : List A) (h : ℕ) (xs : List A)
      → 0 < length xs
      → Holds n slots h xs
      → (v : A) × (r : List A) × (get_elem? slots h ≡ some v) × (xs ≡ v ∷ r)
  oldest slots h [] l w = absurd (omega arith)
  oldest slots h (x ∷ xs) l w = (x, xs, w.0, refl)

  -- A pop leaves what the producer knows, a push what the consumer knows.
  ProducerKnows-le :
      (tail : ℕ) (slots : List A) (k m : ℕ) (p : Producer A)
      → m ≤ k
      → ProducerKnows n tail slots k p
      → ProducerKnows n tail slots m p
  ProducerKnows-le tail slots k m Producer.idle h w = tt
  ProducerKnows-le tail slots k m (Producer.loaded_tail v t) h w = w
  ProducerKnows-le tail slots k m (Producer.writing v t) h w = (w.0, omega arith)
  ProducerKnows-le tail slots k m (Producer.publishing v t) h w = (w.0, omega arith, w.2)

  ConsumerKnows-snoc :
      (head : ℕ) (xs : List A) (v : A) (c : Consumer A)
      → ConsumerKnows head xs c
      → ConsumerKnows head (xs ++ v ∷ []) c
  ConsumerKnows-snoc head xs v Consumer.idle w = tt
  ConsumerKnows-snoc head xs v (Consumer.loaded_head h) w = w
  ConsumerKnows-snoc head xs v (Consumer.reading h) w =
      (w.0, omega (arith, length-append xs (v ∷ [])))
  ConsumerKnows-snoc head xs v (Consumer.freeing h u) (e, (r, is_r)) =
      (e, (r ++ v ∷ [], ap (λ z. z ++ v ∷ []) is_r))

  -- A step that touches no shared memory.
  moves-Inv :
      (s : State A) (p : Producer A) (c : Consumer A) (i : Inv n s)
      → ProducerKnows n s.tail s.slots (length i.contents) p
      → ConsumerKnows s.head i.contents c
      → Inv n (record s { producer = p; consumer = c })
  moves-Inv s p c i kp kc = record {
    contents = i.contents;
    head_lt = i.head_lt;
    room = i.room;
    tail_eq = i.tail_eq;
    array = i.array;
    holds = i.holds;
    fifo = i.fifo;
    producer_knows = kp;
    consumer_knows = kc;
  }

  produce-Inv : (s : State A) (p : Producer A) → s.producer ≡ p → Inv n s → Inv n (produce n p s)
  unfolding produce
  produce-Inv s Producer.idle e i = i
  produce-Inv s (Producer.loaded_tail v t) e i =
      let k : t ≡ s.tail =
        subst (ProducerKnows n s.tail s.slots (length i.contents)) e i.producer_knows in
      elim (Bool-cases (next_index n t == s.head)) [
        | inl full ↦ rw full (moves-Inv s Producer.idle s.consumer i tt i.consumer_knows)
        | inr free ↦ rw free (
            moves-Inv s (Producer.writing v t) s.consumer i
              (k, not_full n s.head (length i.contents) t i.head_lt i.room (k ∙ i.tail_eq) free)
              i.consumer_knows)
      ]
  produce-Inv s (Producer.writing v t) e i =
      let xs = i.contents in
      let k : (t ≡ s.tail) × (length xs + 1 < n) =
        subst (ProducerKnows n s.tail s.slots (length xs)) e i.producer_knows in
      let at : t ≡ advance n s.head (length xs) = k.0 ∙ i.tail_eq in
      record {
        contents = xs;
        head_lt = i.head_lt;
        room = i.room;
        tail_eq = i.tail_eq;
        array = length-set s.slots t v ∙ i.array;
        holds =
            Holds-set n s.slots s.head xs t v
              (λ j l. λ same. advance-ne n s.head j (length xs) i.head_lt l i.room (sym same ∙ at))
              i.holds;
        fifo = i.fifo;
        producer_knows = (
          k.0,
          k.1,
          get_elem?-set_self s.slots t v
              (omega (arith, at, advance-lt n s.head (length xs) i.head_lt i.room, i.array)),
        );
        consumer_knows = i.consumer_knows;
      }
  produce-Inv s (Producer.publishing v t) e i =
      let xs = i.contents in
      let k : (t ≡ s.tail) × (length xs + 1 < n) × (get_elem? s.slots t ≡ some v) =
        subst (ProducerKnows n s.tail s.slots (length xs)) e i.producer_knows in
      let longer : length (xs ++ v ∷ []) ≡ suc (length xs) =
        omega (arith, length-append xs (v ∷ [])) in
      record {
        contents = xs ++ v ∷ [];
        head_lt = i.head_lt;
        room = omega (arith, longer, k.1);
        tail_eq =
            rw (longer, advance-suc n s.head (length xs)) (ap (next_index n) (k.0 ∙ i.tail_eq));
        array = i.array;
        holds =
            Holds-snoc n s.slots s.head xs v i.holds
              (subst (λ z. get_elem? s.slots z ≡ some v) (k.0 ∙ i.tail_eq) k.2);
        fifo = ap (λ z. z ++ v ∷ []) i.fifo ∙ append_assoc s.popped xs (v ∷ []);
        producer_knows = tt;
        consumer_knows = ConsumerKnows-snoc s.head xs v s.consumer i.consumer_knows;
      }

  consume-Inv : (s : State A) (c : Consumer A) → s.consumer ≡ c → Inv n s → Inv n (consume n c s)
  unfolding consume advance
  consume-Inv s Consumer.idle e i = i
  consume-Inv s (Consumer.loaded_head h) e i =
      let k : h ≡ s.head = subst (ConsumerKnows s.head i.contents) e i.consumer_knows in
      elim (Bool-cases (h == s.tail)) [
        | inl empty ↦ rw empty (moves-Inv s s.producer Consumer.idle i i.producer_knows tt)
        | inr some_left ↦ rw some_left (
            moves-Inv s s.producer (Consumer.reading h) i i.producer_knows (
              k,
              not_empty n s.head (length i.contents) h s.tail i.head_lt i.room k i.tail_eq
                  some_left,
            ))
      ]
  consume-Inv s (Consumer.reading h) e i =
      let k : (h ≡ s.head) × (0 < length i.contents) =
        subst (ConsumerKnows s.head i.contents) e i.consumer_knows in
      let (v, r, is_v, is_r) = oldest s.slots s.head i.contents k.1 i.holds in
      let read : get_elem? s.slots h ≡ some v = ap (get_elem? s.slots) k.0 ∙ is_v in
      rw (read, consume)
        (moves-Inv s s.producer (Consumer.freeing h v) i i.producer_knows (k.0, (r, is_r)))
  consume-Inv s (Consumer.freeing h v) e i =
      let k : (h ≡ s.head) × ((r : List A) × (i.contents ≡ v ∷ r)) =
        subst (ConsumerKnows s.head i.contents) e i.consumer_knows in
      let r = k.1.0 in
      let shorter : length i.contents ≡ suc (length r) = ap length k.1.1 in
      record {
        contents = r;
        head_lt = rw (k.0) (next_index-lt n s.head i.head_lt);
        room = omega (arith, shorter, i.room);
        tail_eq = rw (k.0) (i.tail_eq ∙ ap (advance n s.head) shorter);
        array = i.array;
        holds = rw (k.0) (
            let w : Holds n s.slots s.head (v ∷ r) = subst (Holds n s.slots s.head) k.1.1 i.holds in
            w.1);
        fifo = i.fifo ∙ (ap (◌++◌ s.popped) k.1.1 ∙ sym (append_assoc s.popped (v ∷ []) r));
        producer_knows =
            ProducerKnows-le s.tail s.slots (length i.contents) (length r) s.producer
              (omega (arith, shorter)) i.producer_knows;
        consumer_knows = tt;
      }

  pub Step-Inv : {s t : State A} → Step n s t → Inv n s → Inv n t
  Step-Inv (begin_push s v idle) i =
      moves-Inv s (Producer.loaded_tail v s.tail) s.consumer i refl i.consumer_knows
  Step-Inv (begin_pop s idle) i =
      moves-Inv s s.producer (Consumer.loaded_head s.head) i i.producer_knows refl
  Step-Inv (produces s) i = produce-Inv s s.producer refl i
  Step-Inv (consumes s) i = consume-Inv s s.consumer refl i

  pub Reach-Inv : {s t : State A} → Inv n s → Reach n s t → Inv n t
  Reach-Inv i here = i
  Reach-Inv i (next r st) = Step-Inv st (Reach-Inv i r)
