-- ===== src/Buffers/Values.antt =====
-- solutions/Buffer.h: what a Buffer stands for is its ints. An object has no part in another's.
use going_unmanaged.Prelude.{
  ℕ, ◌≤◌, ◌<◌, ◌≡◌, ◌≢◌, refl, ap, ◌∙◌, sym, List, [], Option, none, some, Bool-cases, true, false,
  if◌then◌else◌, ◌==◌, ==_iff, ==_refl, ne→==, inl, inr, arith, length,
}
use going_unmanaged.Buffers.{Buffer, State, nothing_made, write_object, write_block, allocate}

-- The values of the objects, and how many were made.
pub record Values (A : Type 0) : Type 0 where
  pub of : ℕ → Option (List A)
  pub made : ℕ

abbrev pub put : {A : Type 0} → ℕ → Option (List A) → Values A → Values A
put p xs v = record v { of = λ q. if p == q then xs else v.of q }

abbrev pub block_of : Option Buffer → Option ℕ
block_of none = none
block_of (some x) = x.block

-- An object's block holds its value, which a moved-from object has without a block.
abbrev pub InBlock : {A : Type 0} → (ℕ → Option (List A)) → Option ℕ → List A → Type 0
InBlock blocks none xs = xs ≡ []
InBlock blocks (some b) xs = blocks b ≡ some xs

abbrev pub Shows : {A : Type 0} → (ℕ → Option (List A)) → Option Buffer → Option (List A) → Type 0
Shows blocks none none = Unit
Shows blocks none (some xs) = ⊥
Shows blocks (some x) none = ⊥
Shows blocks (some x) (some xs) = (x.size ≡ length xs) × InBlock blocks x.block xs

-- Each block that is allocated has one object that it belongs to.
abbrev pub Owners : Type 0
Owners = ℕ → Option ℕ

abbrev pub give : ℕ → Option ℕ → Owners → Owners
give b o own = λ c. if b == c then o else own c

pub record Rep {A : Type 0} (own : Owners) (s : State A) (v : Values A) : Type 0 where
  pub shows : (p : ℕ) → Shows s.blocks (s.objects p) (v.of p)
  pub forth : (p b : ℕ) → block_of (s.objects p) ≡ some b → own b ≡ some p
  pub back : (p b : ℕ) → own b ≡ some p → block_of (s.objects p) ≡ some b
  pub no_leak : (b : ℕ) → own b ≡ none → s.blocks b ≡ none
  pub unused : (b : ℕ) → s.allocated ≤ b → own b ≡ none
  pub unmade : (p : ℕ) → s.made ≤ p → s.objects p ≡ none
  pub count : s.made ≡ v.made

pub nothing-Rep :
    {A : Type 0} → Rep {A = A} (λ b. none) nothing_made (record { of = λ p. none; made = 0 })
unfolding nothing_made
nothing-Rep = record {
  shows = λ p. tt;
  forth = λ p b e. cc;
  back = λ p b e. cc;
  no_leak = λ b e. refl;
  unused = λ b l. refl;
  unmade = λ p l. refl;
  count = refl;
}

module _ {A : Type 0} where
  -- A block that belongs to no object shown here may be written.
  InBlock-frame :
      (blocks : ℕ → Option (List A)) (b : ℕ) (w : Option (List A)) (o : Option ℕ) (xs : List A)
      → o ≢ some b
      → InBlock blocks o xs
      → InBlock (λ c. if b == c then w else blocks c) o xs
  InBlock-frame blocks b w none xs n h = h
  InBlock-frame blocks b w (some c) xs n h = rw (ne→== b c (λ e. n (ap some (sym e)))) h

  pub Shows-frame :
      (blocks : ℕ → Option (List A)) (b : ℕ) (w : Option (List A)) (x : Option Buffer)
      (xs : Option (List A))
      → block_of x ≢ some b
      → Shows blocks x xs
      → Shows (λ c. if b == c then w else blocks c) x xs
  Shows-frame blocks b w none none n h = tt
  Shows-frame blocks b w none (some xs) n h = h
  Shows-frame blocks b w (some x) none n h = h
  Shows-frame blocks b w (some x) (some xs) n h = (h.0, InBlock-frame blocks b w x.block xs n h.1)

  -- The owner of a block is not an object without one.
  apart :
      (own : Owners) (p q b : ℕ) (s : State A) (v : Values A)
      → Rep own s v
      → block_of (s.objects p) ≢ some b
      → own b ≡ some q
      → (p == q) ≡ false
  apart own p q b s v i n e = ne→== p q (λ eq. n (i.back p b (e ∙ ap some (sym eq))))

  -- Two objects have no block in common.
  pub one_owner :
      (own : Owners) (p q b : ℕ) (s : State A) (v : Values A)
      → Rep own s v
      → block_of (s.objects p) ≡ some b
      → block_of (s.objects q) ≡ some b
      → p ≡ q
  one_owner own p q b s v i e f =
      let mine = i.forth p b e in
      let theirs = i.forth q b f in let eq : some p ≡ some q = sym mine ∙ theirs in cc

  -- An object without a block is written over with another, also a new one.
  pub idle-Rep :
      (own : Owners) (p n : ℕ) (y : Option Buffer) (ys : Option (List A)) (s : State A)
      (v : Values A)
      → Rep own s v
      → block_of (s.objects p) ≡ none
      → block_of y ≡ none
      → Shows s.blocks y ys
      → p < n
      → s.made ≤ n
      → Rep own (record (write_object p y s) { made = n }) (record (put p ys v) { made = n })
  idle-Rep own p n y ys s v i idle idle' shown l g = record {
    shows = λ q. elim (Bool-cases (p == q)) [ inl e ↦ rw e shown | inr e ↦ rw e (i.shows q) ];
    forth = λ q b e. elim (Bool-cases (p == q)) [
      | inl z ↦ let mine : block_of y ≡ some b = rw z at e in cc
      | inr z ↦ i.forth q b (rw z at e)
    ];
    back = λ q b e. rw (apart own p q b s v i (λ z. cc) e) (i.back q b e);
    no_leak = i.no_leak;
    unused = i.unused;
    unmade = λ q m. rw (ne→== p q (λ e. absurd (omega arith))) (i.unmade q (omega arith));
    count = refl;
  }

  -- It gets a new block.
  pub fill-Rep :
      (own : Owners) (p : ℕ) (xs : List A) (s : State A) (v : Values A)
      → Rep own s v
      → block_of (s.objects p) ≡ none
      → p < s.made
      → Rep
          (give s.allocated (some p) own)
          (write_object p
            (some (record { size = length xs; block = some s.allocated }))
            (allocate xs s))
          (put p (some xs) v)
  fill-Rep own p xs s v i idle l =
      let new = λ (q : ℕ) (e : block_of (s.objects q) ≡ some s.allocated).
        let used = i.forth q s.allocated e in
        let free_one = i.unused s.allocated (omega arith) in
        let no_such : none ≡ some q = sym free_one ∙ used in no_such in
      record {
        shows = λ q. elim (Bool-cases (p == q)) [
          | inl e ↦ rw e (refl, rw (==_refl s.allocated) refl)
          | inr e ↦ rw e (
              Shows-frame s.blocks s.allocated (some xs) (s.objects q) (v.of q)
                (λ z. let bad = new q z in cc) (i.shows q))
        ];
        forth = λ q b e. elim (Bool-cases (p == q)) [
          | inl z ↦
              let mine : some s.allocated ≡ some b = rw z at e in
              let eq : s.allocated ≡ b = cc in
              rw ((==_iff s.allocated b).1 eq) (ap some ((==_iff p q).0 z))
          | inr z ↦
              let old : block_of (s.objects q) ≡ some b = rw z at e in
              rw (ne→== s.allocated b (λ eq. let bad = new q (old ∙ ap some (sym eq)) in cc))
                (i.forth q b old)
        ];
        back = λ q b e. elim (Bool-cases (s.allocated == b)) [
          | inl z ↦
              let mine : some p ≡ some q = rw z at e in
              let eq : p ≡ q = cc in rw ((==_iff p q).1 eq) (ap some ((==_iff s.allocated b).0 z))
          | inr z ↦
              let old : own b ≡ some q = rw z at e in
              rw (apart own p q b s v i (λ w. cc) old) (i.back q b old)
        ];
        no_leak = λ b e. elim (Bool-cases (s.allocated == b)) [
          | inl z ↦ let mine : some p ≡ none = rw z at e in cc
          | inr z ↦ rw z (i.no_leak b (rw z at e))
        ];
        unused =
            λ b m. rw (ne→== s.allocated b (λ e. absurd (omega arith))) (i.unused b (omega arith));
        unmade = λ q m. rw (ne→== p q (λ e. absurd (omega arith))) (i.unmade q m);
        count = i.count;
      }

  -- The object `p` gives its block back.
  pub free-Rep :
      (own : Owners) (p b : ℕ) (y : Option Buffer) (ys : Option (List A)) (s : State A)
      (v : Values A)
      → Rep own s v
      → block_of (s.objects p) ≡ some b
      → block_of y ≡ none
      → ((blocks : ℕ → Option (List A)) → Shows blocks y ys)
      → p < s.made
      → Rep (give b none own) (write_object p y (write_block b none s)) (put p ys v)
  free-Rep own p b y ys s v i mine idle shown l = record {
    shows = λ q. elim (Bool-cases (p == q)) [
      | inl e ↦ rw e (shown (λ c. if b == c then none else s.blocks c))
      | inr e ↦ rw e (
          Shows-frame s.blocks b none (s.objects q) (v.of q)
            (λ z.
              let eq = one_owner own p q b s v i mine z in
              let yes' : (p == q) ≡ true = (==_iff p q).1 eq in cc)
            (i.shows q))
    ];
    forth = λ q c e. elim (Bool-cases (p == q)) [
      | inl z ↦ let bad : block_of y ≡ some c = rw z at e in cc
      | inr z ↦
          let old : block_of (s.objects q) ≡ some c = rw z at e in
          rw
            (ne→== b c (λ eq.
              let eq' = one_owner own p q b s v i mine (old ∙ ap some (sym eq)) in
              let yes' : (p == q) ≡ true = (==_iff p q).1 eq' in cc))
            (i.forth q c old)
    ];
    back = λ q c e. elim (Bool-cases (b == c)) [
      | inl z ↦ let bad : none ≡ some q = rw z at e in cc
      | inr z ↦
          let old : own c ≡ some q = rw z at e in
          rw
            (apart own p q c s v i
              (λ w.
                let both : some b ≡ some c = sym mine ∙ w in
                let eq : b ≡ c = cc in let yes' : (b == c) ≡ true = (==_iff b c).1 eq in cc)
              old)
            (i.back q c old)
    ];
    no_leak = λ c e. elim (Bool-cases (b == c)) [
      | inl z ↦ rw z refl
      | inr z ↦ rw z (i.no_leak c (rw z at e))
    ];
    unused = λ c m. elim (Bool-cases (b == c)) [ inl z ↦ rw z refl | inr z ↦ rw z (i.unused c m) ];
    unmade = λ q m. rw (ne→== p q (λ e. absurd (omega arith))) (i.unmade q m);
    count = i.count;
  }
