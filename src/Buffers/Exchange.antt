-- ===== src/Buffers/Exchange.antt =====
-- solutions/Buffer.h: Swap, and a write through At.
use going_unmanaged.Prelude.{
  ℕ, ◌<◌, ◌≡◌, refl, ap, ◌∙◌, sym, subst, List, Option, none, some, Option-cases, Bool-cases, true,
  false, if◌then◌else◌, ◌==◌, ==_iff, ==_refl, ne→==, inl, inr, arith, set, length-set,
}
use going_unmanaged.Buffers.{Buffer, State, write_object, write_block}
use going_unmanaged.Buffers.Values.{
  Values, put, block_of, InBlock, Shows, Shows-frame, Owners, Rep, one_owner,
}

-- Two numbers change places.
abbrev pub other_of : ℕ → ℕ → ℕ → ℕ
other_of p q r = if p == r then q else if q == r then p else r

other_of_other : (p q r : ℕ) → other_of p q (other_of p q r) ≡ r
other_of_other p q r = ground arith

exchanged :
    {B : Type 0} (f : ℕ → B) (p q r : ℕ)
    → (if p == r then f q else if q == r then f p else f r) ≡ f (other_of p q r)
exchanged f p q r = elim (Bool-cases (p == r)) [
  | inl y ↦ rw y refl
  | inr n ↦ elim (Bool-cases (q == r)) [ inl z ↦ rw (n, z) refl | inr z ↦ rw (n, z) refl ]
]

abbrev pub owner_other : ℕ → ℕ → Option ℕ → Option ℕ
owner_other p q none = none
owner_other p q (some r) = some (other_of p q r)

owner_other-some :
    (p q r : ℕ) (o : Option ℕ) → owner_other p q o ≡ some r → o ≡ some (other_of p q r)
owner_other-some p q r none e = cc
owner_other-some p q r (some t) e =
    let eq : other_of p q t ≡ r = cc in ap some (sym (other_of_other p q t) ∙ ap (other_of p q) eq)

abbrev pub hand_over : ℕ → ℕ → Owners → Owners
hand_over p q own = λ b. owner_other p q (own b)

abbrev pub swapped : {A : Type 0} → ℕ → ℕ → State A → State A
swapped p q s = write_object p (s.objects q) (write_object q (s.objects p) s)

abbrev pub exchange : {A : Type 0} → ℕ → ℕ → Values A → Values A
exchange p q v = put p (v.of q) (put q (v.of p) v)

pub swap-Rep :
    {A : Type 0} (own : Owners) (p q : ℕ) (s : State A) (v : Values A)
    → Rep own s v
    → p < s.made
    → q < s.made
    → Rep (hand_over p q own) (swapped p q s) (exchange p q v)
swap-Rep own p q s v i l m =
    let at = exchanged s.objects p q in
    record {
      shows = λ r.
          subst (λ x. Shows s.blocks x ((exchange p q v).of r)) (sym (at r))
            (subst (Shows s.blocks (s.objects (other_of p q r))) (sym (exchanged v.of p q r))
              (i.shows (other_of p q r)));
      forth = λ r b e.
          ap (owner_other p q) (i.forth (other_of p q r) b (ap block_of (sym (at r)) ∙ e))
          ∙ ap some (other_of_other p q r);
      back = λ r b e.
          ap block_of (at r) ∙ i.back (other_of p q r) b (owner_other-some p q r (own b) e);
      no_leak = λ b e. i.no_leak b (elim (Option-cases (own b)) [
        | inl n ↦ n
        | inr (t, has) ↦
            let bad : some (other_of p q t) ≡ none = sym (ap (owner_other p q) has) ∙ e in cc
      ]);
      unused = λ b g. ap (owner_other p q) (i.unused b g);
      unmade = λ r g.
          let still : other_of p q r ≡ r = ground arith in at r ∙ ap s.objects still ∙ i.unmade r g;
      count = i.count;
    }

-- The int at a place of a block is written.
pub set-Rep :
    {A : Type 0} (own : Owners) (p b k : ℕ) (a : A) (x : Buffer) (xs : List A) (s : State A)
    (v : Values A)
    → Rep own s v
    → s.objects p ≡ some x
    → x.block ≡ some b
    → v.of p ≡ some xs
    → Rep own (write_block b (some (set xs k a)) s) (put p (some (set xs k a)) v)
set-Rep own p b k a x xs s v i at has val =
    let ys = set xs k a in
    let blocks' = λ (c : ℕ). if b == c then some ys else s.blocks c in
    let mine : block_of (s.objects p) ≡ some b = ap block_of at ∙ has in
    let size =
      (subst (λ o. Shows s.blocks (some x) o) val
        (subst (λ o. Shows s.blocks o (v.of p)) at (i.shows p))).0 in
    let written : Shows blocks' (some x) (some ys) = (
      size ∙ sym (length-set xs k a),
      subst (λ o. InBlock blocks' o ys) (sym has) (rw (==_refl b) refl),
    ) in
    let own_block = i.forth p b mine in
    record {
      shows = λ r. elim (Bool-cases (p == r)) [
        | inl y ↦ rw y (
            subst (λ o. Shows blocks' o (some ys)) (sym at ∙ ap s.objects ((==_iff p r).0 y))
              written)
        | inr n ↦ rw n (
            Shows-frame s.blocks b (some ys) (s.objects r) (v.of r)
              (λ z.
                let eq = one_owner own p r b s v i mine z in
                let yes' : (p == r) ≡ true = (==_iff p r).1 eq in cc)
              (i.shows r))
      ];
      forth = i.forth;
      back = i.back;
      no_leak = λ c e.
          let other : (b == c) ≡ false =
            ne→== b c (λ eq. let bad : some p ≡ none = sym own_block ∙ ap own eq ∙ e in cc) in
          rw other (i.no_leak c e);
      unused = i.unused;
      unmade = i.unmade;
      count = i.count;
    }
