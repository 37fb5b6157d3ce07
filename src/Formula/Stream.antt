-- ===== src/Formula/Stream.antt =====
-- The list of tokens as Tokenize leaves it: `End` stands last and nowhere else. Rules for the steps
-- of the parser that read such a list: they do not fault.
use going_unmanaged.Prelude.{
  ℕ, ◌≤◌, List, [], ◌∷◌, ◌≡◌, refl, ◌⊎◌, inl, inr, Option, none, some, Bool, true, false, ltb,
  not_ltb→ge, Bool-cases, Bytes,
}
use going_unmanaged.Formula.Outcome.{Error, Ensures, returns, refuses}
use going_unmanaged.Formula.Tokens.{Kind, Token, op, end, is_end, is_op, is_rparen, is_lparen}
use going_unmanaged.Formula.Tree.{Node, NodeKind, height_of}
use going_unmanaged.Formula.Parser.{
  State, P, ◌>>=◌, peek, take, take_op, take_either, expect_rparen, build, comparison_op,
}
use going_unmanaged.Formula.Grammar.{IsEither, built}

-- `Q` holds of the position of each token.
abbrev pub Stream : {D : Type 0} → (ℕ → Type 0) → List (Token D) → Type 0
Stream Q [] = ⊥
Stream Q (t ∷ ts) =
    Q t.pos × (((is_end t.kind ≡ true) × (ts ≡ [])) ⊎ ((is_end t.kind ≡ false) × Stream Q ts))

module _ {D : Type 0} (Q : ℕ → Type 0) where
  pub Stream-tail :
      (t : Token D) (ts : List (Token D)) → Stream Q (t ∷ ts) → is_end t.kind ≡ false → Stream Q ts
  Stream-tail t ts (q, inl (h, e)) n = cc
  Stream-tail t ts (q, inr (h, s)) n = s

-- The rules for a state whose next token is known.
module _ {D B : Type 0} {R : B × State D → Type 0} {E : Error → Type 0} (s : State D) {t : Token D}
    {ts : List (Token D)} (e : s.rest ≡ t ∷ ts) where
  pub peek_rule : (f : Token D → P D B) → Ensures R E (f t s) → Ensures R E ((peek >>= f) s)
  unfolding peek
  peek_rule f h = rw (e, peek) h

  pub take_rule :
      (f : Token D → P D B)
      → Ensures R E (f t (record s { rest = ts }))
      → Ensures R E ((take >>= f) s)
  unfolding take
  take_rule f h = rw (e, take) h

  pub take_op_rule :
      (c : ℕ) (f : Bool → P D B)
      → (is_op c t.kind ≡ false → Ensures R E (f false s))
      → (is_op c t.kind ≡ true → Ensures R E (f true (record s { rest = ts })))
      → Ensures R E ((take_op c >>= f) s)
  unfolding take_op
  take_op_rule c f left taken = elim (Bool-cases (is_op c t.kind)) [
    | inl hit ↦ rw (e, peek, take_op, hit) (rw (e, take) (taken hit))
    | inr miss ↦ rw (e, peek, take_op, miss) (left miss)
  ]

  pub take_either_rule :
      (a b : ℕ) (f : Option ℕ → P D B)
      → (is_op a t.kind ≡ false → is_op b t.kind ≡ false → Ensures R E (f none s))
      → ((c : ℕ) → IsEither a b c t.kind → Ensures R E (f (some c) (record s { rest = ts })))
      → Ensures R E ((take_either a b >>= f) s)
  unfolding take_either
  take_either_rule a b f left taken = elim (Bool-cases (is_op a t.kind)) [
    | inl hit ↦ rw (e, peek, take_op, take_either, hit) (rw (e, take) (taken a (inl refl, hit)))
    | inr miss ↦ elim (Bool-cases (is_op b t.kind)) [
      | inl hit ↦
          rw (e, peek, take_op, take_either, miss)
            (rw (e, peek, take_op, take_either, hit) (rw (e, take) (taken b (inr refl, hit))))
      | inr miss' ↦
          rw (e, peek, take_op, take_either, miss)
            (rw (e, peek, take_op, take_either, miss') (left miss miss'))
    ]
  ]

  pub expect_rparen_rule :
      (f : Unit {0} → P D B)
      → ((what : Bytes) → E (record { pos = t.pos; what = what }))
      → (is_rparen t.kind ≡ true → Ensures R E (f tt (record s { rest = ts })))
      → Ensures R E ((expect_rparen >>= f) s)
  unfolding expect_rparen
  expect_rparen_rule f refused taken = elim (Bool-cases (is_rparen t.kind)) [
    | inl hit ↦ rw (e, peek, expect_rparen, hit) (rw (e, take) (taken hit))
    | inr miss ↦ rw (e, peek, expect_rparen, miss) (refuses (refused _))
  ]

module _ {D B : Type 0} {R : B × State D → Type 0} {E : Error → Type 0} where
  pub build_rule :
      (max_depth pos : ℕ) (kind : NodeKind D) (f : Node D → P D B) (s : State D)
      → ((what : Bytes) → E (record { pos = pos; what = what }))
      → (height_of kind ≤ max_depth → Ensures R E (f (built pos kind) s))
      → Ensures R E ((build max_depth pos kind >>= f) s)
  unfolding build
  build_rule max_depth pos kind f s refused k = elim (Bool-cases (ltb max_depth (height_of kind))) [
    | inl over ↦ rw (over, build) (refuses (refused _))
    | inr fits ↦ rw (fits, build) (k (not_ltb→ge _ _ fits))
  ]

module _ {D : Type 0} {R : Node D × State D → Type 0} {E : Error → Type 0} where
  -- Where the node is the result.
  pub build_last_rule :
      (max_depth pos : ℕ) (kind : NodeKind D) (s : State D)
      → ((what : Bytes) → E (record { pos = pos; what = what }))
      → (height_of kind ≤ max_depth → R (built pos kind, s))
      → Ensures R E (build max_depth pos kind s)
  unfolding build
  build_last_rule max_depth pos kind s refused k =
      elim (Bool-cases (ltb max_depth (height_of kind))) [
        | inl over ↦ rw (over, build) (refuses (refused _))
        | inr fits ↦ rw (fits, build) (returns (k (not_ltb→ge _ _ fits)))
      ]

-- Which tokens are not the last one.
module _ {D : Type 0} where
  pub is_op-not_end : (c : ℕ) (k : Kind D) → is_op c k ≡ true → is_end k ≡ false
  is_op-not_end c (op d) h = refl
  is_op-not_end c end h = cc
  is_op-not_end c _ h = cc

  pub comparison_op-not_end : (k : Kind D) (o : Bytes) → comparison_op k ≡ some o → is_end k ≡ false
  comparison_op-not_end end o h = cc
  comparison_op-not_end _ o h = refl

  pub is_rparen-not_end : (k : Kind D) → is_rparen k ≡ true → is_end k ≡ false
  is_rparen-not_end end h = cc
  is_rparen-not_end _ h = refl

  pub is_lparen-not_end : (k : Kind D) → is_lparen k ≡ true → is_end k ≡ false
  is_lparen-not_end end h = cc
  is_lparen-not_end _ h = refl

  -- What is left of a stream behind a token that is not the last one.
  pub Stream-behind :
      (Q : ℕ → Type 0) (s : State D) (t : Token D) (ts : List (Token D))
      → Stream Q s.rest
      → s.rest ≡ t ∷ ts
      → is_end t.kind ≡ false
      → Stream Q ts
  Stream-behind Q s t ts h e n = Stream-tail Q t ts (rw e at h) n

  pub Stream-cons :
      (Q : ℕ → Type 0) (ts : List (Token D))
      → Stream Q ts
      → (t : Token D) × (us : List (Token D)) × (ts ≡ t ∷ us)
  Stream-cons Q [] h = elim h [ ]
  Stream-cons Q (t ∷ us) h = (t, us, refl)

  pub Stream-at :
      (Q : ℕ → Type 0) (s : State D) (t : Token D) (ts : List (Token D))
      → Stream Q s.rest
      → s.rest ≡ t ∷ ts
      → Q t.pos
  Stream-at Q s t ts h e = let h' = rw e at h in h'.0
