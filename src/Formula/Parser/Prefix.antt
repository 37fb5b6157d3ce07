-- ===== src/Formula/Parser/Prefix.antt =====
-- exercises/exprlab/expr.cpp, class Parser: the minus sign, numbers, names, calls and groups.
use going_unmanaged.Prelude.{
  ℕ, suc, ◌+◌, ◌*◌, ◌<◌, List, ◌∷◌, ◌≡◌, refl, ◌∙◌, sym, ap, subst, inl, inr, Bool, true, false,
  ltb, arith, length, Bool-cases, Bytes,
}
use going_unmanaged.Formula.Outcome.{Ensures, returns, refuses, Ensures-bind, Ensures-mono}
use going_unmanaged.Formula.Tokens.{Kind, Token, number, ident, lparen, is_end, is_lparen}
use going_unmanaged.Formula.Tree.{NodeKind, literal, name, negate, call_expr}
use going_unmanaged.Formula.Parser.{
  State, ◌>>◌, pure, enter, leave, build, comparison, unary, primary, arguments, name_or_call,
  primary_of,
}
use going_unmanaged.Formula.Grammar.{
  built, Comparison, Unary, Primary, Arguments, of_primary, minus, value, named, call, group,
}
use going_unmanaged.Formula.Stream.{
  Stream, peek_rule, take_rule, take_op_rule, expect_rparen_rule, build_last_rule, Stream-cons,
  Stream-tail, is_op-not_end, is_rparen-not_end, is_lparen-not_end, Stream-behind, Stream-at,
}
use going_unmanaged.Formula.Parser.Claims.{ReadsTree, Caret, relevel, SoundTree, AllSound}

module _ (D : Type 0) (Q : ℕ → Type 0) (max_depth f : ℕ) (ih : AllSound D Q max_depth f) where
  -- Between the constructor and the destructor of the depth guard.
  pub unary_step : SoundTree D Q max_depth Unary 6 (suc f) (unary max_depth (suc f))
  unfolding comparison enter leave
  unary_step s st h =
      let (o, ts, e) = Stream-cons Q s.rest st in
      let inside : State D = record s { depth = suc s.depth } in
      peek_rule inside e _ (
        Ensures-bind {P = ReadsTree Q max_depth Unary inside} {f = λ x. (leave >> pure x.0) x.1}
          (elim (Bool-cases (ltb max_depth (suc s.depth))) [
            | inl over ↦ rw over (refuses (Stream-at Q s o ts st e))
            | inr within ↦ rw within (
                take_op_rule inside e b'-' _
                  (λ _.
                    Ensures-mono (ih.primary_s inside st (omega arith))
                      (λ (n, s₁) r. relevel inside s₁ n r of_primary) (λ _ c. c))
                  λ is_minus.
                    Ensures-bind
                      (ih.unary_s (record inside { rest = ts })
                        (Stream-behind Q s o ts st e (is_op-not_end b'-' o.kind is_minus))
                        (omega (arith, ap length e)))
                      λ (n, s₁) r.
                        build_last_rule max_depth o.pos (negate n) s₁
                          (λ what. Stream-at Q s o ts st e)
                          λ low. record {
                            derived =
                                subst (λ z. Unary z s₁.rest (built o.pos (negate n))) (sym e)
                                  (minus o is_minus r.derived refl);
                            stream = r.stream;
                            depth = r.depth;
                            shorter = omega (arith, ap length e, r.shorter);
                            low = low;
                          })
          ])
          λ (n, s₁) r. returns (record {
            derived = r.derived;
            stream = r.stream;
            depth = omega (arith, r.depth);
            shorter = r.shorter;
            low = r.low;
          }))

  leaf :
      (s : State D) (o : Token D) (ts : List (Token D)) (kind : NodeKind D)
      → s.rest ≡ o ∷ ts
      → Q o.pos
      → Stream Q ts
      → Primary (o ∷ ts) ts (built o.pos kind)
      → Ensures
          (ReadsTree Q max_depth Primary s)
          (Caret Q)
          (build max_depth o.pos kind (record s { rest = ts }))
  leaf s o ts kind e caret st₁ d =
      build_last_rule max_depth o.pos kind (record s { rest = ts }) (λ what. caret)
        λ low. record {
          derived = subst (λ z. Primary z ts (built o.pos kind)) (sym e) d;
          stream = st₁;
          depth = refl;
          shorter = omega (arith, ap length e);
          low = low;
        }

  pub name_or_call_step :
      (s : State D) (o l : Token D) (ts : List (Token D)) (x : Bytes) (b : Bool)
      → 10 * length s.rest + 5 < suc f
      → s.rest ≡ o ∷ l ∷ ts
      → Q o.pos
      → Stream Q (l ∷ ts)
      → o.kind ≡ ident x
      → is_lparen l.kind ≡ b
      → Ensures
          (ReadsTree Q max_depth Primary s)
          (Caret Q)
          (name_or_call max_depth (arguments max_depth f) o.pos x b (record s { rest = l ∷ ts }))
  unfolding name_or_call
  name_or_call_step s o l ts x false h e caret st₁ is_x is_l =
      leaf s o (l ∷ ts) (name x) e caret st₁ (named o x is_x refl)
  name_or_call_step s o l ts x true h e caret st₁ is_x is_l =
      (Ensures-bind
        (ih.arguments_s (record s { rest = ts })
          (Stream-tail Q l ts st₁ (is_lparen-not_end l.kind is_l)) (omega (arith, ap length e)))
        λ (args, s₂) r₂.
          let (r, us, e₂) = Stream-cons Q s₂.rest r₂.stream in
          expect_rparen_rule s₂ e₂ _ (λ what. Stream-at Q s₂ r us r₂.stream e₂)
            λ is_r.
              build_last_rule max_depth o.pos (call_expr x args) (record s₂ { rest = us })
                (λ what. caret)
                λ low. record {
                  derived =
                      subst (λ z. Primary z us (built o.pos (call_expr x args))) (sym e)
                        (call o l r x is_x is_l (subst (λ z. Arguments ts z args) e₂ r₂.derived)
                          is_r refl);
                  stream = Stream-behind Q s₂ r us r₂.stream e₂ (is_rparen-not_end r.kind is_r);
                  depth = r₂.depth;
                  shorter = omega (arith, ap length e, ap length e₂, r₂.shorter);
                  low = low;
                })

  pub primary_of_step :
      (s : State D) (o : Token D) (ts : List (Token D)) (k : Kind D)
      → 10 * length s.rest + 5 < suc f
      → s.rest ≡ o ∷ ts
      → Stream Q s.rest
      → Q o.pos
      → o.kind ≡ k
      → Ensures (ReadsTree Q max_depth Primary s) (Caret Q) (
          primary_of max_depth
            (comparison max_depth f)
            (arguments max_depth f)
            o.pos
            k
            (record s { rest = ts }))
  unfolding primary_of
  primary_of_step s o ts (number v) h e st caret is_k =
      leaf s o ts (literal v) e caret (Stream-behind Q s o ts st e (ap is_end is_k))
        (value o v is_k refl)
  primary_of_step s o ts (ident x) h e st caret is_k =
      let st₁ = Stream-behind Q s o ts st e (ap is_end is_k) in
      let (l, us, e₁) = Stream-cons Q ts st₁ in
      peek_rule (record s { rest = ts }) e₁ _
        (subst
          (λ z. Ensures (ReadsTree Q max_depth Primary s) (Caret Q) (
            name_or_call max_depth (arguments max_depth f) o.pos x (is_lparen l.kind)
              (record s { rest = z })))
          (sym e₁)
          (name_or_call_step s o l us x (is_lparen l.kind) h (e ∙ ap (◌∷◌ o) e₁) caret
            (subst (Stream Q) e₁ st₁) is_k refl))
  primary_of_step s o ts lparen h e st caret is_k =
      Ensures-bind
        (ih.comparison_s (record s { rest = ts }) (Stream-behind Q s o ts st e (ap is_end is_k))
          (omega (arith, ap length e)))
        λ (n, s₂) r₂.
          let (r, us, e₂) = Stream-cons Q s₂.rest r₂.stream in
          expect_rparen_rule s₂ e₂ _ (λ what. Stream-at Q s₂ r us r₂.stream e₂)
            λ is_r. returns (record {
              derived =
                  subst (λ z. Primary z us n) (sym e)
                    (group o r (ap is_lparen is_k) (subst (λ z. Comparison ts z n) e₂ r₂.derived)
                      is_r);
              stream = Stream-behind Q s₂ r us r₂.stream e₂ (is_rparen-not_end r.kind is_r);
              depth = r₂.depth;
              shorter = omega (arith, ap length e, ap length e₂, r₂.shorter);
              low = r₂.low;
            })
  primary_of_step s o ts _ h e st caret is_k = refuses caret

  pub primary_step : SoundTree D Q max_depth Primary 5 (suc f) (primary max_depth (suc f))
  unfolding comparison
  primary_step s st h =
      let (o, ts, e) = Stream-cons Q s.rest st in
      take_rule s e _ (primary_of_step s o ts o.kind h e st (Stream-at Q s o ts st e) refl)
