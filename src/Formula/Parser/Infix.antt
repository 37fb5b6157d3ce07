-- ===== src/Formula/Parser/Infix.antt =====
-- exercises/exprlab/expr.cpp, class Parser: comparisons, sums and products.
use going_unmanaged.Prelude.{
  ℕ, suc, [], ◌∷◌, refl, ◌∙◌, ap, subst, inl, inr, arith, length, Option-cases,
}
use going_unmanaged.Formula.Outcome.{returns, Ensures-bind}
use going_unmanaged.Formula.Tree.{binary}
use going_unmanaged.Formula.Parser.{
  comparison_op, comparison, additive, additive_loop, term, term_loop,
}
use going_unmanaged.Formula.Grammar.{
  Comparison, Additive, Term, of_additive, compares, of_term, adds, of_unary, multiplies,
}
use going_unmanaged.Formula.Stream.{
  peek_rule, take_rule, take_either_rule, build_rule, build_last_rule, Stream-cons, is_op-not_end,
  comparison_op-not_end, Stream-behind, Stream-at,
}
use going_unmanaged.Formula.Parser.Claims.{relevel, SoundTree, SoundLoop, AllSound}

module _ (D : Type 0) (Q : ℕ → Type 0) (max_depth f : ℕ) (ih : AllSound D Q max_depth f) where
  pub comparison_step : SoundTree D Q max_depth Comparison 9 (suc f) (comparison max_depth (suc f))
  unfolding comparison
  comparison_step s st h = Ensures-bind (ih.additive_s s st (omega arith)) λ (l, s₁) r₁.
      let (o, ts, e) = Stream-cons Q s₁.rest r₁.stream in
      peek_rule s₁ e _ (elim (Option-cases (comparison_op o.kind)) [
        | inl none_of ↦ rw none_of (returns (relevel s s₁ l r₁ of_additive))
        | inr (c, is_c) ↦
            let st₂ = Stream-behind Q s₁ o ts r₁.stream e (comparison_op-not_end o.kind c is_c) in
            rw is_c (
              take_rule s₁ e _ (
                Ensures-bind
                  (ih.additive_s (record s₁ { rest = ts }) st₂
                    (omega (arith, ap length e, r₁.shorter)))
                  λ (r, s₃) r₃.
                    build_last_rule max_depth o.pos (binary c l r) s₃
                      (λ what. Stream-at Q s₁ o ts r₁.stream e)
                      λ low. record {
                        derived =
                            compares o c (subst (λ z. Additive s.rest z l) e r₁.derived) is_c
                              r₃.derived refl;
                        stream = r₃.stream;
                        depth = r₃.depth ∙ r₁.depth;
                        shorter = omega (arith, ap length e, r₁.shorter, r₃.shorter);
                        low = low;
                      }))
      ])

  pub additive_step : SoundTree D Q max_depth Additive 8 (suc f) (additive max_depth (suc f))
  unfolding comparison
  additive_step s st h = Ensures-bind (ih.term_s s st (omega arith)) λ (l, s₁) r₁.
      ih.additive_loop_s s s₁ l (relevel s s₁ l r₁ of_term) (omega (arith, r₁.shorter))

  pub additive_loop_step :
      SoundLoop D Q max_depth Additive 7 (suc f) (additive_loop max_depth (suc f))
  unfolding comparison
  additive_loop_step s s₁ l r₁ h =
      let (o, ts, e) = Stream-cons Q s₁.rest r₁.stream in
      peek_rule s₁ e _ (
        take_either_rule s₁ e b'+' b'-' _ (λ _ _. returns r₁)
          λ c is_c.
            Ensures-bind
              (ih.term_s (record s₁ { rest = ts })
                (Stream-behind Q s₁ o ts r₁.stream e (is_op-not_end c o.kind is_c.1))
                (omega (arith, ap length e)))
              λ (r, s₃) r₃.
                build_rule max_depth o.pos (binary (c ∷ []) l r) _ s₃
                  (λ what. Stream-at Q s₁ o ts r₁.stream e)
                  λ low.
                    ih.additive_loop_s s s₃ _
                      (record {
                        derived =
                            adds o c (subst (λ z. Additive s.rest z l) e r₁.derived) is_c r₃.derived
                              refl;
                        stream = r₃.stream;
                        depth = r₃.depth ∙ r₁.depth;
                        shorter = omega (arith, ap length e, r₁.shorter, r₃.shorter);
                        low = low;
                      })
                      (omega (arith, ap length e, r₃.shorter)))

  pub term_step : SoundTree D Q max_depth Term 7 (suc f) (term max_depth (suc f))
  unfolding comparison
  term_step s st h =
      Ensures-bind (ih.unary_s s st (omega arith))
        λ (l, s₁) r₁. ih.term_loop_s s s₁ l (relevel s s₁ l r₁ of_unary) (omega (arith, r₁.shorter))

  pub term_loop_step : SoundLoop D Q max_depth Term 6 (suc f) (term_loop max_depth (suc f))
  unfolding comparison
  term_loop_step s s₁ l r₁ h =
      let (o, ts, e) = Stream-cons Q s₁.rest r₁.stream in
      peek_rule s₁ e _ (
        take_either_rule s₁ e b'*' b'/' _ (λ _ _. returns r₁)
          λ c is_c.
            Ensures-bind
              (ih.unary_s (record s₁ { rest = ts })
                (Stream-behind Q s₁ o ts r₁.stream e (is_op-not_end c o.kind is_c.1))
                (omega (arith, ap length e)))
              λ (r, s₃) r₃.
                build_rule max_depth o.pos (binary (c ∷ []) l r) _ s₃
                  (λ what. Stream-at Q s₁ o ts r₁.stream e)
                  λ low.
                    ih.term_loop_s s s₃ _
                      (record {
                        derived =
                            multiplies o c (subst (λ z. Term s.rest z l) e r₁.derived) is_c
                              r₃.derived refl;
                        stream = r₃.stream;
                        depth = r₃.depth ∙ r₁.depth;
                        shorter = omega (arith, ap length e, r₁.shorter, r₃.shorter);
                        low = low;
                      })
                      (omega (arith, ap length e, r₃.shorter)))
