-- ===== src/Formula/Parser/Sound.antt =====
-- exercises/exprlab/expr.cpp, class Parser: one induction on the fuel through all its methods.
use going_unmanaged.Prelude.{ℕ, zero, suc, arith}
use going_unmanaged.Formula.Parser.{comparison}
use going_unmanaged.Formula.Grammar.{Comparison}
use going_unmanaged.Formula.Parser.Claims.{SoundTree, AllSound}
use going_unmanaged.Formula.Parser.Infix.{
  comparison_step, additive_step, additive_loop_step, term_step, term_loop_step,
}
use going_unmanaged.Formula.Parser.Prefix.{unary_step, primary_step}
use going_unmanaged.Formula.Parser.Arguments.{arguments_step, arguments_loop_step}

module _ (D : Type 0) (Q : ℕ → Type 0) (max_depth : ℕ) where
  all_sound : (f : ℕ) → AllSound D Q max_depth f
  all_sound zero = record {
    comparison_s = λ s st h. absurd (omega arith);
    additive_s = λ s st h. absurd (omega arith);
    additive_loop_s = λ s s₁ l r h. absurd (omega arith);
    term_s = λ s st h. absurd (omega arith);
    term_loop_s = λ s s₁ l r h. absurd (omega arith);
    unary_s = λ s st h. absurd (omega arith);
    primary_s = λ s st h. absurd (omega arith);
    arguments_s = λ s st h. absurd (omega arith);
    arguments_loop_s = λ s s₁ args b st le same h. absurd (omega arith);
  }
  all_sound (suc f) =
      let ih = all_sound f in
      record {
        comparison_s = comparison_step D Q max_depth f ih;
        additive_s = additive_step D Q max_depth f ih;
        additive_loop_s = additive_loop_step D Q max_depth f ih;
        term_s = term_step D Q max_depth f ih;
        term_loop_s = term_loop_step D Q max_depth f ih;
        unary_s = unary_step D Q max_depth f ih;
        primary_s = primary_step D Q max_depth f ih;
        arguments_s = arguments_step D Q max_depth f ih;
        arguments_loop_s = arguments_loop_step D Q max_depth f ih;
      }

  -- On a stream of tokens with enough fuel, Comparison returns a low tree that the grammar derives
  -- or an error at the position of a token, with the depth as it was.
  pub comparison_sound : (f : ℕ) → SoundTree D Q max_depth Comparison 9 f (comparison max_depth f)
  comparison_sound f = let ih = all_sound f in ih.comparison_s
