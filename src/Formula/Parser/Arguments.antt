-- ===== src/Formula/Parser/Arguments.antt =====
-- exercises/exprlab/expr.cpp, class Parser: the arguments of a call.
use going_unmanaged.Prelude.{
  ℕ, suc, ◌+◌, ◌*◌, ◌≤◌, ◌<◌, ◌≡◌, refl, ◌∙◌, ap, subst, inl, inr, arith, length, Bool-cases,
}
use going_unmanaged.Formula.Outcome.{Ensures, returns, Ensures-bind}
use going_unmanaged.Formula.Tokens.{is_rparen}
use going_unmanaged.Formula.Tree.{Nodes, nil, push_back}
use going_unmanaged.Formula.Parser.{State, comparison, arguments, arguments_loop}
use going_unmanaged.Formula.Grammar.{
  Comparison, ArgumentsBefore, no_arguments, some_arguments, none_yet, one_more,
}
use going_unmanaged.Formula.Stream.{
  Stream, peek_rule, take_op_rule, Stream-cons, is_op-not_end, Stream-behind,
}
use going_unmanaged.Formula.Parser.Claims.{ReadsArguments, Caret, AllSound}

module _ (D : Type 0) (Q : ℕ → Type 0) (max_depth f : ℕ) (ih : AllSound D Q max_depth f) where
  pub arguments_step :
      (s : State D)
      → Stream Q s.rest
      → 10 * length s.rest + 11 < suc f
      → Ensures (ReadsArguments Q s) (Caret Q) (arguments max_depth (suc f) s)
  unfolding comparison
  arguments_step s st h =
      let (o, ts, e) = Stream-cons Q s.rest st in
      peek_rule s e _ (elim (Bool-cases (is_rparen o.kind)) [
        | inl hit ↦ rw hit (
            returns
              (record { derived = no_arguments; stream = st; depth = refl; shorter = omega arith }))
        | inr miss ↦
            rw miss (ih.arguments_loop_s s s nil none_yet st (omega arith) refl (omega arith))
      ])

  pub arguments_loop_step :
      (s s₁ : State D) (args : Nodes D)
      → ArgumentsBefore s.rest s₁.rest args
      → Stream Q s₁.rest
      → length s₁.rest ≤ length s.rest
      → s₁.depth ≡ s.depth
      → 10 * length s₁.rest + 10 < suc f
      → Ensures (ReadsArguments Q s) (Caret Q) (arguments_loop max_depth (suc f) args s₁)
  unfolding comparison
  arguments_loop_step s s₁ args before st le same h =
      Ensures-bind (ih.comparison_s s₁ st (omega arith)) λ (n, s₂) r₂.
        let (o, ts, e) = Stream-cons Q s₂.rest r₂.stream in
        take_op_rule s₂ e b',' _
          (λ _. returns (record {
            derived = some_arguments before r₂.derived;
            stream = r₂.stream;
            depth = r₂.depth ∙ same;
            shorter = omega (arith, r₂.shorter);
          }))
          λ comma.
            ih.arguments_loop_s s (record s₂ { rest = ts }) (push_back args n)
              (one_more o before (subst (λ z. Comparison s₁.rest z n) e r₂.derived) comma)
              (Stream-behind Q s₂ o ts r₂.stream e (is_op-not_end b',' o.kind comma))
              (omega (arith, ap length e, r₂.shorter)) (r₂.depth ∙ same)
              (omega (arith, ap length e, r₂.shorter))
