-- ===== src/Formula/Correct.antt =====
-- exercises/exprlab: what a caller of Formula::Parse and Evaluate can rely on, and the formula under
-- test inputs of exercises/exprlab/main.cpp.
use going_unmanaged.Prelude.{ℕ, ◌≤◌, ◌≡◌, Bytes, some, length, subst, ◌⊎◌}
use going_unmanaged.Formula.Outcome.{Error, ok, err, Ensures-bind, Ensures-ok, Ensures-split}
use going_unmanaged.Formula.Tree.{Node}
use going_unmanaged.Formula.Tokenizer.Bounds.{tokenize_sound}
use going_unmanaged.Formula.Grammar.Good.{Good, derived-Good}
use going_unmanaged.Formula.Eval.{
  Doubles, Symbols, Formula, eval, eval_within, evaluate_formula, parse, evaluate,
}
use going_unmanaged.Formula.Eval.Frames.{eval_within-eq}
use going_unmanaged.Formula.Eval.Carets.{eval-Points}
use going_unmanaged.Formula.Sound.{Derives, parse_sound}

-- The tree of a text is good at the positions within the text.
Derives-Good :
    (R : Doubles) (text : Bytes) (n : Node R.Double)
    → Derives R.from_chars text n
    → Good (λ p. p ≤ length text) n
Derives-Good R text n d =
    derived-Good _ d.derived (Ensures-ok (tokenize_sound R.from_chars text) d.tokenized)

-- Whatever the text, the provider and the limit, Evaluate returns a value, or an error whose
-- position lies within the text or at its end.
pub evaluate_total :
    (R : Doubles) (text : Bytes) (symbols : Symbols R.Double) (max_depth : ℕ)
    → ((v : R.Double) × (evaluate R text symbols max_depth ≡ ok v))
      ⊎ ((e : Error) × (evaluate R text symbols max_depth ≡ err e) × (e.pos ≤ length text))
unfolding evaluate evaluate_formula
evaluate_total R text symbols max_depth = Ensures-split {P = λ v. Unit {0}} (
    Ensures-bind (parse_sound R text max_depth) λ f (n, is_n, d, low).
      rw (is_n, evaluate_formula)
        (eval-Points R symbols (λ p. p ≤ length text) n (Derives-Good R text n d)))

-- A formula that Parse returned evaluates within as many nested calls of Eval as the limit says,
-- whatever its text: the evaluator's own recursion never goes deeper.
pub parse_bounds_eval :
    (R : Doubles) (text : Bytes) (symbols : Symbols R.Double) (max_depth : ℕ) (f : Formula R.Double)
    (n : Node R.Double)
    → parse R text max_depth ≡ ok f
    → f.root ≡ some n
    → eval_within R symbols max_depth n ≡ eval R symbols n
parse_bounds_eval R text symbols max_depth f n parsed is_n =
    let (m, is_m, d, low) = Ensures-ok (parse_sound R text max_depth) parsed in
    let same : m ≡ n = cc in
    subst (λ x. eval_within R symbols max_depth x ≡ eval R symbols x) same
      (eval_within-eq R symbols (λ p. p ≤ length text) max_depth m (Derives-Good R text m d) low)
