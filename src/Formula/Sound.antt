-- ===== src/Formula/Sound.antt =====
-- exercises/exprlab/expr.cpp, Formula::Parse as a whole: text to tokens to a tree.
use going_unmanaged.Prelude.{
  ℕ, ◌≤◌, List, [], ◌∷◌, ◌≡◌, refl, ap, subst, ◌∙◌, inl, inr, some, true, arith, Bytes, length,
  Bool-cases,
}
use going_unmanaged.Formula.Outcome.{
  ok, Ensures, returns, refuses, Ensures-bind, Ensures-mono, Ensures-self,
}
use going_unmanaged.Formula.Tokens.{Token, is_end}
use going_unmanaged.Formula.Tree.{Node, node_height}
use going_unmanaged.Formula.Parser.{parse_tokens, fuel_for}
use going_unmanaged.Formula.Parser.Claims.{Caret}
use going_unmanaged.Formula.Parser.Sound.{comparison_sound}
use going_unmanaged.Formula.Grammar.{Comparison}
use going_unmanaged.Formula.Stream.{Stream, Stream-cons, Stream-at, peek_rule}
use going_unmanaged.Formula.Tokenizer.{FromChars, tokenize}
use going_unmanaged.Formula.Tokenizer.Bounds.{tokenize_sound}
use going_unmanaged.Formula.Eval.{Doubles, parse}

-- The tokens of `text` are those of a comparison whose tree is `n`, and `End`.
pub record Derives {D : Type 0} (from_chars : Bytes → FromChars D) (text : Bytes) (n : Node D)
    : Type 0 where
  pub tokens : List (Token D)
  pub last : Token D
  pub tokenized : tokenize from_chars text ≡ ok tokens
  pub derived : Comparison tokens (last ∷ []) n
  pub ended : is_end last.kind ≡ true

-- Behind the tree Run looks for `End`.
parse_tokens_sound :
    (D : Type 0) (Q : ℕ → Type 0) (max_depth : ℕ) (ts : List (Token D))
    → Stream Q ts
    → Ensures
        (λ n.
          ((last : Token D) × Comparison ts (last ∷ []) n × (is_end last.kind ≡ true))
          × (node_height n ≤ max_depth))
        (Caret Q)
        (parse_tokens max_depth ts)
unfolding parse_tokens
parse_tokens_sound D Q max_depth ts st =
    Ensures-bind
      {P = λ x.
        ((last : Token D) × Comparison ts (last ∷ []) x.0 × (is_end last.kind ≡ true))
        × (node_height x.0 ≤ max_depth)}
      (Ensures-bind
        (comparison_sound D Q max_depth (fuel_for ts) (record { rest = ts; depth = 0 }) st
          (omega arith))
        λ (n, s₁) r₁.
          let (o, us, e) = Stream-cons Q s₁.rest r₁.stream in
          peek_rule s₁ e _ (elim (Bool-cases (is_end o.kind)) [
            | inl y ↦ rw y (
                returns (
                  (
                    o,
                    subst (λ z. Comparison ts z n)
                        (e ∙ ap (◌∷◌ o) (only o us (subst (Stream Q) e r₁.stream) y)) r₁.derived,
                    y,
                  ),
                  r₁.low,
                ))
            | inr not_end ↦ rw not_end (refuses (Stream-at Q s₁ o us r₁.stream e))
          ]))
      λ _ p. returns p
  where
    only : (o : Token D) (us : List (Token D)) → Stream Q (o ∷ us) → is_end o.kind ≡ true → us ≡ []
    only o us (q, inl (y, nothing)) h = nothing
    only o us (q, inr (n, s)) h = cc

-- Whatever the text and the limit, Parse neither reads behind the last token nor runs out of fuel:
-- it returns a formula, whose tree the grammar derives from the tokens of the whole text and whose
-- height is at most the limit, or an error whose position lies within the text or at its end.
pub parse_sound :
    (R : Doubles) (text : Bytes) (max_depth : ℕ)
    → Ensures
        (λ f.
          (n : Node R.Double) × (f.root ≡ some n)
          × Derives R.from_chars text n
          × (node_height n ≤ max_depth))
        (λ e. e.pos ≤ length text)
        (parse R text max_depth)
unfolding parse
parse_sound R text max_depth =
    Ensures-bind
      (Ensures-mono (Ensures-self (tokenize_sound R.from_chars text)) (λ ts h. h)
        (λ e h. omega arith))
      λ ts (st, tokenized).
        Ensures-bind (parse_tokens_sound R.Double (λ p. p ≤ length text) max_depth ts st)
          λ n ((last, derived, ended), low). returns (
            n,
            refl,
            record {
              tokens = ts;
              last = last;
              tokenized = tokenized;
              derived = derived;
              ended = ended;
            },
            low,
          )
