-- ===== src/Formula/Nesting.antt =====
-- exercises/exprlab/expr.cpp, the depth guard of Parser::Unary against text that opens more
-- parentheses than the limit.
use going_unmanaged.Prelude.{
  ℕ, zero, suc, ◌+◌, ◌*◌, ◌≤◌, ◌<◌, List, [], ◌∷◌, ◌++◌, ◌≡◌, refl, ap, arith, Bytes, codes, length,
  replicate, lt→ltb, ge→ltb, length-append, length-replicate, Bool-cases, ◌==◌, inl, inr,
}
use going_unmanaged.Formula.Outcome.{Error, ok, err, ◌>>=◌}
use going_unmanaged.Formula.Tokens.{Token, lparen}
use going_unmanaged.Formula.Tokenizer.{FromChars, tokenize, tokenize_loop, lex_one, lex_single}
use going_unmanaged.Formula.Parser.{
  State, comparison, unary, primary_of, peek, take, take_op, enter, parse_tokens, fuel_for,
}
use going_unmanaged.Formula.Eval.{Doubles, parse}

-- The tokens of `k` opening parentheses from the position `i` on, in front of others.
abbrev pub open_tokens : {D : Type 0} → ℕ → ℕ → List (Token D) → List (Token D)
open_tokens i zero ts = ts
open_tokens i (suc k) ts = record { pos = i; kind = lparen } ∷ open_tokens (i + 1) k ts

abbrev too_deep : ℕ → Error
too_deep pos = record { pos = pos; what = codes "expression nests too deeply" }

-- The fuel that `j` parentheses and a refusal take, and `g` more.
abbrev spent : ℕ → ℕ → ℕ
spent zero g = suc (suc (suc (suc g)))
spent (suc j) g = suc (suc (suc (suc (suc (spent j g)))))

spent_lem : (j g : ℕ) → spent j g ≡ 5 * j + 4 + g
spent_lem zero g = omega arith
spent_lem (suc j) g = omega (arith, spent_lem j g)

module _ {D : Type 0} (max_depth : ℕ) where
  unary_over :
      (f d : ℕ) (t : Token D) (ts : List (Token D))
      → max_depth ≤ d
      → unary max_depth (suc f) (record { rest = t ∷ ts; depth = d }) ≡ err (too_deep t.pos)
  unfolding comparison peek enter
  unary_over f d t ts h = rw (lt→ltb max_depth (suc d) (omega arith)) refl

  unary_paren :
      (f d i : ℕ) (ts : List (Token D)) (e : Error)
      → d < max_depth
      → comparison max_depth f (record { rest = ts; depth = suc d }) ≡ err e
      → unary max_depth
          (suc (suc f))
          (record { rest = record { pos = i; kind = lparen } ∷ ts; depth = d })
        ≡ err e
  unfolding comparison peek enter take take_op primary_of
  unary_paren f d i ts e h inner = rw (ge→ltb max_depth (suc d) (omega arith), inner)

  comparison_of_unary :
      (f : ℕ) (s : State D) (e : Error)
      → unary max_depth f s ≡ err e
      → comparison max_depth (suc (suc (suc f))) s ≡ err e
  unfolding comparison
  comparison_of_unary f s e h = rw h

  -- With `j` parentheses to the limit, the token behind them is one level too deep.
  comparison_nested :
      (j g d i : ℕ) (t : Token D) (ts : List (Token D))
      → d + j ≡ max_depth
      → comparison max_depth (spent j g) (record { rest = open_tokens i j (t ∷ ts); depth = d })
        ≡ err (too_deep t.pos)
  comparison_nested zero g d i t ts h =
      comparison_of_unary (suc g) _ _ (unary_over g d t ts (omega arith))
  comparison_nested (suc j) g d i t ts h = comparison_of_unary (suc (suc (spent j g))) _ _ (
      unary_paren (spent j g) d i (open_tokens (i + 1) j (t ∷ ts)) _ (omega arith)
        (comparison_nested j g (suc d) (i + 1) t ts (omega arith)))

  length-open_tokens : (i k : ℕ) (ts : List (Token D)) → length (open_tokens i k ts) ≡ k + length ts
  length-open_tokens i zero ts = omega arith
  length-open_tokens i (suc k) ts = omega (arith, length-open_tokens (i + 1) k ts)

  parse_tokens_nested :
      (t : Token D) (ts : List (Token D))
      → parse_tokens max_depth (open_tokens 0 max_depth (t ∷ ts)) ≡ err (too_deep t.pos)
  unfolding parse_tokens
  parse_tokens_nested t ts =
      let n = 5 * max_depth + 16 + 10 * length ts in
      let fuel : fuel_for (open_tokens 0 max_depth (t ∷ ts)) ≡ spent max_depth n =
        omega (arith, length-open_tokens 0 max_depth (t ∷ ts), spent_lem max_depth n) in
      rw (fuel, comparison_nested max_depth n 0 0 t ts (omega arith))

  -- Of more parentheses than the limit the limit comes first.
  open_tokens_split :
      (i j k : ℕ) (ts : List (Token D))
      → open_tokens i (j + k) ts ≡ open_tokens i j (open_tokens (i + j) k ts)
  open_tokens_split i zero k ts =
      let left : 0 + k ≡ k = omega arith in let right : i + 0 ≡ i = omega arith in rw (left, right)
  open_tokens_split i (suc j) k ts =
      let left : suc j + k ≡ suc (j + k) = omega arith in
      let right : i + suc j ≡ i + 1 + j = omega arith in
      rw (left, right)
        (ap (◌∷◌ (record { pos = i; kind = lparen })) (open_tokens_split (i + 1) j k ts))

module _ {D : Type 0} (from_chars : Bytes → FromChars D) where
  tokenize_loop_paren :
      (f i : ℕ) (rest : Bytes)
      → tokenize_loop from_chars (suc f) i (b'(' ∷ rest) ≡ (
          tokenize_loop from_chars f (i + 1) rest >>= λ ts.
          ok (record { pos = i; kind = lparen } ∷ ts))
  unfolding tokenize_loop lex_one lex_single
  tokenize_loop_paren f i [] = refl
  tokenize_loop_paren f i (c ∷ rest) = elim (Bool-cases (c == b'=')) [ inl y ↦ rw y | inr n ↦ rw n ]

  -- The tokens of opening parentheses in front of a text that has tokens.
  tokenize_loop_parens :
      (k f i : ℕ) (rest : Bytes) (ts : List (Token D))
      → tokenize_loop from_chars f (i + k) rest ≡ ok ts
      → tokenize_loop from_chars (k + f) i (replicate k b'(' ++ rest) ≡ ok (open_tokens i k ts)
  tokenize_loop_parens zero f i rest ts h =
      let left : 0 + f ≡ f = omega arith in
      let right : i + 0 ≡ i = omega arith in rw left (rw right at h)
  tokenize_loop_parens (suc k) f i rest ts h =
      let left : suc k + f ≡ suc (k + f) = omega arith in
      let right : i + suc k ≡ i + 1 + k = omega arith in
      rw (
        left,
        tokenize_loop_paren (k + f) i (replicate k b'(' ++ rest),
        tokenize_loop_parens k f (i + 1) rest ts (rw right at h),
      )

-- A text that opens at least one more parenthesis than the limit, and whose rest can be split into
-- tokens, is refused with the message of the depth guard at the first parenthesis too many, however
-- many more follow.
pub parse_nested :
    (R : Doubles) (max_depth k : ℕ) (rest : Bytes) (ts : List (Token R.Double))
    → tokenize_loop R.from_chars (suc (length rest)) (max_depth + suc k) rest ≡ ok ts
    → parse R (replicate (max_depth + suc k) b'(' ++ rest) max_depth
      ≡ err (record { pos = max_depth; what = codes "expression nests too deeply" })
unfolding parse tokenize
parse_nested R max_depth k rest ts h =
    let opens : Bytes = replicate (max_depth + suc k) b'(' in
    let fuel : suc (length (opens ++ rest)) ≡ max_depth + suc k + suc (length rest) =
      omega (arith, length-append opens rest, length-replicate {A = ℕ} (max_depth + suc k) b'(') in
    let start : 0 + (max_depth + suc k) ≡ max_depth + suc k = omega arith in
    let tokens =
      tokenize_loop_parens R.from_chars (max_depth + suc k) (suc (length rest)) 0 rest ts
        (rw start h) in
    rw
      (
        fuel,
        tokens,
        open_tokens_split max_depth 0 max_depth (suc k) ts,
        parse_tokens_nested max_depth (record { pos = 0 + max_depth; kind = lparen })
            (open_tokens (0 + max_depth + 1) k ts),
      )
      (let start' : 0 + max_depth ≡ max_depth = omega arith in rw start')
