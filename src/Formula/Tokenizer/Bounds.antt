-- ===== src/Formula/Tokenizer/Bounds.antt =====
-- exercises/exprlab/expr.cpp, Tokenize: where its tokens and its errors stand.
use going_unmanaged.Prelude.{
  ℕ, zero, suc, ◌+◌, ◌≤◌, ◌<◌, List, [], ◌∷◌, ◌≡◌, refl, inl, inr, Option, none, some, true, false,
  ◌&&◌, ◌||◌, leb, ltb, ◌==◌, arith, Bytes, length, drop, take_while, length-take_while-le,
  length-drop, Bool-cases,
}
use going_unmanaged.Formula.Outcome.{Outcome, Error, Ensures, returns, refuses, Ensures-bind}
use going_unmanaged.Formula.Tokens.{Token, is_end, is_digit, is_ident_start, is_ident_char}
use going_unmanaged.Formula.Tokenizer.{
  FromChars, Lexeme, gap, push, stop, number_end, starts_number, starts_compare, is_space,
  is_operator, next_round, lex_single, lex_one, tokenize_loop, tokenize,
}
use going_unmanaged.Formula.Stream.{Stream}

-- A round at the position `i`, with `n` bytes left: a pushed token stands at `i`, is not `End` and
-- takes at least one byte and no more than are left; an error points at `i`.
data IsAt {D : Type 0} (i n : ℕ) : Lexeme D → Type 0 where
  at_gap : IsAt i n gap
  at_push :
      {t : Token D} {k : ℕ}
      → t.pos ≡ i
      → is_end t.kind ≡ false
      → 0 < k
      → k ≤ n
      → IsAt i n (push t k)
  at_stop : {e : Error} → e.pos ≡ i → IsAt i n (stop e)

lex_single-IsAt : (D : Type 0) (i c n : ℕ) → 0 < n → IsAt {D = D} i n (lex_single i c)
unfolding lex_single
lex_single-IsAt D i c n h = elim (Bool-cases (is_operator c)) [
  | inl y ↦ rw y (at_push refl refl (omega arith) h)
  | inr no_op ↦ elim (Bool-cases (c == b'(')) [
    | inl y ↦ rw (no_op, y) (at_push refl refl (omega arith) h)
    | inr no_open ↦ elim (Bool-cases (c == b')')) [
      | inl y ↦ rw (no_op, no_open, y) (at_push refl refl (omega arith) h)
      | inr no_close ↦ elim (Bool-cases (leb 0x20 c && ltb c 0x7f)) [
        | inl y ↦ rw (no_op, no_open, no_close, y) (at_stop refl)
        | inr n ↦ rw (no_op, no_open, no_close, n) (at_stop refl)
      ]
    ]
  ]
]

-- The run of a number has a byte, whether it starts with a digit or with a dot.
number_run_pos :
    (c : ℕ) (rest : Bytes)
    → starts_number c rest ≡ true
    → 0 < length (take_while (λ d. is_digit d || d == b'.') (c ∷ rest))
unfolding take_while
number_run_pos c [] h = ground arith
number_run_pos c (d ∷ rest) h = ground arith

name_run_pos :
    (c : ℕ) (rest : Bytes)
    → is_ident_start c ≡ true
    → 0 < length (take_while is_ident_char (c ∷ rest))
unfolding take_while
name_run_pos c rest h = rw h (omega arith)

starts_compare-length :
    (c : ℕ) (rest : Bytes) → starts_compare c rest ≡ true → 2 ≤ suc (length rest)
starts_compare-length c [] h = cc
starts_compare-length c (d ∷ rest) h = omega arith

module _ {D : Type 0} (from_chars : Bytes → FromChars D) where
  number_end-IsAt :
      (i n : ℕ) (run : Bytes) (o : Option (ℕ × D))
      → 0 < length run
      → length run ≤ n
      → IsAt i n (number_end from_chars i run o)
  number_end-IsAt i n run none p le = at_stop refl
  number_end-IsAt i n run (some (k, v)) p le = elim (Bool-cases (k == length run)) [
    | inl y ↦ rw y (at_push refl refl p le)
    | inr n ↦ rw n (at_stop refl)
  ]

  lex_one-IsAt : (i c : ℕ) (rest : Bytes) → IsAt i (suc (length rest)) (lex_one from_chars i c rest)
  unfolding lex_one
  lex_one-IsAt i c rest = elim (Bool-cases (is_space c)) [
    | inl y ↦ rw y at_gap
    | inr s ↦ elim (Bool-cases (starts_number c rest)) [
      | inl y ↦
          rw (s, y)
            (number_end-IsAt i _ _ _ (number_run_pos c rest y) (length-take_while-le _ (c ∷ rest)))
      | inr n ↦ elim (Bool-cases (is_ident_start c)) [
        | inl y ↦
            rw (s, n, y)
              (at_push refl refl (name_run_pos c rest y) (length-take_while-le _ (c ∷ rest)))
        | inr d ↦ elim (Bool-cases (starts_compare c rest)) [
          | inl y ↦
              rw (s, n, d, y) (at_push refl refl (omega arith) (starts_compare-length c rest y))
          | inr m ↦ rw (s, n, d, m) (lex_single-IsAt D i c _ (omega arith))
        ]
      ]
    ]
  ]

  -- The tokens or the error of a text that ends at `size`.
  abbrev SoundTokens : ℕ → Outcome (List (Token D)) → Type 0
  SoundTokens size = Ensures (Stream (λ p. p ≤ size)) (λ e. e.pos < size)

  next_round_sound :
      (rest_of : ℕ → Bytes → Outcome (List (Token D))) (i c : ℕ) (rest : Bytes) (size : ℕ)
      (l : Lexeme D)
      → ((j : ℕ) (text : Bytes)
          → length text ≤ length rest
          → j + length text ≡ size
          → SoundTokens size (rest_of j text))
      → i + suc (length rest) ≡ size
      → IsAt i (suc (length rest)) l
      → SoundTokens size (next_round from_chars rest_of i c rest l)
  next_round_sound rest_of i c rest size gap rec e at = rec (i + 1) rest (omega arith) (omega arith)
  next_round_sound rest_of i c rest size (push t k) rec e (at_push p n_end pos le) =
      let left = length-drop k (c ∷ rest) in
      Ensures-bind (rec (i + k) (drop k (c ∷ rest)) (omega (arith, left)) (omega (arith, left)))
        λ ts st. returns (omega (arith, p), inr (n_end, st))
  next_round_sound rest_of i c rest size (stop er) rec e (at_stop p) = refuses (omega (arith, p))

  tokenize_loop_sound :
      (f i : ℕ) (text : Bytes) (size : ℕ)
      → length text < f
      → i + length text ≡ size
      → SoundTokens size (tokenize_loop from_chars f i text)
  unfolding tokenize_loop
  tokenize_loop_sound zero i text size h e = absurd (omega arith)
  tokenize_loop_sound (suc f) i [] size h e = returns (omega arith, inl (refl, refl))
  tokenize_loop_sound (suc f) i (c ∷ rest) size h e =
      next_round_sound (tokenize_loop from_chars f) i c rest size (lex_one from_chars i c rest)
        (λ j text le e'. tokenize_loop_sound f j text size (omega arith) e') e
        (lex_one-IsAt i c rest)

  -- Tokenize gives a list of tokens that stand within the text, `End` last and only last, or an
  -- error that points at a byte of the text.
  pub tokenize_sound :
      (text : Bytes)
      → Ensures
          (Stream (λ p. p ≤ length text))
          (λ e. e.pos < length text)
          (tokenize from_chars text)
  unfolding tokenize
  tokenize_sound text =
      tokenize_loop_sound (suc (length text)) 0 text (length text) (omega arith) (omega arith)
