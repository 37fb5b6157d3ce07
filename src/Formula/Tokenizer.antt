-- ===== src/Formula/Tokenizer.antt =====
-- exercises/exprlab/expr.cpp, ParseNumber, ScanNumber and Tokenize. The index `i` into the text is
-- kept with the text from `i` on. The conversion of digits to a double, `std::from_chars`, is a
-- parameter: the model states nothing about floating point.
pub mod Bounds
use going_unmanaged.Prelude.{
  ℕ, zero, suc, ◌+◌, List, [], ◌∷◌, ◌++◌, Option, none, some, Bool, false, ◌&&◌, ◌||◌,
  if◌then◌else◌, leb, ltb, ◌==◌, Bytes, codes, hex_byte, length, drop, take_while,
}
use going_unmanaged.Formula.Outcome.{Outcome, Error, ok, err, out_of_fuel, ◌>>=◌}
use going_unmanaged.Formula.Tokens.{
  Token, number, ident, op, compare, lparen, rparen, end, is_ident_start, is_ident_char, is_digit,
}

-- What `std::from_chars(first, last, value)` gives: whether `ec` is `errc{}`, how many bytes from
-- `first` on the returned pointer is, and the value.
pub record FromChars (D : Type 0) : Type 0 where
  pub succeeded : Bool
  pub ptr : ℕ
  pub value : D

-- What one round of the loop of Tokenize does at a byte: skip it, push a token that took some
-- bytes, or return an error.
pub data Lexeme (D : Type 0) : Type 0 where
  gap : Lexeme D
  push : Token D → ℕ → Lexeme D
  stop : Error → Lexeme D

module _ {D : Type 0} (from_chars : Bytes → FromChars D) where
  -- The end of the number and its value, or nothing (`nullptr`).
  unfoldable pub parse_number : Bytes → Option (ℕ × D)
  parse_number s =
      if (from_chars s).succeeded then some ((from_chars s).ptr, (from_chars s).value) else none

  abbrev number_end : ℕ → Bytes → Option (ℕ × D) → Lexeme D
  number_end i run none = stop (record { pos = i; what = codes "not a number" })
  number_end i run (some (n, value)) =
      if n == length run
      then push (record { pos = i; kind = number value }) (length run)
      else stop (record { pos = i; what = codes "not a number" })

  -- The longest run of digits and dots, which must parse whole. The `End` token by which ScanNumber
  -- tells its caller of a failure is the caller's error here.
  unfoldable pub scan_number : ℕ → Bytes → Lexeme D
  unfolding parse_number
  scan_number i text =
      let run = take_while (λ c. is_digit c || c == b'.') text in
      number_end i run (parse_number run)

abbrev pub starts_number : ℕ → Bytes → Bool
starts_number c [] = is_digit c
starts_number c (d ∷ rest) = is_digit c || (c == b'.') && is_digit d

abbrev pub starts_compare : ℕ → Bytes → Bool
starts_compare c [] = false
starts_compare c (d ∷ rest) = (d == b'=') && (c == b'<' || c == b'>' || c == b'=' || c == b'!')

abbrev pub is_space : ℕ → Bool
is_space c = c == b' ' || c == 9 || c == 13 || c == 10

abbrev pub is_operator : ℕ → Bool
is_operator c =
    c == b'+' || c == b'-' || c == b'*' || c == b'/' || c == b'<' || c == b'>' || c == b','

-- The last `switch`: a byte that is a token by itself, or one that is nothing.
unfoldable pub lex_single : {D : Type 0} → ℕ → ℕ → Lexeme D
unfolding hex_byte
lex_single i c =
    if is_operator c
    then push (record { pos = i; kind = op c }) 1
    else if c == b'('
    then push (record { pos = i; kind = lparen }) 1
    else if c == b')'
    then push (record { pos = i; kind = rparen }) 1
    else if leb 0x20 c && ltb c 0x7f
    then stop (record { pos = i; what = codes "unexpected character '" ++ c ∷ 39 ∷ [] })
    else stop (record { pos = i; what = codes "unexpected byte 0x" ++ hex_byte c })

module _ {D : Type 0} (from_chars : Bytes → FromChars D) where
  -- The body of the loop of Tokenize at the byte `c` at `i`, with the bytes behind it.
  unfoldable pub lex_one : ℕ → ℕ → Bytes → Lexeme D
  unfolding scan_number lex_single
  lex_one i c rest =
      let name = take_while is_ident_char (c ∷ rest) in
      if is_space c
      then gap
      else if starts_number c rest
      then scan_number from_chars i (c ∷ rest)
      else if is_ident_start c
      then push (record { pos = i; kind = ident name }) (length name)
      else if starts_compare c rest
      then push (record { pos = i; kind = compare (c ∷ b'=' ∷ []) }) 2
      else lex_single i c

  -- What is done with the result of a round: `rest_of i' text'` is the loop from there on. Tokens are
  -- pushed in front of those of the later rounds, which leaves them in the order of the source's
  -- vector.
  abbrev pub next_round :
      (ℕ → Bytes → Outcome (List (Token D))) → ℕ → ℕ → Bytes → Lexeme D → Outcome (List (Token D))
  next_round rest_of i c rest gap = rest_of (i + 1) rest
  next_round rest_of i c rest (push t n) = do
    tokens ← rest_of (i + n) (drop n (c ∷ rest))
    ok (t ∷ tokens)
  next_round rest_of i c rest (stop e) = err e

  -- The loop of Tokenize, each round of which spends a unit of fuel.
  unfoldable pub tokenize_loop : ℕ → ℕ → Bytes → Outcome (List (Token D))
  unfolding lex_one
  tokenize_loop zero i text = out_of_fuel
  tokenize_loop (suc f) i [] = ok (record { pos = i; kind = end } ∷ [])
  tokenize_loop (suc f) i (c ∷ rest) = next_round (tokenize_loop f) i c rest (lex_one i c rest)

  unfoldable pub tokenize : Bytes → Outcome (List (Token D))
  unfolding tokenize_loop
  tokenize text = tokenize_loop (suc (length text)) 0 text
