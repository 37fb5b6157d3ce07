-- ===== src/Formula/Tokens.antt =====
-- exercises/exprlab/expr.cpp, the tokens and the classes of bytes. A byte is a number below 256:
-- the comparisons of the source are with ASCII bounds, so a signed `char` gives the same answers.
use going_unmanaged.Prelude.{ℕ, Bool, true, false, ◌&&◌, ◌||◌, leb, ◌==◌, Bytes}

-- `number` holds a double, a parameter of the model. A `compare` is "<=", ">=", "==" or "!=".
pub data Kind (D : Type 0) : Type 0 where
  number : D → Kind D
  ident : Bytes → Kind D
  op : ℕ → Kind D
  compare : Bytes → Kind D
  lparen rparen end : Kind D

pub record Token (D : Type 0) : Type 0 where
  pub pos : ℕ
  pub kind : Kind D

abbrev pub is_ident_start : ℕ → Bool
is_ident_start c = leb b'a' c && leb c b'z' || leb b'A' c && leb c b'Z' || c == b'_'

abbrev pub is_digit : ℕ → Bool
is_digit c = leb b'0' c && leb c b'9'

abbrev pub is_ident_char : ℕ → Bool
is_ident_char c = is_ident_start c || leb b'0' c && leb c b'9' || c == b'.'

-- The tests of a token's kind (`std::holds_alternative`).
abbrev pub is_end : {D : Type 0} → Kind D → Bool
is_end end = true
is_end _ = false

abbrev pub is_lparen : {D : Type 0} → Kind D → Bool
is_lparen lparen = true
is_lparen _ = false

abbrev pub is_rparen : {D : Type 0} → Kind D → Bool
is_rparen rparen = true
is_rparen _ = false

abbrev pub is_op : {D : Type 0} → ℕ → Kind D → Bool
is_op c (op d) = d == c
is_op c _ = false
