-- ===== src/Formula/Parser.antt =====
-- exercises/exprlab/expr.cpp, class Parser: recursive descent, one function for each level of
-- precedence. The state is what is left of `tokens_` from `index_` on, and `depth_`; `max_depth` is
-- a parameter (a negative `int` refuses everything, as 0 does). Every call of a method spends a
-- unit of fuel.
pub mod Claims
pub mod Infix
pub mod Prefix
pub mod Arguments
pub mod Sound
use going_unmanaged.Prelude.{
  ℕ, zero, suc, ◌+◌, ◌-◌, ◌*◌, List, [], ◌∷◌, Option, none, some, Bool, true, false, ◌||◌,
  if◌then◌else◌, ltb, ◌==◌, Bytes, codes, length,
}
use going_unmanaged.Formula.Outcome.{Outcome, Error, ok, err, fault, out_of_fuel}
use going_unmanaged.Formula.Outcome
use going_unmanaged.Formula.Tokens.{
  Kind, Token, number, ident, op, compare, lparen, is_end, is_lparen, is_rparen, is_op,
}
use going_unmanaged.Formula.Tree.{
  Node, NodeKind, Nodes, node, literal, name, negate, binary, call_expr, nil, push_back, height_of,
}

pub record State (D : Type 0) : Type 0 where
  pub rest : List (Token D)
  pub depth : ℕ

abbrev pub P : Type 0 → Type 0 → Type 0
P D A = State D → Outcome (A × State D)

module _ {D : Type 0} where
  abbrev pub pure : {A : Type 0} → A → P D A
  pure a s = ok (a, s)

  abbrev pub refuse : {A : Type 0} → ℕ → Bytes → P D A
  refuse pos what s = err (record { pos = pos; what = what })

  infixl 1 ◌>>=◌ ◌>>◌
  abbrev pub ◌>>=◌ : {A B : Type 0} → P D A → (A → P D B) → P D B
  p >>= f = λ s. Outcome.◌>>=◌ (p s) λ (a, s'). f a s'

  abbrev pub ◌>>◌ : {B : Type 0} → P D (Unit {0}) → P D B → P D B
  p >> q = p >>= λ _. q

  abbrev pub run : {A : Type 0} → State D → P D A → Outcome (A × State D)
  run s p = p s

  -- `tokens_[index_]`: a fault behind the last token.
  unfoldable pub peek : P D (Token D)
  peek s = elim s.rest [ [] ↦ fault | t ∷ ts ↦ ok (t, s) ]

  unfoldable pub take : P D (Token D)
  take s = elim s.rest [ [] ↦ fault | t ∷ ts ↦ ok (t, record s { rest = ts }) ]

  unfoldable pub take_op : ℕ → P D Bool
  unfolding peek take
  take_op c = do t ← peek; if is_op c t.kind then (do _ ← take; pure true) else pure false

  -- `if (TakeOp(a)) c = a; else if (TakeOp(b)) c = b; else break;`
  unfoldable pub take_either : ℕ → ℕ → P D (Option ℕ)
  unfolding take_op
  take_either a b = do
    first ← take_op a
    if first then pure (some a) else (do second ← take_op b; pure (if second then some b else none))

  -- The operator of a comparison, or none (`op.empty()`).
  abbrev pub comparison_op : Kind D → Option Bytes
  comparison_op (compare s) = some s
  comparison_op (op c) = if c == b'<' || c == b'>' then some (c ∷ []) else none
  comparison_op _ = none

  -- `if (!std::holds_alternative<RParen>(Peek().kind)) return Error{...}; Take();`
  unfoldable pub expect_rparen : P D (Unit {0})
  unfolding peek take
  expect_rparen = do
    t ← peek
    if is_rparen t.kind then (do _ ← take; pure tt) else refuse t.pos (codes "expected ')'")

  -- The constructor of `Depth` adds one to the depth, its destructor takes one off.
  unfoldable pub enter : P D ℕ
  enter s = ok (suc s.depth, record s { depth = suc s.depth })

  unfoldable pub leave : P D (Unit {0})
  leave s = ok (tt, record s { depth = s.depth - 1 })

  -- The fuel for a list of tokens: each call below another either takes a token or is one of the
  -- eight from Comparison to Primary.
  abbrev pub fuel_for : List (Token D) → ℕ
  fuel_for tokens = 10 * length tokens + 10

module _ {D : Type 0} (max_depth : ℕ) where
  unfoldable pub build : ℕ → NodeKind D → P D (Node D)
  build pos kind =
      if ltb max_depth (height_of kind)
      then refuse pos (codes "expression is too deep to evaluate")
      else pure (node pos (height_of kind) kind)

  -- Primary behind a name, at the token after it: a name, or a call with its arguments.
  unfoldable pub name_or_call : P D (Nodes D) → ℕ → Bytes → Bool → P D (Node D)
  unfolding take expect_rparen build
  name_or_call arguments pos s false = build pos (name s)
  name_or_call arguments pos s true = do
    _ ← take
    args ← arguments
    expect_rparen
    build pos (call_expr s args)

  -- Primary behind its first token, of this kind, with the methods that it calls.
  unfoldable pub primary_of : P D (Node D) → P D (Nodes D) → ℕ → Kind D → P D (Node D)
  unfolding peek expect_rparen name_or_call
  primary_of comparison arguments pos (number value) = build pos (literal value)
  primary_of comparison arguments pos (ident s) = do
    next ← peek
    name_or_call arguments pos s (is_lparen next.kind)
  primary_of comparison arguments pos lparen = do inner ← comparison; expect_rparen; pure inner
  primary_of comparison arguments pos _ = refuse pos (codes "expected a value")

  unfoldable mutual
    pub comparison : ℕ → P D (Node D)
    comparison zero s = out_of_fuel
    comparison (suc f) s = run s do
      lhs ← additive f
      t ← peek
      elim (comparison_op t.kind) [
        | none ↦ pure lhs
        | some o ↦ do at ← take; rhs ← additive f; build at.pos (binary o lhs rhs)
      ]

    pub additive : ℕ → P D (Node D)
    additive zero s = out_of_fuel
    additive (suc f) s = run s do lhs ← term f; additive_loop f lhs

    pub additive_loop : ℕ → Node D → P D (Node D)
    additive_loop zero lhs s = out_of_fuel
    additive_loop (suc f) lhs s = run s do
      t ← peek
      o ← take_either b'+' b'-'
      elim o [
        | none ↦ pure lhs
        | some c ↦ do rhs ← term f; sum ← build t.pos (binary (c ∷ []) lhs rhs); additive_loop f sum
      ]

    pub term : ℕ → P D (Node D)
    term zero s = out_of_fuel
    term (suc f) s = run s do lhs ← unary f; term_loop f lhs

    pub term_loop : ℕ → Node D → P D (Node D)
    term_loop zero lhs s = out_of_fuel
    term_loop (suc f) lhs s = run s do
      t ← peek
      o ← take_either b'*' b'/'
      elim o [
        | none ↦ pure lhs
        | some c ↦ do
          rhs ← unary f
          product ← build t.pos (binary (c ∷ []) lhs rhs)
          term_loop f product
      ]

    pub unary : ℕ → P D (Node D)
    unary zero s = out_of_fuel
    unary (suc f) s = run s do
      depth ← enter
      t ← peek
      n ← if ltb max_depth depth then refuse t.pos (codes "expression nests too deeply") else do
        minus ← take_op b'-'
        elim minus [ true ↦ do operand ← unary f; build t.pos (negate operand) | false ↦ primary f ]
      leave
      pure n

    pub primary : ℕ → P D (Node D)
    primary zero s = out_of_fuel
    primary (suc f) s = run s do t ← take; primary_of (comparison f) (arguments f) t.pos t.kind

    -- The arguments of a call, up to the `)` that is then expected.
    pub arguments : ℕ → P D (Nodes D)
    arguments zero s = out_of_fuel
    arguments (suc f) s =
        run s
          do t ← peek; elim (is_rparen t.kind) [ true ↦ pure nil | false ↦ arguments_loop f nil ]

    pub arguments_loop : ℕ → Nodes D → P D (Nodes D)
    arguments_loop zero args s = out_of_fuel
    arguments_loop (suc f) args s = run s do
      arg ← comparison f
      comma ← take_op b','
      elim comma [
        | true ↦ arguments_loop f (push_back args arg)
        | false ↦ pure (push_back args arg)
      ]

  -- Parser(tokens, max_depth).Run()
  unfoldable pub parse_tokens : List (Token D) → Outcome (Node D)
  unfolding comparison
  parse_tokens tokens =
      Outcome.◌>>=◌
        (run (record { rest = tokens; depth = 0 })
          do
            tree ← comparison (fuel_for tokens)
            t ← peek
            if is_end t.kind
                then pure tree
                else refuse t.pos (codes "unexpected text after the expression"))
        λ (tree, s). ok tree
