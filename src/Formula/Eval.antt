-- ===== src/Formula/Eval.antt =====
-- exercises/exprlab/expr.cpp, Eval, Formula and the free Evaluate. The floating-point operations and
-- the provider of names (`ISymbols`) are parameters.
pub mod Frames
pub mod Carets
use going_unmanaged.Prelude.{
  ℕ, zero, suc, ◌+◌, List, [], ◌∷◌, ◌++◌, Option, none, some, Bool, true, false, not, if◌then◌else◌,
  Bytes, codes, bytes_eq, to_string, length, take_while,
}
use going_unmanaged.Formula.Outcome.{Outcome, Error, ok, err, out_of_fuel, ◌>>=◌}
use going_unmanaged.Formula.Tree.{
  Node, NodeKind, Nodes, node, literal, name, negate, binary, call_expr, nil, cons, push_back,
  height_of,
}
use going_unmanaged.Formula.Tokenizer.{FromChars, tokenize}
use going_unmanaged.Formula.Parser.{
  parse_tokens, enter, leave, peek, take_op, take_either, primary_of,
}

-- A type of doubles with the operations that the source uses.
pub record Doubles : Type 1 where
  pub Double : Type 0
  pub zero : Double
  pub one : Double
  pub neg : Double → Double
  pub add : Double → Double → Double
  pub sub : Double → Double → Double
  pub mul : Double → Double → Double
  pub div : Double → Double → Double
  pub lt : Double → Double → Bool
  pub le : Double → Double → Bool
  pub eq : Double → Double → Bool
  pub from_chars : Bytes → FromChars Double

-- ISymbols.
pub record Symbols (D : Type 0) : Type 0 where
  pub value : Bytes → Option D
  pub call : Bytes → List D → Option D

pub record Formula (D : Type 0) : Type 0 where
  pub root : Option (Node D)

abbrev pub fails : {A : Type 0} → ℕ → Bytes → Outcome A
fails pos what = err (record { pos = pos; what = what })

module _ (R : Doubles) where
  open R use {Double}

  abbrev pub from_bool : Bool → Double
  from_bool b = if b then R.one else R.zero

  -- The operators of Node::Binary, compared in the source's order.
  unfoldable pub apply_op : ℕ → Bytes → Double → Double → Outcome Double
  unfolding bytes_eq
  apply_op pos op a b =
      if bytes_eq op (codes "+")
      then ok (R.add a b)
      else if bytes_eq op (codes "-")
      then ok (R.sub a b)
      else if bytes_eq op (codes "*")
      then ok (R.mul a b)
      else if bytes_eq op (codes "/")
      then (if R.eq b R.zero then fails pos (codes "division by zero") else ok (R.div a b))
      else if bytes_eq op (codes "<")
      then ok (from_bool (R.lt a b))
      else if bytes_eq op (codes ">")
      then ok (from_bool (R.lt b a))
      else if bytes_eq op (codes "<=")
      then ok (from_bool (R.le a b))
      else if bytes_eq op (codes ">=")
      then ok (from_bool (R.le b a))
      else if bytes_eq op (codes "==")
      then ok (from_bool (R.eq a b))
      else ok (from_bool (not (R.eq a b)))

  module _ (symbols : Symbols Double) where
    unfoldable pub named : ℕ → Bytes → Outcome Double
    named pos s = elim (symbols.value s) [
      | some v ↦ ok v
      | none ↦ fails pos (codes "unknown name '" ++ (s ++ codes "'"))
    ]

    unfoldable pub called : ℕ → Bytes → List Double → Outcome Double
    unfolding to_string
    called pos s args = elim (symbols.call s args) [
      | some v ↦ ok v
      | none ↦ fails pos (
          codes "unknown function '"
          ++ (s ++ (codes "' for " ++ (to_string (length args) ++ codes " argument(s)"))))
    ]

    unfoldable mutual
      unfolding named called apply_op

      pub eval : Node Double → Outcome Double
      eval (node pos height kind) = eval_kind pos kind

      pub eval_kind : ℕ → NodeKind Double → Outcome Double
      eval_kind pos (literal v) = ok v
      eval_kind pos (name s) = named pos s
      eval_kind pos (negate operand) = do v ← eval operand; ok (R.neg v)
      eval_kind pos (binary op lhs rhs) = do a ← eval lhs; b ← eval rhs; apply_op pos op a b
      eval_kind pos (call_expr s args) = do vs ← eval_args args; called pos s vs

      pub eval_args : Nodes Double → Outcome (List Double)
      eval_args nil = ok []
      eval_args (cons a args) = do v ← eval a; vs ← eval_args args; ok (v ∷ vs)

    -- Eval with at most so many calls of itself on the stack: `out_of_fuel` is the stack overflow that
    -- the limit on the height is there to prevent.
    abbrev eval_args_by : (Node Double → Outcome Double) → Nodes Double → Outcome (List Double)
    eval_args_by call nil = ok []
    eval_args_by call (cons a args) = do v ← call a; vs ← eval_args_by call args; ok (v ∷ vs)

    abbrev eval_kind_by : (Node Double → Outcome Double) → ℕ → NodeKind Double → Outcome Double
    eval_kind_by call pos (literal v) = ok v
    eval_kind_by call pos (name s) = named pos s
    eval_kind_by call pos (negate operand) = do v ← call operand; ok (R.neg v)
    eval_kind_by call pos (binary op lhs rhs) = do a ← call lhs; b ← call rhs; apply_op pos op a b
    eval_kind_by call pos (call_expr s args) = do vs ← eval_args_by call args; called pos s vs

    unfoldable pub eval_within : ℕ → Node Double → Outcome Double
    eval_within zero n = out_of_fuel
    eval_within (suc frames) (node pos height kind) = eval_kind_by (eval_within frames) pos kind

    -- Formula::Evaluate; a moved-from formula has no tree.
    unfoldable pub evaluate_formula : Formula Double → Outcome Double
    unfolding eval
    evaluate_formula f = elim f.root [
      | none ↦ fails 0 (codes "the formula was moved from")
      | some tree ↦ eval tree
    ]

  unfoldable pub parse : Bytes → ℕ → Outcome (Formula Double)
  unfolding tokenize take_while parse_tokens enter leave peek take_op take_either primary_of
      height_of push_back
  parse text max_depth = do
    tokens ← tokenize R.from_chars text
    tree ← parse_tokens max_depth tokens
    ok (record { root = some tree })

  unfoldable pub evaluate : Bytes → Symbols Double → ℕ → Outcome Double
  unfolding parse evaluate_formula
  evaluate text symbols max_depth = do
    parsed ← parse text max_depth
    evaluate_formula symbols parsed

-- The move constructor and the move assignment, which are those of `root_`: the new formula has the
-- tree, the old one none.
unfoldable pub move_formula : {D : Type 0} → Formula D → Formula D × Formula D
move_formula f = (f, record { root = none })
