-- ===== src/Formula/Eval/Frames.antt =====
-- exercises/exprlab/expr.cpp, Eval: how deep its recursion goes.
use going_unmanaged.Prelude.{ℕ, zero, suc, ◌≤◌, ◌<◌, max, ◌≡◌, refl, arith}
use going_unmanaged.Formula.Outcome.{Outcome}
use going_unmanaged.Formula.Tree.{
  Node, NodeKind, Nodes, node, literal, name, negate, binary, call_expr, nil, cons, node_height,
  tallest_from, height_of,
}
use going_unmanaged.Formula.Grammar.Good.{Good, GoodAll, GoodKind}
use going_unmanaged.Formula.Eval.{
  Doubles, Symbols, eval, eval_kind, eval_args, eval_args_by, eval_kind_by, eval_within,
}

tallest_from-ge : {D : Type 0} (m : ℕ) (args : Nodes D) → m ≤ tallest_from m args
unfolding tallest_from
tallest_from-ge m nil = omega arith
tallest_from-ge m (cons a args) = omega (arith, tallest_from-ge (max m (node_height a)) args)

module _ (R : Doubles) (symbols : Symbols R.Double) (Q : ℕ → Type 0) where
  -- `call` does what Eval does on the nodes up to a height.
  abbrev pub Agrees : (Node R.Double → Outcome R.Double) → ℕ → Type 0
  Agrees call k = (n : Node R.Double) → Good Q n → node_height n ≤ k → call n ≡ eval R symbols n

  eval_args_by-eq :
      (call : Node R.Double → Outcome R.Double) (k m : ℕ) (args : Nodes R.Double)
      → Agrees call k
      → GoodAll Q args
      → tallest_from m args ≤ k
      → eval_args_by R symbols call args ≡ eval_args R symbols args
  unfolding eval Good tallest_from
  eval_args_by-eq call k m nil agrees g h = refl
  eval_args_by-eq call k m (cons a args) agrees g h = rw (
    agrees a g.0 (omega (arith, tallest_from-ge (max m (node_height a)) args)),
    eval_args_by-eq call k (max m (node_height a)) args agrees g.1 h,
  )

  eval_kind_by-eq :
      (call : Node R.Double → Outcome R.Double) (k pos : ℕ) (kind : NodeKind R.Double)
      → Agrees call k
      → GoodKind Q kind
      → height_of kind ≤ suc k
      → eval_kind_by R symbols call pos kind ≡ eval_kind R symbols pos kind
  unfolding eval Good height_of
  eval_kind_by-eq call k pos (literal v) agrees g h = refl
  eval_kind_by-eq call k pos (name s) agrees g h = refl
  eval_kind_by-eq call k pos (negate operand) agrees g h = rw (agrees operand g (omega arith))
  eval_kind_by-eq call k pos (binary op lhs rhs) agrees g h =
      rw (agrees lhs g.0 (omega arith), agrees rhs g.1 (omega arith))
  eval_kind_by-eq call k pos (call_expr s args) agrees g h =
      rw (eval_args_by-eq call k 0 args agrees g (omega arith))

  height_of_pos : (kind : NodeKind R.Double) → 0 < height_of kind
  unfolding height_of
  height_of_pos (literal v) = omega arith
  height_of_pos _ = omega arith

  pub eval_within-eq : (k : ℕ) → Agrees (eval_within R symbols k) k
  unfolding eval_within eval Good
  eval_within-eq zero (node pos height kind) g h = absurd (omega (arith, g.1, height_of_pos kind))
  eval_within-eq (suc k) (node pos height kind) g h =
      eval_kind_by-eq (eval_within R symbols k) k pos kind (eval_within-eq k) g.2
        (omega (arith, g.1))
