-- ===== src/Formula/Eval/Carets.antt =====
-- exercises/exprlab/expr.cpp, Eval: where its errors point.
use going_unmanaged.Prelude.{
  ℕ, List, Bytes, Bool, true, false, if◌then◌else◌, Option-cases, inl, inr, codes, bytes_eq,
}
use going_unmanaged.Formula.Outcome.{Outcome, Ensures, returns, refuses, Ensures-bind}
use going_unmanaged.Formula.Tree.{
  Node, NodeKind, Nodes, node, literal, name, negate, binary, call_expr, nil, cons,
}
use going_unmanaged.Formula.Grammar.Good.{Good, GoodAll, GoodKind}
use going_unmanaged.Formula.Eval.{
  Doubles, Symbols, named, called, apply_op, eval, eval_kind, eval_args,
}

module _ (R : Doubles) (symbols : Symbols R.Double) (Q : ℕ → Type 0) where
  -- A value of any kind, or an error at a position with `Q`.
  abbrev pub Points : {A : Type 0} → Outcome A → Type 0
  Points {A} = Ensures {A = A} (λ v. Unit {0}) (λ e. Q e.pos)

  Points-if :
      (b : Bool) {x y : Outcome R.Double} → Points x → Points y → Points (if b then x else y)
  Points-if true hx hy = hx
  Points-if false hx hy = hy

  apply_op-Points : (pos : ℕ) (op : Bytes) (a b : R.Double) → Q pos → Points (apply_op R pos op a b)
  unfolding apply_op
  apply_op-Points pos op a b q = Points-if (bytes_eq op (codes "+")) (returns tt) (
      Points-if (bytes_eq op (codes "-")) (returns tt) (
        Points-if (bytes_eq op (codes "*")) (returns tt) (
          Points-if (bytes_eq op (codes "/")) (Points-if (R.eq b R.zero) (refuses q) (returns tt)) (
            Points-if (bytes_eq op (codes "<")) (returns tt) (
              Points-if (bytes_eq op (codes ">")) (returns tt) (
                Points-if (bytes_eq op (codes "<=")) (returns tt) (
                  Points-if (bytes_eq op (codes ">=")) (returns tt)
                    (Points-if (bytes_eq op (codes "==")) (returns tt) (returns tt)))))))))

  named-Points : (pos : ℕ) (s : Bytes) → Q pos → Points (named R symbols pos s)
  unfolding named
  named-Points pos s q = elim (Option-cases (symbols.value s)) [
    | inl e ↦ rw (e, named) (refuses q)
    | inr (v, e) ↦ rw (e, named) (returns tt)
  ]

  called-Points :
      (pos : ℕ) (s : Bytes) (args : List R.Double) → Q pos → Points (called R symbols pos s args)
  unfolding called
  called-Points pos s args q = elim (Option-cases (symbols.call s args)) [
    | inl e ↦ rw (e, called) (refuses q)
    | inr (v, e) ↦ rw (e, called) (returns tt)
  ]

  mutual
    unfolding eval Good

    pub eval-Points : (n : Node R.Double) → Good Q n → Points (eval R symbols n)
    eval-Points (node pos height kind) g = eval_kind-Points kind pos g.0 g.2

    eval_kind-Points :
        (kind : NodeKind R.Double) (pos : ℕ)
        → Q pos
        → GoodKind Q kind
        → Points (eval_kind R symbols pos kind)
    eval_kind-Points (literal v) pos q g = returns tt
    eval_kind-Points (name s) pos q g = named-Points pos s q
    eval_kind-Points (negate operand) pos q g =
        Ensures-bind (eval-Points operand g) λ v _. returns tt
    eval_kind-Points (binary op lhs rhs) pos q g =
        Ensures-bind (eval-Points lhs g.0)
          λ a _. Ensures-bind (eval-Points rhs g.1) λ b _. apply_op-Points pos op a b q
    eval_kind-Points (call_expr s args) pos q g =
        Ensures-bind (eval_args-Points args g) λ vs _. called-Points pos s vs q

    eval_args-Points : (args : Nodes R.Double) → GoodAll Q args → Points (eval_args R symbols args)
    eval_args-Points nil g = returns tt
    eval_args-Points (cons a args) g =
        Ensures-bind (eval-Points a g.0)
          λ v _. Ensures-bind (eval_args-Points args g.1) λ vs _. returns tt
