-- ===== src/Formula/Tree.antt =====
-- exercises/exprlab/expr.cpp, Formula::Node and HeightOf: the tree of a formula.
use going_unmanaged.Prelude.{ℕ, ◌+◌, Bytes, max}

-- `Nodes` is the vector of the arguments of a call.
mutual
  pub data Node (D : Type 0) : Type 0 where
    node : ℕ → ℕ → NodeKind D → Node D

  pub data NodeKind (D : Type 0) : Type 0 where
    literal : D → NodeKind D
    name : Bytes → NodeKind D
    negate : Node D → NodeKind D
    binary : Bytes → Node D → Node D → NodeKind D
    call_expr : Bytes → Nodes D → NodeKind D

  pub data Nodes (D : Type 0) : Type 0 where
    nil : Nodes D
    cons : Node D → Nodes D → Nodes D

abbrev pub node_pos : {D : Type 0} → Node D → ℕ
node_pos (node pos height kind) = pos

abbrev pub node_height : {D : Type 0} → Node D → ℕ
node_height (node pos height kind) = height

-- `push_back` on the arguments of a call.
unfoldable pub push_back : {D : Type 0} → Nodes D → Node D → Nodes D
push_back nil n = cons n nil
push_back (cons m ms) n = cons m (push_back ms n)

-- The loop of HeightOf over the arguments.
unfoldable pub tallest_from : {D : Type 0} → ℕ → Nodes D → ℕ
tallest_from tallest nil = tallest
tallest_from tallest (cons a args) = tallest_from (max tallest (node_height a)) args

-- One more than the tallest child, by the heights kept on the children.
unfoldable pub height_of : {D : Type 0} → NodeKind D → ℕ
unfolding tallest_from
height_of (literal value) = 1
height_of (name s) = 1
height_of (negate operand) = 1 + node_height operand
height_of (binary op lhs rhs) = 1 + max (node_height lhs) (node_height rhs)
height_of (call_expr s args) = 1 + tallest_from 0 args
