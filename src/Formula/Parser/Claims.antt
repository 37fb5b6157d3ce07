-- ===== src/Formula/Parser/Claims.antt =====
-- exercises/exprlab/expr.cpp, class Parser: what is true of each method that reads a tree.
use going_unmanaged.Prelude.{ℕ, ◌+◌, ◌*◌, ◌≤◌, ◌<◌, List, ◌≡◌, length}
use going_unmanaged.Formula.Outcome.{Error, Ensures}
use going_unmanaged.Formula.Tokens.{Token}
use going_unmanaged.Formula.Tree.{Node, Nodes, node_height}
use going_unmanaged.Formula.Parser.{
  State, P, comparison, additive, additive_loop, term, term_loop, unary, primary, arguments,
  arguments_loop,
}
use going_unmanaged.Formula.Grammar.{
  Comparison, Additive, Term, Unary, Primary, Arguments, ArgumentsBefore,
}
use going_unmanaged.Formula.Stream.{Stream}

-- What a method has done that read a tree from the state `s`: the tokens between derive the tree,
-- the depth is as it was, the tree is low enough and at least one token is gone.
pub record ReadsTree {D : Type 0} (Q : ℕ → Type 0) (max_depth : ℕ)
    (R : List (Token D) → List (Token D) → Node D → Type 0) (s : State D) (x : Node D × State D)
    : Type 0 where
  pub derived : R s.rest x.1.rest x.0
  pub stream : Stream Q x.1.rest
  pub depth : x.1.depth ≡ s.depth
  pub shorter : length x.1.rest < length s.rest
  pub low : node_height x.0 ≤ max_depth

-- The same for the arguments of a call, which may be none.
pub record ReadsArguments {D : Type 0} (Q : ℕ → Type 0) (s : State D) (x : Nodes D × State D)
    : Type 0 where
  pub derived : Arguments s.rest x.1.rest x.0
  pub stream : Stream Q x.1.rest
  pub depth : x.1.depth ≡ s.depth
  pub shorter : length x.1.rest ≤ length s.rest

abbrev pub Caret : (ℕ → Type 0) → Error → Type 0
Caret Q e = Q e.pos

-- The same reading under another level of the grammar.
pub relevel :
    {D : Type 0} {Q : ℕ → Type 0} {max_depth : ℕ}
    {R R' : List (Token D) → List (Token D) → Node D → Type 0} (s s₁ : State D) (n : Node D)
    → ReadsTree Q max_depth R s (n, s₁)
    → (R s.rest s₁.rest n → R' s.rest s₁.rest n)
    → ReadsTree Q max_depth R' s (n, s₁)
relevel s s₁ n r f = record {
  derived = f r.derived;
  stream = r.stream;
  depth = r.depth;
  shorter = r.shorter;
  low = r.low;
}

module _ (D : Type 0) (Q : ℕ → Type 0) (max_depth : ℕ) where
  -- What is claimed of a method that reads a tree, and of its loops, with a bound on the fuel.
  abbrev pub SoundTree :
      (List (Token D) → List (Token D) → Node D → Type 0) → ℕ → ℕ → P D (Node D) → Type 0
  SoundTree R bound f m =
      (s : State D)
      → Stream Q s.rest
      → 10 * length s.rest + bound < f
      → Ensures (ReadsTree Q max_depth R s) (Caret Q) (m s)

  abbrev pub SoundLoop :
      (List (Token D) → List (Token D) → Node D → Type 0) → ℕ → ℕ → (Node D → P D (Node D)) → Type 0
  SoundLoop R bound f m =
      (s s₁ : State D) (lhs : Node D)
      → ReadsTree Q max_depth R s (lhs, s₁)
      → 10 * length s₁.rest + bound < f
      → Ensures (ReadsTree Q max_depth R s) (Caret Q) (m lhs s₁)

  pub record AllSound (f : ℕ) : Type 0 where
    pub comparison_s : SoundTree Comparison 9 f (comparison max_depth f)
    pub additive_s : SoundTree Additive 8 f (additive max_depth f)
    pub additive_loop_s : SoundLoop Additive 7 f (additive_loop max_depth f)
    pub term_s : SoundTree Term 7 f (term max_depth f)
    pub term_loop_s : SoundLoop Term 6 f (term_loop max_depth f)
    pub unary_s : SoundTree Unary 6 f (unary max_depth f)
    pub primary_s : SoundTree Primary 5 f (primary max_depth f)
    pub arguments_s :
        (s : State D)
        → Stream Q s.rest
        → 10 * length s.rest + 11 < f
        → Ensures (ReadsArguments Q s) (Caret Q) (arguments max_depth f s)
    pub arguments_loop_s :
        (s s₁ : State D) (args : Nodes D)
        → ArgumentsBefore s.rest s₁.rest args
        → Stream Q s₁.rest
        → length s₁.rest ≤ length s.rest
        → s₁.depth ≡ s.depth
        → 10 * length s₁.rest + 10 < f
        → Ensures (ReadsArguments Q s) (Caret Q) (arguments_loop max_depth f args s₁)
