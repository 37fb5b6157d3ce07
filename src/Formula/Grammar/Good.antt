-- ===== src/Formula/Grammar/Good.antt =====
-- exercises/exprlab/expr.cpp, the trees that the grammar derives: the height kept on each node is
-- that of HeightOf, and each node stands at the position of a token.
use going_unmanaged.Prelude.{ℕ, List, [], ◌∷◌, ◌≡◌, refl, subst, sym, inl, inr}
use going_unmanaged.Formula.Tokens.{Token}
use going_unmanaged.Formula.Tree.{
  Node, NodeKind, Nodes, node, literal, name, negate, binary, call_expr, nil, cons, push_back,
  height_of,
}
use going_unmanaged.Formula.Stream.{Stream}
use going_unmanaged.Formula.Grammar.{
  built, Comparison, Additive, Term, Unary, Primary, Arguments, ArgumentsBefore, of_additive,
  compares, of_term, adds, of_unary, multiplies, of_primary, minus, value, named, call, group,
  no_arguments, some_arguments, none_yet, one_more,
}

unfoldable mutual
  pub Good : {D : Type 0} → (ℕ → Type 0) → Node D → Type 0
  Good Q (node pos height kind) = Q pos × (height ≡ height_of kind) × GoodKind Q kind

  pub GoodKind : {D : Type 0} → (ℕ → Type 0) → NodeKind D → Type 0
  GoodKind Q (literal v) = Unit
  GoodKind Q (name s) = Unit
  GoodKind Q (negate operand) = Good Q operand
  GoodKind Q (binary op lhs rhs) = Good Q lhs × Good Q rhs
  GoodKind Q (call_expr s args) = GoodAll Q args

  pub GoodAll : {D : Type 0} → (ℕ → Type 0) → Nodes D → Type 0
  GoodAll Q nil = Unit
  GoodAll Q (cons a args) = Good Q a × GoodAll Q args

GoodAll-push_back :
    {D : Type 0} (Q : ℕ → Type 0) (args : Nodes D) (n : Node D)
    → GoodAll Q args
    → Good Q n
    → GoodAll Q (push_back args n)
unfolding Good push_back
GoodAll-push_back Q nil n g h = (h, tt)
GoodAll-push_back Q (cons a args) n g h = (g.0, GoodAll-push_back Q args n g.1 h)

abbrev AllAt : {D : Type 0} → (ℕ → Type 0) → List (Token D) → Type 0
AllAt Q [] = Unit
AllAt Q (t ∷ ts) = Q t.pos × AllAt Q ts

pub Stream-AllAt : {D : Type 0} (Q : ℕ → Type 0) (ts : List (Token D)) → Stream Q ts → AllAt Q ts
Stream-AllAt Q [] h = tt
Stream-AllAt Q (t ∷ ts) (q, inl (e, nothing)) = (q, subst (AllAt Q) (sym nothing) tt)
Stream-AllAt Q (t ∷ ts) (q, inr (n, h)) = (q, Stream-AllAt Q ts h)

built-Good :
    {D : Type 0} (Q : ℕ → Type 0) (pos : ℕ) (kind : NodeKind D) (n : Node D)
    → n ≡ built pos kind
    → Q pos
    → GoodKind Q kind
    → Good Q n
unfolding Good
built-Good Q pos kind n e q g = subst (Good Q) (sym e) (q, refl, g)

mutual
  unfolding Good

  Comparison-Good :
      {D : Type 0} (Q : ℕ → Type 0) {s t : List (Token D)} {n : Node D}
      → Comparison s t n
      → AllAt Q s
      → Good Q n × AllAt Q t
  Comparison-Good Q (of_additive d) a = Additive-Good Q d a
  Comparison-Good Q (compares o c l is_c r e) a =
      let (gl, al) = Additive-Good Q l a in
      let (gr, ar) = Additive-Good Q r al.1 in (built-Good Q o.pos _ _ e al.0 (gl, gr), ar)

  Additive-Good :
      {D : Type 0} (Q : ℕ → Type 0) {s t : List (Token D)} {n : Node D}
      → Additive s t n
      → AllAt Q s
      → Good Q n × AllAt Q t
  Additive-Good Q (of_term d) a = Term-Good Q d a
  Additive-Good Q (adds o c l is_c r e) a =
      let (gl, al) = Additive-Good Q l a in
      let (gr, ar) = Term-Good Q r al.1 in (built-Good Q o.pos _ _ e al.0 (gl, gr), ar)

  Term-Good :
      {D : Type 0} (Q : ℕ → Type 0) {s t : List (Token D)} {n : Node D}
      → Term s t n
      → AllAt Q s
      → Good Q n × AllAt Q t
  Term-Good Q (of_unary d) a = Unary-Good Q d a
  Term-Good Q (multiplies o c l is_c r e) a =
      let (gl, al) = Term-Good Q l a in
      let (gr, ar) = Unary-Good Q r al.1 in (built-Good Q o.pos _ _ e al.0 (gl, gr), ar)

  Unary-Good :
      {D : Type 0} (Q : ℕ → Type 0) {s t : List (Token D)} {n : Node D}
      → Unary s t n
      → AllAt Q s
      → Good Q n × AllAt Q t
  Unary-Good Q (of_primary d) a = Primary-Good Q d a
  Unary-Good Q (minus o is_minus d e) a =
      let (g, b) = Unary-Good Q d a.1 in (built-Good Q o.pos _ _ e a.0 g, b)

  Primary-Good :
      {D : Type 0} (Q : ℕ → Type 0) {s t : List (Token D)} {n : Node D}
      → Primary s t n
      → AllAt Q s
      → Good Q n × AllAt Q t
  Primary-Good Q (value o v is_v e) a = (built-Good Q o.pos _ _ e a.0 tt, a.1)
  Primary-Good Q (named o x is_x e) a = (built-Good Q o.pos _ _ e a.0 tt, a.1)
  Primary-Good Q (call o l r x is_x is_l d is_r e) a =
      let (g, b) = Arguments-Good Q d a.1.1 in (built-Good Q o.pos _ _ e a.0 g, b.1)
  Primary-Good Q (group l r is_l d is_r) a = let (g, b) = Comparison-Good Q d a.1 in (g, b.1)

  Arguments-Good :
      {D : Type 0} (Q : ℕ → Type 0) {s t : List (Token D)} {args : Nodes D}
      → Arguments s t args
      → AllAt Q s
      → GoodAll Q args × AllAt Q t
  Arguments-Good Q no_arguments a = (tt, a)
  Arguments-Good Q (some_arguments before d) a =
      let (gs, b) = ArgumentsBefore-Good Q before a in
      let (g, c) = Comparison-Good Q d b in (GoodAll-push_back Q _ _ gs g, c)

  ArgumentsBefore-Good :
      {D : Type 0} (Q : ℕ → Type 0) {s t : List (Token D)} {args : Nodes D}
      → ArgumentsBefore s t args
      → AllAt Q s
      → GoodAll Q args × AllAt Q t
  ArgumentsBefore-Good Q none_yet a = (tt, a)
  ArgumentsBefore-Good Q (one_more o before d is_o) a =
      let (gs, b) = ArgumentsBefore-Good Q before a in
      let (g, c) = Comparison-Good Q d b in (GoodAll-push_back Q _ _ gs g, c.1)

-- A derived tree is good for every property that the positions of its tokens have.
pub derived-Good :
    {D : Type 0} (Q : ℕ → Type 0) {s t : List (Token D)} {n : Node D}
    → Comparison s t n
    → Stream Q s
    → Good Q n
derived-Good Q d st = let (g, a) = Comparison-Good Q d (Stream-AllAt Q _ st) in g
