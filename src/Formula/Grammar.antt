-- ===== src/Formula/Grammar.antt =====
-- exercises/exprlab/expr.cpp, the grammar in the comment above class Parser, as relations:
-- `Additive s t n` says that the tokens of `s` down to `t` are an additive expression and that `n`
-- is its tree, grouped to the left, each node at the position of its operator or of its token.
pub mod Good
use going_unmanaged.Prelude.{ℕ, List, [], ◌∷◌, ◌≡◌, ◌⊎◌, Option, some, Bool, true, false, Bytes}
use going_unmanaged.Formula.Tokens.{Kind, Token, number, ident, is_lparen, is_rparen, is_op}
use going_unmanaged.Formula.Tree.{
  Node, NodeKind, Nodes, node, literal, name, negate, binary, call_expr, nil, push_back, height_of,
}
use going_unmanaged.Formula.Parser.{comparison_op}

-- A node with the height that HeightOf computes.
abbrev pub built : {D : Type 0} → ℕ → NodeKind D → Node D
built pos kind = node pos (height_of kind) kind

-- A token of this kind is the operator `c`, which is one of `a` and `b`.
abbrev pub IsEither : {D : Type 0} → ℕ → ℕ → ℕ → Kind D → Type 0
IsEither a b c k = ((c ≡ a) ⊎ (c ≡ b)) × (is_op c k ≡ true)

mutual
  pub data Comparison {D : Type 0} : List (Token D) → List (Token D) → Node D → Type 0 where
    of_additive : {s t : List (Token D)} {n : Node D} → Additive s t n → Comparison s t n
    compares :
        {s m t : List (Token D)} {l r n : Node D} (o : Token D) (c : Bytes)
        → Additive s (o ∷ m) l
        → comparison_op o.kind ≡ some c
        → Additive m t r
        → n ≡ built o.pos (binary c l r)
        → Comparison s t n

  pub data Additive {D : Type 0} : List (Token D) → List (Token D) → Node D → Type 0 where
    of_term : {s t : List (Token D)} {n : Node D} → Term s t n → Additive s t n
    adds :
        {s m t : List (Token D)} {l r n : Node D} (o : Token D) (c : ℕ)
        → Additive s (o ∷ m) l
        → IsEither b'+' b'-' c o.kind
        → Term m t r
        → n ≡ built o.pos (binary (c ∷ []) l r)
        → Additive s t n

  pub data Term {D : Type 0} : List (Token D) → List (Token D) → Node D → Type 0 where
    of_unary : {s t : List (Token D)} {n : Node D} → Unary s t n → Term s t n
    multiplies :
        {s m t : List (Token D)} {l r n : Node D} (o : Token D) (c : ℕ)
        → Term s (o ∷ m) l
        → IsEither b'*' b'/' c o.kind
        → Unary m t r
        → n ≡ built o.pos (binary (c ∷ []) l r)
        → Term s t n

  pub data Unary {D : Type 0} : List (Token D) → List (Token D) → Node D → Type 0 where
    of_primary : {s t : List (Token D)} {n : Node D} → Primary s t n → Unary s t n
    minus :
        {s t : List (Token D)} {m n : Node D} (o : Token D)
        → is_op b'-' o.kind ≡ true
        → Unary s t m
        → n ≡ built o.pos (negate m)
        → Unary (o ∷ s) t n

  pub data Primary {D : Type 0} : List (Token D) → List (Token D) → Node D → Type 0 where
    value :
        {t : List (Token D)} {n : Node D} (o : Token D) (v : D)
        → o.kind ≡ number v
        → n ≡ built o.pos (literal v)
        → Primary (o ∷ t) t n
    named :
        {t : List (Token D)} {n : Node D} (o : Token D) (x : Bytes)
        → o.kind ≡ ident x
        → n ≡ built o.pos (name x)
        → Primary (o ∷ t) t n
    call :
        {s t : List (Token D)} {n : Node D} {args : Nodes D} (o l r : Token D) (x : Bytes)
        → o.kind ≡ ident x
        → is_lparen l.kind ≡ true
        → Arguments s (r ∷ t) args
        → is_rparen r.kind ≡ true
        → n ≡ built o.pos (call_expr x args)
        → Primary (o ∷ l ∷ s) t n
    group :
        {s t : List (Token D)} {n : Node D} (l r : Token D)
        → is_lparen l.kind ≡ true
        → Comparison s (r ∷ t) n
        → is_rparen r.kind ≡ true
        → Primary (l ∷ s) t n

  pub data Arguments {D : Type 0} : List (Token D) → List (Token D) → Nodes D → Type 0 where
    no_arguments : {s : List (Token D)} → Arguments s s nil
    some_arguments :
        {s m t : List (Token D)} {args : Nodes D} {n : Node D}
        → ArgumentsBefore s m args
        → Comparison m t n
        → Arguments s t (push_back args n)

  -- The arguments with the comma behind each of them.
  pub data ArgumentsBefore {D : Type 0} : List (Token D) → List (Token D) → Nodes D → Type 0 where
    none_yet : {s : List (Token D)} → ArgumentsBefore s s nil
    one_more :
        {s m t : List (Token D)} {args : Nodes D} {n : Node D} (o : Token D)
        → ArgumentsBefore s m args
        → Comparison m (o ∷ t) n
        → is_op b',' o.kind ≡ true
        → ArgumentsBefore s t (push_back args n)
