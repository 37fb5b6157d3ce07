-- ===== src/Tests/Formula.antt =====
-- exercises/exprlab: inputs of main.cpp, with numbers for doubles.
use going_unmanaged.Prelude.{
  ℕ, suc, ◌+◌, ◌-◌, ◌*◌, ◌/◌, ◌≤◌, ◌≡◌, ◌⊎◌, refl, List, [], ◌∷◌, ◌++◌, Option, none, some, ltb,
  leb, ◌==◌, if◌then◌else◌, Bytes, codes, bytes_eq, length, take_while, replicate, max,
}
use going_unmanaged.Formula.Outcome.{Error, Ensures, ok, err}
use going_unmanaged.Formula.Tokens.{is_digit, number, end}
use going_unmanaged.Formula.Tree.{Node, node, literal, name, binary, node_height}
use going_unmanaged.Formula.Tokenizer.{tokenize, tokenize_loop}
use going_unmanaged.Formula.Stream.{Stream}
use going_unmanaged.Formula.Tokenizer.Bounds.{tokenize_sound}
use going_unmanaged.Formula.Eval.{Doubles, Symbols, Formula, eval, eval_within, parse, evaluate}
use going_unmanaged.Formula.Sound.{Derives, parse_sound}
use going_unmanaged.Formula.Correct.{evaluate_total, parse_bounds_eval}
use going_unmanaged.Formula.Nesting.{parse_nested}

abbrev number_of : ℕ → Bytes → ℕ
number_of acc [] = acc
number_of acc (c ∷ cs) = number_of (10 * acc + (c - b'0')) cs

abbrev digits_of : Bytes → Bytes
digits_of [] = []
digits_of (c ∷ cs) = if is_digit c then c ∷ digits_of cs else []

-- Whole numbers, with a conversion that reads digits and stops at a dot.
abbrev whole : Doubles
whole = record {
  Double = ℕ;
  zero = 0;
  one = 1;
  neg = λ a. 0 - a;
  add = ◌+◌;
  sub = ◌-◌;
  mul = ◌*◌;
  div = ◌/◌;
  lt = ltb;
  le = leb;
  eq = ◌==◌;
  from_chars = λ s. record {
    succeeded = ltb 0 (length (digits_of s));
    ptr = length (digits_of s);
    value = number_of 0 (digits_of s);
  };
}

abbrev max_of : List ℕ → Option ℕ
max_of (a ∷ b ∷ []) = some (max a b)
max_of _ = none

abbrev host : Symbols ℕ
host = record {
  value = λ s. if bytes_eq s (codes "wall.width") then some 4 else none;
  call = λ s args. if bytes_eq s (codes "max") then max_of args else none;
}

precedence : evaluate whole (codes "1 + 2 * 3") host 64 ≡ ok 7
unfolding evaluate
precedence = refl

left_associative : evaluate whole (codes "8 - 3 - 2") host 64 ≡ ok 3
unfolding evaluate
left_associative = refl

provider : evaluate whole (codes "max(wall.width, 1) + 1 >= 5") host 64 ≡ ok 1
unfolding evaluate
provider = refl

unknown_name :
    evaluate whole (codes "2 * roof.height") host 64
    ≡ err (record { pos = 4; what = codes "unknown name 'roof.height'" })
unfolding evaluate
unknown_name = refl

stray_byte :
    evaluate whole (codes "3 $ 4") host 64
    ≡ err (record { pos = 2; what = codes "unexpected character '$'" })
unfolding evaluate
stray_byte = refl

not_a_number :
    evaluate whole (codes "1..2") host 64 ≡ err (record { pos = 0; what = codes "not a number" })
unfolding evaluate
not_a_number = refl

no_chain :
    evaluate whole (codes "1 < 2 < 3") host 64
    ≡ err (record { pos = 6; what = codes "unexpected text after the expression" })
unfolding evaluate
no_chain = refl

wrong_arity :
    evaluate whole (codes "max(1)") host 64
    ≡ err (record { pos = 0; what = codes "unknown function 'max' for 1 argument(s)" })
unfolding evaluate
wrong_arity = refl

abbrev sum_tree : Node ℕ
sum_tree = node 2 2 (binary (codes "+") (node 0 1 (literal 1)) (node 4 1 (name (codes "x"))))

abbrev sum_formula : Formula ℕ
sum_formula = record { root = some sum_tree }

parse_sum : parse whole (codes "1 + x") 2 ≡ ok sum_formula
unfolding parse
parse_sum = refl

tokenize_sound_example :
    Ensures (Stream (λ p. p ≤ 5)) (λ e. suc e.pos ≤ 5) (tokenize whole.from_chars (codes "1 + x"))
tokenize_sound_example = tokenize_sound whole.from_chars (codes "1 + x")

parse_sound_example :
    Ensures
      (λ f.
        (n : Node ℕ) × (f.root ≡ some n)
        × Derives whole.from_chars (codes "1 + x") n
        × (node_height n ≤ 2))
      (λ e. e.pos ≤ 5)
      (parse whole (codes "1 + x") 2)
parse_sound_example = parse_sound whole (codes "1 + x") 2

evaluate_total_example :
    ((v : ℕ) × (evaluate whole (codes "1 + x") host 2 ≡ ok v))
    ⊎ ((e : Error) × (evaluate whole (codes "1 + x") host 2 ≡ err e) × (e.pos ≤ 5))
evaluate_total_example = evaluate_total whole (codes "1 + x") host 2

parse_bounds_eval_example : eval_within whole host 2 sum_tree ≡ eval whole host sum_tree
parse_bounds_eval_example =
    parse_bounds_eval whole (codes "1 + x") host 2 sum_formula sum_tree parse_sum refl

one_left :
    tokenize_loop whole.from_chars 2 5 (codes "1")
    ≡ ok (record { pos = 5; kind = number 1 } ∷ record { pos = 6; kind = end } ∷ [])
unfolding tokenize_loop take_while
one_left = refl

parse_nested_example :
    parse whole (replicate 5 b'(' ++ codes "1") 3
    ≡ err (record { pos = 3; what = codes "expression nests too deeply" })
parse_nested_example = parse_nested whole 3 1 (codes "1") _ one_left
