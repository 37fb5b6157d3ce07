-- ===== src/Catalog/Parse/Grammar.antt =====
-- exercises/retrolab: the texts that Catalog::Parse is for, byte by byte and apart from its loops.
use going_unmanaged.Prelude.{
  ℕ, ◌≤◌, ◌<◌, ◌≡◌, ◌≢◌, ◌⊎◌, inl, inr, refl, ap, ◌∙◌, subst, List, [], ◌∷◌, ◌++◌, some,
  Option-cases, Bool-cases, true, false, ◌||◌, ◌&&◌, ◌==◌, leb, ne→==, ==_iff, Bytes, length, arith,
  All,
}
use going_unmanaged.Plugin.Int32.{ℤ, pos, neg}
use going_unmanaged.Strings.Parts.{digits_value}
use going_unmanaged.Catalog.Parse.{split_eq, skip_space, saturate, to_int}

-- The bytes that std::isspace takes, and the decimal digits.
abbrev pub IsSpace : ℕ → Type 0
IsSpace b = (b ≡ 32) ⊎ ((9 ≤ b) × (b ≤ 13))

abbrev pub IsDigit : ℕ → Type 0
IsDigit b = (b'0' ≤ b) × (b ≤ b'9')

pub data Sign : Bytes → (ℕ → ℤ) → Type 0 where
  no_sign : Sign [] pos
  plus_sign : Sign (b'+' ∷ []) pos
  minus_sign : Sign (b'-' ∷ []) neg

-- What is behind a number: the end of the text, or a semicolon and the other pairs.
pub data Tail : Bytes → Bytes → Type 0 where
  ends : Tail [] []
  goes_on : (rest : Bytes) → Tail (b';' ∷ rest) rest

-- White space, a sign and digits, and the long that they spell.
pub record Number (s : Bytes) (v : ℤ) (end : Bytes) : Type 0 where
  pub spaces : Bytes
  pub sign : Bytes
  pub digits : Bytes
  pub of_sign : ℕ → ℤ
  pub text : s ≡ spaces ++ (sign ++ (digits ++ end))
  pub all_spaces : All IsSpace spaces
  pub signed_by : Sign sign of_sign
  pub some_digit : digits ≢ []
  pub digits_only : All IsDigit digits
  pub value : v ≡ saturate (of_sign (digits_value 0 digits))

-- A text that starts with a pair: a key of 1 to 31 bytes, '=', a number, and the end of the pair.
pub record Pair (p key : Bytes) (v : ℤ) (rest : Bytes) : Type 0 where
  pub after_eq : Bytes
  pub long : ℤ
  pub tail : Bytes
  pub text : p ≡ key ++ b'=' ∷ after_eq
  pub some_key : key ≢ []
  pub short_key : length key < 32
  pub no_eq : All (λ b. b ≢ b'=') key
  pub number : Number after_eq long tail
  pub then_tail : Tail tail rest
  pub value : v ≡ to_int long

-- The texts that are pairs and nothing else.
pub data Spells : Bytes → List (Bytes × ℤ) → Type 0 where
  nothing : Spells [] []
  a_pair :
      (p key : Bytes) (v : ℤ) (rest : Bytes) (ps : List (Bytes × ℤ))
      → Pair p key v rest
      → Spells rest ps
      → Spells p ((key, v) ∷ ps)

pub split_eq-key :
    (key s : Bytes) → All (λ b. b ≢ b'=') key → split_eq (key ++ b'=' ∷ s) ≡ some (key, s)
unfolding split_eq
split_eq-key [] s h = refl
split_eq-key (b ∷ key) s h = rw (split_eq, ne→== b b'=' h.0, split_eq-key key s h.1) refl

pub key-split_eq :
    (p key s : Bytes) → split_eq p ≡ some (key, s) → (p ≡ key ++ b'=' ∷ s) × All (λ b. b ≢ b'=') key
unfolding split_eq
key-split_eq [] key s e = cc
key-split_eq (b ∷ p) key s e = elim (Bool-cases (b == b'=')) [
  | inl y ↦
      let at_once : some ([], p) ≡ some (key, s) = rw y at e in
      let no_key : [] ≡ key = cc in
      let rest : p ≡ s = cc in
      let is_eq : b ≡ b'=' = (==_iff b b'=').0 y in
      subst (λ k. (b ∷ p ≡ k ++ b'=' ∷ s) × All (λ b. b ≢ b'=') k) no_key
        (ap (λ c. c ∷ p) is_eq ∙ ap (λ r. b'=' ∷ r) rest, tt)
  | inr n ↦ elim (Option-cases (split_eq p)) [
    | inl w ↦ cc (rw (n, w) at e)
    | inr ((key', s'), w) ↦
        let later : some (b ∷ key', s') ≡ some (key, s) = rw (n, w) at e in
        let longer : b ∷ key' ≡ key = cc in
        let rest : s' ≡ s = cc in
        let (text, no_eq) = key-split_eq p key' s' w in
        subst (λ k. (b ∷ p ≡ k ++ b'=' ∷ s) × All (λ b. b ≢ b'=') k) longer
          (
            ap (λ r. b ∷ r) (text ∙ ap (λ r. key' ++ b'=' ∷ r) rest),
            (λ q. let y : (b == b'=') ≡ true = (==_iff b b'=').1 q in cc, no_eq),
          )
  ]
]

pub skip_space-append :
    (spaces s : Bytes) → All IsSpace spaces → skip_space (spaces ++ s) ≡ skip_space s
unfolding skip_space
skip_space-append [] s h = refl
skip_space-append (b ∷ spaces) s h =
    let space : (b == 32 || leb 9 b && leb b 13) ≡ true = is_space b h.0 in
    rw space (skip_space-append spaces s h.1)
  where
    is_space : (b : ℕ) → IsSpace b → (b == 32 || leb 9 b && leb b 13) ≡ true
    is_space b (inl e) = ground (arith, e)
    is_space b (inr (l, u)) = ground arith

pub skip_space-stop :
    (b : ℕ) (s : Bytes) → (b == 32 || leb 9 b && leb b 13) ≡ false → skip_space (b ∷ s) ≡ b ∷ s
unfolding skip_space
skip_space-stop b s e = rw e refl

pub spaces-skip_space :
    (s : Bytes) → (spaces : Bytes) × All IsSpace spaces × (s ≡ spaces ++ skip_space s)
unfolding skip_space
spaces-skip_space [] = ([], tt, refl)
spaces-skip_space (b ∷ s) = elim (Bool-cases (b == 32 || leb 9 b && leb b 13)) [
  | inl y ↦
      let (spaces, all_of, e) = spaces-skip_space s in
      (b ∷ spaces, (of_test b y, all_of), rw y (ap (λ r. b ∷ r) e))
  | inr n ↦ ([], tt, rw n refl)
]
  where
    of_test : (b : ℕ) → (b == 32 || leb 9 b && leb b 13) ≡ true → IsSpace b
    of_test b e = elim (Bool-cases (b == 32)) [
      | inl y ↦ inl ((==_iff b 32).0 y)
      | inr n ↦ inr (ground arith, ground arith)
    ]
