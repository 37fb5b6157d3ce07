-- ===== src/Catalog/Parse/Numbers.antt =====
-- exercises/retrolab: strtol reads the numbers of the grammar, and no others.
use going_unmanaged.Prelude.{
  ℕ, ◌≡◌, ◌≢◌, inl, inr, refl, ap, ◌∙◌, sym, subst, [], ◌∷◌, ◌++◌, Option, none, some, Bool-cases,
  true, false, ◌||◌, ◌&&◌, if◌then◌else◌, ◌==◌, leb, ne→==, ==_iff, Bytes, arith, All,
}
use going_unmanaged.Plugin.Int32.{ℤ, pos, neg}
use going_unmanaged.Strings.Parts.{is_empty, digits_value, matches_digit}
use going_unmanaged.Config.Chars.{leading_digits, behind_digits}
use going_unmanaged.Catalog.Parse.{skip_space, saturate, signed, strtol, pair_end}
use going_unmanaged.Catalog.Parse.Grammar.{
  IsSpace, IsDigit, Sign, no_sign, plus_sign, minus_sign, Tail, ends, goes_on, Number,
  skip_space-append, skip_space-stop, spaces-skip_space,
}

digits_front :
    (ds tail rest : Bytes)
    → All IsDigit ds
    → Tail tail rest
    → (leading_digits (ds ++ tail) ≡ ds) × (behind_digits (ds ++ tail) ≡ tail)
unfolding leading_digits behind_digits
digits_front [] tail rest h ends = (refl, refl)
digits_front [] tail rest h (goes_on r) = (refl, refl)
digits_front (b ∷ ds) tail rest h t =
    let (l, e) = digits_front ds tail rest h.1 t in
    let (lo, hi) = h.0 in
    let y : matches_digit b ≡ true = ground arith in (rw y (ap (λ r. b ∷ r) l), rw y e)

digits_split :
    (s : Bytes) → (s ≡ leading_digits s ++ behind_digits s) × All IsDigit (leading_digits s)
unfolding leading_digits behind_digits
digits_split [] = (refl, tt)
digits_split (b ∷ s) = elim (Bool-cases (matches_digit b)) [
  | inl y ↦
      let (e, d) = digits_split s in rw y (ap (λ r. b ∷ r) e, ((ground arith, ground arith), d))
  | inr n ↦ rw n (refl, tt)
]

pub Tail-pair_end : (t rest : Bytes) → Tail t rest → pair_end t ≡ some rest
unfolding pair_end
Tail-pair_end t rest ends = refl
Tail-pair_end t rest (goes_on r) = refl

pub pair_end-Tail : (t rest : Bytes) → pair_end t ≡ some rest → Tail t rest
unfolding pair_end
pair_end-Tail [] rest e = let none_left : [] ≡ rest = cc in subst (λ r. Tail [] r) none_left ends
pair_end-Tail (b ∷ t) rest e = elim (Bool-cases (b == b';')) [
  | inl y ↦
      let here : some t ≡ some rest = rw y at e in
      let same : t ≡ rest = cc in
      let semicolon : b';' ≡ b = sym ((==_iff b b';').0 y) in
      subst (λ c. Tail (c ∷ t) rest) semicolon (subst (λ r. Tail (b';' ∷ t) r) same (goes_on t))
  | inr n ↦ cc (rw n at e)
]

signed_front :
    (sign : ℕ → ℤ) (ds tail rest : Bytes)
    → ds ≢ []
    → All IsDigit ds
    → Tail tail rest
    → signed sign (ds ++ tail) ≡ some (saturate (sign (digits_value 0 ds)), tail)
unfolding signed
signed_front sign [] tail rest n h t = absurd (n refl)
signed_front sign (d ∷ ds) tail rest n h t =
    let (l, b) = digits_front (d ∷ ds) tail rest h t in rw (signed, l, b) refl

signed_split :
    (sign : ℕ → ℤ) (s : Bytes) (v : ℤ) (end : Bytes)
    → signed sign s ≡ some (v, end)
    → (ds : Bytes) × (s ≡ ds ++ end)
      × (ds ≢ [])
      × All IsDigit ds
      × (v ≡ saturate (sign (digits_value 0 ds)))
unfolding signed
signed_split sign s v end e = elim (Bool-cases (is_empty (leading_digits s))) [
  | inl y ↦ cc (rw y at e)
  | inr n ↦
      let both : some (saturate (sign (digits_value 0 (leading_digits s))), behind_digits s)
          ≡ some (v, end) =
        rw n at e in
      let same : behind_digits s ≡ end = cc in
      let is_value : saturate (sign (digits_value 0 (leading_digits s))) ≡ v = cc in
      let (text, d) = digits_split s in
      (
        leading_digits s,
        text ∙ ap (λ r. leading_digits s ++ r) same,
        λ q. let y : is_empty (leading_digits s) ≡ true = ap is_empty q in cc,
        d,
        sym is_value,
      )
]

-- strtol behind the white space.
abbrev at_sign : Bytes → Option (ℤ × Bytes)
at_sign [] = none
at_sign (b ∷ rest) =
    if b == b'-'
    then signed neg rest
    else if b == b'+'
    then signed pos rest
    else signed pos (b ∷ rest)

strtol-at_sign : (s t : Bytes) → skip_space s ≡ t → strtol s ≡ at_sign t
unfolding strtol
strtol-at_sign s [] e = rw (strtol, e) refl
strtol-at_sign s (b ∷ rest) e = rw (strtol, e) refl

-- The first byte of a sign or a digit is not white space.
strtol_front :
    (spaces sign ds tail rest : Bytes) (of_sign : ℕ → ℤ)
    → All IsSpace spaces
    → Sign sign of_sign
    → ds ≢ []
    → All IsDigit ds
    → Tail tail rest
    → strtol (spaces ++ (sign ++ (ds ++ tail)))
      ≡ some (saturate (of_sign (digits_value 0 ds)), tail)
strtol_front spaces sign ds tail rest of_sign h plus_sign n d t =
    strtol-at_sign (spaces ++ (b'+' ∷ (ds ++ tail))) (b'+' ∷ (ds ++ tail))
      (skip_space-append spaces (b'+' ∷ (ds ++ tail)) h ∙ skip_space-stop b'+' (ds ++ tail) refl)
    ∙ signed_front pos ds tail rest n d t
strtol_front spaces sign ds tail rest of_sign h minus_sign n d t =
    strtol-at_sign (spaces ++ (b'-' ∷ (ds ++ tail))) (b'-' ∷ (ds ++ tail))
      (skip_space-append spaces (b'-' ∷ (ds ++ tail)) h ∙ skip_space-stop b'-' (ds ++ tail) refl)
    ∙ signed_front neg ds tail rest n d t
strtol_front spaces sign [] tail rest of_sign h no_sign n d t = absurd (n refl)
strtol_front spaces sign (b ∷ ds) tail rest of_sign h no_sign n d t =
    let (lo, hi) = d.0 in
    let no_space : (b == 32 || leb 9 b && leb b 13) ≡ false = ground arith in
    let no_minus : (b == b'-') ≡ false = ne→== b b'-' (λ q. absurd (omega (arith, q))) in
    let no_plus : (b == b'+') ≡ false = ne→== b b'+' (λ q. absurd (omega (arith, q))) in
    strtol-at_sign (spaces ++ (b ∷ (ds ++ tail))) (b ∷ (ds ++ tail))
      (skip_space-append spaces (b ∷ (ds ++ tail)) h ∙ skip_space-stop b (ds ++ tail) no_space)
    ∙ rw (no_minus, no_plus) (signed_front pos (b ∷ ds) tail rest n d t)

-- What at_sign took, as a sign and digits.
at_sign_split :
    (t : Bytes) (v : ℤ) (end : Bytes)
    → at_sign t ≡ some (v, end)
    → (sign : Bytes) × (of_sign : ℕ → ℤ) × (ds : Bytes) × Sign sign of_sign
      × (t ≡ sign ++ (ds ++ end))
      × (ds ≢ [])
      × All IsDigit ds
      × (v ≡ saturate (of_sign (digits_value 0 ds)))
at_sign_split [] v end e = cc
at_sign_split (b ∷ t) v end e = elim (Bool-cases (b == b'-')) [
  | inl y ↦
      let (ds, text, some_digit, digits_only, value) = signed_split neg t v end (rw y at e) in
      let minus : b ≡ b'-' = (==_iff b b'-').0 y in
      (
        b'-' ∷ [],
        neg,
        ds,
        minus_sign,
        ap (λ c. c ∷ t) minus ∙ ap (λ r. b'-' ∷ r) text,
        some_digit,
        digits_only,
        value,
      )
  | inr n ↦ elim (Bool-cases (b == b'+')) [
    | inl y ↦
        let (ds, text, some_digit, digits_only, value) =
          signed_split pos t v end (rw (n, y) at e) in
        let plus : b ≡ b'+' = (==_iff b b'+').0 y in
        (
          b'+' ∷ [],
          pos,
          ds,
          plus_sign,
          ap (λ c. c ∷ t) plus ∙ ap (λ r. b'+' ∷ r) text,
          some_digit,
          digits_only,
          value,
        )
    | inr n' ↦
        let (ds, text, some_digit, digits_only, value) =
          signed_split pos (b ∷ t) v end (rw (n, n') at e) in
        ([], pos, ds, no_sign, text, some_digit, digits_only, value)
  ]
]

pub strtol-Number : (s : Bytes) (v : ℤ) (end : Bytes) → strtol s ≡ some (v, end) → Number s v end
strtol-Number s v end e =
    let (spaces, all_spaces, text) = spaces-skip_space s in
    let (sign, of_sign, ds, signed_by, body, some_digit, digits_only, value) =
      at_sign_split (skip_space s) v end (sym (strtol-at_sign s (skip_space s) refl) ∙ e) in
    record {
      spaces = spaces;
      sign = sign;
      digits = ds;
      of_sign = of_sign;
      text = text ∙ ap (λ r. spaces ++ r) body;
      all_spaces = all_spaces;
      signed_by = signed_by;
      some_digit = some_digit;
      digits_only = digits_only;
      value = value;
    }

pub Number-strtol :
    (s : Bytes) (v : ℤ) (end rest : Bytes)
    → Number s v end
    → Tail end rest
    → strtol s ≡ some (v, end)
Number-strtol s v end rest n t =
    ap strtol n.text
    ∙ strtol_front n.spaces n.sign n.digits end rest n.of_sign n.all_spaces n.signed_by n.some_digit
        n.digits_only t
    ∙ ap (λ w. some (w, end)) (sym n.value)
