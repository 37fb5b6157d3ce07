-- ===== src/Formula/Outcome.antt =====
-- exercises/exprlab/expr.h, `Error` and the results that are a value or an `Error`
-- (`std::variant<T, Error>`), with the two ways in which a run of the model can go wrong that the
-- program has no value for: a read past the last token, and fuel that ran out.
use going_unmanaged.Prelude.{ℕ, ◌≡◌, refl, subst, ◌⊎◌, inl, inr, Bytes}

-- Where the text went wrong, and why.
pub record Error : Type 0 where
  pub pos : ℕ
  pub what : Bytes

-- `fault` is undefined behaviour, a token read behind the last one; `out_of_fuel` has no
-- counterpart in the program.
pub data Outcome {ℓ} (A : Type ℓ) : Type ℓ where
  ok : A → Outcome A
  err : Error → Outcome A
  fault out_of_fuel : Outcome A

infixl 5 ◌>>=◌ ◌>>◌
abbrev pub ◌>>=◌ {ℓ κ} : {A : Type ℓ} {B : Type κ} → Outcome A → (A → Outcome B) → Outcome B
ok a >>= f = f a
err e >>= f = err e
fault >>= f = fault
out_of_fuel >>= f = out_of_fuel

abbrev pub ◌>>◌ {ℓ} : {B : Type ℓ} → Outcome (Unit {0}) → Outcome B → Outcome B
m >> k = m >>= λ _. k

-- The run ended in a value with `P` or in an error with `E`: it neither faulted nor ran dry.
pub data Ensures {ℓ κ μ} {A : Type ℓ} (P : A → Type κ) (E : Error → Type μ)
    : Outcome A → Type (ℓ ⊔ κ ⊔ μ) where
  returns : {a : A} → P a → Ensures P E (ok a)
  refuses : {e : Error} → E e → Ensures P E (err e)

module _ {ℓ κ μ} {A : Type ℓ} {P : A → Type κ} {E : Error → Type μ} where
  pub Ensures-ok : {r : Outcome A} {a : A} → Ensures P E r → r ≡ ok a → P a
  Ensures-ok (returns h) e = subst P (cc) h
  Ensures-ok (refuses h) e = cc

  pub Ensures-err : {r : Outcome A} {e : Error} → Ensures P E r → r ≡ err e → E e
  Ensures-err (returns h) e = cc
  Ensures-err (refuses h) e = subst E (cc) h

  pub Ensures-bind {ℓ' κ'} :
      {B : Type ℓ'} {Q : B → Type κ'} {m : Outcome A} {f : A → Outcome B}
      → Ensures P E m
      → ((a : A) → P a → Ensures Q E (f a))
      → Ensures Q E (m >>= f)
  Ensures-bind (returns {a} h) k = k a h
  Ensures-bind (refuses h) k = refuses h

  pub Ensures-mono {κ' μ'} :
      {Q : A → Type κ'} {F : Error → Type μ'} {m : Outcome A}
      → Ensures P E m
      → ((a : A) → P a → Q a)
      → ((e : Error) → E e → F e)
      → Ensures Q F m
  Ensures-mono (returns {a} h) p q = returns (p a h)
  Ensures-mono (refuses {e} h) p q = refuses (q e h)

  pub Ensures-split :
      {r : Outcome A} → Ensures P E r → ((a : A) × (r ≡ ok a)) ⊎ ((e : Error) × (r ≡ err e) × E e)
  Ensures-split (returns {a} h) = inl (a, refl)
  Ensures-split (refuses {e} h) = inr (e, refl, h)

  -- The value of the run is the one that it returned.
  pub Ensures-self : {r : Outcome A} → Ensures P E r → Ensures (λ a. P a × (r ≡ ok a)) E r
  Ensures-self (returns h) = returns (h, refl)
  Ensures-self (refuses h) = refuses h
