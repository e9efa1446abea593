-- ===== src/Common/Results.antt =====
-- Code that may throw, as a value. A transaction (`sql.begin`) that throws is rolled back, so an
-- error carries no state.
use mathlib.Core.Path.{◌≡◌, refl, subst}
use mathlib.Core.Logic.{◌⊎◌, inl, inr}
use mathlib.Core.Bool.{Bool, true, false}

pub data Result {ℓ κ} (E : Type κ) (A : Type ℓ) : Type (ℓ ⊔ κ) where
  ok : A → Result E A
  err : E → Result E A

infixl 5 ◌>>=◌ ◌>>◌
abbrev pub ◌>>=◌ {ℓ κ ι} :
    {E : Type ι} {A : Type ℓ} {B : Type κ} → Result E A → (A → Result E B) → Result E B
ok a >>= f = f a
err e >>= f = err e

abbrev pub ◌>>◌ {ℓ ι} : {E : Type ι} {B : Type ℓ} → Result E (Unit {0}) → Result E B → Result E B
m >> k = m >>= λ _. k

-- if (b) throw e;
unfoldable pub throw_if {ι} : {E : Type ι} → Bool → E → Result E (Unit {0})
throw_if true e = err e
throw_if false e = ok tt

pub Result-cases {ℓ κ} :
    {E : Type κ} {A : Type ℓ} (r : Result E A) → ((e : E) × (r ≡ err e)) ⊎ ((a : A) × (r ≡ ok a))
Result-cases (ok a) = inr (a, refl)
Result-cases (err e) = inl (e, refl)

-- What is returned, if anything is, satisfies `P`.
abbrev pub Fulfils {ℓ ι} : {E : Type ι} {A : Type ℓ} → (A → Type 0) → Result E A → Type 0
Fulfils P (ok a) = P a
Fulfils P (err e) = Unit {0}

module _ {ℓ ι} {E : Type ι} {A : Type ℓ} (P : A → Type 0) where
  pub Fulfils-bind {κ} :
      {B : Type κ} (r : Result E B) (k : B → Result E A)
      → ((b : B) → r ≡ ok b → Fulfils P (k b))
      → Fulfils P (r >>= k)
  Fulfils-bind (ok b) k h = h b refl
  Fulfils-bind (err e) k h = tt

  pub Fulfils-throw_if :
      (b : Bool) (e : E) (m : Result E A)
      → (b ≡ false → Fulfils P m)
      → Fulfils P (throw_if b e >> m)
  unfolding throw_if
  Fulfils-throw_if true e m h = tt
  Fulfils-throw_if false e m h = h refl

  pub Fulfils-ok : (r : Result E A) (a : A) → Fulfils P r → r ≡ ok a → P a
  Fulfils-ok r a f e = subst (Fulfils P) e f
