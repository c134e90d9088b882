-- ===== src/Prelude/Results.antt =====
-- The source's `Result`, with `?` as bind and the conversions that the code applies to it.
use mathlib.Core.Path.{◌≡◌, refl}
use mathlib.Core.Logic.{◌⊎◌, inl, inr}
use mathlib.Core.Bool.{Bool, true, false}
use mathlib.Core.Option.{Option, none, some}

pub data Result {ℓ} (E : Type 0) (A : Type ℓ) : Type ℓ where
  ok : A → Result E A
  err : E → Result E A

-- `ensure!(test, error)`
abbrev pub ensure : {E : Type 0} → Bool → E → Result E (Unit {0})
ensure false error = err error
ensure true error = ok tt

-- `option.ok_or(error)`
abbrev pub ok_or {ℓ} : {E : Type 0} {A : Type ℓ} → Option A → E → Result E A
ok_or none error = err error
ok_or (some value) error = ok value

abbrev pub map_err {ℓ} : {E F : Type 0} {A : Type ℓ} → (E → F) → Result E A → Result F A
map_err convert (err error) = err (convert error)
map_err convert (ok value) = ok value

module _ {ℓ κ} {E : Type 0} {A : Type ℓ} {B : Type κ} where
  -- The `?` operator, which a `do` block inserts between its lines.
  infixl 5 ◌>>=◌
  abbrev pub ◌>>=◌ : Result E A → (A → Result E B) → Result E B
  err error >>= next = err error
  ok value >>= next = next value

  -- What a chain that succeeded has gone through.
  pub >>=-eq-ok :
      (first : Result E A) (next : A → Result E B) {last : B}
      → (first >>= next) ≡ ok last
      → (value : A) × (first ≡ ok value) × (next value ≡ ok last)
  >>=-eq-ok (err error) next succeeded = cc
  >>=-eq-ok (ok value) next succeeded = (value, refl, succeeded)

infixl 5 ◌>>◌
abbrev pub ◌>>◌ {ℓ} : {E : Type 0} {B : Type ℓ} → Result E (Unit {0}) → Result E B → Result E B
check >> rest = check >>= λ _. rest

pub Result-cases {ℓ} :
    {E : Type 0} {A : Type ℓ} (r : Result E A) → ((a : A) × (r ≡ ok a)) ⊎ ((e : E) × (r ≡ err e))
Result-cases (err error) = inr (error, refl)
Result-cases (ok value) = inl (value, refl)
