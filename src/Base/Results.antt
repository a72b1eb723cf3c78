-- ===== src/Base/Results.antt =====
-- Rust's `Result`, with `?` as the bind of a `do` block.
use mathlib.Core.Path.{◌≡◌, refl}
use mathlib.Core.Logic.{◌⊎◌, inl, inr}
use mathlib.Core.Bool.{Bool, true, false}

pub data Result {ℓ} (A : Type ℓ) (E : Type 0) : Type ℓ where
  err : E → Result A E
  ok : A → Result A E

-- `if !b { return Err(e) }`
abbrev pub ensure : {E : Type 0} → Bool → E → Result (Unit {0}) E
ensure false failure = err failure
ensure true failure = ok tt

abbrev pub map_err {ℓ} : {A : Type ℓ} {E F : Type 0} → (E → F) → Result A E → Result A F
map_err f (err e) = err (f e)
map_err f (ok a) = ok a

module _ {ℓ κ} {A : Type ℓ} {B : Type κ} {E : Type 0} where
  infixl 5 ◌>>=◌
  abbrev pub ◌>>=◌ : Result A E → (A → Result B E) → Result B E
  err failure >>= next = err failure
  ok value >>= next = next value

  -- A bind that returned: both parts returned.
  pub >>=-eq-ok :
      (r : Result A E) (next : A → Result B E) {b : B}
      → (r >>= next) ≡ ok b
      → (value : A) × (r ≡ ok value) × (next value ≡ ok b)
  >>=-eq-ok (err failure) next h = cc
  >>=-eq-ok (ok value) next h = (value, refl, h)

infixl 5 ◌>>◌
abbrev pub ◌>>◌ {ℓ} : {A : Type ℓ} {E : Type 0} → Result (Unit {0}) E → Result A E → Result A E
first >> second = first >>= (λ _. second)

module _ {ℓ} {A : Type ℓ} {E : Type 0} where
  pub Result-cases : (r : Result A E) → ((a : A) × (r ≡ ok a)) ⊎ ((e : E) × (r ≡ err e))
  Result-cases (ok a) = inl (a, refl)
  Result-cases (err e) = inr (e, refl)

  pub ok-injective : (a b : A) → ◌≡◌ {A = Result A E} (ok a) (ok b) → a ≡ b
  ok-injective a b h = cc

pub map_err-eq_ok {ℓ} :
    {A : Type ℓ} {E F : Type 0} (f : E → F) (r : Result A E) {a : A} → map_err f r ≡ ok a → r ≡ ok a
map_err-eq_ok f (ok a) h = cc
map_err-eq_ok f (err e) h = cc

pub ensure-eq-ok : {E : Type 0} (b : Bool) (e : E) {u : Unit {0}} → ensure b e ≡ ok u → b ≡ true
ensure-eq-ok true e h = refl
ensure-eq-ok false e h = cc
