-- ===== src/Action.antt =====
-- Methods that change an object and may fail. What was changed before a failure stays changed, so
-- the object comes back beside the error too.
pub mod Keeps
pub mod Moves
use ant_wasm_client.Base.{Bool, true, false, if◌then◌else◌, ◌≡◌, refl, ap, ◌⊎◌, inl, inr, ok, err}
use ant_wasm_client.Errors.{Error, Fallible}

abbrev pub Action : Type 0 → Type 0 → Type 0
Action S A = S → Fallible A × S

module _ {S A : Type 0} where
  abbrev pub pure : A → Action S A
  pure a s = (ok a, s)

  abbrev pub lift : Fallible A → Action S A
  lift r s = (r, s)

  abbrev pub gets : (S → A) → Action S A
  gets f s = (ok (f s), s)

module _ {S A B : Type 0} where
  abbrev pub continue : Fallible A → (A → Action S B) → Action S B
  continue (ok a) f s = f a s
  continue (err e) f s = (err e, s)

  infixl 5 ◌>>=◌ ◌>>◌
  unfoldable pub ◌>>=◌ : Action S A → (A → Action S B) → Action S B
  ◌>>=◌ m f s = let r = m s in continue r.0 f r.1

  abbrev pub ◌>>◌ : Action S A → Action S B → Action S B
  m >> k = m >>= λ _. k

continue-eq_ok :
    {S A B : Type 0} (r : Fallible A) (f : A → Action S B) (s : S) {b : B}
    → (continue r f s).0 ≡ ok b
    → (a : A) × (r ≡ ok a) × ((f a s).0 ≡ ok b)
continue-eq_ok (ok a) f s h = (a, refl, h)
continue-eq_ok (err e) f s h = cc

-- Inversion of a block that returned: its first action returned, and so did the rest.
pub bind-eq_ok :
    {S A B : Type 0} (m : Action S A) (f : A → Action S B) (s : S) {b : B}
    → ((m >>= f) s).0 ≡ ok b
    → (a : A) × ((m s).0 ≡ ok a) × ((f a (m s).1).0 ≡ ok b)
unfolding ◌>>=◌
bind-eq_ok m f s h = continue-eq_ok (m s).0 f (m s).1 h

module _ {S A B : Type 0} where
  abbrev pub choose : Fallible A → (A → Action S B) → (Error → Action S B) → Action S B
  choose (ok a) f g s = f a s
  choose (err e) f g s = g e s

  -- A `match` on what an action returned.
  unfoldable pub match_result : Action S A → (A → Action S B) → (Error → Action S B) → Action S B
  match_result m f g s = let r = m s in choose r.0 f g r.1

choose-eq_ok :
    {S A B : Type 0} (r : Fallible A) (f : A → Action S B) (g : Error → Action S B) (s : S) {b : B}
    → (choose r f g s).0 ≡ ok b
    → ((a : A) × (r ≡ ok a) × ((f a s).0 ≡ ok b)) ⊎ ((e : Error) × ((g e s).0 ≡ ok b))
choose-eq_ok (ok a) f g s h = inl (a, refl, h)
choose-eq_ok (err e) f g s h = inr (e, h)

-- Inversion of a match that returned.
pub match_result-eq_ok :
    {S A B : Type 0} (m : Action S A) (f : A → Action S B) (g : Error → Action S B) (s : S) {b : B}
    → (match_result m f g s).0 ≡ ok b
    → ((a : A) × ((m s).0 ≡ ok a) × ((f a (m s).1).0 ≡ ok b))
      ⊎ ((e : Error) × ((g e (m s).1).0 ≡ ok b))
unfolding match_result
match_result-eq_ok m f g s h = choose-eq_ok (m s).0 f g (m s).1 h

continue-cases :
    {S A B : Type 0} (r : Fallible A) (f : A → Action S B) (s : S)
    → ((continue r f s).1 ≡ s) ⊎ ((a : A) × (r ≡ ok a) × (continue r f s ≡ f a s))
continue-cases (ok a) f s = inr (a, refl, refl)
continue-cases (err e) f s = inl refl

-- A block leaves either what its first action left, which failed, or what the rest leaves.
pub bind-cases :
    {S A B : Type 0} (m : Action S A) (f : A → Action S B) (s : S)
    → (((m >>= f) s).1 ≡ (m s).1) ⊎ ((a : A) × ((m s).0 ≡ ok a) × ((m >>= f) s ≡ f a (m s).1))
unfolding ◌>>=◌
bind-cases m f s = continue-cases (m s).0 f (m s).1

-- A block by what its first action did.
pub bind-of_ok :
    {S A B : Type 0} (m : Action S A) (f : A → Action S B) (s s' : S) (a : A)
    → m s ≡ (ok a, s')
    → (m >>= f) s ≡ f a s'
unfolding ◌>>=◌
bind-of_ok m f s s' a h = ap (λ r. continue r.0 f r.1) h

pub bind-of_err :
    {S A B : Type 0} (m : Action S A) (f : A → Action S B) (s s' : S) (e : Error)
    → m s ≡ (err e, s')
    → (m >>= f) s ≡ (err e, s')
unfolding ◌>>=◌
bind-of_err m f s s' e h = ap (λ r. continue r.0 f r.1) h

continue-eq_run :
    {S A B : Type 0} (r : Fallible A) (f : A → Action S B) (s : S) {b : B}
    → (continue r f s).0 ≡ ok b
    → (a : A) × (r ≡ ok a) × (continue r f s ≡ f a s)
continue-eq_run (ok a) f s h = (a, refl, refl)
continue-eq_run (err e) f s h = cc

-- A block that returned is the rest of it, after its first action.
pub bind-eq_run :
    {S A B : Type 0} (m : Action S A) (f : A → Action S B) (s : S) {b : B}
    → ((m >>= f) s).0 ≡ ok b
    → (a : A) × ((m s).0 ≡ ok a) × ((m >>= f) s ≡ f a (m s).1)
unfolding ◌>>=◌
bind-eq_run m f s h = continue-eq_run (m s).0 f (m s).1 h

-- Inversion of a test that chooses between two actions.
pub if-eq_ok :
    {S A : Type 0} (b : Bool) (m m' : Action S A) (s : S) {a : A}
    → ((if b then m else m') s).0 ≡ ok a
    → ((b ≡ true) × ((m s).0 ≡ ok a)) ⊎ ((b ≡ false) × ((m' s).0 ≡ ok a))
if-eq_ok true m m' s h = inl (refl, h)
if-eq_ok false m m' s h = inr (refl, h)
