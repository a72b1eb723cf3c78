-- ===== src/Action/Keeps.antt =====
-- Actions that leave a part of the object as it is, whether they return or fail.
use ant_wasm_client.Base.{◌≡◌, refl, ◌∙◌, ok, err}
use ant_wasm_client.Errors.{Error, Fallible}
use ant_wasm_client.Action.{Action, continue, choose, lift, gets, pure, ◌>>=◌, match_result}

pub record Keeps {S X : Type 0} (part : S → X) {A : Type 0} (m : Action S A) : Type 0 where
  pub at : (s : S) → part (m s).1 ≡ part s

module _ {S X : Type 0} (part : S → X) {A : Type 0} where
  pub Keeps-lift : (r : Fallible A) → Keeps part (lift r)
  Keeps-lift r = record { at = λ s. refl }

  pub Keeps-gets : (f : S → A) → Keeps part (gets f)
  Keeps-gets f = record { at = λ s. refl }

  pub Keeps-pure : (a : A) → Keeps part (pure a)
  Keeps-pure a = record { at = λ s. refl }

module _ {S X : Type 0} (part : S → X) {A B : Type 0} where
  continue-Keeps :
      (r : Fallible A) (f : A → Action S B) (s : S)
      → ((a : A) → Keeps part (f a))
      → part (continue r f s).1 ≡ part s
  continue-Keeps (ok a) f s k = (k a).at s
  continue-Keeps (err e) f s k = refl

  pub Keeps-bind :
      (m : Action S A) (f : A → Action S B)
      → Keeps part m
      → ((a : A) → Keeps part (f a))
      → Keeps part (m >>= f)
  unfolding ◌>>=◌
  Keeps-bind m f km kf = record { at = λ s. continue-Keeps (m s).0 f (m s).1 kf ∙ km.at s }

  choose-Keeps :
      (r : Fallible A) (f : A → Action S B) (g : Error → Action S B) (s : S)
      → ((a : A) → Keeps part (f a))
      → ((e : Error) → Keeps part (g e))
      → part (choose r f g s).1 ≡ part s
  choose-Keeps (ok a) f g s kf kg = (kf a).at s
  choose-Keeps (err e) f g s kf kg = (kg e).at s

  pub Keeps-match_result :
      (m : Action S A) (f : A → Action S B) (g : Error → Action S B)
      → Keeps part m
      → ((a : A) → Keeps part (f a))
      → ((e : Error) → Keeps part (g e))
      → Keeps part (match_result m f g)
  unfolding match_result
  Keeps-match_result m f g km kf kg = record {
    at = λ s. choose-Keeps (m s).0 f g (m s).1 kf kg ∙ km.at s;
  }
