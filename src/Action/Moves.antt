-- ===== src/Action/Moves.antt =====
-- Actions that move the object along a relation, whether they return or fail.
use ant_wasm_client.Base.{Bool, true, false, if◌then◌else◌, ok, err}
use ant_wasm_client.Errors.{Error, Fallible}
use ant_wasm_client.Action.{Action, continue, choose, lift, gets, pure, ◌>>=◌, match_result}

pub record Moves {S : Type 0} (R : S → S → Type 0) {A : Type 0} (m : Action S A) : Type 0 where
  pub at : (s : S) → R s (m s).1

-- A relation that a block may use once for each of its actions.
pub record IsPreorder {S : Type 0} (R : S → S → Type 0) : Type 0 where
  pub stay : (s : S) → R s s
  pub next : (s s' s'' : S) → R s s' → R s' s'' → R s s''

module _ {S : Type 0} (R : S → S → Type 0) (order : IsPreorder R) where
  pub Moves-lift : {A : Type 0} (r : Fallible A) → Moves R (lift {S = S} r)
  Moves-lift r = record { at = λ s. order.stay s }

  pub Moves-gets : {A : Type 0} (f : S → A) → Moves R (gets f)
  Moves-gets f = record { at = λ s. order.stay s }

  pub Moves-pure : {A : Type 0} (a : A) → Moves R (pure {S = S} a)
  Moves-pure a = record { at = λ s. order.stay s }

  pub Moves-if :
      {A : Type 0} (b : Bool) (m m' : Action S A)
      → Moves R m
      → Moves R m'
      → Moves R (if b then m else m')
  Moves-if true m m' k k' = k
  Moves-if false m m' k k' = k'

  module _ {A B : Type 0} where
    continue-Moves :
        (r : Fallible A) (f : A → Action S B) (s : S)
        → ((a : A) → Moves R (f a))
        → R s (continue r f s).1
    continue-Moves (ok a) f s k = (k a).at s
    continue-Moves (err e) f s k = order.stay s

    pub Moves-bind :
        (m : Action S A) (f : A → Action S B)
        → Moves R m
        → ((a : A) → Moves R (f a))
        → Moves R (m >>= f)
    unfolding ◌>>=◌
    Moves-bind m f km kf = record {
      at = λ s. order.next s (m s).1 _ (km.at s) (continue-Moves (m s).0 f (m s).1 kf);
    }

    choose-Moves :
        (r : Fallible A) (f : A → Action S B) (g : Error → Action S B) (s : S)
        → ((a : A) → Moves R (f a))
        → ((e : Error) → Moves R (g e))
        → R s (choose r f g s).1
    choose-Moves (ok a) f g s kf kg = (kf a).at s
    choose-Moves (err e) f g s kf kg = (kg e).at s

    pub Moves-match_result :
        (m : Action S A) (f : A → Action S B) (g : Error → Action S B)
        → Moves R m
        → ((a : A) → Moves R (f a))
        → ((e : Error) → Moves R (g e))
        → Moves R (match_result m f g)
    unfolding match_result
    Moves-match_result m f g km kf kg = record {
      at = λ s. order.next s (m s).1 _ (km.at s) (choose-Moves (m s).0 f g (m s).1 kf kg);
    }
