-- ===== src/Client/Kept.antt =====
-- src/lib.rs: a part of the client that connections, pool and dials have no share in is kept by what
-- neither pays nor counts.
use ant_wasm_client.Base.{ℕ, ◌≡◌, refl, ◌∙◌, Option, none, some, get_elem?, List, Bytes}
use ant_wasm_client.Protocol.{PeerConnectInfo}
use ant_wasm_client.Env.{Env}
use ant_wasm_client.Action.{Action}
use ant_wasm_client.Action.Keeps.{Keeps, Keeps-bind}
use ant_wasm_client.Conn.{NodeConnection}
use ant_wasm_client.Client.{
  World, Client, run_on, on_connection, add_connection, drop_connection, connect, pooled_or_new,
}
use ant_wasm_client.Client.Moves.{Allows}

-- A part that none of the three has a share in.
pub record IsApart {X : Type 0} (part : Client → X) : Type 0 where
  pub heap : (s : Client) (h : List NodeConnection) → part (record s { heap = h }) ≡ part s
  pub pool : (s : Client) (p : List (Bytes × ℕ)) → part (record s { pool = p }) ≡ part s
  pub dialed : (s : Client) (n : ℕ) → part (record s { dialed = n }) ≡ part s

module _ {X : Type 0} (part : Client → X) (apart : IsApart part) where
  abbrev pub Same : Client → Client → Type 0
  Same s s' = part s' ≡ part s

  run_on-part :
      {A : Type 0} (id : ℕ) (m : Action NodeConnection A) (s : Client)
      (found : Option NodeConnection)
      → part (run_on id m s found).1 ≡ part s
  unfolding run_on
  run_on-part id m s none = refl
  run_on-part id m s (some c) = apart.heap s _

  pub on_connection-Keeps :
      {A : Type 0} (id : ℕ) (m : Action NodeConnection A) → Keeps part (on_connection id m)
  unfolding on_connection
  on_connection-Keeps id m = record { at = λ s. run_on-part id m s (get_elem? s.heap id) }

  module _ (env : Env) (world : World) where
    dial-Keeps : (peer : PeerConnectInfo) → Keeps part (pooled_or_new env world peer none)
    unfolding pooled_or_new connect add_connection
    dial-Keeps peer =
        Keeps-bind part _ _ (record { at = λ s. apart.dialed s _ })
          λ conn. record { at = λ s. apart.pool (record s { heap = _ }) _ ∙ apart.heap s _ }

    pub Same-Allows : Allows env world Same
    unfolding drop_connection
    Same-Allows = record {
      order = record { stay = λ s. refl; next = λ s s' s'' e e'. e' ∙ e };
      ask = λ id m k. record { at = (on_connection-Keeps id m).at };
      dial = λ peer. record { at = (dial-Keeps peer).at };
      forget = λ key. record { at = λ s. apart.pool s _ };
    }
