-- ===== src/Client/Paid.antt =====
-- src/lib.rs: the parts of `store_one` that make the page pay for nothing.
use ant_wasm_client.Base.{ℕ, refl, List, Bytes, Text}
use ant_wasm_client.Errors.{Error}
use ant_wasm_client.Protocol.{PeerConnectInfo}
use ant_wasm_client.Env.{Env}
use ant_wasm_client.Action.{Action}
use ant_wasm_client.Action.Keeps.{Keeps}
use ant_wasm_client.Conn.{NodeConnection}
use ant_wasm_client.Client.{World, Client, on_connection}
use ant_wasm_client.Client.Kept
use ant_wasm_client.Client.Kept.{IsApart, Same, Same-Allows}
use ant_wasm_client.Client.Store.{QuotedPeer, quote_group, put_all}
use ant_wasm_client.Client.Moves.{quote_group-Moves, put_all-Moves}

-- The calls of `pay` so far.
abbrev pub paid_of : Client → List (Text × Text)
paid_of s = s.paid

paid_of-IsApart : IsApart paid_of
paid_of-IsApart = record { heap = λ s h. refl; pool = λ s p. refl; dialed = λ s n. refl }

pub on_connection-Keeps :
    {A : Type 0} (id : ℕ) (m : Action NodeConnection A) → Keeps paid_of (on_connection id m)
on_connection-Keeps id m = Kept.on_connection-Keeps paid_of paid_of-IsApart id m

module _ (env : Env) (world : World) where
  module _ (address content : Bytes) where
    pub quote_group-Keeps :
        (peers : List PeerConnectInfo) (count : ℕ) (quoted : List QuotedPeer)
        → Keeps paid_of (quote_group env world address content peers count quoted)
    quote_group-Keeps peers count quoted = record {
      at =
          (quote_group-Moves env world (Same paid_of paid_of-IsApart)
            (Same-Allows paid_of paid_of-IsApart env world) address content peers count quoted).at;
    }

    pub put_all-Keeps :
        (proof_bytes : Bytes) (qs : List QuotedPeer) (accepted : ℕ) (last : Error)
        → Keeps paid_of (put_all env world address content proof_bytes qs accepted last)
    put_all-Keeps proof_bytes qs accepted last = record {
      at =
          (put_all-Moves env world (Same paid_of paid_of-IsApart)
            (Same-Allows paid_of paid_of-IsApart env world) address content proof_bytes qs accepted
            last).at;
    }
