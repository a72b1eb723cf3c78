-- ===== src/Client/Moves/Relaying.antt =====
-- src/lib.rs: how a dial through a relay moves the client.
use ant_wasm_client.Base.{ℕ, Bytes, Text}
use ant_wasm_client.Env.{Env}
use ant_wasm_client.Action.Moves.{Moves, Moves-bind, Moves-lift}
use ant_wasm_client.Transport.Connect
use ant_wasm_client.Conn.Identity.{signal_relay-Advances}
use ant_wasm_client.Client.{World, Client}
use ant_wasm_client.Client.Calls.{connect_via_relay}
use ant_wasm_client.Client.Moves.{Allows}

-- From how the question to the relay moves it, and the count of dials.
pub connect_via_relay-Moves :
    (env : Env) (world : World) (R : Client → Client → Type 0)
    → Allows env world R
    → ((s : Client) (n : ℕ) → R s (record s { dialed = n }))
    → (id : ℕ) (stun : Text) (target : Bytes) → Moves R (connect_via_relay env world id stun target)
unfolding connect_via_relay Connect.connect_via_relay
connect_via_relay-Moves env world R allows dialed id stun target = record {
  at = λ s.
      let relayed = Moves-bind R allows.order _ _ (Moves-lift R allows.order _) λ offer.
        Moves-bind R allows.order _ _ (allows.ask id _ (signal_relay-Advances env target offer))
          λ answer. Moves-lift R allows.order _ in
      allows.order.next s _ _ (relayed.at s) (dialed _ _);
}
