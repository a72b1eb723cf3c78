-- ===== src/Client/Moves/Calls.antt =====
-- src/lib.rs: how the calls of the page move the client.
use ant_wasm_client.Base.{ℕ, zero, suc, none, some, List, [], ◌∷◌, Bytes, Text, ok, err}
use ant_wasm_client.Errors.{Fallible}
use ant_wasm_client.Env.{Env}
use ant_wasm_client.Action.{pure, lift, ◌>>=◌}
use ant_wasm_client.Action.Moves.{
  IsPreorder, Moves, Moves-lift, Moves-gets, Moves-pure, Moves-if, Moves-bind,
}
use ant_wasm_client.Conn.Identity.{closest_peers-Advances}
use ant_wasm_client.Retrieval.{SelfEncryption, Retrieval, is_complete}
use ant_wasm_client.Client.{World, Client, call_pay}
use ant_wasm_client.Client.Download.{
  reset_fetched, count_fetched, supply_all, download_rounds, download,
}
use ant_wasm_client.Client.Calls.{connect_via_relay, fetch_chunk, relayed_fetch, closest_peers_json}
use ant_wasm_client.Client.Moves.Rounds.{fetch_round-Moves}
use ant_wasm_client.Client.Moves.{Allows, get_direct-Moves}

-- The steps that the calls add: the counter, a call of `pay`, and a dial through the relay.
pub record AllowsCalls (env : Env) (world : World) (R : Client → Client → Type 0) : Type 1 where
  pub steps : Allows env world R
  pub reset : Moves R reset_fetched
  pub count : Moves R count_fetched
  pub pay : (to calldata : Text) → Moves R (call_pay env world to calldata)
  pub relay :
      (id : ℕ) (stun : Text) (target : Bytes) → Moves R (connect_via_relay env world id stun target)

module _ (env : Env) (world : World) (R : Client → Client → Type 0)
    (allows : AllowsCalls env world R) where
  abbrev order : IsPreorder R
  order = allows.steps.order

  module _ {DataMap : Type 0} (se : SelfEncryption DataMap) (schedules : ℕ → List ℕ) where
    supply_all-Moves :
        (fetched : List (Bytes × Fallible Bytes)) (r : Retrieval DataMap)
        → Moves R (supply_all env world se schedules fetched r)
    unfolding supply_all
    supply_all-Moves [] r = Moves-pure R order r
    supply_all-Moves ((address, err e) ∷ fetched) r = Moves-lift R order _
    supply_all-Moves ((address, ok bytes) ∷ fetched) r =
        Moves-bind R order _ _ (Moves-lift R order _)
          λ r'. Moves-bind R order _ _ allows.count λ _. supply_all-Moves fetched r'

    finish-Moves :
        (result : Fallible Bytes) → Moves R (lift {S = Client} result >>= (λ b. pure (some b)))
    finish-Moves result =
        Moves-bind R order _ _ (Moves-lift R order result) λ b. Moves-pure R order (some b)

    download_rounds-Moves :
        (rounds : ℕ) (r : Retrieval DataMap)
        → Moves R (download_rounds env world se schedules rounds r)
    unfolding download_rounds
    download_rounds-Moves zero r =
        Moves-if R order (is_complete se r) _ _ (finish-Moves _) (Moves-pure R order none)
    download_rounds-Moves (suc rounds) r =
        Moves-if R order (is_complete se r) _ _ (finish-Moves _) (
          Moves-bind R order _ _ (fetch_round-Moves env world R allows.steps (schedules rounds) _)
            λ fetched. Moves-bind R order _ _ (supply_all-Moves fetched r) λ r'.
              Moves-bind R order _ _ (Moves-lift R order _) λ r''. download_rounds-Moves rounds r'')

    pub download-Moves :
        (address_hex : Text) → Moves R (download env world se schedules address_hex)
    unfolding download
    download-Moves address_hex = Moves-bind R order _ _ (Moves-lift R order _) λ address.
        Moves-bind R order _ _ allows.reset λ _.
          Moves-bind R order _ _ (get_direct-Moves env world R allows.steps address) λ map_bytes.
            Moves-bind R order _ _ allows.count
              λ _. Moves-bind R order _ _ (Moves-lift R order _) λ r. download_rounds-Moves 2 r

  pub fetch_chunk-Moves : (address_hex : Text) → Moves R (fetch_chunk env world address_hex)
  unfolding fetch_chunk
  fetch_chunk-Moves address_hex =
      Moves-bind R order _ _ (Moves-lift R order _)
        λ address. get_direct-Moves env world R allows.steps address

  pub relayed_fetch-Moves :
      (target stun address_hex : Text) → Moves R (relayed_fetch env world target stun address_hex)
  unfolding relayed_fetch
  relayed_fetch-Moves target stun address_hex = Moves-bind R order _ _ (Moves-lift R order _) λ t.
      Moves-bind R order _ _ (Moves-lift R order _) λ address.
        Moves-bind R order _ _ (Moves-gets R order _) λ id.
          Moves-bind R order _ _ (allows.relay id stun t)
            λ conn. Moves-bind R order _ _ (Moves-lift R order _) λ content. Moves-pure R order _

  pub closest_peers_json-Moves :
      (address_hex : Text) → Moves R (closest_peers_json env world address_hex)
  unfolding closest_peers_json
  closest_peers_json-Moves address_hex = Moves-bind R order _ _ (Moves-lift R order _) λ address.
      Moves-bind R order _ _ (Moves-gets R order _) λ id.
        Moves-bind R order _ _ (allows.steps.ask id _ (closest_peers-Advances env address))
          λ peers. Moves-pure R order _
