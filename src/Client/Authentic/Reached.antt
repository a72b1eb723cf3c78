-- ===== src/Client/Authentic/Reached.antt =====
-- src/lib.rs: the states of a client, from `WasmClient::connect` on.
use ant_wasm_client.Base.{ℕ, ◌≡◌, refl, List, Option, Bytes, Text, ok, ok-injective, subst}
use ant_wasm_client.Env.{Env}
use ant_wasm_client.Action.{bind-eq_ok}
use ant_wasm_client.Retrieval.{SelfEncryption}
use ant_wasm_client.Conn.{NodeConnection}
use ant_wasm_client.Conn.Identity.{session_of}
use ant_wasm_client.Conn.Established.{IsEstablished}
use ant_wasm_client.Client.{World, Client}
use ant_wasm_client.Client.Calls.{
  undialed, start, client_of, fetch_chunk, relayed_fetch, closest_peers_json,
}
use ant_wasm_client.Client.Download.{download}
use ant_wasm_client.Client.Upload.{Encryption, upload}
use ant_wasm_client.Client.Moves.Calls.{
  AllowsCalls, download-Moves, fetch_chunk-Moves, relayed_fetch-Moves, closest_peers_json-Moves,
}
use ant_wasm_client.Client.Moves.Storing.{upload-Moves}
use ant_wasm_client.Client.Authentic.{IsAuthentic, IsSessionWith, Grows}
use ant_wasm_client.Client.Authentic.Dials.{Grows-AllowsCalls, connect-IsEstablished}

module _ (env : Env) (world : World) {DataMap : Type 0} (se : SelfEncryption DataMap)
    (encryption : Encryption DataMap) where
  -- A call of the page, whether it returns or fails.
  pub data Called : Client → Client → Type 0 where
    downloaded :
        (schedules : ℕ → List ℕ) (address_hex : Text) (s : Client)
        → Called s (download env world se schedules address_hex s).1
    chunk_fetched :
        (address_hex : Text) (s : Client) → Called s (fetch_chunk env world address_hex s).1
    uploaded :
        (content : Bytes) (token vault : Text) (s : Client)
        → Called s (upload env world encryption content token vault s).1
    relayed :
        (target stun address_hex : Text) (s : Client)
        → Called s (relayed_fetch env world target stun address_hex s).1
    peers_listed :
        (address_hex : Text) (s : Client) → Called s (closest_peers_json env world address_hex s).1

  -- The clients that a page can have: a started one, and what calls make of it.
  pub data Reached : Client → Type 0 where
    started :
        (ip : Text) (port : ℕ) (cert_hash_hex peer_id_hex : Text) (s : Client)
        → start env world ip port cert_hash_hex peer_id_hex ≡ ok s
        → Reached s
    then_called : {s s' : Client} → Reached s → Called s s' → Reached s'

  -- The calls move the client as its methods do.
  module _ (R : Client → Client → Type 0) (allows : AllowsCalls env world R) where
    pub Called-Moves : {s s' : Client} → Called s s' → R s s'
    Called-Moves (downloaded schedules address_hex s) =
        (download-Moves env world R allows se schedules address_hex).at s
    Called-Moves (chunk_fetched address_hex s) =
        (fetch_chunk-Moves env world R allows address_hex).at s
    Called-Moves (uploaded content token vault s) =
        (upload-Moves env world R allows encryption content token vault).at s
    Called-Moves (relayed target stun address_hex s) =
        (relayed_fetch-Moves env world R allows target stun address_hex).at s
    Called-Moves (peers_listed address_hex s) =
        (closest_peers_json-Moves env world R allows address_hex).at s

  client_of-IsAuthentic :
      (expected : Option Bytes) (c : NodeConnection)
      → IsEstablished env (world.keygen 0) expected (session_of c)
      → IsAuthentic env world (client_of c)
  unfolding client_of
  client_of-IsAuthentic expected c h =
      let with_key : IsSessionWith env world c.peer_id (session_of c) = record {
        identity = refl;
        dial = 0;
        expected = expected;
        established = h;
      } in
      record {
        boot_key = c.peer_id;
        boot = (session_of c, refl, with_key);
        pooled = ((session_of c, refl, with_key), tt);
      }

  start-IsAuthentic :
      (ip : Text) (port : ℕ) (cert_hash_hex peer_id_hex : Text) (s : Client)
      → start env world ip port cert_hash_hex peer_id_hex ≡ ok s
      → IsAuthentic env world s
  unfolding start
  start-IsAuthentic ip port cert_hash_hex peer_id_hex s h =
      let (expected, _, h₁) = bind-eq_ok _ _ undialed h in
      let (c, connected, h₂) = bind-eq_ok _ _ undialed h₁ in
      subst (IsAuthentic env world) (ok-injective (client_of c) s h₂) (
        client_of-IsAuthentic expected c
          (connect-IsEstablished env world ip port cert_hash_hex expected undialed c connected))

  -- In every client that a page can have, whatever it called and whatever the nodes answered, each
  -- pooled connection is a session with the node under whose identity it is pooled, and the bootstrap
  -- connection is a session with some node: a handshake of this client authenticated the identity and
  -- gave the connection the key that it seals with.
  pub Reached-IsAuthentic : (s : Client) → Reached s → IsAuthentic env world s
  Reached-IsAuthentic s (started ip port cert_hash_hex peer_id_hex _ h) =
      start-IsAuthentic ip port cert_hash_hex peer_id_hex s h
  Reached-IsAuthentic s (then_called r c) =
      (Called-Moves (Grows env world) (Grows-AllowsCalls env world) c).authentic
        (Reached-IsAuthentic _ r)
