-- ===== src/Client/Calls.antt =====
-- src/lib.rs: the calls of the page beside `download` and `upload`; src/conn.rs: `connect_via_relay`.
use ant_wasm_client.Base.{
  ℕ, suc, [], ◌∷◌, ◌++◌, map, none, some, Bytes, Text, ok, err, length, get_elem?,
}
use ant_wasm_client.Errors.{Fallible, no_such_connection}
use ant_wasm_client.Protocol.{PeerConnectInfo}
use ant_wasm_client.Env.{Env}
use ant_wasm_client.Texts.{codes, join, decimal_u16}
use ant_wasm_client.Transport.Connect
use ant_wasm_client.Transport.Connect.{Opened}
use ant_wasm_client.Action.{Action, pure, lift, gets, ◌>>=◌}
use ant_wasm_client.Conn.{NodeConnection, closest_peers, get_verified, signal_relay}
use ant_wasm_client.Client.{World, Client, establish_on, on_connection, connect, get_direct}
use ant_wasm_client.Client.Parse.{parse_address, parse_opt_peer_id}

-- The client around its bootstrap connection.
unfoldable pub client_of : NodeConnection → Client
client_of bootstrap = record {
  bootstrap = 0;
  pool = (bootstrap.peer_id, 0) ∷ [];
  heap = bootstrap ∷ [];
  chunks_fetched = 0;
  dialed = 1;
  paid = [];
}

-- Before the first dial there is no client.
abbrev pub undialed : Client
undialed = record { bootstrap = 0; pool = []; heap = []; chunks_fetched = 0; dialed = 0; paid = [] }

module _ (env : Env) (world : World) where
  -- `WasmClient::connect`
  unfoldable pub start : Text → ℕ → Text → Text → Fallible Client
  unfolding connect client_of parse_opt_peer_id
  start ip port cert_hash_hex peer_id_hex =
      ((do
        expected ← lift {S = Client} (parse_opt_peer_id world.hex_decode peer_id_hex)
        bootstrap ← connect env world ip port cert_hash_hex expected
        pure (client_of bootstrap))
        undialed).0

  -- The getters.
  unfoldable pub peer_id : Client → Fallible Text
  peer_id s = elim (get_elem? s.heap s.bootstrap) [
    | none ↦ err no_such_connection
    | some conn ↦ ok (world.hex_encode conn.peer_id)
  ]

  unfoldable pub connection_count : Client → ℕ
  connection_count s = length s.pool

  unfoldable pub chunk_count : Client → ℕ
  chunk_count s = s.chunks_fetched

  unfoldable pub fetch_chunk : Text → Action Client Bytes
  unfolding get_direct
  fetch_chunk address_hex = do
    address ← lift (parse_address world.hex_decode address_hex)
    get_direct env world address

  -- `NodeConnection::connect_via_relay`: what relays is a connection of the client.
  unfoldable pub connect_via_relay : ℕ → Text → Bytes → Action Client NodeConnection
  unfolding establish_on Connect.connect_via_relay
  connect_via_relay relay stun target_peer_id s =
      let r =
        Connect.connect_via_relay (world.browser s.dialed) stun
          (λ offer_sdp. on_connection relay (signal_relay env target_peer_id offer_sdp)) s in
      (
        establish_on env world s.dialed (some target_peer_id) r.0,
        record r.1 { dialed = suc s.dialed },
      )

  -- The connection that it opens does not enter the pool.
  unfoldable pub relayed_fetch : Text → Text → Text → Action Client ℕ
  unfolding connect_via_relay
  relayed_fetch target_peer_id_hex stun_addr address_hex = do
    target ← lift (parse_address world.hex_decode target_peer_id_hex)
    address ← lift (parse_address world.hex_decode address_hex)
    bootstrap ← gets (λ s. s.bootstrap)
    conn ← connect_via_relay bootstrap stun_addr target
    content ← lift ((get_verified env address conn).0)
    pure (length content)

  abbrev pub peer_json : PeerConnectInfo → Text
  peer_json p = join [] (
      codes "{\"peer_id\":\""
      ∷ world.hex_encode p.peer_id
      ∷ codes "\",\"ip\":\""
      ∷ p.ip
      ∷ codes "\",\"port\":"
      ∷ decimal_u16 p.port
      ∷ codes ",\"cert_hash\":\""
      ∷ world.hex_encode p.cert_hash
      ∷ codes "\"}"
      ∷ [])

  unfoldable pub closest_peers_json : Text → Action Client Text
  closest_peers_json address_hex = do
    address ← lift (parse_address world.hex_decode address_hex)
    bootstrap ← gets (λ s. s.bootstrap)
    peers ← on_connection bootstrap (closest_peers env address)
    pure (codes "[" ++ (join (codes ",") (map peer_json peers) ++ codes "]"))

-- `content_address`, and `env` gives its hash.
unfoldable pub content_address : Env → Bytes → Bytes
content_address env bytes = env.hashes.blake3 bytes
