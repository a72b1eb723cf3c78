-- ===== src/Client/Connected.antt =====
-- src/lib.rs: `WasmClient::connect` with a node that answers the handshake.
use ant_wasm_client.Base.{
  ℕ, ◌≡◌, refl, ap, ◌∙◌, Option, some, get_elem?, [], ◌∷◌, ◌++◌, Bytes, bytes_eq_refl, Text, ok,
}
use ant_wasm_client.Assoc.{lookup}
use ant_wasm_client.Protocol.{PeerConnectInfo}
use ant_wasm_client.Env.{Env}
use ant_wasm_client.Framing.{encode_frame}
use ant_wasm_client.Transport.Connect
use ant_wasm_client.Transport.Connect.{Opened}
use ant_wasm_client.Transport.Exchange.{Delivers}
use ant_wasm_client.Tunnel.{SessionCipher, from_shared_secret}
use ant_wasm_client.Tunnel.Handshake.{server_accept}
use ant_wasm_client.Action.{bind-of_ok}
use ant_wasm_client.Conn.{NodeConnection, establish}
use ant_wasm_client.Conn.Accepted.{IsAccept, establish-server_accept}
use ant_wasm_client.Client.{World, Client, establish_on, connect, pooled_or_new, connection_for}
use ant_wasm_client.Client.Parse.{parse_opt_peer_id}
use ant_wasm_client.Client.Calls.{
  undialed, client_of, start, peer_id, connection_count, chunk_count,
}

-- A client that has one connection, which is its bootstrap connection and is pooled.
pub record Connected (env : Env) (world : World) (identity : Bytes) (cipher : SessionCipher)
    (stream : Bytes) (s : Client) : Type 0 where
  pub connection : NodeConnection
  pub bootstrap : get_elem? s.heap s.bootstrap ≡ some connection
  pub key : connection.cipher ≡ cipher
  pub delivers : Delivers stream connection.transport
  pub named : peer_id env world s ≡ ok (world.hex_encode identity)
  pub one : connection_count env world s ≡ 1
  pub none_fetched : chunk_count env world s ≡ 0
  pub pooled :
      (peer : PeerConnectInfo)
      → peer.peer_id ≡ identity
      → connection_for env world peer s ≡ (ok 0, s)

lookup-first : (k j : Bytes) (v : ℕ) → j ≡ k → lookup j ((k, v) ∷ []) ≡ some v
unfolding lookup
lookup-first k j v e = rw e (rw (bytes_eq_refl k) refl)

module _ (env : Env) (world : World) where
  -- A peer that is pooled is not dialed again.
  connection_for-pooled :
      (peer : PeerConnectInfo) (s : Client) (id : ℕ)
      → lookup peer.peer_id s.pool ≡ some id
      → connection_for env world peer s ≡ (ok id, s)
  unfolding connection_for pooled_or_new
  connection_for-pooled peer s id h = bind-of_ok _ _ s s (some id) (ap (λ o. (ok o, s)) h)

  client_of-Connected :
      (c : NodeConnection) (stream : Bytes)
      → Delivers stream c.transport
      → Connected env world c.peer_id c.cipher stream (client_of c)
  unfolding client_of peer_id connection_count chunk_count
  client_of-Connected c stream d = record {
    connection = c;
    bootstrap = refl;
    key = refl;
    delivers = d;
    named = refl;
    one = refl;
    none_fetched = refl;
    pooled = λ peer e.
        connection_for-pooled peer (client_of c) 0 (lookup-first c.peer_id peer.peer_id 0 e);
  }

  connect-server_accept :
      (ip cert : Text) (port : ℕ) (expected : Option Bytes) (o : Opened) (keys : Bytes × Bytes)
      (c : NodeConnection)
      → Connect.connect (world.browser 0) world.upper world.hex_encode ip port cert ≡ ok o
      → world.keygen 0 ≡ ok keys
      → (establish env (ok keys) expected o.transport).0 ≡ ok c
      → connect env world ip port cert expected undialed ≡ (ok c, record undialed { dialed = 1 })
  unfolding connect establish_on
  connect-server_accept ip cert port expected o keys c opened generated established =
      ap (λ r. (r, record undialed { dialed = 1 }))
        (ap (establish_on env world 0 expected) opened
          ∙ ap (λ k. (establish env k expected o.transport).0) generated
          ∙ established)

  -- A page can start: when the browser opens a channel to the node and the node answers the hello
  -- with an accept that is valid for the keys and for the pin that the text gives, over a channel on
  -- which no send fails, `WasmClient::connect` returns a client whose one connection is its
  -- bootstrap, has the identity of the accept and the key derived from the shared secret, still has
  -- to receive what stands behind the accept, and is used, not dialed again, for a discovered peer of
  -- that identity.
  pub start-Connected :
      (ip : Text) (port : ℕ) (cert_hash_hex peer_id_hex : Text) (expected : Option Bytes)
      (o : Opened) (ek dk ct pubkey signature secret stream : Bytes)
      → parse_opt_peer_id world.hex_decode peer_id_hex ≡ ok expected
      → Connect.connect (world.browser 0) world.upper world.hex_encode ip port cert_hash_hex ≡ ok o
      → world.keygen 0 ≡ ok (ek, dk)
      → IsAccept env ek dk expected ct pubkey signature secret
      → Delivers (encode_frame (server_accept ct pubkey signature) ++ stream) o.transport
      → (s : Client) × (start env world ip port cert_hash_hex peer_id_hex ≡ ok s)
        × Connected env world
            (env.hashes.blake3 pubkey)
            (from_shared_secret env.hashes secret)
            stream
            s
  unfolding start
  start-Connected ip port cert_hash_hex peer_id_hex expected o ek dk ct pubkey signature secret
        stream parsed opened generated a d =
      let (t, established, left) =
        establish-server_accept env ek dk expected ct pubkey signature secret stream o.transport a
          d in
      let c : NodeConnection = record {
        transport = t;
        cipher = from_shared_secret env.hashes secret;
        peer_id = env.hashes.blake3 pubkey;
        next_seq = 1;
      } in
      (
        client_of c,
        ap (λ r. r.0)
            (bind-of_ok _ _ undialed undialed expected (ap (λ r. (r, undialed)) parsed)
              ∙ bind-of_ok _ _ undialed (record undialed { dialed = 1 }) c
                  (connect-server_accept ip cert_hash_hex port expected o (ek, dk) c opened
                    generated established)),
        client_of-Connected c stream left,
      )
