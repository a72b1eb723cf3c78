-- ===== src/Client/Examples/Forged.antt =====
-- src/lib.rs: a bootstrap node that answers one client with two peers, and another with one.
use ant_wasm_client.Base.{◌≡◌, refl, none, [], ◌∷◌, Bytes, take, drop, replicate, ok}
use ant_wasm_client.Base.Words.{to_be_bytes, from_be_bytes}
use ant_wasm_client.Texts.{trim}
use ant_wasm_client.Protocol.{DiscoveryBody, PeerConnectInfo, closest_peers_response}
use ant_wasm_client.Env.{Env, encode_discovery, decode_discovery}
use ant_wasm_client.Framing.{encode_frame, next_frame, push, chunks, split_messages}
use ant_wasm_client.Transport.{from_open, recv_loop, recv_frame, send_frame}
use ant_wasm_client.Tunnel.{byte_at, build_nonce, seal_request, open_response}
use ant_wasm_client.Action.{◌>>=◌}
use ant_wasm_client.Conn.{accept_peers, next_seq, exchange, round_trip, strip_tag, closest_peers}
use ant_wasm_client.Client.{Client, run_on, on_connection}
use ant_wasm_client.Client.Parse.{parse_address, fixed}
use ant_wasm_client.Client.Calls.{closest_peers_json}
use ant_wasm_client.Client.Forged.{forged, closest_peers_json-forged}
use ant_wasm_client.Client.Examples.{env, world, peer, served, connection, client}

abbrev other : PeerConnectInfo
other = record { peer_id = 9 ∷ []; ip = 8 ∷ []; port = 4070; cert_hash = 7 ∷ [] }

abbrev listing : Bytes → DiscoveryBody
listing [] = closest_peers_response (record { peers = forged (env served) world peer other ∷ [] })
listing (b ∷ bytes) = closest_peers_response (record { peers = peer ∷ other ∷ [] })

abbrev forging : Env
forging = record (env served) {
  discovery = record (env served).discovery {
    from_slice = λ b. ok (record { request_id = 1; body = listing b });
  };
}

abbrev deceived : Client
deceived = record client {
  heap =
      record (connection 2) {
        transport = from_open (encode_frame (3 ∷ 0 ∷ 0 ∷ 0 ∷ 1 ∷ 2 ∷ []) ∷ []) (λ _. none);
      }
      ∷ [];
}

abbrev informed : Client
informed = record client { heap = connection 2 ∷ [] }

one :
    (on_connection 0 (closest_peers forging (replicate 32 1)) deceived).0
    ≡ ok (forged forging world peer other ∷ [])
unfolding forged on_connection run_on closest_peers accept_peers encode_discovery decode_discovery
    round_trip next_seq exchange strip_tag ◌>>=◌ send_frame recv_frame recv_loop push next_frame
    split_messages chunks from_open encode_frame seal_request open_response byte_at build_nonce
    to_be_bytes from_be_bytes take drop
one = refl

two : (on_connection 0 (closest_peers forging (replicate 32 1)) informed).0 ≡ ok (peer ∷ other ∷ [])
unfolding on_connection run_on closest_peers accept_peers encode_discovery decode_discovery
    round_trip next_seq exchange strip_tag ◌>>=◌ send_frame recv_frame recv_loop push next_frame
    split_messages chunks from_open encode_frame seal_request open_response byte_at build_nonce
    to_be_bytes from_be_bytes take drop
two = refl

closest_peers_json-forged_example :
    (closest_peers_json forging world (replicate 32 1) deceived).0
    ≡ (closest_peers_json forging world (replicate 32 1) informed).0
unfolding parse_address fixed trim
closest_peers_json-forged_example =
    closest_peers_json-forged forging world (replicate 32 1) (replicate 32 1) peer other deceived
      informed refl one two
