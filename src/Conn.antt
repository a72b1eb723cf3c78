-- ===== src/Conn.antt =====
-- src/conn.rs: one authenticated connection. The request lock makes round trips on a connection
-- run one after another, so a method is an action on the connection's state.
pub mod Identity
pub mod Established
pub mod Accepted
pub mod Answered
pub mod Served
pub mod Outbox
pub mod Sequence
pub mod Verified
pub mod Own
mod Examples
use ant_wasm_client.Base.{
  ℕ, suc, Bool, Option, List, [], ◌∷◌, leb, ◌==◌, if◌then◌else◌, Bytes, Text, bytes_eq, Result, ok,
  err, ensure,
}
use ant_wasm_client.Errors.{
  Fallible, sequence_exhausted, unexpected_tag, response_address_mismatch, unexpected_response,
  unexpected_discovery_response, unexpected_signal_response, response_seq_mismatch, blake3_failed,
  not_found, node_error, discovery_error, signal_relay_error,
}
use ant_wasm_client.Protocol.{
  ChunkMessage, ChunkMessageBody, ChunkGetResponse, DiscoveryBody, PeerConnectInfo, SignalRelayBody,
  proto_chunk, proto_discovery, proto_signal, get_request, get_response, closest_peers_request,
  closest_peers_response, request, response,
}
use ant_wasm_client.Env.{
  Env, encode_chunk, decode_chunk, encode_discovery, decode_discovery, encode_signal, decode_signal,
}
use ant_wasm_client.Transport.{Transport, send_frame, recv_frame}
use ant_wasm_client.Tunnel
use ant_wasm_client.Tunnel.{SessionCipher, max_seq, seal_request, open_response}
use ant_wasm_client.Action.{Action, pure, lift, gets, ◌>>=◌, ◌>>◌}

pub record NodeConnection : Type 0 where
  pub transport : Transport
  pub cipher : SessionCipher
  pub peer_id : Bytes
  pub next_seq : ℕ

-- `establish`, on what the key generation returned, over an open transport.
unfoldable pub establish :
    Env → Result (Bytes × Bytes) Text → Option Bytes → Action Transport NodeConnection
establish env keygen expected = do
  (handshake, hello) ← lift (Tunnel.start keygen)
  send_frame hello
  accept ← recv_frame
  established ← lift (Tunnel.finish env.hashes env.dsa env.kem handshake accept expected)
  transport ← gets (λ t. t)
  pure (record {
    transport = transport;
    cipher = established.cipher;
    peer_id = established.peer_id;
    next_seq = 1;
  })

-- An action on the transport of a connection.
abbrev pub on_transport : {A : Type 0} → Action Transport A → Action NodeConnection A
on_transport m c = let r = m c.transport in (r.0, record c { transport = r.1 })

unfoldable pub next_seq : Action NodeConnection ℕ
next_seq c =
    if leb max_seq c.next_seq
    then (err sequence_exhausted, c)
    else (ok c.next_seq, record c { next_seq = suc c.next_seq })

-- The response plaintext without its protocol tag.
unfoldable pub strip_tag : ℕ → Bytes → Fallible Bytes
strip_tag tag [] = err unexpected_tag
strip_tag tag (first ∷ rest) = if first == tag then ok rest else err unexpected_tag

-- `round_trip` once it has its sequence number.
unfoldable pub exchange : Env → ℕ → Bytes → ℕ → Action NodeConnection Bytes
exchange env tag payload seq = do
  cipher ← gets (λ c. c.cipher)
  envelope ← lift (seal_request env.aead cipher seq (tag ∷ payload))
  on_transport (send_frame envelope)
  frame ← on_transport recv_frame
  (resp_seq, plaintext) ← lift (open_response env.aead cipher frame)
  lift (ensure (resp_seq == seq) (response_seq_mismatch resp_seq seq))
  lift (strip_tag tag plaintext)

unfoldable pub round_trip : Env → ℕ → Bytes → Action NodeConnection Bytes
round_trip env tag payload = do seq ← next_seq; exchange env tag payload seq

-- What `get_verified` makes of the response body.
unfoldable pub accept_chunk : Env → Bytes → ChunkMessageBody → Fallible Bytes
accept_chunk env address (get_response (ChunkGetResponse.success resp_address content)) =
    if bytes_eq resp_address address
    then (if bytes_eq (env.hashes.blake3 content) address
        then ok content
        else err (blake3_failed address))
    else err response_address_mismatch
accept_chunk env address (get_response (ChunkGetResponse.not_found _)) = err (not_found address)
accept_chunk env address (get_response (ChunkGetResponse.error e)) = err (node_error e)
accept_chunk env address _ = err unexpected_response

abbrev pub get_request_for : Bytes → ℕ → ChunkMessage
get_request_for address request_id = record {
  request_id = request_id;
  body = get_request (record { address = address });
}

unfoldable pub get_verified : Env → Bytes → Action NodeConnection Bytes
unfolding accept_chunk
get_verified env address = do
  request_id ← gets (λ c. c.next_seq)
  bytes ← lift (encode_chunk env (get_request_for address request_id))
  plaintext ← round_trip env proto_chunk bytes
  answer ← lift (decode_chunk env plaintext)
  lift (accept_chunk env address answer.body)

unfoldable pub accept_peers : DiscoveryBody → Fallible (List PeerConnectInfo)
accept_peers (closest_peers_response r) = ok r.peers
accept_peers (DiscoveryBody.error e) = err (discovery_error e)
accept_peers (closest_peers_request _) = err unexpected_discovery_response

unfoldable pub closest_peers : Env → Bytes → Action NodeConnection (List PeerConnectInfo)
unfolding accept_peers
closest_peers env address = do
  request_id ← gets (λ c. c.next_seq)
  bytes ← lift (
      encode_discovery env (record {
        request_id = request_id;
        body = closest_peers_request (record { address = address });
      }))
  plaintext ← round_trip env proto_discovery bytes
  answer ← lift (decode_discovery env plaintext)
  lift (accept_peers answer.body)

unfoldable pub accept_answer : SignalRelayBody → Fallible Text
accept_answer (response r) = ok r.sdp_answer
accept_answer (SignalRelayBody.error e) = err (signal_relay_error e)
accept_answer (request _) = err unexpected_signal_response

unfoldable pub signal_relay : Env → Bytes → Text → Action NodeConnection Text
unfolding accept_answer
signal_relay env target_peer_id sdp_offer = do
  request_id ← gets (λ c. c.next_seq)
  bytes ← lift (
      encode_signal env (record {
        request_id = request_id;
        body = request (record { target_peer_id = target_peer_id; sdp_offer = sdp_offer });
      }))
  plaintext ← round_trip env proto_signal bytes
  answer ← lift (decode_signal env plaintext)
  lift (accept_answer answer.body)

unfoldable pub chunk_round_trip : Env → ChunkMessage → Action NodeConnection ChunkMessage
chunk_round_trip env message = do
  bytes ← lift (encode_chunk env message)
  plaintext ← round_trip env proto_chunk bytes
  lift (decode_chunk env plaintext)
