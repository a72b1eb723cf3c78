-- ===== src/Conn/Examples.antt =====
-- src/conn.rs against a node that answers one request. The cryptography is a toy: hashing, sealing
-- and the encoding of a chunk keep the bytes.
use ant_wasm_client.Base.{
  ℕ, ◌<◌, ◌≡◌, refl, true, none, some, List, [], ◌∷◌, ◌++◌, append-nil, Bytes, ok, err, arith,
  replicate, take, drop,
}
use ant_wasm_client.Base.Words.{to_be_bytes, from_be_bytes}
use ant_wasm_client.Env.{Env, encode_chunk, decode_chunk}
use ant_wasm_client.Protocol.{ChunkMessage, ChunkGetResponse, get_response}
use ant_wasm_client.Framing.{encode_frame, next_frame, push, chunks, split_messages}
use ant_wasm_client.Transport.{from_open, recv_loop, recv_frame, send_frame}
use ant_wasm_client.Tunnel.{byte_at, build_nonce, seal_request, open_response}
use ant_wasm_client.Action.{◌>>=◌}
use ant_wasm_client.Conn.{
  NodeConnection, accept_chunk, next_seq, exchange, round_trip, strip_tag, get_verified,
}
use ant_wasm_client.External.{Opens}
use ant_wasm_client.Transport.{Transport}
use ant_wasm_client.Transport.Exchange.{Delivers}
use ant_wasm_client.Tunnel.{from_shared_secret, max_seq}
use ant_wasm_client.Tunnel.Handshake.{server_accept}
use ant_wasm_client.Conn.{establish}
use ant_wasm_client.Conn.Accepted.{IsAccept, establish-server_accept}
use ant_wasm_client.Conn.Answered.{
  Seals, reply, replies, round_trips, all_messages, round_trips-node,
}
use ant_wasm_client.Conn.Own.{Exchanged, round_trip-Answers}
use ant_wasm_client.Conn.Served.{get_verified-served}
use ant_wasm_client.Conn.Verified.{get_verified-hash}
use ant_wasm_client.Conn.Sequence.{SentOnce, after_trips, after_trips-Distinct}

-- A response whose content is the bytes that encode it.
abbrev answer : Bytes → ChunkMessage
answer bytes = record { request_id = 1; body = get_response (ChunkGetResponse.success bytes bytes) }

abbrev env : Env
env = record {
  hashes = record { blake3 = λ b. b; derive_key = λ t ss. ss; keccak256 = λ b. b };
  dsa = record { valid_key = λ _. true; verify = λ _ _ _ _. true };
  kem = record { valid_ciphertext = λ _. true; try_decaps = λ dk _. some dk };
  aead = record { encrypt = λ _ _ text. some text; decrypt = λ _ _ text. some text };
  chunk = record { to_vec = λ _. ok (4 ∷ []); from_slice = λ bytes. ok (answer bytes) };
  discovery = record { to_vec = λ _. err []; from_slice = λ _. err [] };
  signal = record { to_vec = λ _. err []; from_slice = λ _. err [] };
}

-- Before its request number `seq`, with the answer `[6, 7]` to the first request on its way.
abbrev connection : ℕ → NodeConnection
connection seq = record {
  transport = from_open (encode_frame (3 ∷ 0 ∷ 0 ∷ 0 ∷ 1 ∷ 1 ∷ 6 ∷ 7 ∷ []) ∷ []) (λ _. none);
  cipher = record { key = [] };
  peer_id = [];
  next_seq = seq;
}

answered : (get_verified env (6 ∷ 7 ∷ []) (connection 1)).0 ≡ ok (6 ∷ 7 ∷ [])
unfolding get_verified round_trip next_seq exchange strip_tag encode_chunk decode_chunk accept_chunk
    ◌>>=◌ send_frame recv_frame recv_loop push next_frame split_messages chunks from_open
    encode_frame seal_request open_response byte_at build_nonce to_be_bytes from_be_bytes take drop
answered = refl

get_verified-hash_example : env.hashes.blake3 (6 ∷ 7 ∷ []) ≡ 6 ∷ 7 ∷ []
get_verified-hash_example = get_verified-hash env (6 ∷ 7 ∷ []) (connection 1) (6 ∷ 7 ∷ []) answered

after_trips-Distinct_example :
    SentOnce env [] 1
      ((1, 4 ∷ []) ∷ (1, 5 ∷ []) ∷ [])
      []
      (after_trips env ((1, 4 ∷ []) ∷ (1, 5 ∷ []) ∷ []) (connection 1)).transport.sent
unfolding from_open
after_trips-Distinct_example =
    after_trips-Distinct env ((1, 4 ∷ []) ∷ (1, 5 ∷ []) ∷ []) (connection 1) (λ i. refl)

env-Seals : Seals env.aead
env-Seals = record {
  seal = λ key nonce text. text;
  encrypts = λ key nonce text h. refl;
  tagged = λ key nonce text. omega arith;
}

env-Opens : Opens env.aead
env-Opens key nonce text sealed e = cc

-- A node that echoes the payload.
abbrev echo : ℕ → Bytes → Bytes
echo tag payload = payload

abbrev requests : List (ℕ × Bytes)
requests = (1, 4 ∷ []) ∷ (2, 5 ∷ []) ∷ []

abbrev answering : Bytes → NodeConnection
answering stream = record (connection 1) { transport = from_open (stream ∷ []) (λ _. none) }

answering-Delivers : (stream : Bytes) → Delivers stream (answering stream).transport
unfolding from_open
answering-Delivers stream = record { held = append-nil stream; no_faults = λ i. refl }

round_trips-node_example :
    (round_trips env env-Seals env-Opens requests
        (answering (replies env env-Seals env-Opens echo [] 1 requests))
      ≡ ok (4 ∷ []) ∷ ok (5 ∷ []) ∷ [])
    × ((after_trips env requests
          (answering (replies env env-Seals env-Opens echo [] 1 requests))).transport.sent
        ≡ all_messages env env-Seals env-Opens [] 1 requests)
unfolding split_messages from_open
round_trips-node_example =
    round_trips-node env env-Seals env-Opens echo requests
      (answering (replies env env-Seals env-Opens echo [] 1 requests)) (omega arith)
      ((omega arith, omega arith), ((omega arith, omega arith), tt))
      (answering-Delivers (replies env env-Seals env-Opens echo [] 1 requests))

abbrev serving : NodeConnection
serving = answering (encode_frame (reply env env-Seals env-Opens [] 1 1 (6 ∷ 7 ∷ [])) ++ [])

get_verified-served_example : (get_verified env (6 ∷ 7 ∷ []) serving).0 ≡ ok (6 ∷ 7 ∷ [])
unfolding encode_chunk decode_chunk
get_verified-served_example =
    get_verified-served env env-Seals env-Opens (6 ∷ 7 ∷ []) (6 ∷ 7 ∷ []) (4 ∷ []) (6 ∷ 7 ∷ []) []
      (answer (6 ∷ 7 ∷ [])) serving (omega arith) refl (omega arith) refl refl refl
      (answering-Delivers (encode_frame (reply env env-Seals env-Opens [] 1 1 (6 ∷ 7 ∷ [])) ++ []))

abbrev accepting : Transport
accepting =
    from_open
      (encode_frame (server_accept (replicate 1088 1) (replicate 1952 2) (replicate 3309 3)) ∷ [])
      (λ _. none)

accepting-Delivers :
    Delivers
      (encode_frame (server_accept (replicate 1088 1) (replicate 1952 2) (replicate 3309 3)) ++ [])
      accepting
unfolding from_open
accepting-Delivers = record { held = refl; no_faults = λ i. refl }

accepting-IsAccept :
    IsAccept env
      (8 ∷ [])
      (9 ∷ [])
      (some (replicate 1952 2))
      (replicate 1088 1)
      (replicate 1952 2)
      (replicate 3309 3)
      (9 ∷ [])
accepting-IsAccept = record {
  ct_size = refl;
  pubkey_size = refl;
  signature_size = refl;
  valid_key = refl;
  signed = refl;
  pinned = refl;
  valid_ct = refl;
  decapsulated = refl;
}

establish-server_accept_example :
    (t : Transport) × ((establish env (ok (8 ∷ [], 9 ∷ [])) (some (replicate 1952 2)) accepting).0
      ≡ ok (record {
        transport = t;
        cipher = from_shared_secret env.hashes (9 ∷ []);
        peer_id = replicate 1952 2;
        next_seq = 1;
      }))
    × Delivers [] t
establish-server_accept_example =
    establish-server_accept env (8 ∷ []) (9 ∷ []) (some (replicate 1952 2)) (replicate 1088 1)
      (replicate 1952 2) (replicate 3309 3) (9 ∷ []) [] accepting accepting-IsAccept
      accepting-Delivers

own_answer : (round_trip env 1 (4 ∷ []) (connection 1)).0 ≡ ok (6 ∷ 7 ∷ [])
unfolding round_trip next_seq exchange strip_tag ◌>>=◌ send_frame recv_frame recv_loop push
    next_frame split_messages chunks from_open encode_frame seal_request open_response byte_at
    build_nonce to_be_bytes from_be_bytes take drop
own_answer = refl

round_trip-Answers_example :
    (1 < max_seq)
    × Exchanged env (connection 1).cipher 1 1 (4 ∷ []) (6 ∷ 7 ∷ []) (connection 1).transport
round_trip-Answers_example =
    round_trip-Answers env 1 (4 ∷ []) (connection 1) (6 ∷ 7 ∷ []) own_answer
