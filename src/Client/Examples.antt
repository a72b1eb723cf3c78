-- ===== src/Client/Examples.antt =====
-- src/lib.rs with a bootstrap node that names one peer and a peer that answers one request. The
-- cryptography is a toy that keeps the bytes.
mod Download
mod Forged
mod Holders
mod Paid
mod Relayed
mod Restored
mod Returned
mod Shrunk
mod Started
mod Upload
use ant_wasm_client.Base.{
  List, ℕ, false, ◌≡◌, ◌⊎◌, refl, true, none, some, [], ◌∷◌, Bytes, take, drop, replicate, ok, err,
}
use ant_wasm_client.Base.Words.{to_be_bytes, from_be_bytes}
use ant_wasm_client.Assoc.{lookup}
use ant_wasm_client.External.{Hashes}
use ant_wasm_client.Errors.{no_attempt}
use ant_wasm_client.Payment.{Quote, parse_quote, verify_quote}
use ant_wasm_client.Protocol.{
  ChunkMessageBody, ChunkGetResponse, ChunkQuoteResponse, get_response, quote_response,
  PeerConnectInfo, closest_peers_response,
}
use ant_wasm_client.Env.{Env, encode_chunk, decode_chunk, encode_discovery, decode_discovery}
use ant_wasm_client.Framing.{encode_frame, next_frame, push, chunks, split_messages}
use ant_wasm_client.Transport.Connect.{Browser}
use ant_wasm_client.Transport.{from_open, recv_loop, recv_frame, send_frame}
use ant_wasm_client.Tunnel.{byte_at, build_nonce, seal_request, open_response}
use ant_wasm_client.Action.{◌>>=◌, match_result}
use ant_wasm_client.Conn.{
  NodeConnection, accept_chunk, accept_peers, next_seq, exchange, round_trip, strip_tag,
  get_verified, closest_peers, chunk_round_trip,
}
use ant_wasm_client.Client.{
  World, Client, resolved, run_on, on_connection, pooled_or_new, connection_for, fetch_from,
  fetch_from_any, require_peers, get_direct,
}
use ant_wasm_client.Client.Quotes.{
  accept_quote, request_quote, check_quote, try_quote, IsQuoteFrom, try_quote-IsQuoteFrom,
}
use ant_wasm_client.Client.Store.{QuotedPeer, quote_attempts, quote_peer, quote_group, store_one}
use ant_wasm_client.Client.Retried.{FirstQuote, NoQuote, quote_peer-Attempts}
use ant_wasm_client.Client.Fallback.{discovery, Fetched, get_direct-Fetched}
use ant_wasm_client.Client.Billing.{Billed, store_one-Billed}

abbrev pub hashes : Hashes
hashes = record { blake3 = λ b. take 2 b; derive_key = λ t ss. ss; keccak256 = λ b. b }

abbrev pub peer : PeerConnectInfo
peer = record { peer_id = 5 ∷ 5 ∷ []; ip = []; port = 1; cert_hash = [] }

-- Every chunk message is decoded to a body that the bytes give.
abbrev pub env : (Bytes → ChunkMessageBody) → Env
env body = record {
  hashes = hashes;
  dsa = record { valid_key = λ _. true; verify = λ _ _ _ _. true };
  kem = record { valid_ciphertext = λ _. true; try_decaps = λ dk _. some dk };
  aead = record { encrypt = λ _ _ text. some text; decrypt = λ _ _ text. some text };
  chunk = record {
    to_vec = λ _. ok (4 ∷ []);
    from_slice = λ b. ok (record { request_id = 1; body = body b });
  };
  discovery = record {
    to_vec = λ _. ok (4 ∷ []);
    from_slice = λ _.
        ok
          (record { request_id = 1; body = closest_peers_response (record { peers = peer ∷ [] }) });
  };
  signal = record { to_vec = λ _. err []; from_slice = λ _. err [] };
}

abbrev pub quote : Quote
quote = record {
  content = 6 ∷ 7 ∷ [];
  timestamp = record { secs = 0; nanos = 0 };
  price = replicate 32 1;
  rewards_address = replicate 20 1;
  pub_key = replicate 1952 5;
  signature = replicate 3309 1;
  committed_key_count = 0;
  commitment_pin = none;
}

-- A browser without WebRTC.
abbrev pub no_browser : Browser
no_browser = record {
  new = λ _. err [];
  random = err [];
  create_offer = err [];
  set_local_description = λ _. err [];
  gathering = record { complete_now = false; complete_later = true };
  local_description = λ _. none;
  set_remote_description = λ _. err [];
  channel = λ _ _. record {
    open_now = false;
    open_later = false;
    state = [];
    receiver = [];
    faults = λ _. none;
  };
}

abbrev pub world : World
world = record {
  browser = λ _. no_browser;
  upper = λ t. t;
  keygen = λ _. err [];
  pay = λ _ _ _. resolved (record { as_string = none; stringify = none });
  hex_encode = λ b. b;
  hex_decode = λ t. ok t;
  quote = record { to_vec = λ _. err []; from_slice = λ _. ok quote };
  proof = record { to_vec = λ _. err []; from_slice = λ _. err [] };
}

-- Before its first request, to which the answer with some tag is on its way.
abbrev pub connection : ℕ → NodeConnection
connection tag = record {
  transport = from_open (encode_frame (3 ∷ 0 ∷ 0 ∷ 0 ∷ 1 ∷ tag ∷ 6 ∷ 7 ∷ []) ∷ []) (λ _. none);
  cipher = record { key = [] };
  peer_id = [];
  next_seq = 1;
}

abbrev pub client : Client
client = record {
  bootstrap = 0;
  pool = (5 ∷ 5 ∷ [], 1) ∷ [];
  heap = connection 2 ∷ connection 1 ∷ [];
  chunks_fetched = 0;
  dialed = 0;
  paid = [];
}

abbrev pub served : Bytes → ChunkMessageBody
served b = get_response (ChunkGetResponse.success b b)

fetched : (get_direct (env served) world (6 ∷ 7 ∷ []) client).0 ≡ ok (6 ∷ 7 ∷ [])
unfolding get_direct fetch_from_any fetch_from require_peers match_result connection_for
    pooled_or_new on_connection run_on lookup closest_peers accept_peers encode_discovery
    decode_discovery get_verified round_trip next_seq exchange strip_tag encode_chunk decode_chunk
    accept_chunk ◌>>=◌ send_frame recv_frame recv_loop push next_frame split_messages chunks
    from_open encode_frame seal_request open_response byte_at build_nonce to_be_bytes from_be_bytes
    take drop
fetched = refl

abbrev pub quoted : Bytes → ChunkMessageBody
quoted b = quote_response (ChunkQuoteResponse.success b true none)

accepted : (try_quote (env quoted) world peer (6 ∷ 7 ∷ []) 9 client).0 ≡ ok (quote, (true, none))
unfolding try_quote request_quote accept_quote check_quote chunk_round_trip parse_quote verify_quote
    connection_for pooled_or_new on_connection run_on lookup round_trip next_seq exchange strip_tag
    encode_chunk decode_chunk ◌>>=◌ send_frame recv_frame recv_loop push next_frame split_messages
    chunks from_open encode_frame seal_request open_response byte_at build_nonce to_be_bytes
    from_be_bytes take drop
accepted = refl

try_quote-IsQuoteFrom_example : IsQuoteFrom hashes (env quoted).dsa (6 ∷ 7 ∷ []) (5 ∷ 5 ∷ []) quote
try_quote-IsQuoteFrom_example =
    try_quote-IsQuoteFrom (env quoted) world peer (6 ∷ 7 ∷ []) 9 client (quote, (true, none))
      accepted

store_one-Billed_example :
    ((store_one
        (env quoted)
        world
        (6 ∷ 7 ∷ [])
        (1 ∷ [])
        (replicate 20 1)
        (replicate 20 2)
        client).1.paid
      ≡ [])
    ⊎ Billed
        (env quoted)
        world
        (6 ∷ 7 ∷ [])
        (replicate 20 1)
        (replicate 20 2)
        client
        (store_one
          (env quoted)
          world
          (6 ∷ 7 ∷ [])
          (1 ∷ [])
          (replicate 20 1)
          (replicate 20 2)
          client).1.paid
store_one-Billed_example =
    store_one-Billed (env quoted) world (6 ∷ 7 ∷ []) (1 ∷ []) (replicate 20 1) (replicate 20 2)
      client

get_direct-Fetched_example :
    Fetched
      (env served)
      world
      (6 ∷ 7 ∷ [])
      (discovery (env served) world (6 ∷ 7 ∷ []) client)
      (get_direct (env served) world (6 ∷ 7 ∷ []) client)
get_direct-Fetched_example = get_direct-Fetched (env served) world (6 ∷ 7 ∷ []) client

quote_peer-Attempts_example :
    FirstQuote
      (env quoted)
      world
      (6 ∷ 7 ∷ [])
      (1 ∷ [])
      peer
      3
      no_attempt
      client
      (quote_peer (env quoted) world (6 ∷ 7 ∷ []) (1 ∷ []) quote_attempts peer no_attempt client)
    ⊎ (NoQuote (env quoted) world (6 ∷ 7 ∷ []) (1 ∷ []) peer 3 no_attempt client (
          quote_peer (env quoted) world (6 ∷ 7 ∷ []) (1 ∷ []) quote_attempts peer no_attempt client)
        × ((peers : List PeerConnectInfo) (count : ℕ) (quotes : List QuotedPeer)
            → NoQuote (env quoted) world (6 ∷ 7 ∷ []) (1 ∷ []) peer 3 no_attempt client (
                quote_group
                  (env quoted)
                  world
                  (6 ∷ 7 ∷ [])
                  (1 ∷ [])
                  (peer ∷ peers)
                  count
                  quotes
                  client)))
quote_peer-Attempts_example =
    quote_peer-Attempts (env quoted) world (6 ∷ 7 ∷ []) (1 ∷ []) peer client
