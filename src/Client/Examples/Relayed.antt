-- ===== src/Client/Examples/Relayed.antt =====
-- src/lib.rs: a chunk that is fetched from a target through the bootstrap node.
use ant_wasm_client.Base.{◌≡◌, refl, true, none, [], ◌∷◌, Bytes, take, drop, replicate, ok}
use ant_wasm_client.Base.Words.{to_be_bytes, from_be_bytes}
use ant_wasm_client.Texts.{trim}
use ant_wasm_client.Protocol.{response}
use ant_wasm_client.Env.{Env, encode_chunk, decode_chunk, encode_signal, decode_signal}
use ant_wasm_client.Framing.{encode_frame, next_frame, push, chunks, split_messages}
use ant_wasm_client.Transport.{from_open, recv_loop, recv_frame, send_frame}
use ant_wasm_client.Transport.Connect
use ant_wasm_client.Transport.Connect.{
  relay_offer, accept_relayed, wait_for_ice_complete, wait_for_open, open_channel,
}
use ant_wasm_client.Tunnel
use ant_wasm_client.Tunnel.{byte_at, build_nonce, seal_request, open_response, from_shared_secret}
use ant_wasm_client.Action.{◌>>=◌}
use ant_wasm_client.Conn.{
  establish, accept_chunk, accept_answer, next_seq, exchange, round_trip, strip_tag, get_verified,
  signal_relay,
}
use ant_wasm_client.Client.{World, Client, run_on, on_connection, establish_on}
use ant_wasm_client.Client.Parse.{parse_address, fixed}
use ant_wasm_client.Client.Calls.{connect_via_relay, relayed_fetch}
use ant_wasm_client.Client.Relayed.{RelayedFetch, relayed_fetch-RelayedFetch}
use ant_wasm_client.Client.Examples.{connection, client}
use ant_wasm_client.Client.Examples.Started.{accept, browser, online, short}

abbrev relaying : Env
relaying = record short {
  signal = record {
    to_vec = λ _. ok [];
    from_slice = λ b. ok (record { request_id = 1; body = response (record { sdp_answer = b }) });
  };
}

abbrev address : Bytes
address = replicate 32 6

-- The channel to the target delivers the handshake and the chunk.
abbrev target_page : World
target_page = record online {
  browser = λ _. record browser {
    channel = λ _ _. record {
      open_now = true;
      open_later = true;
      state = [];
      receiver = encode_frame accept ∷ encode_frame (3 ∷ 0 ∷ 0 ∷ 0 ∷ 1 ∷ 1 ∷ address) ∷ [];
      faults = λ _. none;
    };
  };
}

abbrev page : Client
page = record client { heap = connection 3 ∷ [] }

fetched : (relayed_fetch relaying target_page (replicate 32 2) [] address page).0 ≡ ok 32
unfolding relayed_fetch connect_via_relay Connect.connect_via_relay relay_offer accept_relayed
    wait_for_ice_complete wait_for_open open_channel establish_on establish Tunnel.start
    Tunnel.finish Tunnel.check_pin from_shared_secret parse_address fixed trim on_connection run_on
    signal_relay accept_answer encode_signal decode_signal get_verified round_trip next_seq exchange
    strip_tag encode_chunk decode_chunk accept_chunk ◌>>=◌ send_frame recv_frame recv_loop push
    next_frame split_messages chunks from_open encode_frame seal_request open_response byte_at
    build_nonce to_be_bytes from_be_bytes take drop
fetched = refl

relayed_fetch-RelayedFetch_example :
    RelayedFetch relaying target_page (replicate 32 2) [] address page 32
relayed_fetch-RelayedFetch_example =
    relayed_fetch-RelayedFetch relaying target_page (replicate 32 2) [] address page 32 fetched
