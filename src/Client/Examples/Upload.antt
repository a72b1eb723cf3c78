-- ===== src/Client/Examples/Upload.antt =====
-- src/lib.rs: an upload of one item that four peers have already. The bootstrap node names one peer
-- seven times.
use ant_wasm_client.Base.{◌≡◌, refl, none, some, [], ◌∷◌, Bytes, take, drop, replicate, ok}
use ant_wasm_client.Base.Words.{to_be_bytes, from_be_bytes}
use ant_wasm_client.Assoc.{lookup}
use ant_wasm_client.Texts.{codes}
use ant_wasm_client.Protocol.{closest_peers_response}
use ant_wasm_client.Env.{Env, encode_chunk, decode_chunk, encode_discovery, decode_discovery}
use ant_wasm_client.Framing.{encode_frame, next_frame, push, chunks, split_messages}
use ant_wasm_client.Transport.{from_open, recv_loop, recv_frame, send_frame}
use ant_wasm_client.Tunnel.{byte_at, build_nonce, seal_request, open_response}
use ant_wasm_client.Payment.{parse_quote, verify_quote}
use ant_wasm_client.Action.{◌>>=◌, match_result}
use ant_wasm_client.Conn.{
  NodeConnection, accept_peers, next_seq, exchange, round_trip, strip_tag, closest_peers,
  chunk_round_trip,
}
use ant_wasm_client.Client.{
  Client, js_display, run_on, on_connection, pooled_or_new, connection_for,
}
use ant_wasm_client.Client.Quotes.{accept_quote, request_quote, check_quote, try_quote}
use ant_wasm_client.Client.Store.{quote_peer, quote_group, pay_and_put, store_one}
use ant_wasm_client.Client.Upload.{Encryption}
use ant_wasm_client.Client.Uploaded.{Uploaded}
use ant_wasm_client.Client.Examples.{env, world, peer, connection, client, quoted}

abbrev pub seven_times : Env
seven_times = record (env quoted) {
  discovery = record (env quoted).discovery {
    from_slice = λ b. ok (record {
      request_id = 1;
      body = closest_peers_response (record { peers = replicate 7 peer });
    });
  };
}

abbrev four_answers : NodeConnection
four_answers = record (connection 1) {
  transport =
      from_open
        (encode_frame (3 ∷ 0 ∷ 0 ∷ 0 ∷ 1 ∷ 1 ∷ [])
          ∷ encode_frame (3 ∷ 0 ∷ 0 ∷ 0 ∷ 2 ∷ 1 ∷ [])
          ∷ encode_frame (3 ∷ 0 ∷ 0 ∷ 0 ∷ 3 ∷ 1 ∷ [])
          ∷ encode_frame (3 ∷ 0 ∷ 0 ∷ 0 ∷ 4 ∷ 1 ∷ [])
          ∷ [])
        (λ _. none);
}

abbrev uploader : Client
uploader = record client { heap = connection 2 ∷ four_answers ∷ [] }

abbrev pub eth : Bytes
eth = replicate 20 1

stored : (store_one seven_times world (6 ∷ 7 ∷ []) (6 ∷ 7 ∷ []) eth eth uploader).0 ≡ ok tt
unfolding store_one quote_group quote_peer pay_and_put try_quote request_quote accept_quote
    check_quote chunk_round_trip parse_quote verify_quote match_result connection_for pooled_or_new
    on_connection run_on lookup closest_peers accept_peers encode_discovery decode_discovery
    round_trip next_seq exchange strip_tag encode_chunk decode_chunk ◌>>=◌ send_frame recv_frame
    recv_loop push next_frame split_messages chunks from_open encode_frame seal_request
    open_response byte_at build_nonce to_be_bytes from_be_bytes take drop
stored = refl

-- The data map is the content.
abbrev encryption : Encryption Bytes
encryption = record {
  encrypt = λ b. ok (b, []);
  shrink_data_map = λ m. ok (m, []);
  to_vec = λ m. ok m;
}

js_display_object :
    js_display (record { as_string = none; stringify = some (some (codes "{}")) }) ≡ codes "{}"
unfolding js_display
js_display_object = refl

js_display_function :
    js_display (record { as_string = none; stringify = some none }) ≡ codes "<non-string JS error>"
unfolding js_display
js_display_function = refl
