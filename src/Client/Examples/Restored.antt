-- ===== src/Client/Examples/Restored.antt =====
-- src/lib.rs: a content of one chunk, uploaded by one client and downloaded by others.
use ant_wasm_client.Base.{◌≡◌, refl, ◌⊎◌, some, [], ◌∷◌, ok, take, drop}
use ant_wasm_client.Base.Words.{to_be_bytes, from_be_bytes}
use ant_wasm_client.Assoc.{lookup, insert, contains_key}
use ant_wasm_client.Texts.{trim, without_prefix}
use ant_wasm_client.Env.{encode_chunk, decode_chunk, encode_discovery, decode_discovery}
use ant_wasm_client.Framing.{encode_frame, next_frame, push, chunks, split_messages}
use ant_wasm_client.Transport.{from_open, recv_loop, recv_frame, send_frame}
use ant_wasm_client.Tunnel.{byte_at, build_nonce, seal_request, open_response}
use ant_wasm_client.Payment.{parse_quote, verify_quote}
use ant_wasm_client.Action.{◌>>=◌, match_result}
use ant_wasm_client.Conn.{
  accept_chunk, accept_peers, next_seq, exchange, round_trip, strip_tag, get_verified,
  closest_peers, chunk_round_trip,
}
use ant_wasm_client.Retrieval.{
  begin, supply, advance, is_complete, finish, required_addresses, missing, collect,
}
use ant_wasm_client.Client.{
  run_on, on_connection, pooled_or_new, connection_for, fetch_from, fetch_from_any, require_peers,
  get_direct,
}
use ant_wasm_client.Client.Parse.{parse_address, parse_eth_address, fixed}
use ant_wasm_client.Client.Quotes.{accept_quote, request_quote, check_quote, try_quote}
use ant_wasm_client.Client.Store.{quote_peer, quote_group, pay_and_put, store_one}
use ant_wasm_client.Client.Upload.{store_all, upload}
use ant_wasm_client.Client.Download.{
  step_task, complete, reset_fetched, count_fetched, result_of, step_at, run_schedule, results_of,
  fetch_round, supply_all, download_rounds, download,
}
use ant_wasm_client.Client.Spent.{UploadSpends, upload-Spends}
use ant_wasm_client.Client.Determined.{downloads-agree}
use ant_wasm_client.Client.Examples.Download.{se, se-Verifies}
use ant_wasm_client.Client.Examples.Holders.{
  holders, encode_units, decode_units, page, two_sevens, map_bytes, uploader, downloader,
  encryption, eth,
}

uploaded :
    (upload holders page encryption two_sevens eth eth uploader).0 ≡ ok (encode_units map_bytes)
unfolding upload store_all parse_eth_address fixed trim without_prefix store_one quote_group
    quote_peer pay_and_put try_quote request_quote accept_quote check_quote chunk_round_trip
    parse_quote verify_quote match_result connection_for pooled_or_new on_connection run_on lookup
    closest_peers accept_peers encode_discovery decode_discovery round_trip next_seq exchange
    strip_tag encode_chunk decode_chunk ◌>>=◌ send_frame recv_frame recv_loop push next_frame
    split_messages chunks from_open encode_frame seal_request open_response byte_at build_nonce
    to_be_bytes from_be_bytes take drop encode_units decode_units
uploaded = refl

downloaded :
    (download holders page se (λ _. 0 ∷ 0 ∷ []) (encode_units map_bytes) downloader).0
    ≡ ok (some two_sevens)
unfolding download reset_fetched count_fetched parse_address fixed trim download_rounds begin supply
    advance is_complete finish required_addresses missing collect insert contains_key supply_all
    fetch_round run_schedule step_at step_task results_of result_of complete get_direct
    fetch_from_any fetch_from require_peers match_result connection_for pooled_or_new on_connection
    run_on lookup closest_peers accept_peers encode_discovery decode_discovery get_verified
    round_trip next_seq exchange strip_tag encode_chunk decode_chunk accept_chunk ◌>>=◌ send_frame
    recv_frame recv_loop push next_frame split_messages chunks from_open encode_frame seal_request
    open_response byte_at build_nonce to_be_bytes from_be_bytes take drop encode_units decode_units
downloaded = refl

-- A download whose fetches do not interleave.
downloaded_in_turn :
    (download holders page se (λ _. []) (encode_units map_bytes) downloader).0
    ≡ ok (some two_sevens)
unfolding download reset_fetched count_fetched parse_address fixed trim download_rounds begin supply
    advance is_complete finish required_addresses missing collect insert contains_key supply_all
    fetch_round run_schedule results_of result_of complete get_direct fetch_from_any fetch_from
    require_peers match_result connection_for pooled_or_new on_connection run_on lookup
    closest_peers accept_peers encode_discovery decode_discovery get_verified round_trip next_seq
    exchange strip_tag encode_chunk decode_chunk accept_chunk ◌>>=◌ send_frame recv_frame recv_loop
    push next_frame split_messages chunks from_open encode_frame seal_request open_response byte_at
    build_nonce to_be_bytes from_be_bytes take drop encode_units decode_units
downloaded_in_turn = refl

downloads-agree_example : two_sevens ≡ two_sevens
downloads-agree_example =
    downloads-agree holders se (λ x y h. h) se-Verifies page page (λ _. 0 ∷ 0 ∷ []) (λ _. [])
      (encode_units map_bytes) (encode_units map_bytes) downloader downloader two_sevens two_sevens
      refl downloaded downloaded_in_turn

upload-Spends_example :
    ((upload holders page encryption two_sevens eth eth uploader).1.paid ≡ [])
    ⊎ UploadSpends holders page encryption two_sevens eth eth uploader
        (upload holders page encryption two_sevens eth eth uploader).1.paid
upload-Spends_example = upload-Spends holders page encryption two_sevens eth eth uploader
