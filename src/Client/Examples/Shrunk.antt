-- ===== src/Client/Examples/Shrunk.antt =====
-- src/lib.rs: a run of `download` with a shrunk data map.
use ant_wasm_client.Base.{
  ℕ, false, bytes_eq, not, if◌then◌else◌, ◌≡◌, refl, none, some, List, [], ◌∷◌, Bytes, take, drop,
  ok, err,
}
use ant_wasm_client.Base.Words.{to_be_bytes, from_be_bytes}
use ant_wasm_client.Assoc.{lookup}
use ant_wasm_client.Env.{encode_chunk, decode_chunk, encode_discovery, decode_discovery}
use ant_wasm_client.Framing.{encode_frame, next_frame, push, chunks, split_messages}
use ant_wasm_client.Transport.{from_open, recv_loop, recv_frame, send_frame}
use ant_wasm_client.Tunnel.{byte_at, build_nonce, seal_request, open_response}
use ant_wasm_client.Action.{◌>>=◌, match_result}
use ant_wasm_client.Conn.{
  NodeConnection, accept_chunk, accept_peers, next_seq, exchange, round_trip, strip_tag,
  get_verified, closest_peers,
}
use ant_wasm_client.Client.{
  Client, run_on, on_connection, pooled_or_new, connection_for, fetch_from, fetch_from_any,
  require_peers, get_direct,
}
use ant_wasm_client.Texts.{trim}
use ant_wasm_client.Assoc.{insert, contains_key}
use ant_wasm_client.Retrieval.{SelfEncryption, supply, required_addresses, missing}
use ant_wasm_client.Retrieval.Checked.{Verifies}
use ant_wasm_client.Client.Parse.{parse_address, fixed}
use ant_wasm_client.Client.Download.{
  step_task, complete, count_fetched, result_of, step_at, run_schedule, results_of, fetch_round,
  supply_all, download,
}
use ant_wasm_client.Client.Complete.{Decrypts}
use ant_wasm_client.Client.Served.{with_map}
use ant_wasm_client.Errors.{Fallible}
use ant_wasm_client.Client.Examples.{world, connection, client}
use ant_wasm_client.Client.Shrunk.{ServesShrunk, download-ServesShrunk}
use ant_wasm_client.Client.Examples.Download.{whole, map_address, se, se-verified}

-- A connection with three answers on their way.
abbrev three_answers : ℕ → Bytes → Bytes → Bytes → NodeConnection
three_answers tag first second third = record (connection tag) {
  transport =
      from_open
        (encode_frame (3 ∷ 0 ∷ 0 ∷ 0 ∷ 1 ∷ tag ∷ first)
          ∷ encode_frame (3 ∷ 0 ∷ 0 ∷ 0 ∷ 2 ∷ tag ∷ second)
          ∷ encode_frame (3 ∷ 0 ∷ 0 ∷ 0 ∷ 3 ∷ tag ∷ third)
          ∷ [])
        (λ _. none);
}

abbrev downloader : Client
downloader = record client {
  heap = three_answers 2 [] [] [] ∷ three_answers 1 map_address (7 ∷ 7 ∷ []) (9 ∷ 9 ∷ []) ∷ [];
}

-- The map at the address lists `[7, 7]`, behind which stands the root map `[8]`, with `[9, 9]`.
abbrev root : Bytes
root = 8 ∷ []

abbrev shrunk_se : SelfEncryption Bytes
shrunk_se = record se {
  is_child = λ m. not (bytes_eq m root);
  infos = λ m. if bytes_eq m root then (9 ∷ 9 ∷ []) ∷ [] else (7 ∷ 7 ∷ []) ∷ [];
  get_root_data_map = λ m fetch. elim (fetch (7 ∷ 7 ∷ [])) [ none ↦ err [] | some c ↦ ok root ];
}

shrunk_se-Verifies : Verifies whole.hashes shrunk_se
shrunk_se-Verifies a b c h = se-verified a b c h

abbrev wrappers : List (Bytes × Fallible Bytes)
wrappers = (7 ∷ 7 ∷ [], ok (7 ∷ 7 ∷ [])) ∷ []

abbrev contents : List (Bytes × Fallible Bytes)
contents = (9 ∷ 9 ∷ [], ok (9 ∷ 9 ∷ [])) ∷ []

served_shrunk :
    ServesShrunk whole world shrunk_se
      (λ _. 0 ∷ 0 ∷ [])
      shrunk_se-Verifies
      map_address
      downloader
      map_address
      root
      wrappers
      contents
unfolding parse_address fixed trim fetch_round run_schedule step_at step_task results_of result_of
    complete get_direct fetch_from_any fetch_from require_peers match_result connection_for
    pooled_or_new on_connection run_on lookup closest_peers accept_peers encode_discovery
    decode_discovery get_verified round_trip next_seq exchange strip_tag encode_chunk decode_chunk
    accept_chunk ◌>>=◌ send_frame recv_frame recv_loop push next_frame split_messages chunks
    from_open encode_frame seal_request open_response byte_at build_nonce to_be_bytes from_be_bytes
    take drop required_addresses missing contains_key supply_all supply insert count_fetched
served_shrunk = record {
  address = map_address;
  parsed = refl;
  map_bytes = map_address;
  map_served = refl;
  map_chunk = map_address;
  map_verified = refl;
  decoded = refl;
  shrunk = refl;
  wrappers_served = refl;
  wrappers_verified = ((7 ∷ 7 ∷ [], 7 ∷ 7 ∷ [], refl, refl), tt);
  cached = record {
    map = map_address;
    root_resolved = false;
    cache = (7 ∷ 7 ∷ [], 7 ∷ 7 ∷ []) ∷ [];
  };
  after =
      (supply_all whole world shrunk_se (λ _. 0 ∷ 0 ∷ []) wrappers
        (record { map = map_address; root_resolved = false; cache = [] })
        (fetch_round whole world (0 ∷ 0 ∷ []) (shrunk_se.infos map_address) (
          with_map whole world shrunk_se (λ _. 0 ∷ 0 ∷ []) shrunk_se-Verifies map_address
            downloader)).1).1;
  supplied = refl;
  resolved = refl;
  some_chunks = refl;
  chunks_served = refl;
  chunks_verified = ((9 ∷ 9 ∷ [], 9 ∷ 9 ∷ [], refl, refl), tt);
}

download-ServesShrunk_example :
    Decrypts whole world shrunk_se
      (λ _. 0 ∷ 0 ∷ [])
      shrunk_se-Verifies
      root
      (download whole world shrunk_se (λ _. 0 ∷ 0 ∷ []) map_address downloader).0
    × ((download whole world shrunk_se (λ _. 0 ∷ 0 ∷ []) map_address downloader).1.chunks_fetched
        ≡ 3)
download-ServesShrunk_example =
    download-ServesShrunk whole world shrunk_se (λ _. 0 ∷ 0 ∷ []) shrunk_se-Verifies map_address
      downloader map_address root wrappers contents served_shrunk
