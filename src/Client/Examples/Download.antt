-- ===== src/Client/Examples/Download.antt =====
-- src/lib.rs: one download over two connections, in one round.
use ant_wasm_client.Base.{
  ℕ, ◌≢◌, false, sym, ◌∙◌, concat, bytes_eq, bytes_eq→eq, if◌then◌else◌, arith, ◌≡◌, refl, true,
  Option, Text, none, some, List, [], ◌∷◌, Bytes, take, drop, replicate, ok, err,
}
use ant_wasm_client.Base.Words.{to_be_bytes, from_be_bytes}
use ant_wasm_client.Assoc.{lookup}
use ant_wasm_client.Env.{Env, encode_chunk, decode_chunk, encode_discovery, decode_discovery}
use ant_wasm_client.Framing.{encode_frame, next_frame, push, chunks, split_messages}
use ant_wasm_client.Transport.{from_open, recv_loop, recv_frame, send_frame}
use ant_wasm_client.Tunnel.{byte_at, build_nonce, seal_request, open_response}
use ant_wasm_client.Action.{◌>>=◌, match_result}
use ant_wasm_client.Conn.{
  NodeConnection, accept_chunk, accept_peers, next_seq, exchange, round_trip, strip_tag,
  get_verified, closest_peers,
}
use ant_wasm_client.Client.{
  Client, run_on, on_connection, pooled_or_new, connection_for, fetch_from, fetch_from_any,
  require_peers, get_direct,
}
use ant_wasm_client.Texts.{trim}
use ant_wasm_client.Assoc.{insert, contains_key}
use ant_wasm_client.Retrieval.{
  SelfEncryption, begin, supply, advance, is_complete, finish, required_addresses, missing, collect,
}
use ant_wasm_client.Retrieval.Checked.{Verifies}
use ant_wasm_client.Client.Parse.{parse_address, fixed}
use ant_wasm_client.Client.Download.{
  step_task, complete, reset_fetched, count_fetched, result_of, step_at, run_schedule, results_of,
  fetch_round, supply_all, download_rounds, download,
}
use ant_wasm_client.Client.Downloaded.{Decrypted, download-Decrypted}
use ant_wasm_client.Client.Ends.{download-ends}
use ant_wasm_client.Client.Rounds.{In}
use ant_wasm_client.Client.Complete.{Decrypts}
use ant_wasm_client.Client.Served.{Serves, download-Serves}
use ant_wasm_client.Client.Nested.{IsNested, download-nested}
use ant_wasm_client.Errors.{Error, Fallible}
use ant_wasm_client.Client.Examples.{env, world, connection, client, served}

-- A connection with two answers on their way.
abbrev two_answers : ℕ → Bytes → Bytes → NodeConnection
two_answers tag first second = record (connection tag) {
  transport =
      from_open
        (encode_frame (3 ∷ 0 ∷ 0 ∷ 0 ∷ 1 ∷ tag ∷ first)
          ∷ encode_frame (3 ∷ 0 ∷ 0 ∷ 0 ∷ 2 ∷ tag ∷ second)
          ∷ [])
        (λ _. none);
}

abbrev pub map_address : Bytes
map_address = replicate 32 6

abbrev downloader : Client
downloader = record client {
  heap = two_answers 2 [] [] ∷ two_answers 1 map_address (7 ∷ 7 ∷ []) ∷ [];
}

-- Hashing keeps the bytes; every data map lists the one chunk `[7, 7]`.
abbrev pub whole : Env
whole = record (env served) {
  hashes = record { blake3 = λ b. b; derive_key = λ t ss. ss; keccak256 = λ b. b };
}

abbrev pub se : SelfEncryption Bytes
se = record {
  is_child = λ m. false;
  infos = λ m. (7 ∷ 7 ∷ []) ∷ [];
  verify_chunk = λ address bytes. if bytes_eq bytes address then ok bytes else err [];
  from_slice = λ bytes. ok bytes;
  get_root_data_map = λ m fetch. ok m;
  decrypt = λ m chunks. ok (concat chunks);
}

pub se-verified : (a b c : Bytes) → se.verify_chunk a b ≡ ok c → (c ≡ a) × (c ≡ b)
se-verified a b c h =
    let same : b ≡ a = bytes_eq→eq b a (ground arith) in
    let kept : b ≡ c = ground arith in (sym kept ∙ same, sym kept)

pub se-Verifies : Verifies whole.hashes se
se-Verifies a b c h = se-verified a b c h

downloaded :
    (download whole world se (λ _. 0 ∷ 0 ∷ []) map_address downloader).0 ≡ ok (some (7 ∷ 7 ∷ []))
unfolding download reset_fetched count_fetched parse_address fixed trim download_rounds begin supply
    advance is_complete finish required_addresses missing collect insert contains_key supply_all
    fetch_round run_schedule step_at step_task results_of result_of complete get_direct
    fetch_from_any fetch_from require_peers match_result connection_for pooled_or_new on_connection
    run_on lookup closest_peers accept_peers encode_discovery decode_discovery get_verified
    round_trip next_seq exchange strip_tag encode_chunk decode_chunk accept_chunk ◌>>=◌ send_frame
    recv_frame recv_loop push next_frame split_messages chunks from_open encode_frame seal_request
    open_response byte_at build_nonce to_be_bytes from_be_bytes take drop
downloaded = refl

download-Decrypted_example : Decrypted whole world se map_address (7 ∷ 7 ∷ [])
download-Decrypted_example =
    download-Decrypted whole world se (λ _. 0 ∷ 0 ∷ []) se-Verifies map_address downloader
      (7 ∷ 7 ∷ []) downloaded

download-ends_example :
    (download whole world se (λ _. 0 ∷ 0 ∷ []) map_address downloader).0 ≢ ok none
download-ends_example = download-ends whole world se (λ _. 0 ∷ 0 ∷ []) map_address downloader

-- A map whose root needs a chunk that it does not list.
abbrev nested_se : SelfEncryption Bytes
nested_se = record se {
  is_child = λ m. true;
  get_root_data_map = λ m fetch. elim (fetch (9 ∷ 9 ∷ [])) [ none ↦ err [] | some c ↦ ok c ];
}

refused :
    (m : Bytes) (fetch : Bytes → Option Bytes) (found : Option Bytes)
    → fetch (9 ∷ 9 ∷ []) ≡ found
    → ((a c : Bytes) → fetch a ≡ some c → In (nested_se.infos m) a)
    → (e : Text) × (nested_se.get_root_data_map m fetch ≡ err e)
refused m fetch none h listed = ([], rw h)
refused m fetch (some c) h listed = absurd (cc (listed (9 ∷ 9 ∷ []) c h))

nested : IsNested whole world nested_se (λ _. []) []
nested fetch listed = refused [] fetch (fetch (9 ∷ 9 ∷ [])) refl listed

download-nested_example :
    (e : Error) × ((download whole world
        (record nested_se { from_slice = λ _. ok [] })
        (λ _. [])
        map_address
        downloader).0
      ≡ err e)
download-nested_example =
    download-nested whole world (record nested_se { from_slice = λ _. ok [] }) (λ _. []) map_address
      [] downloader (λ a b c p v. refl) refl nested

abbrev chunk_fetched : List (Bytes × Fallible Bytes)
chunk_fetched = (7 ∷ 7 ∷ [], ok (7 ∷ 7 ∷ [])) ∷ []

served_whole :
    Serves whole world se
      (λ _. 0 ∷ 0 ∷ [])
      se-Verifies
      map_address
      downloader
      map_address
      chunk_fetched
unfolding parse_address fixed trim fetch_round run_schedule step_at step_task results_of result_of
    complete get_direct fetch_from_any fetch_from require_peers match_result connection_for
    pooled_or_new on_connection run_on lookup closest_peers accept_peers encode_discovery
    decode_discovery get_verified round_trip next_seq exchange strip_tag encode_chunk decode_chunk
    accept_chunk ◌>>=◌ send_frame recv_frame recv_loop push next_frame split_messages chunks
    from_open encode_frame seal_request open_response byte_at build_nonce to_be_bytes from_be_bytes
    take drop
served_whole = record {
  address = map_address;
  parsed = refl;
  map_bytes = map_address;
  map_served = refl;
  map_chunk = map_address;
  map_verified = refl;
  decoded = refl;
  one_level = refl;
  some_chunks = refl;
  chunks_served = refl;
  verified = ((7 ∷ 7 ∷ [], 7 ∷ 7 ∷ [], refl, refl), tt);
}

download-Serves_example :
    Decrypts whole world se
      (λ _. 0 ∷ 0 ∷ [])
      se-Verifies
      map_address
      (download whole world se (λ _. 0 ∷ 0 ∷ []) map_address downloader).0
    × ((download whole world se (λ _. 0 ∷ 0 ∷ []) map_address downloader).1.chunks_fetched ≡ 2)
download-Serves_example =
    download-Serves whole world se (λ _. 0 ∷ 0 ∷ []) se-Verifies map_address downloader map_address
      chunk_fetched served_whole
