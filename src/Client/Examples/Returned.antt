-- ===== src/Client/Examples/Returned.antt =====
-- src/lib.rs: a file whose data map is shrunk, uploaded and then downloaded.
use ant_wasm_client.Base.{
  All, ◌⊎◌, false, ◌≡◌, refl, sym, ◌∙◌, inl, inr, true, not, if◌then◌else◌, Bool-cases, Option,
  none, some, List, [], ◌∷◌, Bytes, bytes_eq, bytes_eq→eq, replicate, ok, ok-injective, err, arith,
  take, drop,
}
use ant_wasm_client.Base.Words.{to_be_bytes, from_be_bytes}
use ant_wasm_client.Assoc.{lookup, insert, contains_key}
use ant_wasm_client.Texts.{trim, without_prefix}
use ant_wasm_client.Env.{encode_chunk, decode_chunk, encode_discovery, decode_discovery}
use ant_wasm_client.Framing.{encode_frame, next_frame, push, chunks, split_messages}
use ant_wasm_client.Transport.{from_open, recv_loop, recv_frame, send_frame}
use ant_wasm_client.Tunnel.{byte_at, build_nonce, seal_request, open_response}
use ant_wasm_client.Payment.{parse_quote, verify_quote}
use ant_wasm_client.Action.{◌>>=◌, match_result}
use ant_wasm_client.Conn.{
  accept_chunk, accept_peers, next_seq, exchange, round_trip, strip_tag, get_verified,
  closest_peers, chunk_round_trip,
}
use ant_wasm_client.Retrieval.{
  SelfEncryption, supply, required_addresses, missing, begin, advance, is_complete, finish, collect,
}
use ant_wasm_client.Client.{
  Client, run_on, on_connection, pooled_or_new, connection_for, fetch_from, fetch_from_any,
  require_peers, get_direct,
}
use ant_wasm_client.Client.Parse.{parse_address, parse_eth_address, fixed}
use ant_wasm_client.Client.Quotes.{accept_quote, request_quote, check_quote, try_quote}
use ant_wasm_client.Client.Store.{quote_peer, quote_group, pay_and_put, store_one}
use ant_wasm_client.Client.Upload.{Encryption, store_all, upload}
use ant_wasm_client.Client.Download.{
  reset_fetched, download_rounds, download, step_task, complete, count_fetched, result_of, step_at,
  run_schedule, results_of, fetch_round, supply_all,
}
use ant_wasm_client.Client.Served.{with_map}
use ant_wasm_client.Client.Shrunk.{ServesShrunk}
use ant_wasm_client.Client.Restored.Laws.{Inverts}
use ant_wasm_client.Client.Restored.{download-upload}
use ant_wasm_client.Client.Returned.{download-Serves-upload}
use ant_wasm_client.Retrieval.Checked.{Verifies, Hashed}
use ant_wasm_client.Client.Examples.{client, connection}
use ant_wasm_client.Client.Examples.Download.{se, se-Verifies}
use ant_wasm_client.Client.Examples.Holders.{
  holders, encode_units, decode_units, page, two_sevens, map_bytes, answer, eth, units,
}

abbrev nines : Bytes
nines = 9 ∷ 9 ∷ []

abbrev root : Bytes
root = 8 ∷ []

-- The map `[8]` of the content is shrunk to `map_bytes`, which lists the wrapper chunk.
abbrev shrinking : Encryption Bytes
shrinking = record {
  encrypt = λ b. if bytes_eq b two_sevens then ok (root, two_sevens ∷ []) else err [];
  shrink_data_map =
      λ m. if bytes_eq m root then ok (map_bytes, (nines, nines) ∷ []) else ok (m, []);
  to_vec = λ m. ok m;
}

abbrev shrunk_se : SelfEncryption Bytes
shrunk_se = record se {
  is_child = λ m. not (bytes_eq m root);
  infos = λ m. if bytes_eq m root then two_sevens ∷ [] else nines ∷ [];
  get_root_data_map = λ m fetch. elim (fetch nines) [ none ↦ err [] | some c ↦ ok root ];
}

shrunk_se-Verifies : Verifies holders.hashes shrunk_se
shrunk_se-Verifies a b c h = se-Verifies a b c h

encrypt-eq_ok :
    (b m : Bytes) (cs : List Bytes)
    → shrinking.encrypt b ≡ ok (m, cs)
    → (b ≡ two_sevens) × (m ≡ root) × (cs ≡ two_sevens ∷ [])
encrypt-eq_ok b m cs h = elim (Bool-cases (bytes_eq b two_sevens)) [
  | inl e ↦ (bytes_eq→eq b two_sevens e, ground arith, ground arith)
  | inr e ↦ ground arith
]

shrink-eq_ok :
    (m m' : Bytes) (ws : List (Bytes × Bytes))
    → shrinking.shrink_data_map m ≡ ok (m', ws)
    → ((m' ≡ map_bytes) × (ws ≡ (nines, nines) ∷ [])) ⊎ ((m' ≡ m) × (ws ≡ []))
shrink-eq_ok m m' ws h = elim (Bool-cases (bytes_eq m root)) [
  | inl e ↦ inl (ground arith, ground arith)
  | inr e ↦ inr (ground arith, ground arith)
]

shrunk_wrapped :
    (m m' : Bytes) (ws : List (Bytes × Bytes))
    → shrinking.shrink_data_map m ≡ ok (m', ws)
    → All (Hashed holders.hashes) ws
shrunk_wrapped m m' ws h = elim (shrink-eq_ok m m' ws h) [
  | inl (_, e) ↦ rw e (refl, tt)
  | inr (_, e) ↦ rw e tt
]

not_shrunk :
    (m m' : Bytes) (ws : List (Bytes × Bytes))
    → shrinking.shrink_data_map m ≡ ok (m', ws)
    → shrunk_se.is_child m' ≡ false
    → m' ≡ m
not_shrunk m m' ws h flat = elim (shrink-eq_ok m m' ws h) [
  | inl (e, _) ↦ let child : shrunk_se.is_child m' ≡ true = rw e refl in absurd (cc (child, flat))
  | inr (e, _) ↦ e
]

root_found :
    (m' found : Bytes) (fetch : Bytes → Option Bytes) (answer : Option Bytes)
    → fetch nines ≡ answer
    → shrunk_se.get_root_data_map m' fetch ≡ ok found
    → found ≡ root
root_found m' found fetch none e h = absurd (cc (rw e at h))
root_found m' found fetch (some c) e h = sym (ok-injective root found (rw e at h))

inverts : Inverts holders.hashes shrunk_se shrinking
inverts = record {
  listed = λ b m cs h. let (_, e, e') = encrypt-eq_ok b m cs h in rw (e, e') refl;
  decrypted = λ b m cs h. let (e, _, e') = encrypt-eq_ok b m cs h in rw (e, e') refl;
  read_back = λ m bytes h. cc;
  wrapped = shrunk_wrapped;
  unshrunk = not_shrunk;
  resolves = λ b m m' found cs ws fetch enc h a got.
      let (_, e, _) = encrypt-eq_ok b m cs enc in
      root_found m' found fetch (fetch nines) refl got ∙ sym e;
}

-- A client whose bootstrap node names the holder three times.
abbrev client_of_three : List Bytes → Client
client_of_three answers = record client {
  pool = (replicate 1952 5, 1) ∷ [];
  heap =
      record (connection 2) {
        transport = from_open (answer 1 2 [] ∷ answer 2 2 [] ∷ answer 3 2 [] ∷ []) (λ _. none);
      }
      ∷ record (connection 1) { transport = from_open answers (λ _. none) }
      ∷ [];
}

abbrev uploader : Client
uploader = client_of_three (
    answer 1 1 two_sevens
    ∷ answer 2 1 two_sevens
    ∷ answer 3 1 two_sevens
    ∷ answer 4 1 two_sevens
    ∷ answer 5 1 nines
    ∷ answer 6 1 nines
    ∷ answer 7 1 nines
    ∷ answer 8 1 nines
    ∷ answer 9 1 map_bytes
    ∷ answer 10 1 map_bytes
    ∷ answer 11 1 map_bytes
    ∷ answer 12 1 map_bytes
    ∷ [])

abbrev downloader : Client
downloader =
    client_of_three
      (answer 1 1 (0 ∷ map_bytes) ∷ answer 2 1 (0 ∷ nines) ∷ answer 3 1 (0 ∷ two_sevens) ∷ [])

uploaded :
    (upload holders page shrinking two_sevens eth eth uploader).0 ≡ ok (encode_units map_bytes)
unfolding upload store_all parse_eth_address fixed trim without_prefix store_one quote_group
    quote_peer pay_and_put try_quote request_quote accept_quote check_quote chunk_round_trip
    parse_quote verify_quote match_result connection_for pooled_or_new on_connection run_on lookup
    closest_peers accept_peers encode_discovery decode_discovery round_trip next_seq exchange
    strip_tag encode_chunk decode_chunk ◌>>=◌ send_frame recv_frame recv_loop push next_frame
    split_messages chunks from_open encode_frame seal_request open_response byte_at build_nonce
    to_be_bytes from_be_bytes take drop encode_units decode_units
uploaded = refl

served :
    ServesShrunk holders page shrunk_se
      (λ _. 0 ∷ 0 ∷ [])
      shrunk_se-Verifies
      (encode_units map_bytes)
      downloader
      map_bytes
      root
      ((nines, ok nines) ∷ [])
      ((two_sevens, ok two_sevens) ∷ [])
unfolding parse_address fixed trim fetch_round run_schedule step_at step_task results_of result_of
    complete get_direct fetch_from_any fetch_from require_peers match_result connection_for
    pooled_or_new on_connection run_on lookup closest_peers accept_peers encode_discovery
    decode_discovery get_verified round_trip next_seq exchange strip_tag encode_chunk decode_chunk
    accept_chunk ◌>>=◌ send_frame recv_frame recv_loop push next_frame split_messages chunks
    from_open encode_frame seal_request open_response byte_at build_nonce to_be_bytes from_be_bytes
    take drop encode_units decode_units required_addresses missing contains_key supply_all supply
    insert count_fetched
served = record {
  address = map_bytes;
  parsed = refl;
  map_bytes = map_bytes;
  map_served = refl;
  map_chunk = map_bytes;
  map_verified = refl;
  decoded = refl;
  shrunk = refl;
  wrappers_served = refl;
  wrappers_verified = ((nines, nines, refl, refl), tt);
  cached = record { map = map_bytes; root_resolved = false; cache = (nines, nines) ∷ [] };
  after =
      (supply_all holders page shrunk_se (λ _. 0 ∷ 0 ∷ []) ((nines, ok nines) ∷ [])
        (record { map = map_bytes; root_resolved = false; cache = [] })
        (fetch_round holders page (0 ∷ 0 ∷ []) (nines ∷ []) (
          with_map holders page shrunk_se (λ _. 0 ∷ 0 ∷ []) shrunk_se-Verifies map_bytes
            downloader)).1).1;
  supplied = refl;
  resolved = refl;
  some_chunks = refl;
  chunks_served = refl;
  chunks_verified = ((two_sevens, two_sevens, refl, refl), tt);
}

download-Serves-upload_example :
    (download holders page shrunk_se (λ _. 0 ∷ 0 ∷ []) (encode_units map_bytes) downloader).0
    ≡ ok (some two_sevens)
download-Serves-upload_example =
    download-Serves-upload holders page page shrunk_se shrinking (λ _. 0 ∷ 0 ∷ []) (λ x y h. h)
      shrunk_se-Verifies inverts units two_sevens eth eth (encode_units map_bytes) uploader
      downloader uploaded
      (inr (map_bytes, root, (nines, ok nines) ∷ [], (two_sevens, ok two_sevens) ∷ [], served))

downloaded :
    (download holders page shrunk_se (λ _. 0 ∷ 0 ∷ []) (encode_units map_bytes) downloader).0
    ≡ ok (some two_sevens)
unfolding download reset_fetched count_fetched parse_address fixed trim download_rounds begin supply
    advance is_complete finish required_addresses missing collect insert contains_key supply_all
    fetch_round run_schedule step_at step_task results_of result_of complete get_direct
    fetch_from_any fetch_from require_peers match_result connection_for pooled_or_new on_connection
    run_on lookup closest_peers accept_peers encode_discovery decode_discovery get_verified
    round_trip next_seq exchange strip_tag encode_chunk decode_chunk accept_chunk ◌>>=◌ send_frame
    recv_frame recv_loop push next_frame split_messages chunks from_open encode_frame seal_request
    open_response byte_at build_nonce to_be_bytes from_be_bytes take drop encode_units decode_units
downloaded = refl

download-upload_example : two_sevens ≡ two_sevens
download-upload_example =
    download-upload holders page page shrunk_se shrinking (λ _. 0 ∷ 0 ∷ []) (λ x y h. h)
      shrunk_se-Verifies inverts units two_sevens two_sevens eth eth (encode_units map_bytes)
      uploader downloader uploaded downloaded
