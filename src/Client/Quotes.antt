-- ===== src/Client/Quotes.antt =====
-- src/lib.rs: `request_quote` and `try_quote`.
use ant_wasm_client.Base.{
  ℕ, ◌%◌, ◌^◌, ◌≡◌, subst, Bool, true, Option, Bytes, bytes_eq, bytes_eq→eq, ok, err, if◌then◌else◌,
  map_err, arith, length, [],
}
use ant_wasm_client.External.{Hashes, Dsa}
use ant_wasm_client.Errors.{
  Fallible, quote_parse, quote_wrong_address, quote_wrong_peer, quote_unsigned, quote_error,
  unexpected_quote_response,
}
use ant_wasm_client.Payment.{Quote, parse_quote, verify_quote, bytes_for_sig, pk_len, sig_len}
use ant_wasm_client.Protocol.{
  PeerConnectInfo, ChunkMessageBody, ChunkQuoteResponse, quote_request, quote_response,
}
use ant_wasm_client.Env.{Env}
use ant_wasm_client.Action.{Action, lift, pure, ◌>>=◌, ◌>>◌, bind-eq_ok}
use ant_wasm_client.Conn.{NodeConnection, chunk_round_trip}
use ant_wasm_client.Client.{World, Client, on_connection, connection_for}

abbrev pub data_type_chunk : ℕ
data_type_chunk = 0

-- Quote bytes, whether the chunk is already stored, and the commitment sidecar.
abbrev pub QuoteAnswer : Type 0
QuoteAnswer = Bytes × (Bool × Option Bytes)

unfoldable pub accept_quote : ChunkMessageBody → Fallible QuoteAnswer
accept_quote (quote_response (ChunkQuoteResponse.success quote already_stored commitment)) =
    ok (quote, (already_stored, commitment))
accept_quote (quote_response (ChunkQuoteResponse.error e)) = err (quote_error e)
accept_quote _ = err unexpected_quote_response

unfoldable pub request_quote : Env → Bytes → ℕ → Action NodeConnection QuoteAnswer
unfolding accept_quote
request_quote env address data_size = do
  answer ← chunk_round_trip env (record {
    request_id = 1;
    body =
        quote_request (record {
          address = address;
          data_size = data_size % 2 ^ 64;
          data_type = data_type_chunk;
        });
  })
  lift (accept_quote answer.body)

-- The checks of `try_quote`.
unfoldable pub check_quote : Env → PeerConnectInfo → Bytes → Quote → Fallible (Unit {0})
check_quote env peer address quote =
    if bytes_eq quote.content address
    then (if bytes_eq (env.hashes.blake3 quote.pub_key) peer.peer_id
        then (if verify_quote env.dsa quote then ok tt else err quote_unsigned)
        else err quote_wrong_peer)
    else err quote_wrong_address

-- A verified quote with what came beside it.
abbrev pub Quoted : Type 0
Quoted = Quote × (Bool × Option Bytes)

unfoldable pub try_quote : Env → World → PeerConnectInfo → Bytes → ℕ → Action Client Quoted
unfolding check_quote request_quote
try_quote env world peer address data_size = do
  id ← connection_for env world peer
  (quote_bytes, (already_stored, commitment)) ←
      on_connection id (request_quote env address data_size)
  quote ← lift (map_err quote_parse (parse_quote world.quote quote_bytes))
  lift (check_quote env peer address quote)
  pure (quote, (already_stored, commitment))

-- A quote for an address, from a peer: its key has the peer's identity as its hash, and the signature
-- verifies under that key over the signed bytes.
pub record IsQuoteFrom (hashes : Hashes) (dsa : Dsa) (address peer_id : Bytes) (quote : Quote)
    : Type 0 where
  pub content : quote.content ≡ address
  pub identity : hashes.blake3 quote.pub_key ≡ peer_id
  pub key_size : length quote.pub_key ≡ pk_len
  pub signature_size : length quote.signature ≡ sig_len
  pub valid_key : dsa.valid_key quote.pub_key ≡ true
  pub signed : dsa.verify quote.pub_key (bytes_for_sig quote) quote.signature [] ≡ true

check_quote-IsQuoteFrom :
    (env : Env) (peer : PeerConnectInfo) (address : Bytes) (quote : Quote)
    → check_quote env peer address quote ≡ ok tt
    → IsQuoteFrom env.hashes env.dsa address peer.peer_id quote
unfolding check_quote verify_quote
check_quote-IsQuoteFrom env peer address quote h = record {
  content = bytes_eq→eq quote.content address (ground arith);
  identity = bytes_eq→eq (env.hashes.blake3 quote.pub_key) peer.peer_id (ground arith);
  key_size = ground arith;
  signature_size = ground arith;
  valid_key = ground arith;
  signed = ground arith;
}

-- Whatever the peer sent, a quote that `try_quote` returns is for the address asked for, its key is a
-- valid one of 1952 bytes whose BLAKE3 hash is the peer's identity, and its signature has 3309 bytes
-- and is one that ML-DSA-65 verifies under that key over the quote's signed bytes.
pub try_quote-IsQuoteFrom :
    (env : Env) (world : World) (peer : PeerConnectInfo) (address : Bytes) (data_size : ℕ)
    (s : Client) (q : Quoted)
    → (try_quote env world peer address data_size s).0 ≡ ok q
    → IsQuoteFrom env.hashes env.dsa address peer.peer_id q.0
unfolding try_quote
try_quote-IsQuoteFrom env world peer address data_size s q h =
    let (_, _, h₁) = bind-eq_ok _ _ s h in
    let (_, _, h₂) = bind-eq_ok _ _ _ h₁ in
    let (quote, _, h₃) = bind-eq_ok _ _ _ h₂ in
    let (_, checked, h₄) = bind-eq_ok _ _ _ h₃ in
    let same : quote ≡ q.0 = cc in
    subst (IsQuoteFrom env.hashes env.dsa address peer.peer_id) same
      (check_quote-IsQuoteFrom env peer address quote checked)
