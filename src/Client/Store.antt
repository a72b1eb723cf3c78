-- ===== src/Client/Store.antt =====
-- src/lib.rs: `store_one`, its PUTs and its payment.
use ant_wasm_client.Base.{
  ℕ, zero, suc, Bool, true, false, ◌&&◌, Option, none, some, List, [], ◌∷◌, ◌++◌, map, length, take,
  leb, if◌then◌else◌, Bytes, ok, err, ensure, map_err,
}
use ant_wasm_client.Errors.{
  Error, Fallible, no_error, no_attempt, proof_serialize, put_error, payment_required,
  unexpected_put_response, too_few_peers, no_valid_quote, accepted_by_too_few,
}
use ant_wasm_client.Payment.{Quote, serialize_single_node_proof}
use ant_wasm_client.Protocol.{
  PeerConnectInfo, ChunkMessageBody, ChunkPutResponse, put_request, put_response,
}
use ant_wasm_client.Env.{Env}
use ant_wasm_client.Client.Parse.{parse_tx_hash}
use ant_wasm_client.Action.{Action, lift, pure, gets, ◌>>=◌, match_result}
use ant_wasm_client.Conn.{NodeConnection, chunk_round_trip, closest_peers}
use ant_wasm_client.Evm.Calldata.{
  DataPayment, total_amount, approve_calldata, pay_for_quotes_calldata,
}
use ant_wasm_client.Evm.Split.{close_group_size, payment_split}
use ant_wasm_client.Client.{
  World, Client, on_connection, connection_for, drop_connection, call_pay, hex_0x,
}
use ant_wasm_client.Client.Quotes.{Quoted, try_quote}

abbrev pub close_group_majority : ℕ
close_group_majority = 4

abbrev pub quote_attempts : ℕ
quote_attempts = 3

-- `QuotedPeer`
pub record QuotedPeer : Type 0 where
  pub peer_id : Bytes
  pub conn : ℕ
  pub quote : Quote
  pub commitment : Option Bytes

-- What the quote phase ends with: a majority that has the chunk already, or all the quotes.
pub data QuotePhase : Type 0 where
  already_stored : QuotePhase
  all_quoted : List QuotedPeer → QuotePhase

unfoldable pub accept_put : ChunkMessageBody → Fallible Bool
accept_put (put_response (ChunkPutResponse.success _)) = ok true
accept_put (put_response (ChunkPutResponse.already_exists _)) = ok true
accept_put (put_response (ChunkPutResponse.payment_required message)) =
    err (payment_required message)
accept_put (put_response (ChunkPutResponse.error e)) = err (put_error e)
accept_put _ = err unexpected_put_response

unfoldable pub put_chunk : Env → Bytes → Bytes → Bytes → Action NodeConnection Bool
unfolding accept_put
put_chunk env address content proof_bytes = do
  answer ← chunk_round_trip env (record {
    request_id = 1;
    body =
        put_request
          (record { address = address; content = content; payment_proof = some proof_bytes });
  })
  lift (accept_put answer.body)

-- The sidecars of the quotes that have one.
unfoldable pub commitments : List QuotedPeer → List Bytes
commitments [] = []
commitments (q ∷ qs) = elim q.commitment [ none ↦ commitments qs | some c ↦ c ∷ commitments qs ]

module _ (env : Env) (world : World) (address content : Bytes) where
  -- The connection of a failed attempt is dropped, unless the attempt was the last.
  unfoldable pub before_retry : ℕ → PeerConnectInfo → Action Client (Unit {0})
  before_retry zero peer = pure tt
  before_retry (suc left) peer = drop_connection peer.peer_id

  -- The attempts at one peer's quote that are left, with the last error.
  unfoldable pub quote_peer : ℕ → PeerConnectInfo → Error → Action Client Quoted
  unfolding before_retry
  quote_peer zero peer last = lift (err (no_valid_quote peer.peer_id address last))
  quote_peer (suc left) peer last =
      match_result (try_quote env world peer address (length content)) pure
        (λ e. before_retry left peer >>= (λ _. quote_peer left peer e))

  -- The quote phase over the peers that are left.
  unfoldable pub quote_group : List PeerConnectInfo → ℕ → List QuotedPeer → Action Client QuotePhase
  unfolding quote_peer
  quote_group [] already_stored_count quoted = pure (all_quoted quoted)
  quote_group (peer ∷ peers) already_stored_count quoted = do
    (quote, (stored, commitment)) ← quote_peer quote_attempts peer no_attempt
    let count = if stored then suc already_stored_count else already_stored_count
    if stored && leb close_group_majority count then pure already_stored else (do
      id ← connection_for env world peer
      quote_group peers count (
          quoted
          ++ (record { peer_id = peer.peer_id; conn = id; quote = quote; commitment = commitment }
              ∷ [])))

  -- The attempts at one PUT that are left: whether it was accepted, and the last error.
  unfoldable pub put_peer : Bytes → QuotedPeer → ℕ → Error → Action Client (Bool × Error)
  put_peer proof_bytes q zero last_err = pure (false, last_err)
  put_peer proof_bytes q (suc left) last_err =
      match_result (on_connection q.conn (put_chunk env address content proof_bytes))
        (λ b. pure (b, last_err)) (λ e. put_peer proof_bytes q left e)

  unfoldable pub put_all : Bytes → List QuotedPeer → ℕ → Error → Action Client (ℕ × Error)
  unfolding put_peer
  put_all proof_bytes [] accepted last_err = pure (accepted, last_err)
  put_all proof_bytes (q ∷ qs) accepted last_err = do
    (took, last_err') ← put_peer proof_bytes q quote_attempts last_err
    put_all proof_bytes qs (if took then suc accepted else accepted) last_err'

  -- Approve, then pay: the transaction hash.
  unfoldable pub pay_all : Bytes → Bytes → List DataPayment → Action Client Bytes
  unfolding parse_tx_hash
  pay_all token vault payments = do
    _ ←
        call_pay env world (hex_0x env world token)
          (hex_0x env world (approve_calldata vault (total_amount payments)))
    tx_hex ←
        call_pay env world (hex_0x env world vault)
          (hex_0x env world (pay_for_quotes_calldata env.hashes payments))
    lift (parse_tx_hash world.hex_decode tx_hex)

  -- `store_one` behind the quote phase.
  unfoldable pub pay_and_put : Bytes → Bytes → QuotePhase → Action Client (Unit {0})
  unfolding pay_all put_all commitments
  pay_and_put token vault already_stored = pure tt
  pay_and_put token vault (all_quoted quoted) = do
    payments ← lift (payment_split env.hashes (map (λ q. q.quote) quoted))
    tx_hash ← pay_all token vault payments
    proof_bytes ← lift (
        map_err proof_serialize (
          serialize_single_node_proof world.proof (map (λ q. (q.peer_id, q.quote)) quoted) tx_hash
            (commitments quoted)))
    (accepted, last_err) ← put_all proof_bytes quoted 0 no_error
    lift
        (ensure (leb close_group_majority accepted) (accepted_by_too_few address accepted last_err))

  unfoldable pub store_one : Bytes → Bytes → Action Client (Unit {0})
  unfolding quote_group pay_and_put
  store_one token vault = do
    bootstrap ← gets (λ s. s.bootstrap)
    peers ← on_connection bootstrap (closest_peers env address)
    _ ← lift (ensure (leb close_group_size (length peers)) (too_few_peers address (length peers)))
    phase ← quote_group (take close_group_size peers) 0 []
    pay_and_put token vault phase
