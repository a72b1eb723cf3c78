-- ===== src/Client/Moves.antt =====
-- src/lib.rs: how a method of the client moves it, from how its connections, dials and pool do.
pub mod Rounds
pub mod Calls
pub mod Storing
pub mod Relaying
use ant_wasm_client.Base.{ℕ, zero, suc, Option, none, some, List, [], ◌∷◌, length, Bytes}
use ant_wasm_client.Errors.{Error, no_attempt, no_error}
use ant_wasm_client.Protocol.{PeerConnectInfo}
use ant_wasm_client.Env.{Env}
use ant_wasm_client.Action.{Action}
use ant_wasm_client.Action.Moves.{
  Moves, IsPreorder, Moves-lift, Moves-gets, Moves-pure, Moves-if, Moves-bind, Moves-match_result,
}
use ant_wasm_client.Conn.{NodeConnection}
use ant_wasm_client.Conn.Identity.{
  Advances, Advances-IsPreorder, get_verified-Advances, closest_peers-Advances,
  chunk_round_trip-Advances,
}
use ant_wasm_client.Client.{
  World, Client, on_connection, drop_connection, pooled_or_new, connection_for, fetch_from,
  fetch_from_any, get_direct,
}
use ant_wasm_client.Client.Quotes.{request_quote, try_quote}
use ant_wasm_client.Client.Store.{
  quote_attempts, QuotedPeer, before_retry, quote_peer, quote_group, put_chunk, put_peer, put_all,
}

-- The steps that the methods are made of: a method of a connection, which advances it; a dial
-- into the pool; a connection dropped from the pool.
pub record Allows (env : Env) (world : World) (R : Client → Client → Type 0) : Type 1 where
  pub order : IsPreorder R
  pub ask :
      {A : Type 0} (id : ℕ) (m : Action NodeConnection A)
      → Moves Advances m
      → Moves R (on_connection id m)
  pub dial : (peer : PeerConnectInfo) → Moves R (pooled_or_new env world peer none)
  pub forget : (key : Bytes) → Moves R (drop_connection key)

request_quote-Advances :
    (env : Env) (address : Bytes) (size : ℕ) → Moves Advances (request_quote env address size)
unfolding request_quote
request_quote-Advances env address size =
    Moves-bind Advances Advances-IsPreorder _ _ (chunk_round_trip-Advances env _)
      λ answer. Moves-lift Advances Advances-IsPreorder _

pub put_chunk-Advances :
    (env : Env) (address content proof_bytes : Bytes)
    → Moves Advances (put_chunk env address content proof_bytes)
unfolding put_chunk
put_chunk-Advances env address content proof_bytes =
    Moves-bind Advances Advances-IsPreorder _ _ (chunk_round_trip-Advances env _)
      λ answer. Moves-lift Advances Advances-IsPreorder _

module _ (env : Env) (world : World) (R : Client → Client → Type 0)
    (allows : Allows env world R) where
  pub pooled_or_new-Moves :
      (peer : PeerConnectInfo) (pooled : Option ℕ) → Moves R (pooled_or_new env world peer pooled)
  pooled_or_new-Moves peer none = allows.dial peer
  pooled_or_new-Moves peer (some id) = unfold pooled_or_new in Moves-pure R allows.order id

  pub connection_for-Moves : (peer : PeerConnectInfo) → Moves R (connection_for env world peer)
  unfolding connection_for
  connection_for-Moves peer =
      Moves-bind R allows.order _ _ (Moves-gets R allows.order _)
        λ pooled. pooled_or_new-Moves peer pooled

  fetch_from-Moves :
      (address : Bytes) (peer : PeerConnectInfo) → Moves R (fetch_from env world address peer)
  unfolding fetch_from
  fetch_from-Moves address peer =
      Moves-bind R allows.order _ _ (connection_for-Moves peer)
        λ id. allows.ask id _ (get_verified-Advances env address)

  pub fetch_from_any-Moves :
      (address : Bytes) (peers : List PeerConnectInfo) (last : Error)
      → Moves R (fetch_from_any env world address peers last)
  unfolding fetch_from_any
  fetch_from_any-Moves address [] last = Moves-lift R allows.order _
  fetch_from_any-Moves address (peer ∷ peers) last =
      Moves-match_result R allows.order _ _ _ (fetch_from-Moves address peer)
        (λ content. Moves-pure R allows.order content) (λ e. fetch_from_any-Moves address peers e)

  pub get_direct-Moves : (address : Bytes) → Moves R (get_direct env world address)
  unfolding get_direct
  get_direct-Moves address = Moves-bind R allows.order _ _ (Moves-gets R allows.order _) λ id.
      Moves-bind R allows.order _ _ (allows.ask id _ (closest_peers-Advances env address)) λ found.
        Moves-bind R allows.order _ _ (Moves-lift R allows.order _)
          λ peers. fetch_from_any-Moves address peers no_error

  pub try_quote-Moves :
      (peer : PeerConnectInfo) (address : Bytes) (size : ℕ)
      → Moves R (try_quote env world peer address size)
  unfolding try_quote
  try_quote-Moves peer address size =
      Moves-bind R allows.order _ _ (connection_for-Moves peer) λ id.
        Moves-bind R allows.order _ _ (allows.ask id _ (request_quote-Advances env address size))
          λ answer. Moves-bind R allows.order _ _ (Moves-lift R allows.order _) λ quote.
            Moves-bind R allows.order _ _ (Moves-lift R allows.order _)
              λ _. Moves-pure R allows.order _

  module _ (address content : Bytes) where
    pub before_retry-Moves :
        (left : ℕ) (peer : PeerConnectInfo)
        → Moves R (before_retry env world address content left peer)
    unfolding before_retry
    before_retry-Moves zero peer = Moves-pure R allows.order tt
    before_retry-Moves (suc left) peer = allows.forget peer.peer_id

    pub quote_peer-Moves :
        (left : ℕ) (peer : PeerConnectInfo) (last : Error)
        → Moves R (quote_peer env world address content left peer last)
    unfolding quote_peer
    quote_peer-Moves zero peer last = Moves-lift R allows.order _
    quote_peer-Moves (suc left) peer last =
        Moves-match_result R allows.order _ _ _ (try_quote-Moves peer address (length content))
          (λ q. Moves-pure R allows.order q)
          λ e.
            Moves-bind R allows.order _ _ (before_retry-Moves left peer)
              λ _. quote_peer-Moves left peer e

    pub quote_group-Moves :
        (peers : List PeerConnectInfo) (count : ℕ) (quoted : List QuotedPeer)
        → Moves R (quote_group env world address content peers count quoted)
    unfolding quote_group
    quote_group-Moves [] count quoted = Moves-pure R allows.order _
    quote_group-Moves (peer ∷ peers) count quoted =
        Moves-bind R allows.order _ _ (quote_peer-Moves quote_attempts peer no_attempt) λ answer.
          Moves-if R allows.order _ _ _ (Moves-pure R allows.order _) (
            Moves-bind R allows.order _ _ (connection_for-Moves peer)
              λ id. quote_group-Moves peers _ _)

    pub put_peer-Moves :
        (proof_bytes : Bytes) (q : QuotedPeer) (left : ℕ) (last : Error)
        → Moves R (put_peer env world address content proof_bytes q left last)
    unfolding put_peer
    put_peer-Moves proof_bytes q zero last = Moves-pure R allows.order _
    put_peer-Moves proof_bytes q (suc left) last =
        Moves-match_result R allows.order _ _ _
          (allows.ask q.conn _ (put_chunk-Advances env address content proof_bytes))
          (λ b. Moves-pure R allows.order _) λ e. put_peer-Moves proof_bytes q left e

    pub put_all-Moves :
        (proof_bytes : Bytes) (qs : List QuotedPeer) (accepted : ℕ) (last : Error)
        → Moves R (put_all env world address content proof_bytes qs accepted last)
    unfolding put_all
    put_all-Moves proof_bytes [] accepted last = Moves-pure R allows.order _
    put_all-Moves proof_bytes (q ∷ qs) accepted last =
        Moves-bind R allows.order _ _ (put_peer-Moves proof_bytes q quote_attempts last)
          λ r. put_all-Moves proof_bytes qs _ _
