-- ===== src/Client/Held.antt =====
-- src/lib.rs: who has a chunk once `store_one` returns.
use ant_wasm_client.Base.{
  ℕ, zero, suc, ◌≡◌, ap, ◌∙◌, true, inl, inr, Option, length, Bytes, ok, ok-injective,
}
use ant_wasm_client.Errors.{Error}
use ant_wasm_client.Payment.{Quote}
use ant_wasm_client.Protocol.{PeerConnectInfo}
use ant_wasm_client.Env.{Env}
use ant_wasm_client.Action.{pure, ◌>>=◌, bind-eq_ok, match_result-eq_ok}
use ant_wasm_client.Client.{World, Client, on_connection}
use ant_wasm_client.Client.Quotes.{Quoted, try_quote}
use ant_wasm_client.Client.Store.{QuotedPeer, before_retry, quote_peer, put_chunk, put_peer}
use ant_wasm_client.Client.Storing.{Storing, tried, dropped, put}

module _ (env : Env) (world : World) (address content : Bytes) where
  -- A peer that said, in the course of storing the chunk, that it has it: its quote was verified.
  pub record SaidStored (start : Client) (peer : PeerConnectInfo) : Type 0 where
    pub now : Client
    pub since : Storing env world address content start now
    pub quote : Quote
    pub commitment : Option Bytes
    pub answered :
        (try_quote env world peer address (length content) now).0 ≡ ok (quote, (true, commitment))

  -- A peer that took the chunk with a proof of payment, in the course of storing it.
  pub record TookPut (proof_bytes : Bytes) (start : Client) (q : QuotedPeer) : Type 0 where
    pub now : Client
    pub since : Storing env world address content start now
    pub answered :
        (on_connection q.conn (put_chunk env address content proof_bytes) now).0 ≡ ok true

  -- The quote that an attempt returned, and the state in which it was asked for.
  pub quote_peer-answered :
      (left : ℕ) (peer : PeerConnectInfo) (last : Error) (start s : Client) (q : Quoted)
      → Storing env world address content start s
      → (quote_peer env world address content left peer last s).0 ≡ ok q
      → (now : Client) × Storing env world address content start now
        × ((try_quote env world peer address (length content) now).0 ≡ ok q)
  unfolding quote_peer
  quote_peer-answered zero peer last start s q g h = cc
  quote_peer-answered (suc left) peer last start s q g h =
      elim (match_result-eq_ok (try_quote env world peer address (length content)) pure
        (λ e.
          before_retry env world address content left peer
          >>= (λ _. quote_peer env world address content left peer e))
        s h) [
          | inl (q', got, same) ↦ (s, g, got ∙ same)
          | inr (e, h') ↦
              let (_, _, again) = bind-eq_ok _ _ _ h' in
              quote_peer-answered left peer e start _ q (dropped left peer (tried peer g)) again
        ]

  pub put_peer-TookPut :
      (proof_bytes : Bytes) (q : QuotedPeer) (left : ℕ) (last e : Error) (start s : Client)
      → Storing env world address content start s
      → (put_peer env world address content proof_bytes q left last s).0 ≡ ok (true, e)
      → TookPut proof_bytes start q
  unfolding put_peer
  put_peer-TookPut proof_bytes q zero last e start s g h = cc
  put_peer-TookPut proof_bytes q (suc left) last e start s g h =
      let attempt = on_connection q.conn (put_chunk env address content proof_bytes) in
      elim (match_result-eq_ok attempt (λ b. pure (b, last))
        (λ e. put_peer env world address content proof_bytes q left e) s h) [
          | inl (b, got, same) ↦
              let took : b ≡ true = ap (λ r. r.0) (ok-injective (b, last) (true, e) same) in
              record { now = s; since = g; answered = got ∙ ap ok took }
          | inr (e', h') ↦ put_peer-TookPut proof_bytes q left e' e start _ (put proof_bytes q g) h'
        ]
