-- ===== src/Client/Storing.antt =====
-- src/lib.rs: the states of a client in the middle of `store_one`.
use ant_wasm_client.Base.{
  ℕ, zero, suc, sym, ◌∙◌, subst, inl, inr, Result-cases, Bool, true, false, ◌&&◌, leb,
  if◌then◌else◌, List, [], ◌∷◌, ◌++◌, length, Bytes,
}
use ant_wasm_client.Errors.{Error, no_attempt}
use ant_wasm_client.Protocol.{PeerConnectInfo}
use ant_wasm_client.Env.{Env}
use ant_wasm_client.Action.{pure, ◌>>=◌, bind-of_ok, bind-cases}
use ant_wasm_client.Conn.{closest_peers}
use ant_wasm_client.Evm.Calldata.{DataPayment}
use ant_wasm_client.Client.{World, Client, on_connection, connection_for}
use ant_wasm_client.Client.Quotes.{try_quote}
use ant_wasm_client.Client.Store.{
  QuotedPeer, already_stored, quote_attempts, close_group_majority, before_retry, quote_peer,
  quote_group, put_chunk, put_peer, pay_all,
}
use ant_wasm_client.Client.Fallback.{match_result-of_ok, match_result-of_err}
use ant_wasm_client.Client.Retried.{before_retry-returns}

module _ (env : Env) (world : World) (address content : Bytes) where
  -- What the steps of storing a chunk make of a client, one after another: it asks for the peers,
  -- for a quote, drops or looks up a peer's connection, pays, and puts the chunk.
  pub data Storing (start : Client) : Client → Type 0 where
    begun : Storing start start
    discovered :
        {s : Client} (id : ℕ)
        → Storing start s
        → Storing start (on_connection id (closest_peers env address) s).1
    tried :
        {s : Client} (peer : PeerConnectInfo)
        → Storing start s
        → Storing start (try_quote env world peer address (length content) s).1
    dropped :
        {s : Client} (left : ℕ) (peer : PeerConnectInfo)
        → Storing start s
        → Storing start (before_retry env world address content left peer s).1
    dialed :
        {s : Client} (peer : PeerConnectInfo)
        → Storing start s
        → Storing start (connection_for env world peer s).1
    paid :
        {s : Client} (token vault : Bytes) (payments : List DataPayment)
        → Storing start s
        → Storing start (pay_all env world address content token vault payments s).1
    put :
        {s : Client} (proof_bytes : Bytes) (q : QuotedPeer)
        → Storing start s
        → Storing start (on_connection q.conn (put_chunk env address content proof_bytes) s).1

  pub Storing-next : {s s' s'' : Client} → Storing s s' → Storing s' s'' → Storing s s''
  Storing-next a begun = a
  Storing-next a (discovered id b) = discovered id (Storing-next a b)
  Storing-next a (tried peer b) = tried peer (Storing-next a b)
  Storing-next a (dropped left peer b) = dropped left peer (Storing-next a b)
  Storing-next a (dialed peer b) = dialed peer (Storing-next a b)
  Storing-next a (paid token vault payments b) = paid token vault payments (Storing-next a b)
  Storing-next a (put proof_bytes q b) = put proof_bytes q (Storing-next a b)

  pub quote_peer-Storing :
      (left : ℕ) (peer : PeerConnectInfo) (last : Error) (start s : Client)
      → Storing start s
      → Storing start (quote_peer env world address content left peer last s).1
  unfolding quote_peer
  quote_peer-Storing zero peer last start s g = g
  quote_peer-Storing (suc left) peer last start s g =
      let try = try_quote env world peer address (length content) in
      let again = λ (e : Error).
        before_retry env world address content left peer
        >>= (λ _. quote_peer env world address content left peer e) in
      let g₁ = tried peer g in
      elim (Result-cases (try s).0) [
        | inl (q, got) ↦
            subst (λ r. Storing start r.1) (sym (match_result-of_ok try pure again s q got)) g₁
        | inr (e, got) ↦
            subst (λ r. Storing start r.1)
              (sym (
                match_result-of_err try pure again s e got
                ∙ bind-of_ok _ _ (try s).1 _ tt
                    (before_retry-returns env world address content peer left (try s).1)))
              (quote_peer-Storing left peer e start _ (dropped left peer g₁))
      ]

  -- The rest of the quote phase behind one quote.
  quoted-Storing :
      (enough : Bool) (peer : PeerConnectInfo) (peers : List PeerConnectInfo) (count : ℕ)
      (quoted : ℕ → List QuotedPeer) (start s : Client)
      → Storing start s
      → ((qs : List QuotedPeer) (s' : Client)
          → Storing start s'
          → Storing start (quote_group env world address content peers count qs s').1)
      → Storing start
          ((if enough
              then pure already_stored
              else (connection_for env world peer
                  >>= (λ id. quote_group env world address content peers count (quoted id))))
            s).1
  quoted-Storing true peer peers count quoted start s g next = g
  quoted-Storing false peer peers count quoted start s g next =
      elim (bind-cases (connection_for env world peer) _ s) [
        | inl e ↦ subst (Storing start) (sym e) (dialed peer g)
        | inr (id, _, e) ↦
            subst (λ r. Storing start r.1) (sym e) (next (quoted id) _ (dialed peer g))
      ]

  pub quote_group-Storing :
      (peers : List PeerConnectInfo) (count : ℕ) (quoted : List QuotedPeer) (start s : Client)
      → Storing start s
      → Storing start (quote_group env world address content peers count quoted s).1
  unfolding quote_group
  quote_group-Storing [] count quoted start s g = g
  quote_group-Storing (peer ∷ peers) count quoted start s g =
      let ask = quote_peer env world address content quote_attempts peer no_attempt in
      let g₁ = quote_peer-Storing quote_attempts peer no_attempt start s g in
      elim (bind-cases ask _ s) [
        | inl e ↦ subst (Storing start) (sym e) g₁
        | inr (answer, _, e) ↦
            subst (λ r. Storing start r.1) (sym e)
              (quoted-Storing
                (answer.1.0 && leb close_group_majority (if answer.1.0 then suc count else count))
                peer peers (if answer.1.0 then suc count else count)
                (λ id.
                  quoted
                  ++ (record {
                    peer_id = peer.peer_id;
                    conn = id;
                    quote = answer.0;
                    commitment = answer.1.1;
                  }
                      ∷ []))
                start (ask s).1 g₁
                (λ quoted' s' g'.
                  quote_group-Storing peers (if answer.1.0 then suc count else count) quoted' start
                    s' g'))
      ]

  pub put_peer-Storing :
      (proof_bytes : Bytes) (q : QuotedPeer) (left : ℕ) (last : Error) (start s : Client)
      → Storing start s
      → Storing start (put_peer env world address content proof_bytes q left last s).1
  unfolding put_peer
  put_peer-Storing proof_bytes q zero last start s g = g
  put_peer-Storing proof_bytes q (suc left) last start s g =
      let try = on_connection q.conn (put_chunk env address content proof_bytes) in
      let again = λ (e : Error). put_peer env world address content proof_bytes q left e in
      let g₁ = put proof_bytes q g in
      elim (Result-cases (try s).0) [
        | inl (b, got) ↦
            subst (λ r. Storing start r.1)
              (sym (match_result-of_ok try (λ b. pure (b, last)) again s b got)) g₁
        | inr (e, got) ↦
            subst (λ r. Storing start r.1)
              (sym (match_result-of_err try (λ b. pure (b, last)) again s e got))
              (put_peer-Storing proof_bytes q left e start _ g₁)
      ]
