-- ===== src/Client/Group.antt =====
-- src/lib.rs: what the quote phase of `store_one` collects.
use mathlib.Core.List.{map-append}
use ant_wasm_client.Base.{
  ℕ, zero, suc, ◌≡◌, ap, sym, ◌∙◌, subst, Bool, true, false, ◌&&◌, inl, inr, List, [], ◌∷◌, ◌++◌,
  append_assoc, append-nil, map, All, All-append, length, leb, if◌then◌else◌, Bytes, ok,
}
use ant_wasm_client.Errors.{Error, no_attempt}
use ant_wasm_client.Protocol.{PeerConnectInfo}
use ant_wasm_client.Env.{Env}
use ant_wasm_client.Action.{Action, pure, ◌>>=◌, bind-eq_ok, match_result-eq_ok}
use ant_wasm_client.Client.{World, Client, connection_for}
use ant_wasm_client.Client.Quotes.{Quoted, try_quote, IsQuoteFrom, try_quote-IsQuoteFrom}
use ant_wasm_client.Client.Store.{
  QuotePhase, QuotedPeer, all_quoted, already_stored, quote_peer, quote_group, before_retry,
  quote_attempts, close_group_majority,
}

-- A verified quote for the address from the peer that it is listed under.
abbrev pub IsQuotedFor : Env → Bytes → QuotedPeer → Type 0
IsQuotedFor env address q = IsQuoteFrom env.hashes env.dsa address q.peer_id q.quote

-- A phase that ends with all quotes did not stop early.
not_stored :
    (b : Bool) (m : Action Client QuotePhase) (s : Client) (qs : List QuotedPeer)
    → ((if b then pure already_stored else m) s).0 ≡ ok (all_quoted qs)
    → (m s).0 ≡ ok (all_quoted qs)
not_stored true m s qs h = cc
not_stored false m s qs h = h

module _ (env : Env) (world : World) (address content : Bytes) where
  quote_peer-IsQuoteFrom :
      (left : ℕ) (peer : PeerConnectInfo) (last : Error) (s : Client) (q : Quoted)
      → (quote_peer env world address content left peer last s).0 ≡ ok q
      → IsQuoteFrom env.hashes env.dsa address peer.peer_id q.0
  unfolding quote_peer
  quote_peer-IsQuoteFrom zero peer last s q h = cc
  quote_peer-IsQuoteFrom (suc left) peer last s q h =
      elim (match_result-eq_ok (try_quote env world peer address (length content)) pure
        (λ e.
          before_retry env world address content left peer
          >>= (λ _. quote_peer env world address content left peer e))
        s h) [
          | inl (q', got, same) ↦
              try_quote-IsQuoteFrom env world peer address (length content) s q (got ∙ same)
          | inr (e, h') ↦
              let (_, _, again) = bind-eq_ok _ _ _ h' in
              quote_peer-IsQuoteFrom left peer e _ q again
        ]

  pub quote_group_lem :
      (peers : List PeerConnectInfo) (count : ℕ) (quoted qs : List QuotedPeer) (s : Client)
      → All (IsQuotedFor env address) quoted
      → (quote_group env world address content peers count quoted s).0 ≡ ok (all_quoted qs)
      → All (IsQuotedFor env address) qs
        × (map (λ q. q.peer_id) qs ≡ map (λ q. q.peer_id) quoted ++ map (λ p. p.peer_id) peers)
  unfolding quote_group
  quote_group_lem [] count quoted qs s valid h =
      let same : quoted ≡ qs = cc in
      subst
        (λ qs.
          All (IsQuotedFor env address) qs
          × (map (λ q. q.peer_id) qs ≡ map (λ q. q.peer_id) quoted ++ []))
        same (valid, sym (append-nil (map (λ q. q.peer_id) quoted)))
  quote_group_lem (peer ∷ peers) count quoted qs s valid h =
      let (answer, got, h₁) = bind-eq_ok _ _ s h in
      let s' = (quote_peer env world address content quote_attempts peer no_attempt s).1 in
      let count' = if answer.1.0 then suc count else count in
      let entry : ℕ → QuotedPeer = λ id. record {
        peer_id = peer.peer_id;
        conn = id;
        quote = answer.0;
        commitment = answer.1.1;
      } in
      let rest : ℕ → Action Client QuotePhase =
        λ id. quote_group env world address content peers count' (quoted ++ (entry id ∷ [])) in
      let (id, _, h₂) = bind-eq_ok (connection_for env world peer) rest s' (
        not_stored (answer.1.0 && leb close_group_majority count')
          (connection_for env world peer >>= rest) s' qs h₁) in
      let valid' =
        All-append (IsQuotedFor env address) quoted (entry id ∷ []) valid
          (quote_peer-IsQuoteFrom quote_attempts peer no_attempt s answer got, tt) in
      let (all, ids) = quote_group_lem peers count' (quoted ++ (entry id ∷ [])) qs _ valid' h₂ in
      (
        all,
        ids
            ∙ ap (λ l. l ++ map (λ p. p.peer_id) peers)
                (map-append (λ q. q.peer_id) quoted (entry id ∷ []))
            ∙ append_assoc (map (λ q. q.peer_id) quoted) (peer.peer_id ∷ [])
                (map (λ p. p.peer_id) peers),
      )
