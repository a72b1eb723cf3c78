-- ===== src/Client/Assigned.antt =====
-- src/lib.rs: the connections that the quote phase of `store_one` collects.
use ant_wasm_client.Base.{
  ℕ, suc, ◌≡◌, refl, ap, sym, ◌∙◌, subst, Bool, true, false, ◌&&◌, List, [], ◌∷◌, ◌++◌, All,
  All-append, leb, if◌then◌else◌, Bytes, ok,
}
use ant_wasm_client.Errors.{no_attempt}
use ant_wasm_client.Protocol.{PeerConnectInfo}
use ant_wasm_client.Env.{Env}
use ant_wasm_client.Action.{Action, pure, ◌>>=◌, bind-eq_run}
use ant_wasm_client.Client.{World, Client, connection_for}
use ant_wasm_client.Client.Store.{
  QuotePhase, QuotedPeer, all_quoted, already_stored, quote_peer, quote_group, quote_attempts,
  close_group_majority,
}
use ant_wasm_client.Client.Storing.{Storing, begun, dialed, Storing-next, quote_peer-Storing}

-- A phase that ends with all quotes did not stop early.
not_stored_run :
    (b : Bool) (m : Action Client QuotePhase) (s end : Client) (qs : List QuotedPeer)
    → (if b then pure already_stored else m) s ≡ (ok (all_quoted qs), end)
    → m s ≡ (ok (all_quoted qs), end)
not_stored_run true m s end qs h = cc
not_stored_run false m s end qs h = h

module _ (env : Env) (world : World) (address content : Bytes) where
  -- The connection of a quoted peer is one that `connection_for` gave for a peer with its identity,
  -- between two states of the client in the course of storing.
  pub record IsAssigned (start end : Client) (q : QuotedPeer) : Type 0 where
    pub peer : PeerConnectInfo
    pub same_peer : peer.peer_id ≡ q.peer_id
    pub dialing : Client
    pub since : Storing env world address content start dialing
    pub assigned : (connection_for env world peer dialing).0 ≡ ok q.conn
    pub until : Storing env world address content (connection_for env world peer dialing).1 end

  IsAssigned-later :
      (start end end' : Client) (qs : List QuotedPeer)
      → Storing env world address content end end'
      → All (IsAssigned start end) qs
      → All (IsAssigned start end') qs
  IsAssigned-later start end end' [] g h = tt
  IsAssigned-later start end end' (q ∷ qs) g (a, as_) = (
    record {
      peer = a.peer;
      same_peer = a.same_peer;
      dialing = a.dialing;
      since = a.since;
      assigned = a.assigned;
      until = Storing-next env world address content a.until g;
    },
    IsAssigned-later start end end' qs g as_,
  )

  pub quote_group-IsAssigned :
      (peers : List PeerConnectInfo) (count : ℕ) (quoted qs : List QuotedPeer)
      (start s end : Client)
      → Storing env world address content start s
      → All (IsAssigned start s) quoted
      → quote_group env world address content peers count quoted s ≡ (ok (all_quoted qs), end)
      → All (IsAssigned start end) qs
  unfolding quote_group
  quote_group-IsAssigned [] count quoted qs start s end g valid h =
      let same : quoted ≡ qs = cc in
      let over : s ≡ end = ap (λ r. r.1) h in
      subst (λ qs. All (IsAssigned start end) qs) same
        (subst (λ e. All (IsAssigned start e) quoted) over valid)
  quote_group-IsAssigned (peer ∷ peers) count quoted qs start s end g valid h =
      let ask = quote_peer env world address content quote_attempts peer no_attempt in
      let (answer, _, run) = bind-eq_run ask _ s (ap (λ r. r.0) h) in
      let s₁ = (ask s).1 in
      let asked =
        quote_peer-Storing env world address content quote_attempts peer no_attempt s s begun in
      let count' = if answer.1.0 then suc count else count in
      let entry : ℕ → QuotedPeer = λ id. record {
        peer_id = peer.peer_id;
        conn = id;
        quote = answer.0;
        commitment = answer.1.1;
      } in
      let rest : ℕ → Action Client QuotePhase =
        λ id. quote_group env world address content peers count' (quoted ++ (entry id ∷ [])) in
      let h₁ =
        not_stored_run (answer.1.0 && leb close_group_majority count')
          (connection_for env world peer >>= rest) s₁ end qs (sym run ∙ h) in
      let (id, assigned, run₁) =
        bind-eq_run (connection_for env world peer) rest s₁ (ap (λ r. r.0) h₁) in
      let s₂ = (connection_for env world peer s₁).1 in
      let g₁ = Storing-next env world address content g asked in
      let own : IsAssigned start s₂ (entry id) = record {
        peer = peer;
        same_peer = refl;
        dialing = s₁;
        since = g₁;
        assigned = assigned;
        until = begun;
      } in
      let valid' =
        All-append (IsAssigned start s₂) quoted (entry id ∷ [])
          (IsAssigned-later start s s₂ quoted (dialed peer asked) valid) (own, tt) in
      quote_group-IsAssigned peers count' (quoted ++ (entry id ∷ [])) qs start s₂ end
        (dialed peer g₁) valid' (sym run₁ ∙ h₁)
