-- ===== src/Client/Authentic/Pooled.antt =====
-- src/lib.rs: whom the connection that `connection_for` returns talks to.
use ant_wasm_client.Base.{ℕ, ◌≡◌, sym, ap, ◌∙◌, subst, Option, none, some, length, ok, ok-injective}
use ant_wasm_client.Assoc.{lookup, lookup-All}
use ant_wasm_client.Protocol.{PeerConnectInfo}
use ant_wasm_client.Env.{Env}
use ant_wasm_client.Action.{bind-eq_run, gets}
use ant_wasm_client.Client.{World, Client, add_connection, connect, pooled_or_new, connection_for}
use ant_wasm_client.Client.Authentic.Dials.{
  connect-IsSessionWith, ConnectsTo-add_connection, added-index,
}
use ant_wasm_client.Client.Authentic.{sessions, ConnectsTo, IsAuthentic}

module _ (env : Env) (world : World) where
  pooled_or_new-ConnectsTo :
      (peer : PeerConnectInfo) (pooled : Option ℕ) (s : Client) (id : ℕ)
      → lookup peer.peer_id s.pool ≡ pooled
      → IsAuthentic env world s
      → (pooled_or_new env world peer pooled s).0 ≡ ok id
      → ConnectsTo env world (sessions (pooled_or_new env world peer pooled s).1) peer.peer_id id
  unfolding pooled_or_new
  pooled_or_new-ConnectsTo peer (some old) s id found h got =
      subst (ConnectsTo env world (sessions s) peer.peer_id) (ok-injective old id got) (
        lookup-All (λ p. ConnectsTo env world (sessions s) p.0 p.1) peer.peer_id old s.pool h.pooled
          found)
  pooled_or_new-ConnectsTo peer none s id found h got =
      let dial =
        connect env world peer.ip peer.port (world.hex_encode peer.cert_hash) (some peer.peer_id) in
      let (c, connected, run) = bind-eq_run dial (add_connection peer.peer_id) s got in
      let with_key =
        connect-IsSessionWith env world peer.ip peer.port (world.hex_encode peer.cert_hash)
          peer.peer_id s c connected in
      let added : length (dial s).1.heap ≡ id =
        ok-injective _ id
          (added-index env world peer.peer_id c (dial s).1 ∙ sym (ap (λ r. r.0) run) ∙ got) in
      subst (λ r. ConnectsTo env world (sessions r.1) peer.peer_id id) (sym run)
        (subst
          (λ n.
            ConnectsTo env world (sessions (add_connection peer.peer_id c (dial s).1).1)
              peer.peer_id n)
          added (ConnectsTo-add_connection env world peer.peer_id c (dial s).1 with_key))

  -- In an authentic client `connection_for` returns only the index of a connection that is a session
  -- with the peer asked for: a handshake of this client authenticated that identity, whether the
  -- connection was pooled or is new.
  pub connection_for-ConnectsTo :
      (peer : PeerConnectInfo) (s : Client) (id : ℕ)
      → IsAuthentic env world s
      → (connection_for env world peer s).0 ≡ ok id
      → ConnectsTo env world (sessions (connection_for env world peer s).1) peer.peer_id id
  unfolding connection_for
  connection_for-ConnectsTo peer s id h got =
      let (pooled, found, run) =
        bind-eq_run (gets (λ s. lookup peer.peer_id s.pool)) (pooled_or_new env world peer) s got in
      subst (λ r. ConnectsTo env world (sessions r.1) peer.peer_id id) (sym run)
        (pooled_or_new-ConnectsTo peer pooled s id (ok-injective _ pooled found) h
          (sym (ap (λ r. r.0) run) ∙ got))
