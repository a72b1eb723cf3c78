-- ===== src/Client/Authentic/Dials.antt =====
-- src/lib.rs: `connection_for` and the other dials keep every connection authenticated.
use ant_wasm_client.Base.{
  ℕ, ◌≡◌, refl, sym, ap, ◌∙◌, subst, Option, none, some, get_elem?, All, length, length-map, [],
  ◌∷◌, ◌++◌, Bytes, Text, ok, err, get_elem?-append_length, inl, inr,
}
use mathlib.Core.List.{map-append}
use ant_wasm_client.Assoc.{insert-All, remove-All}
use ant_wasm_client.Errors.{Fallible}
use ant_wasm_client.Protocol.{PeerConnectInfo}
use ant_wasm_client.Env.{Env}
use ant_wasm_client.Action.{bind-cases}
use ant_wasm_client.Action.Moves.{Moves, IsPreorder}
use ant_wasm_client.Transport.Connect.{Opened}
use ant_wasm_client.Conn.{NodeConnection}
use ant_wasm_client.Conn.Identity.{session_of}
use ant_wasm_client.Conn.Established.{IsEstablished, establish-IsEstablished}
use ant_wasm_client.Client.{
  World, Client, add_connection, drop_connection, establish_on, connect, pooled_or_new, call_pay,
}
use ant_wasm_client.Client.Download.{reset_fetched, count_fetched}
use ant_wasm_client.Client.Moves.{Allows}
use ant_wasm_client.Client.Moves.Calls.{AllowsCalls}
use ant_wasm_client.Client.Moves.Relaying.{connect_via_relay-Moves}
use ant_wasm_client.Client.Authentic.{
  sessions, IsSessionWith, ConnectsTo, Grows, Grows-stay, Grows-next, Grows-same,
  on_connection-Moves, ConnectsTo-append, All-ConnectsTo-append,
}

module _ (env : Env) (world : World) where
  pub establish_on-IsEstablished :
      (i : ℕ) (expected : Option Bytes) (opened : Fallible Opened) (c : NodeConnection)
      → establish_on env world i expected opened ≡ ok c
      → IsEstablished env (world.keygen i) expected (session_of c)
  unfolding establish_on
  establish_on-IsEstablished i expected (ok opened) c h =
      establish-IsEstablished env (world.keygen i) expected opened.transport c h
  establish_on-IsEstablished i expected (err e) c h = cc

  pub connect-IsEstablished :
      (ip : Text) (port : ℕ) (cert : Bytes) (expected : Option Bytes) (s : Client)
      (c : NodeConnection)
      → (connect env world ip port cert expected s).0 ≡ ok c
      → IsEstablished env (world.keygen s.dialed) expected (session_of c)
  unfolding connect
  connect-IsEstablished ip port cert expected s c h =
      establish_on-IsEstablished s.dialed expected _ c h

  pub connect-IsSessionWith :
      (ip : Text) (port : ℕ) (cert key : Bytes) (s : Client) (c : NodeConnection)
      → (connect env world ip port cert (some key) s).0 ≡ ok c
      → IsSessionWith env world key (session_of c)
  connect-IsSessionWith ip port cert key s c h =
      let established = connect-IsEstablished ip port cert (some key) s c h in
      record {
        identity = established.authenticated.pinned;
        dial = s.dialed;
        expected = some key;
        established = established;
      }

  connect-Moves :
      (ip : Text) (port : ℕ) (cert : Bytes) (expected : Option Bytes)
      → Moves (Grows env world) (connect env world ip port cert expected)
  unfolding connect
  connect-Moves ip port cert expected = record { at = λ s. Grows-same env world s _ refl refl refl }

  sessions-add_connection :
      (key : Bytes) (c : NodeConnection) (s : Client)
      → sessions (add_connection key c s).1 ≡ sessions s ++ (session_of c ∷ [])
  unfolding add_connection
  sessions-add_connection key c s = map-append session_of s.heap (c ∷ [])

  pub ConnectsTo-add_connection :
      (key : Bytes) (c : NodeConnection) (s : Client)
      → IsSessionWith env world key (session_of c)
      → ConnectsTo env world (sessions (add_connection key c s).1) key (length s.heap)
  ConnectsTo-add_connection key c s with_key = (
    session_of c,
    ap (λ es. get_elem? es (length s.heap)) (sessions-add_connection key c s)
        ∙ subst (λ n. get_elem? (sessions s ++ (session_of c ∷ [])) n ≡ some (session_of c))
            (length-map session_of s.heap) (get_elem?-append_length (sessions s) [] (session_of c)),
    with_key,
  )

  pub added-index :
      (key : Bytes) (c : NodeConnection) (s : Client)
      → ok (length s.heap) ≡ (add_connection key c s).0
  unfolding add_connection
  added-index key c s = refl

  add_connection-Grows :
      (key : Bytes) (c : NodeConnection) (s : Client)
      → IsSessionWith env world key (session_of c)
      → Grows env world s (add_connection key c s).1
  add_connection-Grows key c s with_key =
      let entry = ConnectsTo-add_connection key c s with_key in
      let added = sessions-add_connection key c s in
      record {
        bootstrap = unfold add_connection in refl;
        later = session_of c ∷ [];
        heap = added;
        authentic = λ h.
            unfold add_connection in
            record {
              boot_key = h.boot_key;
              boot =
                  subst (λ es. ConnectsTo env world es h.boot_key s.bootstrap) (sym added)
                    (ConnectsTo-append env world (sessions s) _ h.boot_key s.bootstrap h.boot);
              pooled =
                  insert-All
                    (λ p. ConnectsTo env world (sessions (add_connection key c s).1) p.0 p.1) key
                    (length s.heap) s.pool entry
                    (subst (λ es. All (λ p. ConnectsTo env world es p.0 p.1) s.pool) (sym added)
                      (All-ConnectsTo-append env world (sessions s) _ s.pool h.pooled));
            };
      }

  drop_connection-Moves : (key : Bytes) → Moves (Grows env world) (drop_connection key)
  unfolding drop_connection
  drop_connection-Moves key = record {
    at = λ s. record {
      bootstrap = refl;
      later = (Grows-stay env world s).later;
      heap = (Grows-stay env world s).heap;
      authentic = λ h. record {
        boot_key = h.boot_key;
        boot = h.boot;
        pooled = remove-All (λ p. ConnectsTo env world (sessions s) p.0 p.1) key s.pool h.pooled;
      };
    };
  }

  dial-Moves :
      (peer : PeerConnectInfo) → Moves (Grows env world) (pooled_or_new env world peer none)
  unfolding pooled_or_new
  dial-Moves peer = record {
    at = λ s.
        let dial =
          connect env world peer.ip peer.port (world.hex_encode peer.cert_hash)
            (some peer.peer_id) in
        let dialed =
          (connect-Moves peer.ip peer.port (world.hex_encode peer.cert_hash) (some peer.peer_id)).at
            s in
        elim (bind-cases dial (add_connection peer.peer_id) s) [
          | inl e ↦ subst (Grows env world s) (sym e) dialed
          | inr (c, got, e) ↦
              subst (λ r. Grows env world s r.1) (sym e)
                (Grows-next env world s (dial s).1 _ dialed (
                  add_connection-Grows peer.peer_id c (dial s).1 (
                    connect-IsSessionWith peer.ip peer.port (world.hex_encode peer.cert_hash)
                      peer.peer_id s c got)))
        ];
  }

  pub Grows-IsPreorder : IsPreorder (Grows env world)
  Grows-IsPreorder = record { stay = Grows-stay env world; next = Grows-next env world }

  pub Grows-Allows : Allows env world (Grows env world)
  Grows-Allows = record {
    order = Grows-IsPreorder;
    ask = λ id m k. on_connection-Moves env world id m k;
    dial = dial-Moves;
    forget = drop_connection-Moves;
  }

  pub Grows-AllowsCalls : AllowsCalls env world (Grows env world)
  unfolding call_pay reset_fetched count_fetched
  Grows-AllowsCalls = record {
    steps = Grows-Allows;
    reset = record { at = λ s. Grows-same env world s _ refl refl refl };
    count = record { at = λ s. Grows-same env world s _ refl refl refl };
    pay = λ to calldata. record { at = λ s. Grows-same env world s _ refl refl refl };
    relay =
        connect_via_relay-Moves env world (Grows env world) Grows-Allows
          λ s n. Grows-same env world s _ refl refl refl;
  }
