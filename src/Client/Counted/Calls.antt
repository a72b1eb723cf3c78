-- ===== src/Client/Counted/Calls.antt =====
-- src/lib.rs, src/conn.rs: the sequence numbers of all connections of a client, over all its calls.
use ant_wasm_client.Base.{
  ℕ, ◌≡◌, refl, sym, subst, Option, none, some, get_elem?, [], ◌∷◌, All, All-append,
  get_elem?-append, Bytes, Text, Result, inl, inr, ok, err, ok-injective, arith,
}
use ant_wasm_client.Errors.{Fallible}
use ant_wasm_client.Protocol.{PeerConnectInfo}
use ant_wasm_client.Env.{Env}
use ant_wasm_client.Action.{bind-eq_ok, bind-cases}
use ant_wasm_client.Action.Moves.{Moves}
use ant_wasm_client.Transport.{Transport}
use ant_wasm_client.Transport.Connect.{Opened}
use ant_wasm_client.Conn.{NodeConnection, establish}
use ant_wasm_client.Conn.Identity.{Advances-IsPreorder}
use ant_wasm_client.Retrieval.{SelfEncryption}
use ant_wasm_client.Client.{
  World, Client, add_connection, drop_connection, establish_on, connect, pooled_or_new, call_pay,
}
use ant_wasm_client.Client.Calls.{undialed, start, client_of}
use ant_wasm_client.Client.Upload.{Encryption}
use ant_wasm_client.Client.Download.{reset_fetched, count_fetched}
use ant_wasm_client.Client.Moves.{Allows}
use ant_wasm_client.Client.Moves.Calls.{AllowsCalls}
use ant_wasm_client.Client.Moves.Relaying.{connect_via_relay-Moves}
use ant_wasm_client.Client.Authentic.Reached.{Called, Called-Moves, Reached, started, then_called}
use ant_wasm_client.Client.Counted.{
  IsCounted, StillAt, Advanced, Advanced-same, Advanced-next, Advanced-IsPreorder,
  on_connection-Advanced,
}

-- A connection that `establish` returns starts to count at one.
establish-IsCounted :
    (env : Env) (keygen : Result (Bytes × Bytes) Text) (expected : Option Bytes) (t : Transport)
    (c : NodeConnection)
    → (establish env keygen expected t).0 ≡ ok c
    → IsCounted c
unfolding establish
establish-IsCounted env keygen expected t c h =
    let (_, _, h₁) = bind-eq_ok _ _ t h in
    let (_, _, h₂) = bind-eq_ok _ _ _ h₁ in
    let (_, _, h₃) = bind-eq_ok _ _ _ h₂ in
    let (_, _, h₄) = bind-eq_ok _ _ _ h₃ in
    let (_, _, h₅) = bind-eq_ok _ _ _ h₄ in
    subst IsCounted (ok-injective _ c h₅) (omega arith, omega arith)

module _ (env : Env) (world : World) where
  establish_on-IsCounted :
      (i : ℕ) (expected : Option Bytes) (opened : Fallible Opened) (c : NodeConnection)
      → establish_on env world i expected opened ≡ ok c
      → IsCounted c
  unfolding establish_on
  establish_on-IsCounted i expected (ok opened) c h =
      establish-IsCounted env (world.keygen i) expected opened.transport c h
  establish_on-IsCounted i expected (err e) c h = cc

  connect-IsCounted :
      (ip : Text) (port : ℕ) (cert : Bytes) (expected : Option Bytes) (s : Client)
      (c : NodeConnection)
      → (connect env world ip port cert expected s).0 ≡ ok c
      → IsCounted c
  unfolding connect
  connect-IsCounted ip port cert expected s c h = establish_on-IsCounted s.dialed expected _ c h

  connect-Advanced :
      (ip : Text) (port : ℕ) (cert : Bytes) (expected : Option Bytes)
      → Moves Advanced (connect env world ip port cert expected)
  unfolding connect
  connect-Advanced ip port cert expected = record { at = λ s. Advanced-same s _ refl }

  add_connection-Advanced :
      (key : Bytes) (c : NodeConnection) (s : Client)
      → IsCounted c
      → Advanced s (add_connection key c s).1
  unfolding add_connection
  add_connection-Advanced key c s k = record {
    still = λ id d h. (d, get_elem?-append s.heap (c ∷ []) id h, Advances-IsPreorder.stay d);
    counted = λ h. All-append IsCounted s.heap (c ∷ []) h (k, tt);
  }

  dial-Advanced : (peer : PeerConnectInfo) → Moves Advanced (pooled_or_new env world peer none)
  unfolding pooled_or_new
  dial-Advanced peer = record {
    at = λ s.
        let cert = world.hex_encode peer.cert_hash in
        let dial = connect env world peer.ip peer.port cert (some peer.peer_id) in
        let dialed = (connect-Advanced peer.ip peer.port cert (some peer.peer_id)).at s in
        elim (bind-cases dial (add_connection peer.peer_id) s) [
          | inl e ↦ subst (Advanced s) (sym e) dialed
          | inr (c, got, e) ↦
              subst (λ r. Advanced s r.1) (sym e)
                (Advanced-next s (dial s).1 _ dialed (
                  add_connection-Advanced peer.peer_id c (dial s).1
                    (connect-IsCounted peer.ip peer.port cert (some peer.peer_id) s c got)))
        ];
  }

  Advanced-Allows : Allows env world Advanced
  unfolding drop_connection
  Advanced-Allows = record {
    order = Advanced-IsPreorder;
    ask = λ id m k. on_connection-Advanced id m k;
    dial = dial-Advanced;
    forget = λ key. record { at = λ s. Advanced-same s _ refl };
  }

  Advanced-AllowsCalls : AllowsCalls env world Advanced
  unfolding call_pay reset_fetched count_fetched
  Advanced-AllowsCalls = record {
    steps = Advanced-Allows;
    reset = record { at = λ s. Advanced-same s _ refl };
    count = record { at = λ s. Advanced-same s _ refl };
    pay = λ to calldata. record { at = λ s. Advanced-same s _ refl };
    relay =
        connect_via_relay-Moves env world Advanced Advanced-Allows λ s n. Advanced-same s _ refl;
  }

  start-IsCounted :
      (ip : Text) (port : ℕ) (cert_hash_hex peer_id_hex : Text) (s : Client)
      → start env world ip port cert_hash_hex peer_id_hex ≡ ok s
      → All IsCounted s.heap
  unfolding start client_of
  start-IsCounted ip port cert_hash_hex peer_id_hex s h =
      let (expected, _, h₁) = bind-eq_ok _ _ undialed h in
      let (c, connected, h₂) = bind-eq_ok _ _ undialed h₁ in
      subst (λ s. All IsCounted s.heap) (ok-injective (client_of c) s h₂)
        (connect-IsCounted ip port cert_hash_hex expected undialed c connected, tt)

  module _ {DataMap : Type 0} (se : SelfEncryption DataMap) (encryption : Encryption DataMap) where
    -- What any number of calls make of a client.
    pub data Later (s : Client) : Client → Type 0 where
      now : Later s s
      after : {s' s'' : Client} → Later s s' → Called env world se encryption s' s'' → Later s s''

    Later-Advanced : {s s' : Client} → Later s s' → Advanced s s'
    Later-Advanced now = Advanced-same _ _ refl
    Later-Advanced (after l c) =
        Advanced-next _ _ _ (Later-Advanced l)
          (Called-Moves env world se encryption Advanced Advanced-AllowsCalls c)

    Reached-IsCounted : (s : Client) → Reached env world se encryption s → All IsCounted s.heap
    Reached-IsCounted s (started ip port cert_hash_hex peer_id_hex _ h) =
        start-IsCounted ip port cert_hash_hex peer_id_hex s h
    Reached-IsCounted s (then_called r c) =
        (Called-Moves env world se encryption Advanced Advanced-AllowsCalls c).counted
          (Reached-IsCounted _ r)

    -- Over any calls of a page, whatever they return, each connection that the page has or had is later
    -- the same session with the same key, its next sequence number is at least as high, and it is
    -- higher if anything was sent over the connection in between. All numbers stay between 1 and
    -- u32::MAX - 1, so that none overflows.
    pub Later-IsCounted :
        (s s' : Client)
        → Reached env world se encryption s
        → Later s s'
        → ((id : ℕ) (c : NodeConnection) → get_elem? s.heap id ≡ some c → StillAt s'.heap id c)
          × All IsCounted s'.heap
    Later-IsCounted s s' r l =
        let a = Later-Advanced l in (a.still, a.counted (Reached-IsCounted s r))
