-- ===== src/Client/Authentic.antt =====
-- src/lib.rs: whom the connections of the client talk to.
pub mod Dials
pub mod Pooled
pub mod Reached
use ant_wasm_client.Base.{
  ℕ, ◌≡◌, refl, sym, ap, ◌∙◌, Option, none, some, get_elem?, map, List, [], ◌∷◌, ◌++◌, append_assoc,
  append-nil, All, Bytes, get_elem?-append, map-set,
}
use ant_wasm_client.Env.{Env}
use ant_wasm_client.Action.{Action}
use ant_wasm_client.Action.Moves.{Moves}
use ant_wasm_client.Tunnel.{Established}
use ant_wasm_client.Conn.{NodeConnection}
use ant_wasm_client.Conn.Identity.{session_of, Advances}
use ant_wasm_client.Conn.Established.{IsEstablished}
use ant_wasm_client.Client.{World, Client, run_on, on_connection}

abbrev pub sessions : Client → List Established
sessions s = map session_of s.heap

module _ (env : Env) (world : World) where
  -- A session with the node of an identity: a handshake with the keys of some dial established it.
  pub record IsSessionWith (key : Bytes) (e : Established) : Type 0 where
    pub identity : e.peer_id ≡ key
    pub dial : ℕ
    pub expected : Option Bytes
    pub established : IsEstablished env (world.keygen dial) expected e

  -- The connection at an index is a session with the node of an identity.
  abbrev pub ConnectsTo : List Established → Bytes → ℕ → Type 0
  ConnectsTo es key id = (e : Established) × (get_elem? es id ≡ some e) × IsSessionWith key e

  -- Every pooled connection is there and is a session with the node that it is pooled under, and the
  -- bootstrap connection is a session with some node.
  pub record IsAuthentic (s : Client) : Type 0 where
    pub boot_key : Bytes
    pub boot : ConnectsTo (sessions s) boot_key s.bootstrap
    pub pooled : All (λ p. ConnectsTo (sessions s) p.0 p.1) s.pool

  pub ConnectsTo-append :
      (es later : List Established) (key : Bytes) (id : ℕ)
      → ConnectsTo es key id
      → ConnectsTo (es ++ later) key id
  ConnectsTo-append es later key id (e, found, with_key) =
      (e, get_elem?-append es later id found, with_key)

  pub All-ConnectsTo-append :
      (es later : List Established) (pool : List (Bytes × ℕ))
      → All (λ p. ConnectsTo es p.0 p.1) pool
      → All (λ p. ConnectsTo (es ++ later) p.0 p.1) pool
  All-ConnectsTo-append es later [] h = tt
  All-ConnectsTo-append es later ((key, id) ∷ pool) (h, hs) =
      (ConnectsTo-append es later key id h, All-ConnectsTo-append es later pool hs)

  -- How every method moves the client: connections are added, never moved, replaced or redirected.
  pub record Grows (s s' : Client) : Type 0 where
    pub bootstrap : s'.bootstrap ≡ s.bootstrap
    pub later : List Established
    pub heap : sessions s' ≡ sessions s ++ later
    pub authentic : IsAuthentic s → IsAuthentic s'

  pub Grows-stay : (s : Client) → Grows s s
  Grows-stay s = record {
    bootstrap = refl;
    later = [];
    heap = sym (append-nil (sessions s));
    authentic = λ h. h;
  }

  pub Grows-next : (s s' s'' : Client) → Grows s s' → Grows s' s'' → Grows s s''
  Grows-next s s' s'' g g' = record {
    bootstrap = g'.bootstrap ∙ g.bootstrap;
    later = g.later ++ g'.later;
    heap = g'.heap ∙ ap (λ es. es ++ g'.later) g.heap ∙ append_assoc (sessions s) g.later g'.later;
    authentic = λ h. g'.authentic (g.authentic h);
  }

  -- A move that leaves bootstrap, sessions and pool as they are.
  pub Grows-same :
      (s s' : Client)
      → s'.bootstrap ≡ s.bootstrap
      → sessions s' ≡ sessions s
      → s'.pool ≡ s.pool
      → Grows s s'
  Grows-same s s' same_boot same_sessions same_pool = record {
    bootstrap = same_boot;
    later = [];
    heap = same_sessions ∙ sym (append-nil (sessions s));
    authentic = λ h. record {
      boot_key = h.boot_key;
      boot = rw (same_boot, same_sessions) h.boot;
      pooled = rw (same_pool, same_sessions) h.pooled;
    };
  }

  run_on-Grows :
      {A : Type 0} (id : ℕ) (m : Action NodeConnection A) (s : Client)
      (found : Option NodeConnection)
      → Moves Advances m
      → get_elem? s.heap id ≡ found
      → Grows s (run_on id m s found).1
  unfolding run_on
  run_on-Grows id m s none k h = Grows-stay s
  run_on-Grows id m s (some c) k h =
      Grows-same s _ refl (map-set session_of s.heap id c (m c).1 h (k.at c).session) refl

  pub on_connection-Moves :
      {A : Type 0} (id : ℕ) (m : Action NodeConnection A)
      → Moves Advances m
      → Moves Grows (on_connection id m)
  unfolding on_connection
  on_connection-Moves id m k = record { at = λ s. run_on-Grows id m s (get_elem? s.heap id) k refl }
