-- ===== src/Conn/Established.antt =====
-- src/conn.rs: what a connection that `establish` returns has of its handshake.
use ant_wasm_client.Base.{◌≡◌, ap, subst, Option, Bytes, Text, Result, ok, ok-injective}
use ant_wasm_client.Env.{Env}
use ant_wasm_client.Action.{bind-eq_ok}
use ant_wasm_client.Transport.{Transport}
use ant_wasm_client.Tunnel
use ant_wasm_client.Tunnel.{ClientHandshake, Established}
use ant_wasm_client.Tunnel.Handshake.{Authenticates, finish-Authenticates}
use ant_wasm_client.Conn.{NodeConnection, establish}
use ant_wasm_client.Conn.Identity.{session_of}

-- A session of a handshake that began with these keys and that some frame of the node finished.
pub record IsEstablished (env : Env) (keygen : Result (Bytes × Bytes) Text)
    (expected : Option Bytes) (e : Established) : Type 0 where
  pub handshake : ClientHandshake
  pub hello : Bytes
  pub started : Tunnel.start keygen ≡ ok (handshake, hello)
  pub accept : Bytes
  pub authenticated : Authenticates env.hashes env.dsa env.kem handshake accept expected e

-- A connection that `establish` returns has the identity and the key of a handshake that this client
-- started and that an authenticated answer finished, with the pin checked if there is one.
pub establish-IsEstablished :
    (env : Env) (keygen : Result (Bytes × Bytes) Text) (expected : Option Bytes) (t : Transport)
    (c : NodeConnection)
    → (establish env keygen expected t).0 ≡ ok c
    → IsEstablished env keygen expected (session_of c)
unfolding establish
establish-IsEstablished env keygen expected t c h =
    let ((handshake, hello), started, h₁) = bind-eq_ok _ _ t h in
    let (_, _, h₂) = bind-eq_ok _ _ _ h₁ in
    let (accept, _, h₃) = bind-eq_ok _ _ _ h₂ in
    let (established, finished, h₄) = bind-eq_ok _ _ _ h₃ in
    let (transport, _, h₅) = bind-eq_ok _ _ _ h₄ in
    let same : established ≡ session_of c = ap session_of (ok-injective _ c h₅) in
    record {
      handshake = handshake;
      hello = hello;
      started = started;
      accept = accept;
      authenticated =
          subst (Authenticates env.hashes env.dsa env.kem handshake accept expected) same (
            finish-Authenticates env.hashes env.dsa env.kem handshake accept expected established
              finished);
    }
