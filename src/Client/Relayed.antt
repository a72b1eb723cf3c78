-- ===== src/Client/Relayed.antt =====
-- src/lib.rs, src/conn.rs, src/webrtc.rs: `relayed_fetch`, through the bootstrap node to a target.
use ant_wasm_client.Base.{
  ℕ, ◌≡◌, refl, sym, subst, Option, some, length, Bytes, Text, ok, err, ok-injective,
}
use ant_wasm_client.Errors.{Fallible}
use ant_wasm_client.Env.{Env}
use ant_wasm_client.Action.{bind-eq_ok}
use ant_wasm_client.Transport.Connect
use ant_wasm_client.Transport.Connect.{Opened, relay_offer, accept_relayed}
use ant_wasm_client.Conn.{NodeConnection, get_verified, signal_relay}
use ant_wasm_client.Conn.Identity.{session_of}
use ant_wasm_client.Conn.Verified.{get_verified-hash}
use ant_wasm_client.Client.{World, Client, on_connection, establish_on}
use ant_wasm_client.Client.Parse.{parse_address}
use ant_wasm_client.Client.Calls.{connect_via_relay, relayed_fetch}
use ant_wasm_client.Client.Authentic.{IsSessionWith}
use ant_wasm_client.Client.Authentic.Dials.{establish_on-IsEstablished}

module _ (env : Env) (world : World) where
  -- A connection to a target that a relay helped to open: the relay passed on the offer and the
  -- answer, and the handshake behind them authenticated the target.
  pub record Dialed (relay : ℕ) (stun : Text) (target : Bytes) (s : Client) (conn : NodeConnection)
      : Type 0 where
    pub offer : Text
    pub answer : Text
    pub opened : Opened
    pub offered : relay_offer (world.browser s.dialed) stun ≡ ok offer
    pub relayed : (on_connection relay (signal_relay env target offer) s).0 ≡ ok answer
    pub accepted : accept_relayed (world.browser s.dialed) offer answer ≡ ok opened
    pub with_target : IsSessionWith env world target (session_of conn)

  establish_on-opened :
      (i : ℕ) (expected : Option Bytes) (r : Fallible Opened) (c : NodeConnection)
      → establish_on env world i expected r ≡ ok c
      → (opened : Opened) × (r ≡ ok opened)
  unfolding establish_on
  establish_on-opened i expected (ok opened) c h = (opened, refl)
  establish_on-opened i expected (err e) c h = cc

  connect_via_relay-Dialed :
      (relay : ℕ) (stun : Text) (target : Bytes) (s : Client) (conn : NodeConnection)
      → (connect_via_relay env world relay stun target s).0 ≡ ok conn
      → Dialed relay stun target s conn
  unfolding connect_via_relay Connect.connect_via_relay
  connect_via_relay-Dialed relay stun target s conn h =
      let (opened, ran) = establish_on-opened s.dialed (some target) _ conn h in
      let (offer, offered, h₁) = bind-eq_ok _ _ s ran in
      let (answer, relayed, accepted) = bind-eq_ok _ _ s h₁ in
      let established = establish_on-IsEstablished env world s.dialed (some target) _ conn h in
      record {
        offer = offer;
        answer = answer;
        opened = opened;
        offered = offered;
        relayed = relayed;
        accepted = accepted;
        with_target = record {
          identity = established.authenticated.pinned;
          dial = s.dialed;
          expected = some target;
          established = established;
        };
      }

  pub record RelayedFetch (target_hex stun address_hex : Text) (s : Client) (n : ℕ) : Type 0 where
    pub target : Bytes
    pub address : Bytes
    pub target_parsed : parse_address world.hex_decode target_hex ≡ ok target
    pub address_parsed : parse_address world.hex_decode address_hex ≡ ok address
    pub conn : NodeConnection
    pub dialed : Dialed s.bootstrap stun target s conn
    pub content : Bytes
    pub served : (get_verified env address conn).0 ≡ ok content
    pub hashed : env.hashes.blake3 content ≡ address
    pub counted : n ≡ length content

  -- A relay is not trusted: whatever the bootstrap node passes on, the length that `relayed_fetch`
  -- returns is that of bytes with the hash asked for, which came over a connection whose handshake
  -- authenticated the target, after the bootstrap node relayed the browser's own offer to it and
  -- gave the answer that the browser accepted.
  pub relayed_fetch-RelayedFetch :
      (target_hex stun address_hex : Text) (s : Client) (n : ℕ)
      → (relayed_fetch env world target_hex stun address_hex s).0 ≡ ok n
      → RelayedFetch target_hex stun address_hex s n
  unfolding relayed_fetch
  relayed_fetch-RelayedFetch target_hex stun address_hex s n h =
      let (target, target_parsed, h₁) = bind-eq_ok _ _ s h in
      let (address, address_parsed, h₂) = bind-eq_ok _ _ s h₁ in
      let (bootstrap, is_bootstrap, h₃) = bind-eq_ok _ _ s h₂ in
      let (conn, dialed, h₄) = bind-eq_ok _ _ s h₃ in
      let (content, served, h₅) = bind-eq_ok _ _ _ h₄ in
      record {
        target = target;
        address = address;
        target_parsed = target_parsed;
        address_parsed = address_parsed;
        conn = conn;
        dialed =
            subst (λ b. Dialed b stun target s conn)
              (sym (ok-injective s.bootstrap bootstrap is_bootstrap))
              (connect_via_relay-Dialed bootstrap stun target s conn dialed);
        content = content;
        served = served;
        hashed = get_verified-hash env address conn content served;
        counted = sym (ok-injective (length content) n h₅);
      }
