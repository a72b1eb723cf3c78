-- ===== src/Conn/Accepted.antt =====
-- src/conn.rs: `establish` against a node that accepts the handshake.
use ant_wasm_client.Base.{
  ◌≡◌, refl, ap, ◌∙◌, true, Option, some, [], ◌++◌, ◌∷◌, length, Bytes, ok, arith,
}
use ant_wasm_client.Base.Words.{to_be_bytes}
use ant_wasm_client.Env.{Env}
use ant_wasm_client.Framing.{encode_frame}
use ant_wasm_client.Transport.{Transport}
use ant_wasm_client.Transport.Exchange.{Delivers, send_frame-Delivers, recv_frame-Delivers}
use ant_wasm_client.Tunnel
use ant_wasm_client.Tunnel.{ClientHandshake, pqc_version, auth_sign_context, from_shared_secret}
use ant_wasm_client.Tunnel.Handshake.{
  IsPinned, server_accept, length-server_accept, finish-server_accept,
}
use ant_wasm_client.Action.{bind-of_ok}
use ant_wasm_client.Conn.{establish}

-- What the node's answer carries, and that this client's keys take it.
pub record IsAccept (env : Env) (ek dk : Bytes) (expected : Option Bytes)
    (ct pubkey signature secret : Bytes) : Type 0 where
  pub ct_size : length ct ≡ 1088
  pub pubkey_size : length pubkey ≡ 1952
  pub signature_size : length signature ≡ 3309
  pub valid_key : env.dsa.valid_key pubkey ≡ true
  pub signed : env.dsa.verify pubkey (auth_sign_context ++ (ek ++ ct)) signature [] ≡ true
  pub pinned : IsPinned expected (env.hashes.blake3 pubkey)
  pub valid_ct : env.kem.valid_ciphertext ct ≡ true
  pub decapsulated : env.kem.try_decaps dk ct ≡ some secret

abbrev hello_of : Bytes → Bytes
hello_of ek = 0x01 ∷ (to_be_bytes 2 pqc_version ++ ek)

start-hello :
    (ek dk : Bytes)
    → Tunnel.start (ok (ek, dk)) ≡ ok (record { dk = dk; ek_bytes = ek }, hello_of ek)
unfolding Tunnel.start
start-hello ek dk = refl

-- A node that answers the hello with a frame which carries a ciphertext that this client decapsulates,
-- a valid key of the pinned identity, and that key's signature over the transcript, all of their
-- sizes, is connected to: over a channel that delivers this frame, however it is cut into messages,
-- and on which no send fails, `establish` returns a connection with that identity, with the key
-- derived from the shared secret, and with everything behind the frame still to be received.
pub establish-server_accept :
    (env : Env) (ek dk : Bytes) (expected : Option Bytes)
    (ct pubkey signature secret stream : Bytes) (t : Transport)
    → IsAccept env ek dk expected ct pubkey signature secret
    → Delivers (encode_frame (server_accept ct pubkey signature) ++ stream) t
    → (t' : Transport) × ((establish env (ok (ek, dk)) expected t).0
        ≡ ok (record {
          transport = t';
          cipher = from_shared_secret env.hashes secret;
          peer_id = env.hashes.blake3 pubkey;
          next_seq = 1;
        }))
      × Delivers stream t'
unfolding establish
establish-server_accept env ek dk expected ct pubkey signature secret stream t a d =
    let frame = server_accept ct pubkey signature in
    let handshake : ClientHandshake = record { dk = dk; ek_bytes = ek } in
    let size = length-server_accept ct pubkey signature a.ct_size a.pubkey_size a.signature_size in
    let (t₁, sent, d₁, _) = send_frame-Delivers (hello_of ek) _ t d in
    let (t₂, received, d₂, _) =
      recv_frame-Delivers frame stream t₁
        (record { some_bytes = omega (arith, size); within = omega (arith, size) }) d₁ in
    let finished =
      finish-server_accept env.hashes env.dsa env.kem handshake expected ct pubkey signature secret
        a.ct_size a.pubkey_size a.signature_size a.valid_key a.signed a.pinned a.valid_ct
        a.decapsulated in
    (
      t₂,
      ap (λ r. r.0)
          (bind-of_ok _ _ t t (handshake, hello_of ek) (ap (λ r. (r, t)) (start-hello ek dk))
            ∙ bind-of_ok _ _ t t₁ tt sent
            ∙ bind-of_ok _ _ t₁ t₂ frame received
            ∙ bind-of_ok _ _ t₂ t₂ _ (ap (λ r. (r, t₂)) finished)
            ∙ bind-of_ok _ _ t₂ t₂ t₂ refl),
      d₂,
    )
