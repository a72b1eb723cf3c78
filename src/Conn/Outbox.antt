-- ===== src/Conn/Outbox.antt =====
-- src/conn.rs: what an exchange sends.
use ant_wasm_client.Base.{
  ℕ, ◌≡◌, refl, ap, ◌∙◌, List, ◌∷◌, Bytes, Text, Option, none, some, ◌++◌, ensure, ◌==◌,
}
use ant_wasm_client.Errors.{response_seq_mismatch, encryption_failed}
use ant_wasm_client.Env.{Env}
use ant_wasm_client.Tunnel.{
  SessionCipher, build_nonce, client_to_server, seal_request, open_response,
}
use ant_wasm_client.Tunnel.Cipher.{envelope}
use ant_wasm_client.Action.{Action, lift, ◌>>=◌, ◌>>◌, bind-of_ok, bind-of_err}
use ant_wasm_client.Action.Keeps.{Keeps, Keeps-bind, Keeps-lift}
use mathlib.Core.Path.{ap₂}
use ant_wasm_client.Framing.{encode_frame, split_messages}
use ant_wasm_client.Transport.{recv_frame}
use ant_wasm_client.Transport.Sending.{NoFaults, after, after-sent, after-faults, send_frame-after}
use ant_wasm_client.Conn.{NodeConnection, exchange, on_transport, strip_tag}

-- What a connection has sent, and its faults.
abbrev pub outbox : NodeConnection → List Bytes × (ℕ → Option Text)
outbox c = (c.transport.sent, c.transport.faults)

-- What an exchange does once its request was sent.
abbrev await_answer : Env → ℕ → SessionCipher → ℕ → Action NodeConnection Bytes
await_answer env tag cipher seq = do
  frame ← on_transport recv_frame
  (resp_seq, plaintext) ← lift (open_response env.aead cipher frame)
  lift (ensure (resp_seq == seq) (response_seq_mismatch resp_seq seq))
  lift (strip_tag tag plaintext)

recv_frame-Keeps : Keeps outbox (on_transport recv_frame)
unfolding recv_frame
recv_frame-Keeps = record { at = λ c. refl }

await_answer-Keeps :
    (env : Env) (tag : ℕ) (cipher : SessionCipher) (seq : ℕ)
    → Keeps outbox (await_answer env tag cipher seq)
await_answer-Keeps env tag cipher seq = Keeps-bind outbox _ _ recv_frame-Keeps λ frame.
    Keeps-bind outbox _ _ (Keeps-lift outbox _)
      λ opened. Keeps-bind outbox _ _ (Keeps-lift outbox _) λ _. Keeps-lift outbox _

-- An exchange that seals nothing sends nothing.
pub exchange-unsealed :
    (env : Env) (tag : ℕ) (payload : Bytes) (seq : ℕ) (c : NodeConnection)
    → env.aead.encrypt c.cipher.key (build_nonce seq client_to_server) (tag ∷ payload) ≡ none
    → (exchange env tag payload seq c).1 ≡ c
unfolding exchange seal_request
exchange-unsealed env tag payload seq c h =
    ap (λ r. r.1)
      (bind-of_ok _ _ c c c.cipher refl
        ∙ bind-of_err _ _ c c encryption_failed (ap (λ r. (r, c)) (rw h refl)))

-- An exchange that seals its request sends the envelope, and nothing else.
pub exchange-sealed :
    (env : Env) (tag : ℕ) (payload : Bytes) (seq : ℕ) (c : NodeConnection) (ciphertext : Bytes)
    → NoFaults c.transport.faults
    → env.aead.encrypt c.cipher.key (build_nonce seq client_to_server) (tag ∷ payload)
      ≡ some ciphertext
    → outbox (exchange env tag payload seq c).1 ≡ (
      c.transport.sent ++ split_messages (encode_frame (envelope seq ciphertext)),
      c.transport.faults,
    )
unfolding exchange seal_request
exchange-sealed env tag payload seq c ciphertext quiet h =
    let e = envelope seq ciphertext in
    let msgs = split_messages (encode_frame e) in
    let c₁ = record c { transport = after msgs c.transport } in
    let run : exchange env tag payload seq c ≡ await_answer env tag c.cipher seq c₁ =
      bind-of_ok _ _ c c c.cipher refl
      ∙ bind-of_ok _ _ c c e (ap (λ r. (r, c)) (rw h refl))
      ∙ bind-of_ok _ _ c c₁ tt
          (ap (λ r. (r.0, record c { transport = r.1 })) (send_frame-after e c.transport quiet)) in
    ap (λ r. outbox r.1) run
    ∙ (await_answer-Keeps env tag c.cipher seq).at c₁
    ∙ ap₂ (λ l f. (l, f)) (after-sent msgs c.transport) (after-faults msgs c.transport)
