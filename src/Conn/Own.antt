-- ===== src/Conn/Own.antt =====
-- src/conn.rs: `round_trip` with a node that answers anything, in any order.
use ant_wasm_client.Base.{
  ℕ, suc, ◌≤◌, ◌<◌, ◌≡◌, sym, ap, ◌∙◌, subst, true, some, [], ◌∷◌, take, drop, length, ◌==◌, Bytes,
  ok, ok-injective, ensure-eq-ok, arith,
}
use native.Mathlib.Decide.{dec_lt}
use ant_wasm_client.Base.Words.{from_be_bytes}
use ant_wasm_client.Errors.{response_seq_mismatch}
use ant_wasm_client.Env.{Env}
use ant_wasm_client.Transport.{Transport, send_frame, recv_frame}
use ant_wasm_client.Tunnel.{
  SessionCipher, max_seq, byte_at, build_nonce, server_to_client, seal_request, open_response,
}
use ant_wasm_client.Tunnel.Cipher.{open_response-eq_ok}
use ant_wasm_client.Action.{bind-eq_ok, bind-of_ok}
use ant_wasm_client.Conn.{NodeConnection, strip_tag, exchange, round_trip}
use ant_wasm_client.Conn.Identity.{next_seq-open, round_trip-exhausted}

strip_tag-eq_ok :
    (tag : ℕ) (bytes rest : Bytes) → strip_tag tag bytes ≡ ok rest → bytes ≡ tag ∷ rest
unfolding strip_tag
strip_tag-eq_ok tag [] rest h = cc
strip_tag-eq_ok tag (b ∷ bytes) rest h = ground arith

-- A frame that answers the request of one number: an envelope that carries the number, and opens
-- under the session key and the response nonce of that number to the request's tag and some bytes.
pub record Answers (env : Env) (cipher : SessionCipher) (seq tag : ℕ) (bytes frame : Bytes)
    : Type 0 where
  pub long_enough : 5 ≤ length frame
  pub type_byte : byte_at frame 0 ≡ 0x03
  pub carried : from_be_bytes (take 4 (drop 1 frame)) ≡ seq
  pub opened :
      env.aead.decrypt cipher.key (build_nonce seq server_to_client) (drop 5 frame)
      ≡ some (tag ∷ bytes)

eq-of_test : (a b : ℕ) → (a == b) ≡ true → a ≡ b
eq-of_test a b h = ground arith

opened-Answers :
    (env : Env) (cipher : SessionCipher) (frame : Bytes) (resp_seq seq tag : ℕ)
    (plaintext bytes : Bytes)
    → open_response env.aead cipher frame ≡ ok (resp_seq, plaintext)
    → resp_seq ≡ seq
    → plaintext ≡ tag ∷ bytes
    → Answers env cipher seq tag bytes frame
opened-Answers env cipher frame resp_seq seq tag plaintext bytes opened in_order tagged =
    let (long_enough, type_byte, carried, decrypted) =
      open_response-eq_ok env.aead cipher frame resp_seq plaintext opened in
    record {
      long_enough = long_enough;
      type_byte = type_byte;
      carried = carried ∙ in_order;
      opened =
          ap (λ s. env.aead.decrypt cipher.key (build_nonce s server_to_client) (drop 5 frame))
            (sym in_order)
          ∙ decrypted
          ∙ ap some tagged;
    }

-- What an exchange under one number sent and received: the request sealed under that number, and
-- the frame that `recv_frame` took from the transport behind it, which answers it.
pub record Exchanged (env : Env) (cipher : SessionCipher) (seq tag : ℕ) (payload bytes : Bytes)
    (t : Transport) : Type 0 where
  pub request : Bytes
  pub sealed : seal_request env.aead cipher seq (tag ∷ payload) ≡ ok request
  pub sent : (send_frame request t).0 ≡ ok tt
  pub frame : Bytes
  pub received : (recv_frame (send_frame request t).1).0 ≡ ok frame
  pub answers : Answers env cipher seq tag bytes frame

exchange-Exchanged :
    (env : Env) (tag : ℕ) (payload : Bytes) (seq : ℕ) (c : NodeConnection) (bytes : Bytes)
    → (exchange env tag payload seq c).0 ≡ ok bytes
    → Exchanged env c.cipher seq tag payload bytes c.transport
unfolding exchange
exchange-Exchanged env tag payload seq c bytes h =
    let (cipher, is_cipher, h₁) = bind-eq_ok _ _ c h in
    let (request, sealed, h₂) = bind-eq_ok _ _ c h₁ in
    let (_, sent, h₃) = bind-eq_ok _ _ _ h₂ in
    let (frame, received, h₄) = bind-eq_ok _ _ _ h₃ in
    let ((resp_seq, plaintext), opened, h₅) = bind-eq_ok _ _ _ h₄ in
    let (_, in_order, stripped) = bind-eq_ok _ _ _ h₅ in
    let own : cipher ≡ c.cipher = sym (ok-injective c.cipher cipher is_cipher) in
    record {
      request = request;
      sealed = subst (λ k. seal_request env.aead k seq (tag ∷ payload) ≡ ok request) own sealed;
      sent = sent;
      frame = frame;
      received = received;
      answers =
          opened-Answers env c.cipher frame resp_seq seq tag plaintext bytes
            (subst (λ k. open_response env.aead k frame ≡ ok (resp_seq, plaintext)) own opened)
            (eq-of_test resp_seq seq (ensure-eq-ok _ (response_seq_mismatch resp_seq seq) in_order))
            (strip_tag-eq_ok tag plaintext bytes stripped);
    }

-- Whatever the node sends and however late, when `round_trip` returns, it sent the request sealed
-- under the next number, and the first frame that it received behind that answers this request: it is
-- an envelope that carries this number and opened under the session key and the response nonce of the
-- number to the tag of the request's protocol and the bytes that are returned. So it returns nothing
-- when that frame carries another number, does not open, or is of another protocol.
pub round_trip-Answers :
    (env : Env) (tag : ℕ) (payload : Bytes) (c : NodeConnection) (bytes : Bytes)
    → (round_trip env tag payload c).0 ≡ ok bytes
    → (c.next_seq < max_seq) × Exchanged env c.cipher c.next_seq tag payload bytes c.transport
unfolding round_trip
round_trip-Answers env tag payload c bytes h = elim (dec_lt c.next_seq max_seq) [
  | yes low ↦
      let c' = record c { next_seq = suc c.next_seq } in
      let run = bind-of_ok _ (exchange env tag payload) c c' c.next_seq (next_seq-open c low) in
      (low, exchange-Exchanged env tag payload c.next_seq c' bytes (sym (ap (λ r. r.0) run) ∙ h))
  | no high ↦ absurd (cc (ap (λ r. r.0) (round_trip-exhausted env tag payload c (omega arith)), h))
]
