-- ===== src/Conn/Answered.antt =====
-- src/conn.rs: requests to a node that answers them.
use ant_wasm_client.Base.{
  ℕ, suc, ◌+◌, ◌≤◌, ◌<◌, ◌≡◌, refl, ap, sym, ◌∙◌, append_assoc, append-nil, some, List, [], ◌∷◌,
  ◌++◌, All, length, map, Bytes, ok, arith,
}
use mathlib.Core.Path.{ap₂}
use ant_wasm_client.External.{Aead, Opens}
use ant_wasm_client.Errors.{Fallible}
use ant_wasm_client.Env.{Env}
use ant_wasm_client.Framing.{encode_frame, split_messages, max_frame_size}
use ant_wasm_client.Framing.Reassembly.{IsSendable}
use ant_wasm_client.Protocol.{max_wire_message_size}
use ant_wasm_client.Transport.{Transport}
use ant_wasm_client.Transport.Exchange.{Delivers, send_frame-Delivers, recv_frame-Delivers}
use ant_wasm_client.Tunnel.{
  SessionCipher, max_seq, build_nonce, client_to_server, server_to_client, seal_request,
  open_response,
}
use ant_wasm_client.Tunnel.Cipher.{envelope, length-envelope, open_response-sealed}
use ant_wasm_client.Action.{bind-of_ok}
use ant_wasm_client.Conn.{NodeConnection, exchange, round_trip, strip_tag}
use ant_wasm_client.Conn.Identity.{next_seq-open}
use ant_wasm_client.Conn.Sequence.{after_trips}

-- A cipher that seals every text which fits a frame, and adds at most sixteen bytes.
pub record Seals (aead : Aead) : Type 0 where
  pub seal : Bytes → Bytes → Bytes → Bytes
  pub encrypts :
      (key nonce text : Bytes)
      → length text ≤ max_frame_size
      → aead.encrypt key nonce text ≡ some (seal key nonce text)
  pub tagged : (key nonce text : Bytes) → length (seal key nonce text) ≤ length text + 16

module _ (env : Env) (seals : Seals env.aead) (opens : Opens env.aead) where
  -- What a node sends for its answer to request number `seq` under a session key.
  abbrev pub reply : Bytes → ℕ → ℕ → Bytes → Bytes
  reply key seq tag answer =
      envelope seq (seals.seal key (build_nonce seq server_to_client) (tag ∷ answer))

  reply-IsSendable :
      (key : Bytes) (seq tag : ℕ) (answer : Bytes)
      → length answer ≤ max_wire_message_size
      → IsSendable (reply key seq tag answer)
  reply-IsSendable key seq tag answer h =
      let sealed = seals.seal key (build_nonce seq server_to_client) (tag ∷ answer) in
      let size = length-envelope seq sealed in
      let grown = seals.tagged key (build_nonce seq server_to_client) (tag ∷ answer) in
      record { some_bytes = omega arith; within = omega (arith, size, grown, h) }

  reply-opens :
      (cipher : SessionCipher) (seq tag : ℕ) (answer : Bytes)
      → seq < max_seq
      → length answer ≤ max_wire_message_size
      → open_response env.aead cipher (reply cipher.key seq tag answer) ≡ ok (seq, tag ∷ answer)
  reply-opens cipher seq tag answer h k =
      open_response-sealed env.aead cipher seq (tag ∷ answer) _ opens (omega arith)
        (seals.encrypts cipher.key (build_nonce seq server_to_client) (tag ∷ answer) (omega arith))

  -- Request number `seq` as it stands on the wire: its text sealed under the session key and the
  -- nonce of the number.
  abbrev pub sealed_request : Bytes → ℕ → ℕ → Bytes → Bytes
  sealed_request key seq tag payload =
      envelope seq (seals.seal key (build_nonce seq client_to_server) (tag ∷ payload))

  seal_request-Seals :
      (cipher : SessionCipher) (seq tag : ℕ) (payload : Bytes)
      → length payload < max_frame_size
      → seal_request env.aead cipher seq (tag ∷ payload)
        ≡ ok (sealed_request cipher.key seq tag payload)
  unfolding seal_request
  seal_request-Seals cipher seq tag payload h =
      rw
        (seals.encrypts cipher.key (build_nonce seq client_to_server) (tag ∷ payload) (omega arith))
        refl

  -- The messages that carry one request.
  abbrev pub request_messages : Bytes → ℕ → ℕ → Bytes → List Bytes
  request_messages key seq tag payload =
      split_messages (encode_frame (sealed_request key seq tag payload))

  strip_tag-tagged : (tag : ℕ) (answer : Bytes) → strip_tag tag (tag ∷ answer) ≡ ok answer
  unfolding strip_tag
  strip_tag-tagged tag answer = ground arith

  exchange-answered :
      (tag : ℕ) (payload : Bytes) (seq : ℕ) (answer stream : Bytes) (c : NodeConnection)
      → seq < max_seq
      → length payload < max_frame_size
      → length answer ≤ max_wire_message_size
      → Delivers (encode_frame (reply c.cipher.key seq tag answer) ++ stream) c.transport
      → (t : Transport) × (exchange env tag payload seq c ≡ (ok answer, record c { transport = t }))
        × Delivers stream t
        × (t.sent ≡ c.transport.sent ++ request_messages c.cipher.key seq tag payload)
  unfolding exchange
  exchange-answered tag payload seq answer stream c h hp ha d =
      let e = sealed_request c.cipher.key seq tag payload in
      let sealed = seal_request-Seals c.cipher seq tag payload hp in
      let (t₁, sent, d₁, wrote) = send_frame-Delivers e _ c.transport d in
      let (t₂, received, d₂, kept) =
        recv_frame-Delivers (reply c.cipher.key seq tag answer) stream t₁
          (reply-IsSendable c.cipher.key seq tag answer ha) d₁ in
      (
        t₂,
        bind-of_ok _ _ c c c.cipher refl
            ∙ bind-of_ok _ _ c c e (ap (λ r. (r, c)) sealed)
            ∙ bind-of_ok _ _ c (record c { transport = t₁ }) tt
                (ap (λ r. (r.0, record c { transport = r.1 })) sent)
            ∙ bind-of_ok _ _ (record c { transport = t₁ }) (record c { transport = t₂ })
                (reply c.cipher.key seq tag answer)
                (ap (λ r. (r.0, record c { transport = r.1 })) received)
            ∙ bind-of_ok _ _ (record c { transport = t₂ }) (record c { transport = t₂ })
                (seq, tag ∷ answer)
                (ap (λ r. (r, record c { transport = t₂ }))
                  (reply-opens c.cipher seq tag answer h ha))
            ∙ bind-of_ok _ _ (record c { transport = t₂ }) (record c { transport = t₂ }) tt
                (ground arith)
            ∙ ap (λ r. (r, record c { transport = t₂ })) (strip_tag-tagged tag answer),
        d₂,
        kept ∙ wrote,
      )

  pub round_trip-answered :
      (tag : ℕ) (payload answer stream : Bytes) (c : NodeConnection)
      → c.next_seq < max_seq
      → length payload < max_frame_size
      → length answer ≤ max_wire_message_size
      → Delivers (encode_frame (reply c.cipher.key c.next_seq tag answer) ++ stream) c.transport
      → (t : Transport) × (round_trip env tag payload c
          ≡ (ok answer, record c { next_seq = suc c.next_seq; transport = t }))
        × Delivers stream t
        × (t.sent ≡ c.transport.sent ++ request_messages c.cipher.key c.next_seq tag payload)
  unfolding round_trip
  round_trip-answered tag payload answer stream c h hp ha d =
      let c' = record c { next_seq = suc c.next_seq } in
      let (t, run, d', wrote) =
        exchange-answered tag payload c.next_seq answer stream c' h hp ha d in
      (t, bind-of_ok _ _ c c' c.next_seq (next_seq-open c h) ∙ run, d', wrote)

  -- What a node that answers each request by `node` sends, from some sequence number on.
  abbrev pub replies : (ℕ → Bytes → Bytes) → Bytes → ℕ → List (ℕ × Bytes) → Bytes
  replies node key seq [] = []
  replies node key seq ((tag, payload) ∷ requests) =
      encode_frame (reply key seq tag (node tag payload)) ++ replies node key (suc seq) requests

  -- The messages of a list of requests, from some sequence number on.
  abbrev pub all_messages : Bytes → ℕ → List (ℕ × Bytes) → List Bytes
  all_messages key seq [] = []
  all_messages key seq ((tag, payload) ∷ requests) =
      request_messages key seq tag payload ++ all_messages key (suc seq) requests

  -- What the round trips of a list of requests return.
  abbrev pub round_trips : List (ℕ × Bytes) → NodeConnection → List (Fallible Bytes)
  round_trips [] c = []
  round_trips ((tag, payload) ∷ requests) c =
      let r = round_trip env tag payload c in r.0 ∷ round_trips requests r.1

  -- A request that fits a frame, and whose answer is within the wire limit.
  abbrev pub Fits : (ℕ → Bytes → Bytes) → ℕ × Bytes → Type 0
  Fits node request =
      (length request.1 < max_frame_size)
      × (length (node request.0 request.1) ≤ max_wire_message_size)

  -- Over a connection whose node answers each request by a function, round trips are that function:
  -- if the cipher opens what it seals, no send fails, the requests fit a frame, the answers are within
  -- the wire limit and the sequence numbers suffice, then over any list of requests what the client
  -- sends is exactly these requests in their order, each sealed under the session key and the request
  -- nonce of its own number and cut into messages, and every round trip returns the node's answer to
  -- its own request, however the channel cuts the node's frames into messages.
  pub round_trips-node :
      (node : ℕ → Bytes → Bytes) (requests : List (ℕ × Bytes)) (c : NodeConnection)
      → c.next_seq + length requests ≤ max_seq
      → All (Fits node) requests
      → Delivers (replies node c.cipher.key c.next_seq requests) c.transport
      → (round_trips requests c ≡ map (λ r. ok (node r.0 r.1)) requests)
        × ((after_trips env requests c).transport.sent
            ≡ c.transport.sent ++ all_messages c.cipher.key c.next_seq requests)
  round_trips-node node [] c h fits d = (refl, sym (append-nil c.transport.sent))
  round_trips-node node ((tag, payload) ∷ requests) c h ((hp, ha), fits) d =
      let (t, run, d', wrote) =
        round_trip-answered tag payload (node tag payload)
          (replies node c.cipher.key (suc c.next_seq) requests) c (omega arith) hp ha d in
      let c' = record c { next_seq = suc c.next_seq; transport = t } in
      let (returned, sent) = round_trips-node node requests c' (omega arith) fits d' in
      (
        ap₂ ◌∷◌ (ap (λ r. r.0) run) (ap (λ r. round_trips requests r.1) run ∙ returned),
        ap (λ r. (after_trips env requests r.1).transport.sent) run
            ∙ sent
            ∙ ap (λ l. l ++ all_messages c.cipher.key (suc c.next_seq) requests) wrote
            ∙ append_assoc c.transport.sent (request_messages c.cipher.key c.next_seq tag payload)
                (all_messages c.cipher.key (suc c.next_seq) requests),
      )
