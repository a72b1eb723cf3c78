-- ===== src/Conn/Sequence.antt =====
-- src/conn.rs: sequence numbers, and the nonces that they give.
use ant_wasm_client.Base.{
  sym, ℕ, suc, ◌≤◌, ◌<◌, ◌≡◌, ◌≢◌, refl, ap, ◌∙◌, subst, List, [], ◌∷◌, All, Bytes, some,
  Option-cases, inl, inr, map, append_assoc, append-nil, ◌++◌, arith,
}
use native.Mathlib.Decide.{dec_lt}
use ant_wasm_client.Env.{Env}
use ant_wasm_client.Tunnel.{max_seq, build_nonce, client_to_server}
use ant_wasm_client.Tunnel.Cipher.{build_nonce-injective, envelope}
use mathlib.Core.List.{Sublist, nil-sublist}
use mathlib.Core.List.Sublist
use ant_wasm_client.Framing.{encode_frame, split_messages}
use ant_wasm_client.Transport.Sending.{NoFaults}
use ant_wasm_client.Conn.Identity.{
  seq_of, exchange-Keeps, session_of, round_trip-exhausted, round_trip-open,
}
use ant_wasm_client.Conn.Outbox.{exchange-unsealed, exchange-sealed}
use ant_wasm_client.Conn.{NodeConnection, exchange, round_trip}

abbrev pub Distinct : List Bytes → Type 0
Distinct [] = Unit {0}
Distinct (x ∷ xs) = All (λ y. x ≢ y) xs × Distinct xs

-- A nonce of a sequence number from `low` on.
abbrev pub From : ℕ → Bytes → Type 0
From low nonce = (s : ℕ) × (low ≤ s) × (s < max_seq) × (nonce ≡ build_nonce s client_to_server)

All-From : (low low' : ℕ) (ns : List Bytes) → low ≤ low' → All (From low') ns → All (From low) ns
All-From low low' [] h a = tt
All-From low low' (n ∷ ns) h ((s, lo, hi, e), rest) =
    ((s, omega arith, hi, e), All-From low low' ns h rest)

From-ne :
    (low : ℕ) (ns : List Bytes)
    → low < max_seq
    → All (From (suc low)) ns
    → All (λ n. build_nonce low client_to_server ≢ n) ns
From-ne low [] h a = tt
From-ne low (n ∷ ns) h ((s, lo, hi, e), rest) = (
  λ same.
      let (equal, _) =
        build_nonce-injective low s client_to_server client_to_server (omega arith) (omega arith)
          (same ∙ e) in
      absurd (omega (arith, equal)),
  From-ne low ns h rest,
)

-- A request as it was sealed: under which number, what text, and what came of it.
pub record Sealed (env : Env) (key : Bytes) : Type 0 where
  pub seq : ℕ
  pub text : Bytes
  pub ciphertext : Bytes
  pub encrypted : env.aead.encrypt key (build_nonce seq client_to_server) text ≡ some ciphertext

-- The nonce that a request was sealed under, and the messages that carry it.
abbrev pub nonce_of : {env : Env} → {key : Bytes} → Sealed env key → Bytes
nonce_of q = build_nonce q.seq client_to_server

abbrev pub messages_of : {env : Env} → {key : Bytes} → List (Sealed env key) → List Bytes
messages_of [] = []
messages_of (q ∷ qs) = split_messages (encode_frame (envelope q.seq q.ciphertext)) ++ messages_of qs

-- The connection behind the round trips of a list of requests.
abbrev pub after_trips : Env → List (ℕ × Bytes) → NodeConnection → NodeConnection
after_trips env [] c = c
after_trips env ((tag, payload) ∷ requests) c =
    after_trips env requests (round_trip env tag payload c).1

abbrev pub texts_of : {env : Env} → {key : Bytes} → List (Sealed env key) → List Bytes
texts_of qs = map (λ q. q.text) qs

abbrev pub nonces_of : {env : Env} → {key : Bytes} → List (Sealed env key) → List Bytes
nonces_of qs = map (λ q. nonce_of q) qs

-- What stands on the wire behind some requests: some of them, in their order, each sealed under a
-- nonce of its own.
pub record SentOnce (env : Env) (key : Bytes) (low : ℕ) (requests : List (ℕ × Bytes))
    (before sent : List Bytes) : Type 0 where
  pub sealed : List (Sealed env key)
  pub own : Sublist (texts_of sealed) (map (λ r. r.0 ∷ r.1) requests)
  pub numbered : All (From low) (nonces_of sealed)
  pub distinct : Distinct (nonces_of sealed)
  pub wrote : sent ≡ before ++ messages_of sealed

-- A request that was not sent.
SentOnce-skip :
    (env : Env) (key : Bytes) (low low' : ℕ) (r : ℕ × Bytes) (requests : List (ℕ × Bytes))
    (before sent : List Bytes)
    → low ≤ low'
    → SentOnce env key low' requests before sent
    → SentOnce env key low (r ∷ requests) before sent
SentOnce-skip env key low low' r requests before sent h o = record {
  sealed = o.sealed;
  own = Sublist.cons (r.0 ∷ r.1) o.own;
  numbered = All-From low low' (nonces_of o.sealed) h o.numbered;
  distinct = o.distinct;
  wrote = o.wrote;
}

-- A request that was sent under the lowest number.
SentOnce-send :
    (env : Env) (key : Bytes) (low : ℕ) (tag : ℕ) (payload ciphertext : Bytes)
    (requests : List (ℕ × Bytes)) (before sent : List Bytes)
    → low < max_seq
    → env.aead.encrypt key (build_nonce low client_to_server) (tag ∷ payload) ≡ some ciphertext
    → SentOnce env key
        (suc low)
        requests
        (before ++ split_messages (encode_frame (envelope low ciphertext)))
        sent
    → SentOnce env key low ((tag, payload) ∷ requests) before sent
SentOnce-send env key low tag payload ciphertext requests before sent h encrypted o = record {
  sealed =
      record { seq = low; text = tag ∷ payload; ciphertext = ciphertext; encrypted = encrypted }
      ∷ o.sealed;
  own = Sublist.cons-cons (tag ∷ payload) o.own;
  numbered = (
    (low, omega arith, h, refl),
    All-From low (suc low) (nonces_of o.sealed) (omega arith) o.numbered,
  );
  distinct = (From-ne low (nonces_of o.sealed) h o.numbered, o.distinct);
  wrote =
      o.wrote
      ∙ append_assoc before (split_messages (encode_frame (envelope low ciphertext)))
          (messages_of o.sealed);
}

after_trips-SentOnce :
    (env : Env) (requests : List (ℕ × Bytes)) (c : NodeConnection) (key : Bytes) (low : ℕ)
    → NoFaults c.transport.faults
    → c.cipher.key ≡ key
    → c.next_seq ≡ low
    → SentOnce env key low requests c.transport.sent (after_trips env requests c).transport.sent
after_trips-SentOnce env [] c key low quiet k n = record {
  sealed = [];
  own = nil-sublist [];
  numbered = tt;
  distinct = tt;
  wrote = sym (append-nil c.transport.sent);
}
after_trips-SentOnce env ((tag, payload) ∷ requests) c key low quiet k n =
    let trip = round_trip env tag payload c in
    let c₁ = record c { next_seq = suc c.next_seq } in
    let over : NodeConnection → Type 0 = λ d.
      SentOnce env key low ((tag, payload) ∷ requests) c.transport.sent
        (after_trips env requests d).transport.sent in
    elim (dec_lt c.next_seq max_seq) [
      | no h ↦
          subst over (sym (ap (λ r. r.1) (round_trip-exhausted env tag payload c (omega arith)))) (
            SentOnce-skip env key low low (tag, payload) requests _ _ (omega arith)
              (after_trips-SentOnce env requests c key low quiet k n))
      | yes h ↦
          let encrypt =
            env.aead.encrypt c.cipher.key (build_nonce c.next_seq client_to_server)
              (tag ∷ payload) in
          let next = (exchange env tag payload c.next_seq c₁).1 in
          subst over (sym (ap (λ r. r.1) (round_trip-open env tag payload c h)))
            (elim (Option-cases encrypt) [
              | inl e ↦ subst over (sym (exchange-unsealed env tag payload c.next_seq c₁ e)) (
                  SentOnce-skip env key low (suc low) (tag, payload) requests _ _ (omega arith)
                    (after_trips-SentOnce env requests c₁ key (suc low) quiet k (ap suc n)))
              | inr (ciphertext, e) ↦
                  let out = exchange-sealed env tag payload c.next_seq c₁ ciphertext quiet e in
                  let same_key =
                    ap (λ s. s.cipher.key)
                      ((exchange-Keeps session_of (λ c t. refl) env tag payload c.next_seq).at
                        c₁) in
                  let same_seq =
                    (exchange-Keeps seq_of (λ c t. refl) env tag payload c.next_seq).at c₁ in
                  let rest =
                    after_trips-SentOnce env requests next key (suc low)
                      (subst NoFaults (sym (ap (λ o. o.1) out)) quiet) (same_key ∙ k)
                      (same_seq ∙ ap suc n) in
                  SentOnce-send env key low tag payload ciphertext requests c.transport.sent _
                    (omega arith)
                    (subst
                      (λ m.
                        env.aead.encrypt key (build_nonce m client_to_server) (tag ∷ payload)
                        ≡ some ciphertext)
                      n
                      (subst
                        (λ k.
                          env.aead.encrypt k (build_nonce c.next_seq client_to_server)
                            (tag ∷ payload)
                          ≡ some ciphertext)
                        k e))
                    (subst
                      (λ b.
                        SentOnce env key (suc low) requests b
                          (after_trips env requests next).transport.sent)
                      (ap (λ o. o.0) out
                        ∙ ap
                            (λ m.
                              c.transport.sent
                              ++ split_messages (encode_frame (envelope m ciphertext)))
                            n)
                      rest)
            ])
    ]

-- Over any list of round trips on a connection on which no `send` fails, whatever the node answers,
-- all that is sent is some of the requests, in their order, each as one envelope around what the
-- cipher made of it under the session key and the request nonce of the number that the envelope
-- carries, and no two of them under one nonce: their numbers start at the connection's next one.
pub after_trips-Distinct :
    (env : Env) (requests : List (ℕ × Bytes)) (c : NodeConnection)
    → NoFaults c.transport.faults
    → SentOnce env c.cipher.key c.next_seq requests c.transport.sent
        (after_trips env requests c).transport.sent
after_trips-Distinct env requests c quiet =
    after_trips-SentOnce env requests c c.cipher.key c.next_seq quiet refl refl
