-- ===== src/Conn/Identity.antt =====
-- src/conn.rs: what the methods of a connection leave as it is.
use ant_wasm_client.Base.{
  ℕ, suc, ◌≤◌, ◌<◌, ◌≡◌, ◌⊎◌, inl, inr, refl, sym, ◌∙◌, subst, Bytes, Text, ok, err, arith,
}
use native.Mathlib.Decide.{dec_lt}
use ant_wasm_client.Errors.{Fallible, sequence_exhausted}
use ant_wasm_client.Env.{Env}
use ant_wasm_client.Protocol.{ChunkMessage}
use ant_wasm_client.Transport.{Transport}
use ant_wasm_client.Tunnel.{Established, max_seq}
use ant_wasm_client.Action.{Action, lift, gets, ◌>>=◌, bind-of_ok, bind-of_err}
use ant_wasm_client.Action.Keeps.{Keeps, Keeps-bind, Keeps-lift, Keeps-gets}
use ant_wasm_client.Action.Moves.{Moves, IsPreorder, Moves-bind, Moves-lift, Moves-gets}
use ant_wasm_client.Conn.{
  NodeConnection, next_seq, exchange, round_trip, on_transport, get_verified, closest_peers,
  signal_relay, chunk_round_trip,
}

-- A part of a connection that its transport has no share in.
module _ {X : Type 0} (part : NodeConnection → X)
    (apart : (c : NodeConnection) (t : Transport)
      → part (record c { transport = t }) ≡ part c) where
  on_transport-Keeps : {A : Type 0} (m : Action Transport A) → Keeps part (on_transport m)
  on_transport-Keeps m = record { at = λ c. apart c (m c.transport).1 }

  pub exchange-Keeps :
      (env : Env) (tag : ℕ) (payload : Bytes) (seq : ℕ) → Keeps part (exchange env tag payload seq)
  unfolding exchange
  exchange-Keeps env tag payload seq = Keeps-bind part _ _ (Keeps-gets part _) λ cipher.
      Keeps-bind part _ _ (Keeps-lift part _) λ envelope.
        Keeps-bind part _ _ (on_transport-Keeps _) λ _.
          Keeps-bind part _ _ (on_transport-Keeps _) λ frame.
            Keeps-bind part _ _ (Keeps-lift part _)
              λ opened. Keeps-bind part _ _ (Keeps-lift part _) λ _. Keeps-lift part _

-- What the handshake gave.
abbrev pub session_of : NodeConnection → Established
session_of c = record { cipher = c.cipher; peer_id = c.peer_id }

-- `next_seq` hands out the counter and moves it on, until it reaches the limit.
pub next_seq-open :
    (c : NodeConnection)
    → c.next_seq < max_seq
    → next_seq c ≡ (ok c.next_seq, record c { next_seq = suc c.next_seq })
unfolding next_seq
next_seq-open c h = ground arith

pub next_seq-exhausted :
    (c : NodeConnection) → max_seq ≤ c.next_seq → next_seq c ≡ (err sequence_exhausted, c)
unfolding next_seq
next_seq-exhausted c h = ground arith

-- With the sequence space used up, a round trip fails before it sends anything.
pub round_trip-exhausted :
    (env : Env) (tag : ℕ) (payload : Bytes) (c : NodeConnection)
    → max_seq ≤ c.next_seq
    → round_trip env tag payload c ≡ (err sequence_exhausted, c)
unfolding round_trip
round_trip-exhausted env tag payload c h =
    bind-of_err next_seq _ c c sequence_exhausted (next_seq-exhausted c h)

-- Below the limit a round trip is an exchange under the next number.
pub round_trip-open :
    (env : Env) (tag : ℕ) (payload : Bytes) (c : NodeConnection)
    → c.next_seq < max_seq
    → round_trip env tag payload c
      ≡ exchange env tag payload c.next_seq (record c { next_seq = suc c.next_seq })
unfolding round_trip
round_trip-open env tag payload c h =
    bind-of_ok next_seq (exchange env tag payload) c (record c { next_seq = suc c.next_seq })
      c.next_seq (next_seq-open c h)

-- How a method moves a connection: it stays the same session, its counter is never set back, not past
-- the last sequence number, and moves on whenever anything was sent.
pub record Advances (c c' : NodeConnection) : Type 0 where
  pub session : session_of c' ≡ session_of c
  pub later : c.next_seq ≤ c'.next_seq
  pub within : c.next_seq ≤ max_seq → c'.next_seq ≤ max_seq
  pub used : (c'.transport.sent ≡ c.transport.sent) ⊎ (c.next_seq < c'.next_seq)

Advances-used :
    (c c' c'' : NodeConnection)
    → Advances c c'
    → Advances c' c''
    → (c''.transport.sent ≡ c.transport.sent) ⊎ (c.next_seq < c''.next_seq)
Advances-used c c' c'' a a' = elim a.used [
  | inl same ↦ elim a'.used [
    | inl same' ↦ inl (same' ∙ same)
    | inr moved ↦ inr (omega (arith, a.later, moved))
  ]
  | inr moved ↦ inr (omega (arith, a'.later, moved))
]

pub Advances-IsPreorder : IsPreorder Advances
Advances-IsPreorder = record {
  stay = λ c. record { session = refl; later = omega arith; within = λ h. h; used = inl refl };
  next = λ c c' c'' a a'. record {
    session = a'.session ∙ a.session;
    later = omega (arith, a.later, a'.later);
    within = λ h. a'.within (a.within h);
    used = Advances-used c c' c'' a a';
  };
}

-- The part of a connection that only `next_seq` moves.
abbrev pub seq_of : NodeConnection → ℕ
seq_of c = c.next_seq

module _ (env : Env) where
  exchange-Advances :
      (tag : ℕ) (payload : Bytes) (c : NodeConnection)
      → c.next_seq < max_seq
      → Advances c (exchange env tag payload c.next_seq (record c { next_seq = suc c.next_seq })).1
  exchange-Advances tag payload c h =
      let c₁ = record c { next_seq = suc c.next_seq } in
      let same = (exchange-Keeps seq_of (λ c t. refl) env tag payload c.next_seq).at c₁ in
      record {
        session = (exchange-Keeps session_of (λ c t. refl) env tag payload c.next_seq).at c₁;
        later = omega (arith, same);
        within = λ k. omega (arith, same);
        used = inr (omega (arith, same));
      }

  -- A round trip sends nothing, or uses up a sequence number.
  round_trip-Advances : (tag : ℕ) (payload : Bytes) → Moves Advances (round_trip env tag payload)
  round_trip-Advances tag payload = record {
    at = λ c. elim (dec_lt c.next_seq max_seq) [
      | yes h ↦
          subst (λ r. Advances c r.1) (sym (round_trip-open env tag payload c h))
            (exchange-Advances tag payload c h)
      | no h ↦
          subst (λ r. Advances c r.1) (sym (round_trip-exhausted env tag payload c (omega arith)))
            (Advances-IsPreorder.stay c)
    ];
  }

  -- The shape of the three requests that decode their own answer.
  query-Advances :
      {A B : Type 0} (request : ℕ → Fallible Bytes) (tag : ℕ) (decode : Bytes → Fallible A)
      (accept : A → Fallible B)
      → Moves Advances (
          gets (λ c. c.next_seq) >>= (λ request_id. lift (request request_id) >>= (λ bytes.
            round_trip env tag bytes
            >>= (λ plaintext. lift (decode plaintext) >>= (λ answer. lift (accept answer))))))
  query-Advances request tag decode accept =
      let order = Advances-IsPreorder in
      Moves-bind Advances order _ _ (Moves-gets Advances order _) λ request_id.
        Moves-bind Advances order _ _ (Moves-lift Advances order _) λ bytes.
          Moves-bind Advances order _ _ (round_trip-Advances _ _) λ plaintext.
            Moves-bind Advances order _ _ (Moves-lift Advances order _)
              λ answer. Moves-lift Advances order _

  pub get_verified-Advances : (address : Bytes) → Moves Advances (get_verified env address)
  unfolding get_verified
  get_verified-Advances address = query-Advances _ _ _ _

  pub closest_peers-Advances : (address : Bytes) → Moves Advances (closest_peers env address)
  unfolding closest_peers
  closest_peers-Advances address = query-Advances _ _ _ _

  pub signal_relay-Advances :
      (target : Bytes) (sdp_offer : Text) → Moves Advances (signal_relay env target sdp_offer)
  unfolding signal_relay
  signal_relay-Advances target sdp_offer = query-Advances _ _ _ _

  pub chunk_round_trip-Advances :
      (message : ChunkMessage) → Moves Advances (chunk_round_trip env message)
  unfolding chunk_round_trip
  chunk_round_trip-Advances message =
      let order = Advances-IsPreorder in
      Moves-bind Advances order _ _ (Moves-lift Advances order _) λ bytes.
        Moves-bind Advances order _ _ (round_trip-Advances _ _)
          λ plaintext. Moves-lift Advances order _
