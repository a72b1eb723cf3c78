-- ===== src/Client/Billing.antt =====
-- src/lib.rs: `store_one` and the calls of `pay` that it makes.
use ant_wasm_client.Base.{
  ok-injective, ◌≡◌, refl, ap, sym, ◌∙◌, subst, ◌⊎◌, inl, inr, List, [], ◌∷◌, ◌++◌, append_assoc,
  map, length-map, take, All, length, Bytes, Text, ok, arith,
}
use ant_wasm_client.External.{Hashes}
use ant_wasm_client.Errors.{no_error}
use ant_wasm_client.Payment.{Quote}
use ant_wasm_client.Protocol.{PeerConnectInfo}
use ant_wasm_client.Env.{Env}
use ant_wasm_client.Action.{Action, lift, gets, ◌>>=◌, bind-cases}
use ant_wasm_client.Action.Keeps.{Keeps, Keeps-lift, Keeps-gets, Keeps-bind}
use ant_wasm_client.Conn.{closest_peers}
use ant_wasm_client.Evm.Calldata.{
  DataPayment, total_amount, approve_calldata, pay_for_quotes_calldata,
}
use ant_wasm_client.Evm.Split.{payment_split, close_group_size}
use ant_wasm_client.Client.{World, Client, on_connection, call_pay, hex_0x}
use ant_wasm_client.Client.Store.{
  QuotedPeer, QuotePhase, already_stored, all_quoted, quote_group, pay_all, pay_and_put, store_one,
}
use ant_wasm_client.Client.Group.{IsQuotedFor, quote_group_lem}
use ant_wasm_client.Client.Paid.{paid_of, on_connection-Keeps, quote_group-Keeps, put_all-Keeps}

module _ (env : Env) (world : World) where
  -- The arguments of the first and of the second call of `pay`.
  abbrev pub approve_call : Bytes → Bytes → List DataPayment → Text × Text
  approve_call token vault payments =
      (hex_0x env world token, hex_0x env world (approve_calldata vault (total_amount payments)))

  abbrev pub pay_call : Bytes → List DataPayment → Text × Text
  pay_call vault payments =
      (hex_0x env world vault, hex_0x env world (pay_for_quotes_calldata env.hashes payments))

  -- The calls of `pay` before and after: the approval alone, or the approval and the payment.
  abbrev pub Calls :
      Bytes → Bytes → List DataPayment → List (Text × Text) → List (Text × Text) → Type 0
  Calls token vault payments before after =
      (after ≡ before ++ (approve_call token vault payments ∷ []))
      ⊎ (after ≡ before ++ (approve_call token vault payments ∷ pay_call vault payments ∷ []))

  -- A store that called `pay`: the peers that the bootstrap node named, a verified quote for the
  -- address from each of the first seven, the split of exactly these quotes, and the calls.
  pub record Billed (address token vault : Bytes) (s : Client) (after : List (Text × Text))
      : Type 0 where
    pub peers : List PeerConnectInfo
    pub quoted : List QuotedPeer
    pub payments : List DataPayment
    pub discovered : (on_connection s.bootstrap (closest_peers env address) s).0 ≡ ok peers
    pub verified : All (IsQuotedFor env address) quoted
    pub identities : map (λ q. q.peer_id) quoted ≡ map (λ p. p.peer_id) (take 7 peers)
    pub seven : length quoted ≡ 7
    pub split : payment_split env.hashes (map (λ q. q.quote) quoted) ≡ ok payments
    pub calls : Calls token vault payments s.paid after

payment_split-seven :
    (hashes : Hashes) (quotes : List Quote) (payments : List DataPayment)
    → payment_split hashes quotes ≡ ok payments
    → length quotes ≡ 7
unfolding payment_split
payment_split-seven hashes quotes payments h = ground arith

-- A block whose later actions do not pay leaves the calls as its first action left them.
pub bind-paid :
    {A B : Type 0} (m : Action Client A) (f : A → Action Client B) (s : Client)
    → ((a : A) → Keeps paid_of (f a))
    → ((m >>= f) s).1.paid ≡ (m s).1.paid
bind-paid m f s k = elim (bind-cases m f s) [
  | inl e ↦ ap paid_of e
  | inr (a, _, e) ↦ ap (λ r. r.1.paid) e ∙ (k a).at (m s).1
]

module _ (env : Env) (world : World) (address content token vault : Bytes) where
  pay_all-Calls :
      (payments : List DataPayment) (s : Client)
      → Calls env world token vault payments s.paid
          (pay_all env world address content token vault payments s).1.paid
  unfolding pay_all call_pay
  pay_all-Calls payments s = elim (bind-cases (call_pay env world _ _) _ s) [
    | inl e ↦ inl (ap paid_of e)
    | inr (_, _, e) ↦ elim (bind-cases (call_pay env world _ _) _ _) [
      | inl e' ↦ inr (ap (λ r. r.1.paid) e ∙ ap paid_of e' ∙ append_assoc s.paid _ _)
      | inr (_, _, e') ↦
          inr (ap (λ r. r.1.paid) e ∙ ap (λ r. r.1.paid) e' ∙ append_assoc s.paid _ _)
    ]
  ]

  pay_and_put-Calls :
      (quoted : List QuotedPeer) (s : Client)
      → ((pay_and_put env world address content token vault (all_quoted quoted) s).1.paid ≡ s.paid)
        ⊎ ((payments : List DataPayment) × (payment_split env.hashes (map (λ q. q.quote) quoted)
              ≡ ok payments)
            × Calls env world token vault payments s.paid
                (pay_and_put env world address content token vault (all_quoted quoted) s).1.paid)
  unfolding pay_and_put
  pay_and_put-Calls quoted s =
      elim (bind-cases (lift (payment_split env.hashes (map (λ q. q.quote) quoted))) _ s) [
        | inl e ↦ inl (ap paid_of e)
        | inr (payments, split, e) ↦
            let same =
              ap (λ r. r.1.paid) e
              ∙ bind-paid (pay_all env world address content token vault payments) _ s (λ tx_hash.
                Keeps-bind paid_of _ _ (Keeps-lift paid_of _) λ proof_bytes.
                  Keeps-bind paid_of _ _
                    (put_all-Keeps env world address content proof_bytes quoted 0 no_error)
                    λ r. Keeps-lift paid_of _) in
            inr (
              payments,
              split,
              subst (Calls env world token vault payments s.paid) (sym same)
                  (pay_all-Calls payments s),
            )
      ]

  -- What holds of the calls before a block that starts without paying, and of the calls after the
  -- rest of it, holds of the calls after the block.
  after-bind :
      {A B : Type 0} (m : Action Client A) (f : A → Action Client B) (s : Client)
      (Q : List (Text × Text) → Type 0) (before : List (Text × Text))
      → Keeps paid_of m
      → s.paid ≡ before
      → Q before
      → ((a : A) → (m s).0 ≡ ok a → (m s).1.paid ≡ before → Q (f a (m s).1).1.paid)
      → Q ((m >>= f) s).1.paid
  after-bind m f s Q before k same q rest = elim (bind-cases m f s) [
    | inl e ↦ subst Q (sym (ap paid_of e ∙ k.at s ∙ same)) q
    | inr (a, got, e) ↦ subst Q (sym (ap (λ r. r.1.paid) e)) (rest a got (k.at s ∙ same))
  ]

  -- What `store_one` may have made the page pay.
  abbrev Outcome : Client → List (Text × Text) → Type 0
  Outcome s after = (after ≡ s.paid) ⊎ Billed env world address token vault s after

  quoted-Outcome :
      (s s' : Client) (peers : List PeerConnectInfo) (phase : QuotePhase) (start : Client)
      → (on_connection s.bootstrap (closest_peers env address) s).0 ≡ ok peers
      → (quote_group env world address content (take close_group_size peers) 0 [] start).0
        ≡ ok phase
      → s'.paid ≡ s.paid
      → Outcome s (pay_and_put env world address content token vault phase s').1.paid
  quoted-Outcome s s' peers already_stored start found got same = unfold pay_and_put in inl same
  quoted-Outcome s s' peers (all_quoted quoted) start found got same =
      let (verified, identities) =
        quote_group_lem env world address content (take close_group_size peers) 0 [] quoted start tt
          got in
      elim (pay_and_put-Calls quoted s') [
        | inl e ↦ inl (e ∙ same)
        | inr (payments, split, calls) ↦ inr (record {
          peers = peers;
          quoted = quoted;
          payments = payments;
          discovered = found;
          verified = verified;
          identities = identities;
          seven =
              sym (length-map (λ q. q.quote) quoted)
              ∙ payment_split-seven env.hashes _ payments split;
          split = split;
          calls =
              subst
                (λ b.
                  Calls env world token vault payments b
                    (pay_and_put env world address content token vault (all_quoted quoted)
                      s').1.paid)
                same calls;
        })
      ]

  -- Whatever the nodes answer and whether it succeeds or fails, `store_one` either never calls `pay`
  -- or holds a verified quote for the address from each of the first seven peers that the bootstrap
  -- node named, and then makes at most two calls: the token is told to approve the total of the split
  -- of exactly these quotes, and the vault to pay them.
  pub store_one-Billed :
      (s : Client)
      → ((store_one env world address content token vault s).1.paid ≡ s.paid)
        ⊎ Billed env world address token vault s
            (store_one env world address content token vault s).1.paid
  unfolding store_one
  store_one-Billed s =
      after-bind (gets (λ s. s.bootstrap)) _ s (Outcome s) s.paid (Keeps-gets paid_of _) refl
        (inl refl)
        λ b is_b same.
          after-bind (on_connection b (closest_peers env address)) _ s (Outcome s) s.paid
            (on_connection-Keeps b _) same (inl refl)
            λ peers found same₁.
              after-bind (lift _) _ _ (Outcome s) s.paid (Keeps-lift paid_of _) same₁ (inl refl)
                λ _ _ same₂.
                  after-bind
                    (quote_group env world address content (take close_group_size peers) 0 []) _ _
                    (Outcome s) s.paid (quote_group-Keeps env world address content _ 0 []) same₂
                    (inl refl)
                    λ phase got same₃.
                      quoted-Outcome s _ peers phase _
                        (subst (λ b. (on_connection b (closest_peers env address) s).0 ≡ ok peers)
                          (sym (ok-injective s.bootstrap b is_b)) found)
                        got same₃
