-- ===== src/Client/Ends.antt =====
-- src/lib.rs: the `while` of `download` and its rounds.
use ant_wasm_client.Base.{
  ℕ, zero, suc, ◌≡◌, ◌≢◌, refl, ap, sym, ◌∙◌, subst, inl, inr, true, ◌&&◌, none, some, List, [],
  ◌∷◌, map, Bytes, Text, ok-injective, ok, err, >>=-eq-ok, map_err,
}
use mathlib.Core.Path.{ap₂}
use ant_wasm_client.Assoc.{insert}
use ant_wasm_client.Errors.{Fallible, chunk_unverified}
use ant_wasm_client.Env.{Env}
use ant_wasm_client.Action.{pure, lift, ◌>>=◌, bind-eq_ok, if-eq_ok}
use ant_wasm_client.Retrieval.{
  SelfEncryption, Retrieval, is_empty, supply, advance, is_complete, finish, required_addresses,
}
use ant_wasm_client.Retrieval.Progress.{supply-required_addresses, advance-resolves}
use ant_wasm_client.Client.{World, Client}
use ant_wasm_client.Client.Download.{
  count_fetched, supply_all, fetch_round, download_rounds, download,
}
use ant_wasm_client.Client.Rounds.{withouts, withouts-All, All-In, fetch_round-addresses}

module _ {DataMap : Type 0} (env : Env) (world : World) (se : SelfEncryption DataMap)
    (schedules : ℕ → List ℕ) where
  supply-root_resolved :
      (address bytes : Bytes) (r r' : Retrieval DataMap)
      → supply se address bytes r ≡ ok r'
      → r'.root_resolved ≡ r.root_resolved
  unfolding supply
  supply-root_resolved address bytes r r' h =
      let (chunk, _, same) =
        >>=-eq-ok (map_err (chunk_unverified address) (se.verify_chunk address bytes))
          (λ c. ok (record r { cache = insert address c r.cache })) h in
      subst (λ r'. r'.root_resolved ≡ r.root_resolved)
        (ok-injective (record r { cache = insert address chunk r.cache }) r' same) refl

  pub supply_all-required_addresses :
      (fetched : List (Bytes × Fallible Bytes)) (r r' : Retrieval DataMap) (s : Client)
      → (supply_all env world se schedules fetched r s).0 ≡ ok r'
      → (required_addresses se r' ≡ withouts (map (λ p. p.0) fetched) (required_addresses se r))
        × (r'.root_resolved ≡ r.root_resolved)
  unfolding supply_all
  supply_all-required_addresses [] r r' s h =
      let same = ok-injective r r' h in
      (ap (required_addresses se) (sym same), ap (λ r. r.root_resolved) (sym same))
  supply_all-required_addresses ((address, err e) ∷ fetched) r r' s h = cc
  supply_all-required_addresses ((address, ok bytes) ∷ fetched) r r' s h =
      let (r₁, e, h₁) =
        bind-eq_ok (lift {S = Client} (supply se address bytes r))
          (λ r'. count_fetched >>= (λ _. supply_all env world se schedules fetched r')) s h in
      let (_, _, h₂) =
        bind-eq_ok count_fetched (λ _. supply_all env world se schedules fetched r₁) s h₁ in
      let (required, resolved) = supply_all-required_addresses fetched r₁ r' _ h₂ in
      (
        required
            ∙ ap (withouts (map (λ p. p.0) fetched))
                (supply-required_addresses se address bytes r r₁ e),
        resolved ∙ supply-root_resolved address bytes r r₁ e,
      )

  pub advance-resolved : (r : Retrieval DataMap) → r.root_resolved ≡ true → advance se r ≡ ok r
  unfolding advance
  advance-resolved r h = rw h

  -- When every chunk of a round was supplied, nothing is required of the map that it began with.
  pub supply_all-none_required :
      (r r' : Retrieval DataMap) (fetched : List (Bytes × Fallible Bytes)) (s : Client)
      → map (λ p. p.0) fetched ≡ required_addresses se r
      → (supply_all env world se schedules fetched r s).0 ≡ ok r'
      → (required_addresses se r' ≡ []) × (r'.root_resolved ≡ r.root_resolved)
  supply_all-none_required r r' fetched s addresses supplied =
      let (required, kept) = supply_all-required_addresses fetched r r' s supplied in
      (
        required
            ∙ ap (λ ks. withouts ks (required_addresses se r)) addresses
            ∙ withouts-All (required_addresses se r) (required_addresses se r)
                (All-In (required_addresses se r)),
        kept,
      )

  -- What a round leaves: nothing required of the map that it began with, and a resolved root.
  pub round-resolved :
      (r r' r'' : Retrieval DataMap) (fetched : List (Bytes × Fallible Bytes)) (s : Client)
      → map (λ p. p.0) fetched ≡ required_addresses se r
      → (supply_all env world se schedules fetched r s).0 ≡ ok r'
      → advance se r' ≡ ok r''
      → (r''.root_resolved ≡ true) × (r.root_resolved ≡ true → is_complete se r'' ≡ true)
  unfolding is_complete
  round-resolved r r' r'' fetched s addresses supplied advanced =
      let (none_left, kept) = supply_all-none_required r r' fetched s addresses supplied in
      let (resolved, _) = advance-resolves se r' r'' (ap is_empty none_left) advanced in
      (
        resolved,
        λ before.
            let resolved' : r'.root_resolved ≡ true = kept ∙ before in
            let same : r' ≡ r'' =
              ok-injective r' r'' (sym (advance-resolved r' resolved') ∙ advanced) in
            subst (λ r. is_complete se r ≡ true) same
              (ap₂ (λ b l. b && is_empty l) resolved' none_left),
      )

  finish-some :
      (r : Retrieval DataMap) (s : Client)
      → ((lift {S = Client} (finish se r) >>= (λ b. pure (some b))) s).0 ≢ ok none
  finish-some r s h =
      let (b, _, same) = bind-eq_ok (lift {S = Client} (finish se r)) (λ b. pure (some b)) s h in
      absurd (cc)

  complete-ends :
      (rounds : ℕ) (r : Retrieval DataMap) (s : Client)
      → is_complete se r ≡ true
      → (download_rounds env world se schedules rounds r s).0 ≢ ok none
  unfolding download_rounds
  complete-ends zero r s e h = elim (if-eq_ok (is_complete se r) _ (pure none) s h) [
    | inl (_, h') ↦ finish-some r s h'
    | inr (e', _) ↦ absurd (cc)
  ]
  complete-ends (suc rounds) r s e h = elim (if-eq_ok (is_complete se r) _ _ s h) [
    | inl (_, h') ↦ finish-some r s h'
    | inr (e', _) ↦ absurd (cc)
  ]

  -- A round that does not end the loop leads to the next with what it leaves.
  round-ends :
      (rounds : ℕ) (r : Retrieval DataMap) (s : Client)
      → ((r'' : Retrieval DataMap) (s' : Client)
          → r''.root_resolved ≡ true
          → (r.root_resolved ≡ true → is_complete se r'' ≡ true)
          → (download_rounds env world se schedules rounds r'' s').0 ≢ ok none)
      → (download_rounds env world se schedules (suc rounds) r s).0 ≢ ok none
  unfolding download_rounds
  round-ends rounds r s next h =
      elim (if-eq_ok (is_complete se r) (lift {S = Client} (finish se r) >>= (λ b. pure (some b)))
        (fetch_round env world (schedules rounds) (required_addresses se r) >>= (λ fetched.
          supply_all env world se schedules fetched r >>= (λ r'.
            lift (advance se r') >>= (λ r''. download_rounds env world se schedules rounds r''))))
        s h) [
          | inl (_, h') ↦ finish-some r s h'
          | inr (_, h') ↦
              let (fetched, got, h₁) = bind-eq_ok _ _ s h' in
              let (r', supplied, h₂) = bind-eq_ok _ _ _ h₁ in
              let (r'', advanced, h₃) = bind-eq_ok _ _ _ h₂ in
              let (resolved, ends) =
                round-resolved r r' r'' fetched _
                  (fetch_round-addresses env world (schedules rounds) (required_addresses se r)
                    fetched s got)
                  supplied advanced in
              next r'' _ resolved ends h₃
        ]

  -- Two rounds are enough for the loop of `download`: whatever data map it begins with, whatever the
  -- nodes serve and however the fetches interleave, it does not run out of them before it has the
  -- bytes or an error, if every wait for a message ends with one or with the close of the channel. The
  -- code waits without a timeout, and a channel that stays open and silent is not in the model.
  pub download-ends :
      (address_hex : Text) (s : Client)
      → (download env world se schedules address_hex s).0 ≢ ok none
  unfolding download
  download-ends address_hex s h =
      let (address, _, h₁) = bind-eq_ok _ _ s h in
      let (_, _, h₂) = bind-eq_ok _ _ _ h₁ in
      let (map_bytes, _, h₃) = bind-eq_ok _ _ _ h₂ in
      let (_, _, h₄) = bind-eq_ok _ _ _ h₃ in
      let (r, begun, h₅) = bind-eq_ok _ _ _ h₄ in
      round-ends 1 r _
        (λ r₁ s₁ resolved _.
          round-ends 0 r₁ s₁ λ r₂ s₂ _ ends. complete-ends 0 r₂ s₂ (ends resolved))
        h₅
