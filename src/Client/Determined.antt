-- ===== src/Client/Determined.antt =====
-- src/lib.rs: two downloads of one address.
use ant_wasm_client.Base.{
  ℕ, zero, suc, ◌≡◌, refl, sym, ap, ◌∙◌, subst, inl, inr, true, false, none, some, List, [], ◌∷◌,
  map, Bytes, Text, ok, err, map_err, map_err-eq_ok, ok-injective, >>=-eq-ok,
}
use mathlib.Core.Path.{ap₂}
use ant_wasm_client.Assoc.{insert}
use ant_wasm_client.Errors.{Fallible, chunk_unverified}
use ant_wasm_client.Env.{Env}
use ant_wasm_client.Action.{pure, lift, ◌>>=◌, bind-eq_ok, if-eq_ok}
use ant_wasm_client.Retrieval.{
  SelfEncryption, Retrieval, begin, supply, advance, is_complete, finish, required_addresses,
}
use ant_wasm_client.Retrieval.Checked.{Verifies}
use ant_wasm_client.Client.{World, Client}
use ant_wasm_client.Client.Parse.{parse_address}
use ant_wasm_client.Client.Download.{
  count_fetched, supply_all, fetch_round, download_rounds, download,
}
use ant_wasm_client.Client.Rounds.{fetch_round-addresses}
use ant_wasm_client.Client.Finished.{download-Begun}
use ant_wasm_client.Client.Restored.Laws.{IsCollisionFree}

-- What came back for each address of a round.
abbrev Fetched : Type 0
Fetched = List (Bytes × Fallible Bytes)

-- A loop that returned, taken apart.
module _ {DataMap : Type 0} (env : Env) (world : World) (se : SelfEncryption DataMap)
    (schedules : ℕ → List ℕ) where
  record Round (rounds : ℕ) (r : Retrieval DataMap) (bytes : Bytes) : Type 0 where
    fetched : Fetched
    r₁ : Retrieval DataMap
    r₂ : Retrieval DataMap
    s₁ : Client
    s₂ : Client
    addresses : map (λ p. p.0) fetched ≡ required_addresses se r
    supplied : (supply_all env world se schedules fetched r s₁).0 ≡ ok r₁
    advanced : advance se r₁ ≡ ok r₂
    more : (download_rounds env world se schedules rounds r₂ s₂).0 ≡ ok (some bytes)

  finish-some :
      (r : Retrieval DataMap) (s : Client) (bytes : Bytes)
      → ((lift {S = Client} (finish se r) >>= (λ b. pure (some b))) s).0 ≡ ok (some bytes)
      → finish se r ≡ ok bytes
  finish-some r s bytes h =
      let (b, e, same) = bind-eq_ok (lift {S = Client} (finish se r)) (λ b. pure (some b)) s h in
      let equal : b ≡ bytes = cc in e ∙ ap ok equal

  data Outcome (r : Retrieval DataMap) (bytes : Bytes) : ℕ → Type 0 where
    over : {rounds : ℕ} → is_complete se r ≡ true → finish se r ≡ ok bytes → Outcome r bytes rounds
    next :
        {rounds : ℕ}
        → is_complete se r ≡ false
        → Round rounds r bytes
        → Outcome r bytes (suc rounds)

  download_rounds-Outcome :
      (rounds : ℕ) (r : Retrieval DataMap) (s : Client) (bytes : Bytes)
      → (download_rounds env world se schedules rounds r s).0 ≡ ok (some bytes)
      → Outcome r bytes rounds
  unfolding download_rounds
  download_rounds-Outcome zero r s bytes h = elim (if-eq_ok (is_complete se r) _ (pure none) s h) [
    | inl (e, h') ↦ over e (finish-some r s bytes h')
    | inr (_, h') ↦ absurd (cc)
  ]
  download_rounds-Outcome (suc rounds) r s bytes h =
      elim (if-eq_ok (is_complete se r) (lift {S = Client} (finish se r) >>= (λ b. pure (some b)))
        (fetch_round env world (schedules rounds) (required_addresses se r) >>= (λ fetched.
          supply_all env world se schedules fetched r >>= (λ r'.
            lift (advance se r') >>= (λ r''. download_rounds env world se schedules rounds r''))))
        s h) [
          | inl (e, h') ↦ over e (finish-some r s bytes h')
          | inr (e, h') ↦
              let (fetched, got, h₁) = bind-eq_ok _ _ s h' in
              let (r₁, supplied, h₂) = bind-eq_ok _ _ _ h₁ in
              let (r₂, advanced, h₃) = bind-eq_ok _ _ _ h₂ in
              next e (record {
                fetched = fetched;
                r₁ = r₁;
                r₂ = r₂;
                s₁ = _;
                s₂ = _;
                addresses =
                    fetch_round-addresses env world (schedules rounds) (required_addresses se r)
                      fetched s got;
                supplied = supplied;
                advanced = advanced;
                more = h₃;
              })
        ]

module _ {DataMap : Type 0} (env : Env) (se : SelfEncryption DataMap)
    (free : IsCollisionFree env.hashes) (v : Verifies env.hashes se) where
  supply-chunk :
      (address bytes : Bytes) (r r' : Retrieval DataMap)
      → supply se address bytes r ≡ ok r'
      → (chunk : Bytes) × (env.hashes.blake3 chunk ≡ address)
        × (record r { cache = insert address chunk r.cache } ≡ r')
  unfolding supply
  supply-chunk address bytes r r' h =
      let (chunk, verified, same) =
        >>=-eq-ok (map_err (chunk_unverified address) (se.verify_chunk address bytes))
          (λ c. ok (record r { cache = insert address c r.cache })) h in
      (
        chunk,
        (v address bytes chunk (map_err-eq_ok (chunk_unverified address) _ verified)).0,
        ok-injective (record r { cache = insert address chunk r.cache }) r' same,
      )

  -- Whatever two nodes serve for an address, a retrieval that accepts it goes on alike.
  supply-same :
      (address bytes bytes' : Bytes) (r r₁ r₂ : Retrieval DataMap)
      → supply se address bytes r ≡ ok r₁
      → supply se address bytes' r ≡ ok r₂
      → r₁ ≡ r₂
  supply-same address bytes bytes' r r₁ r₂ h h' =
      let (chunk, hashed, e) = supply-chunk address bytes r r₁ h in
      let (chunk', hashed', e') = supply-chunk address bytes' r r₂ h' in
      sym e
      ∙ ap (λ c. record r { cache = insert address c r.cache })
          (free chunk chunk' (hashed ∙ sym hashed'))
      ∙ e'

  module _ (world world' : World) (schedules schedules' : ℕ → List ℕ) where
    supply_all-same :
        (fetched fetched' : Fetched) (r r' r₁ r₂ : Retrieval DataMap) (s s' : Client)
        → map (λ p. p.0) fetched ≡ map (λ p. p.0) fetched'
        → r ≡ r'
        → (supply_all env world se schedules fetched r s).0 ≡ ok r₁
        → (supply_all env world' se schedules' fetched' r' s').0 ≡ ok r₂
        → r₁ ≡ r₂
    unfolding supply_all
    supply_all-same [] [] r r' r₁ r₂ s s' keys same h h' =
        sym (ok-injective r r₁ h) ∙ same ∙ ok-injective r' r₂ h'
    supply_all-same [] (p' ∷ fetched') r r' r₁ r₂ s s' keys same h h' = cc
    supply_all-same (p ∷ fetched) [] r r' r₁ r₂ s s' keys same h h' = cc
    supply_all-same ((a, err e) ∷ fetched) (p' ∷ fetched') r r' r₁ r₂ s s' keys same h h' = cc
    supply_all-same ((a, ok b) ∷ fetched) ((a', err e) ∷ fetched') r r' r₁ r₂ s s' keys same h h' =
        cc
    supply_all-same ((a, ok b) ∷ fetched) ((a', ok b') ∷ fetched') r r' r₁ r₂ s s' keys same h h' =
        let (q, e, h₁) =
          bind-eq_ok (lift {S = Client} (supply se a b r))
            (λ q. count_fetched >>= (λ _. supply_all env world se schedules fetched q)) s h in
        let (_, _, h₂) =
          bind-eq_ok count_fetched (λ _. supply_all env world se schedules fetched q) s h₁ in
        let (q', e', h₁') =
          bind-eq_ok (lift {S = Client} (supply se a' b' r'))
            (λ q. count_fetched >>= (λ _. supply_all env world' se schedules' fetched' q)) s' h' in
        let (_, _, h₂') =
          bind-eq_ok count_fetched (λ _. supply_all env world' se schedules' fetched' q') s' h₁' in
        let first : a' ≡ a = cc in
        let second : supply se a b' r ≡ ok q' =
          subst (λ a. supply se a b' r ≡ ok q') first
            (subst (λ r. supply se a' b' r ≡ ok q') (sym same) e') in
        supply_all-same fetched fetched' q q' r₁ r₂ _ _ (cc) (supply-same a b b' r q q' e second) h₂
          h₂'

    Outcome-same :
        (rounds : ℕ) (r : Retrieval DataMap) (bytes bytes' : Bytes)
        → Outcome env world se schedules r bytes rounds
        → Outcome env world' se schedules' r bytes' rounds
        → bytes ≡ bytes'
    Outcome-same rounds r bytes bytes' (over e f) (over e' f') =
        ok-injective bytes bytes' (sym f ∙ f')
    Outcome-same rounds r bytes bytes' (over e f) (next e' n) = absurd (cc)
    Outcome-same rounds r bytes bytes' (next e n) (over e' f) = absurd (cc)
    Outcome-same (suc rounds) r bytes bytes' (next e n) (next e' n') =
        let same =
          supply_all-same n.fetched n'.fetched r r n.r₁ n'.r₁ n.s₁ n'.s₁
            (n.addresses ∙ sym n'.addresses) refl n.supplied n'.supplied in
        let same' = ok-injective n.r₂ n'.r₂ (sym n.advanced ∙ ap (advance se) same ∙ n'.advanced) in
        Outcome-same rounds n.r₂ bytes bytes'
          (download_rounds-Outcome env world se schedules rounds n.r₂ n.s₂ bytes n.more)
          (subst (λ r. Outcome env world' se schedules' r bytes' rounds) (sym same')
            (download_rounds-Outcome env world' se schedules' rounds n'.r₂ n'.s₂ bytes' n'.more))

    -- A download is determined by its address: two downloads of texts that name one address, by any
    -- two clients through any two pages, whatever their nodes serve and however their fetches
    -- interleave, return the same bytes if both return, for a collision-free hash and a
    -- `verify_chunk` that accepts only content with the hash asked for.
    pub downloads-agree :
        (text text' : Text) (s s' : Client) (bytes bytes' : Bytes)
        → parse_address world.hex_decode text ≡ parse_address world'.hex_decode text'
        → (download env world se schedules text s).0 ≡ ok (some bytes)
        → (download env world' se schedules' text' s').0 ≡ ok (some bytes')
        → bytes ≡ bytes'
    downloads-agree text text' s s' bytes bytes' one h h' =
        let b = download-Begun env world se schedules text s bytes h in
        let b' = download-Begun env world' se schedules' text' s' bytes' h' in
        let address = ok-injective b.address b'.address (sym b.parsed ∙ one ∙ b'.parsed) in
        let map_bytes = free b.map_bytes b'.map_bytes (b.hashed ∙ address ∙ sym b'.hashed) in
        let first =
          ok-injective b.first b'.first
            (sym b.begun ∙ ap₂ (begin se) address map_bytes ∙ b'.begun) in
        Outcome-same 2 b.first bytes bytes'
          (download_rounds-Outcome env world se schedules 2 b.first b.now bytes b.ran)
          (subst (λ r. Outcome env world' se schedules' r bytes' 2) (sym first)
            (download_rounds-Outcome env world' se schedules' 2 b'.first b'.now bytes' b'.ran))
