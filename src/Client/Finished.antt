-- ===== src/Client/Finished.antt =====
-- src/lib.rs: the loop of `download`, for any predicate on retrievals that its steps keep.
use ant_wasm_client.Base.{
  ok-injective, ℕ, zero, suc, ◌≡◌, ap, ◌∙◌, subst, inl, inr, none, some, List, [], ◌∷◌, Bytes, Text,
  ok, err,
}
use ant_wasm_client.Errors.{Fallible}
use ant_wasm_client.Env.{Env}
use ant_wasm_client.Action.{pure, lift, ◌>>=◌, bind-eq_ok, if-eq_ok}
use ant_wasm_client.Retrieval.{
  SelfEncryption, Retrieval, begin, supply, advance, is_complete, finish, required_addresses,
}
use ant_wasm_client.Client.{World, Client}
use ant_wasm_client.Client.Parse.{parse_address}
use ant_wasm_client.Client.Fetched.{get_direct-hash}
use ant_wasm_client.Client.Download.{
  count_fetched, supply_all, fetch_round, download_rounds, download,
}

-- What `supply` and `advance` keep when they return.
pub record IsKept {DataMap : Type 0} (se : SelfEncryption DataMap) (P : Retrieval DataMap → Type 0)
    : Type 0 where
  pub supplied :
      (address bytes : Bytes) (r r' : Retrieval DataMap)
      → P r
      → supply se address bytes r ≡ ok r'
      → P r'
  pub advanced : (r r' : Retrieval DataMap) → P r → advance se r ≡ ok r' → P r'

module _ {DataMap : Type 0} (env : Env) (world : World) (se : SelfEncryption DataMap)
    (schedules : ℕ → List ℕ) (P : Retrieval DataMap → Type 0) (kept : IsKept se P) where
  supply_all-kept :
      (fetched : List (Bytes × Fallible Bytes)) (r r' : Retrieval DataMap) (s : Client)
      → P r
      → (supply_all env world se schedules fetched r s).0 ≡ ok r'
      → P r'
  unfolding supply_all
  supply_all-kept [] r r' s p h = subst P (ok-injective r r' h) p
  supply_all-kept ((address, err e) ∷ fetched) r r' s p h = cc
  supply_all-kept ((address, ok bytes) ∷ fetched) r r' s p h =
      let (r₁, e, h₁) =
        bind-eq_ok (lift {S = Client} (supply se address bytes r))
          (λ r'. count_fetched >>= (λ _. supply_all env world se schedules fetched r')) s h in
      let (_, _, h₂) =
        bind-eq_ok count_fetched (λ _. supply_all env world se schedules fetched r₁) s h₁ in
      supply_all-kept fetched r₁ r' _ (kept.supplied address bytes r r₁ p e) h₂

  -- The retrieval that a download ends with: it satisfies what the loop keeps, and `finish` makes
  -- the bytes of it.
  pub record Finished (bytes : Bytes) : Type 0 where
    pub last : Retrieval DataMap
    pub holds : P last
    pub finished : finish se last ≡ ok bytes

  finish-Finished :
      (r : Retrieval DataMap) (s : Client) (bytes : Bytes)
      → P r
      → ((lift {S = Client} (finish se r) >>= (λ b. pure (some b))) s).0 ≡ ok (some bytes)
      → Finished bytes
  finish-Finished r s bytes p h =
      let (b, e, same) = bind-eq_ok (lift {S = Client} (finish se r)) (λ b. pure (some b)) s h in
      let equal : b ≡ bytes = cc in record { last = r; holds = p; finished = e ∙ ap ok equal }

  pub download_rounds-Finished :
      (rounds : ℕ) (r : Retrieval DataMap) (s : Client) (bytes : Bytes)
      → P r
      → (download_rounds env world se schedules rounds r s).0 ≡ ok (some bytes)
      → Finished bytes
  unfolding download_rounds
  download_rounds-Finished zero r s bytes p h =
      elim (if-eq_ok (is_complete se r) _ (pure none) s h) [
        | inl (_, h') ↦ finish-Finished r s bytes p h'
        | inr (_, h') ↦ absurd (cc)
      ]
  download_rounds-Finished (suc rounds) r s bytes p h =
      elim (if-eq_ok (is_complete se r) (lift {S = Client} (finish se r) >>= (λ b. pure (some b)))
        (fetch_round env world (schedules rounds) (required_addresses se r) >>= (λ fetched.
          supply_all env world se schedules fetched r >>= (λ r'.
            lift (advance se r') >>= (λ r''. download_rounds env world se schedules rounds r''))))
        s h) [
          | inl (_, h') ↦ finish-Finished r s bytes p h'
          | inr (_, h') ↦
              let (fetched, _, h₁) = bind-eq_ok _ _ s h' in
              let (r', supplied, h₂) = bind-eq_ok _ _ _ h₁ in
              let (r'', advanced, h₃) = bind-eq_ok _ _ _ h₂ in
              let p' = supply_all-kept fetched r r' _ p supplied in
              download_rounds-Finished rounds r'' _ bytes (kept.advanced r' r'' p' advanced) h₃
        ]

module _ {DataMap : Type 0} (env : Env) (world : World) (se : SelfEncryption DataMap)
    (schedules : ℕ → List ℕ) where
  -- A download that returned: the retrieval that it began with, on bytes with the hash that the text
  -- names, and the rounds that followed.
  pub record Begun (text : Text) (bytes : Bytes) : Type 0 where
    pub address : Bytes
    pub map_bytes : Bytes
    pub first : Retrieval DataMap
    pub now : Client
    pub parsed : parse_address world.hex_decode text ≡ ok address
    pub hashed : env.hashes.blake3 map_bytes ≡ address
    pub begun : begin se address map_bytes ≡ ok first
    pub ran : (download_rounds env world se schedules 2 first now).0 ≡ ok (some bytes)

  pub download-Begun :
      (text : Text) (s : Client) (bytes : Bytes)
      → (download env world se schedules text s).0 ≡ ok (some bytes)
      → Begun text bytes
  unfolding download
  download-Begun text s bytes h =
      let (address, parsed, h₁) = bind-eq_ok _ _ s h in
      let (_, _, h₂) = bind-eq_ok _ _ _ h₁ in
      let (map_bytes, fetched, h₃) = bind-eq_ok _ _ _ h₂ in
      let (_, _, h₄) = bind-eq_ok _ _ _ h₃ in
      let (r, begun, h₅) = bind-eq_ok _ _ _ h₄ in
      record {
        address = address;
        map_bytes = map_bytes;
        first = r;
        now = _;
        parsed = parsed;
        hashed = get_direct-hash env world address _ map_bytes fetched;
        begun = begun;
        ran = h₅;
      }
