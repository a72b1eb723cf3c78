-- ===== src/Client/Nested.antt =====
-- src/lib.rs and src/retrieval.rs: `download` on a data map that was shrunk more than once.
use ant_wasm_client.Base.{
  ℕ, suc, ◌≡◌, ◌≢◌, refl, sym, subst, inl, inr, Bool-cases, true, false, Result-cases, Option, some,
  List, [], ◌∷◌, map, All, Bytes, Text, ok, err, ok-injective, arith, map_err, map_err-eq_ok,
  >>=-eq-ok,
}
use ant_wasm_client.Assoc.{lookup, insert, insert-All, lookup-All, contains_key}
use ant_wasm_client.Errors.{Error, Fallible, chunk_unverified, map_unverified}
use ant_wasm_client.Env.{Env}
use ant_wasm_client.Action.{lift, pure, ◌>>=◌, bind-eq_ok, if-eq_ok}
use ant_wasm_client.Retrieval.{
  SelfEncryption, Retrieval, is_empty, missing, begin, supply, advance, is_complete, finish,
  required_addresses,
}
use ant_wasm_client.Client.{World, Client}
use ant_wasm_client.Client.Parse.{parse_address}
use ant_wasm_client.Client.Download.{
  count_fetched, supply_all, fetch_round, download_rounds, download,
}
use ant_wasm_client.Client.Ends.{round-resolved}
use ant_wasm_client.Client.Rounds.{In, All-In, fetch_round-addresses}

module _ {DataMap : Type 0} (env : Env) (world : World) (se : SelfEncryption DataMap)
    (schedules : ℕ → List ℕ) where
  -- The root behind a map is not found with the chunks that the map itself lists.
  abbrev pub IsNested : DataMap → Type 0
  IsNested m =
      (fetch : Bytes → Option Bytes)
      → ((a c : Bytes) → fetch a ≡ some c → In (se.infos m) a)
      → (e : Text) × (se.get_root_data_map m fetch ≡ err e)

  abbrev Within : DataMap → Retrieval DataMap → Type 0
  Within m r = (r.map ≡ m) × (r.root_resolved ≡ false) × All (λ p. In (se.infos m) p.0) r.cache

  supply-Within :
      (m : DataMap) (address bytes : Bytes) (r r' : Retrieval DataMap)
      → In (se.infos m) address
      → Within m r
      → supply se address bytes r ≡ ok r'
      → Within m r'
  unfolding supply
  supply-Within m address bytes r r' i (same, unresolved, within) h =
      let (chunk, _, stored) =
        >>=-eq-ok (map_err (chunk_unverified address) (se.verify_chunk address bytes))
          (λ c. ok (record r { cache = insert address c r.cache })) h in
      subst (Within m) (ok-injective (record r { cache = insert address chunk r.cache }) r' stored)
        (same, unresolved, insert-All (λ p. In (se.infos m) p.0) address chunk r.cache i within)

  supply_all-Within :
      (m : DataMap) (fetched : List (Bytes × Fallible Bytes)) (r r' : Retrieval DataMap)
      (s : Client)
      → All (In (se.infos m)) (map (λ p. p.0) fetched)
      → Within m r
      → (supply_all env world se schedules fetched r s).0 ≡ ok r'
      → Within m r'
  unfolding supply_all
  supply_all-Within m [] r r' s i w h = subst (Within m) (ok-injective r r' h) w
  supply_all-Within m ((address, err e) ∷ fetched) r r' s i w h = cc
  supply_all-Within m ((address, ok bytes) ∷ fetched) r r' s (i, is) w h =
      let (r₁, e, h₁) =
        bind-eq_ok (lift {S = Client} (supply se address bytes r))
          (λ r'. count_fetched >>= (λ _. supply_all env world se schedules fetched r')) s h in
      let (_, _, h₂) =
        bind-eq_ok count_fetched (λ _. supply_all env world se schedules fetched r₁) s h₁ in
      supply_all-Within m fetched r₁ r' _ is (supply-Within m address bytes r r₁ i w e) h₂

  All-missing :
      (P : Bytes → Type 0) (cache : List (Bytes × Bytes)) (as_ : List Bytes)
      → All P as_
      → All P (missing cache as_)
  unfolding missing
  All-missing P cache [] h = tt
  All-missing P cache (a ∷ as_) (h, hs) = elim (Bool-cases (contains_key a cache)) [
    | inl e ↦ rw e (All-missing P cache as_ hs)
    | inr e ↦ rw e (h, All-missing P cache as_ hs)
  ]

  required-In :
      (m : DataMap) (r : Retrieval DataMap)
      → r.map ≡ m
      → All (In (se.infos m)) (required_addresses se r)
  unfolding required_addresses
  required-In m r same =
      rw same (All-missing (In (se.infos m)) r.cache (se.infos m) (All-In (se.infos m)))

  -- A nested map is not resolved by its own chunks.
  advance-nested :
      (m : DataMap) (r r' : Retrieval DataMap)
      → IsNested m
      → Within m r
      → advance se r ≡ ok r'
      → r'.root_resolved ≡ false
  unfolding advance
  advance-nested m r r' nested (same, unresolved, within) h =
      elim (Bool-cases (is_empty (required_addresses se r))) [
        | inl e ↦
            let (text, refused) =
              nested (λ a. lookup a r.cache)
                (λ a c found. lookup-All (λ p. In (se.infos m) p.0) a c r.cache within found) in
            absurd (ground (arith, h, e, unresolved, same, refused))
        | inr e ↦ ground (arith, h, e, unresolved)
      ]

  incomplete : (r : Retrieval DataMap) → r.root_resolved ≡ false → is_complete se r ≡ false
  unfolding is_complete
  incomplete r h = rw h

  nested_rounds :
      (m : DataMap) (rounds : ℕ) (r : Retrieval DataMap) (s : Client) (o : Option Bytes)
      → IsNested m
      → Within m r
      → (download_rounds env world se schedules (suc rounds) r s).0 ≢ ok o
  unfolding download_rounds
  nested_rounds m rounds r s o nested (same, unresolved, within) h =
      elim (if-eq_ok (is_complete se r) (lift {S = Client} (finish se r) >>= (λ b. pure (some b)))
        (fetch_round env world (schedules rounds) (required_addresses se r) >>= (λ fetched.
          supply_all env world se schedules fetched r >>= (λ r'.
            lift (advance se r') >>= (λ r''. download_rounds env world se schedules rounds r''))))
        s h) [
          | inl (complete, _) ↦ absurd (cc (complete, incomplete r unresolved))
          | inr (_, h') ↦
              let (fetched, got, h₁) = bind-eq_ok _ _ s h' in
              let (r', supplied, h₂) = bind-eq_ok _ _ _ h₁ in
              let (r'', advanced, h₃) = bind-eq_ok _ _ _ h₂ in
              let addresses =
                fetch_round-addresses env world (schedules rounds) (required_addresses se r) fetched
                  s got in
              let listed = subst (All (In (se.infos m))) (sym addresses) (required-In m r same) in
              let within' =
                supply_all-Within m fetched r r' _ listed (same, unresolved, within) supplied in
              let (resolved, _) =
                round-resolved env world se schedules r r' r'' fetched _ addresses supplied
                  advanced in
              absurd (cc (resolved, advance-nested m r' r'' nested within' advanced))
        ]

  begin-Within :
      (m : DataMap) (address bytes : Bytes) (r : Retrieval DataMap)
      → ((c : Bytes) → se.verify_chunk address bytes ≡ ok c → se.from_slice bytes ≡ ok m)
      → se.is_child m ≡ true
      → begin se address bytes ≡ ok r
      → Within m r
  unfolding begin
  begin-Within m address bytes r holds child h =
      let (c, verified, h₁) =
        >>=-eq-ok (map_err map_unverified (se.verify_chunk address bytes)) _ h in
      let decoded =
        holds c (map_err-eq_ok map_unverified (se.verify_chunk address bytes) verified) in
      let same : r ≡ record { map = m; root_resolved = false; cache = [] } =
        ground (arith, h₁, decoded, child) in
      subst (Within m) (sym same) (refl, refl, tt)

  -- A file whose address holds a child map that its own chunks do not resolve, as a map that was
  -- shrunk more than once, is not downloaded: whatever the nodes serve, `download` fails.
  pub download-nested :
      (address_hex : Text) (m : DataMap) (s : Client)
      → ((address bytes c : Bytes)
          → parse_address world.hex_decode address_hex ≡ ok address
          → se.verify_chunk address bytes ≡ ok c
          → se.from_slice bytes ≡ ok m)
      → se.is_child m ≡ true
      → IsNested m
      → (e : Error) × ((download env world se schedules address_hex s).0 ≡ err e)
  unfolding download
  download-nested address_hex m s holds child nested =
      elim (Result-cases (download env world se schedules address_hex s).0) [
        | inr (e, failed) ↦ (e, failed)
        | inl (o, h) ↦
            let (address, parsed, h₁) = bind-eq_ok _ _ s h in
            let (_, _, h₂) = bind-eq_ok _ _ _ h₁ in
            let (map_bytes, _, h₃) = bind-eq_ok _ _ _ h₂ in
            let (_, _, h₄) = bind-eq_ok _ _ _ h₃ in
            let (r, begun, h₅) = bind-eq_ok _ _ _ h₄ in
            absurd (
              nested_rounds m 1 r _ o nested
                (begin-Within m address map_bytes r (λ c. holds address map_bytes c parsed) child
                  begun)
                h₅)
      ]
