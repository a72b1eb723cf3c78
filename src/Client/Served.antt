-- ===== src/Client/Served.antt =====
-- src/lib.rs: `download` of a file whose chunks are all served.
use ant_wasm_client.Base.{
  ℕ, suc, ◌≡◌, refl, ap, sym, ◌∙◌, subst, true, false, List, [], ◌∷◌, length, All, Bytes, Text, ok,
  arith,
}
use ant_wasm_client.Assoc.{contains_key}
use ant_wasm_client.Errors.{Fallible}
use ant_wasm_client.Env.{Env}
use ant_wasm_client.Action.{bind-of_ok}
use ant_wasm_client.Retrieval.{
  SelfEncryption, Retrieval, is_empty, begin, is_complete, required_addresses, missing,
}
use ant_wasm_client.Retrieval.Checked.{Verifies}
use ant_wasm_client.Client.{World, Client, get_direct}
use ant_wasm_client.Client.Kept.{Same, Same-Allows}
use ant_wasm_client.Client.Moves.{get_direct-Moves}
use ant_wasm_client.Client.Parse.{parse_address}
use ant_wasm_client.Client.Download.{reset_fetched, fetch_round, download_rounds, download}
use ant_wasm_client.Client.Supplied.{count_fetched_lem, IsVerified}
use ant_wasm_client.Client.Complete.{fetched_of, fetched_of-IsApart, Decrypts, round-Decrypts}

reset_fetched_lem : (s : Client) → reset_fetched s ≡ (ok tt, record s { chunks_fetched = 0 })
unfolding reset_fetched
reset_fetched_lem s = refl

module _ {DataMap : Type 0} (env : Env) (world : World) (se : SelfEncryption DataMap)
    (schedules : ℕ → List ℕ) (v : Verifies env.hashes se) where
  -- The client after the data map was fetched and counted.
  abbrev pub with_map : Bytes → Client → Client
  with_map address s =
      let s' = (get_direct env world address (record s { chunks_fetched = 0 })).1 in
      record s' { chunks_fetched = suc s'.chunks_fetched }

  -- A file with a data map of one level, for which every fetch returns bytes that verify.
  pub record Serves (address_hex : Text) (s : Client) (m : DataMap)
      (fetched : List (Bytes × Fallible Bytes)) : Type 0 where
    pub address : Bytes
    pub parsed : parse_address world.hex_decode address_hex ≡ ok address
    pub map_bytes : Bytes
    pub map_served :
        (get_direct env world address (record s { chunks_fetched = 0 })).0 ≡ ok map_bytes
    pub map_chunk : Bytes
    pub map_verified : se.verify_chunk address map_bytes ≡ ok map_chunk
    pub decoded : se.from_slice map_bytes ≡ ok m
    pub one_level : se.is_child m ≡ false
    pub some_chunks : is_empty (se.infos m) ≡ false
    pub chunks_served :
        (fetch_round env world (schedules 1) (se.infos m) (with_map address s)).0 ≡ ok fetched
    pub verified : All (IsVerified env world se schedules v) fetched

  abbrev begun : DataMap → Retrieval DataMap
  begun m = record { map = m; root_resolved = true; cache = [] }

  pub missing-nothing_cached : (as_ : List Bytes) → missing [] as_ ≡ as_
  unfolding missing contains_key
  missing-nothing_cached [] = refl
  missing-nothing_cached (a ∷ as_) = ap (λ l. a ∷ l) (missing-nothing_cached as_)

  required-begun : (m : DataMap) → required_addresses se (begun m) ≡ se.infos m
  unfolding required_addresses
  required-begun m = missing-nothing_cached (se.infos m)

  begin-begun :
      (address bytes chunk : Bytes) (m : DataMap)
      → se.verify_chunk address bytes ≡ ok chunk
      → se.from_slice bytes ≡ ok m
      → se.is_child m ≡ false
      → begin se address bytes ≡ ok (begun m)
  unfolding begin
  begin-begun address bytes chunk m h e flat = rw (h, e, flat) refl

  begun-incomplete :
      (m : DataMap) → is_empty (se.infos m) ≡ false → is_complete se (begun m) ≡ false
  unfolding is_complete required_addresses
  begun-incomplete m h = rw (missing-nothing_cached (se.infos m)) h

  -- The map is the first fetch that is counted.
  pub with_map-counted : (address : Bytes) (s : Client) → (with_map address s).chunks_fetched ≡ 1
  with_map-counted address s = ap suc (
      (get_direct-Moves env world (Same fetched_of fetched_of-IsApart)
          (Same-Allows fetched_of fetched_of-IsApart env world) address).at
        (record s { chunks_fetched = 0 }))

  -- A map that is served and begins a retrieval is followed by the rounds.
  pub download-begins :
      (address_hex : Text) (s : Client) (address bytes : Bytes) (r : Retrieval DataMap)
      → parse_address world.hex_decode address_hex ≡ ok address
      → (get_direct env world address (record s { chunks_fetched = 0 })).0 ≡ ok bytes
      → begin se address bytes ≡ ok r
      → download env world se schedules address_hex s
        ≡ download_rounds env world se schedules 2 r (with_map address s)
  unfolding download
  download-begins address_hex s address bytes r parsed served begun =
      let s₀ = record s { chunks_fetched = 0 } in
      let s₁ = (get_direct env world address s₀).1 in
      let s₂ = with_map address s in
      bind-of_ok _ _ s s address (ap (λ r. (r, s)) parsed)
      ∙ bind-of_ok _ _ s s₀ tt (reset_fetched_lem s)
      ∙ bind-of_ok _ _ s₀ s₁ bytes (ap (λ r. (r, s₁)) served)
      ∙ bind-of_ok _ _ s₁ s₂ tt (count_fetched_lem s₁)
      ∙ bind-of_ok _ _ s₂ s₂ r (ap (λ r. (r, s₂)) begun)

  -- If the data map at the address has one level and lists some chunks, and the fetches of the map
  -- and of its chunks all return bytes that verify, `download` ends with what `decrypt` makes of the
  -- map and of chunks with exactly the hashes that the map lists, and the counter says the map and
  -- the fetched chunks.
  pub download-Serves :
      (address_hex : Text) (s : Client) (m : DataMap) (fetched : List (Bytes × Fallible Bytes))
      → Serves address_hex s m fetched
      → Decrypts env world se schedules v m (download env world se schedules address_hex s).0
        × ((download env world se schedules address_hex s).1.chunks_fetched ≡ suc (length fetched))
  download-Serves address_hex s m fetched h =
      let s₂ = with_map h.address s in
      let (decrypts, counted) =
        round-Decrypts env world se schedules v 1 (begun m) s₂ fetched refl tt
          (begun-incomplete m h.some_chunks)
          (ap (λ as_. (fetch_round env world (schedules 1) as_ s₂).0) (required-begun m)
            ∙ h.chunks_served)
          h.verified in
      let run : download env world se schedules address_hex s
          ≡ download_rounds env world se schedules 2 (begun m) s₂ =
        download-begins address_hex s h.address h.map_bytes (begun m) h.parsed h.map_served
          (begin-begun h.address h.map_bytes h.map_chunk m h.map_verified h.decoded h.one_level) in
      subst
        (λ o. Decrypts env world se schedules v m o.0 × (o.1.chunks_fetched ≡ suc (length fetched)))
        (sym run) (decrypts, omega (arith, counted, with_map-counted h.address s))
