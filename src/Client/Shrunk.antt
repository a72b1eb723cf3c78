-- ===== src/Client/Shrunk.antt =====
-- src/lib.rs: `download` of a file whose data map was shrunk, when everything is served.
use ant_wasm_client.Base.{
  ℕ, suc, ◌+◌, ◌≡◌, refl, ap, sym, ◌∙◌, subst, true, false, List, [], length, All, Bytes, Text, ok,
  ok-injective, arith,
}
use ant_wasm_client.Assoc.{lookup}
use ant_wasm_client.Errors.{Fallible}
use ant_wasm_client.Env.{Env}
use ant_wasm_client.Action.{bind-of_ok}
use ant_wasm_client.Retrieval.{
  SelfEncryption, Retrieval, is_empty, begin, advance, is_complete, required_addresses,
}
use ant_wasm_client.Retrieval.Checked.{Verifies, IsChecked}
use ant_wasm_client.Client.{World, Client, get_direct}
use ant_wasm_client.Client.Parse.{parse_address}
use ant_wasm_client.Client.Download.{fetch_round, supply_all, download_rounds, download}
use ant_wasm_client.Client.Ends.{supply_all-none_required}
use ant_wasm_client.Client.Rounds.{fetch_round-addresses}
use ant_wasm_client.Client.Supplied.{IsVerified, supply_all-Supplied}
use ant_wasm_client.Client.Complete.{fetched_of, fetched_of-IsApart, Decrypts, round-Decrypts}
use ant_wasm_client.Client.Kept.{Same, Same-Allows}
use ant_wasm_client.Client.Moves.Rounds.{fetch_round-Moves}
use ant_wasm_client.Client.Served.{
  with_map, with_map-counted, download-begins, missing-nothing_cached,
}

module _ {DataMap : Type 0} (env : Env) (world : World) (se : SelfEncryption DataMap)
    (schedules : ℕ → List ℕ) (v : Verifies env.hashes se) where
  -- A retrieval of a shrunk map that has begun, and one whose root was found.
  abbrev pub child : DataMap → Retrieval DataMap
  child m = record { map = m; root_resolved = false; cache = [] }

  abbrev pub rooted : DataMap → Retrieval DataMap → Retrieval DataMap
  rooted root r = record r { map = root; root_resolved = true }

  -- A file with a shrunk map, for which every fetch of both rounds returns bytes that verify, and
  -- whose root is found with the chunks of the first.
  pub record ServesShrunk (text : Text) (s : Client) (m root : DataMap)
      (wrappers chunks : List (Bytes × Fallible Bytes)) : Type 0 where
    pub address : Bytes
    pub parsed : parse_address world.hex_decode text ≡ ok address
    pub map_bytes : Bytes
    pub map_served :
        (get_direct env world address (record s { chunks_fetched = 0 })).0 ≡ ok map_bytes
    pub map_chunk : Bytes
    pub map_verified : se.verify_chunk address map_bytes ≡ ok map_chunk
    pub decoded : se.from_slice map_bytes ≡ ok m
    pub shrunk : se.is_child m ≡ true
    pub wrappers_served :
        (fetch_round env world
          (schedules 1)
          (se.infos m)
          (with_map env world se schedules v address s)).0
        ≡ ok wrappers
    pub wrappers_verified : All (IsVerified env world se schedules v) wrappers
    pub cached : Retrieval DataMap
    pub after : Client
    pub supplied :
        supply_all env world se schedules wrappers
          (child m)
          (fetch_round env world
            (schedules 1)
            (se.infos m)
            (with_map env world se schedules v address s)).1
        ≡ (ok cached, after)
    pub resolved : se.get_root_data_map m (λ a. lookup a cached.cache) ≡ ok root
    pub some_chunks : is_empty (required_addresses se (rooted root cached)) ≡ false
    pub chunks_served :
        (fetch_round env world (schedules 0) (required_addresses se (rooted root cached)) after).0
        ≡ ok chunks
    pub chunks_verified : All (IsVerified env world se schedules v) chunks

  begin-child :
      (address bytes chunk : Bytes) (m : DataMap)
      → se.verify_chunk address bytes ≡ ok chunk
      → se.from_slice bytes ≡ ok m
      → se.is_child m ≡ true
      → begin se address bytes ≡ ok (child m)
  unfolding begin
  begin-child address bytes chunk m h e is_child = rw (h, e, is_child) refl

  required-child : (m : DataMap) → required_addresses se (child m) ≡ se.infos m
  unfolding required_addresses
  required-child m = missing-nothing_cached env world se schedules v (se.infos m)

  -- With nothing required, `advance` takes the root that is found.
  advance-rooted :
      (r : Retrieval DataMap) (m root : DataMap)
      → r.map ≡ m
      → r.root_resolved ≡ false
      → required_addresses se r ≡ []
      → se.get_root_data_map m (λ a. lookup a r.cache) ≡ ok root
      → advance se r ≡ ok (rooted root r)
  unfolding advance
  advance-rooted r m root same unresolved none_left found =
      rw (unresolved, none_left, same, found) refl

  incomplete : (r : Retrieval DataMap) → r.root_resolved ≡ false → is_complete se r ≡ false
  unfolding is_complete
  incomplete r h = rw h refl

  incomplete-rooted :
      (r : Retrieval DataMap) (root : DataMap)
      → is_empty (required_addresses se (rooted root r)) ≡ false
      → is_complete se (rooted root r) ≡ false
  unfolding is_complete
  incomplete-rooted r root h = h

  -- The first round: what it leaves is the cache, with the root that was found.
  first_round :
      (text : Text) (s : Client) (m root : DataMap)
      (wrappers chunks : List (Bytes × Fallible Bytes))
      (h : ServesShrunk text s m root wrappers chunks)
      → (download_rounds env world se schedules 2
            (child m)
            (with_map env world se schedules v h.address s)
          ≡ download_rounds env world se schedules 1 (rooted root h.cached) h.after)
        × IsChecked env.hashes h.cached
        × (h.after.chunks_fetched
            ≡ length wrappers + (with_map env world se schedules v h.address s).chunks_fetched)
  unfolding download_rounds
  first_round text s m root wrappers chunks h =
      let s₂ = with_map env world se schedules v h.address s in
      let fetch = fetch_round env world (schedules 1) (required_addresses se (child m)) in
      let asked = required-child m in
      let got : (fetch s₂).0 ≡ ok wrappers =
        ap (λ as_. (fetch_round env world (schedules 1) as_ s₂).0) asked ∙ h.wrappers_served in
      let kept =
        (fetch_round-Moves env world (Same fetched_of fetched_of-IsApart)
            (Same-Allows fetched_of fetched_of-IsApart env world) (schedules 1)
            (required_addresses se (child m))).at
          s₂ in
      let done =
        ap
          (λ as_.
            supply_all env world se schedules wrappers (child m)
              (fetch_round env world (schedules 1) as_ s₂).1)
          asked
        ∙ h.supplied in
      let sup =
        supply_all-Supplied env world se schedules v wrappers (child m) (fetch s₂).1
          h.wrappers_verified tt in
      let same_outcome = sym sup.done ∙ done in
      let same : sup.r' ≡ h.cached = ok-injective sup.r' h.cached (ap (λ o. o.0) same_outcome) in
      let over : sup.s' ≡ h.after = ap (λ o. o.1) same_outcome in
      let (none_left, unresolved) =
        supply_all-none_required env world se schedules (child m) h.cached wrappers (fetch s₂).1
          (fetch_round-addresses env world (schedules 1) (required_addresses se (child m)) wrappers
            s₂ got)
          (ap (λ o. o.0) done) in
      let advanced =
        advance-rooted h.cached m root (ap (λ r. r.map) (sym same) ∙ sup.kept_map) unresolved
          none_left h.resolved in
      (
        rw (incomplete (child m) refl) (
            bind-of_ok _ _ s₂ (fetch s₂).1 wrappers (ap (λ r. (r, (fetch s₂).1)) got)
            ∙ bind-of_ok _ _ (fetch s₂).1 h.after h.cached done
            ∙ bind-of_ok _ _ h.after h.after (rooted root h.cached)
                (ap (λ r. (r, h.after)) advanced)),
        subst (IsChecked env.hashes) same sup.checked,
        ap (λ s. s.chunks_fetched) (sym over) ∙ sup.counted ∙ ap (λ k. length wrappers + k) kept,
      )

  pub cached-IsChecked :
      (text : Text) (s : Client) (m root : DataMap)
      (wrappers chunks : List (Bytes × Fallible Bytes))
      (h : ServesShrunk text s m root wrappers chunks)
      → IsChecked env.hashes h.cached
  cached-IsChecked text s m root wrappers chunks h =
      let (_, checked, _) = first_round text s m root wrappers chunks h in checked

  -- If the data map at the address is a shrunk one, and the fetches of the map, of the chunks that
  -- it lists and of the chunks of the root map found in those all return bytes that verify,
  -- `download` ends with what `decrypt` makes of the root map and of chunks with exactly the hashes
  -- that the root map lists, and the counter says the map and the chunks of both rounds.
  pub download-ServesShrunk :
      (text : Text) (s : Client) (m root : DataMap)
      (wrappers chunks : List (Bytes × Fallible Bytes))
      → ServesShrunk text s m root wrappers chunks
      → Decrypts env world se schedules v root (download env world se schedules text s).0
        × ((download env world se schedules text s).1.chunks_fetched
            ≡ suc (length wrappers + length chunks))
  download-ServesShrunk text s m root wrappers chunks h =
      let counted_map = with_map-counted env world se schedules v h.address s in
      let (rounds, checked, before) = first_round text s m root wrappers chunks h in
      let (decrypts, counted) =
        round-Decrypts env world se schedules v 0 (rooted root h.cached) h.after chunks refl checked
          (incomplete-rooted h.cached root h.some_chunks) h.chunks_served h.chunks_verified in
      let run : download env world se schedules text s
          ≡ download_rounds env world se schedules 1 (rooted root h.cached) h.after =
        download-begins env world se schedules v text s h.address h.map_bytes (child m) h.parsed
          h.map_served
          (begin-child h.address h.map_bytes h.map_chunk m h.map_verified h.decoded h.shrunk)
        ∙ rounds in
      subst
        (λ o.
          Decrypts env world se schedules v root o.0
          × (o.1.chunks_fetched ≡ suc (length wrappers + length chunks)))
        (sym run) (decrypts, omega (arith, counted, before, counted_map))
