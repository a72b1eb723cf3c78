-- ===== src/Client/Complete.antt =====
-- src/lib.rs: a round of `download` whose chunks are all served.
use ant_wasm_client.Base.{
  ℕ, zero, suc, ◌+◌, ◌≡◌, refl, ap, sym, ◌∙◌, subst, true, false, ◌&&◌, Option, some, List, length,
  map, All, Bytes, ok, err, map_err,
}
use mathlib.Core.Path.{ap₂}
use ant_wasm_client.Errors.{Fallible, decrypt_failed}
use ant_wasm_client.Env.{Env}
use ant_wasm_client.Action.{lift, pure, ◌>>=◌, bind-of_ok}
use ant_wasm_client.Retrieval.{
  SelfEncryption, Retrieval, is_empty, advance, is_complete, finish, required_addresses,
}
use ant_wasm_client.Retrieval.Checked.{Verifies, IsChecked, collect-hashes}
use ant_wasm_client.Retrieval.Progress.{finish-is_complete}
use ant_wasm_client.Client.{World, Client}
use ant_wasm_client.Client.Kept.{IsApart, Same, Same-Allows}
use ant_wasm_client.Client.Moves.Rounds.{fetch_round-Moves}
use ant_wasm_client.Client.Download.{fetch_round, supply_all, download_rounds}
use ant_wasm_client.Client.Ends.{supply_all-none_required, advance-resolved}
use ant_wasm_client.Client.Rounds.{fetch_round-addresses}
use ant_wasm_client.Client.Supplied.{IsVerified, supply_all-Supplied}

-- The counter, which only `download` moves.
abbrev pub fetched_of : Client → ℕ
fetched_of s = s.chunks_fetched

pub fetched_of-IsApart : IsApart fetched_of
fetched_of-IsApart = record { heap = λ s h. refl; pool = λ s p. refl; dialed = λ s n. refl }

-- A download that is over: its result, and what the counter says.
abbrev pub whole : Fallible Bytes → Fallible (Option Bytes)
whole (ok bytes) = ok (some bytes)
whole (err e) = err e

module _ {DataMap : Type 0} (env : Env) (world : World) (se : SelfEncryption DataMap)
    (schedules : ℕ → List ℕ) (v : Verifies env.hashes se) where
  -- What a complete retrieval of a map is decrypted to.
  pub record Decrypts (m : DataMap) (result : Fallible (Option Bytes)) : Type 0 where
    pub chunks : List Bytes
    pub hashed : map env.hashes.blake3 chunks ≡ se.infos m
    pub decrypted : result ≡ whole (map_err decrypt_failed (se.decrypt m chunks))

  finish_whole :
      (result : Fallible Bytes) (s : Client)
      → (lift {S = Client} result >>= (λ b. pure (some b))) s ≡ (whole result, s)
  unfolding ◌>>=◌
  finish_whole (ok b) s = refl
  finish_whole (err e) s = refl

  complete-download_rounds :
      (rounds : ℕ) (r : Retrieval DataMap) (s : Client)
      → is_complete se r ≡ true
      → download_rounds env world se schedules rounds r s ≡ (whole (finish se r), s)
  unfolding download_rounds
  complete-download_rounds zero r s e = rw e (finish_whole (finish se r) s)
  complete-download_rounds (suc n) r s e = rw e (finish_whole (finish se r) s)

  complete-Decrypts :
      (rounds : ℕ) (m : DataMap) (r : Retrieval DataMap) (s : Client)
      → r.map ≡ m
      → IsChecked env.hashes r
      → is_complete se r ≡ true
      → Decrypts m (download_rounds env world se schedules rounds r s).0
        × ((download_rounds env world se schedules rounds r s).1 ≡ s)
  complete-Decrypts rounds m r s same c complete =
      let (chunks, collected, finished) = finish-is_complete se r complete in
      let run = complete-download_rounds rounds r s complete in
      (
        record {
          chunks = chunks;
          hashed =
              collect-hashes env.hashes r.cache (se.infos r.map) chunks c collected
              ∙ ap se.infos same;
          decrypted =
              ap (λ r. r.0) run
              ∙ ap whole finished
              ∙ ap (λ m. whole (map_err decrypt_failed (se.decrypt m chunks))) same;
        },
        ap (λ r. r.1) run,
      )

  -- A round of a resolved map whose chunks are all served and verified leaves the map complete.
  supplied-is_complete :
      (r r' : Retrieval DataMap) (fetched : List (Bytes × Fallible Bytes)) (s s' : Client)
      → r.root_resolved ≡ true
      → map (λ p. p.0) fetched ≡ required_addresses se r
      → supply_all env world se schedules fetched r s ≡ (ok r', s')
      → (r'.root_resolved ≡ true) × (is_complete se r' ≡ true)
  unfolding is_complete
  supplied-is_complete r r' fetched s s' resolved addresses done =
      let (none_left, kept) =
        supply_all-none_required env world se schedules r r' fetched s addresses
          (ap (λ r. r.0) done) in
      (kept ∙ resolved, ap₂ (λ b l. b && is_empty l) (kept ∙ resolved) none_left)

  pub round-Decrypts :
      (n : ℕ) (r : Retrieval DataMap) (s : Client) (fetched : List (Bytes × Fallible Bytes))
      → r.root_resolved ≡ true
      → IsChecked env.hashes r
      → is_complete se r ≡ false
      → (fetch_round env world (schedules n) (required_addresses se r) s).0 ≡ ok fetched
      → All (IsVerified env world se schedules v) fetched
      → Decrypts r.map (download_rounds env world se schedules (suc n) r s).0
        × ((download_rounds env world se schedules (suc n) r s).1.chunks_fetched
            ≡ length fetched + s.chunks_fetched)
  unfolding download_rounds
  round-Decrypts n r s fetched resolved c incomplete got verified =
      let fetch = fetch_round env world (schedules n) (required_addresses se r) in
      let kept =
        (fetch_round-Moves env world (Same fetched_of fetched_of-IsApart)
            (Same-Allows fetched_of fetched_of-IsApart env world) (schedules n)
            (required_addresses se r)).at
          s in
      let sup = supply_all-Supplied env world se schedules v fetched r (fetch s).1 verified c in
      let (resolved', complete) =
        supplied-is_complete r sup.r' fetched (fetch s).1 sup.s' resolved
          (fetch_round-addresses env world (schedules n) (required_addresses se r) fetched s got)
          sup.done in
      let (decrypts, over) =
        complete-Decrypts n r.map sup.r' sup.s' sup.kept_map sup.checked complete in
      let run : (fetch >>= (λ fetched.
        supply_all env world se schedules fetched r
        >>= (λ r'. lift (advance se r') >>= (λ r''. download_rounds env world se schedules n r''))))
            s
          ≡ download_rounds env world se schedules n sup.r' sup.s' =
        bind-of_ok _ _ s (fetch s).1 fetched (ap (λ r. (r, (fetch s).1)) got)
        ∙ bind-of_ok _ _ (fetch s).1 sup.s' sup.r' sup.done
        ∙ bind-of_ok _ _ sup.s' sup.s' sup.r'
            (ap (λ r. (r, sup.s')) (advance-resolved env world se schedules sup.r' resolved')) in
      rw incomplete (
        subst (λ o. Decrypts r.map o.0 × (o.1.chunks_fetched ≡ length fetched + s.chunks_fetched))
          (sym run)
          (
            decrypts,
            ap (λ s. s.chunks_fetched) over ∙ sup.counted ∙ ap (λ k. length fetched + k) kept,
          ))
