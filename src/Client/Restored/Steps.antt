-- ===== src/Client/Restored/Steps.antt =====
-- src/retrieval.rs: a retrieval that begins with a shrunk data map.
use ant_wasm_client.Base.{
  ◌≡◌, refl, sym, ap, ◌∙◌, inl, inr, subst, Bool, true, false, not, ◌>>=◌, ◌||◌, some, Option-cases,
  Bool-cases, List, [], ◌∷◌, All, Bytes, ok, map_err, map_err-eq_ok, ok-injective, >>=-eq-ok, arith,
}
use ant_wasm_client.Assoc.{lookup, lookup-All, insert}
use ant_wasm_client.External.{Hashes}
use ant_wasm_client.Errors.{chunk_unverified, map_unverified, not_a_data_map, root_unresolved}
use ant_wasm_client.Retrieval.{
  SelfEncryption, Retrieval, begin, supply, advance, is_complete, is_empty, required_addresses,
}
use ant_wasm_client.Retrieval.Checked.{
  Verifies, Hashed, IsChecked, begin-IsChecked, supply-IsChecked,
}
use ant_wasm_client.Client.Finished.{IsKept}
use ant_wasm_client.Client.Restored.Laws.{IsCollisionFree, Answers}

-- Checked chunks answer only with wrapper chunks.
pub Answers-cache :
    (hashes : Hashes) (cache wrappers : List (Bytes × Bytes))
    → IsCollisionFree hashes
    → All (Hashed hashes) cache
    → All (Hashed hashes) wrappers
    → All (Answers (λ a. lookup a cache)) wrappers
Answers-cache hashes cache [] free c w = tt
Answers-cache hashes cache ((address, content) ∷ wrappers) free c (w, ws) =
    let answer : Answers (λ a. lookup a cache) (address, content) =
      elim (Option-cases (lookup address cache)) [
        | inl e ↦ inl e
        | inr (found, e) ↦
            let hashed = lookup-All (Hashed hashes) address found cache c e in
            inr (e ∙ ap some (free found content (hashed ∙ sym w)))
      ] in
    (answer, Answers-cache hashes cache wrappers free c ws)

pub is_complete-resolved :
    {DataMap : Type 0} (se : SelfEncryption DataMap) (r : Retrieval DataMap)
    → is_complete se r ≡ true
    → r.root_resolved ≡ true
unfolding is_complete
is_complete-resolved se r h = ground arith

not-eq_true : (b : Bool) → not b ≡ true → b ≡ false
not-eq_true true h = cc
not-eq_true false h = refl

-- What `begin` returns: the map that the verified bytes decode to, with nothing cached.
pub begin-eq_ok :
    {DataMap : Type 0} (se : SelfEncryption DataMap) (address bytes : Bytes) (r : Retrieval DataMap)
    → begin se address bytes ≡ ok r
    → (chunk : Bytes) × (m : DataMap) × (se.verify_chunk address bytes ≡ ok chunk)
      × (se.from_slice bytes ≡ ok m)
      × (record { map = m; root_resolved = not (se.is_child m); cache = [] } ≡ r)
unfolding begin
begin-eq_ok {DataMap} se address bytes r h =
    let (chunk, verified, k) =
      >>=-eq-ok (map_err map_unverified (se.verify_chunk address bytes))
        (λ _.
          map_err not_a_data_map (se.from_slice bytes)
          >>= (λ m. ok (record { map = m; root_resolved = not (se.is_child m); cache = [] })))
        h in
    let (m, got, same) =
      >>=-eq-ok (map_err not_a_data_map (se.from_slice bytes))
        (λ m. ok (record { map = m; root_resolved = not (se.is_child m); cache = [] })) k in
    (
      chunk,
      m,
      map_err-eq_ok map_unverified _ verified,
      map_err-eq_ok not_a_data_map _ got,
      ok-injective (record { map = m; root_resolved = not (se.is_child m); cache = [] }) r same,
    )

module _ {DataMap : Type 0} (hashes : Hashes) (se : SelfEncryption DataMap)
    (IsRoot : DataMap → Type 0) (shrunk : DataMap) where
  -- A retrieval of a map on its way to a root map, with checked chunks only.
  pub record Follows (r : Retrieval DataMap) : Type 0 where
    pub checked : IsChecked hashes r
    pub resolved : r.root_resolved ≡ true → IsRoot r.map
    pub pending : r.root_resolved ≡ false → r.map ≡ shrunk

  module _ (v : Verifies hashes se) where
    supply-Follows :
        (address bytes : Bytes) (r r' : Retrieval DataMap)
        → Follows r
        → supply se address bytes r ≡ ok r'
        → Follows r'
    unfolding supply
    supply-Follows address bytes r r' f h =
        let (chunk, _, same) =
          >>=-eq-ok (map_err (chunk_unverified address) (se.verify_chunk address bytes))
            (λ c. ok (record r { cache = insert address c r.cache })) h in
        let equal = ok-injective (record r { cache = insert address chunk r.cache }) r' same in
        record {
          checked = supply-IsChecked hashes se v address bytes r r' f.checked h;
          resolved = subst (λ r'. r'.root_resolved ≡ true → IsRoot r'.map) equal f.resolved;
          pending = subst (λ r'. r'.root_resolved ≡ false → r'.map ≡ shrunk) equal f.pending;
        }

    module _
        (resolves : (m : DataMap) (cache : List (Bytes × Bytes))
          → All (Hashed hashes) cache
          → se.get_root_data_map shrunk (λ a. lookup a cache) ≡ ok m
          → IsRoot m) where
      advance-Follows : (r r' : Retrieval DataMap) → Follows r → advance se r ≡ ok r' → Follows r'
      unfolding advance
      advance-Follows r r' f h =
          elim (Bool-cases (r.root_resolved || not (is_empty (required_addresses se r)))) [
            | inl e ↦ subst Follows (ok-injective r r' (rw e at h)) f
            | inr e ↦
                let unresolved : r.root_resolved ≡ false = ground arith in
                let (m, got, same) =
                  >>=-eq-ok
                    (map_err root_unresolved (se.get_root_data_map r.map (λ a. lookup a r.cache)))
                    (λ m. ok (record r { map = m; root_resolved = true })) (rw e at h) in
                let found =
                  subst (λ d. se.get_root_data_map d (λ a. lookup a r.cache) ≡ ok m)
                    (f.pending unresolved) (map_err-eq_ok root_unresolved _ got) in
                subst Follows (ok-injective (record r { map = m; root_resolved = true }) r' same)
                  (record {
                    checked = f.checked;
                    resolved = λ _. resolves m r.cache f.checked found;
                    pending = λ h. cc;
                  })
          ]

      pub Follows-IsKept : IsKept se Follows
      Follows-IsKept = record { supplied = supply-Follows; advanced = advance-Follows }

    pub begin-Follows :
        (address bytes : Bytes) (r : Retrieval DataMap)
        → begin se address bytes ≡ ok r
        → se.from_slice bytes ≡ ok shrunk
        → (se.is_child shrunk ≡ false → IsRoot shrunk)
        → Follows r
    begin-Follows address bytes r h read plain =
        let (_, c) = begin-IsChecked hashes se v address bytes r h in
        let (_, m, _, got, begun) = begin-eq_ok se address bytes r h in
        let is : m ≡ shrunk = ok-injective m shrunk (sym got ∙ read) in
        record {
          checked = c;
          resolved =
              subst (λ r. r.root_resolved ≡ true → IsRoot r.map) begun
                λ e.
                  subst IsRoot (sym is)
                    (plain (ap se.is_child (sym is) ∙ not-eq_true (se.is_child m) e));
          pending = subst (λ r. r.root_resolved ≡ false → r.map ≡ shrunk) begun λ _. is;
        }
