-- ===== src/Retrieval/Checked.antt =====
-- src/retrieval.rs: the cached chunks and the addresses that they stand under, and `finish`.
use mathlib.Core.Path.{ap₂}
use ant_wasm_client.Base.{
  arith, map_err, ◌≡◌, subst, true, ◌||◌, not, Option-cases, inl, inr, List, [], ◌∷◌, map, All,
  Bytes, ok, >>=-eq-ok, ok-injective, map_err-eq_ok, Bool-cases,
}
use ant_wasm_client.Assoc.{lookup, lookup-All, insert-All}
use ant_wasm_client.External.{Hashes}
use ant_wasm_client.Errors.{
  decrypt_failed, chunk_unverified, map_unverified, not_a_data_map, root_unresolved,
}
use ant_wasm_client.Retrieval.{
  SelfEncryption, Retrieval, is_empty, collect, begin, required_addresses, supply, advance,
  is_complete, finish,
}

-- The documented promise of `verify_chunk`: it accepts only content with the hash that is asked
-- for, and returns it.
abbrev pub Verifies : {DataMap : Type 0} → Hashes → SelfEncryption DataMap → Type 0
Verifies hashes se =
    (address bytes chunk : Bytes)
    → se.verify_chunk address bytes ≡ ok chunk
    → (hashes.blake3 chunk ≡ address) × (chunk ≡ bytes)

abbrev pub Hashed : Hashes → Bytes × Bytes → Type 0
Hashed hashes (address, content) = hashes.blake3 content ≡ address

-- Every chunk in the cache has the hash that it stands under.
abbrev pub IsChecked : {DataMap : Type 0} → Hashes → Retrieval DataMap → Type 0
IsChecked hashes r = All (Hashed hashes) r.cache

module _ {DataMap : Type 0} (hashes : Hashes) (se : SelfEncryption DataMap)
    (v : Verifies hashes se) where
  -- If `verify_chunk` accepts only content with the hash asked for, a retrieval begins only on bytes
  -- with the hash of the address, and with every cached chunk having the hash it stands under.
  pub begin-IsChecked :
      (address bytes : Bytes) (r : Retrieval DataMap)
      → begin se address bytes ≡ ok r
      → (hashes.blake3 bytes ≡ address) × IsChecked hashes r
  unfolding begin
  begin-IsChecked address bytes r h =
      let (chunk, e, k) = >>=-eq-ok _ _ h in
      let (m, _, k') =
        >>=-eq-ok (map_err not_a_data_map (se.from_slice bytes))
          (λ m. ok (record { map = m; root_resolved = not (se.is_child m); cache = [] })) k in
      let (hashed, same) = v address bytes chunk (map_err-eq_ok map_unverified _ e) in
      (
        subst (λ c. hashes.blake3 c ≡ address) same hashed,
        subst (IsChecked hashes)
            (ok-injective (record { map = m; root_resolved = not (se.is_child m); cache = [] }) r
              k')
            tt,
      )

  -- If `verify_chunk` accepts only content with the hash asked for, `supply` keeps every cached chunk
  -- having the hash it stands under.
  pub supply-IsChecked :
      (address bytes : Bytes) (r r' : Retrieval DataMap)
      → IsChecked hashes r
      → supply se address bytes r ≡ ok r'
      → IsChecked hashes r'
  unfolding supply
  supply-IsChecked address bytes r r' c h =
      let (chunk, e, k) = >>=-eq-ok _ _ h in
      let (hashed, _) = v address bytes chunk (map_err-eq_ok (chunk_unverified address) _ e) in
      subst (IsChecked hashes) (ok-injective _ r' k)
        (insert-All (Hashed hashes) address chunk r.cache hashed c)

  pub advance-IsChecked :
      (r r' : Retrieval DataMap) → IsChecked hashes r → advance se r ≡ ok r' → IsChecked hashes r'
  unfolding advance
  advance-IsChecked r r' c h =
      elim (Bool-cases (r.root_resolved || not (is_empty (required_addresses se r)))) [
        | inl e ↦ subst (IsChecked hashes) (ok-injective r r' (rw e at h)) c
        | inr e ↦
            let (root, _, k) =
              >>=-eq-ok
                (map_err root_unresolved (se.get_root_data_map r.map (λ a. lookup a r.cache)))
                (λ m. ok (record r { map = m; root_resolved = true })) (rw e at h) in
            subst (IsChecked hashes)
              (ok-injective (record r { map = root; root_resolved = true }) r' k) c
      ]

-- The chunks that `collect` returns have the hashes of the addresses, in order.
pub collect-hashes :
    (hashes : Hashes) (cache : List (Bytes × Bytes)) (addresses chunks : List Bytes)
    → All (Hashed hashes) cache
    → collect cache addresses ≡ ok chunks
    → map hashes.blake3 chunks ≡ addresses
unfolding collect
collect-hashes hashes cache [] chunks c h = rw (← ok-injective [] chunks h)
collect-hashes hashes cache (a ∷ as_) chunks c h = elim (Option-cases (lookup a cache)) [
  | inl e ↦ ground arith
  | inr (content, e) ↦
      let (rest, e', k) =
        >>=-eq-ok (collect cache as_) (λ rest. ok (content ∷ rest)) (ground arith) in
      subst (λ cs. map hashes.blake3 cs ≡ a ∷ as_) (ok-injective (content ∷ rest) chunks k)
        (ap₂ ◌∷◌ (lookup-All (Hashed hashes) a content cache c e)
          (collect-hashes hashes cache as_ rest c e'))
]

-- If every cached chunk has the hash that it stands under, `finish` returns only what `decrypt` makes
-- of the data map and of chunks whose BLAKE3 hashes are exactly the addresses that the map lists, in
-- its order, and only once the retrieval is complete.
pub finish-decrypts :
    {DataMap : Type 0} (hashes : Hashes) (se : SelfEncryption DataMap) (r : Retrieval DataMap)
    (bytes : Bytes)
    → IsChecked hashes r
    → finish se r ≡ ok bytes
    → (chunks : List Bytes) × (is_complete se r ≡ true)
      × (map hashes.blake3 chunks ≡ se.infos r.map)
      × (se.decrypt r.map chunks ≡ ok bytes)
unfolding finish
finish-decrypts hashes se r bytes c h = elim (Bool-cases (is_complete se r)) [
  | inl e ↦
      let (chunks, e', k) =
        >>=-eq-ok (collect r.cache (se.infos r.map))
          (λ cs. map_err decrypt_failed (se.decrypt r.map cs)) (rw e at h) in
      (
        chunks,
        e,
        collect-hashes hashes r.cache (se.infos r.map) chunks c e',
        map_err-eq_ok decrypt_failed _ k,
      )
  | inr e ↦ ground arith
]
