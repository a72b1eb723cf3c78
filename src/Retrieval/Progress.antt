-- ===== src/Retrieval/Progress.antt =====
-- src/retrieval.rs: what each call of the state machine adds.
use ant_wasm_client.Base.{
  ◌≡◌, refl, subst, true, ◌||◌, inl, inr, List, [], ◌∷◌, if◌then◌else◌, Bytes, bytes_eq,
  bytes_eq→eq, ok, map_err, arith, Bool-cases, >>=-eq-ok, ok-injective,
}
use ant_wasm_client.Assoc.{lookup, insert, contains_key, contains_key-lookup}
use ant_wasm_client.Errors.{decrypt_failed, root_unresolved, chunk_unverified}
use ant_wasm_client.Retrieval.{
  SelfEncryption, Retrieval, missing, is_empty, collect, required_addresses, supply, advance,
  is_complete, finish,
}

-- A list of addresses less every occurrence of one.
abbrev pub without : Bytes → List Bytes → List Bytes
without k [] = []
without k (a ∷ as_) = if bytes_eq k a then without k as_ else a ∷ without k as_

-- Nothing missing: the chunks are collected.
collect-nothing_missing :
    (cache : List (Bytes × Bytes)) (addresses : List Bytes)
    → is_empty (missing cache addresses) ≡ true
    → (chunks : List Bytes) × (collect cache addresses ≡ ok chunks)
unfolding missing collect
collect-nothing_missing cache [] h = ([], refl)
collect-nothing_missing cache (a ∷ as_) h = elim (Bool-cases (contains_key a cache)) [
  | inl e ↦
      let (chunks, c) = collect-nothing_missing cache as_ (ground (arith, h, e)) in
      let (content, l) = contains_key-lookup a cache e in (content ∷ chunks, ground (arith, l, c))
  | inr e ↦ ground arith
]

contains_key-insert_iff :
    (k j v : Bytes) (m : List (Bytes × Bytes))
    → contains_key j (insert k v m) ≡ (bytes_eq k j || contains_key j m)
unfolding contains_key insert
contains_key-insert_iff k j v [] = ground arith
contains_key-insert_iff k j v ((i, w) ∷ m) = elim (Bool-cases (bytes_eq i k)) [
  | inl e ↦ let same : i ≡ k = bytes_eq→eq i k e in rw (e, same) (ground arith)
  | inr e ↦ rw (e, contains_key-insert_iff k j v m) (ground arith)
]

missing-insert :
    (k v : Bytes) (m : List (Bytes × Bytes)) (addresses : List Bytes)
    → missing (insert k v m) addresses ≡ without k (missing m addresses)
unfolding missing
missing-insert k v m [] = refl
missing-insert k v m (a ∷ as_) =
    rw (contains_key-insert_iff k a v m, missing-insert k v m as_) (ground arith)

module _ {DataMap : Type 0} (se : SelfEncryption DataMap) where
  -- After a chunk is supplied, the required addresses are those of before less the chunk's: the
  -- others stay required, in their order.
  pub supply-required_addresses :
      (address bytes : Bytes) (r r' : Retrieval DataMap)
      → supply se address bytes r ≡ ok r'
      → required_addresses se r' ≡ without address (required_addresses se r)
  unfolding supply required_addresses
  supply-required_addresses address bytes r r' h =
      let (chunk, _, k) =
        >>=-eq-ok (map_err (chunk_unverified address) (se.verify_chunk address bytes))
          (λ c. ok (record r { cache = insert address c r.cache })) h in
      subst
        (λ r'.
          missing r'.cache (se.infos r'.map) ≡ without address (missing r.cache (se.infos r.map)))
        (ok-injective (record r { cache = insert address chunk r.cache }) r' k)
        (missing-insert address chunk r.cache (se.infos r.map))

  -- A retrieval that is complete has every chunk of its data map in the cache, so that `finish` is
  -- `decrypt` on them and never reports a chunk as missing.
  pub finish-is_complete :
      (r : Retrieval DataMap)
      → is_complete se r ≡ true
      → (chunks : List Bytes) × (collect r.cache (se.infos r.map) ≡ ok chunks)
        × (finish se r ≡ map_err decrypt_failed (se.decrypt r.map chunks))
  unfolding is_complete required_addresses finish
  finish-is_complete r h =
      let (chunks, c) = collect-nothing_missing r.cache (se.infos r.map) (ground arith) in
      (chunks, c, ground arith)

  -- When nothing is required, `advance` either reports that the root map was not found or leaves the
  -- root resolved: one call is enough, and the next one changes nothing.
  pub advance-resolves :
      (r r' : Retrieval DataMap)
      → is_empty (required_addresses se r) ≡ true
      → advance se r ≡ ok r'
      → (r'.root_resolved ≡ true) × (advance se r' ≡ ok r')
  unfolding advance
  advance-resolves r r' e h =
      let resolved : r'.root_resolved ≡ true = elim (Bool-cases r.root_resolved) [
        | inl q ↦ ground arith
        | inr q ↦
            let (root, _, k) =
              >>=-eq-ok
                (map_err root_unresolved (se.get_root_data_map r.map (λ a. lookup a r.cache)))
                (λ m. ok (record r { map = m; root_resolved = true })) (ground arith) in
            subst (λ s. s.root_resolved ≡ true)
              (ok-injective (record r { map = root; root_resolved = true }) r' k) refl
      ] in
      (resolved, rw resolved)
