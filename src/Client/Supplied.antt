-- ===== src/Client/Supplied.antt =====
-- src/lib.rs: the chunks of a round that are all served.
use ant_wasm_client.Base.{
  ℕ, suc, ◌+◌, ◌≡◌, refl, ap, ◌∙◌, List, [], ◌∷◌, length, All, Bytes, ok, ok-injective, err, arith,
}
use ant_wasm_client.Assoc.{insert}
use ant_wasm_client.Errors.{Fallible}
use ant_wasm_client.Env.{Env}
use ant_wasm_client.Action.{bind-of_ok}
use ant_wasm_client.Retrieval.{SelfEncryption, Retrieval, supply}
use ant_wasm_client.Retrieval.Checked.{Verifies, IsChecked, supply-IsChecked}
use ant_wasm_client.Client.{World, Client}
use ant_wasm_client.Client.Download.{count_fetched, supply_all}

pub count_fetched_lem :
    (s : Client) → count_fetched s ≡ (ok tt, record s { chunks_fetched = suc s.chunks_fetched })
unfolding count_fetched
count_fetched_lem s = refl

module _ {DataMap : Type 0} (env : Env) (world : World) (se : SelfEncryption DataMap)
    (schedules : ℕ → List ℕ) (v : Verifies env.hashes se) where
  -- A fetched chunk that verifies.
  abbrev pub IsVerified : Bytes × Fallible Bytes → Type 0
  IsVerified p =
      (bytes : Bytes) × (chunk : Bytes) × (p.1 ≡ ok bytes) × (se.verify_chunk p.0 bytes ≡ ok chunk)

  -- What supplying some chunks leaves of the retrieval and of the client.
  pub record Supplied (n : ℕ) (r : Retrieval DataMap) (s : Client)
      (outcome : Fallible (Retrieval DataMap) × Client) : Type 0 where
    pub r' : Retrieval DataMap
    pub s' : Client
    pub done : outcome ≡ (ok r', s')
    pub kept_map : r'.map ≡ r.map
    pub kept_root : r'.root_resolved ≡ r.root_resolved
    pub checked : IsChecked env.hashes r'
    pub counted : s'.chunks_fetched ≡ n + s.chunks_fetched

  supply-verified :
      (address bytes chunk : Bytes) (r : Retrieval DataMap)
      → se.verify_chunk address bytes ≡ ok chunk
      → supply se address bytes r ≡ ok (record r { cache = insert address chunk r.cache })
  unfolding supply
  supply-verified address bytes chunk r h = rw h refl

  pub supply_all-Supplied :
      (fetched : List (Bytes × Fallible Bytes)) (r : Retrieval DataMap) (s : Client)
      → All IsVerified fetched
      → IsChecked env.hashes r
      → Supplied (length fetched) r s (supply_all env world se schedules fetched r s)
  unfolding supply_all
  supply_all-Supplied [] r s h c = record {
    r' = r;
    s' = s;
    done = refl;
    kept_map = refl;
    kept_root = refl;
    checked = c;
    counted = omega arith;
  }
  supply_all-Supplied ((address, err e) ∷ fetched) r s ((bytes, chunk, same, h), hs) c = absurd (cc)
  supply_all-Supplied ((address, ok got) ∷ fetched) r s ((bytes, chunk, same, h), hs) c =
      let equal : got ≡ bytes = ok-injective got bytes same in
      let supplied = supply-verified address got chunk r (rw equal h) in
      let r₁ = record r { cache = insert address chunk r.cache } in
      let s₁ = record s { chunks_fetched = suc s.chunks_fetched } in
      let rest =
        supply_all-Supplied fetched r₁ s₁ hs
          (supply-IsChecked env.hashes se v address got r r₁ c supplied) in
      record {
        r' = rest.r';
        s' = rest.s';
        done =
            bind-of_ok _ _ s s r₁ (ap (λ r. (r, s)) supplied)
            ∙ bind-of_ok _ _ s s₁ tt (count_fetched_lem s)
            ∙ rest.done;
        kept_map = rest.kept_map;
        kept_root = rest.kept_root;
        checked = rest.checked;
        counted = omega (arith, rest.counted);
      }
