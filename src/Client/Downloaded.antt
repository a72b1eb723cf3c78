-- ===== src/Client/Downloaded.antt =====
-- src/lib.rs: the bytes that `download` returns.
use ant_wasm_client.Base.{ℕ, ◌≡◌, refl, ◌⊎◌, inl, inr, false, some, List, map, All, Bytes, Text, ok}
use ant_wasm_client.Assoc.{lookup}
use ant_wasm_client.Env.{Env}
use ant_wasm_client.Retrieval.{SelfEncryption}
use ant_wasm_client.Retrieval.Checked.{Verifies, Hashed, finish-decrypts}
use ant_wasm_client.Client.{World, Client}
use ant_wasm_client.Client.Parse.{parse_address}
use ant_wasm_client.Client.Download.{download}
use ant_wasm_client.Client.Finished.{download_rounds-Finished, download-Begun}
use ant_wasm_client.Client.Restored.Steps.{
  Follows-IsKept, begin-Follows, begin-eq_ok, is_complete-resolved,
}

module _ {DataMap : Type 0} (env : Env) (world : World) (se : SelfEncryption DataMap) where
  -- The root of a data map: the map itself, if it is none of a shrunk one, or what is found for it
  -- with chunks that have the hashes that they are cached under.
  abbrev pub IsRootOf : DataMap → DataMap → Type 0
  IsRootOf first root =
      ((se.is_child first ≡ false) × (root ≡ first))
      ⊎ ((cache : List (Bytes × Bytes)) × All (Hashed env.hashes) cache
          × (se.get_root_data_map first (λ a. lookup a cache) ≡ ok root))

  -- Bytes that decryption made of the root of the data map at the address that a text names, and of
  -- chunks with the hashes that the root lists.
  pub record Decrypted (text : Text) (bytes : Bytes) : Type 0 where
    pub address : Bytes
    pub parsed : parse_address world.hex_decode text ≡ ok address
    pub map_bytes : Bytes
    pub map_hashed : env.hashes.blake3 map_bytes ≡ address
    pub map_chunk : Bytes
    pub map_verified : se.verify_chunk address map_bytes ≡ ok map_chunk
    pub first : DataMap
    pub decoded : se.from_slice map_bytes ≡ ok first
    pub root : DataMap
    pub rooted : IsRootOf first root
    pub chunks : List Bytes
    pub hashed : map env.hashes.blake3 chunks ≡ se.infos root
    pub decrypted : se.decrypt root chunks ≡ ok bytes

  module _ (schedules : ℕ → List ℕ) (v : Verifies env.hashes se) where
    -- Whatever the nodes serve and however the fetches interleave, if `verify_chunk` accepts only
    -- content with the hash asked for, `download` returns only what `decrypt` makes of a data map and
    -- of chunks whose BLAKE3 hashes are exactly the addresses that the map lists, in its order. That
    -- map is the root of the one which the bytes at the address decode to: bytes that have the address
    -- that the text names as their hash, and that `verify_chunk` accepted for it.
    pub download-Decrypted :
        (address_hex : Text) (s : Client) (bytes : Bytes)
        → (download env world se schedules address_hex s).0 ≡ ok (some bytes)
        → Decrypted address_hex bytes
    download-Decrypted address_hex s bytes h =
        let b = download-Begun env world se schedules address_hex s bytes h in
        let (chunk, first, verified, decoded, _) =
          begin-eq_ok se b.address b.map_bytes b.first b.begun in
        let kept =
          Follows-IsKept env.hashes se (IsRootOf first) first v
            (λ m cache c found. inr (cache, c, found)) in
        let start =
          begin-Follows env.hashes se (IsRootOf first) first v b.address b.map_bytes b.first b.begun
            decoded (λ flat. inl (flat, refl)) in
        let f =
          download_rounds-Finished env world se schedules _ kept 2 b.first b.now bytes start
            b.ran in
        let (chunks, complete, hashed, decrypted) =
          finish-decrypts env.hashes se f.last bytes f.holds.checked f.finished in
        record {
          address = b.address;
          parsed = b.parsed;
          map_bytes = b.map_bytes;
          map_hashed = b.hashed;
          map_chunk = chunk;
          map_verified = verified;
          first = first;
          decoded = decoded;
          root = f.last.map;
          rooted = f.holds.resolved (is_complete-resolved se f.last complete);
          chunks = chunks;
          hashed = hashed;
          decrypted = decrypted;
        }
