-- ===== src/Client/Restored.antt =====
-- src/lib.rs: `download` at the address that `upload` returned.
pub mod Laws
pub mod Steps
use ant_wasm_client.Base.{
  ℕ, ◌≡◌, sym, ap, ◌∙◌, subst, some, List, map, All, Bytes, Text, Result, ok, ok-injective, arith,
}
use mathlib.Core.Path.{ap₂}
use ant_wasm_client.Assoc.{lookup}
use ant_wasm_client.External.{Hashes}
use ant_wasm_client.Env.{Env}
use ant_wasm_client.Texts.Trimming.{IsPlain, trim-IsPlain}
use ant_wasm_client.Retrieval.{SelfEncryption, Retrieval, finish}
use ant_wasm_client.Retrieval.Checked.{Verifies, Hashed, finish-decrypts}
use ant_wasm_client.Client.{World, Client}
use ant_wasm_client.Client.Parse.{parse_address, fixed}
use ant_wasm_client.Client.Download.{download}
use ant_wasm_client.Client.Upload.{Encryption, upload}
use ant_wasm_client.Client.Uploaded.{upload-Uploaded}
use ant_wasm_client.Client.Finished.{download_rounds-Finished, download-Begun}
use ant_wasm_client.Client.Restored.Laws.{IsCollisionFree, Inverts, HexReadsBack, map-injective}
use ant_wasm_client.Client.Restored.Steps.{
  Answers-cache, is_complete-resolved, Follows, Follows-IsKept, begin-Follows,
}

module _ {DataMap : Type 0} (hashes : Hashes) (se : SelfEncryption DataMap)
    (encryption : Encryption DataMap) (free : IsCollisionFree hashes)
    (inv : Inverts hashes se encryption) where
  -- With checked chunks a shrunk map resolves to nothing but the map that was shrunk.
  pub resolves-wrapped :
      (content : Bytes) (m m' : DataMap) (chunks : List Bytes) (wrappers : List (Bytes × Bytes))
      → encryption.encrypt content ≡ ok (m, chunks)
      → encryption.shrink_data_map m ≡ ok (m', wrappers)
      → (root : DataMap) (cache : List (Bytes × Bytes)) → All (Hashed hashes) cache
      → se.get_root_data_map m' (λ a. lookup a cache) ≡ ok root
      → root ≡ m
  resolves-wrapped content m m' chunks wrappers encrypted shrink root cache c =
      inv.resolves content m m' root chunks wrappers (λ a. lookup a cache) encrypted shrink
        (Answers-cache hashes cache wrappers free c (inv.wrapped m m' wrappers shrink))

  finish-content :
      (content bytes : Bytes) (root shrunk : DataMap) (chunks : List Bytes) (r : Retrieval DataMap)
      → Follows hashes se (λ m. m ≡ root) shrunk r
      → finish se r ≡ ok bytes
      → encryption.encrypt content ≡ ok (root, chunks)
      → bytes ≡ content
  finish-content content bytes root shrunk chunks r f finished encrypted =
      let (found, complete, hashed, decrypted) =
        finish-decrypts hashes se r bytes f.checked finished in
      let at_root = f.resolved (is_complete-resolved se r complete) in
      let same =
        map-injective hashes found chunks free
          (hashed ∙ ap se.infos at_root ∙ inv.listed content root chunks encrypted) in
      ok-injective bytes content
        (sym decrypted ∙ ap₂ se.decrypt at_root same ∙ inv.decrypted content root chunks encrypted)

-- A text that `download` reads as an address is the one that it decodes to.
pub parse_address-decoded :
    (decode : Text → Result Bytes Text) (text : Text) (bytes address : Bytes)
    → IsPlain text
    → decode text ≡ ok bytes
    → parse_address decode text ≡ ok address
    → address ≡ bytes
unfolding parse_address fixed
parse_address-decoded decode text bytes address p d h = ground (arith, trim-IsPlain text p)

-- What was uploaded is what is downloaded: when `upload` returns an address, a `download` of it that
-- returns gives exactly the content, by any client, through any page and from any state, whatever
-- the nodes serve and however the fetches interleave, for a collision-free hash, a `verify_chunk`
-- that accepts only content with the hash asked for, a self-encryption whose two directions invert
-- each other and a hexadecimal text that is read back.
pub download-upload :
    {DataMap : Type 0} (env : Env) (up down : World) (se : SelfEncryption DataMap)
    (encryption : Encryption DataMap) (schedules : ℕ → List ℕ)
    → IsCollisionFree env.hashes
    → Verifies env.hashes se
    → Inverts env.hashes se encryption
    → HexReadsBack up down
    → (content downloaded : Bytes) (token vault text : Text) (uploader downloader : Client)
    → (upload env up encryption content token vault uploader).0 ≡ ok text
    → (download env down se schedules text downloader).0 ≡ ok (some downloaded)
    → downloaded ≡ content
download-upload {DataMap} env up down se encryption schedules free v inv hex content downloaded
      token vault text uploader downloader put got =
    let u = upload-Uploaded env up encryption content token vault uploader text put in
    let b = download-Begun env down se schedules text downloader downloaded got in
    let named =
      parse_address-decoded down.hex_decode text (env.hashes.blake3 u.map_bytes) b.address
        (subst IsPlain (sym u.named) (hex.plain _)) (ap down.hex_decode u.named ∙ hex.decoded _)
        b.parsed in
    let same = free b.map_bytes u.map_bytes (b.hashed ∙ named) in
    let kept =
      Follows-IsKept env.hashes se (λ m. m ≡ u.data_map) u.shrunk v
        (resolves-wrapped env.hashes se encryption free inv content u.data_map u.shrunk u.chunks
          u.wrappers u.encrypted u.shrink) in
    let start =
      begin-Follows env.hashes se (λ m. m ≡ u.data_map) u.shrunk v b.address b.map_bytes b.first
        b.begun (ap se.from_slice same ∙ inv.read_back u.shrunk u.map_bytes u.serialized)
        (inv.unshrunk u.data_map u.shrunk u.wrappers u.shrink) in
    let f =
      download_rounds-Finished env down se schedules _ kept 2 b.first b.now downloaded start
        b.ran in
    finish-content env.hashes se encryption free inv content downloaded u.data_map u.shrunk u.chunks
      f.last f.holds f.finished u.encrypted
