-- ===== src/Client/Returned.antt =====
-- src/lib.rs: `download` of what `upload` stored, from nodes that serve it.
use ant_wasm_client.Base.{
  ℕ, ◌≡◌, sym, ap, ◌∙◌, ◌⊎◌, inl, inr, subst, Option, some, List, Bytes, Text, ok, ok-injective,
  map_err,
}
use mathlib.Core.Path.{ap₂}
use ant_wasm_client.Errors.{Fallible, decrypt_failed}
use ant_wasm_client.Env.{Env}
use ant_wasm_client.Texts.Trimming.{IsPlain}
use ant_wasm_client.Retrieval.{SelfEncryption}
use ant_wasm_client.Retrieval.Checked.{Verifies}
use ant_wasm_client.Client.{World, Client, get_direct}
use ant_wasm_client.Client.Parse.{parse_address}
use ant_wasm_client.Assoc.{lookup}
use ant_wasm_client.Client.Download.{download}
use ant_wasm_client.Client.Upload.{Encryption, upload}
use ant_wasm_client.Client.Uploaded.{Uploaded, upload-Uploaded}
use ant_wasm_client.Client.Fetched.{get_direct-hash}
use ant_wasm_client.Client.Complete.{whole, Decrypts}
use ant_wasm_client.Client.Served.{Serves, download-Serves}
use ant_wasm_client.Client.Shrunk.{ServesShrunk, cached-IsChecked, download-ServesShrunk}
use ant_wasm_client.Client.Restored.Laws.{IsCollisionFree, Inverts, HexReadsBack, map-injective}
use ant_wasm_client.Client.Restored.{parse_address-decoded, resolves-wrapped}

module _ {DataMap : Type 0} (env : Env) (up down : World) (se : SelfEncryption DataMap)
    (encryption : Encryption DataMap) (schedules : ℕ → List ℕ) (free : IsCollisionFree env.hashes)
    (v : Verifies env.hashes se) (inv : Inverts env.hashes se encryption)
    (hex : HexReadsBack up down) where
  -- What is served at an address: a map of one level with its chunks, or a shrunk map with the
  -- chunks that it lists and those of the root map found in them.
  abbrev pub ServesFile : Text → Client → Type 0
  ServesFile text s =
      ((m : DataMap) × (fetched : List (Bytes × Fallible Bytes)) × Serves env down se schedules v
          text s m fetched)
      ⊎ ((m : DataMap) × (root : DataMap) × (wrappers : List (Bytes × Fallible Bytes))
          × (chunks : List (Bytes × Fallible Bytes)) × ServesShrunk env down se schedules v text s m
              root wrappers chunks)

  module _ (content : Bytes) (token vault text : Text) (uploader : Client)
      (u : Uploaded env up encryption content uploader text) where
    -- The map that is served at the address is the one that was uploaded.
    served-shrunk :
        (address bytes : Bytes) (m : DataMap) (s : Client)
        → parse_address down.hex_decode text ≡ ok address
        → (get_direct env down address s).0 ≡ ok bytes
        → se.from_slice bytes ≡ ok m
        → m ≡ u.shrunk
    served-shrunk address bytes m s parsed served decoded =
        let named =
          parse_address-decoded down.hex_decode text (env.hashes.blake3 u.map_bytes) address
            (subst IsPlain (sym u.named) (hex.plain _)) (ap down.hex_decode u.named ∙ hex.decoded _)
            parsed in
        let same =
          free bytes u.map_bytes (get_direct-hash env down address s bytes served ∙ named) in
        ok-injective m u.shrunk
          (sym decoded ∙ ap se.from_slice same ∙ inv.read_back u.shrunk u.map_bytes u.serialized)

    -- What `decrypt` makes of the root map and of its chunks is the content.
    Decrypts-content :
        (m : DataMap) (outcome : Fallible (Option Bytes))
        → m ≡ u.data_map
        → Decrypts env down se schedules v m outcome
        → outcome ≡ ok (some content)
    Decrypts-content m outcome is_root d =
        let chunks =
          map-injective env.hashes d.chunks u.chunks free
            (d.hashed ∙ ap se.infos is_root ∙ inv.listed content u.data_map u.chunks u.encrypted) in
        d.decrypted
        ∙ ap (λ r. whole (map_err decrypt_failed r))
            (ap₂ se.decrypt is_root chunks ∙ inv.decrypted content u.data_map u.chunks u.encrypted)

    ServesFile-content :
        (downloader : Client)
        → ServesFile text downloader
        → (download env down se schedules text downloader).0 ≡ ok (some content)
    ServesFile-content downloader (inl (m, fetched, h)) =
        let is_shrunk = served-shrunk h.address h.map_bytes m _ h.parsed h.map_served h.decoded in
        let is_root =
          is_shrunk
          ∙ inv.unshrunk u.data_map u.shrunk u.wrappers u.shrink
              (ap se.is_child (sym is_shrunk) ∙ h.one_level) in
        let (d, _) = download-Serves env down se schedules v text downloader m fetched h in
        Decrypts-content m _ is_root d
    ServesFile-content downloader (inr (m, root, wrappers, chunks, h)) =
        let is_shrunk = served-shrunk h.address h.map_bytes m _ h.parsed h.map_served h.decoded in
        let checked =
          cached-IsChecked env down se schedules v text downloader m root wrappers chunks h in
        let is_root =
          resolves-wrapped env.hashes se encryption free inv content u.data_map u.shrunk u.chunks
            u.wrappers u.encrypted u.shrink root h.cached.cache checked
            (ap (λ m. se.get_root_data_map m (λ a. lookup a h.cached.cache)) (sym is_shrunk)
              ∙ h.resolved) in
        let (d, _) =
          download-ServesShrunk env down se schedules v text downloader m root wrappers chunks h in
        Decrypts-content root _ is_root d

  -- A file that was stored comes back: when `upload` returned an address, and the fetches of the
  -- map at this address, of its chunks and, if the map is a shrunk one, of the chunks of the root
  -- map found in those all return bytes that verify, `download` of the address returns the content,
  -- under the conditions on the hash, on the self-encryption and on the hexadecimal text.
  pub download-Serves-upload :
      (content : Bytes) (token vault text : Text) (uploader downloader : Client)
      → (upload env up encryption content token vault uploader).0 ≡ ok text
      → ServesFile text downloader
      → (download env down se schedules text downloader).0 ≡ ok (some content)
  download-Serves-upload content token vault text uploader downloader put h =
      let u = upload-Uploaded env up encryption content token vault uploader text put in
      ServesFile-content content token vault text uploader u downloader h
