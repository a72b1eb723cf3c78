-- ===== src/Client/Uploaded.antt =====
-- src/lib.rs: what `upload` has done once it returns.
use ant_wasm_client.Base.{
  ◌≤◌, ◌≡◌, sym, List, [], ◌∷◌, All, length, Bytes, Text, ok, ok-injective, map_err-eq_ok,
}
use ant_wasm_client.Errors.{self_encryption_failed, shrink_failed, map_serialize_failed}
use ant_wasm_client.Protocol.{PeerConnectInfo}
use ant_wasm_client.Env.{Env}
use ant_wasm_client.Action.{bind-eq_ok}
use ant_wasm_client.Conn.{closest_peers}
use ant_wasm_client.Evm.Split.{close_group_size}
use ant_wasm_client.Client.{World, Client, on_connection}
use ant_wasm_client.Client.Store.{store_one}
use ant_wasm_client.Client.Upload.{Encryption, store_all, all_items, upload}
use ant_wasm_client.Client.Stored.{HeldBy, store_one-HeldBy}

module _ (env : Env) (world : World) {DataMap : Type 0} (encryption : Encryption DataMap) where
  -- The states of a client between the items of an upload.
  pub data Uploading (token vault : Bytes) (start : Client) : Client → Type 0 where
    begun : Uploading token vault start start
    stored :
        {s : Client} (item : Bytes × Bytes)
        → Uploading token vault start s
        → Uploading token vault start (store_one env world item.0 item.1 token vault s).1

  -- Four of the first seven entries that the bootstrap node answered have an item, which was stored
  -- behind those before it.
  pub record ItemHeld (token vault : Bytes) (start : Client) (item : Bytes × Bytes) : Type 0 where
    pub now : Client
    pub since : Uploading token vault start now
    pub peers : List PeerConnectInfo
    pub discovered : (on_connection now.bootstrap (closest_peers env item.0) now).0 ≡ ok peers
    pub enough : close_group_size ≤ length peers
    pub held : HeldBy env world item.0 item.1 now peers

  store_all-ItemHeld :
      (token vault : Bytes) (items : List (Bytes × Bytes)) (start s : Client)
      → Uploading token vault start s
      → (store_all env world token vault items s).0 ≡ ok tt
      → All (ItemHeld token vault start) items
  unfolding store_all
  store_all-ItemHeld token vault [] start s g h = tt
  store_all-ItemHeld token vault ((address, content) ∷ items) start s g h =
      let store = store_one env world address content token vault in
      let (u, ran, h₁) = bind-eq_ok store _ s h in
      let (peers, found, enough, held) =
        store_one-HeldBy env world address content token vault s ran in
      (
        record {
          now = s;
          since = g;
          peers = peers;
          discovered = found;
          enough = enough;
          held = held;
        },
        store_all-ItemHeld token vault items start (store s).1 (stored (address, content) g) h₁,
      )

  -- An upload that returned: what self-encryption made of the content, and that all of it is stored.
  pub record Uploaded (content : Bytes) (start : Client) (text : Text) : Type 0 where
    pub data_map : DataMap
    pub shrunk : DataMap
    pub chunks : List Bytes
    pub wrappers : List (Bytes × Bytes)
    pub map_bytes : Bytes
    pub encrypted : encryption.encrypt content ≡ ok (data_map, chunks)
    pub shrink : encryption.shrink_data_map data_map ≡ ok (shrunk, wrappers)
    pub serialized : encryption.to_vec shrunk ≡ ok map_bytes
    pub named : text ≡ world.hex_encode (env.hashes.blake3 map_bytes)
    pub token : Bytes
    pub vault : Bytes
    pub held : All (ItemHeld token vault start) (all_items env world chunks wrappers map_bytes)

  pub upload-Uploaded :
      (content : Bytes) (token vault : Text) (s : Client) (text : Text)
      → (upload env world encryption content token vault s).0 ≡ ok text
      → Uploaded content s text
  unfolding upload
  upload-Uploaded content token vault s text h =
      let (t, _, h₁) = bind-eq_ok _ _ s h in
      let (v, _, h₂) = bind-eq_ok _ _ s h₁ in
      let ((data_map, chunks), encrypted, h₃) = bind-eq_ok _ _ s h₂ in
      let ((shrunk, wrappers), shrink, h₄) = bind-eq_ok _ _ s h₃ in
      let (map_bytes, serialized, h₅) = bind-eq_ok _ _ s h₄ in
      let items = all_items env world chunks wrappers map_bytes in
      let (_, ran, h₆) = bind-eq_ok (store_all env world t v items) _ s h₅ in
      record {
        data_map = data_map;
        shrunk = shrunk;
        chunks = chunks;
        wrappers = wrappers;
        map_bytes = map_bytes;
        encrypted = map_err-eq_ok self_encryption_failed (encryption.encrypt content) encrypted;
        shrink = map_err-eq_ok shrink_failed (encryption.shrink_data_map data_map) shrink;
        serialized = map_err-eq_ok map_serialize_failed (encryption.to_vec shrunk) serialized;
        named = sym (ok-injective _ text h₆);
        token = t;
        vault = v;
        held = store_all-ItemHeld t v items s s begun ran;
      }
