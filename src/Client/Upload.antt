-- ===== src/Client/Upload.antt =====
-- src/lib.rs: `upload`. What it uses of self_encryption is a parameter: `shrink_data_map` answers the
-- shrunk map and the wrapper chunks that it handed to the callback, in order.
use ant_wasm_client.Base.{List, [], ◌∷◌, ◌++◌, map, Bytes, Text, Result, map_err}
use ant_wasm_client.Errors.{self_encryption_failed, shrink_failed, map_serialize_failed}
use ant_wasm_client.Env.{Env}
use ant_wasm_client.Action.{Action, pure, lift, ◌>>=◌}
use ant_wasm_client.Client.{World, Client}
use ant_wasm_client.Client.Parse.{parse_eth_address}
use ant_wasm_client.Client.Store.{store_one}

pub record Encryption (DataMap : Type 0) : Type 0 where
  pub encrypt : Bytes → Result (DataMap × List Bytes) Text
  pub shrink_data_map : DataMap → Result (DataMap × List (Bytes × Bytes)) Text
  pub to_vec : DataMap → Result Bytes Text

module _ (env : Env) (world : World) where
  -- The `for` over the items.
  unfoldable pub store_all : Bytes → Bytes → List (Bytes × Bytes) → Action Client (Unit {0})
  store_all token vault [] = pure tt
  store_all token vault ((address, content) ∷ items) = do
    _ ← store_one env world address content token vault
    store_all token vault items

  -- What is stored beside the data map, in order: the content chunks, then the wrapper chunks.
  abbrev pub chunk_items : List Bytes → List (Bytes × Bytes)
  chunk_items chunks = map (λ content. (env.hashes.blake3 content, content)) chunks

  abbrev pub all_items : List Bytes → List (Bytes × Bytes) → Bytes → List (Bytes × Bytes)
  all_items chunks wrappers map_bytes =
      chunk_items chunks ++ (wrappers ++ ((env.hashes.blake3 map_bytes, map_bytes) ∷ []))

  unfoldable pub upload :
      {DataMap : Type 0} → Encryption DataMap → Bytes → Text → Text → Action Client Text
  unfolding store_all
  upload encryption content token_addr_hex vault_addr_hex = do
    token ← lift (parse_eth_address world.hex_decode token_addr_hex)
    vault ← lift (parse_eth_address world.hex_decode vault_addr_hex)
    (data_map, chunks) ← lift (map_err self_encryption_failed (encryption.encrypt content))
    (shrunk, wrappers) ← lift (map_err shrink_failed (encryption.shrink_data_map data_map))
    map_bytes ← lift (map_err map_serialize_failed (encryption.to_vec shrunk))
    _ ← store_all token vault (all_items chunks wrappers map_bytes)
    pure (world.hex_encode (env.hashes.blake3 map_bytes))
