-- ===== src/Retrieval.antt =====
-- src/retrieval.rs: the retrieval state machine. The crate `self_encryption` is a parameter, over
-- its own type of data maps.
pub mod Checked
pub mod Progress
mod Examples
use ant_wasm_client.Base.{
  ℕ, length, Bool, true, false, not, ◌&&◌, ◌||◌, Option, none, some, List, [], ◌∷◌, if◌then◌else◌,
  Bytes, Text, Result, ok, err, map_err, ◌>>=◌, ◌>>◌,
}
use ant_wasm_client.Assoc.{lookup, insert, contains_key}
use ant_wasm_client.Errors.{
  Fallible, map_unverified, not_a_data_map, root_unresolved, decrypt_failed, chunk_unverified,
  cannot_finish, missing_chunk,
}

-- `infos` are the `dst_hash` fields. `verify_chunk` returns the content of the chunk that it makes.
-- `get_root_data_map` asks for wrapper chunks by address and may be refused one; the argument
-- `none` is the client's "missing wrapper chunk".
pub record SelfEncryption (DataMap : Type 0) : Type 0 where
  pub is_child : DataMap → Bool
  pub infos : DataMap → List Bytes
  pub verify_chunk : Bytes → Bytes → Result Bytes Text
  pub from_slice : Bytes → Result DataMap Text
  pub get_root_data_map : DataMap → (Bytes → Option Bytes) → Result DataMap Text
  pub decrypt : DataMap → List Bytes → Result Bytes Text

pub record Retrieval (DataMap : Type 0) : Type 0 where
  pub map : DataMap
  pub root_resolved : Bool
  pub cache : List (Bytes × Bytes)

-- The addresses that the cache lacks, in order.
unfoldable pub missing : List (Bytes × Bytes) → List Bytes → List Bytes
missing cache [] = []
missing cache (a ∷ as_) = if contains_key a cache then missing cache as_ else a ∷ missing cache as_

abbrev pub is_empty : List Bytes → Bool
is_empty [] = true
is_empty (x ∷ xs) = false

-- The cached chunks of some addresses, or the first that is missing.
unfoldable pub collect : List (Bytes × Bytes) → List Bytes → Fallible (List Bytes)
collect cache [] = ok []
collect cache (a ∷ as_) = elim (lookup a cache) [
  | none ↦ err (missing_chunk a)
  | some content ↦ (do rest ← collect cache as_; ok (content ∷ rest))
]

module _ {DataMap : Type 0} (se : SelfEncryption DataMap) where
  unfoldable pub begin : Bytes → Bytes → Fallible (Retrieval DataMap)
  begin address bytes = do
    _ ← map_err map_unverified (se.verify_chunk address bytes)
    data_map ← map_err not_a_data_map (se.from_slice bytes)
    ok (record { map = data_map; root_resolved = not (se.is_child data_map); cache = [] })

  unfoldable pub required_addresses : Retrieval DataMap → List Bytes
  required_addresses r = missing r.cache (se.infos r.map)

  unfoldable pub supply : Bytes → Bytes → Retrieval DataMap → Fallible (Retrieval DataMap)
  supply address bytes r = do
    chunk ← map_err (chunk_unverified address) (se.verify_chunk address bytes)
    ok (record r { cache = insert address chunk r.cache })

  unfoldable pub advance : Retrieval DataMap → Fallible (Retrieval DataMap)
  unfolding required_addresses
  advance r = if r.root_resolved || not (is_empty (required_addresses r)) then ok r else (do
    root ← map_err root_unresolved (se.get_root_data_map r.map (λ a. lookup a r.cache))
    ok (record r { map = root; root_resolved = true }))

  unfoldable pub is_complete : Retrieval DataMap → Bool
  unfolding required_addresses
  is_complete r = r.root_resolved && is_empty (required_addresses r)

  unfoldable pub finish : Retrieval DataMap → Fallible Bytes
  unfolding is_complete collect
  finish r =
      if is_complete r
      then (do
        chunks ← collect r.cache (se.infos r.map)
        map_err decrypt_failed (se.decrypt r.map chunks))
      else err cannot_finish

  unfoldable pub chunk_count : Retrieval DataMap → ℕ
  chunk_count r = length (se.infos r.map)
