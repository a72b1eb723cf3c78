-- ===== src/Client/Restored/Laws.antt =====
-- What an upload and a download that meet rely on of the code they call.
use ant_wasm_client.Base.{
  ◌≡◌, refl, ◌⊎◌, false, Option, none, some, List, [], ◌∷◌, map, All, Bytes, ok,
}
use mathlib.Core.Path.{ap₂}
use ant_wasm_client.External.{Hashes}
use ant_wasm_client.Texts.Trimming.{IsPlain}
use ant_wasm_client.Retrieval.{SelfEncryption}
use ant_wasm_client.Retrieval.Checked.{Hashed}
use ant_wasm_client.Client.{World}
use ant_wasm_client.Client.Upload.{Encryption}

-- The documented promise of a cryptographic hash: no two byte strings have one hash.
abbrev pub IsCollisionFree : Hashes → Type 0
IsCollisionFree hashes = (x y : Bytes) → hashes.blake3 x ≡ hashes.blake3 y → x ≡ y

-- What a map of addresses answers at the address of a chunk: nothing, or that chunk.
abbrev pub Answers : (Bytes → Option Bytes) → Bytes × Bytes → Type 0
Answers fetch (address, content) = (fetch address ≡ none) ⊎ (fetch address ≡ some content)

-- What self_encryption documents of the two directions: decryption of the chunks of a root map gives
-- the content, a serialized map is read back, a map that was not shrunk is what it was, and one that
-- an encryption gave resolves to itself from its wrapper chunks once it was shrunk.
pub record Inverts {DataMap : Type 0} (hashes : Hashes) (se : SelfEncryption DataMap)
    (encryption : Encryption DataMap) : Type 0 where
  pub listed :
      (content : Bytes) (m : DataMap) (chunks : List Bytes)
      → encryption.encrypt content ≡ ok (m, chunks)
      → se.infos m ≡ map hashes.blake3 chunks
  pub decrypted :
      (content : Bytes) (m : DataMap) (chunks : List Bytes)
      → encryption.encrypt content ≡ ok (m, chunks)
      → se.decrypt m chunks ≡ ok content
  pub read_back :
      (m : DataMap) (bytes : Bytes) → encryption.to_vec m ≡ ok bytes → se.from_slice bytes ≡ ok m
  pub wrapped :
      (m m' : DataMap) (wrappers : List (Bytes × Bytes))
      → encryption.shrink_data_map m ≡ ok (m', wrappers)
      → All (Hashed hashes) wrappers
  pub unshrunk :
      (m m' : DataMap) (wrappers : List (Bytes × Bytes))
      → encryption.shrink_data_map m ≡ ok (m', wrappers)
      → se.is_child m' ≡ false
      → m' ≡ m
  pub resolves :
      (content : Bytes) (m m' root : DataMap) (chunks : List Bytes)
      (wrappers : List (Bytes × Bytes)) (fetch : Bytes → Option Bytes)
      → encryption.encrypt content ≡ ok (m, chunks)
      → encryption.shrink_data_map m ≡ ok (m', wrappers)
      → All (Answers fetch) wrappers
      → se.get_root_data_map m' fetch ≡ ok root
      → root ≡ m

-- What the crate `hex` documents: a text of hexadecimal digits, which decodes to the bytes.
pub record HexReadsBack (up down : World) : Type 0 where
  pub plain : (bytes : Bytes) → IsPlain (up.hex_encode bytes)
  pub decoded : (bytes : Bytes) → down.hex_decode (up.hex_encode bytes) ≡ ok bytes

pub map-injective :
    (hashes : Hashes) (xs ys : List Bytes)
    → IsCollisionFree hashes
    → map hashes.blake3 xs ≡ map hashes.blake3 ys
    → xs ≡ ys
map-injective hashes [] [] free h = refl
map-injective hashes [] (y ∷ ys) free h = cc
map-injective hashes (x ∷ xs) [] free h = cc
map-injective hashes (x ∷ xs) (y ∷ ys) free h =
    ap₂ ◌∷◌ (free x y (cc)) (map-injective hashes xs ys free (cc))
