-- ===== src/Retrieval/Examples.antt =====
-- src/retrieval.rs on a data map of two addresses, with a toy hash that keeps the bytes.
use ant_wasm_client.Base.{
  ◌≡◌, true, false, List, [], ◌∷◌, concat, Bytes, ok, err, if◌then◌else◌, bytes_eq, bytes_eq→eq,
  arith, sym, ◌∙◌,
}
use ant_wasm_client.External.{Hashes}
use ant_wasm_client.Retrieval.{SelfEncryption, Retrieval}
use ant_wasm_client.Retrieval.Checked.{Verifies}

abbrev hashes : Hashes
hashes = record { blake3 = λ b. b; derive_key = λ t ss. ss; keccak256 = λ b. b }

-- A data map is its list of addresses, the bytes `[1]` are the map of `[6]` and `[7]`, and
-- decryption puts the chunks together.
abbrev se : SelfEncryption (List Bytes)
se = record {
  is_child = λ m. false;
  infos = λ m. m;
  verify_chunk = λ address bytes. if bytes_eq bytes address then ok bytes else err [];
  from_slice = λ bytes. ok ((6 ∷ []) ∷ (7 ∷ []) ∷ []);
  get_root_data_map = λ m fetch. ok m;
  decrypt = λ m chunks. ok (concat chunks);
}

verified : (a b c : Bytes) → se.verify_chunk a b ≡ ok c → (c ≡ a) × (c ≡ b)
verified a b c h =
    let same : b ≡ a = bytes_eq→eq b a (ground arith) in
    let kept : b ≡ c = ground arith in (sym kept ∙ same, sym kept)

se-Verifies : Verifies hashes se
se-Verifies a b c h = verified a b c h

abbrev begun : Retrieval (List Bytes)
begun = record { map = (6 ∷ []) ∷ (7 ∷ []) ∷ []; root_resolved = true; cache = [] }

abbrev half : Retrieval (List Bytes)
half = record begun { cache = (6 ∷ [], 6 ∷ []) ∷ [] }

abbrev full : Retrieval (List Bytes)
full = record begun { cache = (6 ∷ [], 6 ∷ []) ∷ (7 ∷ [], 7 ∷ []) ∷ [] }
