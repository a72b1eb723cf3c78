-- ===== src/Payment/Examples.antt =====
-- src/payment.rs at a concrete quote and proof.
use ant_wasm_client.Base.{
  ◌≡◌, refl, true, some, List, [], ◌∷◌, Bytes, Text, ap, replicate, Result, ok, err, arith,
}
use ant_wasm_client.External.{Dsa, Format, ReadsBack}
use ant_wasm_client.Payment.{
  encode_proof, Quote, IsQuote, PaymentProof, serialize_single_node_proof, parse_single_node_proof,
}
use ant_wasm_client.Payment.Signing.{SameSigned, bytes_for_sig-injective}
use ant_wasm_client.Payment.Proofs.{parse-serialize_single_node_proof}

abbrev quote : Quote
quote = record {
  content = replicate 32 1;
  timestamp = record { secs = 1700000000; nanos = 5 };
  price = replicate 32 2;
  rewards_address = replicate 20 3;
  pub_key = [];
  signature = [];
  committed_key_count = 4;
  commitment_pin = some (replicate 32 5);
}

quote-IsQuote : IsQuote quote
quote-IsQuote = record {
  content = ground arith;
  secs = omega arith;
  nanos = omega arith;
  price = ground arith;
  rewards_address = ground arith;
  committed_key_count = omega arith;
  commitment_pin = ground arith;
}

bytes_for_sig-injective_example : SameSigned quote quote
bytes_for_sig-injective_example =
    bytes_for_sig-injective quote quote quote-IsQuote quote-IsQuote refl

abbrev any_key : Dsa
any_key = record { valid_key = λ _. true; verify = λ _ _ _ _. true }

abbrev proof : PaymentProof
proof = record {
  proof_of_payment = record { peer_quotes = (replicate 32 6, quote) ∷ [] };
  tx_hashes = replicate 32 7 ∷ [];
  commitment_sidecars = [];
}

-- A format of one value, which it writes as one byte.
abbrev one_value : Format PaymentProof
one_value = record { to_vec = λ _. ok (9 ∷ []); from_slice = λ _. ok proof }

-- A format that can write a proof of one hash and nothing else, as that hash.
write_hash : List (Bytes × Quote) → List Bytes → List Bytes → Result Bytes Text
write_hash [] (h ∷ []) [] = ok h
write_hash _ _ _ = err []

abbrev hash_proof : Bytes → PaymentProof
hash_proof h = record {
  proof_of_payment = record { peer_quotes = [] };
  tx_hashes = h ∷ [];
  commitment_sidecars = [];
}

write_hash_lem :
    (qs : List (Bytes × Quote)) (hs ss : List Bytes) (bytes : Bytes)
    → write_hash qs hs ss ≡ ok bytes
    → hash_proof bytes ≡ record {
      proof_of_payment = record { peer_quotes = qs };
      tx_hashes = hs;
      commitment_sidecars = ss;
    }
unfolding write_hash
write_hash_lem [] (h ∷ []) [] bytes e = ap hash_proof (cc)
write_hash_lem [] (h ∷ []) (s ∷ ss) bytes e = cc
write_hash_lem [] [] ss bytes e = cc
write_hash_lem [] (h ∷ i ∷ hs) ss bytes e = cc
write_hash_lem (q ∷ qs) hs ss bytes e = cc

abbrev hash_format : Format PaymentProof
hash_format = record {
  to_vec = λ p. write_hash p.proof_of_payment.peer_quotes p.tx_hashes p.commitment_sidecars;
  from_slice = λ bytes. ok (hash_proof bytes);
}

hash_format-ReadsBack : ReadsBack hash_format
hash_format-ReadsBack p bytes e =
    ap ok (write_hash_lem p.proof_of_payment.peer_quotes p.tx_hashes p.commitment_sidecars bytes e)

parse-serialize_single_node_proof_example :
    (p : PaymentProof) × (parse_single_node_proof hash_format (1 ∷ replicate 32 7) ≡ ok p)
    × (p.proof_of_payment.peer_quotes ≡ [])
    × (p.tx_hashes ≡ replicate 32 7 ∷ [])
    × (p.commitment_sidecars ≡ [])
unfolding serialize_single_node_proof encode_proof write_hash
parse-serialize_single_node_proof_example =
    parse-serialize_single_node_proof hash_format hash_format-ReadsBack [] (replicate 32 7) []
      (1 ∷ replicate 32 7) refl
