-- ===== src/Payment/Proofs.antt =====
-- src/payment.rs: the tagged single-node proof.
use ant_wasm_client.Base.{◌≡◌, ◌↔◌, refl, ap, List, [], ◌∷◌, Bytes, ok, map_err-eq_ok, arith, ℕ}
use ant_wasm_client.External.{Format, ReadsBack}
use ant_wasm_client.Payment.{
  Quote, PaymentProof, decode, encode_proof, serialize_single_node_proof, parse_single_node_proof,
}

module _ (rmp : Format PaymentProof) where
  parse_tagged :
      (tag : ℕ) (body : Bytes) (proof : PaymentProof)
      → parse_single_node_proof rmp (tag ∷ body) ≡ ok proof
      → (tag ≡ 0x01) × (rmp.from_slice body ≡ ok proof)
  unfolding parse_single_node_proof
  parse_tagged tag body proof h =
      (ground arith, map_err-eq_ok decode (rmp.from_slice body) (ground arith))

  parse_taken :
      (bytes : Bytes) (proof : PaymentProof)
      → parse_single_node_proof rmp bytes ≡ ok proof
      → (body : Bytes) × (bytes ≡ 0x01 ∷ body) × (rmp.from_slice body ≡ ok proof)
  parse_taken [] proof h = unfold parse_single_node_proof in cc
  parse_taken (tag ∷ body) proof h =
      let (e, read) = parse_tagged tag body proof h in (body, ap (λ t. t ∷ body) e, read)

  parse_back :
      (body : Bytes) (proof : PaymentProof)
      → rmp.from_slice body ≡ ok proof
      → parse_single_node_proof rmp (0x01 ∷ body) ≡ ok proof
  unfolding parse_single_node_proof
  parse_back body proof read = rw read

  -- `parse_single_node_proof` succeeds exactly on the tag byte 0x01 followed by a body that decodes
  -- to the proof it returns.
  pub parse_single_node_proof_iff :
      (bytes : Bytes) (proof : PaymentProof)
      → (parse_single_node_proof rmp bytes ≡ ok proof)
        ↔ ((body : Bytes) × (bytes ≡ 0x01 ∷ body) × (rmp.from_slice body ≡ ok proof))
  parse_single_node_proof_iff bytes proof =
      (parse_taken bytes proof, λ (body, e, read). rw e (parse_back body proof read))

  encode_proof-eq_ok :
      (proof : PaymentProof) (bytes : Bytes)
      → encode_proof rmp proof ≡ ok bytes
      → (body : Bytes) × (bytes ≡ 0x01 ∷ body) × (rmp.to_vec proof ≡ ok body)
  unfolding encode_proof
  encode_proof-eq_ok proof bytes h = ground arith

  -- If MessagePack reads back what it wrote, a node that parses the bytes of
  -- `serialize_single_node_proof` gets the given peer quotes in their order, the one transaction
  -- hash, and the given sidecars.
  pub parse-serialize_single_node_proof :
      ReadsBack rmp
      → (peer_quotes : List (Bytes × Quote)) (tx_hash : Bytes) (sidecars : List Bytes)
        (bytes : Bytes)
      → serialize_single_node_proof rmp peer_quotes tx_hash sidecars ≡ ok bytes
      → (proof : PaymentProof) × (parse_single_node_proof rmp bytes ≡ ok proof)
        × (proof.proof_of_payment.peer_quotes ≡ peer_quotes)
        × (proof.tx_hashes ≡ tx_hash ∷ [])
        × (proof.commitment_sidecars ≡ sidecars)
  unfolding serialize_single_node_proof
  parse-serialize_single_node_proof back peer_quotes tx_hash sidecars bytes h =
      let proof : PaymentProof = record {
        proof_of_payment = record { peer_quotes = peer_quotes };
        tx_hashes = tx_hash ∷ [];
        commitment_sidecars = sidecars;
      } in
      let (body, e, written) = encode_proof-eq_ok proof bytes h in
      (
        proof,
        (parse_single_node_proof_iff bytes proof).1 (body, e, back proof body written),
        refl,
        refl,
        refl,
      )
