-- ===== src/Payment.antt =====
-- src/payment.rs: the mirrored payment types and the functions on them. MessagePack (`rmp_serde`)
-- is a `Format`, Keccak-256 and ML-DSA-65 are parameters.
pub mod Signing
pub mod Proofs
pub mod Serde
pub mod Display
mod Examples
use mathlib.Core.List.{reverse}
use ant_wasm_client.Base.{
  ℕ, ◌<◌, ◌^◌, Bool, true, false, Option, none, some, List, [], ◌∷◌, ◌++◌, length, ◌==◌,
  if◌then◌else◌, Bytes, Text, IsArray, Result, ok, err, map_err, ◌>>=◌,
}
use ant_wasm_client.Base.Words.{to_le_bytes}
use ant_wasm_client.External.{Hashes, Dsa, Format}

abbrev pub proof_tag_single_node : ℕ
proof_tag_single_node = 0x01

pub record Timestamp : Type 0 where
  pub secs : ℕ
  pub nanos : ℕ

unfoldable pub from_secs : ℕ → Timestamp
from_secs secs = record { secs = secs; nanos = 0 }

pub record Quote : Type 0 where
  pub content : Bytes
  pub timestamp : Timestamp
  pub price : Bytes
  pub rewards_address : Bytes
  pub pub_key : Bytes
  pub signature : Bytes
  pub committed_key_count : ℕ
  pub commitment_pin : Option Bytes

abbrev pub IsPin : Option Bytes → Type 0
IsPin none = Unit {0}
IsPin (some pin) = IsArray 32 pin

-- The ranges that the Rust types `[u8; 32]`, `[u8; 20]`, `u64` and `u32` give.
pub record IsQuote (q : Quote) : Type 0 where
  pub content : IsArray 32 q.content
  pub secs : q.timestamp.secs < 2 ^ 64
  pub nanos : q.timestamp.nanos < 2 ^ 32
  pub price : IsArray 32 q.price
  pub rewards_address : IsArray 20 q.rewards_address
  pub committed_key_count : q.committed_key_count < 2 ^ 32
  pub commitment_pin : IsPin q.commitment_pin

-- `PeerId` and `TxHash` wrap 32 bytes each.
pub record ProofOfPayment : Type 0 where
  pub peer_quotes : List (Bytes × Quote)

pub record PaymentProof : Type 0 where
  pub proof_of_payment : ProofOfPayment
  pub tx_hashes : List Bytes
  pub commitment_sidecars : List Bytes

pub data PaymentError : Type 0 where
  decode encode : Text → PaymentError
  bad_proof_tag : Option ℕ → PaymentError

unfoldable pub parse_quote : Format Quote → Bytes → Result Quote PaymentError
parse_quote rmp bytes = map_err decode (rmp.from_slice bytes)

unfoldable pub encode_quote : Format Quote → Quote → Result Bytes PaymentError
encode_quote rmp quote = map_err encode (rmp.to_vec quote)

unfoldable pub pin_bytes : Option Bytes → Bytes
pin_bytes (some pin) = 1 ∷ pin
pin_bytes none = 0 ∷ []

unfoldable pub bytes_for_sig : Quote → Bytes
bytes_for_sig q =
    q.content
    ++ (to_le_bytes 8 q.timestamp.secs
        ++ (reverse q.price
            ++ (q.rewards_address
                ++ (to_le_bytes 4 q.committed_key_count ++ pin_bytes q.commitment_pin))))

abbrev pub pk_len : ℕ
pk_len = 1952

abbrev pub sig_len : ℕ
sig_len = 3309

-- `try_from` to a fixed-size array checks the length; the context of the signature is empty.
unfoldable pub verify_quote : Dsa → Quote → Bool
verify_quote dsa q =
    if length q.pub_key == pk_len
    then (if length q.signature == sig_len
        then (if dsa.valid_key q.pub_key
            then dsa.verify q.pub_key (bytes_for_sig q) q.signature []
            else false)
        else false)
    else false

unfoldable pub quote_hash : Hashes → Quote → Bytes
quote_hash hashes q = hashes.keccak256 (bytes_for_sig q ++ (q.pub_key ++ q.signature))

unfoldable pub encode_proof : Format PaymentProof → PaymentProof → Result Bytes PaymentError
encode_proof rmp proof = do
  body ← map_err encode (rmp.to_vec proof)
  ok (proof_tag_single_node ∷ body)

unfoldable pub serialize_single_node_proof :
    Format PaymentProof → List (Bytes × Quote) → Bytes → List Bytes → Result Bytes PaymentError
unfolding encode_proof
serialize_single_node_proof rmp peer_quotes tx_hash sidecars = encode_proof rmp (record {
  proof_of_payment = record { peer_quotes = peer_quotes };
  tx_hashes = tx_hash ∷ [];
  commitment_sidecars = sidecars;
})

unfoldable pub parse_single_node_proof :
    Format PaymentProof → Bytes → Result PaymentProof PaymentError
parse_single_node_proof rmp [] = err (bad_proof_tag none)
parse_single_node_proof rmp (tag ∷ body) =
    if tag == proof_tag_single_node
    then map_err decode (rmp.from_slice body)
    else err (bad_proof_tag (some tag))
