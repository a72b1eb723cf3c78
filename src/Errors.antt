-- ===== src/Errors.antt =====
-- The error texts of the client, one constructor for each message, with the values that the source
-- formats into it. The texts of third-party errors are carried as they come.
use ant_wasm_client.Base.{ℕ, Bytes, Text, Result}
use ant_wasm_client.Protocol.{ProtocolError}
use ant_wasm_client.Payment.{PaymentError}

pub data Error : Type 0 where
  -- src/framing.rs, src/webrtc.rs
  frame_length_out_of_range : ℕ → Error
  connection_closed : Error
  data_channel_send : Text → Error
  peer_connection_failed getrandom_failed create_offer_failed set_local_failed : Text → Error
  set_remote_failed channel_not_open : Text → Error
  no_local_description : Error
  -- src/protocol.rs, src/discovery.rs
  encode_failed decode_failed : Text → Error
  message_too_large : ℕ → Error
  -- src/tunnel.rs
  kem_keygen : Text → Error
  server_accept_too_short unexpected_accept_type unsupported_version : ℕ → Error
  invalid_dsa_key handshake_signature_failed invalid_kem_ciphertext decapsulation_failed : Error
  peer_id_mismatch : Bytes → Bytes → Error
  encryption_failed invalid_envelope decryption_failed : Error
  -- src/conn.rs
  sequence_exhausted unexpected_tag response_address_mismatch unexpected_response : Error
  unexpected_discovery_response unexpected_signal_response : Error
  response_seq_mismatch : ℕ → ℕ → Error
  blake3_failed not_found : Bytes → Error
  node_error : ProtocolError → Error
  discovery_error signal_relay_error : Text → Error
  -- src/retrieval.rs
  map_unverified not_a_data_map root_unresolved decrypt_failed : Text → Error
  chunk_unverified : Bytes → Text → Error
  cannot_finish : Error
  missing_chunk : Bytes → Error
  -- src/evm.rs; a Rust panic at an index is `index_out_of_bounds`
  split_needs_seven : ℕ → Error
  index_out_of_bounds : Error
  -- No index of a connection dangles in the source; the model's heap answers this to one.
  no_such_connection : Error
  -- src/sdp.rs
  credentials_replaced : ℕ → Error
  -- src/lib.rs; `no_error` is the empty text that `last_err` starts from
  no_error no_attempt no_peers : Error
  no_peer_served : Bytes → Error → Error
  quote_parse proof_serialize : PaymentError → Error
  quote_wrong_address quote_wrong_peer quote_unsigned : Error
  quote_error put_error : ProtocolError → Error
  unexpected_quote_response unexpected_put_response : Error
  too_few_peers : Bytes → ℕ → Error
  no_valid_quote : Bytes → Bytes → Error → Error
  payment_required pay_threw pay_rejected : Text → Error
  pay_not_text : Error
  accepted_by_too_few : Bytes → ℕ → Error → Error
  address_not_hex tx_hash_not_hex peer_id_not_hex : Text → Error
  eth_address_length tx_hash_length address_length peer_id_length : Error
  self_encryption_failed shrink_failed map_serialize_failed : Text → Error

-- `Result<T, String>`
abbrev pub Fallible {ℓ} : Type ℓ → Type ℓ
Fallible A = Result A Error
