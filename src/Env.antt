-- ===== src/Env.antt =====
-- What every operation on a node runs against: the cryptography, and the postcard encodings of the
-- three message families (`to_stdvec` and `from_bytes`).
use ant_wasm_client.Base.{ltb, length, if◌then◌else◌, Bytes, err, map_err}
use ant_wasm_client.External.{Hashes, Dsa, Kem, Aead, Format}
use ant_wasm_client.Protocol.{
  ChunkMessage, DiscoveryMessage, SignalRelayMessage, max_wire_message_size,
}
use ant_wasm_client.Errors.{Fallible, encode_failed, decode_failed, message_too_large}

pub record Env : Type 0 where
  pub hashes : Hashes
  pub dsa : Dsa
  pub kem : Kem
  pub aead : Aead
  pub chunk : Format ChunkMessage
  pub discovery : Format DiscoveryMessage
  pub signal : Format SignalRelayMessage

-- `ChunkMessage::encode` and `ChunkMessage::decode`, which caps the size.
unfoldable pub encode_chunk : Env → ChunkMessage → Fallible Bytes
encode_chunk env m = map_err encode_failed (env.chunk.to_vec m)

unfoldable pub decode_chunk : Env → Bytes → Fallible ChunkMessage
decode_chunk env bytes =
    if ltb max_wire_message_size (length bytes)
    then err (message_too_large (length bytes))
    else map_err decode_failed (env.chunk.from_slice bytes)

-- `encode` and `decode` of `DiscoveryMessage` and of `SignalRelayMessage`.
unfoldable pub encode_discovery : Env → DiscoveryMessage → Fallible Bytes
encode_discovery env m = map_err encode_failed (env.discovery.to_vec m)

unfoldable pub decode_discovery : Env → Bytes → Fallible DiscoveryMessage
decode_discovery env bytes = map_err decode_failed (env.discovery.from_slice bytes)

unfoldable pub encode_signal : Env → SignalRelayMessage → Fallible Bytes
encode_signal env m = map_err encode_failed (env.signal.to_vec m)

unfoldable pub decode_signal : Env → Bytes → Fallible SignalRelayMessage
decode_signal env bytes = map_err decode_failed (env.signal.from_slice bytes)
