-- ===== src/Protocol/Display.antt =====
-- src/protocol.rs: the texts of a protocol error.
use ant_wasm_client.Base.{◌≡◌, refl, ◌++◌, Text}
use ant_wasm_client.Texts.{codes, decimal_usize}
use ant_wasm_client.Protocol.Chunk.{ProtocolError}

fmt : ProtocolError → Text
fmt (ProtocolError.serialization_failed m) = codes "serialization failed: " ++ m
fmt (ProtocolError.deserialization_failed m) = codes "deserialization failed: " ++ m
fmt (ProtocolError.message_too_large size max_size) =
    codes "message size "
    ++ (decimal_usize size ++ (codes " exceeds maximum " ++ decimal_usize max_size))
fmt (ProtocolError.chunk_too_large size max_size) =
    codes "chunk size "
    ++ (decimal_usize size ++ (codes " exceeds maximum " ++ decimal_usize max_size))
fmt (ProtocolError.address_mismatch expected actual) = codes "address mismatch"
fmt (ProtocolError.storage_failed m) = codes "storage failed: " ++ m
fmt (ProtocolError.payment_failed m) = codes "payment failed: " ++ m
fmt (ProtocolError.quote_failed m) = codes "quote failed: " ++ m
fmt (ProtocolError.internal m) = codes "internal error: " ++ m

fmt_sizes : fmt (ProtocolError.chunk_too_large 70 9) ≡ codes "chunk size 70 exceeds maximum 9"
unfolding fmt decimal_usize
fmt_sizes = refl
