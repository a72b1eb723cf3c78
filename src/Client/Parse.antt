-- ===== src/Client/Parse.antt =====
-- src/lib.rs: the parsers of hexadecimal texts.
use ant_wasm_client.Base.{
  ℕ, Option, none, some, [], ◌∷◌, length, ◌==◌, if◌then◌else◌, Bytes, Text, Result, ok, err,
  map_err,
}
use ant_wasm_client.Errors.{
  Error, Fallible, address_not_hex, tx_hash_not_hex, peer_id_not_hex, eth_address_length,
  tx_hash_length, address_length, peer_id_length,
}
use ant_wasm_client.Texts.{trim, without_prefix}

-- What was decoded, if it has the length of the array that `try_into` makes.
unfoldable pub fixed : ℕ → Error → Fallible Bytes → Fallible Bytes
fixed n wrong (ok bytes) = if length bytes == n then ok bytes else err wrong
fixed n wrong (err e) = err e

-- The decoder is that of the crate `hex`.
module _ (hex_decode : Text → Result Bytes Text) where
  unfoldable pub parse_eth_address : Text → Fallible Bytes
  unfolding fixed
  parse_eth_address text =
      fixed 20 eth_address_length
        (map_err address_not_hex (hex_decode (without_prefix (b'0' ∷ b'x' ∷ []) (trim text))))

  unfoldable pub parse_tx_hash : Text → Fallible Bytes
  unfolding fixed
  parse_tx_hash text =
      fixed 32 tx_hash_length
        (map_err tx_hash_not_hex (hex_decode (without_prefix (b'0' ∷ b'x' ∷ []) (trim text))))

  unfoldable pub parse_address : Text → Fallible Bytes
  unfolding fixed
  parse_address text = fixed 32 address_length (map_err address_not_hex (hex_decode (trim text)))

  abbrev pinned : Fallible Bytes → Fallible (Option Bytes)
  pinned (ok bytes) = ok (some bytes)
  pinned (err e) = err e

  -- The empty text is no pin.
  unfoldable pub parse_opt_peer_id : Text → Fallible (Option Bytes)
  unfolding fixed
  parse_opt_peer_id [] = ok none
  parse_opt_peer_id (c ∷ text) =
      pinned (fixed 32 peer_id_length (map_err peer_id_not_hex (hex_decode (c ∷ text))))
