-- ===== src/Tunnel.antt =====
-- src/tunnel.rs: the client side of the post-quantum tunnel. The cryptography is a parameter.
pub mod Handshake
pub mod Cipher
mod Examples
use ant_wasm_client.Base.{
  ℕ, ◌+◌, ◌-◌, ◌^◌, ◌||◌, Bool, true, false, Option, none, some, [], ◌∷◌, ◌++◌, length, take, drop,
  get_elem?, replicate, ltb, leb, ◌==◌, if◌then◌else◌, not, Bytes, Text, bytes_eq, Result, ok, err,
  ensure, map_err, ◌>>=◌, ◌>>◌,
}
use ant_wasm_client.Base.Words.{to_be_bytes, from_be_bytes}
use ant_wasm_client.External.{Hashes, Dsa, Kem, Aead}
use ant_wasm_client.Errors.{
  Fallible, kem_keygen, server_accept_too_short, unexpected_accept_type, unsupported_version,
  invalid_dsa_key, handshake_signature_failed, peer_id_mismatch, invalid_kem_ciphertext,
  decapsulation_failed, encryption_failed, invalid_envelope, decryption_failed,
}

abbrev pub pqc_version : ℕ
pqc_version = 2

abbrev pub ml_kem_768_ek_size : ℕ
ml_kem_768_ek_size = 1184

abbrev pub ml_kem_768_ct_size : ℕ
ml_kem_768_ct_size = 1088

abbrev pub ml_dsa_65_pk_size : ℕ
ml_dsa_65_pk_size = 1952

abbrev pub ml_dsa_65_sig_size : ℕ
ml_dsa_65_sig_size = 3309

-- "ant-webrtc-pqc-v1"
abbrev pub kdf_context : Text
kdf_context =
    b'a' ∷ b'n' ∷ b't' ∷ b'-' ∷ b'w' ∷ b'e' ∷ b'b' ∷ b'r' ∷ b't' ∷ b'c' ∷ b'-' ∷ b'p' ∷ b'q' ∷ b'c'
    ∷ b'-' ∷ b'v' ∷ b'1' ∷ []

-- b"ant-webrtc-auth-v1"
abbrev pub auth_sign_context : Text
auth_sign_context =
    b'a' ∷ b'n' ∷ b't' ∷ b'-' ∷ b'w' ∷ b'e' ∷ b'b' ∷ b'r' ∷ b't' ∷ b'c' ∷ b'-' ∷ b'a' ∷ b'u' ∷ b't'
    ∷ b'h' ∷ b'-' ∷ b'v' ∷ b'1' ∷ []

-- `u32::MAX - 1`
abbrev pub max_seq : ℕ
max_seq = 2 ^ 32 - 2

pub data Direction : Type 0 where
  client_to_server server_to_client : Direction

-- An in-flight handshake: the decapsulation key and the bytes of the encapsulation key.
pub record ClientHandshake : Type 0 where
  pub dk : Bytes
  pub ek_bytes : Bytes

pub record SessionCipher : Type 0 where
  pub key : Bytes

pub record Established : Type 0 where
  pub cipher : SessionCipher
  pub peer_id : Bytes

-- `start`, on what the key generation returned: encapsulation key and decapsulation key.
unfoldable pub start : Result (Bytes × Bytes) Text → Fallible (ClientHandshake × Bytes)
start keygen = do
  (ek, dk) ← map_err kem_keygen keygen
  ok (record { dk = dk; ek_bytes = ek }, 0x01 ∷ (to_be_bytes 2 pqc_version ++ ek))

unfoldable pub from_shared_secret : Hashes → Bytes → SessionCipher
from_shared_secret hashes ss = record { key = hashes.derive_key kdf_context ss }

-- `xs[i]`, where the length was checked.
unfoldable pub byte_at : Bytes → ℕ → ℕ
byte_at xs i = elim (get_elem? xs i) [ none ↦ 0 | some b ↦ b ]

-- The pin, if there is one, is the identity.
unfoldable pub check_pin : Option Bytes → Bytes → Fallible (Unit {0})
check_pin none peer_id = ok tt
check_pin (some expected) peer_id =
    ensure (bytes_eq peer_id expected) (peer_id_mismatch expected peer_id)

abbrev decaps_result : Option Bytes → Fallible Bytes
decaps_result none = err decapsulation_failed
decaps_result (some ss) = ok ss

abbrev pub accept_len : ℕ
accept_len = 1 + 2 + ml_kem_768_ct_size + ml_dsa_65_pk_size + ml_dsa_65_sig_size

-- The fields of a `ServerAccept` frame, at their offsets.
abbrev pub accept_ct : Bytes → Bytes
accept_ct frame = take ml_kem_768_ct_size (drop 3 frame)

abbrev pub accept_pubkey : Bytes → Bytes
accept_pubkey frame = take ml_dsa_65_pk_size (drop (3 + ml_kem_768_ct_size) frame)

abbrev pub accept_signature : Bytes → Bytes
accept_signature frame =
    take ml_dsa_65_sig_size (drop (3 + ml_kem_768_ct_size + ml_dsa_65_pk_size) frame)

unfoldable pub finish :
    Hashes → Dsa → Kem → ClientHandshake → Bytes → Option Bytes → Fallible Established
unfolding byte_at from_shared_secret
finish hashes dsa kem hs frame expected = do
  ensure (leb accept_len (length frame)) (server_accept_too_short (length frame))
  ensure (byte_at frame 0 == 0x02) (unexpected_accept_type (byte_at frame 0))
  let version = from_be_bytes (take 2 (drop 1 frame))
  ensure (version == pqc_version) (unsupported_version version)
  let ct = accept_ct frame
  let pubkey = accept_pubkey frame
  ensure (dsa.valid_key pubkey) invalid_dsa_key
  ensure (dsa.verify pubkey (auth_sign_context ++ (hs.ek_bytes ++ ct)) (accept_signature frame) [])
      handshake_signature_failed
  let peer_id = hashes.blake3 pubkey
  check_pin expected peer_id
  ensure (kem.valid_ciphertext ct) invalid_kem_ciphertext
  ss ← decaps_result (kem.try_decaps hs.dk ct)
  ok (record { cipher = from_shared_secret hashes ss; peer_id = peer_id })

abbrev pub direction_byte : Direction → ℕ
direction_byte client_to_server = 0x00
direction_byte server_to_client = 0x01

-- Twelve bytes: sequence number, direction, zeros.
unfoldable pub build_nonce : ℕ → Direction → Bytes
build_nonce seq direction = to_be_bytes 4 seq ++ (direction_byte direction ∷ replicate 7 0)

abbrev sealed_result : ℕ → Option Bytes → Fallible Bytes
sealed_result seq none = err encryption_failed
sealed_result seq (some ciphertext) = ok (0x03 ∷ (to_be_bytes 4 seq ++ ciphertext))

unfoldable pub seal_request : Aead → SessionCipher → ℕ → Bytes → Fallible Bytes
seal_request aead cipher seq plaintext =
    sealed_result seq (aead.encrypt cipher.key (build_nonce seq client_to_server) plaintext)

abbrev opened_result : ℕ → Option Bytes → Fallible (ℕ × Bytes)
opened_result seq none = err decryption_failed
opened_result seq (some plaintext) = ok (seq, plaintext)

unfoldable pub open_response : Aead → SessionCipher → Bytes → Fallible (ℕ × Bytes)
unfolding byte_at
open_response aead cipher envelope =
    if ltb (length envelope) 5 || not (byte_at envelope 0 == 0x03)
    then err invalid_envelope
    else (let seq = from_be_bytes (take 4 (drop 1 envelope)) in
        opened_result seq
          (aead.decrypt cipher.key (build_nonce seq server_to_client) (drop 5 envelope)))
