-- ===== src/External.antt =====
-- The third-party code that the client calls, as records of operations. Each function that needs
-- one takes the record as an argument; what the code relies on is a named law beside the theorem.
use ant_wasm_client.Base.{◌≡◌, Bool, Option, some, Bytes, Text, Result, ok}

-- crates `blake3` and `sha3`
pub record Hashes : Type 0 where
  pub blake3 : Bytes → Bytes
  pub derive_key : Text → Bytes → Bytes
  pub keccak256 : Bytes → Bytes

-- crate `fips204`, ML-DSA-65. A key is named by its bytes: `valid_key` is whether
-- `PublicKey::try_from_bytes` accepts them, and `verify` is that key's `verify(msg, sig, ctx)`.
pub record Dsa : Type 0 where
  pub valid_key : Bytes → Bool
  pub verify : Bytes → Bytes → Bytes → Bytes → Bool

-- crate `fips203`, ML-KEM-768. A decapsulation key is named by its bytes; `valid_ciphertext` is
-- whether `CipherText::try_from_bytes` accepts the bytes.
pub record Kem : Type 0 where
  pub valid_ciphertext : Bytes → Bool
  pub try_decaps : Bytes → Bytes → Option Bytes

-- crate `chacha20poly1305`: key, nonce and text.
pub record Aead : Type 0 where
  pub encrypt : Bytes → Bytes → Bytes → Option Bytes
  pub decrypt : Bytes → Bytes → Bytes → Option Bytes

-- A serde format at one type: `to_vec` and `from_slice`, with the text of the error.
pub record Format {ℓ} (A : Type ℓ) : Type ℓ where
  pub to_vec : A → Result Bytes Text
  pub from_slice : Bytes → Result A Text

-- What was written is read back.
abbrev pub ReadsBack {ℓ} : {A : Type ℓ} → Format A → Type ℓ
ReadsBack {A = A} f = (a : A) (bs : Bytes) → f.to_vec a ≡ ok bs → f.from_slice bs ≡ ok a

-- An authenticated text opens to what was sealed under the same key and nonce.
abbrev pub Opens : Aead → Type 0
Opens aead =
    (key nonce text sealed : Bytes)
    → aead.encrypt key nonce text ≡ some sealed
    → aead.decrypt key nonce sealed ≡ some text
