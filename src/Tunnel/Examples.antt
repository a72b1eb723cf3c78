-- ===== src/Tunnel/Examples.antt =====
-- src/tunnel.rs with a toy suite: every key and signature is valid, the secret is the
-- decapsulation key, and sealing keeps the text.
use ant_wasm_client.Base.{ℕ, ◌≡◌, refl, true, some, take, replicate, Bytes, ok}
use ant_wasm_client.External.{Hashes, Dsa, Kem, Aead, Opens}
use ant_wasm_client.Tunnel.{ClientHandshake, SessionCipher, Established, finish, from_shared_secret}
use ant_wasm_client.Tunnel.Handshake.{
  Authenticates, finish-Authenticates, server_accept, finish-server_accept,
}

abbrev hashes : Hashes
hashes = record { blake3 = λ b. take 32 b; derive_key = λ t ss. ss; keccak256 = λ b. b }

abbrev dsa : Dsa
dsa = record { valid_key = λ _. true; verify = λ _ _ _ _. true }

abbrev kem : Kem
kem = record { valid_ciphertext = λ _. true; try_decaps = λ dk _. some dk }

abbrev aead : Aead
aead = record { encrypt = λ _ _ text. some text; decrypt = λ _ _ text. some text }

abbrev handshake : ClientHandshake
handshake = record { dk = replicate 32 9; ek_bytes = replicate 1184 8 }

abbrev frame : Bytes
frame = server_accept (replicate 1088 1) (replicate 1952 2) (replicate 3309 3)

abbrev node : Established
node = record {
  cipher = from_shared_secret hashes (replicate 32 9);
  peer_id = take 32 (replicate 1952 2);
}

accepted : finish hashes dsa kem handshake frame (some (take 32 (replicate 1952 2))) ≡ ok node
accepted =
    finish-server_accept hashes dsa kem handshake (some (take 32 (replicate 1952 2)))
      (replicate 1088 1) (replicate 1952 2) (replicate 3309 3) (replicate 32 9) refl refl refl refl
      refl refl refl refl

finish-Authenticates_example :
    Authenticates hashes dsa kem handshake frame (some (take 32 (replicate 1952 2))) node
finish-Authenticates_example =
    finish-Authenticates hashes dsa kem handshake frame (some (take 32 (replicate 1952 2))) node
      accepted

abbrev seq : ℕ
seq = 5

aead-Opens : Opens aead
aead-Opens key nonce text sealed e = cc

abbrev cipher : SessionCipher
cipher = record { key = replicate 32 9 }
