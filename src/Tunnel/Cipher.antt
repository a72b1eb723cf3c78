-- ===== src/Tunnel/Cipher.antt =====
-- src/tunnel.rs: nonces and envelopes.
use ant_wasm_client.Base.{
  ℕ, suc, ◌+◌, ◌≤◌, ◌<◌, ◌^◌, ◌≡◌, ap, sym, ◌∙◌, some, ◌∷◌, ◌++◌, length, length-append, take, drop,
  take-append, drop-append, replicate, Bytes, ok, arith,
}
use ant_wasm_client.Base.Words.{
  to_be_bytes, from_be_bytes, length-to_be_bytes, from_be_bytes-to_be_bytes,
}
use ant_wasm_client.External.{Aead, Opens}
use ant_wasm_client.Tunnel.{
  Direction, server_to_client, direction_byte, SessionCipher, build_nonce, open_response, byte_at,
}

direction_byte-injective : (d d' : Direction) → direction_byte d ≡ direction_byte d' → d ≡ d'
direction_byte-injective d d' h = ground arith

-- A nonce determines its sequence number and its direction: for sequence numbers of 32 bits two
-- nonces are equal only if both are. So requests never share a nonce with responses.
pub build_nonce-injective :
    (s s' : ℕ) (d d' : Direction)
    → s < 2 ^ 32
    → s' < 2 ^ 32
    → build_nonce s d ≡ build_nonce s' d'
    → (s ≡ s') × (d ≡ d')
unfolding build_nonce
build_nonce-injective s s' d d' hs hs' e =
    let n = to_be_bytes 4 s in
    let n' = to_be_bytes 4 s' in
    let tail = direction_byte d ∷ replicate 7 0 in
    let tail' = direction_byte d' ∷ replicate 7 0 in
    let seqs : n ≡ n' =
      sym (take-append 4 n tail (length-to_be_bytes 4 s))
      ∙ ap (take 4) e
      ∙ take-append 4 n' tail' (length-to_be_bytes 4 s') in
    let tails : tail ≡ tail' =
      sym (drop-append 4 n tail (length-to_be_bytes 4 s))
      ∙ ap (drop 4) e
      ∙ drop-append 4 n' tail' (length-to_be_bytes 4 s') in
    (
      sym (from_be_bytes-to_be_bytes 4 s (omega arith))
          ∙ ap from_be_bytes seqs
          ∙ from_be_bytes-to_be_bytes 4 s' (omega arith),
      direction_byte-injective d d' (cc),
    )

pub length-build_nonce : (s : ℕ) (d : Direction) → length (build_nonce s d) ≡ 12
unfolding build_nonce
length-build_nonce s d =
    length-append (to_be_bytes 4 s) (direction_byte d ∷ replicate 7 0)
    ∙ omega (arith, length-to_be_bytes 4 s)

-- The envelope around a ciphertext.
abbrev pub envelope : ℕ → Bytes → Bytes
envelope seq ciphertext = 0x03 ∷ (to_be_bytes 4 seq ++ ciphertext)

envelope-seq :
    (seq : ℕ) (c : Bytes) → seq < 2 ^ 32 → from_be_bytes (take 4 (drop 1 (envelope seq c))) ≡ seq
unfolding drop
envelope-seq seq c h =
    ap from_be_bytes (take-append 4 (to_be_bytes 4 seq) c (length-to_be_bytes 4 seq))
    ∙ from_be_bytes-to_be_bytes 4 seq (omega arith)

envelope-body : (seq : ℕ) (c : Bytes) → drop 5 (envelope seq c) ≡ c
unfolding drop
envelope-body seq c = drop-append 4 (to_be_bytes 4 seq) c (length-to_be_bytes 4 seq)

pub length-envelope : (seq : ℕ) (c : Bytes) → length (envelope seq c) ≡ 5 + length c
length-envelope seq c =
    ap suc (length-append (to_be_bytes 4 seq) c) ∙ omega (arith, length-to_be_bytes 4 seq)

-- What a node seals under the session key with the response nonce of a `seq` of 32 bits, the client
-- opens to that `seq` and the same plaintext, for a cipher that opens what it sealed.
pub open_response-sealed :
    (aead : Aead) (cipher : SessionCipher) (seq : ℕ) (plaintext ciphertext : Bytes)
    → Opens aead
    → seq < 2 ^ 32
    → aead.encrypt cipher.key (build_nonce seq server_to_client) plaintext ≡ some ciphertext
    → open_response aead cipher (envelope seq ciphertext) ≡ ok (seq, plaintext)
unfolding open_response
open_response-sealed aead cipher seq plaintext ciphertext opens h sealed = ground (
  arith,
  length-envelope seq ciphertext,
  envelope-seq seq ciphertext h,
  envelope-body seq ciphertext,
  opens cipher.key (build_nonce seq server_to_client) plaintext ciphertext sealed,
)

-- A response that opens to `(seq, plaintext)` is an envelope of type 3 that carries `seq`, and its
-- body decrypts to `plaintext` under the session key and the response nonce of `seq`.
pub open_response-eq_ok :
    (aead : Aead) (cipher : SessionCipher) (env : Bytes) (seq : ℕ) (plaintext : Bytes)
    → open_response aead cipher env ≡ ok (seq, plaintext)
    → (5 ≤ length env)
      × (byte_at env 0 ≡ 0x03)
      × (from_be_bytes (take 4 (drop 1 env)) ≡ seq)
      × (aead.decrypt cipher.key (build_nonce seq server_to_client) (drop 5 env) ≡ some plaintext)
unfolding open_response
open_response-eq_ok aead cipher env seq plaintext h =
    let carried : from_be_bytes (take 4 (drop 1 env)) ≡ seq = ground arith in
    (ground arith, ground arith, carried, rw (← carried) (ground arith))
