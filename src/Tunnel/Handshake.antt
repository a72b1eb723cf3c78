-- ===== src/Tunnel/Handshake.antt =====
-- src/tunnel.rs: a finished handshake, and the answer of an honest node.
use ant_wasm_client.Base.{
  suc, ◌≤◌, ◌≡◌, refl, ap, sym, ◌∙◌, true, Option, none, some, [], ◌∷◌, ◌++◌, append_assoc,
  append-nil, length, length-append, take, drop, take-append, drop-append, Bytes, bytes_eq→eq,
  bytes_eq_refl, ok, ensure-eq-ok, arith,
}
use ant_wasm_client.Base.Words.{
  to_be_bytes, from_be_bytes, length-to_be_bytes, from_be_bytes-to_be_bytes,
}
use ant_wasm_client.External.{Hashes, Dsa, Kem}
use ant_wasm_client.Errors.{peer_id_mismatch}
use ant_wasm_client.Tunnel.{
  ClientHandshake, Established, auth_sign_context, check_pin, decaps_result, accept_len, accept_ct,
  accept_pubkey, accept_signature, finish, from_shared_secret, byte_at, pqc_version,
}

abbrev pub IsPinned : Option Bytes → Bytes → Type 0
IsPinned none peer_id = Unit {0}
IsPinned (some expected) peer_id = peer_id ≡ expected

check_pin-eq_ok :
    (expected : Option Bytes) (peer_id : Bytes) {u : Unit {0}}
    → check_pin expected peer_id ≡ ok u
    → IsPinned expected peer_id
unfolding check_pin
check_pin-eq_ok none peer_id h = tt
check_pin-eq_ok (some expected) peer_id h =
    bytes_eq→eq peer_id expected (ensure-eq-ok _ (peer_id_mismatch expected peer_id) h)

pub check_pin-pinned :
    (expected : Option Bytes) (peer_id : Bytes)
    → IsPinned expected peer_id
    → check_pin expected peer_id ≡ ok tt
unfolding check_pin
check_pin-pinned none peer_id h = refl
check_pin-pinned (some expected) peer_id h = rw (h, bytes_eq_refl expected)

decaps_result-eq_ok : (r : Option Bytes) {ss : Bytes} → decaps_result r ≡ ok ss → r ≡ some ss
decaps_result-eq_ok none h = cc
decaps_result-eq_ok (some ss) h = cc

module _ (hashes : Hashes) (dsa : Dsa) (kem : Kem) where
  -- What a `ServerAccept` frame proves to the client of a handshake.
  pub record Authenticates (hs : ClientHandshake) (frame : Bytes) (expected : Option Bytes)
      (e : Established) : Type 0 where
    pub long_enough : accept_len ≤ length frame
    pub typed : byte_at frame 0 ≡ 0x02
    pub versioned : from_be_bytes (take 2 (drop 1 frame)) ≡ pqc_version
    pub valid_key : dsa.valid_key (accept_pubkey frame) ≡ true
    pub signed :
        dsa.verify
          (accept_pubkey frame)
          (auth_sign_context ++ (hs.ek_bytes ++ accept_ct frame))
          (accept_signature frame)
          []
        ≡ true
    pub identity : e.peer_id ≡ hashes.blake3 (accept_pubkey frame)
    pub pinned : IsPinned expected e.peer_id
    pub secret : Bytes
    pub decapsulated : kem.try_decaps hs.dk (accept_ct frame) ≡ some secret
    pub keyed : e.cipher ≡ from_shared_secret hashes secret

  -- A handshake that succeeds is authenticated: the frame has the length, type and version of a
  -- ServerAccept; its signature verifies, under the key in the frame, over the auth context, this
  -- handshake's own encapsulation key and the ciphertext; the identity is the BLAKE3 hash of that key
  -- and is the pinned one if there is a pin; and the session key comes from the decapsulated secret.
  pub finish-Authenticates :
      (hs : ClientHandshake) (frame : Bytes) (expected : Option Bytes) (e : Established)
      → finish hashes dsa kem hs frame expected ≡ ok e
      → Authenticates hs frame expected e
  unfolding finish
  finish-Authenticates hs frame expected e h =
      let pin : check_pin expected (hashes.blake3 (accept_pubkey frame)) ≡ ok tt = ground arith in
      let identity : e.peer_id ≡ hashes.blake3 (accept_pubkey frame) = ground arith in
      let secret : Bytes = elim (kem.try_decaps hs.dk (accept_ct frame)) [
        | none ↦ []
        | some ss ↦ ss
      ] in
      record {
        long_enough = ground arith;
        typed = ground arith;
        versioned = ground arith;
        valid_key = ground arith;
        signed = ground arith;
        identity = identity;
        pinned = rw identity (check_pin-eq_ok expected (hashes.blake3 (accept_pubkey frame)) pin);
        secret = secret;
        decapsulated = ground arith;
        keyed = ground arith;
      }

-- The frame that a node of this protocol version answers with.
abbrev pub server_accept : Bytes → Bytes → Bytes → Bytes
server_accept ct pubkey signature =
    (0x02 ∷ to_be_bytes 2 pqc_version) ++ (ct ++ (pubkey ++ signature))

abbrev accept_head : Bytes
accept_head = 0x02 ∷ to_be_bytes 2 pqc_version

length-accept_head : length accept_head ≡ 3
length-accept_head = ap suc (length-to_be_bytes 2 pqc_version)

accept_head-version : (rest : Bytes) → from_be_bytes (take 2 (drop 1 (accept_head ++ rest))) ≡ 2
unfolding drop
accept_head-version rest =
    ap from_be_bytes
      (take-append 2 (to_be_bytes 2 pqc_version) rest (length-to_be_bytes 2 pqc_version))
    ∙ from_be_bytes-to_be_bytes 2 pqc_version (omega arith)

module _ (ct pubkey signature : Bytes) (hc : length ct ≡ 1088) (hk : length pubkey ≡ 1952)
    (hg : length signature ≡ 3309) where
  accept_ct-server_accept : accept_ct (server_accept ct pubkey signature) ≡ ct
  accept_ct-server_accept =
      ap (take 1088) (drop-append 3 accept_head (ct ++ (pubkey ++ signature)) length-accept_head)
      ∙ take-append 1088 ct (pubkey ++ signature) hc

  accept_pubkey-server_accept : accept_pubkey (server_accept ct pubkey signature) ≡ pubkey
  accept_pubkey-server_accept =
      ap (λ b. take 1952 (drop 1091 b)) (sym (append_assoc accept_head ct (pubkey ++ signature)))
      ∙ ap (take 1952) (
          drop-append 1091 (accept_head ++ ct) (pubkey ++ signature)
            (length-append accept_head ct ∙ omega (arith, length-accept_head, hc)))
      ∙ take-append 1952 pubkey signature hk

  accept_signature-server_accept : accept_signature (server_accept ct pubkey signature) ≡ signature
  accept_signature-server_accept =
      ap (λ b. take 3309 (drop 3043 (accept_head ++ b))) (sym (append_assoc ct pubkey signature))
      ∙ ap (λ b. take 3309 (drop 3043 b)) (sym (append_assoc accept_head (ct ++ pubkey) signature))
      ∙ ap (take 3309) (
          drop-append 3043 (accept_head ++ (ct ++ pubkey)) signature (
            length-append accept_head (ct ++ pubkey)
            ∙ omega (arith, length-accept_head, length-append ct pubkey)))
      ∙ ap (take 3309) (sym (append-nil signature))
      ∙ take-append 3309 signature [] hg

  pub length-server_accept : length (server_accept ct pubkey signature) ≡ accept_len
  length-server_accept =
      length-append accept_head (ct ++ (pubkey ++ signature))
      ∙ omega (
        arith,
        length-accept_head,
        length-append ct (pubkey ++ signature),
        length-append pubkey signature,
      )

finish-steps :
    (hashes : Hashes) (dsa : Dsa) (kem : Kem) (hs : ClientHandshake) (frame : Bytes)
    (expected : Option Bytes) (ss : Bytes)
    → accept_len ≤ length frame
    → byte_at frame 0 ≡ 0x02
    → from_be_bytes (take 2 (drop 1 frame)) ≡ pqc_version
    → dsa.valid_key (accept_pubkey frame) ≡ true
    → dsa.verify
        (accept_pubkey frame)
        (auth_sign_context ++ (hs.ek_bytes ++ accept_ct frame))
        (accept_signature frame)
        []
      ≡ true
    → IsPinned expected (hashes.blake3 (accept_pubkey frame))
    → kem.valid_ciphertext (accept_ct frame) ≡ true
    → kem.try_decaps hs.dk (accept_ct frame) ≡ some ss
    → finish hashes dsa kem hs frame expected
      ≡ ok (record {
        cipher = from_shared_secret hashes ss;
        peer_id = hashes.blake3 (accept_pubkey frame);
      })
unfolding finish
finish-steps hashes dsa kem hs frame expected ss long typed version valid signed pinned vc dec =
    ground (arith, check_pin-pinned expected (hashes.blake3 (accept_pubkey frame)) pinned)

-- An honest node finishes the handshake: if its frame carries the ciphertext that this client
-- decapsulates, a valid key of the pinned identity, and that key's signature over the auth context,
-- the client's encapsulation key and the ciphertext, all of their sizes, then `finish` succeeds with that identity and
-- with the session key derived from the shared secret.
pub finish-server_accept :
    (hashes : Hashes) (dsa : Dsa) (kem : Kem) (hs : ClientHandshake) (expected : Option Bytes)
    (ct pubkey signature ss : Bytes)
    → length ct ≡ 1088
    → length pubkey ≡ 1952
    → length signature ≡ 3309
    → dsa.valid_key pubkey ≡ true
    → dsa.verify pubkey (auth_sign_context ++ (hs.ek_bytes ++ ct)) signature [] ≡ true
    → IsPinned expected (hashes.blake3 pubkey)
    → kem.valid_ciphertext ct ≡ true
    → kem.try_decaps hs.dk ct ≡ some ss
    → finish hashes dsa kem hs (server_accept ct pubkey signature) expected
      ≡ ok (record { cipher = from_shared_secret hashes ss; peer_id = hashes.blake3 pubkey })
finish-server_accept hashes dsa kem hs expected ct pubkey signature ss hc hk hg valid signed pinned
      vc dec =
    finish-steps hashes dsa kem hs (server_accept ct pubkey signature) expected ss
      (omega (arith, length-server_accept ct pubkey signature hc hk hg)) (unfold byte_at in refl)
      (accept_head-version (ct ++ (pubkey ++ signature))) (rw k valid)
      (rw (k, c, accept_signature-server_accept ct pubkey signature hc hk hg) signed) (rw k pinned)
      (rw c vc) (rw c dec)
    ∙ ap (λ b. ok (record { cipher = from_shared_secret hashes ss; peer_id = hashes.blake3 b })) k
  where
    k : accept_pubkey (server_accept ct pubkey signature) ≡ pubkey
    k = accept_pubkey-server_accept ct pubkey signature hc hk hg

    c : accept_ct (server_accept ct pubkey signature) ≡ ct
    c = accept_ct-server_accept ct pubkey signature hc hk hg
