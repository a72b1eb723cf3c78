-- ===== src/Client/Examples/Holders.antt =====
-- src/lib.rs: a bootstrap node that names one peer seven times, which has every chunk, a page whose
-- hexadecimal form is unary, and a self-encryption for one content.
use ant_wasm_client.Base.{
  ℕ, zero, suc, ◌+◌, ◌≡◌, refl, ap, ◌∙◌, true, none, inl, List, [], ◌∷◌, ◌++◌, All-append, Bytes,
  Text, bytes_eq, bytes_eq→eq, Bool-cases, inr, ok, err, replicate, ◌==◌, if◌then◌else◌, arith,
}
use mathlib.Core.Path.{ap₂}
use ant_wasm_client.Texts.Trimming.{IsPlain}
use ant_wasm_client.Protocol.{
  PeerConnectInfo, ChunkMessageBody, ChunkGetResponse, ChunkQuoteResponse, get_response,
  quote_response, closest_peers_response,
}
use ant_wasm_client.Env.{Env}
use ant_wasm_client.Framing.{encode_frame}
use ant_wasm_client.Transport.{from_open}
use ant_wasm_client.Client.{World, Client}
use ant_wasm_client.Client.Upload.{Encryption}
use ant_wasm_client.Client.Restored.Laws.{Inverts, HexReadsBack}
use ant_wasm_client.Client.Examples.{env, world, quote, connection, client}
use ant_wasm_client.Client.Examples.Download.{whole, se}

-- A peer whose key is its identity, since hashing keeps the bytes.
abbrev pub holder : PeerConnectInfo
holder = record { peer_id = replicate 1952 5; ip = []; port = 1; cert_hash = [] }

-- A message that starts with 0 is a chunk; any other is a quote for an address, which is stored.
abbrev pub body : Bytes → ChunkMessageBody
body [] = get_response (ChunkGetResponse.not_found [])
body (zero ∷ b) = get_response (ChunkGetResponse.success b b)
body (suc t ∷ b) = quote_response (ChunkQuoteResponse.success (suc t ∷ b) true none)

abbrev pub holders : Env
holders = record whole {
  chunk = (env body).chunk;
  discovery = record whole.discovery {
    from_slice = λ b. ok (record {
      request_id = 1;
      body = closest_peers_response (record { peers = replicate 7 holder });
    });
  };
}

-- A number `n` is written as `n` zeros and a one.
unfoldable pub encode_units : Bytes → Text
encode_units [] = []
encode_units (n ∷ b) = replicate n b'0' ++ (b'1' ∷ encode_units b)

unfoldable pub decode_units : ℕ → Text → Bytes
decode_units n [] = []
decode_units n (c ∷ t) =
    let next = decode_units 0 t in
    let more = decode_units (suc n) t in if c == b'1' then n ∷ next else more

decode_units-zeros :
    (n m : ℕ) (t : Text)
    → decode_units n (replicate m b'0' ++ (b'1' ∷ t)) ≡ (n + m) ∷ decode_units 0 t
unfolding decode_units
decode_units-zeros n zero t = ap (λ k. k ∷ decode_units 0 t) (omega arith)
decode_units-zeros n (suc m) t =
    decode_units-zeros (suc n) m t ∙ ap (λ k. k ∷ decode_units 0 t) (omega arith)

decode-encode_units : (b : Bytes) → decode_units 0 (encode_units b) ≡ b
unfolding encode_units
decode-encode_units [] = unfold decode_units in refl
decode-encode_units (n ∷ b) =
    decode_units-zeros 0 n (encode_units b) ∙ ap₂ ◌∷◌ (omega arith) (decode-encode_units b)

encode_units-IsPlain : (b : Bytes) → IsPlain (encode_units b)
unfolding encode_units
encode_units-IsPlain [] = tt
encode_units-IsPlain (n ∷ b) =
    All-append _ (replicate n b'0') _ (zeros n) ((omega arith, omega arith), encode_units-IsPlain b)
  where
    zeros : (n : ℕ) → IsPlain (replicate n b'0')
    zeros zero = tt
    zeros (suc n) = ((omega arith, omega arith), zeros n)

abbrev pub page : World
page = record world {
  hex_encode = encode_units;
  hex_decode = λ t. ok (decode_units 0 t);
  quote = record {
    to_vec = λ _. err [];
    from_slice = λ b. ok (record quote { content = b; pub_key = replicate 1952 5 });
  };
}

-- An answer on its way, with its sequence number, its tag and what it holds.
abbrev pub answer : ℕ → ℕ → Bytes → Bytes
answer seq tag payload = encode_frame (3 ∷ 0 ∷ 0 ∷ 0 ∷ seq ∷ tag ∷ payload)

abbrev pub two_sevens : Bytes
two_sevens = 7 ∷ 7 ∷ []

abbrev pub map_bytes : Bytes
map_bytes = replicate 32 6

-- A client of a bootstrap node and of one peer that is pooled.
abbrev pub client_with : List Bytes → Client
client_with answers = record client {
  pool = (replicate 1952 5, 1) ∷ [];
  heap =
      record (connection 2) {
        transport = from_open (answer 1 2 [] ∷ answer 2 2 [] ∷ []) (λ _. none);
      }
      ∷ record (connection 1) { transport = from_open answers (λ _. none) }
      ∷ [];
}

abbrev pub uploader : Client
uploader = client_with (
    answer 1 1 two_sevens
    ∷ answer 2 1 two_sevens
    ∷ answer 3 1 two_sevens
    ∷ answer 4 1 two_sevens
    ∷ answer 5 1 map_bytes
    ∷ answer 6 1 map_bytes
    ∷ answer 7 1 map_bytes
    ∷ answer 8 1 map_bytes
    ∷ [])

abbrev pub downloader : Client
downloader = client_with (answer 1 1 (0 ∷ map_bytes) ∷ answer 2 1 (0 ∷ two_sevens) ∷ [])

-- A self-encryption for one content.
abbrev pub encryption : Encryption Bytes
encryption = record {
  encrypt = λ b. if bytes_eq b two_sevens then ok (map_bytes, two_sevens ∷ []) else err [];
  shrink_data_map = λ m. ok (m, []);
  to_vec = λ m. ok m;
}

abbrev pub eth : Text
eth = encode_units (replicate 20 1)

encrypt-eq_ok :
    (b m : Bytes) (cs : List Bytes)
    → encryption.encrypt b ≡ ok (m, cs)
    → (b ≡ two_sevens) × (cs ≡ two_sevens ∷ [])
encrypt-eq_ok b m cs h = elim (Bool-cases (bytes_eq b two_sevens)) [
  | inl e ↦ (bytes_eq→eq b two_sevens e, ground arith)
  | inr e ↦ ground arith
]

pub inverts : Inverts holders.hashes se encryption
inverts = record {
  listed = λ b m cs h. let (_, e) = encrypt-eq_ok b m cs h in rw e refl;
  decrypted = λ b m cs h. let (e, e') = encrypt-eq_ok b m cs h in rw (e, e') refl;
  read_back = λ m bytes h. cc;
  wrapped = λ m m' ws h. let none_wrapped : ws ≡ [] = cc in rw none_wrapped tt;
  unshrunk = λ m m' ws h e. cc;
  resolves = λ b m m' root cs ws fetch enc h a e. cc;
}

pub units : HexReadsBack page page
units = record { plain = encode_units-IsPlain; decoded = λ b. ap ok (decode-encode_units b) }
