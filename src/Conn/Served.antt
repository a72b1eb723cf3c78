-- ===== src/Conn/Served.antt =====
-- src/conn.rs: `get_verified` against a node that has the chunk.
use ant_wasm_client.Base.{
  suc, ◌≤◌, ◌<◌, ◌≡◌, refl, ap, ◌∙◌, ◌++◌, length, Bytes, bytes_eq_refl, ok, arith,
}
use ant_wasm_client.External.{Opens}
use ant_wasm_client.Env.{Env, encode_chunk, decode_chunk}
use ant_wasm_client.Framing.{encode_frame, max_frame_size}
use ant_wasm_client.Protocol.{
  ChunkMessage, ChunkGetResponse, get_response, proto_chunk, max_wire_message_size,
}
use ant_wasm_client.Transport.Exchange.{Delivers}
use ant_wasm_client.Tunnel.{max_seq}
use ant_wasm_client.Action.{bind-of_ok}
use ant_wasm_client.Conn.{NodeConnection, get_verified, accept_chunk, get_request_for}
use ant_wasm_client.Conn.Answered.{Seals, reply, round_trip-answered}

decode_chunk-small :
    (env : Env) (bytes : Bytes) (m : ChunkMessage)
    → decode_chunk env bytes ≡ ok m
    → length bytes ≤ max_wire_message_size
unfolding decode_chunk
decode_chunk-small env bytes m h = ground arith

accept_chunk-success :
    (env : Env) (address content : Bytes)
    → env.hashes.blake3 content ≡ address
    → accept_chunk env address (get_response (ChunkGetResponse.success address content))
      ≡ ok content
unfolding accept_chunk
accept_chunk-success env address content h = ground (arith, bytes_eq_refl address)

-- A node that has the chunk serves it: if the next reply on the connection is, sealed under the
-- session key and the next sequence number, a message that decodes to success with the address and
-- content of that hash, then `get_verified` returns the content, for a cipher that opens what it
-- seals, a request that fits a frame, no send that fails, and a sequence number that is left.
pub get_verified-served :
    (env : Env) (seals : Seals env.aead) (opens : Opens env.aead) (address content : Bytes)
    (request answer stream : Bytes) (m : ChunkMessage) (c : NodeConnection)
    → c.next_seq < max_seq
    → encode_chunk env (get_request_for address c.next_seq) ≡ ok request
    → length request < max_frame_size
    → decode_chunk env answer ≡ ok m
    → m.body ≡ get_response (ChunkGetResponse.success address content)
    → env.hashes.blake3 content ≡ address
    → Delivers
        (encode_frame (reply env seals opens c.cipher.key c.next_seq proto_chunk answer) ++ stream)
        c.transport
    → (get_verified env address c).0 ≡ ok content
unfolding get_verified
get_verified-served env seals opens address content request answer stream m c h encoded small
      decoded body hashed d =
    let (t, run, _, _) =
      round_trip-answered env seals opens proto_chunk request answer stream c h small
        (decode_chunk-small env answer m decoded) d in
    let c' = record c { next_seq = suc c.next_seq; transport = t } in
    ap (λ r. r.0)
      (bind-of_ok _ _ c c c.next_seq refl
        ∙ bind-of_ok _ _ c c request (ap (λ r. (r, c)) encoded)
        ∙ bind-of_ok _ _ c c' answer run
        ∙ bind-of_ok _ _ c' c' m (ap (λ r. (r, c')) decoded)
        ∙ ap (λ r. (r, c'))
            (ap (accept_chunk env address) body ∙ accept_chunk-success env address content hashed))
