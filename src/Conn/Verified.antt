-- ===== src/Conn/Verified.antt =====
-- src/conn.rs: what `get_verified` returns.
use mathlib.Core.Path.{ap₂}
use ant_wasm_client.Base.{◌≡◌, Bytes, bytes_eq→eq, ok, arith}
use ant_wasm_client.Env.{Env}
use ant_wasm_client.Protocol.{ChunkMessageBody, ChunkGetResponse, get_response}
use ant_wasm_client.Action.{bind-eq_ok}
use ant_wasm_client.Conn.{NodeConnection, accept_chunk, get_verified}

accept_chunk-eq_ok :
    (env : Env) (address : Bytes) (body : ChunkMessageBody) (content : Bytes)
    → accept_chunk env address body ≡ ok content
    → (body ≡ get_response (ChunkGetResponse.success address content))
      × (env.hashes.blake3 content ≡ address)
unfolding accept_chunk
accept_chunk-eq_ok env address (get_response (ChunkGetResponse.success a c)) content h =
    let echoed : a ≡ address = bytes_eq→eq a address (ground arith) in
    let hashed : env.hashes.blake3 c ≡ address =
      bytes_eq→eq (env.hashes.blake3 c) address (ground arith) in
    let same : c ≡ content = ground arith in
    (ap₂ (λ x y. get_response (ChunkGetResponse.success x y)) echoed same, rw same at hashed)
accept_chunk-eq_ok env address (get_response (ChunkGetResponse.not_found _)) content h = cc
accept_chunk-eq_ok env address (get_response (ChunkGetResponse.error e)) content h = cc
accept_chunk-eq_ok env address _ content h = cc

-- Whatever the node sends, `get_verified` returns only bytes whose BLAKE3 hash is the address.
pub get_verified-hash :
    (env : Env) (address : Bytes) (c : NodeConnection) (content : Bytes)
    → (get_verified env address c).0 ≡ ok content
    → env.hashes.blake3 content ≡ address
unfolding get_verified
get_verified-hash env address c content h =
    let (_, _, h₁) = bind-eq_ok _ _ c h in
    let (_, _, h₂) = bind-eq_ok _ _ c h₁ in
    let (_, _, h₃) = bind-eq_ok _ _ _ h₂ in
    let (_, _, h₄) = bind-eq_ok _ _ _ h₃ in (accept_chunk-eq_ok env address _ content h₄).1
