-- ===== src/Client/Examples/Paid.antt =====
-- src/lib.rs: a store of one chunk that is paid for. The bootstrap node names one peer seven times.
use ant_wasm_client.Base.{ℕ, zero, suc, false, none, some, [], ◌∷◌, Bytes, replicate, ok, err}
use ant_wasm_client.Protocol.{
  ChunkMessageBody, ChunkPutResponse, ChunkQuoteResponse, put_response, quote_response,
}
use ant_wasm_client.Env.{Env}
use ant_wasm_client.Framing.{encode_frame}
use ant_wasm_client.Transport.{from_open}
use ant_wasm_client.Conn.{NodeConnection}
use ant_wasm_client.Client.{World, Client, resolved}
use ant_wasm_client.Client.Examples.{env, world, connection, client}
use ant_wasm_client.Client.Examples.Upload.{seven_times}

-- An answer that starts with 0 took a chunk; any other is a quote for a chunk that is not stored.
abbrev taking : Bytes → ChunkMessageBody
taking [] = put_response (ChunkPutResponse.success [])
taking (zero ∷ b) = put_response (ChunkPutResponse.success b)
taking (suc t ∷ b) = quote_response (ChunkQuoteResponse.success (suc t ∷ b) false none)

abbrev seven_takers : Env
seven_takers = record seven_times { chunk = (env taking).chunk }

-- A page that pays, and whose proofs are empty.
abbrev payer : World
payer = record world {
  pay = λ _ _ _. resolved (record { as_string = some (replicate 32 5); stringify = none });
  proof = record { to_vec = λ _. ok []; from_slice = λ _. err [] };
}

abbrev answer : ℕ → ℕ → Bytes
answer seq first = encode_frame (3 ∷ 0 ∷ 0 ∷ 0 ∷ seq ∷ 1 ∷ first ∷ [])

abbrev fourteen_answers : NodeConnection
fourteen_answers = record (connection 1) {
  transport =
      from_open
        (answer 1 6
          ∷ answer 2 6
          ∷ answer 3 6
          ∷ answer 4 6
          ∷ answer 5 6
          ∷ answer 6 6
          ∷ answer 7 6
          ∷ answer 8 0
          ∷ answer 9 0
          ∷ answer 10 0
          ∷ answer 11 0
          ∷ answer 12 0
          ∷ answer 13 0
          ∷ answer 14 0
          ∷ [])
        (λ _. none);
}

abbrev uploader : Client
uploader = record client { heap = connection 2 ∷ fourteen_answers ∷ [] }
