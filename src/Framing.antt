-- ===== src/Framing.antt =====
-- src/framing.rs: one application frame is a 4-byte big-endian length and the payload; a frame is
-- cut into `DataChannel` messages, and `FrameBuf` puts frames together again.
pub mod Chunks
pub mod Reassembly
mod Examples
use ant_wasm_client.Base.{
  ℕ, zero, suc, ◌+◌, ◌*◌, ◌%◌, ◌^◌, ◌||◌, Option, none, some, List, [], ◌∷◌, ◌++◌, length, take,
  drop, ltb, ◌==◌, if◌then◌else◌, Bytes, ok, err,
}
use ant_wasm_client.Base.Words.{to_be_bytes, from_be_bytes}
use ant_wasm_client.Protocol.{max_wire_message_size}
use ant_wasm_client.Errors.{Fallible, frame_length_out_of_range}

abbrev pub max_dc_message_size : ℕ
max_dc_message_size = 16 * 1024

abbrev pub max_frame_size : ℕ
max_frame_size = max_wire_message_size + 64

-- `payload.len() as u32` keeps the low 32 bits.
unfoldable pub encode_frame : Bytes → Bytes
encode_frame payload = to_be_bytes 4 (length payload % 2 ^ 32) ++ payload

-- `slice::chunks`, with as many rounds as the list has elements.
chunks_loop : ℕ → ℕ → Bytes → List Bytes
chunks_loop zero n xs = []
chunks_loop (suc fuel) n [] = []
chunks_loop (suc fuel) n (x ∷ xs) = take n (x ∷ xs) ∷ chunks_loop fuel n (drop n (x ∷ xs))

unfoldable pub chunks : ℕ → Bytes → List Bytes
unfolding chunks_loop
chunks n xs = chunks_loop (length xs) n xs

unfoldable pub split_messages : Bytes → List Bytes
split_messages wire = chunks max_dc_message_size wire

-- What `push` does once the bytes are appended: its result, and the buffer that it leaves.
unfoldable pub next_frame : Bytes → Fallible (Option Bytes) × Bytes
next_frame buf =
    if ltb (length buf) 4
    then (ok none, buf)
    else (let len = from_be_bytes (take 4 buf) in
        if len == 0 || ltb max_frame_size len
        then (err (frame_length_out_of_range len), buf)
        else (if ltb (length buf) (4 + len)
            then (ok none, buf)
            else (ok (some (take len (drop 4 buf))), drop (4 + len) buf)))

-- `FrameBuf::push`, on the field `buf`.
unfoldable pub push : Bytes → Bytes → Fallible (Option Bytes) × Bytes
push buf bytes = next_frame (buf ++ bytes)
