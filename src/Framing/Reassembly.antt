-- ===== src/Framing/Reassembly.antt =====
-- src/framing.rs: `FrameBuf::push` against the stream of frames that the sender wrote.
use ant_wasm_client.Base.{
  ◌+◌, ◌%◌, ◌^◌, ◌≤◌, ◌<◌, ◌≡◌, refl, ap, sym, ◌∙◌, ◌⊎◌, none, some, ◌++◌, append_assoc, length,
  length-append, length-drop, take, drop, take-append, drop-append, take-append_le, drop-append_le,
  Bytes, ok, err, arith,
}
use ant_wasm_client.Base.Words.{
  to_be_bytes, from_be_bytes, length-to_be_bytes, from_be_bytes-to_be_bytes,
}
use ant_wasm_client.Errors.{frame_length_out_of_range}
use ant_wasm_client.Framing.{encode_frame, next_frame, push, max_frame_size}

-- A payload that the receiver's limits let through.
pub record IsSendable (p : Bytes) : Type 0 where
  pub some_bytes : 0 < length p
  pub within : length p ≤ max_frame_size

-- The header is four bytes that hold the length.
header : Bytes → Bytes
header p = to_be_bytes 4 (length p % 2 ^ 32)

length-header : (p : Bytes) → length (header p) ≡ 4
unfolding header
length-header p = length-to_be_bytes 4 _

header-value : (p : Bytes) → length p < 2 ^ 32 → from_be_bytes (header p) ≡ length p
unfolding header
header-value p h = from_be_bytes-to_be_bytes 4 _ (omega arith) ∙ omega arith

pub length-encode_frame : (p : Bytes) → length (encode_frame p) ≡ 4 + length p
unfolding encode_frame header
length-encode_frame p = length-append (header p) p ∙ omega (arith, length-header p)

-- The first four bytes of a stream that starts with a frame, once they are there.
header-prefix :
    (p rest b t : Bytes) → b ++ t ≡ encode_frame p ++ rest → 4 ≤ length b → take 4 b ≡ header p
unfolding encode_frame header
header-prefix p rest b t e h =
    sym (take-append_le 4 b t h)
    ∙ ap (take 4) (e ∙ append_assoc (header p) p rest)
    ∙ take-append 4 (header p) (p ++ rest) (length-header p)

-- The length that the receiver reads off the header.
declared :
    (p rest b t : Bytes)
    → IsSendable p
    → b ++ t ≡ encode_frame p ++ rest
    → 4 ≤ length b
    → from_be_bytes (take 4 b) ≡ length p
declared p rest b t s e h =
    ap from_be_bytes (header-prefix p rest b t e h) ∙ header-value p (omega (arith, s.within))

-- Behind the header.
behind-header :
    (p rest b t : Bytes)
    → b ++ t ≡ encode_frame p ++ rest
    → 4 ≤ length b
    → drop 4 b ++ t ≡ p ++ rest
unfolding encode_frame header
behind-header p rest b t e h =
    sym (drop-append_le 4 b t h)
    ∙ ap (drop 4) (e ∙ append_assoc (header p) p rest)
    ∙ drop-append 4 (header p) (p ++ rest) (length-header p)

payload :
    (p rest b t : Bytes)
    → b ++ t ≡ encode_frame p ++ rest
    → 4 + length p ≤ length b
    → take (length p) (drop 4 b) ≡ p
payload p rest b t e h =
    sym (take-append_le (length p) (drop 4 b) t (omega (arith, length-drop 4 b)))
    ∙ ap (take (length p)) (behind-header p rest b t e (omega arith))
    ∙ take-append (length p) p rest refl

-- Before the whole frame is there the buffer waits, and keeps what it has.
pub next_frame-waits :
    (p rest b t : Bytes)
    → IsSendable p
    → b ++ t ≡ encode_frame p ++ rest
    → length b < 4 + length p
    → next_frame b ≡ (ok none, b)
unfolding next_frame
next_frame-waits p rest b t s e h = ground (arith, declared p rest b t s e)

-- Once it is there, the payload is returned, and what stands behind the frame is kept.
pub next_frame-whole :
    (p rest b t : Bytes)
    → IsSendable p
    → b ++ t ≡ encode_frame p ++ rest
    → 4 + length p ≤ length b
    → next_frame b ≡ (ok (some p), drop (4 + length p) b)
unfolding next_frame
next_frame-whole p rest b t s e h =
    ground (arith, declared p rest b t s e (omega arith), payload p rest b t e h)

pub behind-frame :
    (p rest b t : Bytes)
    → b ++ t ≡ encode_frame p ++ rest
    → 4 + length p ≤ length b
    → drop (4 + length p) b ++ t ≡ rest
behind-frame p rest b t e h =
    sym (drop-append_le (4 + length p) b t h)
    ∙ ap (drop (4 + length p)) e
    ∙ drop-append (4 + length p) (encode_frame p) rest (length-encode_frame p)

-- A buffer that waits for more holds less than one frame of the largest size.
push-waits-small :
    (buf bytes buf' : Bytes)
    → push buf bytes ≡ (ok none, buf')
    → (buf' ≡ buf ++ bytes) × (length buf' < 4 + max_frame_size)
unfolding push next_frame
push-waits-small buf bytes buf' h = ground arith

-- A frame that declares no byte or more than the limit is refused as soon as its header is there,
-- and the buffer keeps the bytes: the next `push` is refused too.
pub push-refuses :
    (buf bytes more : Bytes)
    → 4 ≤ length (buf ++ bytes)
    → (from_be_bytes (take 4 (buf ++ bytes)) ≡ 0)
      ⊎ (max_frame_size < from_be_bytes (take 4 (buf ++ bytes)))
    → let len = from_be_bytes (take 4 (buf ++ bytes)) in
      (push buf bytes ≡ (err (frame_length_out_of_range len), buf ++ bytes))
      × ((push (buf ++ bytes) more).0 ≡ err (frame_length_out_of_range len))
unfolding push next_frame
push-refuses buf bytes more h bad = (
  ground arith,
  ground (arith, take-append_le 4 (buf ++ bytes) more h, length-append (buf ++ bytes) more),
)
