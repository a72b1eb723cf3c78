-- ===== src/Transport/Decoding.antt =====
-- src/webrtc.rs: `recv_frame` against a decoder of the whole byte stream.
use ant_wasm_client.Base.{
  ℕ, zero, suc, ◌+◌, ◌≡◌, refl, sym, ap, ◌∙◌, subst, ◌||◌, Option, none, some, List, [], ◌∷◌, ◌++◌,
  append_assoc, append-nil, concat, length, length-append, take, drop, take-append_le,
  drop-append_le, length-drop, ltb, ◌==◌, if◌then◌else◌, Bytes, ok, err, arith,
}
use mathlib.Core.Path.{ap₂}
use ant_wasm_client.Base.Words.{from_be_bytes}
use ant_wasm_client.Errors.{Error, Fallible, connection_closed, frame_length_out_of_range}
use ant_wasm_client.Framing.{next_frame, max_frame_size}
use ant_wasm_client.Transport.{Transport, Received, recv_loop, recv_frame}
use ant_wasm_client.Transport.Delivery.{
  receive_all, drain-nil, push-next, recv_loop-ready, recv_loop-filled, recv_loop-round,
}
use ant_wasm_client.Transport.Exchange.{pending}

-- The first frame of a stream that ends, and what is behind it. A header that is out of range, or a
-- stream that ends before the frame does, leaves all of it.
unfoldable pub decode_first : Bytes → Fallible Bytes × Bytes
decode_first stream =
    let len = from_be_bytes (take 4 stream) in
    if ltb (length stream) 4
    then (err connection_closed, stream)
    else (if len == 0 || ltb max_frame_size len
        then (err (frame_length_out_of_range len), stream)
        else (if ltb (length stream) (4 + len)
            then (err connection_closed, stream)
            else (ok (take len (drop 4 stream)), drop (4 + len) stream)))

-- A number of frames, one after another.
unfoldable pub decode_frames : ℕ → Bytes → List (Fallible Bytes)
unfolding decode_first
decode_frames zero stream = []
decode_frames (suc n) stream = let r = decode_first stream in r.0 ∷ decode_frames n r.1

-- What a receive makes of a drained buffer once the channel is closed.
settle : Fallible (Option Bytes) × Bytes → Fallible Bytes × Bytes
settle (err e, buf) = (err e, buf)
settle (ok none, buf) = (err connection_closed, buf)
settle (ok (some frame), buf) = (ok frame, buf)

settle-next_frame : (stream : Bytes) → settle (next_frame stream) ≡ decode_first stream
unfolding next_frame decode_first settle
settle-next_frame stream = ground arith

-- A buffer that gives nothing is kept.
next_frame-none : (b b' : Bytes) → next_frame b ≡ (ok none, b') → b' ≡ b
unfolding next_frame
next_frame-none b b' h = ground arith

-- A frame, or a refusal, does not depend on what comes later.
next_frame-some :
    (b f b' t : Bytes)
    → next_frame b ≡ (ok (some f), b')
    → next_frame (b ++ t) ≡ (ok (some f), b' ++ t)
unfolding next_frame
next_frame-some b f b' t h =
    let len = from_be_bytes (take 4 b) in
    ground (
      arith,
      length-append b t,
      length-drop 4 b,
      take-append_le 4 b t,
      drop-append_le 4 b t,
      take-append_le len (drop 4 b) t,
      drop-append_le (4 + len) b t,
    )

next_frame-err :
    (b b' t : Bytes) (e : Error)
    → next_frame b ≡ (err e, b')
    → next_frame (b ++ t) ≡ (err e, b' ++ t)
unfolding next_frame
next_frame-err b b' t e h = ground (arith, length-append b t, take-append_le 4 b t)

-- A receive, and what is still to come.
abbrev outcome : Received → Fallible Bytes × Bytes
outcome r = (r.result, r.buf ++ concat r.rest)

drained_err :
    (b b' : Bytes) (msgs : List Bytes) (e : Error)
    → next_frame b ≡ (err e, b')
    → outcome (recv_loop b msgs) ≡ (err e, b' ++ concat msgs)
unfolding recv_loop
drained_err b b' [] e h = ground (arith, drain-nil b ∙ h)
drained_err b b' (raw ∷ msgs) e h = ground (arith, drain-nil b ∙ h)

drained_some :
    (b f b' : Bytes) (msgs : List Bytes)
    → next_frame b ≡ (ok (some f), b')
    → outcome (recv_loop b msgs) ≡ (ok f, b' ++ concat msgs)
drained_some b f b' msgs h = ap outcome (recv_loop-ready b f b' msgs h)

pushed_err :
    (b raw b' : Bytes) (msgs : List Bytes) (e : Error)
    → next_frame b ≡ (ok none, b)
    → next_frame (b ++ raw) ≡ (err e, b')
    → outcome (recv_loop b (raw ∷ msgs)) ≡ (err e, b' ++ concat msgs)
unfolding recv_loop
pushed_err b raw b' msgs e h k = ground (arith, drain-nil b ∙ h, push-next b raw k)

closed :
    (b : Bytes)
    → next_frame b ≡ (ok none, b)
    → outcome (recv_loop b []) ≡ (err connection_closed, b ++ [])
unfolding recv_loop
closed b h = ground (arith, drain-nil b ∙ h)

data Drained (b : Bytes) : Type 0 where
  waits : next_frame b ≡ (ok none, b) → Drained b
  gives : (f b' : Bytes) → next_frame b ≡ (ok (some f), b') → Drained b
  refuses : (e : Error) (b' : Bytes) → next_frame b ≡ (err e, b') → Drained b

next_frame-Drained :
    (b : Bytes) (r : Fallible (Option Bytes) × Bytes) → next_frame b ≡ r → Drained b
next_frame-Drained b (ok none, b') h =
    waits
      (h ∙ ap {B = Fallible (Option Bytes) × Bytes} (λ c. (ok none, c)) (next_frame-none b b' h))
next_frame-Drained b (ok (some f), b') h = gives f b' h
next_frame-Drained b (err e, b') h = refuses e b' h

recv_loop-settled :
    (b : Bytes) (msgs : List Bytes)
    → Drained b
    → outcome (recv_loop b msgs) ≡ settle (next_frame (b ++ concat msgs))
unfolding settle
recv_loop-settled b msgs (gives f b' h) =
    drained_some b f b' msgs h ∙ ap settle (sym (next_frame-some b f b' (concat msgs) h))
recv_loop-settled b msgs (refuses e b' h) =
    drained_err b b' msgs e h ∙ ap settle (sym (next_frame-err b b' (concat msgs) e h))
recv_loop-settled b [] (waits h) =
    let gone : next_frame (b ++ []) ≡ (ok none, b ++ []) =
      subst (λ c. next_frame c ≡ (ok none, c)) (sym (append-nil b)) h in
    closed b h ∙ ap settle (sym gone)
recv_loop-settled b (raw ∷ msgs) (waits h) =
    let whole = ap (λ s. settle (next_frame s)) (append_assoc b raw (concat msgs)) in
    elim (next_frame-Drained (b ++ raw) (next_frame (b ++ raw)) refl) [
      | gives f b' k ↦
          ap outcome (recv_loop-filled b raw f b' msgs h (push-next b raw k))
          ∙ ap settle (sym (next_frame-some (b ++ raw) f b' (concat msgs) k))
          ∙ whole
      | refuses e b' k ↦
          pushed_err b raw b' msgs e h k
          ∙ ap settle (sym (next_frame-err (b ++ raw) b' (concat msgs) e k))
          ∙ whole
      | waits k ↦
          ap outcome (recv_loop-round b raw msgs h (push-next b raw k))
          ∙ recv_loop-settled (b ++ raw) msgs (waits k)
          ∙ whole
    ]

-- What a receive returns and leaves is the first frame of all that is still to come.
recv_frame-decode :
    (t : Transport) → ((recv_frame t).0, pending (recv_frame t).1) ≡ decode_first (pending t)
unfolding recv_frame
recv_frame-decode t =
    recv_loop-settled t.frame_buf t.receiver
      (next_frame-Drained t.frame_buf (next_frame t.frame_buf) refl)
    ∙ settle-next_frame (pending t)

-- Receiving is decoding: however the channel cuts a byte stream into messages and whatever is
-- buffered already, the results of a number of receives are those of the decoder on the whole
-- stream, for malformed streams and streams that end too early as for others.
pub receive_all-decode_frames :
    (n : ℕ) (t : Transport) → receive_all n t ≡ decode_frames n (pending t)
unfolding decode_frames
receive_all-decode_frames zero t = refl
receive_all-decode_frames (suc n) t =
    let one = recv_frame-decode t in
    ap₂ ◌∷◌ (ap (λ r. r.0) one)
      (receive_all-decode_frames n (recv_frame t).1 ∙ ap (λ r. decode_frames n r.1) one)
