-- ===== src/Transport/Delivery.antt =====
-- src/webrtc.rs: `recv_frame` against the byte stream of the frames that were sent.
use ant_wasm_client.Base.{
  ℕ, zero, suc, ◌+◌, ◌≤◌, ◌≡◌, refl, ap, ◌∙◌, Option, none, some, List, [], ◌∷◌, ◌++◌, append_assoc,
  append-nil, concat, length, length-append, drop, map, All, Bytes, Text, ok, arith,
}
use mathlib.Core.Path.{ap₂}
use native.Mathlib.Decide.{dec_le}
use ant_wasm_client.Errors.{Fallible}
use ant_wasm_client.Framing.{encode_frame, next_frame, push}
use ant_wasm_client.Framing.Reassembly.{
  IsSendable, next_frame-waits, next_frame-whole, behind-frame, length-encode_frame,
}
use ant_wasm_client.Transport.{Transport, from_open, Received, recv_loop, recv_frame}

-- `p` was received, and what the buffer and the channel still hold is `rest`.
pub record Gets (p rest : Bytes) (r : Received) : Type 0 where
  pub result : r.result ≡ ok p
  pub left : r.buf ++ concat r.rest ≡ rest

pub drain-nil : (b : Bytes) → push b [] ≡ next_frame b
unfolding push
drain-nil b = ap next_frame (append-nil b)

pub push-next :
    (b raw : Bytes) {r : Fallible (Option Bytes) × Bytes}
    → next_frame (b ++ raw) ≡ r
    → push b raw ≡ r
unfolding push
push-next b raw h = h

-- One round of the loop, by what is buffered.
pub recv_loop-ready :
    (b f b' : Bytes) (msgs : List Bytes)
    → next_frame b ≡ (ok (some f), b')
    → recv_loop b msgs ≡ record { result = ok f; buf = b'; rest = msgs }
unfolding recv_loop
recv_loop-ready b f b' [] h = ground (arith, drain-nil b ∙ h)
recv_loop-ready b f b' (raw ∷ msgs) h = ground (arith, drain-nil b ∙ h)

pub recv_loop-filled :
    (b raw f b' : Bytes) (msgs : List Bytes)
    → next_frame b ≡ (ok none, b)
    → push b raw ≡ (ok (some f), b')
    → recv_loop b (raw ∷ msgs) ≡ record { result = ok f; buf = b'; rest = msgs }
unfolding recv_loop
recv_loop-filled b raw f b' msgs h k = ground (arith, drain-nil b ∙ h)

pub recv_loop-round :
    (b raw : Bytes) (msgs : List Bytes)
    → next_frame b ≡ (ok none, b)
    → push b raw ≡ (ok none, b ++ raw)
    → recv_loop b (raw ∷ msgs) ≡ recv_loop (b ++ raw) msgs
unfolding recv_loop
recv_loop-round b raw msgs h k = ground (arith, drain-nil b ∙ h)

module _ (p rest : Bytes) (s : IsSendable p) where
  Gets-whole :
      (b : Bytes) (msgs : List Bytes)
      → b ++ concat msgs ≡ encode_frame p ++ rest
      → 4 + length p ≤ length b
      → Gets p rest (record { result = ok p; buf = drop (4 + length p) b; rest = msgs })
  Gets-whole b msgs e h = record { result = refl; left = behind-frame p rest b (concat msgs) e h }

  recv_loop-whole :
      (b : Bytes) (msgs : List Bytes)
      → b ++ concat msgs ≡ encode_frame p ++ rest
      → 4 + length p ≤ length b
      → Gets p rest (recv_loop b msgs)
  recv_loop-whole b msgs e h =
      rw (recv_loop-ready b p _ msgs (next_frame-whole p rest b (concat msgs) s e h))
        (Gets-whole b msgs e h)

  pub recv_loop-Gets :
      (b : Bytes) (msgs : List Bytes)
      → b ++ concat msgs ≡ encode_frame p ++ rest
      → Gets p rest (recv_loop b msgs)
  recv_loop-Gets b [] e = recv_loop-whole b [] e (
      omega (
        arith,
        ap length e,
        length-append b [],
        length-append (encode_frame p) rest,
        length-encode_frame p,
      ))
  recv_loop-Gets b (raw ∷ msgs) e =
      let e' = append_assoc b raw (concat msgs) ∙ e in
      elim (dec_le (4 + length p) (length b)) [
        | yes h ↦ recv_loop-whole b (raw ∷ msgs) e h
        | no short ↦
            let wait = next_frame-waits p rest b (raw ++ concat msgs) s e (omega arith) in
            elim (dec_le (4 + length p) (length (b ++ raw))) [
              | yes h ↦
                  rw
                    (recv_loop-filled b raw p _ msgs wait
                      (push-next b raw (next_frame-whole p rest (b ++ raw) (concat msgs) s e' h)))
                    (Gets-whole (b ++ raw) msgs e' h)
              | no short' ↦
                  rw
                    (recv_loop-round b raw msgs wait (
                      push-next b raw
                        (next_frame-waits p rest (b ++ raw) (concat msgs) s e' (omega arith))))
                    (recv_loop-Gets (b ++ raw) msgs e')
            ]
      ]

-- A transport that will see, in its buffer and from the channel, the frames of `ps`.
abbrev pub frames : List Bytes → Bytes
frames [] = []
frames (p ∷ ps) = encode_frame p ++ frames ps

-- `recv_frame` called once for each expected frame.
abbrev pub receive_all : ℕ → Transport → List (Fallible Bytes)
receive_all zero t = []
receive_all (suc n) t = let r = recv_frame t in r.0 ∷ receive_all n r.1

receive_all-frames :
    (ps : List Bytes) (t : Transport)
    → All IsSendable ps
    → t.frame_buf ++ concat t.receiver ≡ frames ps
    → receive_all (length ps) t ≡ map ok ps
receive_all-frames [] t h e = refl
receive_all-frames (p ∷ ps) t (hp, hps) e =
    let got = recv_loop-Gets p (frames ps) hp t.frame_buf t.receiver e in
    ap₂ ◌∷◌ (unfold recv_frame in got.result)
      (receive_all-frames ps (recv_frame t).1 hps (unfold recv_frame in got.left))

-- Payloads of at least one byte within the limit arrive whole and in order, however the channel
-- cuts the bytes of their frames into messages.
pub receive_all-any_cut :
    (ps msgs : List Bytes) (faults : ℕ → Option Text)
    → All IsSendable ps
    → concat msgs ≡ frames ps
    → receive_all (length ps) (from_open msgs faults) ≡ map ok ps
unfolding from_open
receive_all-any_cut ps msgs faults h e = receive_all-frames ps _ h e
