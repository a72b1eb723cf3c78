-- ===== src/Transport/Sending.antt =====
-- src/webrtc.rs: `send_frame`, and the way of a frame from one transport to another.
use ant_wasm_client.Base.{
  ℕ, suc, ◌≡◌, refl, ap, sym, ◌∙◌, subst, Option, none, List, [], ◌∷◌, ◌++◌, append_assoc,
  append-nil, concat, length, map, All, Bytes, Text, ok, arith,
}
use ant_wasm_client.Framing.{encode_frame, split_messages}
use ant_wasm_client.Framing.Chunks.{split_messages_lem}
use ant_wasm_client.Framing.Reassembly.{IsSendable}
use ant_wasm_client.Transport.{Transport, from_open, send_message, send_messages, send_frame}
use ant_wasm_client.Transport.Delivery.{frames, receive_all, receive_all-any_cut}

abbrev pub NoFaults : (ℕ → Option Text) → Type 0
NoFaults faults = (i : ℕ) → faults i ≡ none

concat-append : (xs ys : List Bytes) → concat (xs ++ ys) ≡ concat xs ++ concat ys
concat-append [] ys = refl
concat-append (x ∷ xs) ys =
    ap (λ t. x ++ t) (concat-append xs ys) ∙ sym (append_assoc x (concat xs) (concat ys))

-- A transport after all of `msgs` went out.
abbrev pub after : List Bytes → Transport → Transport
after [] t = t
after (m ∷ ms) t = after ms (record t { sent = t.sent ++ (m ∷ []); attempts = suc t.attempts })

send_message-ok :
    (t : Transport) (m : Bytes)
    → t.faults t.attempts ≡ none
    → send_message t m ≡ (ok tt, record t { sent = t.sent ++ (m ∷ []); attempts = suc t.attempts })
unfolding send_message
send_message-ok t m h = ground (arith, h)

send_messages-after :
    (msgs : List Bytes) (t : Transport)
    → NoFaults t.faults
    → send_messages msgs t ≡ (ok tt, after msgs t)
unfolding send_messages
send_messages-after [] t h = refl
send_messages-after (m ∷ ms) t h = ground (
  arith,
  send_message-ok t m (h t.attempts),
  send_messages-after ms (record t { sent = t.sent ++ (m ∷ []); attempts = suc t.attempts }) h,
)

pub send_frame-after :
    (payload : Bytes) (t : Transport)
    → NoFaults t.faults
    → send_frame payload t ≡ (ok tt, after (split_messages (encode_frame payload)) t)
unfolding send_frame
send_frame-after payload t h = send_messages-after (split_messages (encode_frame payload)) t h

pub after-sent : (msgs : List Bytes) (t : Transport) → (after msgs t).sent ≡ t.sent ++ msgs
after-sent [] t = sym (append-nil t.sent)
after-sent (m ∷ ms) t = after-sent ms _ ∙ append_assoc t.sent (m ∷ []) ms

pub after-faults : (msgs : List Bytes) (t : Transport) → (after msgs t).faults ≡ t.faults
after-faults [] t = refl
after-faults (m ∷ ms) t = after-faults ms _

-- `send_frame` called for each payload in turn, results aside.
abbrev pub send_all : List Bytes → Transport → Transport
send_all [] t = t
send_all (p ∷ ps) t = send_all ps (send_frame p t).1

send_all-frames :
    (ps : List Bytes) (t : Transport)
    → NoFaults t.faults
    → concat (send_all ps t).sent ≡ concat t.sent ++ frames ps
send_all-frames [] t h = sym (append-nil (concat t.sent))
send_all-frames (p ∷ ps) t h =
    let msgs = split_messages (encode_frame p) in
    let sent : (send_frame p t).1 ≡ after msgs t = ap (λ r. r.1) (send_frame-after p t h) in
    ap (λ u. concat (send_all ps u).sent) sent
    ∙ (send_all-frames ps (after msgs t) (subst NoFaults (sym (after-faults msgs t)) h)
        ∙ ap (λ m. concat m ++ frames ps) (after-sent msgs t)
        ∙ ap (λ b. b ++ frames ps) (concat-append t.sent msgs)
        ∙ append_assoc (concat t.sent) (concat msgs) (frames ps)
        ∙ ap (λ b. concat t.sent ++ (b ++ frames ps)) (split_messages_lem (encode_frame p)).0)

-- Payloads that are sent one after another over a channel on which no `send` fails arrive at the
-- other end whole, unchanged and in order, for payloads of 1 to 5 MiB + 64 bytes.
pub receive_all-send_all :
    (ps : List Bytes) (faults : ℕ → Option Text) (far : ℕ → Option Text)
    → NoFaults faults
    → All IsSendable ps
    → receive_all (length ps) (from_open (send_all ps (from_open [] faults)).sent far) ≡ map ok ps
receive_all-send_all ps faults far h hs =
    receive_all-any_cut ps _ far hs (unfold from_open in send_all-frames ps (from_open [] faults) h)
