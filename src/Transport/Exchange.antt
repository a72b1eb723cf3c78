-- ===== src/Transport/Exchange.antt =====
-- src/webrtc.rs: one frame sent or received on a transport, and what it leaves.
use ant_wasm_client.Base.{◌≡◌, refl, ap, sym, ◌∙◌, subst, List, [], ◌∷◌, ◌++◌, concat, Bytes, ok}
use ant_wasm_client.Framing.{encode_frame, split_messages}
use ant_wasm_client.Framing.Reassembly.{IsSendable}
use ant_wasm_client.Transport.{Transport, recv_frame, send_frame}
use ant_wasm_client.Transport.Delivery.{recv_loop-Gets}
use ant_wasm_client.Transport.Sending.{NoFaults, after, after-faults, after-sent, send_frame-after}

-- What the buffer and the channel still hold.
abbrev pub pending : Transport → Bytes
pending t = t.frame_buf ++ concat t.receiver

-- A transport on which no `send` fails and on which some bytes are still to come.
pub record Delivers (stream : Bytes) (t : Transport) : Type 0 where
  pub held : pending t ≡ stream
  pub no_faults : NoFaults t.faults

after-pending : (msgs : List Bytes) (t : Transport) → pending (after msgs t) ≡ pending t
after-pending [] t = refl
after-pending (m ∷ ms) t = after-pending ms _

-- A send takes nothing from what is to come.
pub send_frame-Delivers :
    (payload stream : Bytes) (t : Transport)
    → Delivers stream t
    → (t' : Transport) × (send_frame payload t ≡ (ok tt, t'))
      × Delivers stream t'
      × (t'.sent ≡ t.sent ++ split_messages (encode_frame payload))
send_frame-Delivers payload stream t d =
    let msgs = split_messages (encode_frame payload) in
    (
      after msgs t,
      send_frame-after payload t d.no_faults,
      record {
        held = after-pending msgs t ∙ d.held;
        no_faults = subst NoFaults (sym (after-faults msgs t)) d.no_faults;
      },
      after-sent msgs t,
    )

-- A receive takes the first frame of what is to come.
pub recv_frame-Delivers :
    (payload stream : Bytes) (t : Transport)
    → IsSendable payload
    → Delivers (encode_frame payload ++ stream) t
    → (t' : Transport) × (recv_frame t ≡ (ok payload, t')) × Delivers stream t' × (t'.sent ≡ t.sent)
unfolding recv_frame
recv_frame-Delivers payload stream t s d =
    let got = recv_loop-Gets payload stream s t.frame_buf t.receiver d.held in
    (
      (recv_frame t).1,
      ap (λ r. (r, (recv_frame t).1)) got.result,
      record { held = got.left; no_faults = d.no_faults },
      refl,
    )
