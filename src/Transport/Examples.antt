-- ===== src/Transport/Examples.antt =====
-- src/webrtc.rs on a channel with concrete messages.
use ant_wasm_client.Base.{
  ◌≡◌, refl, true, false, none, List, [], ◌∷◌, ◌++◌, map, All, Bytes, Text, take, drop, ok, err,
  arith,
}
use ant_wasm_client.Base.Words.{from_be_bytes}
use ant_wasm_client.Errors.{frame_length_out_of_range}
use ant_wasm_client.Texts.{codes}
use ant_wasm_client.Sdp.{crlf, server_answer}
use ant_wasm_client.Transport.Connect.{Browser, Opened}
use ant_wasm_client.Framing.Reassembly.{IsSendable}
use ant_wasm_client.Transport.{from_open}
use ant_wasm_client.Transport.Delivery.{receive_all}
use ant_wasm_client.Transport.Decoding.{decode_first, decode_frames, receive_all-decode_frames}
use ant_wasm_client.Transport.Sending.{send_all, receive_all-send_all}

abbrev payloads : List Bytes
payloads = (7 ∷ 9 ∷ []) ∷ (8 ∷ []) ∷ []

payloads-IsSendable : All IsSendable payloads
payloads-IsSendable = (
  record { some_bytes = omega arith; within = omega arith },
  (record { some_bytes = omega arith; within = omega arith }, tt),
)

receive_all-send_all_example :
    receive_all 2 (from_open (send_all payloads (from_open [] (λ _. none))).sent (λ _. none))
    ≡ map ok payloads
receive_all-send_all_example =
    receive_all-send_all payloads (λ _. none) (λ _. none) (λ i. refl) payloads-IsSendable

abbrev offer : Text
offer = codes "a=ice-ufrag:x" ++ (0x0a ∷ codes "a=ice-pwd:y")

abbrev browser : Browser
browser = record {
  new = λ _. ok tt;
  random = ok (7 ∷ []);
  create_offer = ok offer;
  set_local_description = λ _. ok tt;
  gathering = record { complete_now = false; complete_later = true };
  local_description = λ _. none;
  set_remote_description = λ _. ok tt;
  channel = λ _ _. record {
    open_now = false;
    open_later = true;
    state = [];
    receiver = [];
    faults = λ _. none;
  };
}

abbrev opened : Opened
opened = record {
  local = codes "a=ice-ufrag:" ++ (7 ∷ (crlf ++ (codes "a=ice-pwd:" ++ (7 ∷ crlf))));
  remote = server_answer (codes "::1") 4070 (7 ∷ []) (codes "AB");
  transport = from_open [] (λ _. none);
}

-- One frame in two messages, then a header that declares no byte.
receive_all-decode_frames_example :
    receive_all 2 (record (from_open ((1 ∷ 8 ∷ 0 ∷ []) ∷ (0 ∷ 0 ∷ 0 ∷ []) ∷ []) (λ _. none)) {
      frame_buf = 0 ∷ 0 ∷ 0 ∷ [];
    })
    ≡ ok (8 ∷ []) ∷ err (frame_length_out_of_range 0) ∷ []
unfolding decode_frames decode_first take drop from_be_bytes from_open
receive_all-decode_frames_example =
    receive_all-decode_frames 2
      (record (from_open ((1 ∷ 8 ∷ 0 ∷ []) ∷ (0 ∷ 0 ∷ 0 ∷ []) ∷ []) (λ _. none)) {
        frame_buf = 0 ∷ 0 ∷ 0 ∷ [];
      })
