-- ===== src/Transport.antt =====
-- src/webrtc.rs: the framed transport over an open data channel. The browser is the environment:
-- `receiver` is every message that the channel delivers before it closes, in order, and `faults`
-- says of each `send` call, counted by `attempts`, whether it fails and with which text.
pub mod Delivery
pub mod Decoding
pub mod Sending
pub mod Exchange
pub mod Connect
mod Examples
use ant_wasm_client.Base.{ℕ, suc, Option, none, some, List, [], ◌∷◌, ◌++◌, Bytes, Text, ok, err}
use ant_wasm_client.Errors.{Fallible, connection_closed, data_channel_send}
use ant_wasm_client.Framing.{encode_frame, split_messages, push}

pub record Transport : Type 0 where
  pub receiver : List Bytes
  pub frame_buf : Bytes
  pub sent : List Bytes
  pub attempts : ℕ
  pub faults : ℕ → Option Text

-- `from_open`, on a channel that will deliver `receiver`.
unfoldable pub from_open : List Bytes → (ℕ → Option Text) → Transport
from_open receiver faults = record {
  receiver = receiver;
  frame_buf = [];
  sent = [];
  attempts = 0;
  faults = faults;
}

-- `send_with_u8_array`
send_message : Transport → Bytes → Fallible (Unit {0}) × Transport
send_message t msg = elim (t.faults t.attempts) [
  | none ↦ (ok tt, record t { sent = t.sent ++ (msg ∷ []); attempts = suc t.attempts })
  | some e ↦ (err (data_channel_send e), record t { attempts = suc t.attempts })
]

-- The `for` of `send_frame`: what was sent before a failure stays sent.
send_messages : List Bytes → Transport → Fallible (Unit {0}) × Transport
unfolding send_message
send_messages [] t = (ok tt, t)
send_messages (msg ∷ msgs) t =
    let r = send_message t msg in elim r.0 [ ok u ↦ send_messages msgs r.1 | err e ↦ (err e, r.1) ]

unfoldable pub send_frame : Bytes → Transport → Fallible (Unit {0}) × Transport
unfolding send_messages
send_frame payload t = send_messages (split_messages (encode_frame payload)) t

-- What `recv_frame` leaves of the buffer and of the messages still to come.
pub record Received : Type 0 where
  pub result : Fallible Bytes
  pub buf : Bytes
  pub rest : List Bytes

-- The `loop` of `recv_frame`. Each round drains the buffer, then waits for one message; a channel
-- that is closed has none left. A channel that stays open and silent, on which the wait never ends,
-- is not in the model.
unfoldable pub recv_loop : Bytes → List Bytes → Received
recv_loop buf [] =
    let drained = push buf [] in
    elim drained.0 [
      | err e ↦ record { result = err e; buf = drained.1; rest = [] }
      | ok (some frame) ↦ record { result = ok frame; buf = drained.1; rest = [] }
      | ok none ↦ record { result = err connection_closed; buf = drained.1; rest = [] }
    ]
recv_loop buf (raw ∷ rest) =
    let drained = push buf [] in
    elim drained.0 [
      | err e ↦ record { result = err e; buf = drained.1; rest = raw ∷ rest }
      | ok (some frame) ↦ record { result = ok frame; buf = drained.1; rest = raw ∷ rest }
      | ok none ↦
          let pushed = push drained.1 raw in
          elim pushed.0 [
            | err e ↦ record { result = err e; buf = pushed.1; rest = rest }
            | ok (some frame) ↦ record { result = ok frame; buf = pushed.1; rest = rest }
            | ok none ↦ recv_loop pushed.1 rest
          ]
    ]

unfoldable pub recv_frame : Transport → Fallible Bytes × Transport
unfolding recv_loop
recv_frame t =
    let r = recv_loop t.frame_buf t.receiver in
    (r.result, record t { frame_buf = r.buf; receiver = r.rest })
