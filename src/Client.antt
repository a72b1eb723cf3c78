-- ===== src/Client.antt =====
-- src/lib.rs: the client, a bootstrap connection and a pool of direct connections. An
-- `Rc<NodeConnection>` is an index into a heap, so that all holders of one share its state.
pub mod Parse
pub mod Calls
pub mod Upload
pub mod Quotes
pub mod Store
pub mod Moves
pub mod Fetched
pub mod Fallback
pub mod Group
pub mod Authentic
pub mod Held
pub mod Majority
pub mod Stored
pub mod Uploaded
pub mod Nested
pub mod Kept
pub mod Retried
pub mod Shrunk
pub mod Storing
pub mod Assigned
pub mod Forged
pub mod Returned
pub mod Connected
pub mod Relayed
pub mod Counted
pub mod Paid
pub mod Billing
pub mod Spent
pub mod Download
pub mod Finished
pub mod Downloaded
pub mod Restored
pub mod Determined
pub mod Rounds
pub mod Ends
pub mod Supplied
pub mod Complete
pub mod Served
mod Examples
use ant_wasm_client.Base.{
  ℕ, suc, Option, none, some, List, [], ◌∷◌, ◌++◌, get_elem?, set, length, Bytes, Text, Result, ok,
  err,
}
use ant_wasm_client.Assoc.{lookup, insert, remove}
use ant_wasm_client.Texts.{codes}
use ant_wasm_client.External.{Format}
use ant_wasm_client.Errors.{
  Error, Fallible, no_such_connection, no_peers, no_error, no_peer_served, pay_threw, pay_rejected,
  pay_not_text,
}
use ant_wasm_client.Payment.{Quote, PaymentProof}
use ant_wasm_client.Protocol.{PeerConnectInfo}
use ant_wasm_client.Env.{Env}
use ant_wasm_client.Transport.Connect
use ant_wasm_client.Transport.Connect.{Browser, Opened}
use ant_wasm_client.Action.{Action, pure, lift, gets, ◌>>=◌, match_result}
use ant_wasm_client.Conn.{NodeConnection, establish, closest_peers, get_verified}

-- What the code asks of a `JsValue`: `as_string`, and `JSON.stringify`, which is none where it
-- throws and otherwise the `as_string` of what it gives.
pub record JsValue : Type 0 where
  pub as_string : Option Text
  pub stringify : Option (Option Text)

abbrev stringified_or : Text → Option (Option Text) → Text
stringified_or otherwise (some (some text)) = text
stringified_or otherwise (some none) = otherwise
stringified_or otherwise none = otherwise

unfoldable pub js_display : JsValue → Text
js_display value = elim value.as_string [
  | some text ↦ text
  | none ↦ stringified_or (codes "<non-string JS error>") value.stringify
]

-- What the page's `pay` function did with one call.
pub data PayOutcome : Type 0 where
  threw rejected resolved : JsValue → PayOutcome

-- What the client runs against beside a node: the browser's peer connection at each dial, with the
-- key generation that follows; `pay`, the page's function at each call; `upper`, which is
-- `to_uppercase` beyond ASCII; the crate `hex`; `quote` and `proof`, the MessagePack formats.
pub record World : Type 0 where
  pub browser : ℕ → Browser
  pub upper : Text → Text
  pub keygen : ℕ → Result (Bytes × Bytes) Text
  pub pay : ℕ → Text → Text → PayOutcome
  pub hex_encode : Bytes → Text
  pub hex_decode : Text → Result Bytes Text
  pub quote : Format Quote
  pub proof : Format PaymentProof

-- `WasmClient`, with the heap of connections, the number of dials so far and the calls of `pay`.
pub record Client : Type 0 where
  pub bootstrap : ℕ
  pub pool : List (Bytes × ℕ)
  pub heap : List NodeConnection
  pub chunks_fetched : ℕ
  pub dialed : ℕ
  pub paid : List (Text × Text)

-- A method of the connection at an index, which is written back.
unfoldable pub run_on :
    {A : Type 0}
    → ℕ
    → Action NodeConnection A
    → Client
    → Option NodeConnection
    → Fallible A × Client
run_on id m s none = (err no_such_connection, s)
run_on id m s (some c) = let r = m c in (r.0, record s { heap = set s.heap id r.1 })

unfoldable pub on_connection : {A : Type 0} → ℕ → Action NodeConnection A → Action Client A
unfolding run_on
on_connection id m s = run_on id m s (get_elem? s.heap id)

-- A new connection on the heap and in the pool.
unfoldable pub add_connection : Bytes → NodeConnection → Action Client ℕ
add_connection key conn s = (
  ok (length s.heap),
  record s { heap = s.heap ++ (conn ∷ []); pool = insert key (length s.heap) s.pool },
)

-- The pool lets go of a connection. It stays on the heap, since the indices of others stand for it.
unfoldable pub drop_connection : Bytes → Action Client (Unit {0})
drop_connection key s = (ok tt, record s { pool = remove key s.pool })

module _ (env : Env) (world : World) where
  -- `establish` on what was dialed.
  unfoldable pub establish_on : ℕ → Option Bytes → Fallible Opened → Fallible NodeConnection
  establish_on i expected (ok opened) = (establish env (world.keygen i) expected opened.transport).0
  establish_on i expected (err e) = err e

  -- `NodeConnection::connect`
  unfoldable pub connect : Text → ℕ → Text → Option Bytes → Action Client NodeConnection
  unfolding establish_on
  connect ip port cert expected s = (
    establish_on s.dialed expected
        (Connect.connect (world.browser s.dialed) world.upper world.hex_encode ip port cert),
    record s { dialed = suc s.dialed },
  )

  unfoldable pub pooled_or_new : PeerConnectInfo → Option ℕ → Action Client ℕ
  unfolding connect add_connection
  pooled_or_new peer (some id) = pure id
  pooled_or_new peer none = do
    conn ← connect peer.ip peer.port (world.hex_encode peer.cert_hash) (some peer.peer_id)
    add_connection peer.peer_id conn

  unfoldable pub connection_for : PeerConnectInfo → Action Client ℕ
  unfolding pooled_or_new
  connection_for peer = do
    pooled ← gets (λ s. lookup peer.peer_id s.pool)
    pooled_or_new peer pooled

  -- The body of the `for` in `get_direct`.
  unfoldable pub fetch_from : Bytes → PeerConnectInfo → Action Client Bytes
  unfolding connection_for on_connection
  fetch_from address peer = do id ← connection_for peer; on_connection id (get_verified env address)

  -- The `for` of `get_direct`: the first peer that serves the chunk, else the last error.
  unfoldable pub fetch_from_any : Bytes → List PeerConnectInfo → Error → Action Client Bytes
  unfolding fetch_from
  fetch_from_any address [] last_err = lift (err (no_peer_served address last_err))
  fetch_from_any address (peer ∷ peers) last_err =
      match_result (fetch_from address peer) pure (λ e. fetch_from_any address peers e)

  unfoldable pub require_peers : List PeerConnectInfo → Fallible (List PeerConnectInfo)
  require_peers [] = err no_peers
  require_peers (peer ∷ peers) = ok (peer ∷ peers)

  unfoldable pub get_direct : Bytes → Action Client Bytes
  unfolding fetch_from_any on_connection
  get_direct address = do
    bootstrap ← gets (λ s. s.bootstrap)
    discovered ← on_connection bootstrap (closest_peers env address)
    peers ← lift (require_peers discovered)
    fetch_from_any address peers no_error

  abbrev pay_result : PayOutcome → Fallible Text
  pay_result (threw e) = err (pay_threw (js_display e))
  pay_result (rejected e) = err (pay_rejected (js_display e))
  pay_result (resolved value) = elim value.as_string [
    | some text ↦ ok text
    | none ↦ err pay_not_text
  ]

  unfoldable pub call_pay : Text → Text → Action Client Text
  call_pay to calldata s = (
    pay_result (world.pay (length s.paid) to calldata),
    record s { paid = s.paid ++ ((to, calldata) ∷ []) },
  )

  -- `hex_0x`, which is `to_hex` on an address.
  unfoldable pub hex_0x : Bytes → Text
  hex_0x bytes = b'0' ∷ b'x' ∷ world.hex_encode bytes
