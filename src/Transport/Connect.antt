-- ===== src/Transport/Connect.antt =====
-- src/webrtc.rs: `Transport::connect` and `Transport::connect_via_relay`. The browser's peer
-- connection is a parameter: what each call on it answers, given what it was called with.
use ant_wasm_client.Base.{
  ℕ, Bool, Option, none, some, List, [], ◌∷◌, ◌++◌, Bytes, Text, Result, ok, err, map_err, ◌>>=◌,
  ◌>>◌, if◌then◌else◌,
}
use ant_wasm_client.Errors.{
  Fallible, peer_connection_failed, getrandom_failed, create_offer_failed, set_local_failed,
  set_remote_failed, channel_not_open, no_local_description,
}
use ant_wasm_client.Action
use ant_wasm_client.Action.{Action, lift}
use ant_wasm_client.Texts.{codes}
use ant_wasm_client.Sdp.{munge_offer, server_answer, fingerprint_to_colon_form}
use ant_wasm_client.Transport.{Transport, from_open}

-- A data channel: whether it is open, whether it is after `onopen`, `onerror` or the timeout, its
-- state then, and what it carries.
pub record Channel : Type 0 where
  pub open_now : Bool
  pub open_later : Bool
  pub state : Text
  pub receiver : List Bytes
  pub faults : ℕ → Option Text

-- The gathering of ICE candidates: whether it is complete when it is looked at first, and whether it
-- completes within five seconds of that.
pub record Gathering : Type 0 where
  pub complete_now : Bool
  pub complete_later : Bool

-- When a wait for the gathering ends: without waiting, when the browser reports that it is complete,
-- or after five seconds.
pub data Moment : Type 0 where
  at_once on_complete after_timeout : Moment

-- A peer connection made with some ICE servers, and `getrandom`. `local_description` is what stands
-- there at the end of a wait for the candidates, and `channel` is the data channel under a local and
-- a remote description.
pub record Browser : Type 0 where
  pub new : List Text → Result (Unit {0}) Text
  pub random : Result Bytes Text
  pub create_offer : Result Text Text
  pub set_local_description : Text → Result (Unit {0}) Text
  pub gathering : Gathering
  pub local_description : Moment → Option Text
  pub set_remote_description : Text → Result (Unit {0}) Text
  pub channel : Text → Text → Channel

-- A transport with the descriptions of the peer connection that it owns.
pub record Opened : Type 0 where
  pub local : Text
  pub remote : Text
  pub transport : Transport

-- `wait_for_open`
unfoldable pub wait_for_open : Channel → Fallible (Unit {0})
wait_for_open dc =
    if dc.open_now
    then ok tt
    else (if dc.open_later then ok tt else err (channel_not_open dc.state))

unfoldable pub open_channel : Browser → Text → Text → Fallible Opened
unfolding wait_for_open
open_channel browser local remote = do
  let dc = browser.channel local remote
  wait_for_open dc
  ok (record { local = local; remote = remote; transport = from_open dc.receiver dc.faults })

-- `other` is `to_uppercase` beyond ASCII, `hex_encode` is that of the crate `hex`.
unfoldable pub connect :
    Browser → (Text → Text) → (Bytes → Text) → Text → ℕ → Text → Fallible Opened
unfolding open_channel
connect browser other hex_encode ip port fingerprint_hex = do
  map_err peer_connection_failed (browser.new [])
  ufrag_bytes ← map_err getrandom_failed browser.random
  let ufrag = hex_encode ufrag_bytes
  offer ← map_err create_offer_failed browser.create_offer
  munged_sdp ← munge_offer offer ufrag
  map_err set_local_failed (browser.set_local_description munged_sdp)
  let answer_sdp = server_answer ip port ufrag (fingerprint_to_colon_form other fingerprint_hex)
  map_err set_remote_failed (browser.set_remote_description answer_sdp)
  open_channel browser munged_sdp answer_sdp

abbrev described : Option Text → Fallible Text
described none = err no_local_description
described (some sdp) = ok sdp

unfoldable pub wait_for_ice_complete : Gathering → Moment
wait_for_ice_complete g =
    if g.complete_now then at_once else (if g.complete_later then on_complete else after_timeout)

-- Up to the offer that is relayed.
unfoldable pub relay_offer : Browser → Text → Fallible Text
unfolding wait_for_ice_complete
relay_offer browser stun = do
  map_err peer_connection_failed (browser.new ((codes "stun:" ++ stun) ∷ []))
  offer ← map_err create_offer_failed browser.create_offer
  map_err set_local_failed (browser.set_local_description offer)
  let moment = wait_for_ice_complete browser.gathering
  described (browser.local_description moment)

-- From the answer that came back.
unfoldable pub accept_relayed : Browser → Text → Text → Fallible Opened
unfolding open_channel
accept_relayed browser offer_sdp answer_sdp = do
  map_err set_remote_failed (browser.set_remote_description answer_sdp)
  open_channel browser offer_sdp answer_sdp

-- `exchange` runs on the object that relays.
unfoldable pub connect_via_relay :
    {S : Type 0} → Browser → Text → (Text → Action S Text) → Action S Opened
unfolding relay_offer accept_relayed
connect_via_relay browser stun exchange =
    Action.◌>>=◌ (lift (relay_offer browser stun)) (λ offer_sdp.
      Action.◌>>=◌ (exchange offer_sdp)
        (λ answer_sdp. lift (accept_relayed browser offer_sdp answer_sdp)))
