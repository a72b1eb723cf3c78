-- ===== src/Protocol/Discovery.antt =====
-- src/discovery.rs: the discovery and signaling-relay messages.
use ant_wasm_client.Base.{ℕ, List, Bytes, Text}

abbrev pub proto_chunk : ℕ
proto_chunk = 0x01

abbrev pub proto_discovery : ℕ
proto_discovery = 0x02

abbrev pub proto_signal : ℕ
proto_signal = 0x03

pub record PeerConnectInfo : Type 0 where
  pub peer_id : Bytes
  pub ip : Text
  pub port : ℕ
  pub cert_hash : Bytes

pub record ClosestPeersRequest : Type 0 where
  pub address : Bytes

pub record ClosestPeersResponse : Type 0 where
  pub peers : List PeerConnectInfo

pub data DiscoveryBody : Type 0 where
  closest_peers_request : ClosestPeersRequest → DiscoveryBody
  closest_peers_response : ClosestPeersResponse → DiscoveryBody
  error : Text → DiscoveryBody

pub record DiscoveryMessage : Type 0 where
  pub request_id : ℕ
  pub body : DiscoveryBody

pub record SignalRelayRequest : Type 0 where
  pub target_peer_id : Bytes
  pub sdp_offer : Text

pub record SignalRelayResponse : Type 0 where
  pub sdp_answer : Text

pub data SignalRelayBody : Type 0 where
  request : SignalRelayRequest → SignalRelayBody
  response : SignalRelayResponse → SignalRelayBody
  error : Text → SignalRelayBody

pub record SignalRelayMessage : Type 0 where
  pub request_id : ℕ
  pub body : SignalRelayBody
