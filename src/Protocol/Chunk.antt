-- ===== src/Protocol/Chunk.antt =====
-- src/protocol.rs: the messages of `autonomi.ant.chunk.v1`.
use ant_wasm_client.Base.{ℕ, ◌*◌, Bool, Option, Bytes, Text}

abbrev pub max_wire_message_size : ℕ
max_wire_message_size = 5 * 1024 * 1024

pub data ProtocolError : Type 0 where
  serialization_failed deserialization_failed : Text → ProtocolError
  message_too_large chunk_too_large : ℕ → ℕ → ProtocolError
  address_mismatch : Bytes → Bytes → ProtocolError
  storage_failed payment_failed quote_failed internal : Text → ProtocolError

pub record ChunkPutRequest : Type 0 where
  pub address : Bytes
  pub content : Bytes
  pub payment_proof : Option Bytes

pub data ChunkPutResponse : Type 0 where
  success already_exists : Bytes → ChunkPutResponse
  payment_required : Text → ChunkPutResponse
  error : ProtocolError → ChunkPutResponse

pub record ChunkGetRequest : Type 0 where
  pub address : Bytes

pub data ChunkGetResponse : Type 0 where
  success : Bytes → Bytes → ChunkGetResponse
  not_found : Bytes → ChunkGetResponse
  error : ProtocolError → ChunkGetResponse

pub record ChunkQuoteRequest : Type 0 where
  pub address : Bytes
  pub data_size : ℕ
  pub data_type : ℕ

pub data ChunkQuoteResponse : Type 0 where
  success : Bytes → Bool → Option Bytes → ChunkQuoteResponse
  error : ProtocolError → ChunkQuoteResponse

pub record MerkleCandidateQuoteRequest : Type 0 where
  pub address : Bytes
  pub data_type : ℕ
  pub data_size : ℕ
  pub merkle_payment_timestamp : ℕ

pub data MerkleCandidateQuoteResponse : Type 0 where
  success : Bytes → Option Bytes → MerkleCandidateQuoteResponse
  error : ProtocolError → MerkleCandidateQuoteResponse

pub data ChunkMessageBody : Type 0 where
  put_request : ChunkPutRequest → ChunkMessageBody
  put_response : ChunkPutResponse → ChunkMessageBody
  get_request : ChunkGetRequest → ChunkMessageBody
  get_response : ChunkGetResponse → ChunkMessageBody
  quote_request : ChunkQuoteRequest → ChunkMessageBody
  quote_response : ChunkQuoteResponse → ChunkMessageBody
  merkle_candidate_quote_request : MerkleCandidateQuoteRequest → ChunkMessageBody
  merkle_candidate_quote_response : MerkleCandidateQuoteResponse → ChunkMessageBody

pub record ChunkMessage : Type 0 where
  pub request_id : ℕ
  pub body : ChunkMessageBody
