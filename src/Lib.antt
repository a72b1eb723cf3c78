-- ===== src/Lib.antt =====
-- The browser client of the Autonomi network: a model of src/ and the theorems about it.
--
-- The client opens a WebRTC data channel to a node, runs a post-quantum handshake over it, and then
-- exchanges sealed requests and responses: chunks by address, discovery, signaling, quotes and
-- uploads. A file is fetched by a retrieval that collects the chunks of a data map; an upload pays
-- the median of seven quotes through an EVM contract.
--
-- Parts, from the bottom up, each with the source file that it models:
-- - Base, Assoc, Texts, Action: shared names, byte order, association lists for maps, `str` methods,
--   and the monad of methods that change an object and may fail, with the actions that keep a part of
--   it (Action.Keeps) or move it along a relation (Action.Moves). They model no code of the repository.
-- - External, Env: the third-party code as records of operations: BLAKE3, Keccak-256, ML-DSA-65,
--   ML-KEM-768, ChaCha20-Poly1305, postcard and MessagePack. What the code relies on is a law that a
--   theorem names as its hypothesis: Opens, ReadsBack, Retrieval.Checked.Verifies, and Seals of
--   Conn.Answered.
-- - Errors: one constructor for each error text, with the values formatted into it.
-- - Protocol: the wire types of src/protocol.rs and src/discovery.rs. Env has their encode and decode.
-- - Framing: src/framing.rs. A `Vec<u8>` is a list of numbers.
-- - Sdp: src/sdp.rs, the munged offer and the answer, on texts as their UTF-8 bytes.
-- - Transport: src/webrtc.rs, `send_frame` and `recv_frame` over a channel that is given by the
--   messages it delivers and by which sends fail. Transport.Connect sets it up, directly or through a
--   relay: the browser's peer connection is a parameter, given by what each call on it answers.
-- - Tunnel: src/tunnel.rs, handshake, nonces and envelopes.
-- - Conn: src/conn.rs, one authenticated connection over a Transport and a session cipher. The
--   request lock runs round trips one after another, so each method is one action on the state.
-- - Retrieval: src/retrieval.rs, the state machine of a download; `self_encryption` is a parameter.
-- - Payment: src/payment.rs, quotes, signed payload, proofs, and the hand-written (de)serializers.
-- - Client: src/lib.rs, the client over a heap of connections: fetching, quotes (Client.Quotes),
--   storing (Client.Store), Client.Upload, parsers (Client.Parse), and start, getters and diagnostic
--   calls (Client.Calls). An `Rc<NodeConnection>` is an index into the heap, where a connection stays
--   that the pool has dropped. A round of `download` (Client.Download) runs its fetches as tasks under any schedule. World is the page around it: the
--   browser at each dial, key generation, the `pay` function, the crate `hex`. Client.Moves says how
--   every method moves the client along any relation that its steps respect; Client.Kept,
--   Client.Authentic and Client.Counted give such relations, and Client.Authentic.Reached the states
--   that a page can have. Client.Restored puts Client.Upload and Client.Download together, over what
--   Client.Restored.Laws has self_encryption, the hash and the crate `hex` promise.
-- - Evm: src/evm.rs, 256-bit arithmetic (Evm.U256), calldata (Evm.Calldata), the split (Evm.Split).
--
-- Machine integers keep their width: `as u32` and the `u16` and `u128` sums are written with `% 2 ^ w`.
-- Fuel: the `while` of `download` has two rounds, one for the data map at the address and one for the
-- root map behind it, after which nothing is required. `slice::chunks` has one round for each byte and
-- takes at least one off in each, and so has `trim`. `recv_frame` recurses on the messages that the
-- channel still delivers.
--
-- A dial counts up, and the browser and the key generation answer by that count. Only `download`
-- interleaves its fetches; the other calls of the page run one after another.
--
-- Not modelled: a channel that stays open and silent, on which `recv_frame` waits for ever (the
-- channel of the model closes behind its last message); the texts of the client's own errors
-- (Payment.Display and Protocol.Display have those of the two wire modules); the unit tests; the
-- handlers of the data channel (what they hand on is the list of messages); and the JavaScript glue of
-- src/lib.rs. src/node_connection.rs is not compiled.
pub mod Base
pub mod External
pub mod Protocol
pub mod Payment
pub mod Errors
pub mod Evm
pub mod Framing
pub mod Transport
pub mod Action
pub mod Tunnel
pub mod Env
pub mod Conn
pub mod Assoc
pub mod Texts
pub mod Sdp
pub mod Retrieval
pub mod Client
