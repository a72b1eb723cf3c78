-- ===== src/Evm.antt =====
-- src/evm.rs: the 256-bit arithmetic, the ABI calldata of the two payment calls, and the
-- single-node payment split.
pub mod U256
pub mod Calldata
pub mod Split
mod Examples
