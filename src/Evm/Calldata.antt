-- ===== src/Evm/Calldata.antt =====
-- src/evm.rs: ABI calldata of `approve` and `payForQuotes`.
pub mod Layout
pub mod Totals
use mathlib.Core.List.{foldl}
use ant_wasm_client.Base.{
  ◌%◌, ◌^◌, List, [], ◌∷◌, ◌++◌, length, replicate, take, Bytes, Text, IsArray,
}
use ant_wasm_client.Base.Words.{to_be_bytes}
use ant_wasm_client.External.{Hashes}
use ant_wasm_client.Evm.U256.{u256_zero, u256_add}

-- The triple `DataPayment`, in the order that the contract's struct has.
pub record DataPayment : Type 0 where
  pub rewards : Bytes
  pub amount : Bytes
  pub quote_hash : Bytes

abbrev pub IsDataPayment : DataPayment → Type 0
IsDataPayment p = IsArray 20 p.rewards × IsArray 32 p.amount × IsArray 32 p.quote_hash

abbrev pub erc20_approve_selector : Bytes
erc20_approve_selector = 0x09 ∷ 0x5e ∷ 0xa7 ∷ 0xb3 ∷ []

-- An address in the low 20 bytes of a zeroed word.
unfoldable pub word_from_address : Bytes → Bytes
word_from_address addr = replicate 12 0 ++ addr

unfoldable pub approve_calldata : Bytes → Bytes → Bytes
unfolding word_from_address
approve_calldata spender amount = erc20_approve_selector ++ (word_from_address spender ++ amount)

-- b"payForQuotes((address,uint256,bytes32)[])"
abbrev pub pay_for_quotes_signature : Text
pay_for_quotes_signature =
    b'p' ∷ b'a' ∷ b'y' ∷ b'F' ∷ b'o' ∷ b'r' ∷ b'Q' ∷ b'u' ∷ b'o' ∷ b't' ∷ b'e' ∷ b's' ∷ b'(' ∷ b'('
    ∷ b'a' ∷ b'd' ∷ b'd' ∷ b'r' ∷ b'e' ∷ b's' ∷ b's' ∷ b',' ∷ b'u' ∷ b'i' ∷ b'n' ∷ b't' ∷ b'2'
    ∷ b'5' ∷ b'6' ∷ b',' ∷ b'b' ∷ b'y' ∷ b't' ∷ b'e' ∷ b's' ∷ b'3' ∷ b'2' ∷ b')' ∷ b'[' ∷ b']'
    ∷ b')' ∷ []

unfoldable pub pay_for_quotes_selector : Hashes → Bytes
pay_for_quotes_selector hashes = take 4 (hashes.keccak256 pay_for_quotes_signature)

-- One element of the array: three words.
unfoldable pub encode_payment : DataPayment → Bytes
unfolding word_from_address
encode_payment p = word_from_address p.rewards ++ (p.amount ++ p.quote_hash)

encode_payments : List DataPayment → Bytes
unfolding encode_payment
encode_payments [] = []
encode_payments (p ∷ ps) = encode_payment p ++ encode_payments ps

-- Selector, offset word 0x20, length word (`as u64`, in the low 8 bytes), elements.
unfoldable pub pay_for_quotes_calldata : Hashes → List DataPayment → Bytes
unfolding encode_payments pay_for_quotes_selector
pay_for_quotes_calldata hashes payments =
    pay_for_quotes_selector hashes
    ++ ((replicate 31 0 ++ (0x20 ∷ []))
        ++ ((replicate 24 0 ++ to_be_bytes 8 (length payments % 2 ^ 64))
            ++ encode_payments payments))

unfoldable pub total_amount : List DataPayment → Bytes
total_amount = foldl (λ acc p. u256_add acc p.amount) u256_zero
