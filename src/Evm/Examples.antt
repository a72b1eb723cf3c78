-- ===== src/Evm/Examples.antt =====
-- src/evm.rs at concrete quotes and payments.
use ant_wasm_client.Base.{
  ℕ, ◌+◌, ◌*◌, ◌%◌, ◌^◌, ◌≡◌, refl, none, some, List, [], ◌∷◌, ◌++◌, Bytes, replicate, take, ok,
  arith,
}
use ant_wasm_client.Base.Words.{from_be_bytes}
use ant_wasm_client.External.{Hashes}
use ant_wasm_client.Payment.{Quote}
use ant_wasm_client.Evm.U256.{IsU256, u256_add, u256_mul_u64}
use ant_wasm_client.Evm.U256.Sums.{u256_add-value, u256_mul_u64-value}
use ant_wasm_client.Evm.Calldata.{
  DataPayment, pay_for_quotes_calldata, pay_for_quotes_selector, total_amount,
}
use ant_wasm_client.Evm.Calldata.Layout.{abi_decode, abi_decode-pay_for_quotes_calldata}
use ant_wasm_client.Evm.Calldata.Totals.{sum_amounts, total_amount-sum}
use ant_wasm_client.Evm.Split.{payment_split}
use ant_wasm_client.Evm.Split.Median.{IsMedian}
use ant_wasm_client.Evm.Split.Payments.{PaysOnly, payment_split-IsMedian}

-- A hash that keeps the text.
abbrev hashes : Hashes
hashes = record { blake3 = λ b. b; derive_key = λ t b. t ++ b; keccak256 = λ b. b }

abbrev word : ℕ → Bytes
word n = replicate 31 0 ++ (n ∷ [])

abbrev quote : ℕ → Quote
quote price = record {
  content = [];
  timestamp = record { secs = 0; nanos = 0 };
  price = word price;
  rewards_address = replicate 20 price;
  pub_key = [];
  signature = [];
  committed_key_count = 0;
  commitment_pin = none;
}

abbrev quotes : List Quote
quotes = quote 40 ∷ quote 10 ∷ quote 50 ∷ quote 20 ∷ quote 70 ∷ quote 60 ∷ quote 30 ∷ []

abbrev payments : List DataPayment
payments =
    (record { rewards = replicate 20 7; amount = word 250; quote_hash = replicate 32 1 })
    ∷ (record { rewards = replicate 20 8; amount = word 9; quote_hash = replicate 32 2 })
    ∷ []

payment_split-IsMedian_example :
    (m : ℕ) × (median : Quote) × (ps : List DataPayment) × (payment_split hashes quotes ≡ ok ps)
    × IsMedian quotes m median
    × PaysOnly hashes quotes m median ps
    × (from_be_bytes (total_amount ps) ≡ from_be_bytes median.price * 3 % 2 ^ 256)
payment_split-IsMedian_example = payment_split-IsMedian hashes quotes refl (ground arith)

abi_decode-pay_for_quotes_calldata_example :
    abi_decode (pay_for_quotes_calldata hashes payments)
    ≡ some (pay_for_quotes_selector hashes, payments)
unfolding pay_for_quotes_selector take
abi_decode-pay_for_quotes_calldata_example =
    abi_decode-pay_for_quotes_calldata hashes payments refl (omega arith) (ground arith)

total_amount-sum_example : from_be_bytes (total_amount payments) ≡ sum_amounts payments % 2 ^ 256
total_amount-sum_example = total_amount-sum payments (ground arith)

u256_add-value_example :
    (from_be_bytes (u256_add (word 250) (word 9))
      ≡ (from_be_bytes (word 250) + from_be_bytes (word 9)) % 2 ^ 256)
    × IsU256 (u256_add (word 250) (word 9))
u256_add-value_example = u256_add-value (word 250) (word 9) (ground arith) (ground arith)

u256_mul_u64-value_example :
    (from_be_bytes (u256_mul_u64 (word 250) 3) ≡ from_be_bytes (word 250) * 3 % 2 ^ 256)
    × IsU256 (u256_mul_u64 (word 250) 3)
u256_mul_u64-value_example = u256_mul_u64-value (word 250) 3 (ground arith) (omega arith)
