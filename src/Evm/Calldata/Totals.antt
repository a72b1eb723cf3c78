-- ===== src/Evm/Calldata/Totals.antt =====
-- src/evm.rs: `total_amount` as a sum of numbers.
use mathlib.Core.List.{foldl}
use ant_wasm_client.Base.{ℕ, ◌+◌, ◌%◌, ◌^◌, ◌<◌, ◌≡◌, refl, subst, List, [], ◌∷◌, All, Bytes, arith}
use ant_wasm_client.Base.Words.{from_be_bytes, from_be_bytes-lt}
use ant_wasm_client.Evm.U256.{IsU256, u256_zero, u256_add}
use ant_wasm_client.Evm.U256.Sums.{u256_add-value}
use ant_wasm_client.Evm.Calldata.{DataPayment, total_amount}

abbrev pub IsAmount : DataPayment → Type 0
IsAmount p = IsU256 p.amount

-- The amounts added up as numbers.
abbrev pub sum_amounts : List DataPayment → ℕ
sum_amounts [] = 0
sum_amounts (p ∷ ps) = from_be_bytes p.amount + sum_amounts ps

pub IsU256-lt : (a : Bytes) → IsU256 a → from_be_bytes a < 2 ^ 256
IsU256-lt a h = subst (λ n. from_be_bytes a < 256 ^ n) h.0 (from_be_bytes-lt a h.1)

pub u256_zero-value : from_be_bytes u256_zero ≡ 0
unfolding from_be_bytes
u256_zero-value = refl

foldl-sum :
    (ps : List DataPayment) (acc : Bytes)
    → IsU256 acc
    → All IsAmount ps
    → from_be_bytes (foldl (λ a p. u256_add a p.amount) acc ps)
      ≡ (from_be_bytes acc + sum_amounts ps) % 2 ^ 256
foldl-sum [] acc hacc h = omega (arith, IsU256-lt acc hacc)
foldl-sum (p ∷ ps) acc hacc (hp, hps) =
    let (value, size) = u256_add-value acc p.amount hacc hp in
    omega (arith, value, foldl-sum ps (u256_add acc p.amount) size hps)

-- `total_amount` is the sum of the amounts modulo 2 ^ 256, for 32-byte amounts.
pub total_amount-sum :
    (payments : List DataPayment)
    → All IsAmount payments
    → from_be_bytes (total_amount payments) ≡ sum_amounts payments % 2 ^ 256
unfolding total_amount
total_amount-sum payments h =
    omega (arith, foldl-sum payments u256_zero (refl, omega arith) h, u256_zero-value)
