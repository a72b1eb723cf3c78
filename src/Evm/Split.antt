-- ===== src/Evm/Split.antt =====
-- src/evm.rs: `payment_split`. The standard library's `sort_by` is a stable sort; it is written
-- here as the stable insertion sort.
pub mod Sorting
pub mod Median
pub mod Payments
use Prim.Native.Nat.{Ordering}
use ant_wasm_client.Base.{
  ℕ, suc, Bool, true, false, List, [], ◌∷◌, length, get_elem?, ◌==◌, if◌then◌else◌, Option, none,
  some, Bytes, ok, err,
}
use ant_wasm_client.External.{Hashes}
use ant_wasm_client.Errors.{Fallible, split_needs_seven, index_out_of_bounds}
use ant_wasm_client.Payment.{Quote, quote_hash}
use ant_wasm_client.Evm.U256.{u256_zero, u256_cmp, u256_mul_u64}
use ant_wasm_client.Evm.Calldata.{DataPayment}

abbrev pub close_group_size : ℕ
close_group_size = 7

-- `a` is not behind `b`.
abbrev pub not_greater : Ordering → Bool
not_greater Ordering.gt = false
not_greater _ = true

-- An index into the quotes with the price that it is compared by.
abbrev pub Ranked : Type 0
Ranked = ℕ × Bytes

-- Before the first entry that is not smaller: equal prices keep their order.
insert : Ranked → List Ranked → List Ranked
insert x [] = x ∷ []
insert x (y ∷ ys) = if not_greater (u256_cmp x.1 y.1) then x ∷ y ∷ ys else y ∷ insert x ys

pub sort_by_price : List Ranked → List Ranked
unfolding insert
sort_by_price [] = []
sort_by_price (x ∷ xs) = insert x (sort_by_price xs)

-- `(0..quotes.len())` from `i` on, each index with its quote's price.
pub indices : ℕ → List Quote → List Ranked
indices i [] = []
indices i (q ∷ qs) = (i, q.price) ∷ indices (suc i) qs

-- The closure under the `map`.
abbrev pub payment_for : Hashes → ℕ → Bytes → ℕ → Quote → DataPayment
payment_for hashes median_idx median_price_x3 i q = record {
  rewards = q.rewards_address;
  amount = if i == median_idx then median_price_x3 else u256_zero;
  quote_hash = quote_hash hashes q;
}

-- The `enumerate` and `map` over the quotes, from index `i` on.
pub pay_median : Hashes → ℕ → Bytes → ℕ → List Quote → List DataPayment
pay_median hashes median_idx median_price_x3 i [] = []
pay_median hashes median_idx median_price_x3 i (q ∷ qs) =
    payment_for hashes median_idx median_price_x3 i q
    ∷ pay_median hashes median_idx median_price_x3 (suc i) qs

-- `ranked[3]`, and the payments with its price times three. An index beyond the end panics.
split_at : Hashes → List Quote → Option Ranked → Fallible (List DataPayment)
unfolding pay_median
split_at hashes quotes none = err index_out_of_bounds
split_at hashes quotes (some (median_idx, price)) =
    ok (pay_median hashes median_idx (u256_mul_u64 price 3) 0 quotes)

unfoldable pub payment_split : Hashes → List Quote → Fallible (List DataPayment)
unfolding sort_by_price indices split_at
payment_split hashes quotes =
    if length quotes == close_group_size
    then split_at hashes quotes (get_elem? (sort_by_price (indices 0 quotes)) 3)
    else err (split_needs_seven (length quotes))
