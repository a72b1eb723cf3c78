-- ===== src/Evm/Split/Payments.antt =====
-- src/evm.rs: what `payment_split` pays to whom, and what the payments sum to.
use mathlib.Core.Path.{ap₂}
use ant_wasm_client.Base.{
  ℕ, zero, suc, ◌+◌, ◌-◌, ◌*◌, ◌%◌, ◌^◌, ◌<◌, ◌≡◌, ◌≢◌, refl, ap, ◌∙◌, Bool, true, false, List, [],
  ◌∷◌, ◌++◌, map, length, replicate, get_elem?, ◌==◌, if◌then◌else◌, some, All, Bytes, ok, err,
  arith,
}
use ant_wasm_client.Base.Words.{from_be_bytes}
use ant_wasm_client.External.{Hashes}
use ant_wasm_client.Errors.{split_needs_seven}
use ant_wasm_client.Payment.{Quote, quote_hash}
use ant_wasm_client.Evm.U256.{IsU256, u256_zero, u256_mul_u64}
use ant_wasm_client.Evm.U256.Sums.{u256_mul_u64-value}
use ant_wasm_client.Evm.Calldata.{DataPayment, total_amount}
use ant_wasm_client.Evm.Calldata.Totals.{IsAmount, sum_amounts, total_amount-sum, u256_zero-value}
use ant_wasm_client.Evm.Split.{sort_by_price, indices, pay_median, payment_split}
use ant_wasm_client.Evm.Split.Median.{
  IsPricedQuote, IsMedian, All-quotes-get, ranked_third, third-IsMedian,
}

-- The payments that the contract gets, in the order of the quotes: each quote's own address and
-- hash, three times the price of the quote at `m` to that quote, and nothing to any other.
pub record PaysOnly (hashes : Hashes) (quotes : List Quote) (m : ℕ) (median : Quote)
    (payments : List DataPayment) : Type 0 where
  pub rewards : map (λ p. p.rewards) payments ≡ map (λ q. q.rewards_address) quotes
  pub hashed : map (λ p. p.quote_hash) payments ≡ map (quote_hash hashes) quotes
  pub amounts :
      map (λ p. p.amount) payments
      ≡ replicate m u256_zero
        ++ (u256_mul_u64 median.price 3 ∷ replicate (length quotes - m - 1) u256_zero)

get_elem?-lt {ℓ} : {A : Type ℓ} (l : List A) (k : ℕ) (a : A) → get_elem? l k ≡ some a → k < length l
get_elem?-lt [] k a e = cc
get_elem?-lt (x ∷ xs) zero a e = omega arith
get_elem?-lt (x ∷ xs) (suc k) a e = omega (arith, get_elem?-lt xs k a e)

module _ (hashes : Hashes) (m : ℕ) (amount : Bytes) where
  pay_median-rewards :
      (j : ℕ) (qs : List Quote)
      → map (λ p. p.rewards) (pay_median hashes m amount j qs) ≡ map (λ q. q.rewards_address) qs
  unfolding pay_median
  pay_median-rewards j [] = refl
  pay_median-rewards j (q ∷ qs) = ap (◌∷◌ q.rewards_address) (pay_median-rewards (suc j) qs)

  pay_median-hashed :
      (j : ℕ) (qs : List Quote)
      → map (λ p. p.quote_hash) (pay_median hashes m amount j qs) ≡ map (quote_hash hashes) qs
  unfolding pay_median
  pay_median-hashed j [] = refl
  pay_median-hashed j (q ∷ qs) = ap (◌∷◌ (quote_hash hashes q)) (pay_median-hashed (suc j) qs)

  amounts-behind :
      (j : ℕ) (qs : List Quote)
      → m < j
      → map (λ p. p.amount) (pay_median hashes m amount j qs) ≡ replicate (length qs) u256_zero
  unfolding pay_median
  amounts-behind j [] h = refl
  amounts-behind j (q ∷ qs) h = rw (amounts-behind (suc j) qs (omega arith)) (ground arith)

  pay_median-amounts :
      (j k : ℕ) (qs : List Quote)
      → m ≡ j + k
      → k < length qs
      → map (λ p. p.amount) (pay_median hashes m amount j qs)
        ≡ replicate k u256_zero ++ (amount ∷ replicate (length qs - k - 1) u256_zero)
  unfolding pay_median
  pay_median-amounts j k [] e h = absurd (omega arith)
  pay_median-amounts j zero (x ∷ xs) e h =
      let paid : (if j == m then amount else u256_zero) ≡ amount = ground arith in
      ap₂ ◌∷◌ paid
        (amounts-behind (suc j) xs (omega arith) ∙ ap (λ n. replicate n u256_zero) (omega arith))
  pay_median-amounts j (suc k) (x ∷ xs) e h =
      let unpaid : (if j == m then amount else u256_zero) ≡ u256_zero = ground arith in
      ap₂ ◌∷◌ unpaid (
        pay_median-amounts (suc j) k xs (omega arith) (omega arith)
        ∙ ap (λ n. replicate k u256_zero ++ (amount ∷ replicate n u256_zero)) (omega arith))

  pay_median-IsAmount :
      IsU256 amount → (j : ℕ) (qs : List Quote) → All IsAmount (pay_median hashes m amount j qs)
  unfolding pay_median
  pay_median-IsAmount h j [] = tt
  pay_median-IsAmount h j (q ∷ qs) = (one (j == m), pay_median-IsAmount h (suc j) qs)
    where
      one : (b : Bool) → IsU256 (if b then amount else u256_zero)
      one true = h
      one false = (refl, omega arith)

  -- Behind the paid index nothing is paid.
  sum-behind : (j : ℕ) (qs : List Quote) → m < j → sum_amounts (pay_median hashes m amount j qs) ≡ 0
  unfolding pay_median
  sum-behind j [] h = refl
  sum-behind j (q ∷ qs) h = ground (arith, sum-behind (suc j) qs, u256_zero-value)

  sum-pay_median :
      (j k : ℕ) (qs : List Quote) (q : Quote)
      → m ≡ j + k
      → get_elem? qs k ≡ some q
      → sum_amounts (pay_median hashes m amount j qs) ≡ from_be_bytes amount
  unfolding pay_median
  sum-pay_median j k [] q e h = cc
  sum-pay_median j zero (x ∷ xs) q e h = ground (arith, sum-behind (suc j) xs)
  sum-pay_median j (suc k) (x ∷ xs) q e h =
      ground (arith, sum-pay_median (suc j) k xs q (omega arith) h, u256_zero-value)

-- With any number of quotes but seven `payment_split` fails and says how many it got.
payment_split-wrong_count :
    (hashes : Hashes) (quotes : List Quote)
    → length quotes ≢ 7
    → payment_split hashes quotes ≡ err (split_needs_seven (length quotes))
unfolding payment_split
payment_split-wrong_count hashes quotes h = ground arith

payment_split-third :
    (hashes : Hashes) (quotes : List Quote) (m : ℕ) (price : Bytes)
    → length quotes ≡ 7
    → get_elem? (sort_by_price (indices 0 quotes)) 3 ≡ some (m, price)
    → payment_split hashes quotes ≡ ok (pay_median hashes m (u256_mul_u64 price 3) 0 quotes)
unfolding payment_split
payment_split-third hashes quotes m price h third = rw (h, third)

-- From seven quotes with 32-byte prices `payment_split` computes payments in the order of the
-- quotes: three times the price (modulo 2 ^ 256) of one quote whose price is a median goes to that
-- quote, nothing goes to any other, and the `total_amount` to approve is exactly that one payment.
pub payment_split-IsMedian :
    (hashes : Hashes) (quotes : List Quote)
    → length quotes ≡ 7
    → All IsPricedQuote quotes
    → (m : ℕ) × (median : Quote) × (payments : List DataPayment) × (payment_split hashes quotes
        ≡ ok payments)
      × IsMedian quotes m median
      × PaysOnly hashes quotes m median payments
      × (from_be_bytes (total_amount payments) ≡ from_be_bytes median.price * 3 % 2 ^ 256)
payment_split-IsMedian hashes quotes h priced =
    let (m, q, listed, third) = ranked_third quotes h in
    let amount = u256_mul_u64 q.price 3 in
    let payments = pay_median hashes m amount 0 quotes in
    let (value, size) =
      u256_mul_u64-value q.price 3 (All-quotes-get quotes m q priced listed) (omega arith) in
    let total = total_amount-sum payments (pay_median-IsAmount hashes m amount size 0 quotes) in
    let summed = sum-pay_median hashes m amount 0 m quotes q (omega arith) listed in
    (
      m,
      q,
      payments,
      payment_split-third hashes quotes m q.price h third,
      third-IsMedian quotes m q h priced listed third,
      record {
        rewards = pay_median-rewards hashes m amount 0 quotes;
        hashed = pay_median-hashed hashes m amount 0 quotes;
        amounts =
            pay_median-amounts hashes m amount 0 m quotes (omega arith)
              (get_elem?-lt quotes m q listed);
      },
      omega (arith, total, summed, value),
    )
