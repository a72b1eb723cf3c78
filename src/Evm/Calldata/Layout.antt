-- ===== src/Evm/Calldata/Layout.antt =====
-- src/evm.rs: the calldata against an ABI decoder, written from the ABI's rules for one dynamic
-- array of static three-word structs.
use mathlib.Core.Option
use ant_wasm_client.Base.{
  ℕ, zero, suc, ◌%◌, ◌^◌, ◌<◌, ◌≡◌, refl, ap, ◌∙◌, true, if◌then◌else◌, Option, none, some, List,
  [], ◌∷◌, ◌++◌, append_assoc, length, length-append, replicate, take, drop, take-append,
  drop-append, All, Bytes, bytes_eq, arith,
}
use ant_wasm_client.Base.Words.{
  from_be_bytes, to_be_bytes, length-to_be_bytes, from_be_bytes-to_be_bytes,
}
use ant_wasm_client.External.{Hashes}
use ant_wasm_client.Evm.Calldata.{
  DataPayment, IsDataPayment, approve_calldata, erc20_approve_selector, encode_payment,
  encode_payments, pay_for_quotes_selector, pay_for_quotes_calldata,
}

-- One element off the front: twelve zero bytes, an address, two words.
abi_element : Bytes → Option (DataPayment × Bytes)
abi_element bs =
    let at_rewards = drop 12 bs in
    let at_amount = drop 20 at_rewards in
    let at_hash = drop 32 at_amount in
    let payment : DataPayment = record {
      rewards = take 20 at_rewards;
      amount = take 32 at_amount;
      quote_hash = take 32 at_hash;
    } in
    if bytes_eq (take 12 bs) (replicate 12 0) then some (payment, drop 32 at_hash) else none

-- `n` elements, with nothing behind them.
abi_elements : ℕ → Bytes → Option (List DataPayment)
abi_elements zero [] = some []
abi_elements zero (b ∷ bs) = none
abi_elements (suc n) bs = elim (abi_element bs) [
  | none ↦ none
  | some (p, rest) ↦ Option.map (◌∷◌ p) (abi_elements n rest)
]

-- The selector, and the array found at the offset that the first word gives, counted from there.
unfoldable pub abi_decode : Bytes → Option (Bytes × List DataPayment)
unfolding abi_elements abi_element
abi_decode bs =
    let args = drop 4 bs in
    let tail = drop (from_be_bytes (take 32 args)) args in
    Option.map (λ ps. (take 4 bs, ps)) (abi_elements (from_be_bytes (take 32 tail)) (drop 32 tail))

abi_element-parts :
    (zeros rewards amount hash rest : Bytes)
    → length zeros ≡ 12
    → bytes_eq zeros (replicate 12 0) ≡ true
    → length rewards ≡ 20
    → length amount ≡ 32
    → length hash ≡ 32
    → abi_element (zeros ++ (rewards ++ (amount ++ (hash ++ rest))))
      ≡ some (record { rewards = rewards; amount = amount; quote_hash = hash }, rest)
unfolding abi_element
abi_element-parts zeros rewards amount hash rest hz z hr ha hh = rw (
  drop-append 12 zeros (rewards ++ (amount ++ (hash ++ rest))) hz,
  drop-append 20 rewards (amount ++ (hash ++ rest)) hr,
  drop-append 32 amount (hash ++ rest) ha,
  drop-append 32 hash rest hh,
  take-append 12 zeros (rewards ++ (amount ++ (hash ++ rest))) hz,
  take-append 20 rewards (amount ++ (hash ++ rest)) hr,
  take-append 32 amount (hash ++ rest) ha,
  take-append 32 hash rest hh,
  z,
)

abi_element-encode_payment :
    (p : DataPayment) (rest : Bytes)
    → IsDataPayment p
    → abi_element (encode_payment p ++ rest) ≡ some (p, rest)
unfolding encode_payment
abi_element-encode_payment p rest h =
    ap (λ bs. abi_element (replicate 12 0 ++ bs))
      (append_assoc p.rewards (p.amount ++ p.quote_hash) rest
        ∙ ap (λ bs. p.rewards ++ bs) (append_assoc p.amount p.quote_hash rest))
    ∙ abi_element-parts (replicate 12 0) p.rewards p.amount p.quote_hash rest refl refl h.0.0 h.1.0
        h.2.0

abi_elements_step :
    (n : ℕ) (bs rest : Bytes) (p : DataPayment)
    → abi_element bs ≡ some (p, rest)
    → abi_elements (suc n) bs ≡ Option.map (◌∷◌ p) (abi_elements n rest)
unfolding abi_elements
abi_elements_step n bs rest p e = rw (e, abi_elements)

abi_elements-encode_payments :
    (ps : List DataPayment)
    → All IsDataPayment ps
    → abi_elements (length ps) (encode_payments ps) ≡ some ps
unfolding encode_payments
abi_elements-encode_payments [] h = unfold abi_elements in refl
abi_elements-encode_payments (p ∷ ps) (hp, hps) =
    abi_elements_step (length ps) _ (encode_payments ps) p (abi_element-encode_payment p _ hp)
    ∙ ap (Option.map (◌∷◌ p)) (abi_elements-encode_payments ps hps)

from_be_bytes-zeros : (n : ℕ) (bs : Bytes) → from_be_bytes (replicate n 0 ++ bs) ≡ from_be_bytes bs
unfolding from_be_bytes
from_be_bytes-zeros zero bs = refl
from_be_bytes-zeros (suc n) bs = omega (arith, from_be_bytes-zeros n bs)

abi_decode-parts :
    (selector offset len body : Bytes)
    → length selector ≡ 4
    → length offset ≡ 32
    → from_be_bytes offset ≡ 32
    → length len ≡ 32
    → abi_decode (selector ++ (offset ++ (len ++ body)))
      ≡ Option.map (λ ps. (selector, ps)) (abi_elements (from_be_bytes len) body)
unfolding abi_decode
abi_decode-parts selector offset len body hs ho eo hl = rw (
  drop-append 4 selector (offset ++ (len ++ body)) hs,
  take-append 4 selector (offset ++ (len ++ body)) hs,
  take-append 32 offset (len ++ body) ho,
  eo,
  drop-append 32 offset (len ++ body) ho,
  take-append 32 len body hl,
  drop-append 32 len body hl,
)

length_word : ℕ → Bytes
length_word n = replicate 24 0 ++ to_be_bytes 8 n

length-length_word : (n : ℕ) → length (length_word n) ≡ 32
unfolding length_word
length-length_word n = omega (arith, length-to_be_bytes 8 n)

length_word-value : (n : ℕ) → n < 2 ^ 64 → from_be_bytes (length_word n) ≡ n
unfolding length_word
length_word-value n h =
    from_be_bytes-zeros 24 (to_be_bytes 8 n) ∙ from_be_bytes-to_be_bytes 8 n (omega arith)

-- The calldata of `payForQuotes` is read back by an ABI decoder as the selector and exactly the
-- given payments, in order, for fewer than 2 ^ 64 well-formed payments and a selector of four
-- bytes.
pub abi_decode-pay_for_quotes_calldata :
    (hashes : Hashes) (payments : List DataPayment)
    → length (pay_for_quotes_selector hashes) ≡ 4
    → length payments < 2 ^ 64
    → All IsDataPayment payments
    → abi_decode (pay_for_quotes_calldata hashes payments)
      ≡ some (pay_for_quotes_selector hashes, payments)
unfolding pay_for_quotes_calldata length_word
abi_decode-pay_for_quotes_calldata hashes payments hs hn hp =
    let n : ℕ = length payments % 2 ^ 64 in
    abi_decode-parts (pay_for_quotes_selector hashes) (replicate 31 0 ++ (0x20 ∷ []))
      (length_word n) (encode_payments payments) hs refl (unfold from_be_bytes in refl)
      (length-length_word n)
    ∙ ap
        (λ k.
          Option.map (λ ps. (pay_for_quotes_selector hashes, ps))
            (abi_elements k (encode_payments payments)))
        (length_word-value n (omega arith) ∙ omega arith)
    ∙ ap (Option.map (λ ps. (pay_for_quotes_selector hashes, ps)))
        (abi_elements-encode_payments payments hp)

-- The calldata of `approve` is 68 bytes: the selector, a word whose number is the spender's, and
-- the amount, for a 20-byte spender and a 32-byte amount.
pub approve_calldata_layout :
    (spender amount : Bytes)
    → length spender ≡ 20
    → length amount ≡ 32
    → (length (approve_calldata spender amount) ≡ 68)
      × (take 4 (approve_calldata spender amount) ≡ erc20_approve_selector)
      × (from_be_bytes (take 32 (drop 4 (approve_calldata spender amount))) ≡ from_be_bytes spender)
      × (drop 36 (approve_calldata spender amount) ≡ amount)
unfolding approve_calldata take drop
approve_calldata_layout spender amount hs ha = (
  omega (arith, length-append spender amount),
  refl,
  rw (take-append 20 spender amount hs) (from_be_bytes-zeros 12 spender),
  drop-append 20 spender amount hs,
)
