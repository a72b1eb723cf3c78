-- ===== src/Evm/Split/Median.antt =====
-- src/evm.rs: the quote that `payment_split` ranks fourth.
use ant_wasm_client.Base.{
  ℕ, zero, suc, ◌+◌, ◌≤◌, ◌<◌, ◌≡◌, refl, ap, sym, ◌∙◌, subst, Bool, List, [], ◌∷◌, length,
  get_elem?, leb, some, All, arith,
}
use mathlib.Core.Option.{some-injective}
use ant_wasm_client.Base.Words.{from_be_bytes}
use ant_wasm_client.Payment.{Quote}
use ant_wasm_client.Evm.U256.{IsU256}
use ant_wasm_client.Evm.Split.{Ranked, sort_by_price, indices}
use ant_wasm_client.Evm.Split.Sorting.{
  bit, count, sort_by_price-All, sort_by_price-IsSorted, sort_by_price-count, length-sort_by_price,
  IsPriced, IsSorted-rank, All-get,
}

-- How many quotes have a price that passes a test.
abbrev pub count_quotes : (ℕ → Bool) → List Quote → ℕ
count_quotes t [] = 0
count_quotes t (q ∷ qs) = bit (t (from_be_bytes q.price)) + count_quotes t qs

abbrev pub IsPricedQuote : Quote → Type 0
IsPricedQuote q = IsU256 q.price

indices-count :
    (t : ℕ → Bool) (i : ℕ) (qs : List Quote) → count t (indices i qs) ≡ count_quotes t qs
unfolding indices
indices-count t i [] = refl
indices-count t i (q ∷ qs) = omega (arith, indices-count t (suc i) qs)

length-indices : (i : ℕ) (qs : List Quote) → length (indices i qs) ≡ length qs
unfolding indices
length-indices i [] = refl
length-indices i (q ∷ qs) = ap suc (length-indices (suc i) qs)

indices-All :
    (P : Ranked → Type 0) (i : ℕ) (qs : List Quote)
    → ((k : ℕ) (q : Quote) → get_elem? qs k ≡ some q → P (i + k, q.price))
    → All P (indices i qs)
unfolding indices
indices-All P i [] f = tt
indices-All P i (q ∷ qs) f = (
  subst (λ n. P (n, q.price)) (omega arith) (f 0 q refl),
  indices-All P (suc i) qs (λ k r e. subst (λ n. P (n, r.price)) (omega arith) (f (suc k) r e)),
)

pub All-quotes-get :
    (qs : List Quote) (k : ℕ) (q : Quote)
    → All IsPricedQuote qs
    → get_elem? qs k ≡ some q
    → IsPricedQuote q
All-quotes-get [] k q h e = cc
All-quotes-get (x ∷ xs) zero q h e = subst IsPricedQuote (some-injective x q e) h.0
All-quotes-get (x ∷ xs) (suc k) q h e = All-quotes-get xs k q h.1 e

-- An entry of the ranking names the quote whose price it carries.
abbrev Names : List Quote → Ranked → Type 0
Names qs (i, price) = (q : Quote) × (get_elem? qs i ≡ some q) × (q.price ≡ price)

-- The quote at `m` is a median of `quotes`: at least four prices are at most its price, and at
-- least four are at least its price, its own among them.
pub record IsMedian (quotes : List Quote) (m : ℕ) (q : Quote) : Type 0 where
  pub listed : get_elem? quotes m ≡ some q
  pub below : 4 ≤ count_quotes (λ p. leb p (from_be_bytes q.price)) quotes
  pub above : 4 ≤ count_quotes (λ p. leb (from_be_bytes q.price) p) quotes

get_elem?-within {ℓ} :
    {A : Type ℓ} (l : List A) (k : ℕ) → k < length l → (a : A) × (get_elem? l k ≡ some a)
get_elem?-within [] k h = absurd (omega arith)
get_elem?-within (x ∷ xs) zero h = (x, refl)
get_elem?-within (x ∷ xs) (suc k) h = get_elem?-within xs k (omega arith)

indices-Names : (quotes : List Quote) → All (Names quotes) (indices 0 quotes)
indices-Names quotes =
    indices-All (Names quotes) 0 quotes
      λ k q e. (q, subst (λ n. get_elem? quotes n ≡ some q) (omega arith) e, refl)

indices-IsPriced :
    (quotes : List Quote) → All IsPricedQuote quotes → All IsPriced (indices 0 quotes)
indices-IsPriced quotes h = indices-All IsPriced 0 quotes (λ k q e. All-quotes-get quotes k q h e)

-- The entry that the code takes for the median names a median.
pub third-IsMedian :
    (quotes : List Quote) (m : ℕ) (q : Quote)
    → length quotes ≡ 7
    → All IsPricedQuote quotes
    → get_elem? quotes m ≡ some q
    → get_elem? (sort_by_price (indices 0 quotes)) 3 ≡ some (m, q.price)
    → IsMedian quotes m q
third-IsMedian quotes m q h priced listed third =
    let l = sort_by_price (indices 0 quotes) in
    let v = from_be_bytes q.price in
    let len : length l ≡ 7 =
      length-sort_by_price (indices 0 quotes) ∙ length-indices 0 quotes ∙ h in
    let sorted = sort_by_price-IsSorted (indices 0 quotes) (indices-IsPriced quotes priced) in
    let (lo, hi) = IsSorted-rank l 3 (m, q.price) sorted third in
    let same : (t : ℕ → Bool) → count t l ≡ count_quotes t quotes =
      λ t. sort_by_price-count t (indices 0 quotes) ∙ indices-count t 0 quotes in
    record {
      listed = listed;
      below = omega (arith, lo, same (λ p. leb p v));
      above = omega (arith, hi, len, same (λ p. leb v p));
    }

pub ranked_third :
    (quotes : List Quote)
    → length quotes ≡ 7
    → (m : ℕ) × (q : Quote) × (get_elem? quotes m ≡ some q)
      × (get_elem? (sort_by_price (indices 0 quotes)) 3 ≡ some (m, q.price))
ranked_third quotes h = named (get_elem?-within l 3 (omega (arith, len)))
  where
    l : List Ranked
    l = sort_by_price (indices 0 quotes)

    len : length l ≡ 7
    len = length-sort_by_price (indices 0 quotes) ∙ length-indices 0 quotes ∙ h

    named :
        (r : Ranked) × (get_elem? l 3 ≡ some r)
        → (m : ℕ) × (q : Quote) × (get_elem? quotes m ≡ some q)
          × (get_elem? l 3 ≡ some (m, q.price))
    named ((m, price), e) =
        let (q, listed, same) =
          All-get (Names quotes) l 3
            (sort_by_price-All (Names quotes) (indices 0 quotes) (indices-Names quotes)) e in
        (m, q, listed, subst (λ b. get_elem? l 3 ≡ some (m, b)) (sym same) e)
