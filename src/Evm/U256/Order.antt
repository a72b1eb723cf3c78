-- ===== src/Evm/U256/Order.antt =====
-- src/evm.rs: `u256_cmp` and the numeric order.
use Prim.Native.Nat.{compare, Ordering}
use ant_wasm_client.Base.{
  ℕ, suc, ◌+◌, ◌*◌, ◌^◌, ◌≤◌, ◌<◌, ◌≡◌, refl, ap, subst, sym, ◌∙◌, ◌⊎◌, inl, inr, [], ◌∷◌, length,
  All, Bytes, IsByte, arith,
}
use ant_wasm_client.Base.Words.{from_be_bytes, from_be_bytes-lt}
use ant_wasm_client.Evm.U256.{IsU256, on_tie, u256_cmp}

-- A higher digit outweighs whatever stands behind it.
weighted_lt : (a b p u v : ℕ) → a < b → u < p → a * p + u < b * p + v
weighted_lt a b p u v h hu = let step : suc a * p ≤ b * p = grind arith in omega (arith, step)

trichotomy : (a b : ℕ) → (a < b) ⊎ ((a ≡ b) ⊎ (b < a))
trichotomy a b = ground arith

pub compare-lt : (a b : ℕ) → a < b → compare a b ≡ Ordering.lt
compare-lt a b h = ground arith

compare-gt : (a b : ℕ) → b < a → compare a b ≡ Ordering.gt
compare-gt a b h = ground arith

compare-eq : (a b : ℕ) → a ≡ b → compare a b ≡ Ordering.eq
compare-eq a b h = ground arith

compare-add : (c u v : ℕ) → compare u v ≡ compare (c + u) (c + v)
compare-add c u v = ground arith

-- The first byte decides, since the bytes behind it stay below its weight.
compare-weighted :
    (a b p u v : ℕ)
    → u < p
    → v < p
    → on_tie (compare a b) (compare u v) ≡ compare (a * p + u) (b * p + v)
compare-weighted a b p u v hu hv = elim (trichotomy a b) [
  | inl lt ↦ rw (compare-lt a b lt, compare-lt _ _ (weighted_lt a b p u v lt hu))
  | inr (inl eq) ↦ rw (compare-eq a b eq, eq) (compare-add (b * p) u v)
  | inr (inr gt) ↦ rw (compare-gt a b gt, compare-gt _ _ (weighted_lt b a p v u gt hv))
]

u256_cmp-value_at :
    (xs ys : Bytes)
    → length xs ≡ length ys
    → All IsByte xs
    → All IsByte ys
    → u256_cmp xs ys ≡ compare (from_be_bytes xs) (from_be_bytes ys)
unfolding u256_cmp from_be_bytes
u256_cmp-value_at [] [] e hx hy = refl
u256_cmp-value_at [] (y ∷ ys) e hx hy = absurd (omega arith)
u256_cmp-value_at (x ∷ xs) [] e hx hy = absurd (omega arith)
u256_cmp-value_at (x ∷ xs) (y ∷ ys) e hx hy =
    let tails : length xs ≡ length ys = omega arith in
    ap (on_tie (compare x y)) (u256_cmp-value_at xs ys tails hx.1 hy.1)
    ∙ subst
        (λ n.
          on_tie (compare x y) (compare (from_be_bytes xs) (from_be_bytes ys))
          ≡ compare (x * 256 ^ n + from_be_bytes xs) (from_be_bytes (y ∷ ys)))
        (sym tails)
        (compare-weighted x y (256 ^ length ys) _ _
          (subst (λ n. from_be_bytes xs < 256 ^ n) tails (from_be_bytes-lt xs hx.1))
          (from_be_bytes-lt ys hy.1))

-- `u256_cmp` compares two 32-byte arrays as the numbers that they stand for.
pub u256_cmp-value :
    (a b : Bytes) → IsU256 a → IsU256 b → u256_cmp a b ≡ compare (from_be_bytes a) (from_be_bytes b)
u256_cmp-value a b ha hb = u256_cmp-value_at a b (ha.0 ∙ sym hb.0) ha.1 hb.1
