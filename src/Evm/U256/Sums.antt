-- ===== src/Evm/U256/Sums.antt =====
-- src/evm.rs: `u256_add` and `u256_mul_u64` against the numbers that their bytes stand for.
use native.Mathlib.Nat.{div-add-mod, mod-eq_of_lt, add-mul-mod_self_right}
use ant_wasm_client.Base.{
  ℕ, suc, ◌+◌, ◌*◌, ◌/◌, ◌%◌, ◌^◌, ◌≤◌, ◌<◌, ◌≡◌, refl, sym, ap, ◌∙◌, subst, [], ◌∷◌, length, All,
  Bytes, IsByte, IsArray, arith,
}
use ant_wasm_client.Base.Words.{from_be_bytes, from_be_bytes-lt, pow-256-suc}
use ant_wasm_client.Evm.U256.{IsU256, add_loop, u256_add, mul_loop, u256_mul_u64}

-- One byte of a sum, at its weight.
weighted : (sum p : ℕ) → sum / 256 * (256 * p) + sum % 256 * p ≡ sum * p
weighted sum p = omega (arith, ap (λ (t : ℕ). t * p) (div-add-mod sum 256))

-- What a loop returns: bytes that with the carry hold `total`.
record Holds (n total bound : ℕ) (r : ℕ × Bytes) : Type 0 where
  pub value : from_be_bytes r.1 + r.0 * 256 ^ n ≡ total
  pub size : length r.1 ≡ n
  pub bytes : All IsByte r.1
  pub carried : r.0 ≤ bound

Holds-step :
    (n total bound sum a : ℕ) (carry : ℕ) (out : Bytes)
    → Holds n total bound (carry, out)
    → sum ≡ a + carry
    → sum / 256 ≤ bound
    → Holds (suc n) (a * 256 ^ n + total) bound (sum / 256, (sum % 256) ∷ out)
unfolding from_be_bytes
Holds-step n total bound sum a carry out h e fits = record {
  value = rw pow-256-suc (
      omega (
        arith,
        h.value,
        weighted sum (256 ^ n),
        ap (λ (t : ℕ). t * 256 ^ n) e,
        ap (λ (t : ℕ). sum % 256 * 256 ^ t) h.size,
      ));
  size = ap suc h.size;
  bytes = (omega arith, h.bytes);
  carried = fits;
}

add_loop-Holds :
    (xs ys : Bytes)
    → length xs ≡ length ys
    → All IsByte xs
    → All IsByte ys
    → Holds (length xs) (from_be_bytes xs + from_be_bytes ys) 1 (add_loop xs ys)
unfolding add_loop from_be_bytes
add_loop-Holds [] [] e hx hy = record {
  value = omega arith;
  size = refl;
  bytes = tt;
  carried = omega arith;
}
add_loop-Holds [] (y ∷ ys) e hx hy = absurd (omega arith)
add_loop-Holds (x ∷ xs) [] e hx hy = absurd (omega arith)
add_loop-Holds (x ∷ xs) (y ∷ ys) e hx hy =
    let ih = add_loop-Holds xs ys (omega arith) hx.1 hy.1 in
    let step =
      Holds-step (length xs) _ 1 ((x + y + (add_loop xs ys).0) % 2 ^ 16) (x + y) _ _ ih
        (omega (arith, ih.carried)) (omega (arith, ih.carried)) in
    subst (λ t. Holds (suc (length xs)) t 1 (add_loop (x ∷ xs) (y ∷ ys)))
      (omega (arith, ap (λ (t : ℕ). y * 256 ^ t) (length-eq e))) step
  where
    length-eq : suc (length xs) ≡ suc (length ys) → length xs ≡ length ys
    length-eq q = omega arith

mul_loop-Holds :
    (m : ℕ) (xs : Bytes)
    → m < 2 ^ 64
    → All IsByte xs
    → Holds (length xs) (from_be_bytes xs * m) m (mul_loop m xs)
unfolding mul_loop from_be_bytes
mul_loop-Holds m [] hm h = record {
  value = omega arith;
  size = refl;
  bytes = tt;
  carried = omega arith;
}
mul_loop-Holds m (x ∷ xs) hm h =
    let ih = mul_loop-Holds m xs hm h.1 in
    let small : x * m ≤ 255 * m = grind (arith, h.0) in
    let step =
      Holds-step (length xs) _ m ((x * m + (mul_loop m xs).0) % 2 ^ 128) (x * m) _ _ ih
        (omega (arith, ih.carried, small)) (omega (arith, ih.carried, small)) in
    subst (λ t. Holds (suc (length xs)) t m (mul_loop m (x ∷ xs))) (omega arith) step

-- A result cut to `n` bytes is the total modulo 256 ^ n.
Holds-mod :
    (n total bound : ℕ) (r : ℕ × Bytes)
    → Holds n total bound r
    → (from_be_bytes r.1 ≡ total % 256 ^ n) × IsArray n r.1
Holds-mod n total bound r h = (
  sym (
        mod-eq_of_lt
          (subst (λ t. from_be_bytes r.1 < 256 ^ t) h.size (from_be_bytes-lt r.1 h.bytes)))
      ∙ sym (add-mul-mod_self_right (from_be_bytes r.1) r.0 (256 ^ n))
      ∙ ap (λ t. t % 256 ^ n) h.value,
  (h.size, h.bytes),
)

-- `u256_add` is addition modulo 2 ^ 256 of the numbers that two 32-byte arrays stand for, and
-- returns a 32-byte array.
pub u256_add-value :
    (a b : Bytes)
    → IsU256 a
    → IsU256 b
    → (from_be_bytes (u256_add a b) ≡ (from_be_bytes a + from_be_bytes b) % 2 ^ 256)
      × IsU256 (u256_add a b)
unfolding u256_add
u256_add-value a b ha hb = Holds-mod 32 (from_be_bytes a + from_be_bytes b) 1 (add_loop a b) (
    subst (λ n. Holds n (from_be_bytes a + from_be_bytes b) 1 (add_loop a b)) ha.0
      (add_loop-Holds a b (ha.0 ∙ sym hb.0) ha.1 hb.1))

-- `u256_mul_u64` is multiplication modulo 2 ^ 256 of a 32-byte array by a u64, and returns a
-- 32-byte array.
pub u256_mul_u64-value :
    (a : Bytes) (m : ℕ)
    → IsU256 a
    → m < 2 ^ 64
    → (from_be_bytes (u256_mul_u64 a m) ≡ from_be_bytes a * m % 2 ^ 256) × IsU256 (u256_mul_u64 a m)
unfolding u256_mul_u64
u256_mul_u64-value a m ha hm =
    Holds-mod 32 (from_be_bytes a * m) m (mul_loop m a) (
      subst (λ n. Holds n (from_be_bytes a * m) m (mul_loop m a)) ha.0 (mul_loop-Holds m a hm ha.1))
