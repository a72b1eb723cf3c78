-- ===== src/Evm/U256.antt =====
-- src/evm.rs: the big-endian 256-bit arithmetic. A `[u8; 32]` is a list of bytes, highest first.
-- The loops of the source run from index 31 down to 0, with `carry` from the lower bytes: the
-- recursion does the tail first. The `u16` and `u128` sums keep their wrap-around written out.
pub mod Sums
pub mod Order
use Prim.Native.Nat.{compare, Ordering}
use ant_wasm_client.Base.{ℕ, ◌+◌, ◌*◌, ◌/◌, ◌%◌, ◌^◌, [], ◌∷◌, replicate, Bytes, IsArray}

-- `[0u8; 32]`
abbrev pub u256_zero : Bytes
u256_zero = replicate 32 0

abbrev pub IsU256 : Bytes → Type 0
IsU256 = IsArray 32

-- The carry out of the bytes, and the bytes of the sum.
add_loop : Bytes → Bytes → ℕ × Bytes
add_loop (a ∷ as_) (b ∷ bs) =
    let (carry, out) = add_loop as_ bs in
    let sum = (a + b + carry) % 2 ^ 16 in (sum / 256, (sum % 256) ∷ out)
add_loop _ _ = (0, [])

unfoldable pub u256_add : Bytes → Bytes → Bytes
unfolding add_loop
u256_add a b = (add_loop a b).1

mul_loop : ℕ → Bytes → ℕ × Bytes
mul_loop m (a ∷ as_) =
    let (carry, out) = mul_loop m as_ in
    let prod = (a * m + carry) % 2 ^ 128 in (prod / 256, (prod % 256) ∷ out)
mul_loop m [] = (0, [])

unfoldable pub u256_mul_u64 : Bytes → ℕ → Bytes
unfolding mul_loop
u256_mul_u64 a m = (mul_loop m a).1

-- `Ordering::then`
abbrev pub on_tie : Ordering → Ordering → Ordering
on_tie Ordering.lt rest = Ordering.lt
on_tie Ordering.eq rest = rest
on_tie Ordering.gt rest = Ordering.gt

-- `Ord::cmp` on arrays is lexicographic.
unfoldable pub u256_cmp : Bytes → Bytes → Ordering
u256_cmp (a ∷ as_) (b ∷ bs) = on_tie (compare a b) (u256_cmp as_ bs)
u256_cmp [] [] = Ordering.eq
u256_cmp [] (b ∷ bs) = Ordering.lt
u256_cmp (a ∷ as_) [] = Ordering.gt
