-- ===== src/Base/Words.antt =====
-- Machine words as bytes: `to_be_bytes`, `to_le_bytes` and `from_be_bytes` of the standard library.
use Prim.Native.Nat.{ℕ, zero, suc, ◌+◌, ◌*◌, ◌/◌, ◌%◌, ◌^◌, ◌<◌}
use mathlib.Core.Path.{◌≡◌, refl, ap, ◌∙◌}
use mathlib.Core.List.{List, [], ◌∷◌, ◌++◌}
use native.Mathlib.Nat.{div-add-mod, div-div-eq-div-mul, div-eq_of_lt, mul_comm, zero-add, suc-add}
use native.Mathlib.Omega.{arith}
use ant_wasm_client.Base.Lists.{length, length-append, All}

-- The `w` low bytes of `n`, lowest first.
unfoldable pub to_le_bytes : ℕ → ℕ → List ℕ
to_le_bytes zero n = []
to_le_bytes (suc w) n = (n % 256) ∷ to_le_bytes w (n / 256)

-- The `w` low bytes of `n`, highest first.
unfoldable pub to_be_bytes : ℕ → ℕ → List ℕ
to_be_bytes zero n = []
to_be_bytes (suc w) n = (n / 256 ^ w % 256) ∷ to_be_bytes w n

-- The number that big-endian bytes stand for.
unfoldable pub from_be_bytes : List ℕ → ℕ
from_be_bytes [] = 0
from_be_bytes (b ∷ bs) = b * 256 ^ length bs + from_be_bytes bs

unfoldable pub from_le_bytes : List ℕ → ℕ
from_le_bytes [] = 0
from_le_bytes (b ∷ bs) = b + 256 * from_le_bytes bs

pub length-to_be_bytes : (w n : ℕ) → length (to_be_bytes w n) ≡ w
unfolding to_be_bytes
length-to_be_bytes zero n = refl
length-to_be_bytes (suc w) n = ap suc (length-to_be_bytes w n)

pub length-to_le_bytes : (w n : ℕ) → length (to_le_bytes w n) ≡ w
unfolding to_le_bytes
length-to_le_bytes zero n = refl
length-to_le_bytes (suc w) n = ap suc (length-to_le_bytes w (n / 256))

-- The weights of the bytes.
pub pow-256-suc : (w : ℕ) → 256 ^ suc w ≡ 256 * 256 ^ w
pow-256-suc w = omega arith

pow-256_pos : (w : ℕ) → 0 < 256 ^ w
pow-256_pos zero = omega arith
pow-256_pos (suc w) = omega (arith, pow-256_pos w)

-- What the bytes hold, and what they cut off.
from_be_bytes-to_be_bytes_split :
    (w n : ℕ) → from_be_bytes (to_be_bytes w n) + n / 256 ^ w * 256 ^ w ≡ n
unfolding to_be_bytes from_be_bytes
from_be_bytes-to_be_bytes_split zero n = omega arith
from_be_bytes-to_be_bytes_split (suc w) n = rw pow-256-suc (
    omega (
      arith,
      from_be_bytes-to_be_bytes_split w n,
      ap (λ (t : ℕ). n / 256 ^ w % 256 * 256 ^ t) (length-to_be_bytes w n),
      ap (λ (t : ℕ). t * 256 ^ w) (div-add-mod (n / 256 ^ w) 256),
      ap (λ (t : ℕ). t * (256 * 256 ^ w)) (div-div-eq-div-mul n (256 ^ w) 256),
      ap (λ (t : ℕ). n / t * (256 * 256 ^ w)) (mul_comm (256 ^ w) 256),
    ))

-- A word that fits is read back.
pub from_be_bytes-to_be_bytes : (w n : ℕ) → n < 256 ^ w → from_be_bytes (to_be_bytes w n) ≡ n
from_be_bytes-to_be_bytes w n h =
    omega (arith, from_be_bytes-to_be_bytes_split w n, ap (λ (t : ℕ). t * 256 ^ w) (div-eq_of_lt h))

pub from_le_bytes-to_le_bytes : (w n : ℕ) → n < 256 ^ w → from_le_bytes (to_le_bytes w n) ≡ n
unfolding to_le_bytes from_le_bytes
from_le_bytes-to_le_bytes zero n h = omega arith
from_le_bytes-to_le_bytes (suc w) n h =
    omega (arith, from_le_bytes-to_le_bytes w (n / 256) (omega arith))

pub to_be_bytes-IsByte : (w n : ℕ) → All (λ b. b < 256) (to_be_bytes w n)
unfolding to_be_bytes
to_be_bytes-IsByte zero n = tt
to_be_bytes-IsByte (suc w) n = (omega arith, to_be_bytes-IsByte w n)

pub from_be_bytes-lt : (bs : List ℕ) → All (λ b. b < 256) bs → from_be_bytes bs < 256 ^ length bs
unfolding from_be_bytes
from_be_bytes-lt [] h = omega arith
from_be_bytes-lt (b ∷ bs) (hb, hbs) = grind (arith, from_be_bytes-lt bs hbs)

pow-256-add : (a b : ℕ) → 256 ^ (a + b) ≡ 256 ^ a * 256 ^ b
pow-256-add zero b = rw zero-add (omega arith)
pow-256-add (suc a) b =
    rw (suc-add, pow-256-suc (a + b), pow-256-suc a)
      (omega (arith, ap (λ (t : ℕ). 256 * t) (pow-256-add a b)))

pub from_be_bytes-append :
    (xs ys : List ℕ)
    → from_be_bytes (xs ++ ys) ≡ from_be_bytes xs * 256 ^ length ys + from_be_bytes ys
unfolding from_be_bytes
from_be_bytes-append [] ys = omega arith
from_be_bytes-append (x ∷ xs) ys = omega (
  arith,
  from_be_bytes-append xs ys,
  ap (λ (t : ℕ). x * t)
      (ap (λ (k : ℕ). 256 ^ k) (length-append xs ys) ∙ pow-256-add (length xs) (length ys)),
)
