-- ===== src/Evm/Split/Sorting.antt =====
-- src/evm.rs: what the sort in `payment_split` does, on the numbers that the prices stand for.
use Prim.Native.Nat.{compare}
use ant_wasm_client.Base.{
  ℕ, zero, suc, ◌+◌, ◌≤◌, ◌≡◌, refl, ap, ◌∙◌, subst, Bool, true, false, List, [], ◌∷◌, length,
  get_elem?, leb, some, All, arith, Bool-cases, inl, inr,
}
use mathlib.Core.Option.{some-injective}
use ant_wasm_client.Base.Words.{from_be_bytes}
use ant_wasm_client.Evm.U256.{IsU256, u256_cmp}
use ant_wasm_client.Evm.U256.Order.{u256_cmp-value}
use ant_wasm_client.Evm.Split.{Ranked, not_greater, insert, sort_by_price}

-- The number that an entry's price stands for.
abbrev pub price_of : Ranked → ℕ
price_of x = from_be_bytes x.1

abbrev pub IsPriced : Ranked → Type 0
IsPriced x = IsU256 x.1

abbrev pub IsSorted : List Ranked → Type 0
IsSorted [] = Unit {0}
IsSorted (x ∷ xs) = All (λ y. price_of x ≤ price_of y) xs × IsSorted xs

not_greater-compare : (a b : ℕ) → not_greater (compare a b) ≡ leb a b
not_greater-compare a b = ground arith

not_greater-leb :
    (x y : Ranked)
    → IsPriced x
    → IsPriced y
    → not_greater (u256_cmp x.1 y.1) ≡ leb (price_of x) (price_of y)
not_greater-leb x y hx hy =
    ap not_greater (u256_cmp-value x.1 y.1 hx hy) ∙ not_greater-compare (price_of x) (price_of y)

module _ (P : Ranked → Type 0) where
  insert-All : (x : Ranked) (l : List Ranked) → P x → All P l → All P (insert x l)
  unfolding insert
  insert-All x [] hx hl = (hx, tt)
  insert-All x (y ∷ ys) hx (hy, hys) = elim (Bool-cases (not_greater (u256_cmp x.1 y.1))) [
    | inl e ↦ rw e (hx, (hy, hys))
    | inr e ↦ rw e (hy, insert-All x ys hx hys)
  ]

  pub sort_by_price-All : (l : List Ranked) → All P l → All P (sort_by_price l)
  unfolding sort_by_price
  sort_by_price-All [] h = tt
  sort_by_price-All (x ∷ xs) (hx, hxs) =
      insert-All x (sort_by_price xs) hx (sort_by_price-All xs hxs)

All-map : (P Q : Ranked → Type 0) (l : List Ranked) → ((x : Ranked) → P x → Q x) → All P l → All Q l
All-map P Q [] f h = tt
All-map P Q (x ∷ xs) f (hx, hxs) = (f x hx, All-map P Q xs f hxs)

insert-IsSorted :
    (x : Ranked) (l : List Ranked)
    → IsPriced x
    → All IsPriced l
    → IsSorted l
    → IsSorted (insert x l)
unfolding insert
insert-IsSorted x [] px pl s = (tt, tt)
insert-IsSorted x (y ∷ ys) px (py, pys) (below, s) =
    elim (Bool-cases (not_greater (u256_cmp x.1 y.1))) [
      | inl e ↦
          let x-le-y : price_of x ≤ price_of y = ground (arith, not_greater-leb x y px py, e) in
          rw e ((x-le-y, All-map _ _ ys (λ z h. omega (arith, h, x-le-y)) below), (below, s))
      | inr e ↦
          let y-le-x : price_of y ≤ price_of x = ground (arith, not_greater-leb x y px py, e) in
          rw e (
            insert-All (λ z. price_of y ≤ price_of z) x ys y-le-x below,
            insert-IsSorted x ys px pys s,
          )
    ]

pub sort_by_price-IsSorted : (l : List Ranked) → All IsPriced l → IsSorted (sort_by_price l)
unfolding sort_by_price
sort_by_price-IsSorted [] h = tt
sort_by_price-IsSorted (x ∷ xs) (hx, hxs) =
    insert-IsSorted x (sort_by_price xs) hx (sort_by_price-All IsPriced xs hxs)
      (sort_by_price-IsSorted xs hxs)

abbrev pub bit : Bool → ℕ
bit true = 1
bit false = 0

-- How many entries pass a test on their price.
abbrev pub count : (ℕ → Bool) → List Ranked → ℕ
count t [] = 0
count t (x ∷ xs) = bit (t (price_of x)) + count t xs

insert-count :
    (t : ℕ → Bool) (x : Ranked) (l : List Ranked) → count t (insert x l) ≡ count t (x ∷ l)
unfolding insert
insert-count t x [] = refl
insert-count t x (y ∷ ys) = elim (Bool-cases (not_greater (u256_cmp x.1 y.1))) [
  | inl e ↦ rw e
  | inr e ↦ rw e (omega (arith, insert-count t x ys))
]

-- A sort moves entries and loses none.
pub sort_by_price-count : (t : ℕ → Bool) (l : List Ranked) → count t (sort_by_price l) ≡ count t l
unfolding sort_by_price
sort_by_price-count t [] = refl
sort_by_price-count t (x ∷ xs) =
    insert-count t x (sort_by_price xs) ∙ omega (arith, sort_by_price-count t xs)

length-insert : (x : Ranked) (l : List Ranked) → length (insert x l) ≡ suc (length l)
unfolding insert
length-insert x [] = refl
length-insert x (y ∷ ys) = elim (Bool-cases (not_greater (u256_cmp x.1 y.1))) [
  | inl e ↦ rw e
  | inr e ↦ rw e (ap suc (length-insert x ys))
]

pub length-sort_by_price : (l : List Ranked) → length (sort_by_price l) ≡ length l
unfolding sort_by_price
length-sort_by_price [] = refl
length-sort_by_price (x ∷ xs) =
    length-insert x (sort_by_price xs) ∙ ap suc (length-sort_by_price xs)

pub All-get :
    (P : Ranked → Type 0) (l : List Ranked) (k : ℕ) {d : Ranked}
    → All P l
    → get_elem? l k ≡ some d
    → P d
All-get P [] k h e = cc
All-get P (x ∷ xs) zero h e = subst P (cc) h.0
All-get P (x ∷ xs) (suc k) h e = All-get P xs k h.1 e

-- Every entry counts that a lower bound stands under.
count_above :
    (v : ℕ) (l : List Ranked) → All (λ y. v ≤ price_of y) l → count (λ p. leb v p) l ≡ length l
count_above v [] h = refl
count_above v (x ∷ xs) h = ground (arith, count_above v xs h.1, h.0)

-- The entry at `k` of a sorted list has `k + 1` entries at most as large, itself among them, and
-- all from `k` on at least as large.
pub IsSorted-rank :
    (l : List Ranked) (k : ℕ) (d : Ranked)
    → IsSorted l
    → get_elem? l k ≡ some d
    → (k + 1 ≤ count (λ p. leb p (price_of d)) l)
      × (length l ≤ k + count (λ p. leb (price_of d) p) l)
IsSorted-rank [] k d s e = cc
IsSorted-rank (x ∷ xs) zero d s e =
    let same : price_of x ≡ price_of d = ap price_of (some-injective x d e) in
    let above = count_above (price_of d) xs (subst (λ v. All (λ y. v ≤ price_of y) xs) same s.0) in
    (ground (arith, same), ground (arith, same, above))
IsSorted-rank (x ∷ xs) (suc k) d s e =
    let x-le-d : price_of x ≤ price_of d = All-get (λ y. price_of x ≤ price_of y) xs k s.0 e in
    let (lo, hi) = IsSorted-rank xs k d s.1 e in (ground (arith, lo, x-le-d), ground (arith, hi))
