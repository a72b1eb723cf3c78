-- ===== src/Texts.antt =====
-- The methods of `str` that the client uses, on texts as their UTF-8 bytes.
pub mod Splitting
pub mod Trimming
use Prim.Native.Char.{code}
use Prim.Native.String.{String}
use mathlib.Core.List.{reverse}
use ant_wasm_client.Base.{
  ◌≡◌, refl, Bool, true, false, ◌&&◌, ◌+◌, ◌/◌, ◌%◌, ltb, ℕ, zero, suc, Option, none, some, List,
  [], ◌∷◌, ◌++◌, map, length, ◌==◌, if◌then◌else◌, Text,
}

-- The bytes of a literal, which is ASCII.
abbrev pub codes : String → Text
codes String.[] = []
codes (String.◌∷◌ c s) = code c ∷ codes s

unfoldable pub strip_prefix : Text → Text → Option Text
strip_prefix [] t = some t
strip_prefix (p ∷ ps) [] = none
strip_prefix (p ∷ ps) (b ∷ t) = if p == b then strip_prefix ps t else none

-- `strip_prefix(p).unwrap_or(self)`
unfoldable pub without_prefix : Text → Text → Text
unfolding strip_prefix
without_prefix p t = elim (strip_prefix p t) [ none ↦ t | some rest ↦ rest ]

-- The characters that have the Unicode property White_Space.
abbrev pub white_space : List Text
white_space =
    map (λ b. b ∷ []) (0x09 ∷ 0x0a ∷ 0x0b ∷ 0x0c ∷ 0x0d ∷ 0x20 ∷ [])
    ++ ((0xc2 ∷ 0x85 ∷ []) ∷ (0xc2 ∷ 0xa0 ∷ []) ∷ (0xe1 ∷ 0x9a ∷ 0x80 ∷ []) ∷ [])
    ++ map (λ b. 0xe2 ∷ 0x80 ∷ b ∷ [])
        (0x80 ∷ 0x81 ∷ 0x82 ∷ 0x83 ∷ 0x84 ∷ 0x85 ∷ 0x86 ∷ 0x87 ∷ 0x88 ∷ 0x89 ∷ 0x8a ∷ 0xa8 ∷ 0xa9
          ∷ 0xaf ∷ [])
    ++ ((0xe2 ∷ 0x81 ∷ 0x9f ∷ []) ∷ (0xe3 ∷ 0x80 ∷ 0x80 ∷ []) ∷ [])

-- The text less one of some prefixes.
strip_any : List Text → Text → Option Text
unfolding strip_prefix
strip_any [] t = none
strip_any (p ∷ ps) t = elim (strip_prefix p t) [ none ↦ strip_any ps t | some rest ↦ some rest ]

-- As many rounds as the text has bytes.
strip_all : ℕ → List Text → Text → Text
unfolding strip_any
strip_all zero ps t = t
strip_all (suc fuel) ps t = elim (strip_any ps t) [ none ↦ t | some rest ↦ strip_all fuel ps rest ]

-- `trim`: at the front, then at the back, where the characters read backwards.
unfoldable pub trim : Text → Text
unfolding strip_all
trim t =
    let front = strip_all (length t) white_space t in
    reverse (strip_all (length front) (map reverse white_space) (reverse front))

-- `starts_with`
unfoldable pub starts_with : Text → Text → Bool
starts_with [] t = true
starts_with (p ∷ ps) [] = false
starts_with (p ∷ ps) (b ∷ t) = p == b && starts_with ps t

abbrev pub cons_first : ℕ → List Text → List Text
cons_first b [] = (b ∷ []) ∷ []
cons_first b (p ∷ ps) = (b ∷ p) ∷ ps

-- `split` at an ASCII character: one piece more than the text has of it.
unfoldable pub split : ℕ → Text → List Text
split c [] = [] ∷ []
split c (b ∷ t) = let rest = split c t in if b == c then [] ∷ rest else cons_first b rest

-- `strip_suffix('\r').unwrap_or(self)`
unfoldable pub without_cr : Text → Text
without_cr [] = []
without_cr (b ∷ []) = if b == 0x0d then [] else b ∷ []
without_cr (b ∷ c ∷ t) = b ∷ without_cr (c ∷ t)

-- `join`
unfoldable pub join : Text → List Text → Text
join sep [] = []
join sep (p ∷ []) = p
join sep (p ∷ q ∷ ps) = p ++ (sep ++ join sep (q ∷ ps))

-- A number in decimal, with one digit for each round of fuel.
digits : ℕ → ℕ → Text → Text
digits zero n later = later
digits (suc fuel) n later =
    let rest = digits fuel (n / 10) ((b'0' + n % 10) ∷ later) in
    if ltb n 10 then (b'0' + n % 10) ∷ later else rest

-- `Display` of a `u16`, which has at most five digits.
unfoldable pub decimal_u16 : ℕ → Text
unfolding digits
decimal_u16 n = digits 5 n []

-- `Display` of a `usize`, which has at most twenty digits.
unfoldable pub decimal_usize : ℕ → Text
unfolding digits
decimal_usize n = digits 20 n []

decimal_4070 : decimal_u16 4070 ≡ codes "4070"
unfolding decimal_u16
decimal_4070 = refl

trim_prefix :
    without_prefix (codes "0x") (trim (0x20 ∷ b'0' ∷ b'x' ∷ b'7' ∷ 0xc2 ∷ 0xa0 ∷ 0x0a ∷ []))
    ≡ b'7' ∷ []
unfolding trim without_prefix
trim_prefix = refl
