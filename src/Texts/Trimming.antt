-- ===== src/Texts/Trimming.antt =====
-- `trim` of a text that is printable ASCII.
use mathlib.Core.List.{reverse, reverse-reverse, reverse-cons}
use ant_wasm_client.Base.{
  ℕ, zero, suc, ◌≡◌, ◌≤◌, ◌<◌, refl, Bool, true, false, ◌&&◌, ◌||◌, ltb, none, List, [], ◌∷◌, map,
  length, All, All-append, Text, arith,
}
use ant_wasm_client.Texts.{strip_prefix, white_space, strip_any, strip_all, trim}

-- Bytes from `!` to `~`.
abbrev pub IsPlain : Text → Type 0
IsPlain = All (λ b. (0x21 ≤ b) × (b < 0x7f))

-- Texts that start with another byte.
all_foreign : List Text → Bool
all_foreign [] = true
all_foreign ([] ∷ ps) = false
all_foreign ((c ∷ p) ∷ ps) = (ltb c 0x21 || ltb 0x7e c) && all_foreign ps

strip_any-foreign :
    (ps : List Text) (b : ℕ) (t : Text)
    → (0x21 ≤ b) × (b < 0x7f)
    → all_foreign ps ≡ true
    → strip_any ps (b ∷ t) ≡ none
unfolding strip_any strip_prefix all_foreign
strip_any-foreign [] b t h f = refl
strip_any-foreign ([] ∷ ps) b t h f = cc
strip_any-foreign ((c ∷ p) ∷ ps) b t h f = ground (arith, strip_any-foreign ps b t h)

strip_all-foreign :
    (fuel : ℕ) (ps : List Text) (t : Text)
    → IsPlain t
    → strip_any ps [] ≡ none
    → all_foreign ps ≡ true
    → strip_all fuel ps t ≡ t
unfolding strip_all
strip_all-foreign zero ps t h e f = refl
strip_all-foreign (suc fuel) ps [] h e f = ground (arith, e)
strip_all-foreign (suc fuel) ps (b ∷ t) (hb, h) e f = ground (arith, strip_any-foreign ps b t hb f)

reverse-IsPlain : (t : Text) → IsPlain t → IsPlain (reverse t)
reverse-IsPlain [] h = tt
reverse-IsPlain (b ∷ t) (hb, h) =
    rw (reverse-cons b t) (All-append _ (reverse t) (b ∷ []) (reverse-IsPlain t h) (hb, tt))

pub trim-IsPlain : (t : Text) → IsPlain t → trim t ≡ t
unfolding trim all_foreign strip_any strip_prefix
trim-IsPlain t h =
    let front = strip_all-foreign (length t) white_space t h refl refl in
    rw front (
      rw
        (strip_all-foreign (length t) (map reverse white_space) (reverse t) (reverse-IsPlain t h)
          refl refl)
        (reverse-reverse t))
