-- ===== src/Texts/Splitting.antt =====
-- `split` at a character, against the pieces put together.
use ant_wasm_client.Base.{
  ℕ, ◌≡◌, refl, ap, false, Bool-cases, inl, inr, List, [], ◌∷◌, ◌++◌, ◌==◌, All, Text, arith,
}
use ant_wasm_client.Texts.{cons_first, split, without_cr}

-- A text without a character.
abbrev pub Lacks : ℕ → Text → Type 0
Lacks c = All (λ b. (b == c) ≡ false)

cons_first-Lacks :
    (c b : ℕ) (ps : List Text)
    → (b == c) ≡ false
    → All (Lacks c) ps
    → All (Lacks c) (cons_first b ps)
cons_first-Lacks c b [] h hs = ((h, tt), tt)
cons_first-Lacks c b (p ∷ ps) h (hp, hs) = ((h, hp), hs)

pub split-Lacks : (c : ℕ) (t : Text) → All (Lacks c) (split c t)
unfolding split
split-Lacks c [] = (tt, tt)
split-Lacks c (b ∷ t) = elim (Bool-cases (b == c)) [
  | inl e ↦ rw e (tt, split-Lacks c t)
  | inr e ↦ rw e (cons_first-Lacks c b (split c t) e (split-Lacks c t))
]

-- A text up to a character, and what is behind it.
pub split-append :
    (c : ℕ) (l rest : Text) → Lacks c l → split c (l ++ (c ∷ rest)) ≡ l ∷ split c rest
unfolding split
split-append c [] rest h = ground arith
split-append c (b ∷ l) rest (hb, hl) = rw hb (ap (cons_first b) (split-append c l rest hl))

pub without_cr-append : (l : Text) → without_cr (l ++ (0x0d ∷ [])) ≡ l
unfolding without_cr
without_cr-append [] = refl
without_cr-append (b ∷ []) = refl
without_cr-append (b ∷ c ∷ l) = ap (λ t. b ∷ t) (without_cr-append (c ∷ l))

pub without_cr-Lacks : (c : ℕ) (l : Text) → Lacks c l → Lacks c (without_cr l)
unfolding without_cr
without_cr-Lacks c [] h = tt
without_cr-Lacks c (b ∷ []) h = elim (Bool-cases (b == 0x0d)) [ inl e ↦ rw e tt | inr e ↦ rw e h ]
without_cr-Lacks c (b ∷ d ∷ l) (hb, hl) = (hb, without_cr-Lacks c (d ∷ l) hl)
