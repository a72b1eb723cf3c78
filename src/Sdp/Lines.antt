-- ===== src/Sdp/Lines.antt =====
-- src/sdp.rs: `munge_offer`, line by line.
use ant_wasm_client.Base.{
  ℕ, ◌+◌, ◌≡◌, ◌≢◌, refl, ap, sym, ◌∙◌, subst, ◌⊎◌, inl, inr, Bool, true, false, ◌||◌, Bool-cases,
  List, [], ◌∷◌, ◌++◌, append_assoc, map, ◌==◌, if◌then◌else◌, All, All-append, Text, ok, err,
  arith,
}
use ant_wasm_client.Errors.{credentials_replaced}
use ant_wasm_client.Texts.{codes, starts_with, split, without_cr}
use ant_wasm_client.Texts.Splitting.{
  Lacks, split-Lacks, split-append, without_cr-append, without_cr-Lacks,
}
use ant_wasm_client.Sdp.{
  ufrag_prefix, pwd_prefix, crlf, munge_line, add_munged, munge_lines, munge_offer,
}

-- The texts that are not empty.
abbrev pub nonempty : List Text → List Text
nonempty [] = []
nonempty ([] ∷ ls) = nonempty ls
nonempty ((b ∷ l) ∷ ls) = (b ∷ l) ∷ nonempty ls

-- The lines of a description, ended by a line feed with or without a carriage return.
abbrev pub lines : Text → List Text
lines t = nonempty (map without_cr (split 0x0a t))

abbrev pub is_credential : Text → Bool
is_credential l = starts_with ufrag_prefix l || starts_with pwd_prefix l

abbrev pub count_credentials : List Text → ℕ
count_credentials [] = 0
count_credentials (l ∷ ls) = (if is_credential l then 1 else 0) + count_credentials ls

-- What stands in the place of a line: a ufrag or a password is replaced by the credential under the
-- same prefix, and any other line is kept.
pub record Replaced (ufrag old new : Text) : Type 0 where
  pub a_ufrag : starts_with ufrag_prefix old ≡ true → new ≡ ufrag_prefix ++ ufrag
  pub a_pwd : starts_with pwd_prefix old ≡ true → new ≡ pwd_prefix ++ ufrag
  pub another : is_credential old ≡ false → new ≡ old

-- Two lists of the same length, related place by place.
abbrev pub Pairwise : {A : Type 0} → (A → A → Type 0) → List A → List A → Type 0
Pairwise R [] [] = Unit {0}
Pairwise R [] (y ∷ ys) = ⊥
Pairwise R (x ∷ xs) [] = ⊥
Pairwise R (x ∷ xs) (y ∷ ys) = R x y × Pairwise R xs ys

-- No text starts with two prefixes that part somewhere.
starts_with-apart :
    (p q q' : Text) (a b : ℕ) (l : Text)
    → (a == b) ≡ false
    → starts_with (p ++ (a ∷ q)) l ≡ true
    → starts_with (p ++ (b ∷ q')) l ≡ false
unfolding starts_with
starts_with-apart [] q q' a b [] e h = refl
starts_with-apart [] q q' a b (d ∷ l) e h = ground (arith, e, h)
starts_with-apart (c ∷ p) q q' a b [] e h = refl
starts_with-apart (c ∷ p) q q' a b (d ∷ l) e h = ground (arith, starts_with-apart p q q' a b l e, h)

one_prefix : (l : Text) → starts_with ufrag_prefix l ≡ true → starts_with pwd_prefix l ≡ false
one_prefix l h = starts_with-apart (codes "a=ice-") (codes "frag:") (codes "wd:") b'u' b'p' l refl h

munge_line-Replaced : (ufrag l : Text) → Replaced ufrag l (munge_line ufrag l).0
unfolding munge_line
munge_line-Replaced ufrag l = elim (Bool-cases (starts_with ufrag_prefix l)) [
  | inl e ↦
      let other = one_prefix l e in
      rw e (record {
        a_ufrag = λ h. refl;
        a_pwd = λ h. absurd (cc (other, h));
        another = λ h. absurd (cc (ap (λ b. b || starts_with pwd_prefix l) e, h));
      })
  | inr e ↦ elim (Bool-cases (starts_with pwd_prefix l)) [
    | inl e' ↦
        rw (e, e')
          (record {
            a_ufrag = λ h. absurd (cc (e, h));
            a_pwd = λ h. refl;
            another = λ h. absurd (ground (arith, e, e', h));
          })
    | inr e' ↦
        rw (e, e')
          (record {
            a_ufrag = λ h. absurd (cc (e, h));
            a_pwd = λ h. absurd (cc (e', h));
            another = λ h. refl;
          })
  ]
]

munge_line-Pairwise :
    (ufrag : Text) (ls : List Text)
    → Pairwise (Replaced ufrag) ls (map (λ l. (munge_line ufrag l).0) ls)
munge_line-Pairwise ufrag [] = tt
munge_line-Pairwise ufrag (l ∷ ls) = (munge_line-Replaced ufrag l, munge_line-Pairwise ufrag ls)

lines-crlf :
    (b : ℕ) (l rest : Text)
    → Lacks 0x0a (b ∷ l)
    → lines ((b ∷ l) ++ (crlf ++ rest)) ≡ (b ∷ l) ∷ lines rest
lines-crlf b l rest h =
    ap (λ t. lines t) (sym (append_assoc (b ∷ l) (0x0d ∷ []) (0x0a ∷ rest)))
    ∙ ap (λ ps. nonempty (map without_cr ps))
        (split-append 0x0a ((b ∷ l) ++ (0x0d ∷ [])) rest
          (All-append (λ d. (d == 0x0a) ≡ false) (b ∷ l) (0x0d ∷ []) h (refl, tt)))
    ∙ ap (λ l. nonempty (l ∷ map without_cr (split 0x0a rest))) (without_cr-append (b ∷ l))

module _ (ufrag : Text) (h : Lacks 0x0a ufrag) where
  -- What a line becomes: no line feed, not empty, the credential if it is one, and counted as one.
  record Munged (l : Text) (r : Text × ℕ) : Type 0 where
    pub one_line : Lacks 0x0a r.0
    pub filled : (rest : Text) → lines (r.0 ++ (crlf ++ rest)) ≡ r.0 ∷ lines rest
    pub counted : r.1 ≡ (if is_credential l then 1 else 0)

  replaced-Munged :
      (l : Text) (b : ℕ) (prefix : Text)
      → is_credential l ≡ true
      → Lacks 0x0a (b ∷ prefix)
      → Munged l ((b ∷ prefix) ++ ufrag, 1)
  replaced-Munged l b prefix e hp =
      let one_line = All-append (λ d. (d == 0x0a) ≡ false) (b ∷ prefix) ufrag hp h in
      record {
        one_line = one_line;
        filled = λ rest. lines-crlf b (prefix ++ ufrag) rest one_line;
        counted = rw e;
      }

  munge_line-Munged :
      (b : ℕ) (l : Text) → Lacks 0x0a (b ∷ l) → Munged (b ∷ l) (munge_line ufrag (b ∷ l))
  unfolding munge_line
  munge_line-Munged b l hl = elim (Bool-cases (starts_with ufrag_prefix (b ∷ l))) [
    | inl e ↦
        rw e (replaced-Munged (b ∷ l) b'a' (codes "=ice-ufrag:") (ground (arith, e)) (ground arith))
    | inr e ↦ elim (Bool-cases (starts_with pwd_prefix (b ∷ l))) [
      | inl e' ↦
          rw (e, e')
            (replaced-Munged (b ∷ l) b'a' (codes "=ice-pwd:") (ground (arith, e, e'))
              (ground arith))
      | inr e' ↦
          rw (e, e')
            (record {
              one_line = hl;
              filled = λ rest. lines-crlf b l rest hl;
              counted = ground (arith, e, e');
            })
    ]
  ]

  -- What is put out, against the lines that are read.
  abbrev MungedAll : List Text → Text × ℕ → Type 0
  MungedAll ls r = (r.1 ≡ count_credentials ls) × (lines r.0 ≡ map (λ l. (munge_line ufrag l).0) ls)

  add_munged-MungedAll :
      (l : Text) (ls : List Text) (later : Text × ℕ)
      → Lacks 0x0a l
      → MungedAll ls later
      → MungedAll (nonempty (l ∷ []) ++ ls) (add_munged ufrag l later)
  unfolding add_munged
  add_munged-MungedAll [] ls later hl all = all
  add_munged-MungedAll (b ∷ l) ls later hl (counts, each) =
      let munged = munge_line-Munged b l hl in
      (
        ap (λ n. n + later.1) munged.counted
            ∙ ap (λ n. (if is_credential (b ∷ l) then 1 else 0) + n) counts,
        munged.filled later.0 ∙ ap (λ ls. (munge_line ufrag (b ∷ l)).0 ∷ ls) each,
      )

  nonempty-cons : (l : Text) (ls : List Text) → nonempty (l ∷ ls) ≡ nonempty (l ∷ []) ++ nonempty ls
  nonempty-cons [] ls = refl
  nonempty-cons (b ∷ l) ls = refl

  munge_lines-MungedAll :
      (raws : List Text)
      → All (Lacks 0x0a) raws
      → MungedAll (nonempty (map without_cr raws)) (munge_lines ufrag raws)
  unfolding munge_lines
  munge_lines-MungedAll [] hs = unfold split without_cr in (refl, refl)
  munge_lines-MungedAll (raw ∷ raws) (hr, hs) =
      subst (λ ls. MungedAll ls (munge_lines ufrag (raw ∷ raws)))
        (sym (nonempty-cons (without_cr raw) (map without_cr raws)))
        (add_munged-MungedAll (without_cr raw) (nonempty (map without_cr raws))
          (munge_lines ufrag raws) (without_cr-Lacks 0x0a raw hr) (munge_lines-MungedAll raws hs))

  -- For a credential without a line feed: if the offer has exactly two credential lines, `munge_offer`
  -- puts out the lines of the offer that are not empty, in their order, where a ufrag line is replaced by the ufrag line of the
  -- given credential, a password line by its password line, and every other line is unchanged; if it
  -- has another number, `munge_offer` fails and says how many it replaced.
  pub munge_offer-lines :
      (sdp : Text)
      → ((count_credentials (lines sdp) ≡ 2)
          × ((out : Text) × (munge_offer sdp ufrag ≡ ok out)
              × Pairwise (Replaced ufrag) (lines sdp) (lines out)))
        ⊎ ((count_credentials (lines sdp) ≢ 2)
            × (munge_offer sdp ufrag ≡ err (credentials_replaced (count_credentials (lines sdp)))))
  unfolding munge_offer
  munge_offer-lines sdp =
      let (counts, each) = munge_lines-MungedAll (split 0x0a sdp) (split-Lacks 0x0a sdp) in
      elim (Bool-cases ((munge_lines ufrag (split 0x0a sdp)).1 == 2)) [
        | inl e ↦ inl (
          ground (arith, counts, e),
          (
            (munge_lines ufrag (split 0x0a sdp)).0,
            rw e,
            subst (Pairwise (Replaced ufrag) (lines sdp)) (sym each)
                (munge_line-Pairwise ufrag (lines sdp)),
          ),
        )
        | inr e ↦
            inr (ground (arith, counts, e), rw e (ap (λ n. err (credentials_replaced n)) counts))
      ]
