-- ===== src/Assoc.antt =====
-- Rust's `HashMap` with byte-array keys, as an association list.
use mathlib.Core.Path.{ap₂}
use ant_wasm_client.Base.{
  ◌≡◌, refl, subst, Bool, true, false, Option, none, some, List, [], ◌∷◌, All, if◌then◌else◌, Bytes,
  bytes_eq, bytes_eq→eq, bytes_eq_refl, Bool-cases, inl, inr, arith,
}

module _ {V : Type 0} where
  unfoldable pub lookup : Bytes → List (Bytes × V) → Option V
  lookup k [] = none
  lookup k ((j, v) ∷ m) = if bytes_eq j k then some v else lookup k m

  unfoldable pub insert : Bytes → V → List (Bytes × V) → List (Bytes × V)
  insert k v [] = (k, v) ∷ []
  insert k v ((j, w) ∷ m) = if bytes_eq j k then (k, v) ∷ m else (j, w) ∷ insert k v m

  unfoldable pub remove : Bytes → List (Bytes × V) → List (Bytes × V)
  remove k [] = []
  remove k ((j, w) ∷ m) = if bytes_eq j k then remove k m else (j, w) ∷ remove k m

  unfoldable pub contains_key : Bytes → List (Bytes × V) → Bool
  contains_key k [] = false
  contains_key k ((j, v) ∷ m) = if bytes_eq j k then true else contains_key k m

  pub contains_key-lookup :
      (k : Bytes) (m : List (Bytes × V)) → contains_key k m ≡ true → (v : V) × (lookup k m ≡ some v)
  unfolding contains_key lookup
  contains_key-lookup k [] h = cc
  contains_key-lookup k ((j, w) ∷ m) h = elim (Bool-cases (bytes_eq j k)) [
    | inl e ↦ (w, rw e)
    | inr e ↦ rw e (contains_key-lookup k m (ground (arith, h, e)))
  ]

  pub contains_key-insert_self :
      (k : Bytes) (v : V) (m : List (Bytes × V)) → contains_key k (insert k v m) ≡ true
  unfolding contains_key insert
  contains_key-insert_self k v [] = rw (bytes_eq_refl k)
  contains_key-insert_self k v ((j, w) ∷ m) = elim (Bool-cases (bytes_eq j k)) [
    | inl e ↦ rw (e, bytes_eq_refl k)
    | inr e ↦ rw (e, e) (contains_key-insert_self k v m)
  ]

  -- An insertion takes no other key away.
  pub contains_key-insert :
      (k j : Bytes) (v : V) (m : List (Bytes × V))
      → contains_key j m ≡ true
      → contains_key j (insert k v m) ≡ true
  unfolding contains_key insert
  contains_key-insert k j v [] h = cc
  contains_key-insert k j v ((i, w) ∷ m) h = elim (Bool-cases (bytes_eq i k)) [
    | inl e ↦ ground (arith, h, e, bytes_eq→eq i k e)
    | inr e ↦ ground (arith, h, e, contains_key-insert k j v m)
  ]

  pub lookup-remove : (k : Bytes) (m : List (Bytes × V)) → lookup k (remove k m) ≡ none
  unfolding lookup remove
  lookup-remove k [] = refl
  lookup-remove k ((j, w) ∷ m) = elim (Bool-cases (bytes_eq j k)) [
    | inl e ↦ rw e (lookup-remove k m)
    | inr e ↦ rw (e, e) (lookup-remove k m)
  ]

module _ {V : Type 0} (P : Bytes × V → Type 0) where
  pub lookup-All :
      (k : Bytes) (v : V) (m : List (Bytes × V)) → All P m → lookup k m ≡ some v → P (k, v)
  unfolding lookup
  lookup-All k v [] h e = cc
  lookup-All k v ((j, w) ∷ m) (hj, hm) e = elim (Bool-cases (bytes_eq j k)) [
    | inl q ↦
        let same : w ≡ v = ground (arith, q, e) in
        subst P (ap₂ {C = Bytes × V} (λ a b. (a, b)) (bytes_eq→eq j k q) same) hj
    | inr q ↦ lookup-All k v m hm (ground (arith, q, e))
  ]

  pub insert-All :
      (k : Bytes) (v : V) (m : List (Bytes × V)) → P (k, v) → All P m → All P (insert k v m)
  unfolding insert
  insert-All k v [] p h = (p, tt)
  insert-All k v ((j, w) ∷ m) p (hj, hm) = elim (Bool-cases (bytes_eq j k)) [
    | inl e ↦ rw e (p, hm)
    | inr e ↦ rw e (hj, insert-All k v m p hm)
  ]

  pub remove-All : (k : Bytes) (m : List (Bytes × V)) → All P m → All P (remove k m)
  unfolding remove
  remove-All k [] h = tt
  remove-All k ((j, w) ∷ m) (hj, hm) = elim (Bool-cases (bytes_eq j k)) [
    | inl e ↦ rw e (remove-All k m hm)
    | inr e ↦ rw e (hj, remove-All k m hm)
  ]
