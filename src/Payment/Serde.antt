-- ===== src/Payment/Serde.antt =====
-- src/payment.rs: the hand-written (de)serializers of fixed-size byte arrays, the macro
-- `bin_bytes_mod` at any size `n` and `seq_bytes_32`. serde hands a visitor either a byte slice or
-- a sequence of elements, each of which may fail to decode.
use ant_wasm_client.Base.{
  ℕ, zero, suc, ◌+◌, ◌<◌, ◌≡◌, refl, ap, List, [], ◌∷◌, ◌++◌, map, length, ◌==◌, if◌then◌else◌,
  Bytes, Text, Result, ok, err, ◌>>=◌, arith, subst, append-nil, ◌∙◌,
}

pub data SerdeError : Type 0 where
  expected_bytes : ℕ → ℕ → SerdeError
  invalid_length : ℕ → SerdeError
  element : Text → SerdeError

-- `visit_bytes`: `<[u8; n]>::try_from(v)`
unfoldable pub visit_bytes : ℕ → Bytes → Result Bytes SerdeError
visit_bytes n v = if length v == n then ok v else err (expected_bytes n (length v))

-- The `for` of `visit_seq`, with the slots that are left and the index of the next one.
visit_slots : ℕ → ℕ → List (Result ℕ Text) → Result Bytes SerdeError
visit_slots zero i seq = ok []
visit_slots (suc left) i [] = err (invalid_length i)
visit_slots (suc left) i (err e ∷ seq) = err (element e)
visit_slots (suc left) i (ok b ∷ seq) = do rest ← visit_slots left (suc i) seq; ok (b ∷ rest)

unfoldable pub visit_seq : ℕ → List (Result ℕ Text) → Result Bytes SerdeError
unfolding visit_slots
visit_seq n seq = visit_slots n 0 seq

-- `seq_bytes_32::deserialize`: a `Vec<u8>`, then `try_into`.
unfoldable pub deserialize_seq_32 : Result Bytes Text → Result Bytes SerdeError
deserialize_seq_32 (ok v) = if length v == 32 then ok v else err (expected_bytes 32 (length v))
deserialize_seq_32 (err e) = err (element e)

visit_slots_enough :
    (bs : Bytes) (i : ℕ) (more : List (Result ℕ Text))
    → visit_slots (length bs) i (map ok bs ++ more) ≡ ok bs
unfolding visit_slots
visit_slots_enough [] i more = refl
visit_slots_enough (b ∷ bs) i more = rw (visit_slots_enough bs (suc i) more)

visit_slots_short :
    (bs : Bytes) (left i : ℕ)
    → length bs < left
    → visit_slots left i (map ok bs) ≡ err (invalid_length (i + length bs))
unfolding visit_slots
visit_slots_short bs zero i h = absurd (omega arith)
visit_slots_short [] (suc left) i h = ap (λ k. err (invalid_length k)) (omega arith)
visit_slots_short (b ∷ bs) (suc left) i h =
    rw (visit_slots_short bs left (suc i) (omega arith))
      (ap (λ k. err (invalid_length k)) (omega arith))

-- The two visitors of `bin_bytes_mod` read one array alike, whether the format hands it over as a
-- byte string or element by element.
visitors_agree :
    (bs : Bytes)
    → (visit_bytes (length bs) bs ≡ ok bs) × (visit_seq (length bs) (map ok bs) ≡ ok bs)
unfolding visit_bytes visit_seq
visitors_agree bs = (
  ground arith,
  subst (λ t. visit_slots (length bs) 0 t ≡ ok bs) (append-nil (map ok bs))
      (visit_slots_enough bs 0 []),
)

-- From a sequence that is too short `visit_seq` reports the index at which it ran out, and
-- `visit_bytes` reports the length.
visitors_short :
    (n : ℕ) (bs : Bytes)
    → length bs < n
    → (visit_seq n (map ok bs) ≡ err (invalid_length (length bs)))
      × (visit_bytes n bs ≡ err (expected_bytes n (length bs)))
unfolding visit_bytes visit_seq
visitors_short n bs h =
    (visit_slots_short bs n 0 h ∙ ap (λ k. err (invalid_length k)) (omega arith), ground arith)
