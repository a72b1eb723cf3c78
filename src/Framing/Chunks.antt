-- ===== src/Framing/Chunks.antt =====
-- src/framing.rs: `split_messages`.
use ant_wasm_client.Base.{
  ℕ, zero, suc, ◌*◌, ◌≤◌, ◌<◌, ◌≡◌, refl, ap, ◌∙◌, [], ◌∷◌, ◌++◌, concat, length, take, drop,
  take-append-drop, length-take, length-drop, All, Bytes, arith,
}
use ant_wasm_client.Framing.{chunks_loop, chunks, split_messages}

abbrev pub FitsIn : ℕ → Bytes → Type 0
FitsIn n xs = (0 < length xs) × (length xs ≤ n)

chunks_loop-concat :
    (fuel n : ℕ) (xs : Bytes) → 0 < n → length xs ≤ fuel → concat (chunks_loop fuel n xs) ≡ xs
unfolding chunks_loop
chunks_loop-concat zero n [] hn h = refl
chunks_loop-concat zero n (x ∷ xs) hn h = absurd (omega arith)
chunks_loop-concat (suc fuel) n [] hn h = refl
chunks_loop-concat (suc fuel) n (x ∷ xs) hn h =
    ap (λ t. take n (x ∷ xs) ++ t)
      (chunks_loop-concat fuel n (drop n (x ∷ xs)) hn (omega (arith, length-drop n (x ∷ xs))))
    ∙ take-append-drop n (x ∷ xs)

chunks_loop-FitsIn : (fuel n : ℕ) (xs : Bytes) → 0 < n → All (FitsIn n) (chunks_loop fuel n xs)
unfolding chunks_loop
chunks_loop-FitsIn zero n xs hn = tt
chunks_loop-FitsIn (suc fuel) n [] hn = tt
chunks_loop-FitsIn (suc fuel) n (x ∷ xs) hn =
    (omega (arith, length-take n (x ∷ xs)), chunks_loop-FitsIn fuel n (drop n (x ∷ xs)) hn)

-- The messages of a frame put together are the frame, and each message holds between one byte and
-- 16 KiB.
pub split_messages_lem :
    (wire : Bytes)
    → (concat (split_messages wire) ≡ wire) × All (FitsIn (16 * 1024)) (split_messages wire)
unfolding split_messages chunks
split_messages_lem wire = (
  chunks_loop-concat (length wire) (16 * 1024) wire (omega arith) (omega arith),
  chunks_loop-FitsIn (length wire) (16 * 1024) wire (omega arith),
)
