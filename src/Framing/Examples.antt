-- ===== src/Framing/Examples.antt =====
-- src/framing.rs at concrete bytes.
use ant_wasm_client.Base.{◌≡◌, inl, refl, [], ◌∷◌, take, err, arith}
use ant_wasm_client.Base.Words.{from_be_bytes}
use ant_wasm_client.Errors.{frame_length_out_of_range}
use ant_wasm_client.Framing.{push}
use ant_wasm_client.Framing.Reassembly.{push-refuses}

-- A header that declares no byte.
push-refuses_example :
    (push (0 ∷ 0 ∷ []) (0 ∷ 0 ∷ []) ≡ (err (frame_length_out_of_range 0), 0 ∷ 0 ∷ 0 ∷ 0 ∷ []))
    × ((push (0 ∷ 0 ∷ 0 ∷ 0 ∷ []) (1 ∷ [])).0 ≡ err (frame_length_out_of_range 0))
unfolding from_be_bytes take
push-refuses_example = push-refuses (0 ∷ 0 ∷ []) (0 ∷ 0 ∷ []) (1 ∷ []) (omega arith) (inl refl)
