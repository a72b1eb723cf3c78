-- ===== src/Payment/Display.antt =====
-- src/payment.rs: the texts of a payment error.
use ant_wasm_client.Base.{
  ℕ, ◌≡◌, refl, ◌/◌, ◌%◌, ◌+◌, ◌-◌, ltb, none, some, [], ◌∷◌, ◌++◌, if◌then◌else◌, Text,
}
use ant_wasm_client.Texts.{codes}
use ant_wasm_client.Payment.{PaymentError, decode, encode, bad_proof_tag}

-- A hexadecimal digit, and the two of a byte.
hex_digit : ℕ → ℕ
hex_digit n = if ltb n 10 then b'0' + n else b'a' + (n - 10)

hex_byte : ℕ → Text
unfolding hex_digit
hex_byte b = hex_digit (b / 16) ∷ hex_digit (b % 16) ∷ []

fmt : PaymentError → Text
unfolding hex_byte
fmt (decode e) = codes "payment decode failed: " ++ e
fmt (encode e) = codes "payment encode failed: " ++ e
fmt (bad_proof_tag (some tag)) = codes "unexpected proof tag byte 0x" ++ hex_byte tag
fmt (bad_proof_tag none) = codes "empty proof bytes"

fmt_tag : fmt (bad_proof_tag (some 0x0c)) ≡ codes "unexpected proof tag byte 0x0c"
unfolding fmt
fmt_tag = refl
