-- ===== src/Payment/Signing.antt =====
-- src/payment.rs: the signed payload, the signature check and the quote hash.
use mathlib.Core.List.{reverse, reverse-reverse, reverse-append}
use ant_wasm_client.Base.{
  ℕ, ◌<◌, ◌^◌, ◌≡◌, refl, sym, ap, ◌∙◌, true, Option, none, some, [], ◌∷◌, ◌++◌, length,
  length-append, take, drop, take-append, drop-append, Bytes, arith, ◌↔◌,
}
use ant_wasm_client.Base.Words.{
  to_le_bytes, from_le_bytes, length-to_le_bytes, from_le_bytes-to_le_bytes,
}
use ant_wasm_client.External.{Dsa}
use ant_wasm_client.Payment.{Quote, IsQuote, pin_bytes, bytes_for_sig, verify_quote}

length-reverse : (xs : Bytes) → length (reverse xs) ≡ length xs
length-reverse [] = refl
length-reverse (x ∷ xs) =
    ap length (reverse-append (x ∷ []) xs)
    ∙ omega (arith, length-append (reverse xs) (x ∷ []), length-reverse xs)

reverse-injective : (xs ys : Bytes) → reverse xs ≡ reverse ys → xs ≡ ys
reverse-injective xs ys e = sym (reverse-reverse xs) ∙ ap reverse e ∙ reverse-reverse ys

-- Two texts whose heads have one length are equal part by part.
append_parts :
    (n : ℕ) (xs us ys vs : Bytes)
    → length xs ≡ n
    → length us ≡ n
    → (xs ++ ys) ≡ (us ++ vs)
    → (xs ≡ us) × (ys ≡ vs)
append_parts n xs us ys vs hx hu e = (
  sym (take-append n xs ys hx) ∙ ap (take n) e ∙ take-append n us vs hu,
  sym (drop-append n xs ys hx) ∙ ap (drop n) e ∙ drop-append n us vs hu,
)

to_le_bytes-injective :
    (w m n : ℕ) → m < 256 ^ w → n < 256 ^ w → to_le_bytes w m ≡ to_le_bytes w n → m ≡ n
to_le_bytes-injective w m n hm hn e =
    sym (from_le_bytes-to_le_bytes w m hm) ∙ ap from_le_bytes e ∙ from_le_bytes-to_le_bytes w n hn

pin_bytes-injective : (p r : Option Bytes) → pin_bytes p ≡ pin_bytes r → p ≡ r
unfolding pin_bytes
pin_bytes-injective none none e = refl
pin_bytes-injective none (some r) e = cc
pin_bytes-injective (some p) none e = cc
pin_bytes-injective (some p) (some r) e = cc

-- The fields that a signature covers.
pub record SameSigned (q r : Quote) : Type 0 where
  pub content : q.content ≡ r.content
  pub secs : q.timestamp.secs ≡ r.timestamp.secs
  pub price : q.price ≡ r.price
  pub rewards_address : q.rewards_address ≡ r.rewards_address
  pub committed_key_count : q.committed_key_count ≡ r.committed_key_count
  pub commitment_pin : q.commitment_pin ≡ r.commitment_pin

-- Two well-formed quotes with one signed payload agree in every signed field: content, seconds,
-- price, rewards address, key count and pin. The payload is unambiguous.
pub bytes_for_sig-injective :
    (q r : Quote) → IsQuote q → IsQuote r → bytes_for_sig q ≡ bytes_for_sig r → SameSigned q r
unfolding bytes_for_sig
bytes_for_sig-injective q r hq hr e =
    let (content, e₁) = append_parts 32 _ _ _ _ hq.content.0 hr.content.0 e in
    let (secs, e₂) = append_parts 8 _ _ _ _ (length-to_le_bytes 8 _) (length-to_le_bytes 8 _) e₁ in
    let (price, e₃) =
      append_parts 32 _ _ _ _ (length-reverse q.price ∙ hq.price.0)
        (length-reverse r.price ∙ hr.price.0) e₂ in
    let (rewards, e₄) = append_parts 20 _ _ _ _ hq.rewards_address.0 hr.rewards_address.0 e₃ in
    let (count, pin) =
      append_parts 4 _ _ _ _ (length-to_le_bytes 4 _) (length-to_le_bytes 4 _) e₄ in
    record {
      content = content;
      secs = to_le_bytes-injective 8 _ _ (omega (arith, hq.secs)) (omega (arith, hr.secs)) secs;
      price = reverse-injective _ _ price;
      rewards_address = rewards;
      committed_key_count =
          to_le_bytes-injective 4 _ _ (omega (arith, hq.committed_key_count))
            (omega (arith, hr.committed_key_count)) count;
      commitment_pin = pin_bytes-injective _ _ pin;
    }

-- `verify_quote` accepts exactly the quotes whose key has 1952 bytes and is valid, whose signature
-- has 3309 bytes, and whose signature verifies over `bytes_for_sig` with the empty context.
verify_quote_iff :
    (dsa : Dsa) (q : Quote)
    → (verify_quote dsa q ≡ true) ↔ (
        (length q.pub_key ≡ 1952)
        × (length q.signature ≡ 3309)
        × (dsa.valid_key q.pub_key ≡ true)
        × (dsa.verify q.pub_key (bytes_for_sig q) q.signature [] ≡ true))
unfolding verify_quote
verify_quote_iff dsa q = ground arith
