-- ===== src/Sdp/Examples.antt =====
-- src/sdp.rs at concrete texts.
use ant_wasm_client.Base.{◌≡◌, ◌≢◌, ◌⊎◌, refl, [], ◌∷◌, ◌++◌, Text, ok, err, take, drop}
use ant_wasm_client.Texts.{codes, starts_with, split, without_cr, join}
use ant_wasm_client.Errors.{credentials_replaced}
use ant_wasm_client.Framing.{chunks}
use ant_wasm_client.Texts.Splitting.{Lacks}
use ant_wasm_client.Sdp.{munge_offer, fingerprint_to_colon_form, crlf}
use ant_wasm_client.Sdp.Lines.{lines, count_credentials, Replaced, Pairwise, munge_offer-lines}

munged :
    munge_offer
      (codes "v=0" ++ (crlf ++ (codes "a=ice-pwd:old" ++ (0x0a ∷ codes "a=ice-ufrag:x"))))
      (codes "new")
    ≡ ok (
        codes "v=0"
        ++ (crlf ++ (codes "a=ice-pwd:new" ++ (crlf ++ (codes "a=ice-ufrag:new" ++ crlf)))))
unfolding munge_offer starts_with split without_cr
munged = refl

-- Two lines of one kind are counted like one of each.
two_ufrags :
    munge_offer (codes "a=ice-ufrag:x" ++ (0x0a ∷ codes "a=ice-ufrag:y")) []
    ≡ ok (codes "a=ice-ufrag:" ++ (crlf ++ (codes "a=ice-ufrag:" ++ crlf)))
unfolding munge_offer starts_with split without_cr
two_ufrags = refl

colons : fingerprint_to_colon_form (λ t. t) (codes "a1b2ff") ≡ codes "A1:B2:FF"
unfolding fingerprint_to_colon_form join chunks take drop
colons = refl

abbrev two_lines : Text
two_lines = codes "a=ice-pwd:old" ++ (0x0a ∷ codes "a=ice-ufrag:x")

new-Lacks : Lacks 0x0a (codes "new")
new-Lacks = (refl, (refl, (refl, tt)))

munge_offer-lines_example :
    ((count_credentials (lines two_lines) ≡ 2)
      × ((out : Text) × (munge_offer two_lines (codes "new") ≡ ok out)
          × Pairwise (Replaced (codes "new")) (lines two_lines) (lines out)))
    ⊎ ((count_credentials (lines two_lines) ≢ 2)
        × (munge_offer two_lines (codes "new")
            ≡ err (credentials_replaced (count_credentials (lines two_lines)))))
munge_offer-lines_example = munge_offer-lines (codes "new") new-Lacks two_lines
