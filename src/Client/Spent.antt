-- ===== src/Client/Spent.antt =====
-- src/lib.rs: what `upload` makes the page pay.
use ant_wasm_client.Base.{
  ◌+◌, ◌*◌, ◌≤◌, ◌≡◌, refl, sym, ap, subst, ◌⊎◌, inl, inr, List, [], ◌∷◌, length, length-append,
  Bytes, Text, ok, map_err-eq_ok, arith,
}
use ant_wasm_client.Env.{Env}
use ant_wasm_client.Action.{Action, lift, ◌>>=◌, bind-cases}
use ant_wasm_client.Action.Keeps.{Keeps-pure}
use ant_wasm_client.Errors.{Fallible, self_encryption_failed, shrink_failed, map_serialize_failed}
use ant_wasm_client.Client.{World, Client}
use ant_wasm_client.Client.Parse.{parse_eth_address}
use ant_wasm_client.Client.Store.{store_one}
use ant_wasm_client.Client.Upload.{Encryption, store_all, all_items, upload}
use ant_wasm_client.Client.Moves.Storing.{store_one-Moves}
use ant_wasm_client.Client.Authentic.{Grows, Grows-stay, Grows-next}
use ant_wasm_client.Client.Authentic.Dials.{Grows-AllowsCalls}
use ant_wasm_client.Client.Paid.{paid_of}
use ant_wasm_client.Client.Billing.{Billed, store_one-Billed, bind-paid}

-- The calls of `pay`, with their arguments.
abbrev pub Paid : Type 0
Paid = List (Text × Text)

-- What holds of the calls before a block, and of those after the rest of it, holds after the block.
after-lift :
    {A B : Type 0} (r : Fallible A) (f : A → Action Client B) (s : Client) (Q : Paid → Type 0)
    → Q s.paid
    → ((a : A) → r ≡ ok a → Q (f a s).1.paid)
    → Q ((lift r >>= f) s).1.paid
after-lift r f s Q q rest = elim (bind-cases (lift r) f s) [
  | inl e ↦ subst Q (sym (ap paid_of e)) q
  | inr (a, got, e) ↦ subst Q (sym (ap (λ r. r.1.paid) e)) (rest a got)
]

module _ (env : Env) (world : World) where
  -- The calls of `pay` before and after storing some items in order, from some state on: an item is
  -- free or billed, and the items may be left at any point.
  pub data Spends (token vault : Bytes) (start : Client)
      : List (Bytes × Bytes) → Paid → Paid → Type 0 where
    over : (items : List (Bytes × Bytes)) (paid : Paid) → Spends token vault start items paid paid
    free :
        {items : List (Bytes × Bytes)} {before after : Paid} (item : Bytes × Bytes)
        → Spends token vault start items before after
        → Spends token vault start (item ∷ items) before after
    billed :
        {items : List (Bytes × Bytes)} {between after : Paid} (item : Bytes × Bytes) (now : Client)
        → Grows env world start now
        → Billed env world item.0 token vault now between
        → Spends token vault start items between after
        → Spends token vault start (item ∷ items) now.paid after

  store_one-Spends :
      (address content token vault : Bytes) (items : List (Bytes × Bytes)) (start s : Client)
      (after : Paid)
      → Grows env world start s
      → Spends token vault start items
          (store_one env world address content token vault s).1.paid
          after
      → Spends token vault start ((address, content) ∷ items) s.paid after
  store_one-Spends address content token vault items start s after g rest =
      elim (store_one-Billed env world address content token vault s) [
        | inl same ↦
            free (address, content) (subst (λ b. Spends token vault start items b after) same rest)
        | inr b ↦ billed (address, content) s g b rest
      ]

  store_all-Spends :
      (token vault : Bytes) (items : List (Bytes × Bytes)) (start s : Client)
      → Grows env world start s
      → Spends token vault start items s.paid (store_all env world token vault items s).1.paid
  unfolding store_all
  store_all-Spends token vault [] start s g = over [] s.paid
  store_all-Spends token vault ((address, content) ∷ items) start s g =
      let store = store_one env world address content token vault in
      let stored : Paid → Type 0 = Spends token vault start ((address, content) ∷ items) s.paid in
      let more =
        (store_one-Moves env world (Grows env world) (Grows-AllowsCalls env world) token vault
            address content).at
          s in
      elim (bind-cases store (λ _. store_all env world token vault items) s) [
        | inl e ↦ subst stored (ap (λ s. s.paid) (sym e)) (
            store_one-Spends address content token vault items start s (store s).1.paid g
              (over items (store s).1.paid))
        | inr (_, _, e) ↦ subst stored (ap (λ r. r.1.paid) (sym e)) (
            store_one-Spends address content token vault items start s _ g (
              store_all-Spends token vault items start (store s).1
                (Grows-next env world start s (store s).1 g more)))
      ]

  Billed-length :
      (address token vault : Bytes) (s : Client) (after : Paid)
      → Billed env world address token vault s after
      → length after ≤ length s.paid + 2
  Billed-length address token vault s after b = elim b.calls [
    | inl e ↦ omega (arith, ap length e, length-append s.paid (_ ∷ []))
    | inr e ↦ omega (arith, ap length e, length-append s.paid (_ ∷ _ ∷ []))
  ]

  Spends-length :
      (token vault : Bytes) (start : Client) (items : List (Bytes × Bytes)) (before after : Paid)
      → Spends token vault start items before after
      → length after ≤ length before + 2 * length items
  Spends-length token vault start items _ _ (over _ paid) = omega arith
  Spends-length token vault start _ before after (free {items = items} item s) =
      omega (arith, Spends-length token vault start items before after s)
  Spends-length token vault start _ _ after
        (billed {items = items} {between = between} item now g b s) =
      omega (
        arith,
        Spends-length token vault start items between after s,
        Billed-length item.0 token vault now between b,
      )

  module _ {DataMap : Type 0} (encryption : Encryption DataMap) where
    -- An upload that came to storing: its items, and what was paid for them.
    pub record UploadSpends (content : Bytes) (token_hex vault_hex : Text) (s : Client)
        (after : Paid) : Type 0 where
      pub token : Bytes
      pub vault : Bytes
      pub token_parsed : parse_eth_address world.hex_decode token_hex ≡ ok token
      pub vault_parsed : parse_eth_address world.hex_decode vault_hex ≡ ok vault
      pub data_map : DataMap
      pub shrunk : DataMap
      pub chunks : List Bytes
      pub wrappers : List (Bytes × Bytes)
      pub map_bytes : Bytes
      pub encrypted : encryption.encrypt content ≡ ok (data_map, chunks)
      pub shrink : encryption.shrink_data_map data_map ≡ ok (shrunk, wrappers)
      pub serialized : encryption.to_vec shrunk ≡ ok map_bytes
      pub spends : Spends token vault s (all_items env world chunks wrappers map_bytes) s.paid after
      pub at_most :
          length after ≤ length s.paid + 2 * length (all_items env world chunks wrappers map_bytes)

    -- Whatever the nodes and the page answer, and whether `upload` returns or fails, it pays for
    -- nothing but its items: `pay` is not called, or the two addresses were parsed, and each item in
    -- turn is free or billed by the split of verified quotes for its own address from the first seven
    -- peers named for it, with at most two calls for each item, the token's approval and the vault's
    -- payment.
    pub upload-Spends :
        (content : Bytes) (token_hex vault_hex : Text) (s : Client)
        → let after = (upload env world encryption content token_hex vault_hex s).1.paid in
          (after ≡ s.paid) ⊎ UploadSpends content token_hex vault_hex s after
    unfolding upload
    upload-Spends content token_hex vault_hex s =
        let Q : Paid → Type 0 =
          λ after. (after ≡ s.paid) ⊎ UploadSpends content token_hex vault_hex s after in
        after-lift _ _ s Q (inl refl) λ token token_parsed.
          after-lift _ _ s Q (inl refl) λ vault vault_parsed.
            after-lift _ _ s Q (inl refl) λ encrypted encrypt.
              after-lift _ _ s Q (inl refl) λ shrunk shrink.
                after-lift _ _ s Q (inl refl) λ map_bytes serialize.
                  let items = all_items env world encrypted.1 shrunk.1 map_bytes in
                  let spends = store_all-Spends token vault items s s (Grows-stay env world s) in
                  subst Q
                    (sym (
                      bind-paid (store_all env world token vault items) _ s
                        λ _. Keeps-pure paid_of _))
                    (inr (record {
                      token = token;
                      vault = vault;
                      token_parsed = token_parsed;
                      vault_parsed = vault_parsed;
                      data_map = encrypted.0;
                      shrunk = shrunk.0;
                      chunks = encrypted.1;
                      wrappers = shrunk.1;
                      map_bytes = map_bytes;
                      encrypted = map_err-eq_ok self_encryption_failed _ encrypt;
                      shrink = map_err-eq_ok shrink_failed _ shrink;
                      serialized = map_err-eq_ok map_serialize_failed _ serialize;
                      spends = spends;
                      at_most = Spends-length token vault s items s.paid _ spends;
                    }))
