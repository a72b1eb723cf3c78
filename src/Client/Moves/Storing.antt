-- ===== src/Client/Moves/Storing.antt =====
-- src/lib.rs: how `store_one` and `upload` move the client.
use ant_wasm_client.Base.{List, [], ◌∷◌, Bytes, Text}
use ant_wasm_client.Errors.{no_error}
use ant_wasm_client.Env.{Env}
use ant_wasm_client.Action.Moves.{IsPreorder, Moves, Moves-lift, Moves-gets, Moves-pure, Moves-bind}
use ant_wasm_client.Conn.Identity.{closest_peers-Advances}
use ant_wasm_client.Evm.Calldata.{DataPayment}
use ant_wasm_client.Client.{World, Client}
use ant_wasm_client.Client.Store.{
  QuotePhase, already_stored, all_quoted, pay_all, pay_and_put, store_one,
}
use ant_wasm_client.Client.Upload.{Encryption, store_all, upload}
use ant_wasm_client.Client.Moves.{quote_group-Moves, put_all-Moves}
use ant_wasm_client.Client.Moves.Calls.{AllowsCalls}

module _ (env : Env) (world : World) (R : Client → Client → Type 0)
    (allows : AllowsCalls env world R) where
  abbrev order : IsPreorder R
  order = allows.steps.order

  module _ (token vault : Bytes) where
    pub pay_all-Moves :
        (address content : Bytes) (payments : List DataPayment)
        → Moves R (pay_all env world address content token vault payments)
    unfolding pay_all
    pay_all-Moves address content payments =
        Moves-bind R order _ _ (allows.pay _ _)
          λ _. Moves-bind R order _ _ (allows.pay _ _) λ tx_hex. Moves-lift R order _

    pay_and_put-Moves :
        (address content : Bytes) (phase : QuotePhase)
        → Moves R (pay_and_put env world address content token vault phase)
    unfolding pay_and_put
    pay_and_put-Moves address content already_stored = Moves-pure R order tt
    pay_and_put-Moves address content (all_quoted quoted) =
        Moves-bind R order _ _ (Moves-lift R order _) λ payments.
          Moves-bind R order _ _ (pay_all-Moves address content payments) λ tx_hash.
            Moves-bind R order _ _ (Moves-lift R order _) λ proof_bytes.
              Moves-bind R order _ _
                (put_all-Moves env world R allows.steps address content proof_bytes quoted 0
                  no_error)
                λ r. Moves-lift R order _

    pub store_one-Moves :
        (address content : Bytes) → Moves R (store_one env world address content token vault)
    unfolding store_one
    store_one-Moves address content = Moves-bind R order _ _ (Moves-gets R order _) λ id.
        Moves-bind R order _ _ (allows.steps.ask id _ (closest_peers-Advances env address)) λ peers.
          Moves-bind R order _ _ (Moves-lift R order _) λ _.
            Moves-bind R order _ _
              (quote_group-Moves env world R allows.steps address content _ 0 [])
              λ phase. pay_and_put-Moves address content phase

    store_all-Moves :
        (items : List (Bytes × Bytes)) → Moves R (store_all env world token vault items)
    unfolding store_all
    store_all-Moves [] = Moves-pure R order tt
    store_all-Moves ((address, content) ∷ items) =
        Moves-bind R order _ _ (store_one-Moves address content) λ _. store_all-Moves items

  pub upload-Moves :
      {DataMap : Type 0} (encryption : Encryption DataMap) (content : Bytes) (token vault : Text)
      → Moves R (upload env world encryption content token vault)
  unfolding upload
  upload-Moves encryption content token vault = Moves-bind R order _ _ (Moves-lift R order _) λ t.
      Moves-bind R order _ _ (Moves-lift R order _) λ v.
        Moves-bind R order _ _ (Moves-lift R order _) λ encrypted.
          Moves-bind R order _ _ (Moves-lift R order _) λ shrunk.
            Moves-bind R order _ _ (Moves-lift R order _)
              λ map_bytes. Moves-bind R order _ _ (store_all-Moves t v _) λ _. Moves-pure R order _
