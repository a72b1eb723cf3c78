-- ===== src/Client/Stored.antt =====
-- src/lib.rs: what `store_one` has done once it returns.
use ant_wasm_client.Base.{
  ℕ, true, ap, All, ◌≤◌, ◌≡◌, sym, subst, ◌⊎◌, inl, inr, List, [], map, length, take, leb, Bytes,
  ok, ok-injective, ensure-eq-ok, arith,
}
use ant_wasm_client.Errors.{no_error, accepted_by_too_few, too_few_peers}
use ant_wasm_client.Protocol.{PeerConnectInfo}
use ant_wasm_client.Env.{Env}
use ant_wasm_client.Action.{bind-eq_ok, gets}
use ant_wasm_client.Conn.{closest_peers}
use ant_wasm_client.Evm.Split.{close_group_size}
use ant_wasm_client.Client.{World, Client, on_connection}
use ant_wasm_client.Client.Store.{
  close_group_majority, QuotedPeer, QuotePhase, already_stored, all_quoted, quote_group, pay_all,
  pay_and_put, put_all, store_one,
}
use ant_wasm_client.Client.Group.{quote_group_lem}
use ant_wasm_client.Client.Storing.{Storing, begun, discovered, paid, quote_group-Storing}
use ant_wasm_client.Client.Held.{TookPut}
use ant_wasm_client.Client.Assigned.{IsAssigned, quote_group-IsAssigned}
use ant_wasm_client.Client.Majority.{SomeOf, IsStored, quote_group-SomeOf, put_all-SomeOf}

SomeOf-majority :
    {A : Type 0} (P : A → Type 0) (xs : List A) (n : ℕ)
    → leb close_group_majority n ≡ true
    → SomeOf P xs 0 n
    → SomeOf P xs 0 4
SomeOf-majority P xs n h s = record {
  chosen = s.chosen;
  within = s.within;
  hold = s.hold;
  counted = ground (arith, h, s.counted);
}

large_enough : (n : ℕ) → leb close_group_size n ≡ true → close_group_size ≤ n
large_enough n h = ground (arith, h)

module _ (env : Env) (world : World) (address content : Bytes) where
  -- The peers that a proof of payment was put to, which are the first seven, each over the connection
  -- that `connection_for` gave for it in the quote phase, and four that took it after that phase.
  pub record PutToMajority (start : Client) (peers : List PeerConnectInfo) : Type 0 where
    pub asked : Client
    pub since : Storing env world address content start asked
    pub proof_bytes : Bytes
    pub quoted : List QuotedPeer
    pub identities : map (λ q. q.peer_id) quoted ≡ map (λ p. p.peer_id) (take 7 peers)
    pub assigned : All (IsAssigned env world address content start asked) quoted
    pub took : SomeOf (TookPut env world address content proof_bytes asked) quoted 0 4

  -- Four of the first seven peers have the chunk: they said so in a verified quote, or took it.
  abbrev pub HeldBy : Client → List PeerConnectInfo → Type 0
  HeldBy start peers =
      SomeOf (IsStored env world address content start) (take 7 peers) 0 4
      ⊎ PutToMajority start peers

  pay_and_put-HeldBy :
      (token vault : Bytes) (peers : List PeerConnectInfo) (start s s' : Client)
      (phase : QuotePhase)
      → Storing env world address content start s
      → Storing env world address content start s'
      → quote_group env world address content (take close_group_size peers) 0 [] s ≡ (ok phase, s')
      → (pay_and_put env world address content token vault phase s').0 ≡ ok tt
      → HeldBy start peers
  unfolding pay_and_put
  pay_and_put-HeldBy token vault peers start s s' already_stored g g' got h = inl (
      quote_group-SomeOf env world address content (take close_group_size peers) 0 [] start s g
        (ap (λ r. r.0) got))
  pay_and_put-HeldBy token vault peers start s s' (all_quoted quoted) g g' got h =
      let (payments, _, h₁) = bind-eq_ok _ _ s' h in
      let pay = pay_all env world address content token vault payments in
      let (tx_hash, _, h₂) = bind-eq_ok pay _ s' h₁ in
      let (proof_bytes, _, h₃) = bind-eq_ok _ _ (pay s').1 h₂ in
      let ((accepted, last_err), put_ran, h₄) =
        bind-eq_ok (put_all env world address content proof_bytes quoted 0 no_error) _ (pay s').1
          h₃ in
      let (_, ids) =
        quote_group_lem env world address content (take close_group_size peers) 0 [] quoted s tt
          (ap (λ r. r.0) got) in
      let took =
        put_all-SomeOf env world address content proof_bytes quoted 0 accepted no_error last_err s'
          (pay s').1 (paid token vault payments begun) put_ran in
      let enough : leb close_group_majority accepted ≡ true =
        ensure-eq-ok _ (accepted_by_too_few address accepted last_err) h₄ in
      inr (record {
        asked = s';
        since = g';
        assigned =
            quote_group-IsAssigned env world address content (take close_group_size peers) 0 []
              quoted start s s' g tt got;
        proof_bytes = proof_bytes;
        quoted = quoted;
        identities = ids;
        took = SomeOf-majority _ quoted accepted enough took;
      })

  pub store_one-HeldBy :
      (token vault : Bytes) (s : Client)
      → (store_one env world address content token vault s).0 ≡ ok tt
      → (peers : List PeerConnectInfo) × ((on_connection s.bootstrap
            (closest_peers env address)
            s).0
          ≡ ok peers)
        × (close_group_size ≤ length peers)
        × HeldBy s peers
  unfolding store_one
  store_one-HeldBy token vault s h =
      let (bootstrap, is_b, h₁) = bind-eq_ok (gets (λ s. s.bootstrap)) _ s h in
      let ask = on_connection bootstrap (closest_peers env address) in
      let (peers, found, h₂) = bind-eq_ok ask _ s h₁ in
      let (_, enough, h₃) = bind-eq_ok _ _ (ask s).1 h₂ in
      let group = quote_group env world address content (take close_group_size peers) 0 [] in
      let (phase, got, h₄) = bind-eq_ok group _ (ask s).1 h₃ in
      let g = discovered bootstrap begun in
      let g' =
        quote_group-Storing env world address content (take close_group_size peers) 0 [] s (ask s).1
          g in
      (
        peers,
        subst (λ b. (on_connection b (closest_peers env address) s).0 ≡ ok peers)
            (sym (ok-injective s.bootstrap bootstrap is_b)) found,
        large_enough (length peers) (ensure-eq-ok _ (too_few_peers address (length peers)) enough),
        pay_and_put-HeldBy token vault peers s (ask s).1 (group (ask s).1).1 phase g g'
            (ap (λ r. (r, (group (ask s).1).1)) got) h₄,
      )
