-- ===== src/Client/Majority.antt =====
-- src/lib.rs: how many peers have a chunk once `store_one` returns.
use mathlib.Core.List.{Sublist, nil-sublist}
use mathlib.Core.List.Sublist
use ant_wasm_client.Base.{
  ℕ, suc, ◌+◌, ◌≤◌, ◌≡◌, refl, ap, ◌∙◌, Bool, true, false, ◌&&◌, inl, inr, List, [], ◌∷◌, ◌++◌, All,
  length, leb, if◌then◌else◌, Bytes, ok, ok-injective, arith,
}
use ant_wasm_client.Errors.{Error, no_attempt}
use ant_wasm_client.Protocol.{PeerConnectInfo}
use ant_wasm_client.Env.{Env}
use ant_wasm_client.Action.{Action, pure, ◌>>=◌, bind-eq_ok, if-eq_ok}
use ant_wasm_client.Client.{World, Client, connection_for}
use ant_wasm_client.Client.Store.{
  quote_attempts, close_group_majority, QuotedPeer, QuotePhase, already_stored, quote_peer,
  quote_group, put_peer, put_all,
}
use ant_wasm_client.Client.Storing.{Storing, dialed, quote_peer-Storing, put_peer-Storing}
use ant_wasm_client.Client.Held.{SaidStored, TookPut, quote_peer-answered, put_peer-TookPut}

-- Some of a list, in its order, for which a predicate holds.
pub record SomeOf {A : Type 0} (P : A → Type 0) (xs : List A) (base n : ℕ) : Type 0 where
  pub chosen : List A
  pub within : Sublist chosen xs
  pub hold : All P chosen
  pub counted : n ≤ base + length chosen

SomeOf-count :
    {A : Type 0} (P : A → Type 0) (x : A) (xs : List A) (b : Bool) (base n : ℕ)
    → (b ≡ true → P x)
    → SomeOf P xs (if b then suc base else base) n
    → SomeOf P (x ∷ xs) base n
SomeOf-count P x xs true base n p s = record {
  chosen = x ∷ s.chosen;
  within = Sublist.cons-cons x s.within;
  hold = (p refl, s.hold);
  counted = omega (arith, s.counted);
}
SomeOf-count P x xs false base n p s = record {
  chosen = s.chosen;
  within = Sublist.cons x s.within;
  hold = s.hold;
  counted = s.counted;
}

module _ (env : Env) (world : World) (address content : Bytes) where
  pub put_all-SomeOf :
      (proof_bytes : Bytes) (qs : List QuotedPeer) (accepted n : ℕ) (last e : Error)
      (start s : Client)
      → Storing env world address content start s
      → (put_all env world address content proof_bytes qs accepted last s).0 ≡ ok (n, e)
      → SomeOf (TookPut env world address content proof_bytes start) qs accepted n
  unfolding put_all
  put_all-SomeOf proof_bytes [] accepted n last e start s g h =
      let same : accepted ≡ n = ap (λ r. r.0) (ok-injective (accepted, last) (n, e) h) in
      record { chosen = []; within = nil-sublist []; hold = tt; counted = omega (arith, same) }
  put_all-SomeOf proof_bytes (q ∷ qs) accepted n last e start s g h =
      let put = put_peer env world address content proof_bytes q quote_attempts last in
      let ((took, last'), got, h₁) = bind-eq_ok put _ s h in
      let g₁ =
        put_peer-Storing env world address content proof_bytes q quote_attempts last start s g in
      SomeOf-count (TookPut env world address content proof_bytes start) q qs took accepted n
        (λ is_true.
          put_peer-TookPut env world address content proof_bytes q quote_attempts last last' start s
            g (got ∙ ap (λ b. ok (b, last')) is_true))
        (put_all-SomeOf proof_bytes qs _ n last' e start (put s).1 g₁ h₁)

  abbrev pub IsStored : Client → PeerConnectInfo → Type 0
  IsStored start = SaidStored env world address content start

  pub quote_group-SomeOf :
      (peers : List PeerConnectInfo) (count : ℕ) (quoted : List QuotedPeer) (start s : Client)
      → Storing env world address content start s
      → (quote_group env world address content peers count quoted s).0 ≡ ok already_stored
      → SomeOf (IsStored start) peers count close_group_majority
  unfolding quote_group
  quote_group-SomeOf [] count quoted start s g h = cc
  quote_group-SomeOf (peer ∷ peers) count quoted start s g h =
      let ask = quote_peer env world address content quote_attempts peer no_attempt in
      let (answer, got, h₁) = bind-eq_ok ask _ s h in
      let (now, since, answered) =
        quote_peer-answered env world address content quote_attempts peer no_attempt start s answer
          g got in
      let g₁ =
        quote_peer-Storing env world address content quote_attempts peer no_attempt start s g in
      let count' = if answer.1.0 then suc count else count in
      let entry : ℕ → QuotedPeer = λ id. record {
        peer_id = peer.peer_id;
        conn = id;
        quote = answer.0;
        commitment = answer.1.1;
      } in
      let rest : ℕ → Action Client QuotePhase =
        λ id. quote_group env world address content peers count' (quoted ++ (entry id ∷ [])) in
      SomeOf-count (IsStored start) peer peers answer.1.0 count close_group_majority
        (λ is_true. record {
          now = now;
          since = since;
          quote = answer.0;
          commitment = answer.1.1;
          answered = answered ∙ ap (λ b. ok (answer.0, (b, answer.1.1))) is_true;
        })
        (elim (if-eq_ok (answer.1.0 && leb close_group_majority count') (pure already_stored)
          (connection_for env world peer >>= rest) (ask s).1 h₁) [
            | inl (enough, _) ↦ record {
              chosen = [];
              within = nil-sublist peers;
              hold = tt;
              counted = ground (arith, enough);
            }
            | inr (_, h₂) ↦
                let (id, _, h₃) = bind-eq_ok (connection_for env world peer) rest (ask s).1 h₂ in
                quote_group-SomeOf peers count' (quoted ++ (entry id ∷ [])) start _ (dialed peer g₁)
                  h₃
          ])
