-- ===== src/Client/Retried.antt =====
-- src/lib.rs: the attempts of `store_one` at one peer's quote.
use ant_wasm_client.Base.{
  ℕ, zero, suc, ◌≡◌, refl, ◌∙◌, inl, inr, ◌⊎◌, List, ◌∷◌, none, Result-cases, length, Bytes, ok,
  err,
}
use ant_wasm_client.Assoc.{lookup, lookup-remove}
use ant_wasm_client.Errors.{Error, Fallible, no_attempt, no_valid_quote}
use ant_wasm_client.Protocol.{PeerConnectInfo}
use ant_wasm_client.Env.{Env}
use ant_wasm_client.Action.{pure, ◌>>=◌, bind-of_ok, bind-of_err}
use ant_wasm_client.Client.{World, Client, drop_connection}
use ant_wasm_client.Client.Fallback.{match_result-of_ok, match_result-of_err}
use ant_wasm_client.Client.Quotes.{Quoted, try_quote}
use ant_wasm_client.Client.Store.{QuotedPeer, quote_attempts, before_retry, quote_peer, quote_group}

module _ (env : Env) (world : World) (address content : Bytes) (peer : PeerConnectInfo) where
  abbrev attempt : Client → Fallible Quoted × Client
  attempt s = try_quote env world peer address (length content) s

  -- The client after a failed attempt, with some attempts left.
  abbrev retried : ℕ → Client → Client
  retried left s = (before_retry env world address content left peer (attempt s).1).1

  -- A next attempt starts without a pooled connection to the peer.
  abbrev pub IsFresh : ℕ → Client → Type 0
  IsFresh zero s = Unit
  IsFresh (suc left) s = lookup peer.peer_id s.pool ≡ none

  before_retry-IsFresh :
      (left : ℕ) (s : Client) → IsFresh left (before_retry env world address content left peer s).1
  unfolding before_retry drop_connection
  before_retry-IsFresh zero s = tt
  before_retry-IsFresh (suc left) s = lookup-remove peer.peer_id s.pool

  -- Attempts that fail one after another: how many were left before and after them, and the last
  -- error and the client before and after them.
  pub data FailedAttempts : ℕ → ℕ → Error → Client → Error → Client → Type 0 where
    no_failure : (left : ℕ) (e : Error) (s : Client) → FailedAttempts left left e s e s
    one_failure :
        (left left' : ℕ) (last e e' : Error) (s s' : Client)
        → (attempt s).0 ≡ err e
        → IsFresh left (retried left s)
        → FailedAttempts left left' e (retried left s) e' s'
        → FailedAttempts (suc left) left' last s e' s'

  -- An attempt that returned a quote, after failed ones.
  pub record FirstQuote (left : ℕ) (last : Error) (s : Client) (outcome : Fallible Quoted × Client)
      : Type 0 where
    pub left_then : ℕ
    pub failed_with : Error
    pub reached : Client
    pub failed : FailedAttempts left (suc left_then) last s failed_with reached
    pub quote : Quoted
    pub quoted : (attempt reached).0 ≡ ok quote
    pub returned : outcome ≡ (ok quote, (attempt reached).1)

  -- All attempts failed, and the error has the last of theirs.
  pub record NoQuote {A : Type 0} (left : ℕ) (last : Error) (s : Client)
      (outcome : Fallible A × Client) : Type 0 where
    pub failed_with : Error
    pub reached : Client
    pub failed : FailedAttempts left 0 last s failed_with reached
    pub returned : outcome ≡ (err (no_valid_quote peer.peer_id address failed_with), reached)

  pub before_retry-returns :
      (left : ℕ) (s : Client)
      → before_retry env world address content left peer s
        ≡ (ok tt, (before_retry env world address content left peer s).1)
  unfolding before_retry drop_connection
  before_retry-returns zero s = refl
  before_retry-returns (suc left) s = refl

  quote_peer-cases :
      (left : ℕ) (last : Error) (s : Client)
      → FirstQuote left last s (quote_peer env world address content left peer last s)
        ⊎ NoQuote left last s (quote_peer env world address content left peer last s)
  unfolding quote_peer
  quote_peer-cases zero last s =
      inr
        (record { failed_with = last; reached = s; failed = no_failure 0 last s; returned = refl })
  quote_peer-cases (suc left) last s = elim (Result-cases (attempt s).0) [
    | inl (q, got) ↦ inl (record {
      left_then = left;
      failed_with = last;
      reached = s;
      failed = no_failure (suc left) last s;
      quote = q;
      quoted = got;
      returned = match_result-of_ok _ pure _ s q got;
    })
    | inr (e, got) ↦
        let fresh = before_retry-IsFresh left (attempt s).1 in
        let same =
          match_result-of_err (try_quote env world peer address (length content)) pure
            (λ e.
              before_retry env world address content left peer
              >>= (λ _. quote_peer env world address content left peer e))
            s e got
          ∙ bind-of_ok _ _ (attempt s).1 (retried left s) tt
              (before_retry-returns left (attempt s).1) in
        elim (quote_peer-cases left e (retried left s)) [
          | inl f ↦ inl (record {
            left_then = f.left_then;
            failed_with = f.failed_with;
            reached = f.reached;
            failed =
                one_failure left (suc f.left_then) last e f.failed_with s f.reached got fresh
                  f.failed;
            quote = f.quote;
            quoted = f.quoted;
            returned = same ∙ f.returned;
          })
          | inr n ↦ inr (record {
            failed_with = n.failed_with;
            reached = n.reached;
            failed = one_failure left 0 last e n.failed_with s n.reached got fresh n.failed;
            returned = same ∙ n.returned;
          })
        ]
  ]

  -- A peer has three attempts at a quote: the first that succeeds is returned, and no further one is
  -- made; if all three fail, the last of their errors is the peer's, and the quote phase ends with
  -- it, whatever was quoted before, and asks none of the peers behind this one. After each failure
  -- but the last the pool has no connection to the peer, so that the next attempt opens a new one.
  pub quote_peer-Attempts :
      (s : Client)
      → FirstQuote 3 no_attempt s
          (quote_peer env world address content quote_attempts peer no_attempt s)
        ⊎ (NoQuote 3 no_attempt s
              (quote_peer env world address content quote_attempts peer no_attempt s)
            × ((peers : List PeerConnectInfo) (count : ℕ) (quoted : List QuotedPeer)
                → NoQuote 3 no_attempt s
                    (quote_group env world address content (peer ∷ peers) count quoted s)))
  unfolding quote_group
  quote_peer-Attempts s = elim (quote_peer-cases 3 no_attempt s) [
    | inl f ↦ inl f
    | inr n ↦ inr (
      n,
      λ peers count quoted. record {
        failed_with = n.failed_with;
        reached = n.reached;
        failed = n.failed;
        returned =
            bind-of_err (quote_peer env world address content quote_attempts peer no_attempt) _ s
              n.reached (no_valid_quote peer.peer_id address n.failed_with) n.returned;
      },
    )
  ]
