-- ===== src/Client/Fallback.antt =====
-- src/lib.rs: the peers that `get_direct` tries.
use ant_wasm_client.Base.{
  ◌≡◌, refl, sym, ap, subst, ◌∙◌, ◌⊎◌, inl, inr, List, [], ◌∷◌, ◌++◌, Bytes, Result-cases, ok, err,
}
use ant_wasm_client.Errors.{Error, Fallible, no_error, no_peers, no_peer_served}
use ant_wasm_client.Protocol.{PeerConnectInfo}
use ant_wasm_client.Env.{Env}
use ant_wasm_client.Action.{
  Action, pure, choose, match_result, bind-of_ok, bind-of_err, lift, ◌>>=◌,
}
use ant_wasm_client.Conn.{closest_peers}
use ant_wasm_client.Client.{
  World, Client, on_connection, fetch_from, fetch_from_any, require_peers, get_direct,
}

pub match_result-of_ok :
    {A B : Type 0} (m : Action Client A) (f : A → Action Client B) (g : Error → Action Client B)
    (s : Client) (a : A)
    → (m s).0 ≡ ok a
    → match_result m f g s ≡ f a (m s).1
unfolding match_result
match_result-of_ok m f g s a h = ap (λ r. choose r f g (m s).1) h

pub match_result-of_err :
    {A B : Type 0} (m : Action Client A) (f : A → Action Client B) (g : Error → Action Client B)
    (s : Client) (e : Error)
    → (m s).0 ≡ err e
    → match_result m f g s ≡ g e (m s).1
unfolding match_result
match_result-of_err m f g s e h = ap (λ r. choose r f g (m s).1) h

module _ (env : Env) (world : World) (address : Bytes) where
  -- Peers that fail one after another, from a last error and a state to another.
  pub data Fails : List PeerConnectInfo → Error → Client → Error → Client → Type 0 where
    no_peer : (e : Error) (s : Client) → Fails [] e s e s
    one_fails :
        (peer : PeerConnectInfo) (peers : List PeerConnectInfo) (last e e' : Error) (s s' : Client)
        → (fetch_from env world address peer s).0 ≡ err e
        → Fails peers e (fetch_from env world address peer s).1 e' s'
        → Fails (peer ∷ peers) last s e' s'

  -- The first peer that served the chunk: those before it failed, and those behind it are not asked.
  pub record FirstServed (peers : List PeerConnectInfo) (last : Error) (s : Client)
      (outcome : Fallible Bytes × Client) : Type 0 where
    pub before : List PeerConnectInfo
    pub after : List PeerConnectInfo
    pub peer : PeerConnectInfo
    pub split : peers ≡ before ++ (peer ∷ after)
    pub failed_with : Error
    pub reached : Client
    pub failed : Fails before last s failed_with reached
    pub content : Bytes
    pub served : (fetch_from env world address peer reached).0 ≡ ok content
    pub returned : outcome ≡ (ok content, (fetch_from env world address peer reached).1)

  -- All peers failed, and the last of their errors is in the client's.
  pub record NoneServed (peers : List PeerConnectInfo) (last : Error) (s : Client)
      (outcome : Fallible Bytes × Client) : Type 0 where
    pub failed_with : Error
    pub reached : Client
    pub failed : Fails peers last s failed_with reached
    pub returned : outcome ≡ (err (no_peer_served address failed_with), reached)

  fetch_from_any-cases :
      (peers : List PeerConnectInfo) (last : Error) (s : Client)
      → FirstServed peers last s (fetch_from_any env world address peers last s)
        ⊎ NoneServed peers last s (fetch_from_any env world address peers last s)
  unfolding fetch_from_any
  fetch_from_any-cases [] last s =
      inr (record { failed_with = last; reached = s; failed = no_peer last s; returned = refl })
  fetch_from_any-cases (peer ∷ peers) last s =
      let ask = fetch_from env world address peer in
      let rest = λ (e : Error). fetch_from_any env world address peers e in
      elim (Result-cases (ask s).0) [
        | inl (content, got) ↦ inl (record {
          before = [];
          after = peers;
          peer = peer;
          split = refl;
          failed_with = last;
          reached = s;
          failed = no_peer last s;
          content = content;
          served = got;
          returned = match_result-of_ok ask pure rest s content got;
        })
        | inr (e, got) ↦
            let same = match_result-of_err ask pure rest s e got in
            elim (fetch_from_any-cases peers e (ask s).1) [
              | inl f ↦ inl (record {
                before = peer ∷ f.before;
                after = f.after;
                peer = f.peer;
                split = ap (λ ps. peer ∷ ps) f.split;
                failed_with = f.failed_with;
                reached = f.reached;
                failed = one_fails peer f.before last e f.failed_with s f.reached got f.failed;
                content = f.content;
                served = f.served;
                returned = same ∙ f.returned;
              })
              | inr n ↦ inr (record {
                failed_with = n.failed_with;
                reached = n.reached;
                failed = one_fails peer peers last e n.failed_with s n.reached got n.failed;
                returned = same ∙ n.returned;
              })
            ]
      ]

  -- What the bootstrap node answers, and the client then.
  abbrev pub discovery : Client → Fallible (List PeerConnectInfo) × Client
  discovery s = on_connection s.bootstrap (closest_peers env address) s

  -- `get_direct` behind its discovery.
  fetch_discovered : List PeerConnectInfo → Action Client Bytes
  fetch_discovered discovered =
      lift (require_peers env world discovered)
      >>= (λ peers. fetch_from_any env world address peers no_error)

  get_direct-found :
      (s : Client) (discovered : List PeerConnectInfo)
      → (discovery s).0 ≡ ok discovered
      → get_direct env world address s ≡ fetch_discovered discovered (discovery s).1
  unfolding get_direct fetch_discovered
  get_direct-found s discovered h =
      bind-of_ok _ _ s s s.bootstrap refl
      ∙ bind-of_ok _ _ s (discovery s).1 discovered (ap (λ r. (r, (discovery s).1)) h)

  get_direct-lost :
      (s : Client) (e : Error)
      → (discovery s).0 ≡ err e
      → get_direct env world address s ≡ (err e, (discovery s).1)
  unfolding get_direct
  get_direct-lost s e h =
      bind-of_ok _ _ s s s.bootstrap refl
      ∙ bind-of_err _ _ s (discovery s).1 e (ap (λ r. (r, (discovery s).1)) h)

  -- What `get_direct` did, by what was discovered.
  abbrev pub Fetched : Fallible (List PeerConnectInfo) × Client → Fallible Bytes × Client → Type 0
  Fetched (err e, s') outcome = outcome ≡ (err e, s')
  Fetched (ok [], s') outcome = outcome ≡ (err no_peers, s')
  Fetched (ok (peer ∷ peers), s') outcome =
      FirstServed (peer ∷ peers) no_error s' outcome ⊎ NoneServed (peer ∷ peers) no_error s' outcome

  Fetched-discovery :
      (s : Client) (r : Fallible (List PeerConnectInfo) × Client)
      → discovery s ≡ r
      → Fetched r (get_direct env world address s)
  unfolding fetch_discovered require_peers ◌>>=◌
  Fetched-discovery s (err e, s') h =
      get_direct-lost s e (ap (λ r. r.0) h) ∙ ap (λ r. (err e, r.1)) h
  Fetched-discovery s (ok [], s') h =
      get_direct-found s [] (ap (λ r. r.0) h) ∙ ap (λ r. fetch_discovered [] r.1) h
  Fetched-discovery s (ok (peer ∷ peers), s') h =
      subst
        (λ o. FirstServed (peer ∷ peers) no_error s' o ⊎ NoneServed (peer ∷ peers) no_error s' o)
        (sym (
          get_direct-found s (peer ∷ peers) (ap (λ r. r.0) h)
          ∙ ap (λ r. fetch_discovered (peer ∷ peers) r.1) h))
        (fetch_from_any-cases (peer ∷ peers) no_error s')

  -- `get_direct` fails as its discovery does, or because no peer was discovered; otherwise it asks
  -- the peers in their order and returns what the first that serves the chunk gave, without asking
  -- those behind it, or, if all fail one after another, an error with the last of their errors.
  pub get_direct-Fetched : (s : Client) → Fetched (discovery s) (get_direct env world address s)
  get_direct-Fetched s = Fetched-discovery s (discovery s) refl
