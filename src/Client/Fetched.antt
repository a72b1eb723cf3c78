-- ===== src/Client/Fetched.antt =====
-- src/lib.rs: `get_direct`.
use ant_wasm_client.Base.{
  ℕ, ◌≡◌, inl, inr, List, [], ◌∷◌, Bytes, some, none, Option, get_elem?, ok, ◌∙◌,
}
use ant_wasm_client.Errors.{Error, no_error}
use ant_wasm_client.Protocol.{PeerConnectInfo}
use ant_wasm_client.Env.{Env}
use ant_wasm_client.Action.{Action, pure, bind-eq_ok, match_result-eq_ok}
use ant_wasm_client.Conn.{NodeConnection, get_verified}
use ant_wasm_client.Conn.Verified.{get_verified-hash}
use ant_wasm_client.Client.{
  World, Client, run_on, on_connection, fetch_from, fetch_from_any, get_direct,
}

run_on-eq_ok :
    {A : Type 0} (id : ℕ) (m : Action NodeConnection A) (s : Client) (found : Option NodeConnection)
    (a : A)
    → (run_on id m s found).0 ≡ ok a
    → (c : NodeConnection) × ((m c).0 ≡ ok a)
unfolding run_on
run_on-eq_ok id m s none a h = cc
run_on-eq_ok id m s (some c) a h = (c, h)

-- A method that returned ran on some connection.
pub on_connection-eq_ok :
    {A : Type 0} (id : ℕ) (m : Action NodeConnection A) (s : Client) (a : A)
    → (on_connection id m s).0 ≡ ok a
    → (c : NodeConnection) × ((m c).0 ≡ ok a)
unfolding on_connection
on_connection-eq_ok id m s a h = run_on-eq_ok id m s (get_elem? s.heap id) a h

fetch_from-hash :
    (env : Env) (world : World) (address : Bytes) (peer : PeerConnectInfo) (s : Client)
    (content : Bytes)
    → (fetch_from env world address peer s).0 ≡ ok content
    → env.hashes.blake3 content ≡ address
unfolding fetch_from
fetch_from-hash env world address peer s content h =
    let (id, _, h₁) = bind-eq_ok _ _ s h in
    let (c, got) = on_connection-eq_ok id (get_verified env address) _ content h₁ in
    get_verified-hash env address c content got

fetch_from_any-hash :
    (env : Env) (world : World) (address : Bytes) (peers : List PeerConnectInfo) (last_err : Error)
    (s : Client) (content : Bytes)
    → (fetch_from_any env world address peers last_err s).0 ≡ ok content
    → env.hashes.blake3 content ≡ address
unfolding fetch_from_any
fetch_from_any-hash env world address [] last_err s content h = cc
fetch_from_any-hash env world address (peer ∷ peers) last_err s content h =
    elim (match_result-eq_ok (fetch_from env world address peer) pure
      (λ e. fetch_from_any env world address peers e) s h) [
        | inl (c, got, same) ↦ fetch_from-hash env world address peer s content (got ∙ same)
        | inr (e, got) ↦ fetch_from_any-hash env world address peers e _ content got
      ]

-- Whatever the bootstrap node discovers and the peers serve, `get_direct` returns only bytes whose
-- BLAKE3 hash is the address.
pub get_direct-hash :
    (env : Env) (world : World) (address : Bytes) (s : Client) (content : Bytes)
    → (get_direct env world address s).0 ≡ ok content
    → env.hashes.blake3 content ≡ address
unfolding get_direct
get_direct-hash env world address s content h =
    let (_, _, h₁) = bind-eq_ok _ _ s h in
    let (_, _, h₂) = bind-eq_ok _ _ _ h₁ in
    let (peers, _, h₃) = bind-eq_ok _ _ _ h₂ in
    fetch_from_any-hash env world address peers no_error _ content h₃
