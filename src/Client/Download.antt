-- ===== src/Client/Download.antt =====
-- src/lib.rs: `download`. A round fetches its chunks concurrently: each `get_direct` is a task whose
-- steps end where the source awaits, and a schedule says which task takes the next step.
use ant_wasm_client.Base.{
  ℕ, zero, suc, Option, none, some, List, [], ◌∷◌, map, if◌then◌else◌, Bytes, Text, ok, err,
}
use ant_wasm_client.Assoc.{lookup}
use ant_wasm_client.Errors.{Error, Fallible, no_error, no_peer_served}
use ant_wasm_client.Protocol.{PeerConnectInfo}
use ant_wasm_client.Env.{Env}
use ant_wasm_client.Action.{Action, pure, lift, gets, ◌>>=◌, match_result}
use ant_wasm_client.Conn.{closest_peers, get_verified}
use ant_wasm_client.Retrieval.{
  SelfEncryption, Retrieval, begin, required_addresses, supply, advance, is_complete, finish,
}
use ant_wasm_client.Client.Parse.{parse_address}
use ant_wasm_client.Client.{
  World, Client, on_connection, pooled_or_new, require_peers, fetch_from_any, get_direct,
}

-- Where a `get_direct` stands: about to ask the bootstrap node, about to look a peer up in the pool,
-- about to open a connection if there was none, about to ask a connection, or done.
pub data Task : Type 0 where
  asking : Task
  trying : List PeerConnectInfo → Error → Task
  opening : PeerConnectInfo → Option ℕ → List PeerConnectInfo → Task
  getting : ℕ → List PeerConnectInfo → Task
  done : Fallible Bytes → Task

-- The counter `chunks_fetched`.
unfoldable pub reset_fetched : Action Client (Unit {0})
reset_fetched s = (ok tt, record s { chunks_fetched = 0 })

unfoldable pub count_fetched : Action Client (Unit {0})
count_fetched s = (ok tt, record s { chunks_fetched = suc s.chunks_fetched })

module _ (env : Env) (world : World) (address : Bytes) where
  unfoldable pub ask : Action Client (List PeerConnectInfo)
  ask = do
    bootstrap ← gets (λ s. s.bootstrap)
    discovered ← on_connection bootstrap (closest_peers env address)
    lift (require_peers env world discovered)

  -- One step of a task.
  unfoldable pub step_task : Task → Action Client Task
  unfolding ask
  step_task asking =
      match_result ask (λ peers. pure (trying peers no_error)) (λ e. pure (done (err e)))
  step_task (trying [] last_err) = pure (done (err (no_peer_served address last_err)))
  step_task (trying (peer ∷ peers) last_err) = do
    pooled ← gets (λ s. lookup peer.peer_id s.pool)
    pure (opening peer pooled peers)
  step_task (opening peer pooled peers) =
      match_result (pooled_or_new env world peer pooled) (λ id. pure (getting id peers))
        (λ e. pure (trying peers e))
  step_task (getting id peers) =
      match_result (on_connection id (get_verified env address))
        (λ content. pure (done (ok content))) (λ e. pure (trying peers e))
  step_task (done result) = pure (done result)

  unfoldable pub get_then : ℕ → List PeerConnectInfo → Action Client Bytes
  get_then id peers =
      match_result (on_connection id (get_verified env address)) pure
        (λ e. fetch_from_any env world address peers e)

  -- What is left of a task, without a break.
  unfoldable pub complete : Task → Action Client Bytes
  unfolding get_then
  complete asking = get_direct env world address
  complete (trying peers last_err) = fetch_from_any env world address peers last_err
  complete (opening peer pooled peers) =
      match_result (pooled_or_new env world peer pooled) (λ id. get_then id peers)
        (λ e. fetch_from_any env world address peers e)
  complete (getting id peers) = get_then id peers
  complete (done result) = lift result

  -- A task that is completed has a result, which may be an error.
  unfoldable pub result_of : Task → Action Client (Fallible Bytes)
  unfolding complete
  result_of task = match_result (complete task) (λ content. pure (ok content)) (λ e. pure (err e))

module _ (env : Env) (world : World) where
  -- The task at an index takes a step.
  unfoldable pub step_at : ℕ → List (Bytes × Task) → Action Client (List (Bytes × Task))
  unfolding step_task
  step_at i [] = pure []
  step_at zero ((address, task) ∷ tasks) = do
    next ← step_task env world address task
    pure ((address, next) ∷ tasks)
  step_at (suc i) (task ∷ tasks) = do rest ← step_at i tasks; pure (task ∷ rest)

  unfoldable pub run_schedule : List ℕ → List (Bytes × Task) → Action Client (List (Bytes × Task))
  unfolding step_at
  run_schedule [] tasks = pure tasks
  run_schedule (i ∷ schedule) tasks = do tasks' ← step_at i tasks; run_schedule schedule tasks'

  unfoldable pub results_of : List (Bytes × Task) → Action Client (List (Bytes × Fallible Bytes))
  unfolding result_of
  results_of [] = pure []
  results_of ((address, task) ∷ tasks) = do
    result ← result_of env world address task
    results ← results_of tasks
    pure ((address, result) ∷ results)

  -- `join_all`: any interleaving of steps, then what is left of each task.
  unfoldable pub fetch_round : List ℕ → List Bytes → Action Client (List (Bytes × Fallible Bytes))
  unfolding run_schedule results_of
  fetch_round schedule addresses = do
    tasks ← run_schedule schedule (map (λ a. (a, asking)) addresses)
    results_of tasks

  module _ {DataMap : Type 0} (se : SelfEncryption DataMap) (schedules : ℕ → List ℕ) where
    -- The `for` over the fetched chunks, up to the first that failed.
    unfoldable pub supply_all :
        List (Bytes × Fallible Bytes) → Retrieval DataMap → Action Client (Retrieval DataMap)
    supply_all [] r = pure r
    supply_all ((address, err e) ∷ fetched) r = lift (err e)
    supply_all ((address, ok bytes) ∷ fetched) r = do
      r' ← lift (supply se address bytes r)
      _ ← count_fetched
      supply_all fetched r'

    -- The `while` of `download` for some rounds, with the schedule of each; `none` is what is left
    -- when the rounds are used up.
    unfoldable pub download_rounds : ℕ → Retrieval DataMap → Action Client (Option Bytes)
    unfolding fetch_round supply_all
    download_rounds zero r =
        if is_complete se r then (do bytes ← lift (finish se r); pure (some bytes)) else pure none
    download_rounds (suc rounds) r =
        if is_complete se r then (do bytes ← lift (finish se r); pure (some bytes)) else (do
          fetched ← fetch_round (schedules rounds) (required_addresses se r)
          r' ← supply_all fetched r
          r'' ← lift (advance se r')
          download_rounds rounds r'')

    -- Two rounds: one for the map at the address, one for the root map behind it.
    unfoldable pub download : Text → Action Client (Option Bytes)
    unfolding download_rounds
    download address_hex = do
      address ← lift (parse_address world.hex_decode address_hex)
      _ ← reset_fetched
      map_bytes ← get_direct env world address
      _ ← count_fetched
      retrieval ← lift (begin se address map_bytes)
      download_rounds 2 retrieval
