-- ===== src/Client/Moves/Rounds.antt =====
-- src/lib.rs: how a round of `download` moves the client.
use ant_wasm_client.Base.{ℕ, zero, suc, List, [], ◌∷◌, Bytes}
use ant_wasm_client.Protocol.{PeerConnectInfo}
use ant_wasm_client.Env.{Env}
use ant_wasm_client.Action.Moves.{
  IsPreorder, Moves, Moves-lift, Moves-gets, Moves-pure, Moves-bind, Moves-match_result,
}
use ant_wasm_client.Conn.Identity.{get_verified-Advances, closest_peers-Advances}
use ant_wasm_client.Client.{World, Client}
use ant_wasm_client.Client.Download.{
  Task, asking, trying, opening, getting, done, ask, step_task, get_then, complete, result_of,
  step_at, run_schedule, results_of, fetch_round,
}
use ant_wasm_client.Client.Moves.{
  Allows, pooled_or_new-Moves, fetch_from_any-Moves, get_direct-Moves,
}

module _ (env : Env) (world : World) (R : Client → Client → Type 0)
    (steps : Allows env world R) where
  abbrev order : IsPreorder R
  order = steps.order

  module _ (address : Bytes) where
    ask-Moves : Moves R (ask env world address)
    unfolding ask
    ask-Moves = Moves-bind R order _ _ (Moves-gets R order _) λ id.
        Moves-bind R order _ _ (steps.ask id _ (closest_peers-Advances env address))
          λ found. Moves-lift R order _

    step_task-Moves : (task : Task) → Moves R (step_task env world address task)
    unfolding step_task
    step_task-Moves asking =
        Moves-match_result R order _ _ _ ask-Moves (λ peers. Moves-pure R order _)
          λ e. Moves-pure R order _
    step_task-Moves (trying [] last_err) = Moves-pure R order _
    step_task-Moves (trying (peer ∷ peers) last_err) =
        Moves-bind R order _ _ (Moves-gets R order _) λ pooled. Moves-pure R order _
    step_task-Moves (opening peer pooled peers) =
        Moves-match_result R order _ _ _ (pooled_or_new-Moves env world R steps peer pooled)
          (λ id. Moves-pure R order _) λ e. Moves-pure R order _
    step_task-Moves (getting id peers) =
        Moves-match_result R order _ _ _ (steps.ask id _ (get_verified-Advances env address))
          (λ content. Moves-pure R order _) λ e. Moves-pure R order _
    step_task-Moves (done result) = Moves-pure R order _

    get_then-Moves :
        (id : ℕ) (peers : List PeerConnectInfo) → Moves R (get_then env world address id peers)
    unfolding get_then
    get_then-Moves id peers =
        Moves-match_result R order _ _ _ (steps.ask id _ (get_verified-Advances env address))
          (λ content. Moves-pure R order _)
          λ e. fetch_from_any-Moves env world R steps address peers e

    complete-Moves : (task : Task) → Moves R (complete env world address task)
    unfolding complete
    complete-Moves asking = get_direct-Moves env world R steps address
    complete-Moves (trying peers last_err) =
        fetch_from_any-Moves env world R steps address peers last_err
    complete-Moves (opening peer pooled peers) =
        Moves-match_result R order _ _ _ (pooled_or_new-Moves env world R steps peer pooled)
          (λ id. get_then-Moves id peers)
          λ e. fetch_from_any-Moves env world R steps address peers e
    complete-Moves (getting id peers) = get_then-Moves id peers
    complete-Moves (done result) = Moves-lift R order result

    result_of-Moves : (task : Task) → Moves R (result_of env world address task)
    unfolding result_of
    result_of-Moves task =
        Moves-match_result R order _ _ _ (complete-Moves task) (λ content. Moves-pure R order _)
          λ e. Moves-pure R order _

  step_at-Moves : (i : ℕ) (tasks : List (Bytes × Task)) → Moves R (step_at env world i tasks)
  unfolding step_at
  step_at-Moves i [] = Moves-pure R order _
  step_at-Moves zero ((address, task) ∷ tasks) =
      Moves-bind R order _ _ (step_task-Moves address task) λ next. Moves-pure R order _
  step_at-Moves (suc i) (task ∷ tasks) =
      Moves-bind R order _ _ (step_at-Moves i tasks) λ rest. Moves-pure R order _

  run_schedule-Moves :
      (schedule : List ℕ) (tasks : List (Bytes × Task))
      → Moves R (run_schedule env world schedule tasks)
  unfolding run_schedule
  run_schedule-Moves [] tasks = Moves-pure R order _
  run_schedule-Moves (i ∷ schedule) tasks =
      Moves-bind R order _ _ (step_at-Moves i tasks) λ tasks'. run_schedule-Moves schedule tasks'

  results_of-Moves : (tasks : List (Bytes × Task)) → Moves R (results_of env world tasks)
  unfolding results_of
  results_of-Moves [] = Moves-pure R order _
  results_of-Moves ((address, task) ∷ tasks) =
      Moves-bind R order _ _ (result_of-Moves address task)
        λ result. Moves-bind R order _ _ (results_of-Moves tasks) λ results. Moves-pure R order _

  pub fetch_round-Moves :
      (schedule : List ℕ) (addresses : List Bytes)
      → Moves R (fetch_round env world schedule addresses)
  unfolding fetch_round
  fetch_round-Moves schedule addresses =
      Moves-bind R order _ _ (run_schedule-Moves schedule _) λ tasks. results_of-Moves tasks
