-- ===== src/Client/Rounds.antt =====
-- src/lib.rs: the addresses of a round of `download`.
use ant_wasm_client.Base.{
  ℕ, zero, suc, ◌≡◌, refl, ap, sym, ◌∙◌, inl, inr, Bool, true, false, ◌||◌, Bool-cases, List, [],
  ◌∷◌, map, All, Bytes, bytes_eq, bytes_eq_refl, ok-injective, ok, arith,
}
use ant_wasm_client.Errors.{Fallible}
use ant_wasm_client.Env.{Env}
use ant_wasm_client.Action.{bind-eq_ok}
use ant_wasm_client.Retrieval.Progress.{without}
use ant_wasm_client.Client.{World, Client}
use ant_wasm_client.Client.Download.{Task, asking, step_at, run_schedule, results_of, fetch_round}

-- A list less every address of another.
abbrev pub withouts : List Bytes → List Bytes → List Bytes
withouts [] l = l
withouts (k ∷ ks) l = withouts ks (without k l)

abbrev pub mem : Bytes → List Bytes → Bool
mem x [] = false
mem x (k ∷ ks) = bytes_eq k x || mem x ks

abbrev pub In : List Bytes → Bytes → Type 0
In ks x = mem x ks ≡ true

All-without : (k : Bytes) (ks l : List Bytes) → All (In (k ∷ ks)) l → All (In ks) (without k l)
All-without k ks [] h = tt
All-without k ks (x ∷ l) (hx, hl) = elim (Bool-cases (bytes_eq k x)) [
  | inl e ↦ rw e (All-without k ks l hl)
  | inr e ↦ rw e ((rw e at hx), All-without k ks l hl)
]

pub withouts-All : (ks l : List Bytes) → All (In ks) l → withouts ks l ≡ []
withouts-All [] [] h = refl
withouts-All [] (x ∷ l) h = cc
withouts-All (k ∷ ks) l h = withouts-All ks (without k l) (All-without k ks l h)

All-In-cons : (k : Bytes) (ks l : List Bytes) → All (In ks) l → All (In (k ∷ ks)) l
All-In-cons k ks [] h = tt
All-In-cons k ks (x ∷ l) (hx, hl) = (ground arith, All-In-cons k ks l hl)

pub All-In : (l : List Bytes) → All (In l) l
All-In [] = tt
All-In (x ∷ l) = (rw (bytes_eq_refl x), All-In-cons x l l (All-In l))

-- The addresses of a round, before and after.
module _ (env : Env) (world : World) where
  step_at-addresses :
      (i : ℕ) (tasks tasks' : List (Bytes × Task)) (s : Client)
      → (step_at env world i tasks s).0 ≡ ok tasks'
      → map (λ p. p.0) tasks' ≡ map (λ p. p.0) tasks
  unfolding step_at
  step_at-addresses i [] tasks' s h = ap (map (λ p. p.0)) (sym (ok-injective [] tasks' h))
  step_at-addresses zero ((a, task) ∷ tasks) tasks' s h =
      let (next, _, same) = bind-eq_ok _ _ s h in
      ap (map (λ p. p.0)) (sym (ok-injective ((a, next) ∷ tasks) tasks' same))
  step_at-addresses (suc i) (task ∷ tasks) tasks' s h =
      let (rest, got, same) = bind-eq_ok _ _ s h in
      ap (map (λ p. p.0)) (sym (ok-injective (task ∷ rest) tasks' same))
      ∙ ap (λ l. task.0 ∷ l) (step_at-addresses i tasks rest s got)

  run_schedule-addresses :
      (schedule : List ℕ) (tasks tasks' : List (Bytes × Task)) (s : Client)
      → (run_schedule env world schedule tasks s).0 ≡ ok tasks'
      → map (λ p. p.0) tasks' ≡ map (λ p. p.0) tasks
  unfolding run_schedule
  run_schedule-addresses [] tasks tasks' s h =
      ap (map (λ p. p.0)) (sym (ok-injective tasks tasks' h))
  run_schedule-addresses (i ∷ schedule) tasks tasks' s h =
      let (next, got, h₁) = bind-eq_ok _ _ s h in
      run_schedule-addresses schedule next tasks' _ h₁ ∙ step_at-addresses i tasks next s got

  results_of-addresses :
      (tasks : List (Bytes × Task)) (results : List (Bytes × Fallible Bytes)) (s : Client)
      → (results_of env world tasks s).0 ≡ ok results
      → map (λ p. p.0) results ≡ map (λ p. p.0) tasks
  unfolding results_of
  results_of-addresses [] results s h = ap (map (λ p. p.0)) (sym (ok-injective [] results h))
  results_of-addresses ((a, task) ∷ tasks) results s h =
      let (result, _, h₁) = bind-eq_ok _ _ s h in
      let (rest, got, same) = bind-eq_ok _ _ _ h₁ in
      ap (map (λ p. p.0)) (sym (ok-injective ((a, result) ∷ rest) results same))
      ∙ ap (λ l. a ∷ l) (results_of-addresses tasks rest _ got)

  map-asking : (l : List Bytes) → map {A = Bytes × Task} (λ p. p.0) (map (λ a. (a, asking)) l) ≡ l
  map-asking [] = refl
  map-asking (a ∷ l) = ap (λ t. a ∷ t) (map-asking l)

  -- A round comes back with a result for each address that was asked for, in order.
  pub fetch_round-addresses :
      (schedule : List ℕ) (addresses : List Bytes) (fetched : List (Bytes × Fallible Bytes))
      (s : Client)
      → (fetch_round env world schedule addresses s).0 ≡ ok fetched
      → map (λ p. p.0) fetched ≡ addresses
  unfolding fetch_round
  fetch_round-addresses schedule addresses fetched s h =
      let (tasks, ran, h₁) = bind-eq_ok _ _ s h in
      results_of-addresses tasks fetched _ h₁
      ∙ run_schedule-addresses schedule (map (λ a. (a, asking)) addresses) tasks s ran
      ∙ map-asking addresses
