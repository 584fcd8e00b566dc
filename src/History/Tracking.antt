-- ===== src/History/Tracking.antt =====
-- Every round of the transfer loop of backend/pc_client/history_sync.py keeps track of the records.
use Prim.Native.Nat.{min}
use ece4880_project.Prelude.{
  ℕ, suc, ◌-◌, ◌≡◌, ◌≢◌, refl, Bool, true, false, ◌&&◌, Option, none, some, List, [], ◌∷◌, ◌++◌,
  length, get_or, ltb, ◌==◌, if◌then◌else◌, ok,
}
use ece4880_project.Protocol.Decode.{HistoryChunk, HistoryMeta}
use ece4880_project.History.{
  Job, Transfer, Round, Step, Failure, again, done, raises, fetch, Attempt, got, expired, gave_up,
  accept_chunk, refresh, fail_chunk, turn, settle, turn_pending, turn_job, chunk_failed,
  overwritten, is_not_available, refresh_failed, validate_chunk, back_by,
}
use ece4880_project.History.Progress.{attempts-got}
use ece4880_project.History.Steps.{AllSensors}
use ece4880_project.History.Contents.{IsTracked, next_of, distinct_of, accept_chunk-IsTracked}

-- A step that keeps track of every record, unless it records a failure
abbrev pub Tracks : List ℕ → Transfer → Transfer → Type 0
Tracks oldest t u = u.failures ≡ [] → (t.failures ≡ []) × (IsTracked oldest t → IsTracked oldest u)

abbrev pub StepTracks : List ℕ → Transfer → Step → Type 0
StepTracks oldest t (again u) = Tracks oldest t u
StepTracks oldest t (done u) = Tracks oldest t u
StepTracks oldest t raises = Unit {0}

failures-accept_chunk :
    (t : Transfer) (job : Job) (rest : List Job) (chunk : HistoryChunk)
    → (accept_chunk t job rest chunk).failures ≡ t.failures
unfolding accept_chunk
failures-accept_chunk t job rest chunk = refl

-- A step that records a failure
failing-Tracks :
    (oldest : List ℕ) (t u : Transfer) (fs more : List Failure) (f : Failure)
    → u.failures ≡ fs ++ (more ++ (f ∷ []))
    → Tracks oldest t u
failing-Tracks oldest t u fs more f e none_left = absurd (not_empty fs more (cc (e, none_left)))
  where
    not_empty : (xs ys : List Failure) → xs ++ (ys ++ (f ∷ [])) ≢ []
    not_empty [] [] h = cc
    not_empty [] (y ∷ ys) h = cc
    not_empty (x ∷ xs) ys h = cc

refresh-Tracks :
    (oldest : List ℕ) (boot_id : ℕ) (t : Transfer) (job : Job) (rest : List Job)
    (fresh : Option HistoryMeta)
    → Tracks oldest t (refresh boot_id t job rest fresh)
unfolding refresh
refresh-Tracks oldest boot_id t job rest none =
    failing-Tracks oldest t _ t.failures (refresh_failed job.sensor_id ∷ [])
      (chunk_failed job.sensor_id) refl
refresh-Tracks oldest boot_id t job rest (some fresh) = choose (
    (fresh.boot_id == boot_id)
    && (ltb 0 (back_by first job.next_sequence)
        && ltb (back_by first job.next_sequence) job.remaining))
  where
    first : ℕ
    first = get_or fresh.oldest_sequences (job.sensor_id - 1) 0

    choose :
        (b : Bool)
        → Tracks oldest t (
            if b
            then record t {
              pending =
                  rest
                  ++ (record job {
                    remaining = job.remaining - back_by first job.next_sequence;
                    next_sequence = first;
                  }
                      ∷ []);
              failures =
                  t.failures ++ (overwritten job.sensor_id (back_by first job.next_sequence) ∷ []);
            }
            else fail_chunk t job rest [])
    choose true =
        failing-Tracks oldest t _ t.failures []
          (overwritten job.sensor_id (back_by first job.next_sequence)) refl
    choose false = failing-Tracks oldest t _ t.failures [] (chunk_failed job.sensor_id) refl

module _ (oldest : List ℕ) (boot_id retries : ℕ) (round : Round) (t : Transfer) where
  settle-Tracks :
      (job : Job) (rest : List Job) (count : ℕ) (a : Attempt)
      → t.pending ≡ job ∷ rest
      → AllSensors (length t.retrieved) (job ∷ rest)
      → ((chunk : HistoryChunk)
          → a ≡ got chunk
          → validate_chunk chunk job.sensor_id job.next_sequence count ≡ ok tt)
      → StepTracks oldest t (settle boot_id round t job rest a)
  settle-Tracks job rest count expired e sensors valid = λ none_left. (
    none_left,
    λ known. record {
      held = known.held;
      next = (next_of oldest t job rest e sensors known).1;
      distinct = (distinct_of oldest t job rest e sensors known).1;
    },
  )
  settle-Tracks job rest count (got chunk) e sensors valid = λ none_left. (
    rw (failures-accept_chunk t job rest chunk) at none_left,
    λ known.
        accept_chunk-IsTracked oldest t job rest e sensors known chunk count (valid chunk refl),
  )
  settle-Tracks job rest count (gave_up status) e sensors valid =
      choose (is_not_available status && round.still_in_time)
    where
      choose :
          (b : Bool)
          → Tracks oldest t
              (if b then refresh boot_id t job rest round.fresh_meta else fail_chunk t job rest [])
      choose true = refresh-Tracks oldest boot_id t job rest round.fresh_meta
      choose false = failing-Tracks oldest t _ t.failures [] (chunk_failed job.sensor_id) refl

  fetch-Tracks :
      (job : Job) (rest : List Job) (n : Option ℕ)
      → t.pending ≡ job ∷ rest
      → AllSensors (length t.retrieved) (job ∷ rest)
      → StepTracks oldest t (fetch boot_id retries round t job rest n)
  fetch-Tracks job rest none e sensors = tt
  fetch-Tracks job rest (some n) e sensors =
      settle-Tracks job rest (min n job.remaining) _ e sensors (
        attempts-got (suc retries) round.outcome job.sensor_id job.next_sequence
          (min n job.remaining) none)

  pub turn-Tracks :
      AllSensors (length t.retrieved) t.pending → StepTracks oldest t (turn boot_id retries round t)
  unfolding turn
  turn-Tracks sensors = of_pending t.pending refl sensors
    where
      of_round :
          (job : Job) (rest : List Job) (b : Bool)
          → t.pending ≡ job ∷ rest
          → AllSensors (length t.retrieved) (job ∷ rest)
          → StepTracks oldest t (if b then turn_job boot_id retries round t job rest else done t)
      of_round job rest true e h = fetch-Tracks job rest round.records_per_chunk e h
      of_round job rest false e h = λ f. (f, λ known. known)

      of_pending :
          (p : List Job)
          → t.pending ≡ p
          → AllSensors (length t.retrieved) p
          → StepTracks oldest t (turn_pending boot_id retries round t p)
      of_pending [] e h = λ f. (f, λ known. known)
      of_pending (job ∷ rest) e h = of_round job rest round.in_time e h
