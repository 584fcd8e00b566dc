-- ===== src/History/Steps.antt =====
-- Every round of the transfer loop of backend/pc_client/history_sync.py keeps the accounts.
use Prim.Native.Nat.{min}
use ece4880_project.Prelude.{
  ℕ, zero, suc, ◌+◌, ◌-◌, ◌%◌, ◌^◌, ◌≤◌, ◌<◌, ◌≡◌, ◌≢◌, refl, ap, ◌∙◌, Bool, true, false, ◌&&◌,
  Option, none, some, List, [], ◌∷◌, ◌++◌, arith, length, get_or, ltb, ◌==◌, Bool-cases, inl, inr,
  if◌then◌else◌,
}
use ece4880_project.Protocol.Decode.{HistoryChunk, HistoryMeta}
use ece4880_project.History.{
  Job, Transfer, Round, Step, Failure, again, done, raises, fetch, Attempt, got, expired, gave_up,
  back_by, add_at, attempts, accept_chunk, refresh, fail_chunk, turn, settle, turn_pending,
  turn_job, chunk_failed, overwritten, is_not_available, refresh_failed,
}
use ece4880_project.History.Progress.{attempts-got, validate_chunk-length}

-- the records of sensor `i + 1` that pending jobs still want
abbrev pub wanted : ℕ → List Job → ℕ
wanted i [] = 0
wanted i (j ∷ js) = (if j.sensor_id == i + 1 then j.remaining else 0) + wanted i js

-- what has been retrieved for sensor `i + 1`, and what is still wanted
abbrev pub account : ℕ → Transfer → ℕ
account i t = get_or t.retrieved i 0 + wanted i t.pending

abbrev pub AllSensors : ℕ → List Job → Type 0
AllSensors n [] = Unit {0}
AllSensors n (j ∷ js) = (1 ≤ j.sensor_id) × (j.sensor_id ≤ n) × AllSensors n js

pub wanted-append : (i : ℕ) (js ks : List Job) → wanted i (js ++ ks) ≡ wanted i js + wanted i ks
wanted-append i [] ks = omega arith
wanted-append i (j ∷ js) ks = omega (arith, wanted-append i js ks)

pub AllSensors-append :
    (n : ℕ) (js ks : List Job) → AllSensors n js → AllSensors n ks → AllSensors n (js ++ ks)
AllSensors-append n [] ks hj hk = hk
AllSensors-append n (j ∷ js) ks (lo, hi, hj) hk = (lo, hi, AllSensors-append n js ks hj hk)

pub length-add_at : (k n : ℕ) (xs : List ℕ) → length (add_at k n xs) ≡ length xs
length-add_at k n [] = refl
length-add_at zero n (x ∷ xs) = refl
length-add_at (suc k) n (x ∷ xs) = ap suc (length-add_at k n xs)

pub get_or-add_at :
    (k n i : ℕ) (xs : List ℕ)
    → k < length xs
    → get_or (add_at k n xs) i 0 ≡ get_or xs i 0 + (if k == i then n else 0)
get_or-add_at k n i [] h = absurd (omega arith)
get_or-add_at zero n zero (x ∷ xs) h = refl
get_or-add_at zero n (suc i) (x ∷ xs) h = ground arith
get_or-add_at (suc k) n zero (x ∷ xs) h = ground arith
get_or-add_at (suc k) n (suc i) (x ∷ xs) h = ground (arith, get_or-add_at k n i xs (omega arith))

-- A step that keeps the accounts, with `t.pending ≡ p`.
pub record Keeps (expected : ℕ) (t t' : Transfer) : Type 0 where
  pub same_length : length t'.retrieved ≡ length t.retrieved
  pub sensors : AllSensors expected t'.pending
  pub never_more : (i : ℕ) → account i t' ≤ account i t
  pub no_loss :
      t'.failures ≡ []
      → t'.budget_expired ≡ false
      → (t.failures ≡ []) × (t.budget_expired ≡ false) × ((i : ℕ) → account i t' ≡ account i t)

abbrev pub StepKeeps : ℕ → Transfer → Step → Type 0
StepKeeps expected t (again t') = Keeps expected t t'
StepKeeps expected t (done t') = Keeps expected t t'
StepKeeps expected t raises = Unit {0}

pub accept_chunk-Keeps :
    (t : Transfer) (job : Job) (rest : List Job) (chunk : HistoryChunk)
    → t.pending ≡ job ∷ rest
    → AllSensors (length t.retrieved) (job ∷ rest)
    → length chunk.records ≤ job.remaining
    → Keeps (length t.retrieved) t (accept_chunk t job rest chunk)
unfolding accept_chunk
accept_chunk-Keeps t job rest chunk e (lo, hi, hs) h = record {
  same_length = length-add_at _ _ _;
  sensors = ground (arith, AllSensors-append (length t.retrieved) rest (left ∷ []) hs);
  never_more = λ i. ground (arith, same i);
  no_loss = λ f b. (f, b, same);
}
  where
    left : Job
    left = record job {
      remaining = job.remaining - length chunk.records;
      next_sequence = (job.next_sequence + length chunk.records) % 2 ^ 32;
    }

    same : (i : ℕ) → account i (accept_chunk t job rest chunk) ≡ account i t
    same i = rw e (
        ground (
          arith,
          get_or-add_at (job.sensor_id - 1) (length chunk.records) i t.retrieved (omega arith),
          wanted-append i rest (left ∷ []),
        ))

pub append_ne_nil {ℓ} : {A : Type ℓ} (xs ys : List A) (y : A) → xs ++ (y ∷ ys) ≢ []
append_ne_nil [] ys y h = cc
append_ne_nil (x ∷ xs) ys y h = cc

pub fail_chunk-Keeps :
    (t : Transfer) (job : Job) (rest : List Job) (more : List Failure)
    → t.pending ≡ job ∷ rest
    → AllSensors (length t.retrieved) (job ∷ rest)
    → Keeps (length t.retrieved) t (fail_chunk t job rest more)
fail_chunk-Keeps t job rest more e (lo, hi, hs) = record {
  same_length = refl;
  sensors = hs;
  never_more = λ i. rw e (omega arith);
  no_loss = λ f b. absurd (not_empty t.failures more f);
}
  where
    not_empty : (xs ys : List Failure) → xs ++ (ys ++ (chunk_failed job.sensor_id ∷ [])) ≢ []
    not_empty [] [] h = cc
    not_empty [] (y ∷ ys) h = cc
    not_empty (x ∷ xs) ys h = cc

pub shrunk-Keeps :
    (t : Transfer) (job : Job) (rest : List Job) (lost oldest : ℕ)
    → t.pending ≡ job ∷ rest
    → AllSensors (length t.retrieved) (job ∷ rest)
    → Keeps (length t.retrieved) t (record t {
      pending =
          rest ++ (record job { remaining = job.remaining - lost; next_sequence = oldest } ∷ []);
      failures = t.failures ++ (overwritten job.sensor_id lost ∷ []);
    })
shrunk-Keeps t job rest lost oldest e (lo, hi, hs) = record {
  same_length = refl;
  sensors = AllSensors-append (length t.retrieved) rest (left ∷ []) hs (lo, hi, tt);
  never_more = λ i. rw e (ground (arith, wanted-append i rest (left ∷ [])));
  no_loss = λ f b. absurd (append_ne_nil t.failures [] (overwritten job.sensor_id lost) f);
}
  where
    left : Job
    left = record job { remaining = job.remaining - lost; next_sequence = oldest }

pub refresh-Keeps :
    (boot_id : ℕ) (t : Transfer) (job : Job) (rest : List Job) (fresh : Option HistoryMeta)
    → t.pending ≡ job ∷ rest
    → AllSensors (length t.retrieved) (job ∷ rest)
    → Keeps (length t.retrieved) t (refresh boot_id t job rest fresh)
unfolding refresh
refresh-Keeps boot_id t job rest none e h =
    fail_chunk-Keeps t job rest (refresh_failed job.sensor_id ∷ []) e h
refresh-Keeps boot_id t job rest (some fresh) e h =
    elim (Bool-cases ((fresh.boot_id == boot_id) && (ltb 0 lost && ltb lost job.remaining))) [
      | inl found ↦ rw (found, refresh) (shrunk-Keeps t job rest lost oldest e h)
      | inr other ↦ rw (other, refresh) (fail_chunk-Keeps t job rest [] e h)
    ]
  where
    oldest : ℕ
    oldest = get_or fresh.oldest_sequences (job.sensor_id - 1) 0

    lost : ℕ
    lost = back_by oldest job.next_sequence

pub settle-Keeps :
    (boot_id : ℕ) (round : Round) (t : Transfer) (job : Job) (rest : List Job) (a : Attempt)
    → t.pending ≡ job ∷ rest
    → AllSensors (length t.retrieved) (job ∷ rest)
    → ((chunk : HistoryChunk) → a ≡ got chunk → length chunk.records ≤ job.remaining)
    → StepKeeps (length t.retrieved) t (settle boot_id round t job rest a)
settle-Keeps boot_id round t job rest expired e (lo, hi, hs) valid = record {
  same_length = refl;
  sensors = hs;
  never_more = λ i. rw e (omega arith);
  no_loss = λ f b. cc;
}
settle-Keeps boot_id round t job rest (got chunk) e h valid =
    accept_chunk-Keeps t job rest chunk e h (valid chunk refl)
settle-Keeps boot_id round t job rest (gave_up status) e h valid =
    choose (is_not_available status && round.still_in_time)
  where
    choose :
        (b : Bool)
        → Keeps
            (length t.retrieved)
            t
            (if b then refresh boot_id t job rest round.fresh_meta else fail_chunk t job rest [])
    choose true = refresh-Keeps boot_id t job rest round.fresh_meta e h
    choose false = fail_chunk-Keeps t job rest [] e h

pub Keeps-refl :
    (t : Transfer) → AllSensors (length t.retrieved) t.pending → Keeps (length t.retrieved) t t
Keeps-refl t h = record {
  same_length = refl;
  sensors = h;
  never_more = λ i. omega arith;
  no_loss = λ f b. (f, b, λ i. refl);
}

pub turn_pending-Keeps :
    (boot_id retries : ℕ) (round : Round) (t : Transfer) (p : List Job)
    → t.pending ≡ p
    → AllSensors (length t.retrieved) p
    → StepKeeps (length t.retrieved) t (turn_pending boot_id retries round t p)
turn_pending-Keeps boot_id retries round t [] e h = Keeps-refl t (rw e h)
turn_pending-Keeps boot_id retries round t (job ∷ rest) e h = choose round.in_time
  where
    few :
        (n : ℕ) (chunk : HistoryChunk)
        → attempts
            (suc retries)
            round.outcome
            job.sensor_id
            job.next_sequence
            (min n job.remaining)
            none
          ≡ got chunk
        → length chunk.records ≤ job.remaining
    few n chunk got_it = omega (
      arith,
      (validate_chunk-length chunk job.sensor_id job.next_sequence (min n job.remaining) (
          attempts-got (suc retries) round.outcome job.sensor_id job.next_sequence
            (min n job.remaining) none chunk got_it)).1,
    )

    fetched :
        (n : Option ℕ) → StepKeeps (length t.retrieved) t (fetch boot_id retries round t job rest n)
    fetched none = tt
    fetched (some n) = settle-Keeps boot_id round t job rest _ e h (few n)

    choose :
        (b : Bool)
        → StepKeeps
            (length t.retrieved)
            t
            (if b then turn_job boot_id retries round t job rest else done t)
    choose true = fetched round.records_per_chunk
    choose false = Keeps-refl t (rw e h)

pub turn-Keeps :
    (boot_id retries : ℕ) (round : Round) (t : Transfer)
    → AllSensors (length t.retrieved) t.pending
    → StepKeeps (length t.retrieved) t (turn boot_id retries round t)
unfolding turn
turn-Keeps boot_id retries round t h = turn_pending-Keeps boot_id retries round t t.pending refl h

pub Keeps-trans : {n : ℕ} {t u v : Transfer} → Keeps n t u → Keeps n u v → Keeps n t v
Keeps-trans {n} {t} {u} {v} a b = record {
  same_length = b.same_length ∙ a.same_length;
  sensors = b.sensors;
  never_more = λ i. omega (arith, a.never_more i, b.never_more i);
  no_loss = λ f x.
      let (f', x', s) = b.no_loss f x in
      let (f'', x'', s') = a.no_loss f' x' in (f'', x'', λ i. s i ∙ s' i);
}
