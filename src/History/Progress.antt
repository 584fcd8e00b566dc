-- ===== src/History/Progress.antt =====
-- The transfer loop of backend/pc_client/history_sync.py ends: each round uses up records or a job.
use Prim.Native.Nat.{min}
use mathlib.Core.Path.{subst}
use ece4880_project.Prelude.{
  ℕ, zero, suc, ◌+◌, ◌-◌, ◌%◌, ◌^◌, ◌≤◌, ◌<◌, ◌≡◌, ◌≢◌, refl, Option, none, some, List, [], ◌∷◌,
  ◌++◌, arith, length, get_or, ok, Bool-cases, inl, inr, ◌⊎◌,
}
use ece4880_project.Protocol.Enums.{Status}
use ece4880_project.Protocol.Decode.{HistoryChunk, HistoryMeta}
use ece4880_project.History.{
  Job, Transfer, Round, Step, again, done, raises, Ending, returned, interrupted, fetch, Outcome,
  received, timed_out, raised, Attempt, got, expired, gave_up, attempts, accept_chunk, refresh,
  turn, transfer, validate_chunk, settle, judge, back_by, turn_pending,
}

-- the records that are still to be fetched, and the jobs
abbrev pub weight : List Job → ℕ
weight [] = 0
weight (j ∷ js) = suc j.remaining + weight js

weight-append : (js ks : List Job) → weight (js ++ ks) ≡ weight js + weight ks
weight-append [] ks = omega arith
weight-append (j ∷ js) ks = omega (arith, weight-append js ks)

pub validate_chunk-length :
    (chunk : HistoryChunk) (sensor_id start count : ℕ)
    → validate_chunk chunk sensor_id start count ≡ ok tt
    → (1 ≤ length chunk.records) × (length chunk.records ≤ count)
unfolding validate_chunk
validate_chunk-length chunk sensor_id start count h = ground arith

judge-got :
    (o : Outcome) (more : Option Status → Attempt) (sensor_id start count : ℕ)
    (chunk : HistoryChunk)
    → ((e : Option Status)
        → more e ≡ got chunk
        → validate_chunk chunk sensor_id start count ≡ ok tt)
    → judge o more sensor_id start count ≡ got chunk
    → validate_chunk chunk sensor_id start count ≡ ok tt
judge-got timed_out more sensor_id start count chunk later h = cc
judge-got (received c) more sensor_id start count chunk later h = ground (arith, later none)
judge-got (raised status) more sensor_id start count chunk later h = ground (arith, later status)

-- A chunk that the attempts return was validated.
pub attempts-got :
    (left : ℕ) (outcome : ℕ → Outcome) (sensor_id start count : ℕ) (last : Option Status)
    (chunk : HistoryChunk)
    → attempts left outcome sensor_id start count last ≡ got chunk
    → validate_chunk chunk sensor_id start count ≡ ok tt
unfolding attempts
attempts-got zero outcome sensor_id start count last chunk h = cc
attempts-got (suc left) outcome sensor_id start count last chunk h =
    judge-got (outcome 0) _ sensor_id start count chunk
      (λ e. attempts-got left (λ n. outcome (suc n)) sensor_id start count e chunk) h

accept_chunk-weight :
    (t : Transfer) (job : Job) (rest : List Job) (chunk : HistoryChunk) (count : ℕ)
    → 1 ≤ length chunk.records
    → weight (accept_chunk t job rest chunk).pending < weight (job ∷ rest)
unfolding accept_chunk
accept_chunk-weight t job rest chunk count h = ground (
  arith,
  weight-append rest (
      record job {
        remaining = job.remaining - length chunk.records;
        next_sequence = (job.next_sequence + length chunk.records) % 2 ^ 32;
      }
      ∷ []),
)

refresh-weight :
    (boot_id : ℕ) (t : Transfer) (job : Job) (rest : List Job) (fresh : Option HistoryMeta)
    → weight (refresh boot_id t job rest fresh).pending < weight (job ∷ rest)
unfolding refresh
refresh-weight boot_id t job rest none = ground arith
refresh-weight boot_id t job rest (some fresh) = ground (
  arith,
  weight-append rest (
      record job {
        remaining =
            job.remaining
            - back_by (get_or fresh.oldest_sequences (job.sensor_id - 1) 0) job.next_sequence;
        next_sequence = get_or fresh.oldest_sequences (job.sensor_id - 1) 0;
      }
      ∷ []),
)

pub again-injective : {t u : Transfer} → again t ≡ again u → t ≡ u
again-injective h = cc

settle-weight :
    (boot_id : ℕ) (round : Round) (t t' : Transfer) (job : Job) (rest : List Job) (a : Attempt)
    → ((chunk : HistoryChunk) → a ≡ got chunk → 1 ≤ length chunk.records)
    → settle boot_id round t job rest a ≡ again t'
    → weight t'.pending < weight (job ∷ rest)
settle-weight boot_id round t t' job rest expired valid h = cc
settle-weight boot_id round t t' job rest (got chunk) valid h =
    subst (λ x. weight x.pending < weight (job ∷ rest)) (again-injective h)
      (accept_chunk-weight t job rest chunk 0 (valid chunk refl))
settle-weight boot_id round t t' job rest (gave_up status) valid h =
    ground (arith, refresh-weight boot_id t job rest round.fresh_meta, again-injective h)

fetch-weight :
    (boot_id retries : ℕ) (round : Round) (t t' : Transfer) (job : Job) (rest : List Job)
    (n : Option ℕ)
    → fetch boot_id retries round t job rest n ≡ again t'
    → weight t'.pending < weight (job ∷ rest)
fetch-weight boot_id retries round t t' job rest none h = cc
fetch-weight boot_id retries round t t' job rest (some n) h =
    settle-weight boot_id round t t' job rest _
      (λ chunk got_it.
        (validate_chunk-length chunk job.sensor_id job.next_sequence (min n job.remaining) (
          attempts-got (suc retries) round.outcome job.sensor_id job.next_sequence
            (min n job.remaining) none chunk got_it)).0)
      h

turn_pending-weight :
    (boot_id retries : ℕ) (round : Round) (t t' : Transfer) (p : List Job)
    → turn_pending boot_id retries round t p ≡ again t'
    → weight t'.pending < weight p
turn_pending-weight boot_id retries round t t' [] h = cc
turn_pending-weight boot_id retries round t t' (job ∷ rest) h = elim (Bool-cases round.in_time) [
  | inl e ↦ fetch-weight boot_id retries round t t' job rest round.records_per_chunk (rw e at h)
  | inr e ↦ cc (e, h)
]

turn-weight :
    (boot_id retries : ℕ) (round : Round) (t t' : Transfer)
    → turn boot_id retries round t ≡ again t'
    → weight t'.pending < weight t.pending
unfolding turn
turn-weight boot_id retries round t t' h =
    turn_pending-weight boot_id retries round t t' t.pending h

pub Step-cases :
    (s : Step) → ((t : Transfer) × (s ≡ done t)) ⊎ (((t : Transfer) × (s ≡ again t)) ⊎ (s ≡ raises))
Step-cases (done t) = inl (t, refl)
Step-cases (again t) = inr (inl (t, refl))
Step-cases raises = inr (inr refl)

settle-raises :
    (boot_id : ℕ) (round : Round) (t : Transfer) (job : Job) (rest : List Job) (a : Attempt)
    → settle boot_id round t job rest a ≢ raises
settle-raises boot_id round t job rest expired h = cc
settle-raises boot_id round t job rest (got chunk) h = cc
settle-raises boot_id round t job rest (gave_up status) h = cc

-- A round raises only where the link is down as it asks how many records fit.
turn-raises :
    (boot_id retries : ℕ) (round : Round) (t : Transfer)
    → turn boot_id retries round t ≡ raises
    → round.records_per_chunk ≡ none
unfolding turn
turn-raises boot_id retries round t h = of_pending t.pending h
  where
    of_fetch :
        (job : Job) (rest : List Job) (n : Option ℕ)
        → fetch boot_id retries round t job rest n ≡ raises
        → n ≡ none
    of_fetch job rest none e = refl
    of_fetch job rest (some n) e = absurd (settle-raises boot_id round t job rest _ e)

    of_pending :
        (p : List Job)
        → turn_pending boot_id retries round t p ≡ raises
        → round.records_per_chunk ≡ none
    of_pending [] e = absurd (cc e)
    of_pending (job ∷ rest) e = elim (Bool-cases round.in_time) [
      | inl b ↦ of_fetch job rest round.records_per_chunk (rw b at e)
      | inr b ↦ absurd (cc (b, e))
    ]

-- How the loop ends: it returns, or in one of its rounds the link is down as it asks how many records
-- fit, and it raises.
abbrev pub HasEnded : ℕ → (ℕ → Round) → Option Ending → Type 0
HasEnded fuel rounds e =
    ((t : Transfer) × (e ≡ some (returned t)))
    ⊎ ((e ≡ some interrupted) × ((n : ℕ) × (n < fuel) × ((rounds n).records_per_chunk ≡ none)))

one_more :
    (fuel : ℕ) (rounds : ℕ → Round) (e : Option Ending)
    → HasEnded fuel (λ n. rounds (suc n)) e
    → HasEnded (suc fuel) rounds e
one_more fuel rounds e (inl r) = inl r
one_more fuel rounds e (inr (i, (n, below, down))) = inr (i, (suc n, omega arith, down))

-- The transfer loop ends, with more fuel than there are records and sensors left to fetch, whatever
-- the device, the network and the clock do in its rounds: it returns, or it raises, and this only where
-- in one of its rounds the link is down as it asks how many records fit a chunk.
pub transfer_ends :
    (boot_id retries fuel : ℕ) (rounds : ℕ → Round) (t : Transfer)
    → weight t.pending < fuel
    → HasEnded fuel rounds (transfer boot_id retries fuel rounds t)
unfolding transfer
transfer_ends boot_id retries zero rounds t h = absurd (omega arith)
transfer_ends boot_id retries (suc fuel) rounds t h =
    elim (Step-cases (turn boot_id retries (rounds 0) t)) [
      | inl (t', e) ↦ inl (t', rw (e, transfer) refl)
      | inr (inl (t', e)) ↦
          rw (e, transfer)
            (one_more fuel rounds _ (
              transfer_ends boot_id retries fuel (λ n. rounds (suc n)) t'
                (omega (arith, turn-weight boot_id retries (rounds 0) t t' e))))
      | inr (inr e) ↦
          inr (rw (e, transfer) refl, (0, omega arith, turn-raises boot_id retries (rounds 0) t e))
    ]
