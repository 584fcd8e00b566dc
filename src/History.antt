-- ===== src/History.antt =====
-- backend/pc_client/history_sync.py: `HistorySynchronizer`. What the device, the network and the
-- clock do in one round of the transfer loop is the argument `Round`; times are milliseconds.
-- `remaining[sensor]` and `next_sequence[sensor]` are read and written only while the sensor is in
-- hand, so they are kept in the entry of `pending`.
pub mod Validate
pub mod Timestamp
pub mod Progress
pub mod Steps
pub mod Contents
pub mod Tracking
pub mod Jobs
pub mod Accounting
use ece4880_project.Prelude.{
  ℕ, zero, suc, ◌+◌, ◌-◌, ◌*◌, ◌%◌, ◌^◌, ◌≡◌, Bool, true, false, not, ◌&&◌, ◌||◌, Option, none,
  some, List, [], ◌∷◌, ◌++◌, ltb, leb, ◌==◌, if◌then◌else◌, length, get_or, Result, ok, err, ◌>>=◌,
  ◌>>◌, require, String,
}
use Prim.Native.Nat.{min}
use ece4880_project.Prelude.Int.{ℤ, pos, ◌+ℤ◌, ◌-ℤ◌}
use ece4880_project.Protocol.Enums.{Status, not_available, status_number}
use ece4880_project.Protocol.Error.{
  Error, protocol_error, mismatched_chunk, invalid_record_count, discontinuous_chunk,
}
use ece4880_project.Protocol.Decode.{HistoryRecordValue, HistoryChunk, HistoryMeta}

unfoldable pub check_sequences : ℕ → List HistoryRecordValue → Result Error (Unit {0})
check_sequences expected_sequence [] = ok tt
check_sequences expected_sequence (r ∷ rs) = do
  require (r.sequence == expected_sequence) (protocol_error discontinuous_chunk none)
  check_sequences ((expected_sequence + 1) % 2 ^ 32) rs

unfoldable pub validate_chunk : HistoryChunk → ℕ → ℕ → ℕ → Result Error (Unit {0})
validate_chunk chunk sensor_id start_sequence requested_count = do
  require (chunk.sensor_id == sensor_id && chunk.start_sequence == start_sequence)
      (protocol_error mismatched_chunk none)
  require (leb 1 (length chunk.records) && leb (length chunk.records) requested_count)
      (protocol_error invalid_record_count none)
  check_sequences start_sequence chunk.records

-- `(a - b) & 0xFFFFFFFF` of two 32-bit numbers
abbrev pub back_by : ℕ → ℕ → ℕ
back_by a b = (a + 2 ^ 32 - b) % 2 ^ 32

-- `timestamp`, with the sample period in milliseconds
unfoldable pub timestamp : ℕ → ℤ → ℕ → ℕ → ℤ
timestamp anchor_sequence anchor_time record_sequence sample_ms =
    let backward = back_by anchor_sequence record_sequence in
    if leb backward 0x7FFFFFFF
    then anchor_time -ℤ pos (backward * sample_ms)
    else anchor_time +ℤ pos (back_by record_sequence anchor_sequence * sample_ms)

-- What one request for a chunk came to: a chunk, `asyncio.TimeoutError`, or another exception, with
-- the status of a `ProtocolError` that has one.
pub data Outcome : Type 0 where
  received : HistoryChunk → Outcome
  timed_out : Outcome
  raised : Option Status → Outcome

-- What a round of requests came to.
pub data Attempt : Type 0 where
  got : HistoryChunk → Attempt
  expired : Attempt
  gave_up : Option Status → Attempt

abbrev pub is_not_available : Option Status → Bool
is_not_available none = false
is_not_available (some s) = status_number s == 4

-- The body of the retry loop: `more` goes on to the next attempt, with the last error.
abbrev pub judge : Outcome → (Option Status → Attempt) → ℕ → ℕ → ℕ → Attempt
judge timed_out more sensor_id start count = expired
judge (received chunk) more sensor_id start count =
    elim (validate_chunk chunk sensor_id start count) [ ok _ ↦ got chunk | err _ ↦ more none ]
judge (raised status) more sensor_id start count = elim (is_not_available status) [
  | true ↦ gave_up status
  | false ↦ more status
]

-- `for _attempt in range(history_chunk_retry_count + 1)`, with the attempts that are left.
unfoldable pub attempts : ℕ → (ℕ → Outcome) → ℕ → ℕ → ℕ → Option Status → Attempt
attempts zero outcome sensor_id start count last_error = gave_up last_error
attempts (suc left) outcome sensor_id start count last_error =
    judge (outcome 0) (attempts left (λ n. outcome (suc n)) sensor_id start count) sensor_id start
      count

pub record Job : Type 0 where
  pub sensor_id : ℕ
  pub remaining : ℕ
  pub next_sequence : ℕ

pub data Failure : Type 0 where
  chunk_failed refresh_failed : ℕ → Failure
  overwritten : ℕ → ℕ → Failure
  over_budget rebooted : Failure

-- The variables of the transfer loop. `records` lists the dictionary's writes, the last one first.
pub record Transfer : Type 0 where
  pub pending : List Job
  pub retrieved : List ℕ
  pub records : List (ℕ × HistoryRecordValue)
  pub failures : List Failure
  pub budget_expired : Bool

-- What the surroundings do in one round: whether the deadline lies ahead, how many records fit a
-- chunk (none where the link is down: `_client` then raises), the outcome of each attempt, whether the deadline still lies ahead after them, and the
-- metadata that a refresh returns, if it does.
pub record Round : Type 0 where
  pub in_time : Bool
  pub records_per_chunk : Option ℕ
  pub outcome : ℕ → Outcome
  pub still_in_time : Bool
  pub fresh_meta : Option HistoryMeta

pub data Step : Type 0 where
  again : Transfer → Step
  done : Transfer → Step
  raises : Step

-- The loop ends with its variables, or raises, and they are lost.
pub data Ending : Type 0 where
  returned : Transfer → Ending
  interrupted : Ending

-- `xs[i] += n`
abbrev pub add_at : ℕ → ℕ → List ℕ → List ℕ
add_at i n [] = []
add_at zero n (x ∷ xs) = (x + n) ∷ xs
add_at (suc i) n (x ∷ xs) = x ∷ add_at i n xs

abbrev pub stored :
    ℕ → List HistoryRecordValue → List (ℕ × HistoryRecordValue) → List (ℕ × HistoryRecordValue)
stored sensor_id [] acc = acc
stored sensor_id (r ∷ rs) acc = stored sensor_id rs ((sensor_id, r) ∷ acc)

-- the part of the round after a chunk was accepted
unfoldable pub accept_chunk : Transfer → Job → List Job → HistoryChunk → Transfer
accept_chunk t job rest chunk =
    let n = length chunk.records in
    record t {
      pending =
          if ltb 0 (job.remaining - n)
          then rest
            ++ (record job {
              remaining = job.remaining - n;
              next_sequence = (job.next_sequence + n) % 2 ^ 32;
            }
                ∷ [])
          else rest;
      retrieved = add_at (job.sensor_id - 1) n t.retrieved;
      records = stored job.sensor_id chunk.records t.records;
    }

-- the part of the round after the attempts were given up
abbrev pub fail_chunk : Transfer → Job → List Job → List Failure → Transfer
fail_chunk t job rest more = record t {
  pending = rest;
  failures = t.failures ++ (more ++ (chunk_failed job.sensor_id ∷ []));
}

unfoldable pub refresh : ℕ → Transfer → Job → List Job → Option HistoryMeta → Transfer
refresh boot_id t job rest none = fail_chunk t job rest (refresh_failed job.sensor_id ∷ [])
refresh boot_id t job rest (some fresh) =
    let oldest = get_or fresh.oldest_sequences (job.sensor_id - 1) 0 in
    let lost = back_by oldest job.next_sequence in
    if (fresh.boot_id == boot_id) && (ltb 0 lost && ltb lost job.remaining)
    then record t {
      pending =
          rest ++ (record job { remaining = job.remaining - lost; next_sequence = oldest } ∷ []);
      failures = t.failures ++ (overwritten job.sensor_id lost ∷ []);
    }
    else fail_chunk t job rest []

-- One round of `while pending and monotonic() < transfer_deadline`.
abbrev pub settle : ℕ → Round → Transfer → Job → List Job → Attempt → Step
settle boot_id round t job rest expired = done (record t { pending = rest; budget_expired = true })
settle boot_id round t job rest (got chunk) = again (accept_chunk t job rest chunk)
settle boot_id round t job rest (gave_up status) = again (
    if is_not_available status && round.still_in_time
    then refresh boot_id t job rest round.fresh_meta
    else fail_chunk t job rest [])

-- The request, once the client has said how many records fit.
abbrev pub fetch : ℕ → ℕ → Round → Transfer → Job → List Job → Option ℕ → Step
fetch boot_id retries round t job rest none = raises
fetch boot_id retries round t job rest (some n) = settle boot_id round t job rest (
    attempts (suc retries) round.outcome job.sensor_id job.next_sequence (min n job.remaining) none)

abbrev pub turn_job : ℕ → ℕ → Round → Transfer → Job → List Job → Step
turn_job boot_id retries round t job rest =
    fetch boot_id retries round t job rest round.records_per_chunk

abbrev pub turn_pending : ℕ → ℕ → Round → Transfer → List Job → Step
turn_pending boot_id retries round t [] = done t
turn_pending boot_id retries round t (job ∷ rest) =
    if round.in_time then turn_job boot_id retries round t job rest else done t

unfoldable pub turn : ℕ → ℕ → Round → Transfer → Step
unfolding accept_chunk refresh attempts
turn boot_id retries round t = turn_pending boot_id retries round t t.pending

-- The loop, on fuel: `none` means that the fuel ran out.
unfoldable pub transfer : ℕ → ℕ → ℕ → (ℕ → Round) → Transfer → Option Ending
transfer boot_id retries zero rounds t = none
transfer boot_id retries (suc fuel) rounds t = elim (turn boot_id retries (rounds 0) t) [
  | done t' ↦ some (returned t')
  | raises ↦ some interrupted
  | again t' ↦ transfer boot_id retries fuel (λ n. rounds (suc n)) t'
]

-- The jobs of the metadata: a sensor with records, from its oldest one.
abbrev pub jobs : ℕ → List ℕ → List ℕ → List Job
jobs sensor_id (n ∷ ns) (q ∷ qs) =
    let rest = jobs (sensor_id + 1) ns qs in
    if ltb 0 n
    then record { sensor_id = sensor_id; remaining = n; next_sequence = q } ∷ rest
    else rest
jobs sensor_id _ _ = []

abbrev pub zeros : List ℕ → List ℕ
zeros [] = []
zeros (n ∷ ns) = 0 ∷ zeros ns

unfoldable pub begin : HistoryMeta → Transfer
begin meta = record {
  pending = jobs 1 meta.counts meta.oldest_sequences;
  retrieved = zeros meta.counts;
  records = [];
  failures = [];
  budget_expired = false;
}

abbrev pub is_empty {ℓ} : {A : Type ℓ} → List A → Bool
is_empty [] = true
is_empty (x ∷ xs) = false

-- the failures that are added behind the loop
unfoldable pub closing : Transfer → Bool → List Failure
closing t same_boot =
    t.failures
    ++ ((if not (is_empty t.pending) || t.budget_expired then over_budget ∷ [] else [])
        ++ (if same_boot then [] else rebooted ∷ []))

abbrev pub same_list : List ℕ → List ℕ → Bool
same_list [] [] = true
same_list (x ∷ xs) (y ∷ ys) = x == y && same_list xs ys
same_list _ _ = false

-- `complete = tuple(retrieved) == expected and not failures`
unfoldable pub complete : List ℕ → Transfer → Bool → Bool
unfolding closing
complete expected t same_boot = same_list t.retrieved expected && is_empty (closing t same_boot)
