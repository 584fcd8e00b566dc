-- ===== src/History/Contents.antt =====
-- Which records the transfer loop of backend/pc_client/history_sync.py has stored, by sensor.
use mathlib.Core.Path.{subst}
use ece4880_project.Prelude.{
  ℕ, zero, suc, ◌+◌, ◌-◌, ◌%◌, ◌^◌, ◌≤◌, ◌<◌, ◌≡◌, ◌≢◌, refl, Bool, true, false, ◌&&◌, List, [],
  ◌∷◌, ◌++◌, arith, length, get_or, ltb, leb, ◌==◌, ==_iff, Bool-cases, inl, inr, if◌then◌else◌, ok,
  require, >>=-eq-ok,
}
use ece4880_project.Protocol.Decode.{HistoryRecordValue, HistoryChunk}
use ece4880_project.Protocol.Decode.Chunk.{CountsFrom}
use ece4880_project.History.{Job, Transfer, add_at, stored, accept_chunk, validate_chunk}
use ece4880_project.History.Validate.{CountsFrom-check_sequences}
use ece4880_project.History.Steps.{AllSensors, get_or-add_at}

-- The sequences of a sensor's records, the last one stored first.
abbrev pub sequences_of : ℕ → List (ℕ × HistoryRecordValue) → List ℕ
sequences_of sensor_id [] = []
sequences_of sensor_id ((j, r) ∷ rs) =
    let rest = sequences_of sensor_id rs in if j == sensor_id then r.sequence ∷ rest else rest

-- `n` sequences from `oldest`, the last one first.
abbrev pub down_to : ℕ → ℕ → List ℕ
down_to oldest zero = []
down_to oldest (suc n) = ((oldest + n) % 2 ^ 32) ∷ down_to oldest n

abbrev pub IsAbsent : ℕ → List Job → Type 0
IsAbsent s [] = Unit {0}
IsAbsent s (j ∷ js) = (s ≢ j.sensor_id) × IsAbsent s js

abbrev pub AllDistinct : List Job → Type 0
AllDistinct [] = Unit {0}
AllDistinct (j ∷ js) = IsAbsent j.sensor_id js × AllDistinct js

-- Each job goes on behind what has been retrieved for its sensor.
abbrev pub AllNext : List ℕ → List ℕ → List Job → Type 0
AllNext oldest retrieved [] = Unit {0}
AllNext oldest retrieved (j ∷ js) =
    (j.next_sequence
      ≡ (get_or oldest (j.sensor_id - 1) 0 + get_or retrieved (j.sensor_id - 1) 0) % 2 ^ 32)
    × AllNext oldest retrieved js

-- What is stored for a sensor is what follows its oldest sequence, without a gap.
pub record IsTracked (oldest : List ℕ) (t : Transfer) : Type 0 where
  pub held :
      (i : ℕ)
      → sequences_of (i + 1) t.records ≡ down_to (get_or oldest i 0) (get_or t.retrieved i 0)
  pub next : AllNext oldest t.retrieved t.pending
  pub distinct : AllDistinct t.pending

sequences_of-stored :
    (i s : ℕ) (rs : List HistoryRecordValue) (acc : List (ℕ × HistoryRecordValue))
    → s ≢ i
    → sequences_of i (stored s rs acc) ≡ sequences_of i acc
sequences_of-stored i s [] acc h = refl
sequences_of-stored i s (r ∷ rs) acc h =
    ground (arith, h, sequences_of-stored i s rs ((s, r) ∷ acc) h)

the_next : (q n : ℕ) → q + n + 1 ≡ q + suc n
the_next q n = omega arith

sequences_of-stored_own :
    (s q n : ℕ) (rs : List HistoryRecordValue) (acc : List (ℕ × HistoryRecordValue))
    → CountsFrom (q + n) rs
    → sequences_of s acc ≡ down_to q n
    → sequences_of s (stored s rs acc) ≡ down_to q (n + length rs)
sequences_of-stored_own s q n [] acc c h =
    let e : n ≡ n + 0 = omega arith in subst (λ k. sequences_of s acc ≡ down_to q k) e h
sequences_of-stored_own s q n (r ∷ rs) acc (c, cs) h =
    let one_more : sequences_of s ((s, r) ∷ acc) ≡ down_to q (suc n) = ground (arith, c, h) in
    let e : suc n + length rs ≡ n + suc (length rs) = omega arith in
    let cs' : CountsFrom (q + suc n) rs = subst (λ k. CountsFrom k rs) (the_next q n) cs in
    subst (λ k. sequences_of s (stored s rs ((s, r) ∷ acc)) ≡ down_to q k) e
      (sequences_of-stored_own s q (suc n) rs ((s, r) ∷ acc) cs' one_more)

IsAbsent-append :
    (s : ℕ) (js : List Job) (k : Job)
    → IsAbsent s js
    → s ≢ k.sensor_id
    → IsAbsent s (js ++ (k ∷ []))
IsAbsent-append s [] k h e = (e, tt)
IsAbsent-append s (j ∷ js) k (d, h) e = (d, IsAbsent-append s js k h e)

AllDistinct-append :
    (js : List Job) (k : Job)
    → AllDistinct js
    → IsAbsent k.sensor_id js
    → AllDistinct (js ++ (k ∷ []))
AllDistinct-append [] k d h = (tt, tt)
AllDistinct-append (j ∷ js) k (a, d) (e, h) =
    (IsAbsent-append j.sensor_id js k a (λ f. e (cc f)), AllDistinct-append js k d h)

AllNext-append :
    (oldest retrieved : List ℕ) (js : List Job) (k : Job)
    → AllNext oldest retrieved js
    → k.next_sequence
      ≡ (get_or oldest (k.sensor_id - 1) 0 + get_or retrieved (k.sensor_id - 1) 0) % 2 ^ 32
    → AllNext oldest retrieved (js ++ (k ∷ []))
AllNext-append oldest retrieved [] k h e = (e, tt)
AllNext-append oldest retrieved (j ∷ js) k (f, h) e = (f, AllNext-append oldest retrieved js k h e)

-- The jobs of other sensors go on where they did.
AllNext-add_at :
    (oldest retrieved : List ℕ) (js : List Job) (s n bound : ℕ)
    → 1 ≤ s
    → s - 1 < length retrieved
    → AllSensors bound js
    → IsAbsent s js
    → AllNext oldest retrieved js
    → AllNext oldest (add_at (s - 1) n retrieved) js
AllNext-add_at oldest retrieved [] s n bound lo hi hs a h = tt
AllNext-add_at oldest retrieved (j ∷ js) s n bound lo hi (one, below, hs) (d, a) (e, h) =
    let other : ((s - 1) == (j.sensor_id - 1)) ≡ false = ground (arith, d) in
    let same : get_or (add_at (s - 1) n retrieved) (j.sensor_id - 1) 0
        ≡ get_or retrieved (j.sensor_id - 1) 0 =
      ground (arith, other, get_or-add_at (s - 1) n (j.sensor_id - 1) retrieved hi) in
    (rw same e, AllNext-add_at oldest retrieved js s n bound lo hi hs a h)

validate_chunk-CountsFrom :
    (chunk : HistoryChunk) (sensor_id start count position : ℕ)
    → start ≡ position % 2 ^ 32
    → validate_chunk chunk sensor_id start count ≡ ok tt
    → CountsFrom position chunk.records
unfolding validate_chunk
validate_chunk-CountsFrom chunk sensor_id start count position e h =
    let (_, _, k₁) =
      >>=-eq-ok (require (chunk.sensor_id == sensor_id && chunk.start_sequence == start) _) _ h in
    let (_, _, k₂) =
      >>=-eq-ok (require (leb 1 (length chunk.records) && leb (length chunk.records) count) _) _
        k₁ in
    CountsFrom-check_sequences start position chunk.records e k₂

module _ (oldest : List ℕ) (t : Transfer) (job : Job) (rest : List Job) (e : t.pending ≡ job ∷ rest)
    (sensors : AllSensors (length t.retrieved) (job ∷ rest)) (known : IsTracked oldest t) where
  pub next_of : AllNext oldest t.retrieved (job ∷ rest)
  next_of = rw e at known.next

  pub distinct_of : AllDistinct (job ∷ rest)
  distinct_of = rw e at known.distinct

  abbrev own : ℕ
  own = job.sensor_id - 1

  module _ (chunk : HistoryChunk) (count : ℕ)
      (valid : validate_chunk chunk job.sensor_id job.next_sequence count ≡ ok tt) where
    held_after :
        (i : ℕ)
        → sequences_of (i + 1) (stored job.sensor_id chunk.records t.records)
          ≡ down_to (get_or oldest i 0) (get_or (add_at own (length chunk.records) t.retrieved) i 0)
    held_after i = elim (Bool-cases (own == i)) [
      | inl same ↦
          let s : job.sensor_id ≡ i + 1 = ground (arith, sensors.0, same) in
          let more : get_or (add_at own (length chunk.records) t.retrieved) i 0
              ≡ get_or t.retrieved i 0 + length chunk.records =
            ground
              (arith, same, get_or-add_at own (length chunk.records) i t.retrieved (omega arith)) in
          let at : job.next_sequence ≡ (get_or oldest i 0 + get_or t.retrieved i 0) % 2 ^ 32 =
            subst (λ k. job.next_sequence ≡ (get_or oldest k 0 + get_or t.retrieved k 0) % 2 ^ 32)
              ((==_iff own i).0 same) next_of.0 in
          rw (more, s)
            (sequences_of-stored_own (i + 1) (get_or oldest i 0) (get_or t.retrieved i 0)
              chunk.records t.records
              (validate_chunk-CountsFrom chunk job.sensor_id job.next_sequence count
                (get_or oldest i 0 + get_or t.retrieved i 0) at valid)
              (known.held i))
      | inr other ↦
          let s : job.sensor_id ≢ i + 1 = λ f. ground (arith, f, other) in
          let same : get_or (add_at own (length chunk.records) t.retrieved) i 0
              ≡ get_or t.retrieved i 0 =
            ground (
              arith,
              other,
              get_or-add_at own (length chunk.records) i t.retrieved (omega arith),
            ) in
          rw (sequences_of-stored (i + 1) job.sensor_id chunk.records t.records s, same)
            (known.held i)
    ]

    abbrev next_job : Job
    next_job = record job {
      remaining = job.remaining - length chunk.records;
      next_sequence = (job.next_sequence + length chunk.records) % 2 ^ 32;
    }

    rest_next : AllNext oldest (add_at own (length chunk.records) t.retrieved) rest
    rest_next =
        AllNext-add_at oldest t.retrieved rest job.sensor_id (length chunk.records)
          (length t.retrieved) (omega (arith, sensors.0)) (omega (arith, sensors.0, sensors.1))
          sensors.2 distinct_of.0 next_of.1

    next_after :
        next_job.next_sequence
        ≡ (get_or oldest own 0 + get_or (add_at own (length chunk.records) t.retrieved) own 0)
          % 2 ^ 32
    next_after =
        let more : get_or (add_at own (length chunk.records) t.retrieved) own 0
            ≡ get_or t.retrieved own 0 + length chunk.records =
          ground (arith, get_or-add_at own (length chunk.records) own t.retrieved (omega arith)) in
        omega (arith, more, next_of.0)

    pub accept_chunk-IsTracked : IsTracked oldest (accept_chunk t job rest chunk)
    unfolding accept_chunk
    accept_chunk-IsTracked = choose (ltb 0 (job.remaining - length chunk.records))
      where
        choose :
            (b : Bool)
            → IsTracked oldest (record t {
              pending = if b then rest ++ (next_job ∷ []) else rest;
              retrieved = add_at own (length chunk.records) t.retrieved;
              records = stored job.sensor_id chunk.records t.records;
            })
        choose true = record {
          held = held_after;
          next = AllNext-append oldest _ rest next_job rest_next next_after;
          distinct = AllDistinct-append rest next_job distinct_of.1 distinct_of.0;
        }
        choose false = record { held = held_after; next = rest_next; distinct = distinct_of.1 }
