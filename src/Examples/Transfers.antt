-- ===== src/Examples/Transfers.antt =====
-- A transfer of two records, one of them lost, and a chunk.
use ece4880_project.Prelude.{
  ℕ, zero, suc, ◌≤◌, ◌+◌, ◌-◌, ◌%◌, ◌^◌, ◌≡◌, ◌↔◌, refl, true, false, none, some, [], ◌∷◌, arith,
  ok, get_or, ◌<◌,
}
use ece4880_project.Prelude.Int.{pos, ◌+ℤ◌, ◌-ℤ◌}
use ece4880_project.Protocol.Enums.{valid}
use ece4880_project.Protocol.Decode.{HistoryRecordValue, HistoryChunk, HistoryMeta}
use ece4880_project.History.{
  turn, check_sequences, accept_chunk, attempts, Round, Outcome, received, raised, Transfer,
  returned, begin, transfer, complete, closing, validate_chunk, timestamp,
}
use ece4880_project.History.Validate.{Answers, validate_chunk_iff}
use ece4880_project.History.Timestamp.{timestamp_of_older, timestamp_of_newer}
use ece4880_project.History.Progress.{HasEnded, transfer_ends}
use ece4880_project.History.Contents.{sequences_of, down_to}
use ece4880_project.History.Steps.{account}
use ece4880_project.History.Accounting.{account-le-counts, complete_of_no_failure}

abbrev record_at : ℕ → HistoryRecordValue
record_at n = record { sequence = n; temperature_c = some (pos 2150); data_status = valid }

abbrev one_chunk : HistoryChunk
one_chunk = record { sensor_id = 1; start_sequence = 5; records = record_at 5 ∷ record_at 6 ∷ [] }

abbrev two_records : HistoryMeta
two_records = record {
  boot_id = 9;
  newest_sequence = 6;
  counts = 2 ∷ 0 ∷ [];
  oldest_sequences = 5 ∷ 0 ∷ [];
}

-- The first attempt fails, the second one answers.
abbrev retried : ℕ → Outcome
retried zero = raised none
retried (suc n) = received one_chunk

abbrev good_round : ℕ → Round
good_round _ = record {
  in_time = true;
  records_per_chunk = some 20;
  outcome = retried;
  still_in_time = true;
  fresh_meta = none;
}

abbrev fetched : Transfer
fetched = record {
  pending = [];
  retrieved = 2 ∷ 0 ∷ [];
  records = (1, record_at 6) ∷ (1, record_at 5) ∷ [];
  failures = [];
  budget_expired = false;
}

fetched_lem : transfer 9 1 5 good_round (begin two_records) ≡ some (returned fetched)
unfolding transfer turn begin validate_chunk check_sequences accept_chunk attempts
fetched_lem = refl

transfer_ends_example : HasEnded 5 good_round (transfer 9 1 5 good_round (begin two_records))
unfolding begin
transfer_ends_example = transfer_ends 9 1 5 good_round (begin two_records) (omega arith)

account-le-counts_example : account 0 fetched ≤ 2
account-le-counts_example = account-le-counts two_records 1 5 good_round fetched refl fetched_lem 0

in_32_bits : (k : ℕ) → get_or two_records.oldest_sequences k 0 < 2 ^ 32
in_32_bits zero = omega arith
in_32_bits (suc zero) = omega arith
in_32_bits (suc (suc k)) = omega arith

complete_of_no_failure_example :
    (fetched.retrieved ≡ two_records.counts)
    × (complete two_records.counts fetched true ≡ true)
    × (sequences_of 1 fetched.records ≡ down_to 5 2)
unfolding closing
complete_of_no_failure_example =
    complete_of_no_failure two_records 1 5 good_round fetched refl fetched_lem true 0 in_32_bits
      refl

validate_chunk_iff_example : (validate_chunk one_chunk 1 5 2 ≡ ok tt) ↔ Answers one_chunk 1 5 2
validate_chunk_iff_example = validate_chunk_iff one_chunk 1 5 2 (omega arith)

-- The anchor's sequence has wrapped around to 1; the record is 3 samples older.
timestamp_of_older_example :
    timestamp ((2 ^ 32 + 1) % 2 ^ 32) (pos 5000) ((2 ^ 32 - 2) % 2 ^ 32) 1000 ≡ pos 5000 -ℤ pos 3000
timestamp_of_older_example =
    timestamp_of_older (2 ^ 32 + 1) (2 ^ 32 - 2) (pos 5000) 1000 (omega arith) (omega arith)

timestamp_of_newer_example :
    timestamp ((2 ^ 32 - 2) % 2 ^ 32) (pos 5000) ((2 ^ 32 + 1) % 2 ^ 32) 1000 ≡ pos 5000 +ℤ pos 3000
timestamp_of_newer_example =
    timestamp_of_newer (2 ^ 32 - 2) (2 ^ 32 + 1) (pos 5000) 1000 (omega arith) (omega arith)
