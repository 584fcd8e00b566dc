-- ===== src/History/Accounting.antt =====
-- What the transfer loop of backend/pc_client/history_sync.py owes and has retrieved, by sensor.
use mathlib.Core.Path.{subst, ap₂}
use native.Mathlib.Nat.{zero-add}
use ece4880_project.Prelude.{
  ℕ, zero, suc, ◌+◌, ◌≤◌, ◌<◌, ◌≡◌, refl, sym, ap, ◌∙◌, Bool, true, false, not, ◌||◌, some, List,
  [], ◌∷◌, ◌++◌, ◌^◌, arith, length, get_or, inl, inr, if◌then◌else◌,
}
use ece4880_project.Protocol.Decode.{HistoryMeta}
use ece4880_project.History.{
  Job, Transfer, Round, Failure, turn, transfer, begin, returned, interrupted, zeros, closing,
  complete, is_empty, same_list, over_budget, rebooted,
}
use ece4880_project.History.Progress.{Step-cases}
use ece4880_project.History.Steps.{wanted, account, AllSensors, Keeps, turn-Keeps, Keeps-trans}
use ece4880_project.History.Contents.{sequences_of, down_to, IsTracked}
use ece4880_project.History.Tracking.{Tracks, turn-Tracks}
use ece4880_project.History.Jobs.{
  jobs-wanted, jobs-AllSensors, length-zeros, get_or-zeros, AllDistinct-jobs, AllNext-jobs,
}

transfer-Keeps :
    (boot_id retries fuel : ℕ) (rounds : ℕ → Round) (t t' : Transfer)
    → AllSensors (length t.retrieved) t.pending
    → transfer boot_id retries fuel rounds t ≡ some (returned t')
    → Keeps (length t.retrieved) t t'
unfolding transfer
transfer-Keeps boot_id retries zero rounds t t' h e = cc
transfer-Keeps boot_id retries (suc fuel) rounds t t' h e =
    elim (Step-cases (turn boot_id retries (rounds 0) t)) [
      | inl (u, s) ↦
          let last : some (returned u) ≡ some (returned t') = rw (s, transfer) at e in
          let kept : Keeps (length t.retrieved) t u =
            rw s at (turn-Keeps boot_id retries (rounds 0) t h) in
          subst (Keeps (length t.retrieved) t) (cc) kept
      | inr (inl (u, s)) ↦
          let kept : Keeps (length t.retrieved) t u =
            rw s at (turn-Keeps boot_id retries (rounds 0) t h) in
          let same = kept.same_length in
          let later : transfer boot_id retries fuel (λ n. rounds (suc n)) u ≡ some (returned t') =
            rw (s, transfer) at e in
          Keeps-trans kept (
            subst (λ n. Keeps n u t') same
              (transfer-Keeps boot_id retries fuel (λ n. rounds (suc n)) u t'
                (subst (λ n. AllSensors n u.pending) (sym same) kept.sensors) later))
      | inr (inr s) ↦
          let never : some interrupted ≡ some (returned t') = rw (s, transfer) at e in
          absurd (cc never)
    ]

transfer-Tracks :
    (oldest : List ℕ) (boot_id retries fuel : ℕ) (rounds : ℕ → Round) (t t' : Transfer)
    → AllSensors (length t.retrieved) t.pending
    → transfer boot_id retries fuel rounds t ≡ some (returned t')
    → Tracks oldest t t'
unfolding transfer
transfer-Tracks oldest boot_id retries zero rounds t t' h e = cc
transfer-Tracks oldest boot_id retries (suc fuel) rounds t t' h e =
    elim (Step-cases (turn boot_id retries (rounds 0) t)) [
      | inl (u, s) ↦
          let last : some (returned u) ≡ some (returned t') = rw (s, transfer) at e in
          let kept : Tracks oldest t u =
            rw s at (turn-Tracks oldest boot_id retries (rounds 0) t h) in
          subst (Tracks oldest t) (cc) kept
      | inr (inl (u, s)) ↦
          let kept : Keeps (length t.retrieved) t u =
            rw s at (turn-Keeps boot_id retries (rounds 0) t h) in
          let tracked : Tracks oldest t u =
            rw s at (turn-Tracks oldest boot_id retries (rounds 0) t h) in
          let later : transfer boot_id retries fuel (λ n. rounds (suc n)) u ≡ some (returned t') =
            rw (s, transfer) at e in
          let rest =
            transfer-Tracks oldest boot_id retries fuel (λ n. rounds (suc n)) u t'
              (subst (λ n. AllSensors n u.pending) (sym kept.same_length) kept.sensors) later in
          λ none_left.
            let (f, k) = rest none_left in let (f', k') = tracked f in (f', λ known. k (k' known))
      | inr (inr s) ↦
          let never : some interrupted ≡ some (returned t') = rw (s, transfer) at e in
          absurd (cc never)
    ]

eq_of_get_or :
    (xs ys : List ℕ) → length xs ≡ length ys → ((i : ℕ) → get_or xs i 0 ≡ get_or ys i 0) → xs ≡ ys
eq_of_get_or [] [] h e = refl
eq_of_get_or [] (y ∷ ys) h e = absurd (omega arith)
eq_of_get_or (x ∷ xs) [] h e = absurd (omega arith)
eq_of_get_or (x ∷ xs) (y ∷ ys) h e =
    ap₂ ◌∷◌ (e 0) (eq_of_get_or xs ys (omega arith) (λ i. e (suc i)))

same_list_refl : (xs : List ℕ) → same_list xs xs ≡ true
same_list_refl [] = refl
same_list_refl (x ∷ xs) = ground (arith, same_list_refl xs)

closing_nil :
    (t : Transfer) (same_boot : Bool)
    → closing t same_boot ≡ []
    → (t.failures ≡ []) × (t.pending ≡ []) × (t.budget_expired ≡ false)
unfolding closing
closing_nil t same_boot h = parts t.failures t.pending t.budget_expired h
  where
    parts :
        (fs : List Failure) (p : List Job) (b : Bool)
        → fs
            ++ ((if not (is_empty p) || b then over_budget ∷ [] else [])
                ++ (if same_boot then [] else rebooted ∷ []))
          ≡ []
        → (fs ≡ []) × (p ≡ []) × (b ≡ false)
    parts [] [] false e = (refl, refl, refl)
    parts [] [] true e = cc
    parts [] (j ∷ p) b e = cc
    parts (f ∷ fs) p b e = cc

module _ (meta : HistoryMeta) (retries fuel : ℕ) (rounds : ℕ → Round) (t' : Transfer)
    (both : length meta.counts ≡ length meta.oldest_sequences)
    (ran : transfer meta.boot_id retries fuel rounds (begin meta) ≡ some (returned t')) where
  begin-Keeps : Keeps (length meta.counts) (begin meta) t'
  unfolding begin
  begin-Keeps =
      subst (λ n. Keeps n (begin meta) t') (length-zeros meta.counts)
        (transfer-Keeps meta.boot_id retries fuel rounds (begin meta) t'
          (subst (λ n. AllSensors n (begin meta).pending) (sym (length-zeros meta.counts))
            (jobs-AllSensors 1 (length meta.counts) meta.counts meta.oldest_sequences (omega arith)
              (omega arith)))
          ran)

  begin-account : (i : ℕ) → account i (begin meta) ≡ get_or meta.counts i 0
  unfolding begin
  begin-account i =
      ap₂ ◌+◌ (get_or-zeros meta.counts i)
        (jobs-wanted 1 i i meta.counts meta.oldest_sequences (omega arith) both)
      ∙ zero-add _

  length-begin : length (begin meta).retrieved ≡ length meta.counts
  unfolding begin
  length-begin = length-zeros meta.counts

  -- After a transfer that started from metadata with as many counts as oldest sequences, and that
  -- returned, the records retrieved for a sensor and those still wanted are together at most what the
  -- metadata counted.
  pub account-le-counts : (i : ℕ) → account i t' ≤ get_or meta.counts i 0
  account-le-counts i = rw (← begin-account i) (begin-Keeps.never_more i)

  settled :
      (i : ℕ)
      → t'.pending ≡ []
      → account i t' ≡ account i (begin meta)
      → get_or t'.retrieved i 0 ≡ get_or meta.counts i 0
  settled i p e = omega (arith, e, begin-account i, ap (wanted i) p)

  begin-IsTracked :
      ((i : ℕ) → get_or meta.oldest_sequences i 0 < 2 ^ 32)
      → IsTracked meta.oldest_sequences (begin meta)
  unfolding begin
  begin-IsTracked small = record {
    held = λ i. rw (get_or-zeros meta.counts i) refl;
    next =
        AllNext-jobs 1 meta.counts meta.oldest_sequences meta.oldest_sequences (zeros meta.counts)
          (omega arith) (λ i. ap (λ k. get_or meta.oldest_sequences k 0) (zero-add i)) small
          (get_or-zeros meta.counts);
    distinct = AllDistinct-jobs 1 meta.counts meta.oldest_sequences;
  }

  begin-Tracks : Tracks meta.oldest_sequences (begin meta) t'
  unfolding begin
  begin-Tracks =
      transfer-Tracks meta.oldest_sequences meta.boot_id retries fuel rounds (begin meta) t'
        (subst (λ n. AllSensors n (begin meta).pending) (sym (length-zeros meta.counts))
          (jobs-AllSensors 1 (length meta.counts) meta.counts meta.oldest_sequences (omega arith)
            (omega arith)))
        ran

  -- After a transfer that started from metadata with as many counts as oldest sequences, which fit 32
  -- bits, and that returned: if no failure is recorded, the result is complete, and what is stored for
  -- each sensor are as many records as the metadata counted, with the sequences from the oldest one on,
  -- modulo 2 ^ 32, one after the other. So a record that is lost always leaves a failure.
  pub complete_of_no_failure :
      (same_boot : Bool) (i : ℕ)
      → ((k : ℕ) → get_or meta.oldest_sequences k 0 < 2 ^ 32)
      → closing t' same_boot ≡ []
      → (t'.retrieved ≡ meta.counts)
        × (complete meta.counts t' same_boot ≡ true)
        × (sequences_of (i + 1) t'.records
            ≡ down_to (get_or meta.oldest_sequences i 0) (get_or meta.counts i 0))
  unfolding complete
  complete_of_no_failure same_boot i small none_left =
      let (f, p, b) = closing_nil t' same_boot none_left in
      let (_, _, kept) = begin-Keeps.no_loss f b in
      let all : t'.retrieved ≡ meta.counts =
        eq_of_get_or t'.retrieved meta.counts (begin-Keeps.same_length ∙ length-begin)
          (λ i. settled i p (kept i)) in
      let (_, track) = begin-Tracks f in
      (
        all,
        rw (all, none_left) (ground (arith, same_list_refl meta.counts)),
        rw all at ((track (begin-IsTracked small)).held i),
      )
