-- ===== src/History/Jobs.antt =====
-- The jobs with which the transfer loop of backend/pc_client/history_sync.py begins.
use ece4880_project.Prelude.{
  ℕ, zero, suc, ◌+◌, ◌≤◌, ◌<◌, ◌≡◌, refl, ap, ◌∙◌, Bool, true, false, List, [], ◌∷◌, ◌-◌, ◌^◌, ltb,
  arith, length, get_or, if◌then◌else◌,
}
use ece4880_project.History.{jobs, zeros}
use ece4880_project.History.Steps.{wanted, AllSensors}
use ece4880_project.History.Contents.{IsAbsent, AllDistinct, AllNext}

pub jobs-below :
    (s m : ℕ) (counts oldest : List ℕ) → m + 1 < s → wanted m (jobs s counts oldest) ≡ 0
jobs-below s m [] [] h = refl
jobs-below s m [] (q ∷ qs) h = refl
jobs-below s m (n ∷ ns) [] h = refl
jobs-below s m (n ∷ ns) (q ∷ qs) h = ground (arith, jobs-below (s + 1) m ns qs (omega arith))

pub jobs-wanted :
    (s m i : ℕ) (counts oldest : List ℕ)
    → m + 1 ≡ s + i
    → length counts ≡ length oldest
    → wanted m (jobs s counts oldest) ≡ get_or counts i 0
jobs-wanted s m i [] [] e h = refl
jobs-wanted s m i [] (q ∷ qs) e h = absurd (omega arith)
jobs-wanted s m i (n ∷ ns) [] e h = absurd (omega arith)
jobs-wanted s m zero (n ∷ ns) (q ∷ qs) e h =
    ground (arith, jobs-below (s + 1) m ns qs (omega arith))
jobs-wanted s m (suc i) (n ∷ ns) (q ∷ qs) e h =
    ground (arith, jobs-wanted (s + 1) m i ns qs (omega arith) (omega arith))

pub jobs-AllSensors :
    (s n : ℕ) (counts oldest : List ℕ)
    → 1 ≤ s
    → s + length counts ≤ n + 1
    → AllSensors n (jobs s counts oldest)
jobs-AllSensors s n [] [] lo hi = tt
jobs-AllSensors s n [] (q ∷ qs) lo hi = tt
jobs-AllSensors s n (c ∷ cs) [] lo hi = tt
jobs-AllSensors s n (c ∷ cs) (q ∷ qs) lo hi =
    ground (arith, jobs-AllSensors (s + 1) n cs qs (omega arith) (omega arith))

pub length-zeros : (ns : List ℕ) → length (zeros ns) ≡ length ns
length-zeros [] = refl
length-zeros (n ∷ ns) = ap suc (length-zeros ns)

pub get_or-zeros : (ns : List ℕ) (i : ℕ) → get_or (zeros ns) i 0 ≡ 0
get_or-zeros [] i = refl
get_or-zeros (n ∷ ns) zero = refl
get_or-zeros (n ∷ ns) (suc i) = get_or-zeros ns i

-- The jobs of the metadata are of different sensors, and begin at the oldest sequences.
pub IsAbsent-jobs : (k s : ℕ) (counts oldest : List ℕ) → k < s → IsAbsent k (jobs s counts oldest)
IsAbsent-jobs k s [] [] h = tt
IsAbsent-jobs k s [] (q ∷ qs) h = tt
IsAbsent-jobs k s (n ∷ ns) [] h = tt
IsAbsent-jobs k s (n ∷ ns) (q ∷ qs) h =
    choose (ltb 0 n) (IsAbsent-jobs k (s + 1) ns qs (omega arith))
  where
    choose :
        (b : Bool)
        → IsAbsent k (jobs (s + 1) ns qs)
        → IsAbsent k (
            if b
            then record { sensor_id = s; remaining = n; next_sequence = q } ∷ jobs (s + 1) ns qs
            else jobs (s + 1) ns qs)
    choose true later = ((λ e. absurd (omega arith)), later)
    choose false later = later

pub AllDistinct-jobs : (s : ℕ) (counts oldest : List ℕ) → AllDistinct (jobs s counts oldest)
AllDistinct-jobs s [] [] = tt
AllDistinct-jobs s [] (q ∷ qs) = tt
AllDistinct-jobs s (n ∷ ns) [] = tt
AllDistinct-jobs s (n ∷ ns) (q ∷ qs) = choose (ltb 0 n) (AllDistinct-jobs (s + 1) ns qs)
  where
    choose :
        (b : Bool)
        → AllDistinct (jobs (s + 1) ns qs)
        → AllDistinct (
            if b
            then record { sensor_id = s; remaining = n; next_sequence = q } ∷ jobs (s + 1) ns qs
            else jobs (s + 1) ns qs)
    choose true later = (IsAbsent-jobs s (s + 1) ns qs (omega arith), later)
    choose false later = later

pub AllNext-jobs :
    (s : ℕ) (counts oldest all retrieved : List ℕ)
    → 1 ≤ s
    → ((i : ℕ) → get_or all (s - 1 + i) 0 ≡ get_or oldest i 0)
    → ((i : ℕ) → get_or all i 0 < 2 ^ 32)
    → ((i : ℕ) → get_or retrieved i 0 ≡ 0)
    → AllNext all retrieved (jobs s counts oldest)
AllNext-jobs s [] [] all retrieved lo same small nothing = tt
AllNext-jobs s [] (q ∷ qs) all retrieved lo same small nothing = tt
AllNext-jobs s (n ∷ ns) [] all retrieved lo same small nothing = tt
AllNext-jobs s (n ∷ ns) (q ∷ qs) all retrieved lo same small nothing = choose (ltb 0 n) (
    AllNext-jobs (s + 1) ns qs all retrieved (omega arith)
      (λ i.
        let e : s + 1 - 1 + i ≡ s - 1 + suc i = omega arith in
        ap (λ k. get_or all k 0) e ∙ same (suc i))
      small nothing)
  where
    here : get_or all (s - 1) 0 ≡ q
    here = let e : s - 1 ≡ s - 1 + 0 = omega arith in ap (λ k. get_or all k 0) e ∙ same 0

    choose :
        (b : Bool)
        → AllNext all retrieved (jobs (s + 1) ns qs)
        → AllNext all retrieved (
            if b
            then record { sensor_id = s; remaining = n; next_sequence = q } ∷ jobs (s + 1) ns qs
            else jobs (s + 1) ns qs)
    choose true later = (omega (arith, here, small (s - 1), nothing (s - 1)), later)
    choose false later = later
