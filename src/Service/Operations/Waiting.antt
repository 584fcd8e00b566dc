-- ===== src/Service/Operations/Waiting.antt =====
-- The operations of backend/pc_client/ble_service.py, as their callers see them.
use ece4880_project.Prelude.{
  ℕ, suc, ◌<◌, ◌≡◌, ◌⊎◌, refl, true, false, not, some, List, [], ◌∷◌, ◌++◌, ◌==◌, if◌then◌else◌,
  arith, Bool-cases, inl, inr, ok, or_raise-eq-ok,
}
use ece4880_project.Service.Operations.{
  running, TrackedOperation, Table, Operations, is_active, find, update, prune_operations, fresh,
  new_operation, mark_running, succeed_operation, fail_operation, cancelled_by, cancel_operation,
  get_operation, operation_not_found, is_queued, Event, created, starts, succeeds, fails, cancels,
  pruned, step, run,
}

-- The event of an operation is set exactly where the operation is no longer active.
abbrev pub IsSettled : TrackedOperation → Type 0
IsSettled o = o.done ≡ not (is_active o.state)

abbrev pub AllSettled : ℕ → Table → Type 0
AllSettled next [] = Unit {0}
AllSettled next ((m, o) ∷ t) = IsSettled o × (m < next) × AllSettled next t

AllSettled-update :
    (next n : ℕ) (f : TrackedOperation → TrackedOperation) (t : Table)
    → ((o : TrackedOperation) → IsSettled o → IsSettled (f o))
    → AllSettled next t
    → AllSettled next (update n f t)
unfolding update
AllSettled-update next n f [] h a = tt
AllSettled-update next n f ((m, o) ∷ t) h (s, b, a) =
    ground (arith, h o s, AllSettled-update next n f t h a)

AllSettled-prune :
    (next now retention : ℕ) (t : Table)
    → AllSettled next t
    → AllSettled next (prune_operations now retention t)
unfolding prune_operations
AllSettled-prune next now retention [] a = tt
AllSettled-prune next now retention ((m, o) ∷ t) (s, b, a) =
    ground (arith, AllSettled-prune next now retention t a)

AllSettled-append :
    (next : ℕ) (o : TrackedOperation) (t : Table)
    → IsSettled o
    → AllSettled next t
    → AllSettled (suc next) (t ++ ((next, o) ∷ []))
AllSettled-append next o [] s a = (s, omega arith, tt)
AllSettled-append next o ((m, p) ∷ t) s (q, b, a) = (q, omega arith, AllSettled-append next o t s a)

-- Only a queued operation starts: then its event is not set.
AllSettled-start :
    (next n now : ℕ) (t : Table)
    → is_queued (find n t) ≡ true
    → AllSettled next t
    → AllSettled next (update n (λ o. record o { state = running; updated_at = now }) t)
unfolding find update
AllSettled-start next n now [] q a = tt
AllSettled-start next n now ((m, o) ∷ t) q (s, b, a) = ground (arith, AllSettled-start next n now t)

pub step-AllSettled :
    (now retention : ℕ) (s : Operations) (e : Event)
    → AllSettled s.next_id s.table
    → AllSettled (step now retention s e).next_id (step now retention s e).table
unfolding step new_operation mark_running succeed_operation fail_operation cancel_operation
step-AllSettled now retention s (created kind configured) a =
    AllSettled-append s.next_id (fresh kind configured now) _ refl
      (AllSettled-prune s.next_id now retention s.table a)
step-AllSettled now retention s (starts n) a =
    ground (arith, AllSettled-start s.next_id n now s.table, a)
step-AllSettled now retention s (succeeds n result) a =
    AllSettled-update s.next_id n _ s.table (λ o h. refl) a
step-AllSettled now retention s (fails n error) a =
    AllSettled-update s.next_id n _ s.table (λ o h. refl) a
step-AllSettled now retention s (cancels n reason) a =
    AllSettled-update s.next_id n (cancelled_by reason now) s.table (λ o h. ground arith) a
step-AllSettled now retention s pruned a = AllSettled-prune s.next_id now retention s.table a

run-AllSettled :
    (retention : ℕ) (s : Operations) (es : List (ℕ × Event))
    → AllSettled s.next_id s.table
    → AllSettled (run retention s es).next_id (run retention s es).table
unfolding run
run-AllSettled retention s [] a = a
run-AllSettled retention s ((now, e) ∷ es) a =
    run-AllSettled retention (step now retention s e) es (step-AllSettled now retention s e a)

find-AllSettled :
    (next n : ℕ) (t : Table) (o : TrackedOperation)
    → AllSettled next t
    → find n t ≡ some o
    → IsSettled o
unfolding find
find-AllSettled next n [] o a h = cc
find-AllSettled next n ((m, p) ∷ t) o (s, b, a) h = ground (arith, find-AllSettled next n t o a)

-- A number that is active stays in the table.
abbrev pub IsThere : ℕ → Table → Type 0
IsThere n t = (o : TrackedOperation) × (find n t ≡ some o)

find-update :
    (n k : ℕ) (f : TrackedOperation → TrackedOperation) (t : Table) (o : TrackedOperation)
    → find n t ≡ some o
    → find n (update k f t) ≡ some (if n == k then f o else o)
unfolding find update
find-update n k f [] o h = cc
find-update n k f ((m, p) ∷ t) o h = ground (arith, find-update n k f t o)

find-prune :
    (n now retention : ℕ) (t : Table) (o : TrackedOperation)
    → find n t ≡ some o
    → is_active o.state ≡ true
    → find n (prune_operations now retention t) ≡ some o
unfolding find prune_operations
find-prune n now retention [] o h active = cc
find-prune n now retention ((m, p) ∷ t) o h active = ground (arith, find-prune n now retention t o)

find-append :
    (n m : ℕ) (p o : TrackedOperation) (t : Table)
    → find n t ≡ some o
    → find n (t ++ ((m, p) ∷ [])) ≡ some o
unfolding find
find-append n m p o [] h = cc
find-append n m p o ((k, q) ∷ t) h = ground (arith, find-append n m p o t)

step-IsThere :
    (now retention n : ℕ) (s : Operations) (e : Event) (o : TrackedOperation)
    → find n s.table ≡ some o
    → is_active o.state ≡ true
    → IsThere n (step now retention s e).table
unfolding step new_operation mark_running succeed_operation fail_operation cancel_operation
step-IsThere now retention n s (created kind configured) o h active =
    (o, find-append n s.next_id _ o _ (find-prune n now retention s.table o h active))
step-IsThere now retention n s (starts k) o h active =
    elim (Bool-cases (is_queued (find k s.table))) [
      | inl q ↦ rw q (_, find-update n k _ s.table o h)
      | inr q ↦ rw q (o, h)
    ]
step-IsThere now retention n s (succeeds k result) o h active = (_, find-update n k _ s.table o h)
step-IsThere now retention n s (fails k error) o h active = (_, find-update n k _ s.table o h)
step-IsThere now retention n s (cancels k reason) o h active = (_, find-update n k _ s.table o h)
step-IsThere now retention n s pruned o h active =
    (o, find-prune n now retention s.table o h active)

abbrev pub no_operations : Operations
no_operations = record { table = []; next_id = 0 }

-- After any events, an operation that `get_operation` returns has its event set exactly where it has
-- ended, so that `wait_for_operation` waits for no operation that has ended; and one that is active
-- is still found after the next event, whatever it is, before which the call has pruned the table.
pub get_operation-run :
    (retention now later n : ℕ) (es : List (ℕ × Event)) (e : Event) (o : TrackedOperation)
    → (get_operation n now retention (run retention no_operations es)).0 ≡ ok o
    → IsSettled o
      × ((is_active o.state ≡ false)
          ⊎ IsThere n
              (step later retention
                (get_operation n now retention (run retention no_operations es)).1
                e).table)
unfolding get_operation
get_operation-run retention now later n es e o got =
    let s = run retention no_operations es in
    let kept = prune_operations now retention s.table in
    let settled = run-AllSettled retention no_operations es tt in
    let here : find n kept ≡ some o = or_raise-eq-ok (find n kept) operation_not_found got in
    (
      find-AllSettled s.next_id n kept o (AllSettled-prune s.next_id now retention s.table settled)
          here,
      elim (Bool-cases (is_active o.state)) [
        | inl active ↦
            inr (step-IsThere later retention n (record s { table = kept }) e o here active)
        | inr ended ↦ inl ended
      ],
    )
