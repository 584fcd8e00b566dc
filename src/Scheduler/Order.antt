-- ===== src/Scheduler/Order.antt =====
-- The order in which the scheduler of backend/pc_client/ble_scheduler.py runs its requests.
use ece4880_project.Prelude.{
  if◌then◌else◌, ℕ, suc, ◌<◌, ◌≡◌, ◌⊎◌, inl, inr, refl, Bool, true, false, Option, none, some, List,
  [], ◌∷◌, arith, Bool-cases,
}
use ece4880_project.Scheduler.{
  start, started, ScheduledRequest, RequestPriority, Scheduler, Event, before, put, submit, cancel,
  take_next, start_next, run_next, finish, stop, step, run, submitted, caller_cancelled, taken,
  finished, stopped, initial,
}

-- Each request is before all that follow it.
abbrev pub AllAfter : ScheduledRequest → List ScheduledRequest → Type 0
AllAfter r [] = Unit {0}
AllAfter r (q ∷ qs) = (before r q ≡ true) × AllAfter r qs

abbrev pub IsOrdered : List ScheduledRequest → Type 0
IsOrdered [] = Unit {0}
IsOrdered (q ∷ qs) = AllAfter q qs × IsOrdered qs

abbrev pub AllBelow : ℕ → List ScheduledRequest → Type 0
AllBelow n [] = Unit {0}
AllBelow n (q ∷ qs) = (q.sequence < n) × AllBelow n qs

before_trans :
    (a b c : ScheduledRequest) → before a b ≡ true → before b c ≡ true → before a c ≡ true
before_trans a b c h k = ground arith

AllAfter-trans :
    (a b : ScheduledRequest) (qs : List ScheduledRequest)
    → before a b ≡ true
    → AllAfter b qs
    → AllAfter a qs
AllAfter-trans a b [] h k = tt
AllAfter-trans a b (q ∷ qs) h (k, ks) = (before_trans a b q h k, AllAfter-trans a b qs h ks)

AllAfter-put :
    (a r : ScheduledRequest) (qs : List ScheduledRequest)
    → before a r ≡ true
    → AllAfter a qs
    → AllAfter a (put r qs)
unfolding put
AllAfter-put a r [] h k = (h, tt)
AllAfter-put a r (q ∷ qs) h (k, ks) = ground (arith, AllAfter-put a r qs h ks)

before_total :
    (a b : ScheduledRequest) → b.sequence < a.sequence → before a b ≡ false → before b a ≡ true
before_total a b h k = ground arith

IsOrdered-put :
    (r : ScheduledRequest) (qs : List ScheduledRequest)
    → AllBelow r.sequence qs
    → IsOrdered qs
    → IsOrdered (put r qs)
unfolding put
IsOrdered-put r [] b o = (tt, tt)
IsOrdered-put r (q ∷ qs) (b, bs) (o, os) = elim (Bool-cases (before r q)) [
  | inl e ↦ rw e ((e, AllAfter-trans r q qs e o), (o, os))
  | inr e ↦ rw e (AllAfter-put q r qs (before_total r q b e) o, IsOrdered-put r qs bs os)
]

AllBelow-put :
    (n : ℕ) (r : ScheduledRequest) (qs : List ScheduledRequest)
    → r.sequence < n
    → AllBelow n qs
    → AllBelow n (put r qs)
unfolding put
AllBelow-put n r [] h k = (h, tt)
AllBelow-put n r (q ∷ qs) h (k, ks) = ground (arith, AllBelow-put n r qs h ks)

AllBelow-suc : (n : ℕ) (qs : List ScheduledRequest) → AllBelow n qs → AllBelow (suc n) qs
AllBelow-suc n [] h = tt
AllBelow-suc n (q ∷ qs) (h, hs) = (omega arith, AllBelow-suc n qs hs)

pub record IsSorted (s : Scheduler) : Type 0 where
  pub ordered : IsOrdered s.queue
  pub below : AllBelow s.next_sequence s.queue

submit-IsSorted :
    (ready : Bool) (p : RequestPriority) (s : Scheduler) → IsSorted s → IsSorted (submit ready p s)
unfolding submit
submit-IsSorted false p s h = h
submit-IsSorted true p s h = record {
  ordered = IsOrdered-put _ s.queue h.below h.ordered;
  below =
      AllBelow-put (suc s.next_sequence) _ s.queue (omega arith)
        (AllBelow-suc s.next_sequence s.queue h.below);
}

take_next-IsSorted :
    (ready : Bool) (s : Scheduler) (qs : List ScheduledRequest)
    → s.queue ≡ qs
    → IsSorted s
    → IsSorted (take_next ready s qs)
take_next-IsSorted ready s [] e h = h
take_next-IsSorted ready s (r ∷ rest) e h =
    let o : IsOrdered (r ∷ rest) = rw e at h.ordered in
    let b : AllBelow s.next_sequence (r ∷ rest) = rw e at h.below in ground (arith, o, b)

-- Every event keeps the queue in order.
step-IsSorted : (s : Scheduler) (e : Event) → IsSorted s → IsSorted (step s e)
unfolding step start cancel run_next finish stop
step-IsSorted s (submitted ready p) h = submit-IsSorted ready p s h
step-IsSorted s (caller_cancelled n) h = record { ordered = h.ordered; below = h.below }
step-IsSorted s started h = record { ordered = h.ordered; below = h.below }
step-IsSorted s (taken ready) h = ground (arith, go s.running)
  where
    go : (o : Option ScheduledRequest) → IsSorted (start_next ready s o)
    go none = take_next-IsSorted ready s s.queue refl h
    go (some r) = h
step-IsSorted s (finished outcome) h = ground arith
step-IsSorted s stopped h = record { ordered = tt; below = tt }

run-IsSorted : (s : Scheduler) (es : List Event) → IsSorted s → IsSorted (run s es)
unfolding run
run-IsSorted s [] h = h
run-IsSorted s (e ∷ es) h = run-IsSorted (step s e) es (step-IsSorted s e h)

-- A smaller priority number, or the same one and an earlier submission.
abbrev pub Precedes : ScheduledRequest → ScheduledRequest → Type 0
Precedes r q = (r.priority < q.priority) ⊎ ((r.priority ≡ q.priority) × (r.sequence < q.sequence))

abbrev pub PrecedesAll : ScheduledRequest → List ScheduledRequest → Type 0
PrecedesAll r [] = Unit {0}
PrecedesAll r (q ∷ qs) = Precedes r q × PrecedesAll r qs

before-Precedes : (r q : ScheduledRequest) → before r q ≡ true → Precedes r q
before-Precedes r q h = ground arith

AllAfter-PrecedesAll :
    (r : ScheduledRequest) (qs : List ScheduledRequest) → AllAfter r qs → PrecedesAll r qs
AllAfter-PrecedesAll r [] h = tt
AllAfter-PrecedesAll r (q ∷ qs) (h, hs) = (before-Precedes r q h, AllAfter-PrecedesAll r qs hs)

take_next-running :
    (s : Scheduler) (qs : List ScheduledRequest) (r : ScheduledRequest)
    → s.running ≡ none
    → s.queue ≡ qs
    → (take_next true s qs).running ≡ some r
    → s.queue ≡ r ∷ (take_next true s qs).queue
take_next-running s [] r n e h = cc
take_next-running s (q ∷ qs) r n e h = ground arith

head-PrecedesAll :
    (s : Scheduler) (r : ScheduledRequest) (rest : List ScheduledRequest)
    → IsSorted s
    → s.queue ≡ r ∷ rest
    → PrecedesAll r rest
head-PrecedesAll s r rest h e =
    let o : IsOrdered (r ∷ rest) = rw e at h.ordered in AllAfter-PrecedesAll r rest o.0

start_next-PrecedesAll :
    (s : Scheduler) (r : ScheduledRequest) (o : Option ScheduledRequest)
    → IsSorted s
    → s.running ≡ none
    → o ≡ none
    → (start_next true s o).running ≡ some r
    → (s.queue ≡ r ∷ (start_next true s o).queue) × PrecedesAll r (start_next true s o).queue
start_next-PrecedesAll s r none h idle n starts =
    let e = take_next-running s s.queue r idle refl starts in
    (e, head-PrecedesAll s r (take_next true s s.queue).queue h e)
start_next-PrecedesAll s r (some q) h idle n starts = cc

worked-PrecedesAll :
    (s : Scheduler) (r : ScheduledRequest) (working : Bool)
    → IsSorted s
    → s.running ≡ none
    → (if working then start_next true s s.running else s).running ≡ some r
    → (s.queue ≡ r ∷ (if working then start_next true s s.running else s).queue)
      × PrecedesAll r (if working then start_next true s s.running else s).queue
worked-PrecedesAll s r true h idle starts = start_next-PrecedesAll s r s.running h idle idle starts
worked-PrecedesAll s r false h idle starts = cc

-- After any events, an idle worker that starts a request takes the one at the head of the queue, and
-- every request left in the queue has a larger priority number, or the same one and was submitted
-- later.
pub run_next-PrecedesAll :
    (es : List Event) (r : ScheduledRequest)
    → (run initial es).running ≡ none
    → (run_next true (run initial es)).running ≡ some r
    → ((run initial es).queue ≡ r ∷ (run_next true (run initial es)).queue)
      × PrecedesAll r (run_next true (run initial es)).queue
unfolding run_next
run_next-PrecedesAll es r idle starts =
    let sorted : IsSorted (run initial es) =
      run-IsSorted initial es (record { ordered = tt; below = tt }) in
    worked-PrecedesAll (run initial es) r (run initial es).working sorted idle starts
