-- ===== src/Scheduler/Settling.antt =====
-- No caller of the scheduler of backend/pc_client/ble_scheduler.py waits for ever.
use ece4880_project.Prelude.{
  if◌then◌else◌, ap, ℕ, ◌<◌, ◌≡◌, refl, Bool, true, false, ◌||◌, Option, none, some, List, [], ◌∷◌,
  arith, ◌==◌,
}
use ece4880_project.Futures.{is_done, settle, is_done-settle}
use ece4880_project.Scheduler.{
  is_cancelled, start, started, ScheduledRequest, RequestPriority, priority_number, Scheduler,
  Settled, Event, put, submit, cancel, take_next, start_next, run_next, end_running, finish,
  fail_pending, stop, step, run, submitted, caller_cancelled, taken, finished, stopped, initial,
}

-- the request waits in the queue
abbrev pub is_queued : ℕ → List ScheduledRequest → Bool
is_queued n [] = false
is_queued n (q ∷ qs) = n == q.sequence || is_queued n qs

abbrev pub is_running : ℕ → Option ScheduledRequest → Bool
is_running n none = false
is_running n (some r) = n == r.sequence

-- Every request that was submitted is settled, running or queued.
abbrev pub IsAccounted : Scheduler → Type 0
IsAccounted s =
    (n : ℕ)
    → n < s.next_sequence
    → (is_done n s.settled || (is_running n s.running || is_queued n s.queue)) ≡ true

is_queued-put :
    (n : ℕ) (r : ScheduledRequest) (qs : List ScheduledRequest)
    → is_queued n (put r qs) ≡ (n == r.sequence || is_queued n qs)
unfolding put
is_queued-put n r [] = refl
is_queued-put n r (q ∷ qs) = ground (arith, is_queued-put n r qs)

is_done-fail_pending :
    (n : ℕ) (qs : List ScheduledRequest) (d : List (ℕ × Settled))
    → is_done n (fail_pending qs d) ≡ (is_queued n qs || is_done n d)
unfolding fail_pending
is_done-fail_pending n [] d = refl
is_done-fail_pending n (q ∷ qs) d = ground (
  arith,
  is_done-fail_pending n qs (settle q.sequence Settled.failed d),
  is_done-settle n q.sequence Settled.failed d,
)

submit-IsAccounted :
    (ready : Bool) (p : RequestPriority) (s : Scheduler)
    → IsAccounted s
    → IsAccounted (submit ready p s)
unfolding submit
submit-IsAccounted false p s h n below = h n below
submit-IsAccounted true p s h n below =
    let r : ScheduledRequest = record {
      priority = priority_number p;
      sequence = s.next_sequence;
    } in
    ground (arith, h n, is_queued-put n r s.queue)

is_done_of_cancelled :
    (n : ℕ) (d : List (ℕ × Settled)) → is_cancelled n d ≡ true → is_done n d ≡ true
is_done_of_cancelled n [] h = cc
is_done_of_cancelled n ((m, o) ∷ d) h = ground (arith, is_done_of_cancelled n d)

is_done_same_number : (n m : ℕ) (d : List (ℕ × Settled)) → n ≡ m → is_done n d ≡ is_done m d
is_done_same_number n m d h = ap (λ k. is_done k d) h

take_next-IsAccounted :
    (ready : Bool) (s : Scheduler) (qs : List ScheduledRequest)
    → s.running ≡ none
    → s.queue ≡ qs
    → IsAccounted s
    → IsAccounted (take_next ready s qs)
take_next-IsAccounted ready s [] idle e h n below = h n below
take_next-IsAccounted ready s (r ∷ rest) idle e h n below =
    let below0 : n < s.next_sequence = ground (arith, below) in
    let k : (is_done n s.settled || (false || (n == r.sequence || is_queued n rest))) ≡ true =
      rw (idle, e) at (h n below0) in
    ground (
      arith,
      k,
      is_done-settle n r.sequence Settled.failed s.settled,
      idle,
      is_done_of_cancelled r.sequence s.settled,
      is_done_same_number n r.sequence s.settled,
    )

end_running-IsAccounted :
    (outcome : Settled) (s : Scheduler) (o : Option ScheduledRequest)
    → s.running ≡ o
    → IsAccounted s
    → IsAccounted (end_running outcome s o)
end_running-IsAccounted outcome s none e h n below = h n below
end_running-IsAccounted outcome s (some r) e h n below =
    let k : (is_done n s.settled || (n == r.sequence || is_queued n s.queue)) ≡ true =
      rw e at (h n below) in
    ground (arith, k, is_done-settle n r.sequence outcome s.settled)

finish-IsAccounted :
    (outcome : Settled) (s : Scheduler) → IsAccounted s → IsAccounted (finish outcome s)
unfolding finish
finish-IsAccounted outcome s h = end_running-IsAccounted outcome s s.running refl h

run_next-IsAccounted :
    (ready : Bool) (s : Scheduler) → IsAccounted s → IsAccounted (run_next ready s)
unfolding run_next
run_next-IsAccounted ready s h = choose s.working
  where
    go : (o : Option ScheduledRequest) → s.running ≡ o → IsAccounted (start_next ready s o)
    go none e = take_next-IsAccounted ready s s.queue e refl h
    go (some r) e = h

    choose : (working : Bool) → IsAccounted (if working then start_next ready s s.running else s)
    choose true = go s.running refl
    choose false = h

cancel-IsAccounted : (m : ℕ) (s : Scheduler) → IsAccounted s → IsAccounted (cancel m s)
unfolding cancel
cancel-IsAccounted m s h n below =
    ground (arith, h n below, is_done-settle n m Settled.cancelled s.settled)

end_running_next_sequence :
    (outcome : Settled) (s : Scheduler) (o : Option ScheduledRequest)
    → (end_running outcome s o).next_sequence ≡ s.next_sequence
end_running_next_sequence outcome s none = refl
end_running_next_sequence outcome s (some r) = refl

end_running_idle :
    (outcome : Settled) (s : Scheduler) (o : Option ScheduledRequest)
    → s.running ≡ o
    → (end_running outcome s o).running ≡ none
end_running_idle outcome s none e = e
end_running_idle outcome s (some r) e = refl

finish_idle : (outcome : Settled) (s : Scheduler) → (finish outcome s).running ≡ none
unfolding finish
finish_idle outcome s = end_running_idle outcome s s.running refl

finish_next_sequence :
    (outcome : Settled) (s : Scheduler) → (finish outcome s).next_sequence ≡ s.next_sequence
unfolding finish
finish_next_sequence outcome s = end_running_next_sequence outcome s s.running

stop_next_sequence : (s : Scheduler) → (stop s).next_sequence ≡ s.next_sequence
unfolding stop
stop_next_sequence s = finish_next_sequence Settled.cancelled s

stop_settles :
    (s : Scheduler)
    → IsAccounted s
    → (n : ℕ) → n < (stop s).next_sequence
    → is_done n (stop s).settled ≡ true
unfolding stop
stop_settles s h n below =
    let s' = finish Settled.cancelled s in
    let k : (is_done n s'.settled || (is_running n none || is_queued n s'.queue)) ≡ true =
      rw (finish_idle Settled.cancelled s) at (finish-IsAccounted Settled.cancelled s h n below) in
    ground (arith, k, is_done-fail_pending n s'.queue s'.settled)

step-IsAccounted : (s : Scheduler) (e : Event) → IsAccounted s → IsAccounted (step s e)
unfolding step start
step-IsAccounted s (submitted ready p) h n below = submit-IsAccounted ready p s h n below
step-IsAccounted s (caller_cancelled m) h n below = cancel-IsAccounted m s h n below
step-IsAccounted s started h n below = h n below
step-IsAccounted s (taken ready) h n below = run_next-IsAccounted ready s h n below
step-IsAccounted s (finished outcome) h n below = finish-IsAccounted outcome s h n below
step-IsAccounted s stopped h n below = ground (arith, stop_settles s h n below)

run-IsAccounted : (s : Scheduler) (es : List Event) → IsAccounted s → IsAccounted (run s es)
unfolding run
run-IsAccounted s [] h = h
run-IsAccounted s (e ∷ es) h = run-IsAccounted (step s e) es (step-IsAccounted s e h)

initial-IsAccounted : IsAccounted initial
initial-IsAccounted n below = absurd (omega arith)

-- After any events, every request that was submitted is settled, running or still queued: none is
-- forgotten. Stopping the scheduler then settles every one of them.
pub stop-settles_all :
    (es : List Event) (n : ℕ)
    → n < (run initial es).next_sequence
    → ((is_done n (run initial es).settled
          || (is_running n (run initial es).running || is_queued n (run initial es).queue))
        ≡ true)
      × (is_done n (stop (run initial es)).settled ≡ true)
stop-settles_all es n below =
    let kept = run-IsAccounted initial es initial-IsAccounted in
    (
      kept n below,
      stop_settles (run initial es) kept n (rw (stop_next_sequence (run initial es)) below),
    )
