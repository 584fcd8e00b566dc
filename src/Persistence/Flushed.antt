-- ===== src/Persistence/Flushed.antt =====
-- The futures that backend/pc_client/persistence_worker.py hands out are all settled.
use ece4880_project.Prelude.{
  ℕ, ◌<◌, ◌≡◌, refl, Bool, true, false, ◌||◌, Option, none, some, List, [], ◌∷◌, ◌++◌, ◌==◌, arith,
  ok, ◌⊎◌, inl, inr,
}
use ece4880_project.Futures.{is_done, settle, is_done-settle}
use ece4880_project.Persistence.{
  PersistenceWorker, PersistenceResult, Task, no_task, alive, ended, make, start, enqueue,
  take_next, run_next, end_running, finish, fail_pending, failure, stop_task, stop, Detail, Event,
  starts, taken, enqueued, stopped, finished, Executed, cancelled, result_of, queue_full,
  stopped_before_completed, step, run,
}

abbrev pub is_queued : ℕ → List ℕ → Bool
is_queued n [] = false
is_queued n (m ∷ ms) = n == m || is_queued n ms

abbrev pub is_running : ℕ → Option ℕ → Bool
is_running n none = false
is_running n (some m) = n == m

-- Every future that was handed out is done, running or queued.
abbrev IsAccounted : PersistenceWorker → Type 0
IsAccounted w =
    (n : ℕ)
    → n < w.next_future
    → (is_done n w.settled || (is_running n w.running || is_queued n w.queue)) ≡ true

is_queued-append :
    (n m : ℕ) (ms : List ℕ) → is_queued n (ms ++ (m ∷ [])) ≡ (n == m || is_queued n ms)
is_queued-append n m [] = refl
is_queued-append n m (k ∷ ms) = ground (arith, is_queued-append n m ms)

is_done-fail_pending :
    (n : ℕ) (configured : Bool) (detail : Detail) (ms : List ℕ) (d : List (ℕ × PersistenceResult))
    → is_done n (fail_pending configured detail ms d) ≡ (is_queued n ms || is_done n d)
unfolding fail_pending
is_done-fail_pending n configured detail [] d = refl
is_done-fail_pending n configured detail (m ∷ ms) d =
    let more = settle m (failure configured detail) d in
    ground (
      arith,
      is_done-fail_pending n configured detail ms more,
      is_done-settle n m (failure configured detail) d,
    )

enqueue-IsAccounted :
    (configured : Bool) (w : PersistenceWorker) → IsAccounted w → IsAccounted (enqueue configured w)
unfolding enqueue
enqueue-IsAccounted configured w h n below = ground (
  arith,
  h n,
  is_queued-append n w.next_future w.queue,
  is_done-settle n w.next_future (failure configured queue_full) w.settled,
)

take_next-IsAccounted :
    (w : PersistenceWorker) (t : Task) (o : Option ℕ) (ns : List ℕ)
    → w.running ≡ o
    → w.queue ≡ ns
    → IsAccounted w
    → IsAccounted (take_next w t o ns)
take_next-IsAccounted w alive none (m ∷ rest) idle e h n below =
    let k : (is_done n w.settled || (false || (n == m || is_queued n rest))) ≡ true =
      rw (idle, e) at (h n below) in
    ground (arith, k)
take_next-IsAccounted w _ _ _ idle e h n below = h n below

end_running-IsAccounted :
    (configured : Bool) (e : Executed) (w : PersistenceWorker) (o : Option ℕ)
    → w.running ≡ o
    → IsAccounted w
    → IsAccounted (end_running configured e w o)
end_running-IsAccounted configured e w none idle h n below = h n below
end_running-IsAccounted configured e w (some m) busy h n below =
    let k : (is_done n w.settled || (n == m || is_queued n w.queue)) ≡ true =
      rw busy at (h n below) in
    ground (arith, k, is_done-settle n m (result_of configured e) w.settled)

end_running_idle :
    (configured : Bool) (e : Executed) (w : PersistenceWorker) (o : Option ℕ)
    → w.running ≡ o
    → (end_running configured e w o).running ≡ none
end_running_idle configured e w none h = h
end_running_idle configured e w (some m) h = refl

end_running_next_future :
    (configured : Bool) (e : Executed) (w : PersistenceWorker) (o : Option ℕ)
    → (end_running configured e w o).next_future ≡ w.next_future
end_running_next_future configured e w none = refl
end_running_next_future configured e w (some m) = refl

settled_below :
    (configured : Bool) (w : PersistenceWorker) (n : ℕ)
    → n < (finish configured cancelled w).next_future
    → n < w.next_future
unfolding finish
settled_below configured w n below =
    rw (← end_running_next_future configured cancelled w w.running) below

-- What `stop` does where there is a task.
flushed :
    (configured : Bool) (w : PersistenceWorker) (n : ℕ)
    → IsAccounted w
    → n < w.next_future
    → is_done n (
        fail_pending configured stopped_before_completed
          (finish configured cancelled w).queue
          (finish configured cancelled w).settled)
      ≡ true
unfolding finish
flushed configured w n h below =
    let w' = end_running configured cancelled w w.running in
    let below' : n < w'.next_future =
      rw (end_running_next_future configured cancelled w w.running) below in
    let k : (is_done n w'.settled || (is_running n none || is_queued n w'.queue)) ≡ true =
      rw (end_running_idle configured cancelled w w.running refl) at
        (end_running-IsAccounted configured cancelled w w.running refl h n below') in
    ground
      (arith, k, is_done-fail_pending n configured stopped_before_completed w'.queue w'.settled)

stop_task-IsAccounted :
    (configured : Bool) (w : PersistenceWorker) (t : Task)
    → IsAccounted w
    → IsAccounted (stop_task configured w t)
stop_task-IsAccounted configured w no_task h n below = h n below
stop_task-IsAccounted configured w alive h n below =
    ground (arith, flushed configured w n h (settled_below configured w n below))
stop_task-IsAccounted configured w ended h n below =
    ground (arith, flushed configured w n h (settled_below configured w n below))

step-IsAccounted : (w : PersistenceWorker) (e : Event) → IsAccounted w → IsAccounted (step w e)
unfolding step start run_next finish stop
step-IsAccounted w starts h n below = h n below
step-IsAccounted w taken h n below =
    take_next-IsAccounted w w.task w.running w.queue refl refl h n below
step-IsAccounted w (enqueued configured) h n below = enqueue-IsAccounted configured w h n below
step-IsAccounted w (stopped configured) h n below =
    stop_task-IsAccounted configured w w.task h n below
step-IsAccounted w (finished configured e) h n below =
    end_running-IsAccounted configured e w w.running refl h n below

run-IsAccounted : (w : PersistenceWorker) (es : List Event) → IsAccounted w → IsAccounted (run w es)
unfolding run
run-IsAccounted w [] h = h
run-IsAccounted w (e ∷ es) h = run-IsAccounted (step w e) es (step-IsAccounted w e h)

stop_task-flushes :
    (configured : Bool) (w : PersistenceWorker) (t : Task) (n : ℕ)
    → IsAccounted w
    → n < w.next_future
    → (t ≡ no_task) ⊎ (is_done n (stop_task configured w t).settled ≡ true)
stop_task-flushes configured w no_task n h below = inl refl
stop_task-flushes configured w alive n h below = inr (flushed configured w n h below)
stop_task-flushes configured w ended n h below = inr (flushed configured w n h below)

-- After any events of a worker that was made, every future that was handed out is done, running or
-- queued; and, unless the worker has no task, stopping it makes every one of them done.
pub stop-flushes :
    (capacity : ℕ) (w : PersistenceWorker) (es : List Event) (configured : Bool) (n : ℕ)
    → make capacity ≡ ok w
    → n < (run w es).next_future
    → ((is_done n (run w es).settled
          || (is_running n (run w es).running || is_queued n (run w es).queue))
        ≡ true)
      × (((run w es).task ≡ no_task) ⊎ (is_done n (stop configured (run w es)).settled ≡ true))
unfolding make stop
stop-flushes capacity w es configured n made below =
    let empty : w.next_future ≡ 0 = ground (arith, made) in
    let kept = run-IsAccounted w es (λ m under. absurd (omega (arith, under, empty))) in
    (kept n below, stop_task-flushes configured (run w es) (run w es).task n kept below)
