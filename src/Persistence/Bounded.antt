-- ===== src/Persistence/Bounded.antt =====
-- The queue of backend/pc_client/persistence_worker.py is bounded and serves in order.
use ece4880_project.Prelude.{
  ℕ, suc, ◌≤◌, ◌≡◌, refl, ◌∙◌, Bool, Option, none, some, List, [], ◌∷◌, ◌++◌, length, length-append,
  arith, ok,
}
use ece4880_project.Persistence.{
  PersistenceWorker, Task, no_task, alive, ended, make, health, start, enqueue, take_next, run_next,
  end_running, finish, stop_task, stop, Event, starts, taken, enqueued, stopped, finished, Executed,
  cancelled, step, run,
}

-- The numbers ascend from at least `low` to below `high`.
abbrev pub Ascends : ℕ → ℕ → List ℕ → Type 0
Ascends low high [] = low ≤ high
Ascends low high (n ∷ ns) = (low ≤ n) × Ascends (suc n) high ns

-- the least number that may still wait: one past the running one
abbrev pub floor : Option ℕ → ℕ
floor none = 0
floor (some n) = suc n

pub record IsBounded (w : PersistenceWorker) : Type 0 where
  pub within : length w.queue ≤ w.capacity
  pub ascends : Ascends (floor w.running) w.next_future w.queue

Ascends-append :
    (low high : ℕ) (ns : List ℕ) → Ascends low high ns → Ascends low (suc high) (ns ++ (high ∷ []))
Ascends-append low high [] h = (h, omega arith)
Ascends-append low high (n ∷ ns) (h, hs) = (h, Ascends-append (suc n) high ns hs)

Ascends-suc : (low high : ℕ) (ns : List ℕ) → Ascends low high ns → Ascends low (suc high) ns
Ascends-suc low high [] h = omega arith
Ascends-suc low high (n ∷ ns) (h, hs) = (h, Ascends-suc (suc n) high ns hs)

Ascends-zero : (low high : ℕ) (ns : List ℕ) → Ascends low high ns → Ascends 0 high ns
Ascends-zero low high [] h = omega arith
Ascends-zero low high (n ∷ ns) (h, hs) = (omega arith, hs)

Ascends-le : (low high : ℕ) (ns : List ℕ) → Ascends low high ns → low ≤ high
Ascends-le low high [] h = h
Ascends-le low high (n ∷ ns) (h, hs) = omega (arith, Ascends-le (suc n) high ns hs)

enqueue-IsBounded :
    (configured : Bool) (w : PersistenceWorker) → IsBounded w → IsBounded (enqueue configured w)
unfolding enqueue
enqueue-IsBounded configured w h = ground (
  arith,
  h.within,
  h.ascends,
  length-append w.queue (w.next_future ∷ []),
  Ascends-append (floor w.running) w.next_future w.queue h.ascends,
  Ascends-suc (floor w.running) w.next_future w.queue h.ascends,
)

end_running-IsBounded :
    (configured : Bool) (e : Executed) (w : PersistenceWorker) (o : Option ℕ)
    → IsBounded w
    → IsBounded (end_running configured e w o)
end_running-IsBounded configured e w none h = h
end_running-IsBounded configured e w (some n) h = record {
  within = h.within;
  ascends = Ascends-zero (floor w.running) w.next_future w.queue h.ascends;
}

take_next-IsBounded :
    (w : PersistenceWorker) (t : Task) (o : Option ℕ) (ns : List ℕ)
    → w.queue ≡ ns
    → IsBounded w
    → IsBounded (take_next w t o ns)
take_next-IsBounded w alive none (n ∷ rest) e h =
    let a : Ascends (floor w.running) w.next_future (n ∷ rest) = rw e at h.ascends in
    let b : length (n ∷ rest) ≤ w.capacity = rw e at h.within in
    record { within = omega (arith, b); ascends = a.1 }
take_next-IsBounded w _ _ _ e h = h

stop_task-IsBounded :
    (configured : Bool) (w : PersistenceWorker) (t : Task)
    → IsBounded (finish configured cancelled w)
    → IsBounded w
    → IsBounded (stop_task configured w t)
stop_task-IsBounded configured w no_task f h = h
stop_task-IsBounded configured w alive f h = record {
  within = omega arith;
  ascends = Ascends-le _ _ _ f.ascends;
}
stop_task-IsBounded configured w ended f h = record {
  within = omega arith;
  ascends = Ascends-le _ _ _ f.ascends;
}

step-IsBounded : (w : PersistenceWorker) (e : Event) → IsBounded w → IsBounded (step w e)
unfolding step start run_next finish stop
step-IsBounded w starts h = record { within = h.within; ascends = h.ascends }
step-IsBounded w taken h = take_next-IsBounded w w.task w.running w.queue refl h
step-IsBounded w (enqueued configured) h = enqueue-IsBounded configured w h
step-IsBounded w (stopped configured) h =
    stop_task-IsBounded configured w w.task
      (end_running-IsBounded configured cancelled w w.running h) h
step-IsBounded w (finished configured e) h = end_running-IsBounded configured e w w.running h

end_running_capacity :
    (configured : Bool) (e : Executed) (w : PersistenceWorker) (o : Option ℕ)
    → (end_running configured e w o).capacity ≡ w.capacity
end_running_capacity configured e w none = refl
end_running_capacity configured e w (some n) = refl

step_capacity : (w : PersistenceWorker) (e : Event) → (step w e).capacity ≡ w.capacity
unfolding step start run_next finish stop enqueue
step_capacity w starts = refl
step_capacity w taken = taken_capacity w.task w.running w.queue
  where
    taken_capacity :
        (t : Task) (o : Option ℕ) (ns : List ℕ) → (take_next w t o ns).capacity ≡ w.capacity
    taken_capacity alive none (n ∷ rest) = refl
    taken_capacity _ _ _ = refl
step_capacity w (enqueued configured) = ground arith
step_capacity w (stopped configured) = stopped_capacity w.task
  where
    stopped_capacity : (t : Task) → (stop_task configured w t).capacity ≡ w.capacity
    stopped_capacity no_task = refl
    stopped_capacity alive = end_running_capacity configured cancelled w w.running
    stopped_capacity ended = end_running_capacity configured cancelled w w.running
step_capacity w (finished configured e) = end_running_capacity configured e w w.running

run-IsBounded :
    (w : PersistenceWorker) (es : List Event)
    → IsBounded w
    → IsBounded (run w es) × ((run w es).capacity ≡ w.capacity)
unfolding run
run-IsBounded w [] h = (h, refl)
run-IsBounded w (e ∷ es) h =
    let (b, c) = run-IsBounded (step w e) es (step-IsBounded w e h) in (b, c ∙ step_capacity w e)

-- A worker that was made with a capacity never reports more pending requests than that, whatever
-- happens; and what waits is in the order in which it was enqueued, all of it after the request that
-- runs.
pub health-run :
    (capacity : ℕ) (w : PersistenceWorker) (es : List Event)
    → make capacity ≡ ok w
    → ((health (run w es)).pending ≤ capacity)
      × Ascends (floor (run w es).running) (run w es).next_future (run w es).queue
unfolding make health
health-run capacity w es made =
    let fresh : IsBounded w = ground (arith, made) in
    let (bounded, same) = run-IsBounded w es fresh in
    let size : w.capacity ≡ capacity = ground (arith, made) in
    (omega (arith, bounded.within, same, size), bounded.ascends)
