-- ===== src/Scheduler/Once.antt =====
-- Steps of the threads in any order: an event that is stopped never runs, and no event runs twice.
use theforgottenserver.Prelude.{
  ℕ, ◌+◌, ◌≤◌, ◌≡◌, refl, inl, inr, Bool, true, false, Option, none, some, List, [], ◌∷◌, ◌++◌,
  ◌==◌, if◌then◌else◌, contains, erase, wrap64, arith, Bool-cases, ==→eq,
}
use theforgottenserver.Scheduler.{
  Func, call, terminate, Task, Scheduler, Dispatcher, add_event, stop_event, terminate_scheduler,
  clear_scheduler, add_task, shut_down_dispatcher, fire, stop_scheduler, stop_dispatcher, Place,
  at_loop, at_wait, waiting, waiting_until, timed_out, holding, ended, top_of_empty, wait_for,
  scheduler_step, take_task, execute, dispatcher_step, set_dont_expire, perform,
}

pub record System : Type 0 where
  pub scheduler : Scheduler
  pub dispatcher : Dispatcher
  pub scheduler_place : Place
  pub dispatcher_place : Place

-- The steps: the server's code posts and stops events and tasks, each thread goes on by one step, woken
-- or not, at a time, and either is stopped or shut down.
pub data Step : Type 0 where
  post_event : ℕ → ℕ → Step
  cancel : ℕ → Step
  post_task : ℕ → ℕ → Bool → Step
  scheduler_goes : Bool → ℕ → Step
  dispatcher_goes : Bool → ℕ → Step
  end_scheduler : Step
  empty_scheduler : Step
  end_dispatcher : Step
  close_scheduler : Step
  close_dispatcher : Step

-- What is seen of a step.
pub data Seen : Type 0 where
  given : ℕ → Seen
  stopped : ℕ → Seen
  ran : ℕ → Seen
  nothing : Seen

abbrev pub new_task : ℕ → ℕ → Task
new_task expiration f = record { event_id = 0; expiration = expiration; func = call f }

abbrev pub ran_of : Option Task → Seen
ran_of none = nothing
ran_of (some t) = ran t.event_id

unfoldable pub step : System → Step → System × Seen
step s (post_event expiration f) =
    let (i, s') = add_event s.scheduler (new_task expiration f) in
    (record s { scheduler = s' }, given i)
step s (cancel i) =
    let (ok, s') = stop_event s.scheduler i in
    (record s { scheduler = s' }, if ok then stopped i else nothing)
step s (post_task expiration f push_front) =
    (record s { dispatcher = add_task s.dispatcher (new_task expiration f) push_front }, nothing)
step s (scheduler_goes woken now) =
    let (p, s', d') = scheduler_step s.scheduler_place woken now s.scheduler s.dispatcher in
    (record s { scheduler = s'; dispatcher = d'; scheduler_place = p }, nothing)
step s (dispatcher_goes woken now) =
    let (o, p, d') = dispatcher_step s.dispatcher_place woken now s.dispatcher in
    (record s { dispatcher = d'; dispatcher_place = p }, ran_of o)
step s end_scheduler = (record s { scheduler = terminate_scheduler s.scheduler }, nothing)
step s empty_scheduler = (record s { scheduler = clear_scheduler s.scheduler }, nothing)
step s end_dispatcher = (record s { dispatcher = shut_down_dispatcher s.dispatcher }, nothing)
step s close_scheduler = (record s { scheduler = stop_scheduler s.scheduler }, nothing)
step s close_dispatcher = (record s { dispatcher = stop_dispatcher s.dispatcher }, nothing)

unfoldable pub run : System → List Step → List Seen
run s [] = []
run s (e ∷ es) = let (s', h) = step s e in h ∷ run s' es

abbrev pub one_if : Bool → ℕ
one_if true = 1
one_if false = 0

-- How often the event `i` is given out, and how often it is stopped or run.
abbrev pub starts : ℕ → Seen → ℕ
starts i (given j) = one_if (j == i)
starts i (stopped j) = 0
starts i (ran j) = 0
starts i nothing = 0

abbrev pub ends : ℕ → Seen → ℕ
ends i (given j) = 0
ends i (stopped j) = one_if (j == i)
ends i (ran j) = one_if (j == i)
ends i nothing = 0

abbrev pub total : (Seen → ℕ) → List Seen → ℕ
total f [] = 0
total f (h ∷ hs) = f h + total f hs

abbrev pub occurs : ℕ → List ℕ → ℕ
occurs i [] = 0
occurs i (j ∷ js) = one_if (j == i) + occurs i js

abbrev pub queued : ℕ → List Task → ℕ
queued i [] = 0
queued i (t ∷ ts) = one_if (t.event_id == i) + queued i ts

queued_append : (i : ℕ) (ts us : List Task) → queued i (ts ++ us) ≡ queued i ts + queued i us
queued_append i [] us = omega arith
queued_append i (t ∷ ts) us = omega (arith, queued_append i ts us)

occurs-erase :
    (i j : ℕ) (js : List ℕ)
    → contains j js ≡ true
    → occurs i (erase j js) + one_if (j == i) ≡ occurs i js
occurs-erase i j [] h = absurd (cc)
occurs-erase i j (k ∷ js) h = elim (Bool-cases (k == j)) [
  | inl e ↦ rw (e, ==→eq k j e) (omega arith)
  | inr e ↦ ground (arith, occurs-erase i j js)
]

-- Whether a thread holds a task of the event.
abbrev pub held : ℕ → Place → ℕ
held i (holding t) = one_if (t.event_id == i)
held i at_loop = 0
held i at_wait = 0
held i waiting = 0
held i timed_out = 0
held i ended = 0
held i top_of_empty = 0
held i (waiting_until time) = 0

-- How often the event `i` can still be stopped or run.
abbrev pub open_count : ℕ → System → ℕ
open_count i s =
    occurs i s.scheduler.event_ids
    + queued i s.dispatcher.task_list
    + held i s.scheduler_place
    + held i s.dispatcher_place

perform_tasks : (f : Func) (d : Dispatcher) → (perform f d).task_list ≡ d.task_list
perform_tasks (call f) d = refl
perform_tasks terminate d = refl

module _ (i : ℕ) (positive : (0 == i) ≡ false) where
  queued-add_task :
      (d : Dispatcher) (t : Task) (b : Bool)
      → queued i (add_task d t b).task_list ≤ queued i d.task_list + one_if (t.event_id == i)
  unfolding add_task
  queued-add_task d t b = ground (arith, queued_append i d.task_list (t ∷ []))

  fire_open :
      (ts : List Task) (s : Scheduler)
      → occurs i (fire ts s).1.event_ids + held i (fire ts s).0 ≤ occurs i s.event_ids
  unfolding fire
  fire_open [] s = omega arith
  fire_open (t ∷ ts) s = ground (arith, occurs-erase i t.event_id s.event_ids)

  wait_for-held : (ts : List Task) → held i (wait_for ts) ≡ 0
  unfolding wait_for
  wait_for-held [] = refl
  wait_for-held (t ∷ ts) = refl

  scheduler_step_open :
      (p : Place) (woken : Bool) (now : ℕ) (s : Scheduler) (d : Dispatcher)
      → let (p', s', d') = scheduler_step p woken now s d in
        occurs i s'.event_ids + queued i d'.task_list + held i p'
        ≤ occurs i s.event_ids + queued i d.task_list + held i p
  unfolding scheduler_step wait_for
  scheduler_step_open at_loop woken now s d = ground arith
  scheduler_step_open at_wait woken now s d = omega (arith, wait_for-held s.event_list)
  scheduler_step_open waiting woken now s d = ground arith
  scheduler_step_open (waiting_until time) woken now s d = ground arith
  scheduler_step_open timed_out woken now s d = omega (arith, fire_open s.event_list s)
  scheduler_step_open (holding t) woken now s d =
      omega (arith, queued-add_task d (set_dont_expire t) true)
  scheduler_step_open ended woken now s d = omega arith
  scheduler_step_open top_of_empty woken now s d = omega arith

  take_task_open :
      (ts : List Task) (p : Place) (d : Dispatcher)
      → d.task_list ≡ ts
      → held i p ≡ 0
      → queued i (take_task ts p d).1.task_list + held i (take_task ts p d).0 ≤ queued i ts
  unfolding take_task
  take_task_open [] p d same h = rw (same, h) (omega arith)
  take_task_open (t ∷ ts) p d same h = omega arith

  execute_open :
      (t : Task) (now : ℕ) (d : Dispatcher)
      → queued i (execute t now d).1.task_list + ends i (ran_of (execute t now d).0)
        ≤ queued i d.task_list + one_if (t.event_id == i)
  unfolding execute
  execute_open t now d = ground (
    arith,
    perform_tasks t.func (record d { dispatcher_cycle = wrap64 (d.dispatcher_cycle + 1) }),
  )

  dispatcher_step_open :
      (p : Place) (woken : Bool) (now : ℕ) (d : Dispatcher)
      → let (o, p', d') = dispatcher_step p woken now d in
        queued i d'.task_list + held i p' + ends i (ran_of o) ≤ queued i d.task_list + held i p
  unfolding dispatcher_step
  dispatcher_step_open at_loop woken now d = ground arith
  dispatcher_step_open at_wait woken now d =
      omega (arith, take_task_open d.task_list waiting d refl refl)
  dispatcher_step_open waiting woken now d =
      ground (arith, take_task_open d.task_list at_loop d refl refl)
  dispatcher_step_open (holding t) woken now d = omega (arith, execute_open t now d)
  dispatcher_step_open timed_out woken now d = omega arith
  dispatcher_step_open ended woken now d = omega arith
  dispatcher_step_open top_of_empty woken now d = omega arith
  dispatcher_step_open (waiting_until time) woken now d = omega arith

  step_open :
      (s : System) (e : Step)
      → let r = step s e in open_count i r.0 + ends i r.1 ≤ open_count i s + starts i r.1
  unfolding step add_event stop_event terminate_scheduler clear_scheduler shut_down_dispatcher
      stop_scheduler stop_dispatcher
  step_open s (post_event expiration f) = ground arith
  step_open s (cancel j) = ground (arith, occurs-erase i j s.scheduler.event_ids)
  step_open s (post_task expiration f b) =
      ground (arith, queued-add_task s.dispatcher (new_task expiration f) b)
  step_open s (scheduler_goes woken now) =
      omega (arith, scheduler_step_open s.scheduler_place woken now s.scheduler s.dispatcher)
  step_open s (dispatcher_goes woken now) =
      omega (arith, dispatcher_step_open s.dispatcher_place woken now s.dispatcher)
  step_open s end_scheduler = omega arith
  step_open s empty_scheduler = omega arith
  step_open s end_dispatcher = ground (
    arith,
    queued_append i s.dispatcher.task_list
        (record { event_id = 0; expiration = 0; func = terminate } ∷ []),
  )
  step_open s close_scheduler = omega arith
  step_open s close_dispatcher = omega arith

  -- From any state, over any steps and for any event but 0: the number of times that the event is
  -- stopped or run is at most the number of its entries that are open at the start, among the
  -- scheduler's event ids, in the dispatcher's list or in the hands of a thread, and of the times that it is given out
  -- since. So an event that is not open at the start and is given out once is either stopped or
  -- run, once at most.
  pub never_twice :
      (s : System) (es : List Step)
      → total (ends i) (run s es) ≤ open_count i s + total (starts i) (run s es)
  unfolding run
  never_twice s [] = omega arith
  never_twice s (e ∷ es) = omega (arith, step_open s e, never_twice (step s e).0 es)
