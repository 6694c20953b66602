-- ===== src/Scheduler.antt =====
-- src/scheduler.h, src/scheduler.cpp, src/tasks.h, src/tasks.cpp: events by time, and the tasks that
-- the dispatcher runs. Each region under a lock is one step, as is each test of a thread's state outside
-- a lock; the threads interleave between steps.
pub mod Once
mod Tests
use theforgottenserver.Prelude.{
  ℕ, zero, suc, ◌+◌, ◌-◌, ◌%◌, ◌^◌, Bool, true, false, ◌&&◌, ◌||◌, not, Option, none, some, List,
  [], ◌∷◌, ◌++◌, ltb, leb, ◌==◌, if◌then◌else◌, add32, wrap64, contains, erase,
}

-- `ThreadState` of src/enums.h
pub data ThreadState : Type 0 where
  running : ThreadState
  closing : ThreadState
  terminated : ThreadState

abbrev pub is_running : ThreadState → Bool
is_running running = true
is_running closing = false
is_running terminated = false

abbrev pub is_terminated : ThreadState → Bool
is_terminated running = false
is_terminated closing = false
is_terminated terminated = true

-- A task's function: any function of the server, by a number, or the one that `Dispatcher::shutdown`
-- builds.
pub data Func : Type 0 where
  call : ℕ → Func
  terminate : Func

-- `Task` and `SchedulerTask`; times are in milliseconds, and 0 is `SYSTEM_TIME_ZERO`. A task that is
-- no scheduler task has no event, which is event 0 here.
pub record Task : Type 0 where
  pub event_id : ℕ
  pub expiration : ℕ
  pub func : Func

pub record Scheduler : Type 0 where
  pub thread_state : ThreadState
  pub last_event_id : ℕ
  pub event_list : List Task
  pub event_ids : List ℕ

pub record Dispatcher : Type 0 where
  pub thread_state : ThreadState
  pub task_list : List Task
  pub dispatcher_cycle : ℕ

abbrev pub set_dont_expire : Task → Task
set_dont_expire t = record t { expiration = 0 }

-- `Task::hasExpired`
abbrev pub has_expired : Task → ℕ → Bool
has_expired t now = if t.expiration == 0 then false else ltb t.expiration now

-- `std::priority_queue` by `TaskComparator`: the head is the top. Among equal times the standard
-- leaves the order open; here the first to come is the first to go.
unfoldable pub push : Task → List Task → List Task
push t [] = t ∷ []
push t (u ∷ us) = if leb u.expiration t.expiration then u ∷ push t us else t ∷ u ∷ us

-- `eventIds.insert`
abbrev pub insert_id : ℕ → List ℕ → List ℕ
insert_id i is = if contains i is then is else i ∷ is

-- The next event id: 0 is left out when the counter wraps.
abbrev pub next_event_id : ℕ → ℕ
next_event_id last = if add32 last 1 == 0 then 1 else add32 last 1

-- `Scheduler::addEvent`
unfoldable pub add_event : Scheduler → Task → ℕ × Scheduler
add_event s t =
    if is_running s.thread_state
    then (let last = if t.event_id == 0 then next_event_id s.last_event_id else s.last_event_id in
        let i = if t.event_id == 0 then last else t.event_id in
        (
          i,
          record s {
            last_event_id = last;
            event_ids = insert_id i s.event_ids;
            event_list = push (record t { event_id = i }) s.event_list;
          },
        ))
    else (0, s)

-- `Scheduler::stopEvent`
unfoldable pub stop_event : Scheduler → ℕ → Bool × Scheduler
stop_event s i =
    if i == 0
    then (false, s)
    else if contains i s.event_ids
    then (true, record s { event_ids = erase i s.event_ids })
    else (false, s)

-- `Scheduler::shutdown`: first the state, then, under the lock, the list and the ids.
unfoldable pub terminate_scheduler : Scheduler → Scheduler
terminate_scheduler s = record s { thread_state = terminated }

unfoldable pub clear_scheduler : Scheduler → Scheduler
clear_scheduler s = record s { event_list = []; event_ids = [] }

-- `ThreadHolder::stop`, of either thread.
unfoldable pub stop_scheduler : Scheduler → Scheduler
stop_scheduler s = record s { thread_state = closing }

unfoldable pub stop_dispatcher : Dispatcher → Dispatcher
stop_dispatcher d = record d { thread_state = closing }

-- `Dispatcher::addTask`
unfoldable pub add_task : Dispatcher → Task → Bool → Dispatcher
add_task d t push_front =
    if is_running d.thread_state
    then record d { task_list = if push_front then t ∷ d.task_list else d.task_list ++ t ∷ [] }
    else d

-- `Dispatcher::shutdown`
unfoldable pub shut_down_dispatcher : Dispatcher → Dispatcher
shut_down_dispatcher d = record d {
  task_list = d.task_list ++ record { event_id = 0; expiration = 0; func = terminate } ∷ [];
}

-- Where a thread stands in its `threadMain`: before the test of its state, before it takes the lock, in a
-- wait without end or up to a time, behind a wait that has timed out but not yet with the lock, with a
-- task that it has taken and no lock, or ended. `top_of_empty` is behind `top()` of an empty queue,
-- which is undefined.
pub data Place : Type 0 where
  at_loop at_wait waiting timed_out ended top_of_empty : Place
  waiting_until : ℕ → Place
  holding : Task → Place

-- The region of `Scheduler::threadMain` under the lock after a timeout: the top is taken, and its event
-- with it if it has not been stopped.
unfoldable pub fire : List Task → Scheduler → Place × Scheduler
fire [] s = (top_of_empty, s)
fire (t ∷ ts) s =
    if contains t.event_id s.event_ids
    then (holding t, record s { event_list = ts; event_ids = erase t.event_id s.event_ids })
    else (at_loop, record s { event_list = ts })

unfoldable pub wait_for : List Task → Place
wait_for [] = waiting
wait_for (t ∷ ts) = waiting_until t.expiration

-- A step of `Scheduler::threadMain` at the time `now`. A wait may be woken by a signal or for no reason,
-- and `wait_until` times out only when its time has come.
unfoldable pub scheduler_step :
    Place → Bool → ℕ → Scheduler → Dispatcher → Place × Scheduler × Dispatcher
scheduler_step at_loop woken now s d =
    (if is_terminated s.thread_state then ended else at_wait, s, d)
scheduler_step at_wait woken now s d = (wait_for s.event_list, s, d)
scheduler_step waiting woken now s d = (if woken then at_loop else waiting, s, d)
scheduler_step (waiting_until time) woken now s d =
    (if woken then at_loop else if ltb now time then waiting_until time else timed_out, s, d)
scheduler_step timed_out woken now s d = let (p, s') = fire s.event_list s in (p, s', d)
scheduler_step (holding t) woken now s d = (at_loop, s, add_task d (set_dont_expire t) true)
scheduler_step ended woken now s d = (ended, s, d)
scheduler_step top_of_empty woken now s d = (top_of_empty, s, d)

-- What a task does to the dispatcher itself.
abbrev pub perform : Func → Dispatcher → Dispatcher
perform (call f) d = d
perform terminate d = record d { thread_state = terminated }

-- The first task is taken under the lock; of an empty list the thread goes on as `otherwise`.
unfoldable pub take_task : List Task → Place → Dispatcher → Place × Dispatcher
take_task [] otherwise d = (otherwise, d)
take_task (t ∷ ts) otherwise d = (holding t, record d { task_list = ts })

-- A task that has been taken, without the lock: what is run, if it has not expired.
unfoldable pub execute : Task → ℕ → Dispatcher → Option Task × Dispatcher
execute t now d =
    if has_expired t now
    then (none, d)
    else (some t, perform t.func (record d { dispatcher_cycle = wrap64 (d.dispatcher_cycle + 1) }))

-- A step of `Dispatcher::threadMain`, with the task that is run, if any.
unfoldable pub dispatcher_step : Place → Bool → ℕ → Dispatcher → Option Task × Place × Dispatcher
dispatcher_step at_loop woken now d =
    (none, if is_terminated d.thread_state then ended else at_wait, d)
dispatcher_step at_wait woken now d = let (p, d') = take_task d.task_list waiting d in (none, p, d')
dispatcher_step waiting woken now d =
    let (p, d') = take_task d.task_list at_loop d in
    if woken then (none, p, d') else (none, waiting, d)
dispatcher_step (holding t) woken now d = let (o, d') = execute t now d in (o, at_loop, d')
dispatcher_step p woken now d = (none, p, d)
