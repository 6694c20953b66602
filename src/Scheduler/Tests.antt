-- ===== src/Scheduler/Tests.antt =====
-- The theorems on the scheduler at concrete inputs.
use theforgottenserver.Prelude.{false, ◌+◌, ◌≤◌, ◌≡◌, refl, List, [], ◌∷◌, add32}
use theforgottenserver.Scheduler.{
  running, push, add_event, stop_event, add_task, fire, scheduler_step, wait_for, at_loop,
  top_of_empty, take_task, execute, dispatcher_step, terminate_scheduler, clear_scheduler,
}
use theforgottenserver.Scheduler.Once.{
  System, Step, post_event, cancel, scheduler_goes, dispatcher_goes, end_scheduler, empty_scheduler,
  given, stopped, ran, nothing, step, run, total, ends, starts, open_count, never_twice,
}

abbrev fresh : System
fresh = record {
  scheduler = record { thread_state = running; last_event_id = 0; event_list = []; event_ids = [] };
  dispatcher = record { thread_state = running; task_list = []; dispatcher_cycle = 0 };
  scheduler_place = at_loop;
  dispatcher_place = at_loop;
}

-- Two events, the later one stopped; the scheduler goes round twice, and the dispatcher runs what it is
-- given.
abbrev steps : List Step
steps =
    post_event 200 7
    ∷ post_event 100 8
    ∷ cancel 1
    ∷ scheduler_goes false 50
    ∷ scheduler_goes false 50
    ∷ scheduler_goes false 100
    ∷ scheduler_goes false 100
    ∷ dispatcher_goes false 100
    ∷ scheduler_goes false 100
    ∷ dispatcher_goes false 101
    ∷ dispatcher_goes false 101
    ∷ []

steps_seen :
    run fresh steps
    ≡ given 1
      ∷ given 2
      ∷ stopped 1
      ∷ nothing
      ∷ nothing
      ∷ nothing
      ∷ nothing
      ∷ nothing
      ∷ nothing
      ∷ nothing
      ∷ ran 2
      ∷ []
unfolding run step add_event stop_event push add_task fire wait_for scheduler_step take_task
    dispatcher_step execute add32
steps_seen = refl

never_twice_example :
    total (ends 1) (run fresh steps) ≤ open_count 1 fresh + total (starts 1) (run fresh steps)
never_twice_example = never_twice 1 refl fresh steps

-- The scheduler is shut down between the timeout of its wait and the moment at which it has the lock:
-- it takes the top of an empty queue.
abbrev shut_down_in_time : List Step
shut_down_in_time =
    post_event 200 7
    ∷ scheduler_goes false 100
    ∷ scheduler_goes false 100
    ∷ scheduler_goes false 200
    ∷ end_scheduler
    ∷ empty_scheduler
    ∷ scheduler_goes false 200
    ∷ []

abbrev after : System → List Step → System
after s [] = s
after s (e ∷ es) = after (step s e).0 es

shut_down_in_time_lem : (after fresh shut_down_in_time).scheduler_place ≡ top_of_empty
unfolding step add_event push scheduler_step wait_for fire terminate_scheduler clear_scheduler add32
shut_down_in_time_lem = refl
