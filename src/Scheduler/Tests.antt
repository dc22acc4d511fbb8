-- ===== src/Scheduler/Tests.antt =====
-- Runs of the scheduler, and the theorems at two threads.
use tros.Prelude.{ℕ, ◌≡◌, refl, [], ◌∷◌, arith, ◌==◌, if◌then◌else◌, Run, ok}
use tros.Scheduler.{task_running, task_ready, task_blocked, Threads, schedule}
use tros.Scheduler.Invariant.{IsReady, IsScheduled, schedule-IsScheduled}

-- Thread 1 runs, thread 2 is ready, the others are blocked; 0 is the idle thread.
abbrev two : Threads
two = record {
  thread_ready_list = 2 ∷ [];
  status = λ t. if t == 1 then task_running else if t == 2 then task_ready else task_blocked;
  ticks = λ t. 0;
  priority = λ t. 31;
  current = 1;
  idle_thread = 0;
}

two-IsReady : IsReady two
two-IsReady = record {
  distinct = (refl, tt);
  listed = λ t. ground arith;
  alone = λ t h. ground arith;
  idle = refl;
}

abbrev current_of : Run Threads → ℕ
current_of (ok s) = s.current
current_of r = 99

next_is_two : current_of (schedule two) ≡ 2
unfolding schedule
next_is_two = refl

schedule-IsScheduled_example : (s1 : Threads) × (schedule two ≡ ok s1) × IsScheduled s1
schedule-IsScheduled_example = schedule-IsScheduled two two-IsReady
