-- ===== src/Scheduler.antt =====
-- src/thread/thread.c: the ready list and the choice of the next thread.
-- A thread is a number. The ready list is the list of its threads, which LinkList proves its links
-- to be. Every function runs with interrupts off; `switch_to` is the change of `current`, and
-- `thread_block` ends for its caller when it is scheduled again.
pub mod Invariant
mod Tests
use tros.Prelude.{
  ℕ, Bool, true, false, not, ◌||◌, List, [], ◌∷◌, ◌++◌, ◌==◌, if◌then◌else◌, Run, ok, panic, ◌>>=◌,
  ◌>>◌, assert,
}

-- `enum task_status`
pub data TaskStatus : Type 0 where
  task_running task_ready task_blocked task_waiting task_hanging task_died : TaskStatus

pub record Threads : Type 0 where
  pub thread_ready_list : List ℕ
  pub status : ℕ → TaskStatus
  pub ticks : ℕ → ℕ
  pub priority : ℕ → ℕ
  pub current : ℕ
  pub idle_thread : ℕ

abbrev pub is_in : ℕ → List ℕ → Bool
is_in t [] = false
is_in t (x ∷ xs) = (t == x) || is_in t xs

abbrev pub is_running : TaskStatus → Bool
is_running task_running = true
is_running s = false

abbrev pub is_ready : TaskStatus → Bool
is_ready task_ready = true
is_ready s = false

-- TASK_BLOCKED, TASK_WAITING or TASK_HANGING
abbrev pub is_blocked : TaskStatus → Bool
is_blocked task_blocked = true
is_blocked task_waiting = true
is_blocked task_hanging = true
is_blocked s = false

abbrev pub is_empty : List ℕ → Bool
is_empty [] = true
is_empty (x ∷ xs) = false

abbrev pub set_status : Threads → ℕ → TaskStatus → Threads
set_status s t stat = record s { status = λ u. if t == u then stat else s.status u }

-- The thread becomes ready and first in the list.
unfoldable pub thread_unblock : Threads → (pthread : ℕ) → Run Threads
thread_unblock s pthread = do
  assert (is_blocked (s.status pthread))
  assert (not (is_in pthread s.thread_ready_list))
  ok (
      set_status (record s { thread_ready_list = pthread ∷ s.thread_ready_list }) pthread
        task_ready)

-- The current thread, if its time is up, goes to the end of the ready list.
unfoldable pub requeue : Threads → Run Threads
requeue s =
    if is_running (s.status s.current)
    then (do
      assert (not (is_in s.current s.thread_ready_list))
      let s1 = record s {
        thread_ready_list = s.thread_ready_list ++ (s.current ∷ []);
        ticks = λ u. if s.current == u then s.priority u else s.ticks u;
      }
      ok (set_status s1 s.current task_ready))
    else ok s

-- The idle thread, if no other is ready.
unfoldable pub wake_idle : Threads → Run Threads
unfolding thread_unblock
wake_idle s = if is_empty s.thread_ready_list then thread_unblock s s.idle_thread else ok s

-- The first ready thread runs.
unfoldable pub dispatch : Threads → List ℕ → Run Threads
dispatch s [] = panic
dispatch s (next ∷ rest) =
    ok (set_status (record s { thread_ready_list = rest; current = next }) next task_running)

unfoldable pub schedule : Threads → Run Threads
unfolding requeue wake_idle dispatch
schedule s = do s1 ← requeue s; s2 ← wake_idle s1; dispatch s2 s2.thread_ready_list

unfoldable pub thread_block : Threads → (stat : TaskStatus) → Run Threads
unfolding schedule
thread_block s stat = do assert (is_blocked stat); schedule (set_status s s.current stat)

-- The current thread goes to the end of the ready list and the first one runs.
unfoldable pub thread_yield : Threads → Run Threads
unfolding schedule
thread_yield s = do
  assert (not (is_in s.current s.thread_ready_list))
  let s1 = record s { thread_ready_list = s.thread_ready_list ++ (s.current ∷ []) }
  schedule (set_status s1 s.current task_ready)
