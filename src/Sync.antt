-- ===== src/Sync.antt =====
-- src/thread/sync.c and include/thread/sync.h: a lock over a binary semaphore, as the interleaved
-- steps of the threads that use it. Interrupts are off inside `sema_down` and `sema_up`, so that one
-- pass of each, up to its return or up to `thread_block`, is one step; between the other accesses to
-- the lock any thread may run, and `schedule` may change the ready list. The queue `waiters` is the list that `LinkList` proves its links to
-- be. A thread is a number.
pub mod Invariant
pub mod Locking
pub mod Safety
mod Tests
use tros.Prelude.{
  ℕ, ◌+◌, ◌-◌, ◌%◌, Bool, true, false, not, ◌&&◌, ◌||◌, Option, none, some, List, [], ◌∷◌, ◌++◌,
  ltb, ◌==◌, if◌then◌else◌, add32, Run, ok, ◌>>=◌, ◌>>◌, assert,
}

abbrev pub mem : ℕ → List ℕ → Bool
mem a [] = false
mem a (x ∷ xs) = (a == x) || mem a xs

-- `struct semaphore`
pub record Semaphore : Type 0 where
  pub value : ℕ
  pub waiters : List ℕ

-- One pass of the loop of `sema_down`: true if the thread has blocked and will run the pass again.
unfoldable pub sema_down : Semaphore → (self : ℕ) → Run (Semaphore × Bool)
sema_down s self =
    if s.value == 0
    then (do
      assert (not (mem self s.waiters))
      ok (record s { waiters = s.waiters ++ (self ∷ []) }, true))
    else (do let value = s.value - 1; assert (value == 0); ok (record s { value = value }, false))

-- `list_pop`, if the list is not empty.
abbrev pub pop : List ℕ → Option ℕ × List ℕ
pop [] = (none, [])
pop (w ∷ ws) = (some w, ws)

-- `value` is a `uint8_t`. The thread that was unblocked, if any, is returned.
unfoldable pub sema_up : Semaphore → Run (Semaphore × Option ℕ)
sema_up s = do
  assert (s.value == 0)
  let value = (s.value + 1) % 256
  let popped = pop s.waiters
  assert (value == 1)
  ok (record { value = value; waiters = popped.1 }, popped.0)

-- Where a thread stands.
pub data Pc : Type 0 where
  outside : Pc  -- in no function of the lock, and not its holder
  down : Pc  -- in lock_acquire, before the first pass of sema_down
  blocked : Pc  -- in sema_down, blocked
  woken : Pc  -- in sema_down, unblocked, before the next pass
  got : Pc  -- before plock->holder = running_thread()
  held : Pc  -- before the ASSERT on holder_repeat_nr
  inside : Pc  -- the holder, in no function of the lock
  leaving : Pc  -- in lock_release, before plock->holder = NULL
  unheld : Pc  -- before plock->holder_repeat_nr = 0
  up : Pc  -- before sema_up

-- `struct lock`, the list of the threads that wait for the processor, and where all the threads stand.
pub record LockState : Type 0 where
  pub holder : Option ℕ
  pub semaphore : Semaphore
  pub holder_repeat_nr : ℕ
  pub thread_ready_list : List ℕ
  pub pc : ℕ → Pc

abbrev pub at_pc : (ℕ → Pc) → ℕ → Pc → ℕ → Pc
at_pc pc t p u = if t == u then p else pc u

abbrev pub goto : LockState → ℕ → Pc → LockState
goto s t p = record s { pc = at_pc s.pc t p }

abbrev pub is_thread : Option ℕ → ℕ → Bool
is_thread none t = false
is_thread (some h) t = h == t

abbrev pub is_blocked : Pc → Bool
is_blocked blocked = true
is_blocked _ = false

-- `lock_init`, with no thread in any function of the lock.
pub lock_init : LockState
lock_init = record {
  holder = none;
  semaphore = record { value = 1; waiters = [] };
  holder_repeat_nr = 0;
  thread_ready_list = [];
  pc = λ _. outside;
}

-- The test at the head of `lock_acquire`.
unfoldable pub acquire_test : LockState → ℕ → LockState
acquire_test s t =
    if not (is_thread s.holder t)
    then goto s t down
    else goto (record s { holder_repeat_nr = add32 s.holder_repeat_nr 1 }) t inside

unfoldable pub down_pass : LockState → ℕ → Run LockState
unfolding sema_down
down_pass s t = do
  r ← sema_down s.semaphore t
  ok (goto (record s { semaphore = r.0 }) t (if r.1 then blocked else got))

-- `lock_release` up to the write of `holder`.
unfoldable pub release_test : LockState → ℕ → Run LockState
release_test s t = do
  assert (is_thread s.holder t)
  if ltb 1 s.holder_repeat_nr
      then ok (record s { holder_repeat_nr = s.holder_repeat_nr - 1 })
      else (do assert (s.holder_repeat_nr == 1); ok (goto s t leaving))

-- `thread_unblock`: the thread becomes the first of those that wait for the processor.
unfoldable pub unblock : LockState → Option ℕ → Run LockState
unblock s none = ok s
unblock s (some w) = do
  assert (is_blocked (s.pc w))
  assert (not (mem w s.thread_ready_list))
  ok (goto (record s { thread_ready_list = w ∷ s.thread_ready_list }) w woken)

unfoldable pub up_pass : LockState → ℕ → Run LockState
unfolding sema_up unblock
up_pass s t = do
  r ← sema_up s.semaphore
  s' ← unblock (record s { semaphore = r.0 }) r.1
  ok (goto s' t outside)

-- What the holder does next: `lock_acquire` again, or `lock_release`.
pub data Choice : Type 0 where
  again release : Choice

-- The next step of thread `t`, which stands at `p`. A blocked thread makes none.
unfoldable pub act : Pc → Choice → LockState → ℕ → Run LockState
unfolding acquire_test down_pass release_test up_pass
act outside c s t = ok (acquire_test s t)
act down c s t = down_pass s t
act blocked c s t = ok s
act woken c s t = down_pass s t
act got c s t = ok (goto (record s { holder = some t }) t held)
act held c s t = do
  assert (s.holder_repeat_nr == 0)
  ok (goto (record s { holder_repeat_nr = 1 }) t inside)
act inside again s t = ok (acquire_test s t)
act inside release s t = release_test s t
act leaving c s t = ok (goto (record s { holder = none }) t unheld)
act unheld c s t = ok (goto (record s { holder_repeat_nr = 0 }) t up)
act up c s t = up_pass s t

unfoldable pub step : LockState → ℕ → Choice → Run LockState
unfolding act
step s t c = act (s.pc t) c s t
