-- ===== src/Scheduler/Invariant.antt =====
-- The invariant of the scheduler of src/thread/thread.c, and that its functions keep it.
use tros.Prelude.{
  ℕ, ◌≡◌, refl, ap, true, false, ◌||◌, List, [], ◌∷◌, ◌++◌, arith, ◌==◌, if◌then◌else◌, Bool-cases,
  inl, inr, ok,
}
use mathlib.Core.Path.{subst}
use tros.Scheduler.{
  TaskStatus, Threads, task_running, task_ready, is_in, is_running, is_ready, is_blocked, is_empty,
  set_status, thread_unblock, requeue, wake_idle, dispatch, schedule, thread_block,
}

abbrev pub AllDistinct : List ℕ → Type 0
AllDistinct [] = Unit
AllDistinct (x ∷ xs) = (is_in x xs ≡ false) × AllDistinct xs

-- The ready list has each ready thread once and no other; no thread but the current one is running;
-- the idle thread is running, ready or blocked.
pub record IsReady (s : Threads) : Type 0 where
  pub distinct : AllDistinct s.thread_ready_list
  pub listed : (t : ℕ) → is_in t s.thread_ready_list ≡ is_ready (s.status t)
  pub alone : (t : ℕ) → is_running (s.status t) ≡ true → t ≡ s.current
  pub idle :
      (is_running (s.status s.idle_thread)
        || is_ready (s.status s.idle_thread)
        || is_blocked (s.status s.idle_thread))
      ≡ true

-- The same, with the current thread running.
abbrev pub IsScheduled : Threads → Type 0
IsScheduled s = IsReady s × (is_running (s.status s.current) ≡ true)

is_in-append : (t : ℕ) (xs ys : List ℕ) → is_in t (xs ++ ys) ≡ (is_in t xs || is_in t ys)
is_in-append t [] ys = refl
is_in-append t (x ∷ xs) ys = ground (arith, is_in-append t xs ys)

AllDistinct-append :
    (xs : List ℕ) (x : ℕ) → AllDistinct xs → is_in x xs ≡ false → AllDistinct (xs ++ (x ∷ []))
AllDistinct-append [] x d n = (refl, tt)
AllDistinct-append (y ∷ ys) x (m, d) n =
    (ground (arith, is_in-append y ys (x ∷ [])), AllDistinct-append ys x d (ground arith))

-- A thread that is put at the end of the list and made ready.
IsReady-append :
    (s : Threads) (ticks : ℕ → ℕ)
    → IsScheduled s
    → IsReady (
        set_status
          (record s { thread_ready_list = s.thread_ready_list ++ (s.current ∷ []); ticks = ticks })
          s.current
          task_ready)
IsReady-append s ticks (r, run) = record {
  distinct =
      AllDistinct-append s.thread_ready_list s.current r.distinct
        (ground (arith, r.listed s.current, only_one (s.status s.current)));
  listed = λ t. ground (arith, r.listed t, is_in-append t s.thread_ready_list (s.current ∷ []));
  alone = λ t h. ground (arith, r.alone t);
  idle = ground (arith, r.idle);
}
  where
    only_one : (p : TaskStatus) → is_running p ≡ true → is_ready p ≡ false
    only_one p h = ground arith

abbrev NoneRunning : Threads → Type 0
NoneRunning s = (t : ℕ) → is_running (s.status t) ≡ false

requeue-IsReady :
    (s : Threads) → IsReady s → (s1 : Threads) × (requeue s ≡ ok s1) × IsReady s1 × NoneRunning s1
unfolding requeue
requeue-IsReady s r = elim (Bool-cases (is_running (s.status s.current))) [
  | inl run ↦
      let absent : is_in s.current s.thread_ready_list ≡ false =
        ground (arith, r.listed s.current, not_both (s.status s.current)) in
      (
        set_status
            (record s {
              thread_ready_list = s.thread_ready_list ++ (s.current ∷ []);
              ticks = λ u. if s.current == u then s.priority u else s.ticks u;
            })
            s.current task_ready,
        rw (run, absent) refl,
        IsReady-append s (λ u. if s.current == u then s.priority u else s.ticks u) (r, run),
        λ t. ground (arith, r.alone t),
      )
  | inr stopped ↦ (s, rw stopped refl, r, λ t. ground (arith, r.alone t, same_status t))
]
  where
    not_both : (p : TaskStatus) → is_running p ≡ true → is_ready p ≡ false
    not_both p h = ground arith

    same_status : (t : ℕ) → t ≡ s.current → s.status t ≡ s.status s.current
    same_status t e = ap s.status e

thread_unblock-IsReady :
    (s : Threads) (t : ℕ)
    → IsReady s
    → is_blocked (s.status t) ≡ true
    → (s1 : Threads) × (thread_unblock s t ≡ ok s1)
      × IsReady s1
      × (s1.thread_ready_list ≡ t ∷ s.thread_ready_list)
      × ((u : ℕ) → is_running (s1.status u) ≡ true → is_running (s.status u) ≡ true)
unfolding thread_unblock
thread_unblock-IsReady s t r b =
    let absent : is_in t s.thread_ready_list ≡ false =
      ground (arith, r.listed t, not_both (s.status t)) in
    (
      set_status (record s { thread_ready_list = t ∷ s.thread_ready_list }) t task_ready,
      rw (b, absent) refl,
      record {
        distinct = (absent, r.distinct);
        listed = λ u. ground (arith, r.listed u);
        alone = λ u h. ground (arith, r.alone u);
        idle = ground (arith, r.idle);
      },
      refl,
      λ u h. ground arith,
    )
  where
    not_both : (p : TaskStatus) → is_blocked p ≡ true → is_ready p ≡ false
    not_both p h = ground arith

wake_idle-IsReady :
    (s : Threads)
    → IsReady s
    → NoneRunning s
    → (s1 : Threads) × (x : ℕ) × (xs : List ℕ) × (wake_idle s ≡ ok s1)
      × IsReady s1
      × NoneRunning s1
      × (s1.thread_ready_list ≡ x ∷ xs)
unfolding wake_idle
wake_idle-IsReady s r none_running = go s.thread_ready_list refl
  where
    go :
        (q : List ℕ)
        → s.thread_ready_list ≡ q
        → (s1 : Threads) × (x : ℕ) × (xs : List ℕ) × (wake_idle s ≡ ok s1)
          × IsReady s1
          × NoneRunning s1
          × (s1.thread_ready_list ≡ x ∷ xs)
    go (x ∷ xs) e =
        let full : is_empty s.thread_ready_list ≡ false = ap is_empty e in
        (s, x, xs, rw full refl, r, none_running, e)
    go [] e =
        let out : is_in s.idle_thread s.thread_ready_list ≡ false = rw e refl in
        let none_ready : is_empty s.thread_ready_list ≡ true = ap is_empty e in
        let asleep : is_blocked (s.status s.idle_thread) ≡ true =
          ground (arith, r.idle, r.listed s.idle_thread, none_running s.idle_thread) in
        let (s1, run, r1, first, back) = thread_unblock-IsReady s s.idle_thread r asleep in
        (
          s1,
          s.idle_thread,
          s.thread_ready_list,
          rw none_ready run,
          r1,
          λ t. ground (arith, back t, none_running t),
          first,
        )

dispatch-IsScheduled :
    (s : Threads) (x : ℕ) (xs : List ℕ)
    → IsReady s
    → NoneRunning s
    → s.thread_ready_list ≡ x ∷ xs
    → (s1 : Threads) × (dispatch s s.thread_ready_list ≡ ok s1) × IsScheduled s1
unfolding dispatch
dispatch-IsScheduled s x xs r none_running e =
    let d = subst AllDistinct e r.distinct in
    (
      set_status (record s { thread_ready_list = xs; current = x }) x task_running,
      rw e refl,
      (
        record {
          distinct = d.1;
          listed = λ t. ground (arith, d.0, r.listed t, ap (is_in t) e);
          alone = λ t h. ground (arith, none_running t);
          idle = ground (arith, r.idle);
        },
        ground arith,
      ),
    )

-- `schedule` never stops at an ASSERT, whether its thread goes on or has just been blocked: from a
-- state with the invariant it comes to one with the invariant in which the current thread runs.
pub schedule-IsScheduled :
    (s : Threads) → IsReady s → (s1 : Threads) × (schedule s ≡ ok s1) × IsScheduled s1
unfolding schedule
schedule-IsScheduled s r =
    let (s1, e1, r1, n1) = requeue-IsReady s r in
    let (s2, x, xs, e2, r2, n2, first) = wake_idle-IsReady s1 r1 n1 in
    let (s3, e3, ready) = dispatch-IsScheduled s2 x xs r2 n2 first in
    (s3, rw (e1, e2, e3) refl, ready)

-- `thread_block` with one of its three statuses, in a state with the invariant in which the current
-- thread runs, never stops at an ASSERT and comes to such a state.
pub thread_block-IsScheduled :
    (s : Threads) (stat : TaskStatus)
    → IsScheduled s
    → is_blocked stat ≡ true
    → (s1 : Threads) × (thread_block s stat ≡ ok s1) × IsScheduled s1
unfolding thread_block
thread_block-IsScheduled s stat (r, run) b =
    let (s1, e, ready) = schedule-IsScheduled (set_status s s.current stat) (record {
      distinct = r.distinct;
      listed = λ t.
          ground (
            arith,
            r.listed t,
            r.listed s.current,
            not_ready stat b,
            not_both (s.status s.current),
          );
      alone = λ t h. ground (arith, r.alone t);
      idle = ground (arith, r.idle);
    }) in
    (s1, rw b e, ready)
  where
    not_ready : (p : TaskStatus) → is_blocked p ≡ true → is_ready p ≡ false
    not_ready p h = ground arith

    not_both : (p : TaskStatus) → is_running p ≡ true → is_ready p ≡ false
    not_both p h = ground arith
