-- ===== src/Sync/Safety.antt =====
-- What holds in every state that the threads can reach.
use tros.Prelude.{
  ℕ, ◌+◌, ◌<◌, ◌^◌, ◌≡◌, refl, ap, sym, ◌∙◌, ◌⊎◌, inl, inr, true, false, List, [], ◌∷◌, ◌++◌,
  Option, none, some, arith, ok, ok-injective,
}
use mathlib.Core.Path.{subst}
use tros.Sync.{mem, is_blocked, blocked, woken, LockState, Choice, step, lock_init}
use tros.Sync.Invariant.{owns, Inv}
use tros.Sync.Locking.{mem-append, step-Steps, lock_init-Inv}

-- The states that any threads reach from `lock_init` by any steps, with fewer than 2 ^ 32 nested
-- calls of `lock_acquire`. A thread that takes a step runs, and so is not in the ready list; between
-- any two steps `schedule` may put a thread that is not blocked at the end of this list, or take the
-- first thread from it.
pub data Reach : LockState → Type 0 where
  start : Reach lock_init
  later :
      {s s' : LockState} (t : ℕ) (c : Choice)
      → Reach s
      → s.holder_repeat_nr + 1 < 2 ^ 32
      → mem t s.thread_ready_list ≡ false
      → step s t c ≡ ok s'
      → Reach s'
  preempted :
      {s : LockState} (t : ℕ)
      → Reach s
      → is_blocked (s.pc t) ≡ false
      → mem t s.thread_ready_list ≡ false
      → Reach (record s { thread_ready_list = s.thread_ready_list ++ (t ∷ []) })
  dispatched :
      {s : LockState} (t : ℕ) (rest : List ℕ)
      → Reach s
      → s.thread_ready_list ≡ t ∷ rest
      → Reach (record s { thread_ready_list = rest })

Inv-preempted :
    (s : LockState) (owner : Option ℕ) (t : ℕ)
    → Inv owner s
    → is_blocked (s.pc t) ≡ false
    → Inv owner (record s { thread_ready_list = s.thread_ready_list ++ (t ∷ []) })
Inv-preempted s none t inv free = record {
  owning = inv.owning;
  fields = inv.fields;
  queued = inv.queued;
  distinct = inv.distinct;
  ready = λ u b. ground (arith, inv.ready u, mem-append u s.thread_ready_list t);
  wakeful = inv.wakeful;
}
Inv-preempted s (some o) t inv free = record {
  owning = inv.owning;
  fields = inv.fields;
  queued = inv.queued;
  distinct = inv.distinct;
  ready = λ u b. ground (arith, inv.ready u, mem-append u s.thread_ready_list t);
  wakeful = inv.wakeful;
}

Inv-dispatched :
    (s : LockState) (owner : Option ℕ) (t : ℕ) (rest : List ℕ)
    → Inv owner s
    → s.thread_ready_list ≡ t ∷ rest
    → Inv owner (record s { thread_ready_list = rest })
Inv-dispatched s none t rest inv e = record {
  owning = inv.owning;
  fields = inv.fields;
  queued = inv.queued;
  distinct = inv.distinct;
  ready = λ u b. ground (arith, inv.ready u, ap (mem u) e);
  wakeful = inv.wakeful;
}
Inv-dispatched s (some o) t rest inv e = record {
  owning = inv.owning;
  fields = inv.fields;
  queued = inv.queued;
  distinct = inv.distinct;
  ready = λ u b. ground (arith, inv.ready u, ap (mem u) e);
  wakeful = inv.wakeful;
}

Reach-Inv : {s : LockState} → Reach s → (owner : Option ℕ) × Inv owner s
Reach-Inv start = (none, lock_init-Inv)
Reach-Inv (later {s} {s'} t c r few runs e) =
    let (owner, inv) = Reach-Inv r in
    let (next, e', owner', inv') = step-Steps s t c owner inv few runs in
    (owner', subst (Inv owner') (ok-injective (sym e' ∙ e)) inv')
Reach-Inv (preempted {s} t r free out) =
    let (owner, inv) = Reach-Inv r in (owner, Inv-preempted s owner t inv free)
Reach-Inv (dispatched {s} t rest r e) =
    let (owner, inv) = Reach-Inv r in (owner, Inv-dispatched s owner t rest inv e)

-- Two threads that have returned from `sema_down` and not yet called `sema_up` are the same thread:
-- the lock excludes.
pub mutual_exclusion :
    {s : LockState} → Reach s → (i j : ℕ) → owns (s.pc i) ≡ true → owns (s.pc j) ≡ true → i ≡ j
mutual_exclusion {s} r i j own own' = go (Reach-Inv r).0 (Reach-Inv r).1
  where
    go : (owner : Option ℕ) → Inv owner s → i ≡ j
    go none inv = absurd (ground (arith, inv.owning i))
    go (some o) inv = ground (arith, inv.owning i, inv.owning j)

-- With fewer than 2 ^ 32 nested calls of `lock_acquire`, no ASSERT of the semaphore and of the lock, and none of `thread_unblock`, fails, whatever step of a
-- thread that runs comes next.
pub no_panic :
    {s : LockState}
    → Reach s
    → s.holder_repeat_nr + 1 < 2 ^ 32
    → (t : ℕ) (c : Choice) → mem t s.thread_ready_list ≡ false
    → (s' : LockState) × (step s t c ≡ ok s') × Reach s'
no_panic {s} r few t c runs =
    let (owner, inv) = Reach-Inv r in
    let (s', e, owner', inv') = step-Steps s t c owner inv few runs in
    (s', e, later t c r few runs e)

-- No wakeup is lost: while a thread is blocked, some thread has the semaphore and will call
-- `sema_up`, or a thread has been unblocked and will try to take the semaphore.
pub no_lost_wakeup :
    {s : LockState}
    → Reach s
    → (t : ℕ) → s.pc t ≡ blocked
    → (u : ℕ) × ((owns (s.pc u) ≡ true) ⊎ (s.pc u ≡ woken))
no_lost_wakeup {s} r t here = go (Reach-Inv r).0 (Reach-Inv r).1
  where
    go : (owner : Option ℕ) → Inv owner s → (u : ℕ) × ((owns (s.pc u) ≡ true) ⊎ (s.pc u ≡ woken))
    go (some o) inv = (o, inl (ground (arith, inv.owning o)))
    go none inv =
        let (w, e) =
          inv.wakeful refl λ empty. absurd (ground (arith, inv.queued t, ap (mem t) empty)) in
        (w, inr e)
