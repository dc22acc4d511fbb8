-- ===== src/Sync/Tests.antt =====
-- Runs of threads on one lock, and the theorems at them.
use tros.Prelude.{ℕ, ◌≡◌, refl, ◌⊎◌, true, Option, some, List, [], ◌∷◌, arith, ok}
use tros.Sync.{
  Pc, down, blocked, woken, got, held, inside, LockState, at_pc, release, step, lock_init,
}
use tros.Sync.Invariant.{owns}
use tros.Sync.Safety.{Reach, start, later, mutual_exclusion, no_panic, no_lost_wakeup}

abbrev nobody : ℕ → Pc
nobody t = Pc.outside

abbrev lock_at : Option ℕ → ℕ → List ℕ → ℕ → (ℕ → Pc) → LockState
lock_at holder value waiters n pc = record {
  holder = holder;
  semaphore = record { value = value; waiters = waiters };
  holder_repeat_nr = n;
  thread_ready_list = [];
  pc = pc;
}

-- Thread 1 takes the lock, and thread 2 blocks on it.
abbrev pc_held : ℕ → Pc
pc_held = at_pc (at_pc (at_pc (at_pc nobody 1 down) 1 got) 1 held) 1 inside

abbrev one_inside : LockState
one_inside = lock_at (some 1) 0 [] 1 pc_held

abbrev contended : LockState
contended = lock_at (some 1) 0 (2 ∷ []) 1 (at_pc (at_pc pc_held 2 down) 2 blocked)

one_inside-Reach : Reach one_inside
unfolding step lock_init
one_inside-Reach =
    later 1 release
      (later 1 release
        (later 1 release (later 1 release start (omega arith) refl refl) (omega arith) refl refl)
        (omega arith) refl refl)
      (omega arith) refl refl

contended-Reach : Reach contended
unfolding step
contended-Reach =
    later 2 release (later 2 release one_inside-Reach (omega arith) refl refl) (omega arith) refl
      refl

mutual_exclusion_example : ◌≡◌ {A = ℕ} 1 1
mutual_exclusion_example = mutual_exclusion contended-Reach 1 1 refl refl

no_panic_example : (s' : LockState) × (step contended 1 release ≡ ok s') × Reach s'
no_panic_example = no_panic contended-Reach (omega arith) 1 release refl

no_lost_wakeup_example : (u : ℕ) × ((owns (contended.pc u) ≡ true) ⊎ (contended.pc u ≡ woken))
no_lost_wakeup_example = no_lost_wakeup contended-Reach 2 refl
