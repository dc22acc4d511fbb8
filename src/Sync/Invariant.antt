-- ===== src/Sync/Invariant.antt =====
-- What holds of the lock between any two steps.
use tros.Prelude.{ℕ, ◌<◌, ◌≡◌, ◌≢◌, Bool, true, false, Option, none, some, List, [], ◌∷◌}
use tros.Sync.{
  mem, Pc, outside, down, blocked, woken, got, held, inside, leaving, unheld, up, LockState,
  is_thread, is_blocked,
}

-- From the return of `sema_down` to the call of `sema_up`.
abbrev pub owns : Pc → Bool
owns outside = false
owns down = false
owns blocked = false
owns woken = false
owns _ = true

-- What `holder` and `holder_repeat_nr` are while the owner of the semaphore stands at a place.
abbrev pub Fields : Pc → ℕ → Option ℕ → ℕ → Type 0
Fields got o holder n = (holder ≡ none) × (n ≡ 0)
Fields held o holder n = (holder ≡ some o) × (n ≡ 0)
Fields inside o holder n = (holder ≡ some o) × (0 < n)
Fields leaving o holder n = (holder ≡ some o) × (n ≡ 1)
Fields unheld o holder n = (holder ≡ none) × (n ≡ 1)
Fields up o holder n = (holder ≡ none) × (n ≡ 0)
Fields _ o holder n = Unit

abbrev pub Owned : Option ℕ → LockState → Type 0
Owned none s = (s.semaphore.value ≡ 1) × (s.holder ≡ none) × (s.holder_repeat_nr ≡ 0)
Owned (some o) s = (s.semaphore.value ≡ 0) × Fields (s.pc o) o s.holder s.holder_repeat_nr

abbrev pub Distinct : List ℕ → Type 0
Distinct [] = Unit
Distinct (x ∷ xs) = (mem x xs ≡ false) × Distinct xs

-- `owner` is the thread that has the semaphore, if any.
pub record Inv (owner : Option ℕ) (s : LockState) : Type 0 where
  pub owning : (t : ℕ) → owns (s.pc t) ≡ is_thread owner t
  pub fields : Owned owner s
  pub queued : (t : ℕ) → mem t s.semaphore.waiters ≡ is_blocked (s.pc t)
  pub distinct : Distinct s.semaphore.waiters
  pub ready : (t : ℕ) → is_blocked (s.pc t) ≡ true → mem t s.thread_ready_list ≡ false
  pub wakeful : owner ≡ none → s.semaphore.waiters ≢ [] → (t : ℕ) × (s.pc t ≡ woken)
