-- ===== src/Atomic.antt =====
-- src/lib/atomic.c: a counter that several threads change.
-- `atomic_read` and `atomic_cmpxchg` run with interrupts off, so that each is one step. Between the two
-- in `atomic_inc`, `atomic_dec` and `atomic_set` any thread may run. A thread is a number, and an
-- `int` is kept as its 32 bits.
pub mod Linear
mod Tests
use tros.Prelude.{
  ℕ, ◌+◌, ◌-◌, ◌%◌, ◌^◌, Bool, true, false, Option, none, some, ◌==◌, if◌then◌else◌, add32, sub32,
}

-- `struct atomic_t`
pub record AtomicT : Type 0 where
  pub counter : ℕ

unfoldable pub atomic_init : AtomicT → AtomicT
atomic_init v = record { counter = 0 }

unfoldable pub atomic_read : AtomicT → ℕ
atomic_read v = v.counter

-- The value that was found, and the counter.
unfoldable pub atomic_cmpxchg : AtomicT → (old new : ℕ) → ℕ × AtomicT
atomic_cmpxchg v old new = (v.counter, if v.counter == old then record { counter = new } else v)

-- A call.
pub data Call : Type 0 where
  atomic_inc atomic_dec : Call
  atomic_set : (x : ℕ) → Call

-- What a call writes over an old value, and what it returns.
abbrev pub new_value : Call → (old : ℕ) → ℕ
new_value atomic_inc old = add32 old 1
new_value atomic_dec old = sub32 old 1
new_value (atomic_set x) old = x

abbrev pub result : Call → (old : ℕ) → ℕ
result atomic_inc old = add32 old 1
result atomic_dec old = sub32 old 1
result (atomic_set x) old = old

-- Where a thread stands: before the read of a pass of the loop, before its exchange with what it has
-- read, or behind the return with the result.
pub data Place : Type 0 where
  reading : Call → Place
  exchanging : Call → (old : ℕ) → Place
  returned : (value : ℕ) → Place

pub record Threads : Type 0 where
  pub v : AtomicT
  pub place : ℕ → Place

abbrev pub move : Threads → (t : ℕ) → Place → AtomicT → Threads
move s t p v = record { v = v; place = λ u. if t == u then p else s.place u }

-- The call that has taken effect in a step, if any, with its result.
abbrev pub Effect : Type 0
Effect = Option (Call × ℕ)

-- if (atomic_cmpxchg(v, old, _new) == old) break;
abbrev pub exchange : Threads → (t : ℕ) → Call → (old : ℕ) → (ℕ × AtomicT) → Threads × Effect
exchange s t call old found =
    if found.0 == old
    then (move s t (returned (result call old)) found.1, some (call, result call old))
    else (move s t (reading call) found.1, none)

-- A step of thread `t`, which stands at a place.
unfoldable pub loop_step : Place → Threads → (t : ℕ) → Threads × Effect
unfolding atomic_read atomic_cmpxchg
loop_step (reading call) s t = (move s t (exchanging call (atomic_read s.v)) s.v, none)
loop_step (exchanging call old) s t =
    exchange s t call old (atomic_cmpxchg s.v old (new_value call old))
loop_step (returned value) s t = (s, none)

unfoldable pub thread_step : Threads → (t : ℕ) → Threads × Effect
unfolding loop_step
thread_step s t = loop_step (s.place t) s t
