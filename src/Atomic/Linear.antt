-- ===== src/Atomic/Linear.antt =====
-- Every interleaving of the calls of src/lib/atomic.c is one of the calls run one after the other.
use tros.Prelude.{
  ℕ, ◌≡◌, refl, sym, ap, ◌∙◌, none, some, List, [], ◌∷◌, arith, ◌==◌, Bool-cases, inl, inr,
}
use tros.Atomic.{
  atomic_read, atomic_cmpxchg, Call, new_value, result, Place, reading, exchanging, returned,
  Threads, Effect, loop_step, thread_step,
}

-- The calls that have taken effect, the last one first.
abbrev pub Log : Type 0
Log = List (Call × ℕ)

abbrev pub logged : Effect → Log → Log
logged none log = log
logged (some e) log = e ∷ log

-- The counter behind the calls of a log, run one after the other on a counter that is `c` at first.
abbrev pub value_behind : (c : ℕ) → Log → ℕ
value_behind c [] = c
value_behind c (e ∷ log) = new_value e.0 (value_behind c log)

-- Every call of the log has the result that it has when they run one after the other.
abbrev pub ResultsOf : (c : ℕ) → Log → Type 0
ResultsOf c [] = Unit
ResultsOf c (e ∷ log) = (e.1 ≡ result e.0 (value_behind c log)) × ResultsOf c log

-- The states that steps of any threads reach from `s`, each with its log.
pub data Reached (s : Threads) : Log → Threads → Type 0 where
  start : Reached s [] s
  next :
      {log : Log} {s' : Threads}
      → Reached s log s'
      → (t : ℕ) → Reached s (logged (thread_step s' t).1 log) (thread_step s' t).0

-- What holds of a state and the log that led to it.
abbrev pub Linear : (c : ℕ) → Log → Threads → Type 0
Linear c log s = (s.v.counter ≡ value_behind c log) × ResultsOf c log

loop_step-Linear :
    (c : ℕ) (log : Log) (s : Threads) (t : ℕ) (p : Place)
    → Linear c log s
    → Linear c (logged (loop_step p s t).1 log) (loop_step p s t).0
unfolding loop_step atomic_read atomic_cmpxchg
loop_step-Linear c log s t (reading call) h = h
loop_step-Linear c log s t (returned value) h = h
loop_step-Linear c log s t (exchanging call old) h = elim (Bool-cases (s.v.counter == old)) [
  | inl same ↦
      let eq : old ≡ value_behind c log = sym (ground arith) ∙ h.0 in
      rw same (ap (new_value call) eq, (ap (result call) eq, h.1))
  | inr changed ↦ rw changed h
]

-- In every state that steps of any threads reach, the counter is the one behind the calls that have
-- taken effect, run one after the other in the order in which they did, and each of them returned
-- what it returns then.
pub Reached-Linear : (s s' : Threads) (log : Log) → Reached s log s' → Linear s.v.counter log s'
unfolding thread_step
Reached-Linear s s' log start = (refl, tt)
Reached-Linear s s' log (next {log = before} {s' = s1} r t) =
    loop_step-Linear s.v.counter before s1 t (s1.place t) (Reached-Linear s s1 before r)
