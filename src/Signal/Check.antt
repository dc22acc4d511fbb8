-- ===== src/Signal/Check.antt =====
-- Which signal `check_signal` of src/kernel/signal.c takes.
use tros.Prelude.{
  ℕ, Bool, zero, suc, ◌+◌, ◌-◌, ◌^◌, ◌<◌, ◌≤◌, ◌≡◌, refl, ◌∙◌, true, false, not, ◌&&◌, arith,
  bit_and, ◌==◌, if◌then◌else◌, Bool-cases, inl, inr,
}
use mathlib.Core.Path.{subst}
use tros.Signal.{
  Process, Context, Outcome, resumed, terminated, delivered, sig_ign, sig_dfl, is_pending,
  setup_frame, check_from, check_signal,
}

-- A signal that is pending and not ignored.
abbrev pub is_due : Process → ℕ → Bool
is_due p i = is_pending p i && not (p.sighandlers i == sig_ign)

-- What the taking of signal `i` comes to.
unfoldable pub take_signal : Process → Context → (i : ℕ) → Outcome × Process × Context
take_signal p c i = if p.sighandlers i == sig_dfl then (terminated i, p, c) else (
  delivered i,
  record p { signal_bits = bit_and p.signal_bits (2 ^ 32 - 1 - 2 ^ i) },
  setup_frame c i (p.sighandlers i),
)

check_from-skip :
    (left i : ℕ) (p : Process) (c : Context)
    → is_due p i ≡ false
    → check_from (suc left) i p c ≡ check_from left (i + 1) p c
unfolding check_from
check_from-skip left i p c quiet = elim (Bool-cases (is_pending p i)) [
  | inl pending ↦ let t : (p.sighandlers i == sig_ign) ≡ true = ground arith in rw (pending, t) refl
  | inr clear ↦ rw clear refl
]

check_from-due :
    (left i : ℕ) (p : Process) (c : Context)
    → is_due p i ≡ true
    → check_from (suc left) i p c ≡ take_signal p c i
unfolding check_from take_signal
check_from-due left i p c due =
    let a : is_pending p i ≡ true = ground arith in
    let b : (p.sighandlers i == sig_ign) ≡ false = ground arith in rw (a, b) refl

check_from-lowest :
    (left i j : ℕ) (p : Process) (c : Context)
    → i ≤ j
    → j < i + left
    → is_due p j ≡ true
    → ((k : ℕ) → i ≤ k → k < j → is_due p k ≡ false)
    → check_from left i p c ≡ take_signal p c j
check_from-lowest zero i j p c lo hi due before = absurd (omega arith)
check_from-lowest (suc left) i j p c lo hi due before = elim (Bool-cases (i == j)) [
  | inl here ↦
      let same : j ≡ i = ground arith in
      subst (λ j. check_from (suc left) i p c ≡ take_signal p c j) (ground arith)
        (check_from-due left i p c (subst (λ j. is_due p j ≡ true) same due))
  | inr later ↦
      check_from-skip left i p c (before i (omega arith) (ground arith))
      ∙ check_from-lowest left (i + 1) j p c (ground arith) (omega arith) due
          (λ k l h. before k (omega arith) h)
]

check_from-none :
    (left i : ℕ) (p : Process) (c : Context)
    → ((k : ℕ) → i ≤ k → k < i + left → is_due p k ≡ false)
    → check_from left i p c ≡ (resumed, p, c)
unfolding check_from
check_from-none zero i p c quiet = refl
check_from-none (suc left) i p c quiet =
    check_from-skip left i p c (quiet i (omega arith) (omega arith))
    ∙ check_from-none left (i + 1) p c (λ k l h. quiet k (omega arith) (omega arith))

-- `check_signal` takes the lowest of the signals that are pending and not ignored: it ends the process
-- if the handler is the default one, and otherwise clears the signal and sets up its frame. If there
-- is no such signal, it changes nothing.
pub check_signal-lowest :
    (p : Process) (c : Context)
    → ((j : ℕ)
        → j < 16
        → is_due p j ≡ true
        → ((k : ℕ) → k < j → is_due p k ≡ false)
        → check_signal p c ≡ take_signal p c j)
      × (((k : ℕ) → k < 16 → is_due p k ≡ false) → check_signal p c ≡ (resumed, p, c))
unfolding check_signal
check_signal-lowest p c = (
  λ j small due before.
      check_from-lowest 16 0 j p c (omega arith) (omega arith) due (λ k l h. before k h),
  λ quiet. check_from-none 16 0 p c (λ k l h. quiet k (omega arith)),
)
