-- ===== src/Signal/Tests.antt =====
-- The theorems on signals at a process with signal 2 pending.
use tros.Prelude.{ℕ, ◌+◌, ◌<◌, ◌≡◌, ◌==◌, if◌then◌else◌, refl, true, false, arith, some}
use tros.Disk.{word_at}
use tros.Signal.{Process, Context, resumed, setup_frame, sys_sigreturn, check_signal, put_word}
use tros.Signal.Check.{is_due, take_signal, check_signal-lowest}
use tros.Signal.Frame.{trap, saved_eip, return_address, sys_sigreturn-setup_frame}

-- The handler of signal 2 is at 4096.
abbrev with_handler : Process
with_handler = record { sighandlers = λ s. if s == 2 then 4096 else 2; signal_bits = 4 }

-- The stack pointer is at 1000, and the next instruction at 5000.
abbrev context : Context
context = record {
  stk = λ k. if k == 17 then 1000 else if k == 14 then 5000 else k;
  memory = λ a. 0;
}

-- Behind the handler the process stands where the saved registers lie.
abbrev handled : Context
handled = record { stk = put_word context.stk 14 924; memory = (setup_frame context 2 4096).memory }

saved : 924 ≡ saved_eip (trap handled.memory (return_address (setup_frame context 2 4096)))
unfolding trap return_address setup_frame tros.Disk.word_at tros.Disk.overlay tros.Disk.to_bytes
saved = refl

sys_sigreturn-setup_frame_example :
    ((setup_frame context 2 4096).stk 14 ≡ 4096)
    × (word_at (setup_frame context 2 4096).memory ((setup_frame context 2 4096).stk 17 + 4) ≡ 2)
    × (trap handled.memory (return_address (setup_frame context 2 4096)) ≡ some (31, 924))
    × ((sys_sigreturn handled).0 ≡ 8)
    × ((k : ℕ) → k < 19 → (sys_sigreturn handled).1.stk k ≡ context.stk k)
sys_sigreturn-setup_frame_example =
    sys_sigreturn-setup_frame context 2 4096 handled (omega arith, omega arith) (omega arith)
      (λ k lt. ground arith) (λ a lo hi. refl) saved

check_signal-lowest_example :
    ((j : ℕ)
      → j < 16
      → is_due with_handler j ≡ true
      → ((k : ℕ) → k < j → is_due with_handler k ≡ false)
      → check_signal with_handler context ≡ take_signal with_handler context j)
    × (((k : ℕ) → k < 16 → is_due with_handler k ≡ false)
        → check_signal with_handler context ≡ (resumed, with_handler, context))
check_signal-lowest_example = check_signal-lowest with_handler context
