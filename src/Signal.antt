-- ===== src/Signal.antt =====
-- src/kernel/signal.c: the handlers and the pending signals of a process, and the frame on its stack
-- in which a handler runs.
-- The registers that an interrupt has saved (`struct intr_stack`) are 19 words, and the memory of the
-- process is its bytes. `handle_signal_default` ends the process and does not return.
pub mod Frame
pub mod Check
mod Tests
use tros.Prelude.{
  ℕ, zero, suc, ◌+◌, ◌-◌, ◌*◌, ◌/◌, ◌%◌, ◌^◌, bit_and, bit_or, Bool, true, false, not, ◌&&◌, Option,
  none, some, ltb, leb, ◌==◌, if◌then◌else◌, sub32, Run, ok, ◌>>=◌, ◌>>◌, assert,
}
use tros.Disk.{Buffer, overlay, word_at, to_bytes}

abbrev pub max_signals : ℕ
max_signals = 16

abbrev pub sig_ign : ℕ
sig_ign = 1

abbrev pub sig_dfl : ℕ
sig_dfl = 2

-- What a process has of signals.
pub record Process : Type 0 where
  pub sighandlers : ℕ → ℕ
  pub signal_bits : ℕ

-- The handler that was there, and the process.
unfoldable pub sys_signal : Process → (sig handler : ℕ) → Run (ℕ × Process)
sys_signal p sig handler = do
  assert (ltb 0 sig && ltb sig max_signals)
  ok (
    p.sighandlers sig,
    record p { sighandlers = λ s. if sig == s then handler else p.sighandlers s },
  )

-- `proc` is what `pid2thread` finds; without one the result is -1.
abbrev pub raise_bit : Option Process → (signum : ℕ) → ℕ × Option Process
raise_bit none signum = (2 ^ 32 - 1, none)
raise_bit (some p) signum = (0, some (record p { signal_bits = bit_or p.signal_bits (2 ^ signum) }))

unfoldable pub sys_kill : (proc : Option Process) → (signum : ℕ) → Run (ℕ × Option Process)
sys_kill proc signum = do
  assert (ltb 0 signum && ltb signum max_signals)
  ok (raise_bit proc signum)

-- Places in the saved registers, the size of them, and the number of the system call.
abbrev pub eax_word : ℕ
eax_word = 8

abbrev pub eip_word : ℕ
eip_word = 14

abbrev pub esp_word : ℕ
esp_word = 17

abbrev pub intr_stack_size : ℕ
intr_stack_size = 76

abbrev pub sys_sigreturn_nr : ℕ
sys_sigreturn_nr = 31

abbrev pub put_word : (ℕ → ℕ) → (i v : ℕ) → ℕ → ℕ
put_word words i v j = if i == j then v else words j

-- A word or a number of 16 bits on the stack.
abbrev pub write_uint32 : Buffer → (ptr val : ℕ) → Buffer
write_uint32 m ptr val = overlay m ptr (to_bytes (λ k. val)) 4

abbrev pub write_uint16 : Buffer → (ptr val : ℕ) → Buffer
write_uint16 m ptr val = overlay m ptr (to_bytes (λ k. val)) 2

abbrev pub write_byte : Buffer → (ptr val : ℕ) → Buffer
write_byte m ptr val a = if ptr == a then val else m a

-- The saved registers and the memory of the process.
pub record Context : Type 0 where
  pub stk : ℕ → ℕ
  pub memory : Buffer

unfoldable pub setup_frame : Context → (signum handler : ℕ) → Context
setup_frame c signum handler =
    let backup = sub32 (c.stk esp_word) intr_stack_size in
    let m1 = overlay c.memory backup (to_bytes c.stk) intr_stack_size in
    let int_0x80 = sub32 backup 2 in
    let m2 = write_uint16 m1 int_0x80 0x80cd in
    let number = sub32 int_0x80 4 in
    let m3 = write_uint32 m2 number sys_sigreturn_nr in
    let instr_addr = sub32 number 1 in
    let m4 = write_byte m3 instr_addr 0xb8 in
    let parameter = sub32 instr_addr 4 in
    let m5 = write_uint32 m4 parameter signum in
    let uesp = sub32 parameter 4 in
    let m6 = write_uint32 m5 uesp instr_addr in
    record { stk = put_word (put_word c.stk esp_word uesp) eip_word handler; memory = m6 }

-- The result, and the registers: those that lie where the call returns to.
unfoldable pub sys_sigreturn : Context → ℕ × Context
sys_sigreturn c =
    let backup = c.stk eip_word in
    let stk : ℕ → ℕ = λ k. if ltb k 19 then word_at c.memory (backup + k * 4) else c.stk k in
    (stk eax_word, record c { stk = stk })

-- How a pass over the signals ends.
pub data Outcome : Type 0 where
  resumed : Outcome
  terminated delivered : (signum : ℕ) → Outcome

-- current->signal_bits & (1 << i)
abbrev pub is_pending : Process → (i : ℕ) → Bool
is_pending p i = not (bit_and p.signal_bits (2 ^ i) == 0)

-- The `left` signals from `i` on.
unfoldable pub check_from : (left i : ℕ) → Process → Context → Outcome × Process × Context
unfolding setup_frame
check_from zero i p c = (resumed, p, c)
check_from (suc left) i p c =
    let rest = check_from left (i + 1) p c in
    let handler = p.sighandlers i in
    let cleared : Process = record p { signal_bits = bit_and p.signal_bits (2 ^ 32 - 1 - 2 ^ i) } in
    if not (is_pending p i)
    then rest
    else if handler == sig_ign
    then rest
    else if handler == sig_dfl
    then (terminated i, p, c)
    else (delivered i, cleared, setup_frame c i handler)

unfoldable pub check_signal : Process → Context → Outcome × Process × Context
unfolding check_from
check_signal p c = check_from max_signals 0 p c
