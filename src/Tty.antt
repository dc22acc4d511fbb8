-- ===== src/Tty.antt =====
-- src/device/tty.c: the line discipline between the keyboard and the readers of a terminal.
-- `line_size` is an `int`, kept as its 32 bits: a backspace on an empty line makes it -1, that is
-- 2 ^ 32 - 1. What the console shows and the signals that are sent are values.
mod Tests
use tros.Prelude.{
  ℕ, zero, suc, ◌+◌, ◌-◌, Bool, true, false, not, ◌&&◌, ◌||◌, List, [], ◌∷◌, ◌++◌, ltb, leb, ◌==◌,
  if◌then◌else◌, add32, sub32, replicate, length,
}
use tros.IoQueue.{
  IoQueue, Cond, Turn, waits, returns, ioqueue_init, ioq_close, ioq_read_some, ioq_write_some,
}

abbrev pub n_tty_line_buf_size : ℕ
n_tty_line_buf_size = 1024

abbrev pub ctrl_c : ℕ
ctrl_c = 3

abbrev pub ctrl_d : ℕ
ctrl_d = 4

abbrev pub ctrl_u : ℕ
ctrl_u = 21

abbrev pub ctrl_l : ℕ
ctrl_l = 12

-- `struct n_tty_data`
pub record NTtyData : Type 0 where
  pub buffer : IoQueue
  pub line_buf : ℕ → ℕ
  pub line_size : ℕ
  pub ctrl : ℕ

-- `console_put_char`, the two calls of `console_put_str`, and `sys_kill(tty->fg_pid, SIGINT)`.
pub data Effect : Type 0 where
  show_char : ℕ → Effect
  show_ctrl_c show_ctrl_d interrupt : Effect

-- `ctrl` is not set when a terminal is opened.
unfoldable pub n_tty_open : (ℕ → ℕ) → (ℕ → ℕ) → (ctrl : ℕ) → NTtyData
unfolding ioqueue_init
n_tty_open garbage line garbage_ctrl = record {
  buffer = ioqueue_init garbage;
  line_buf = line;
  line_size = 0;
  ctrl = garbage_ctrl;
}

unfoldable pub n_tty_close : NTtyData → NTtyData
unfolding ioq_close
n_tty_close tdata = record tdata { buffer = (ioq_close tdata.buffer).0 }

abbrev pub is_ctrl_end : ℕ → Bool
is_ctrl_end ch = (ch == ctrl_c) || (ch == ctrl_d)

-- The characters that are read, and the result of the C function, an `int`.
unfoldable pub n_tty_read : NTtyData → (nr : ℕ) → Turn NTtyData (List ℕ × ℕ)
n_tty_read tdata nr = elim (ioq_read_some tdata.buffer nr) [
  | waits c ↦ waits c
  | returns chars q wakes ↦
      let r = length chars in
      returns (chars, if is_ctrl_end tdata.ctrl then sub32 r 1 else r) (record tdata { buffer = q })
        wakes
]

unfoldable pub echo : ℕ → Effect
echo ch = if ch == ctrl_c then show_ctrl_c else if ch == ctrl_d then show_ctrl_d else show_char ch

-- As many backspaces as the line has characters.
unfoldable pub clear_line_input : NTtyData → NTtyData × List Effect
clear_line_input tdata = (record tdata { line_size = 0 }, replicate tdata.line_size (show_char 8))

-- `line_buf[line_size] = ch; ++line_size;`
unfoldable pub add_char : NTtyData → (ch : ℕ) → NTtyData
add_char tdata ch = record tdata {
  line_buf = λ i. if tdata.line_size == i then ch else tdata.line_buf i;
  line_size = add32 tdata.line_size 1;
}

-- The first switch of the loop: the line, the character from then on, and whether a signal is sent.
-- `CTRL_U` is not among its cases here.
unfoldable pub edit : NTtyData → (ch : ℕ) → NTtyData × ℕ × List Effect
unfolding add_char
edit tdata ch =
    if ch == 8
    then (record tdata { line_size = sub32 tdata.line_size 1 }, ch, [])
    else if ch == ctrl_c
    then (add_char tdata 0xff, ch, interrupt ∷ [])
    else if ch == ctrl_d
    then (add_char tdata 0xff, ch, [])
    else if ch == 13
    then (add_char tdata 10, 10, [])
    else (add_char tdata ch, ch, [])

abbrev pub ends_line : NTtyData → (ch : ℕ) → Bool
ends_line tdata ch =
    (tdata.line_size == n_tty_line_buf_size)
    || (ch == 10)
    || (ch == ctrl_c)
    || (ch == ctrl_d)
    || (ch == ctrl_l)

-- The first `size` characters of the line from an index on.
unfoldable pub line_chars : (ℕ → ℕ) → (size i : ℕ) → List ℕ
line_chars buf zero i = []
line_chars buf (suc size) i = buf i ∷ line_chars buf size (i + 1)

-- The line goes to the buffer; what does not fit moves to the front of the line.
unfoldable pub flush : NTtyData → (ch : ℕ) → Turn NTtyData (Unit {0})
unfolding line_chars
flush tdata ch = elim (ioq_write_some tdata.buffer (line_chars tdata.line_buf tdata.line_size 0)) [
  | waits c ↦ waits c
  | returns s q wakes ↦
      let len = sub32 tdata.line_size s in
      returns tt
        (record {
          buffer = q;
          line_buf = λ i. if ltb i len then tdata.line_buf (s + i) else tdata.line_buf i;
          line_size = len;
          ctrl = if is_ctrl_end ch then ch else 0;
        })
        wakes
]

-- One character of `n_tty_receive_buf`: what is shown and sent, and the turn on the buffer.
unfoldable pub receive_char : NTtyData → (ch : ℕ) → List Effect × Turn NTtyData (Unit {0})
unfolding clear_line_input edit echo flush
receive_char tdata ch =
    let cleared = clear_line_input tdata in
    let edited = edit tdata ch in
    let tdata' = edited.0 in
    let ch' = edited.1 in
    if ch == ctrl_u then (cleared.1, returns tt cleared.0 []) else (
      edited.2 ++ (echo ch' ∷ []),
      if ends_line tdata' ch' then flush tdata' ch' else returns tt tdata' [],
    )
