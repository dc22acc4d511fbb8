-- ===== src/Pipe.antt =====
-- src/ipc/pipe.c: the two ends of an anonymous pipe.
-- `anon_pipe_read` and `anon_pipe_write` loop over calls of `ioq_getchar` and `ioq_putchar`. A loop
-- is modelled up to the first call that waits: when the thread is woken it goes on with the
-- characters that are left, on the queue as the other threads have left it. A pipe is there: the
-- ASSERTs that its pointer is not NULL are left out.
pub mod Transfer
pub mod Release
mod Tests
use tros.Prelude.{
  ℕ, zero, suc, ◌+◌, Bool, true, false, not, Option, none, some, List, [], ◌∷◌, ◌==◌, if◌then◌else◌,
}
use tros.IoQueue.{
  IoQueue, Cond, Turn, waits, returns, ioqueue_init, ioq_getchar, ioq_putchar, ioq_close,
}

-- `struct pipe_struct` without its lock. `released` counts the calls of `release_pipe`.
pub record PipeStruct : Type 0 where
  pub q : IoQueue
  pub has_reader : Bool
  pub has_writer : Bool
  pub released : ℕ

pub create_pipe : (ℕ → ℕ) → PipeStruct
unfolding ioqueue_init
create_pipe garbage = record {
  q = ioqueue_init garbage;
  has_reader = false;
  has_writer = false;
  released = 0;
}

pub release_pipe : PipeStruct → PipeStruct
release_pipe pp = record pp { released = pp.released + 1 }

-- How far a loop came: its characters, the queue, and the condition that it waits for, if any.
pub record Stretch : Type 0 where
  pub moved : List ℕ
  pub queue : IoQueue
  pub waiting : Option Cond

abbrev pub stop : IoQueue → Stretch
stop ioq = record { moved = []; queue = ioq; waiting = none }

abbrev pub pause : Cond → IoQueue → Stretch
pause c ioq = record { moved = []; queue = ioq; waiting = some c }

abbrev pub then_char : ℕ → Stretch → Stretch
then_char ch s = record s { moved = ch ∷ s.moved }

-- while (n < (int) size) …: `size` is what is left to read.
pub anon_pipe_read : IoQueue → (size : ℕ) → Stretch
anon_pipe_read ioq zero = stop ioq
anon_pipe_read ioq (suc size) = elim (ioq_getchar ioq) [
  | waits c ↦ pause c ioq
  | returns (some ch) ioq' wakes ↦ then_char ch (anon_pipe_read ioq' size)
  | returns none ioq' wakes ↦ stop ioq'
]

-- while (ptr != end) …: `content` is what is left to write.
pub anon_pipe_write : IoQueue → (content : List ℕ) → Stretch
anon_pipe_write ioq [] = stop ioq
anon_pipe_write ioq (ch ∷ content) = elim (ioq_putchar ioq ch) [
  | waits c ↦ pause c ioq
  | returns true ioq' wakes ↦ then_char ch (anon_pipe_write ioq' content)
  | returns false ioq' wakes ↦ stop ioq'
]

pub anon_pipe_release_reader : PipeStruct → PipeStruct
unfolding ioq_close release_pipe
anon_pipe_release_reader pp =
    let pp1 = record pp { has_reader = false } in
    let pp2 = record pp1 { q = (ioq_close pp1.q).0 } in
    if not pp2.has_writer then release_pipe pp2 else pp2

pub anon_pipe_release_writer : PipeStruct → PipeStruct
unfolding ioq_close release_pipe
anon_pipe_release_writer pp =
    let pp1 = record pp { has_writer = false } in
    let pp2 = record pp1 { q = (ioq_close pp1.q).0 } in
    if not pp2.has_reader then release_pipe pp2 else pp2
