-- ===== src/IoQueue.antt =====
-- src/device/ioqueue.c and include/device/ioqueue.h: a ring of characters between threads.
-- Every function runs under `ioq->lock`. What it does from `lock_acquire`, or from the return of
-- `cv_wait`, up to the next `cv_wait` or up to `lock_release` is one turn on the queue; a function
-- that waits is run again from its first test when it is woken, and keeps nothing but its arguments.
pub mod Contents
pub mod Refine
pub mod History
mod Tests
use tros.Prelude.{
  ℕ, zero, suc, ◌+◌, ◌-◌, ◌%◌, Bool, true, false, not, ◌&&◌, Option, none, some, List, [], ◌∷◌, leb,
  ◌==◌, if◌then◌else◌, length,
}

abbrev pub bufsize : ℕ
bufsize = 2048

-- `struct ioqueue` without its lock and conditions. `buf` holds bytes, as unsigned characters.
pub record IoQueue : Type 0 where
  pub buf : ℕ → ℕ
  pub head : ℕ
  pub tail : ℕ
  pub closed : Bool

pub data Cond : Type 0 where
  space_avail data_avail : Cond

-- The calls of `cv_notify_one` and `cv_broadcast` that a turn makes.
pub data Wake : Type 0 where
  notify_one : Cond → Wake
  broadcast : Cond → Wake

-- A turn ends in `cv_wait`, with the queue as it was, or in the return of the function.
pub data Turn (S A : Type 0) : Type 0 where
  waits : Cond → Turn S A
  returns : A → S → List Wake → Turn S A

unfoldable pub ioqueue_init : (ℕ → ℕ) → IoQueue
ioqueue_init garbage = record { buf = garbage; head = 0; tail = 0; closed = false }

abbrev pub next_pos : ℕ → ℕ
next_pos pos = (pos + 1) % bufsize

abbrev pub is_ioq_full : IoQueue → Bool
is_ioq_full ioq = next_pos ioq.head == ioq.tail

abbrev pub is_ioq_empty : IoQueue → Bool
is_ioq_empty ioq = ioq.head == ioq.tail

abbrev pub write_at : (ℕ → ℕ) → ℕ → ℕ → ℕ → ℕ
write_at buf i v j = if i == j then v else buf j

pub ioq_full : IoQueue → Bool
ioq_full ioq = is_ioq_full ioq

-- `buf[tail]`, and the read cursor moved on.
pub take_char : IoQueue → ℕ × IoQueue
take_char ioq = (ioq.buf ioq.tail, record ioq { tail = next_pos ioq.tail })

-- `buf[head] = byte`, and the write cursor moved on.
pub put_char : IoQueue → ℕ → IoQueue
put_char ioq byte = record ioq { buf = write_at ioq.buf ioq.head byte; head = next_pos ioq.head }

-- `none` is the result -1.
unfoldable pub ioq_getchar : IoQueue → Turn IoQueue (Option ℕ)
unfolding take_char
ioq_getchar ioq =
    if not ioq.closed && is_ioq_empty ioq
    then waits data_avail
    else if ioq.closed && is_ioq_empty ioq
    then returns none ioq []
    else let (byte, ioq') = take_char ioq in returns (some byte) ioq' (notify_one space_avail ∷ [])

-- while (!is_ioq_empty(ioq) && p != end) …, with `room` characters left up to `end`.
pub read_loop : (room : ℕ) → IoQueue → List ℕ × IoQueue
unfolding take_char
read_loop zero ioq = ([], ioq)
read_loop (suc room) ioq =
    let (ch, ioq') = take_char ioq in
    let (rest, last) = read_loop room ioq' in
    if is_ioq_empty ioq then ([], ioq) else (ch ∷ rest, last)

-- The result is what has been written to `buf`; C returns its length.
pub ioq_read_some : IoQueue → (limit : ℕ) → Turn IoQueue (List ℕ)
unfolding read_loop
ioq_read_some ioq limit =
    if not ioq.closed && is_ioq_empty ioq
    then waits data_avail
    else if ioq.closed && is_ioq_empty ioq
    then returns [] ioq []
    else let (chars, ioq') = read_loop limit ioq in returns chars ioq' (notify_one space_avail ∷ [])

unfoldable pub ioq_putchar : IoQueue → (byte : ℕ) → Turn IoQueue Bool
unfolding put_char
ioq_putchar ioq byte =
    if not ioq.closed && is_ioq_full ioq
    then waits space_avail
    else if ioq.closed
    then returns false ioq []
    else returns true (put_char ioq byte) (notify_one data_avail ∷ [])

-- while (!is_ioq_full(ioq) && p != end) …, over the characters from `p` to `end`.
pub write_loop : IoQueue → (chars : List ℕ) → ℕ × IoQueue
unfolding put_char
write_loop ioq [] = (0, ioq)
write_loop ioq (ch ∷ chars) =
    let (size, last) = write_loop (put_char ioq ch) chars in
    if is_ioq_full ioq then (0, ioq) else (size + 1, last)

pub ioq_write_some : IoQueue → (chars : List ℕ) → Turn IoQueue ℕ
unfolding write_loop
ioq_write_some ioq chars =
    if not ioq.closed && is_ioq_full ioq
    then waits space_avail
    else if ioq.closed
    then returns 0 ioq []
    else let (size, ioq') = write_loop ioq chars in returns size ioq' (notify_one data_avail ∷ [])

pub ioq_length : IoQueue → ℕ
ioq_length ioq =
    if leb ioq.tail ioq.head then ioq.head - ioq.tail else bufsize - (ioq.tail - ioq.head)

unfoldable pub ioq_close : IoQueue → IoQueue × List Wake
ioq_close ioq =
    if not ioq.closed
    then (record ioq { closed = true }, broadcast data_avail ∷ broadcast space_avail ∷ [])
    else (ioq, [])

pub ioq_is_closed : IoQueue → Bool
ioq_is_closed ioq = ioq.closed
