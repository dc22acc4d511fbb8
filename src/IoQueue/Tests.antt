-- ===== src/IoQueue/Tests.antt =====
-- Runs of the queue functions, and the theorems at concrete queues.
use tros.Prelude.{ℕ, ◌<◌, ◌≡◌, refl, true, false, [], ◌∷◌, ◌++◌, arith, length, ◌==◌, if◌then◌else◌}
use tros.IoQueue.{bufsize, IoQueue, ioqueue_init, ioq_getchar, ioq_putchar}
use tros.IoQueue.Contents.{IsValid, contents}
use tros.IoQueue.Refine.{channel, view, LeavesValid, receive, ioq_getchar-receive}
use tros.IoQueue.History.{getchar, putchar, Run, here, next, Run-fifo}

abbrev zeros : ℕ → ℕ
zeros i = 0

-- The characters 7 and 8, the second at the start of the buffer.
abbrev wrapped : IoQueue
wrapped = record { buf = λ i. if i == 2047 then 7 else 8; head = 1; tail = 2047; closed = false }

wrapped-IsValid : IsValid wrapped
wrapped-IsValid = omega arith

contents-wrapped : contents wrapped ≡ 7 ∷ 8 ∷ []
contents-wrapped = refl

ioq_getchar-receive_example :
    (view (ioq_getchar wrapped) ≡ receive (channel wrapped)) × LeavesValid (ioq_getchar wrapped)
ioq_getchar-receive_example = ioq_getchar-receive wrapped wrapped-IsValid

-- One character is put in, and taken out.
put_get : (ioq : IoQueue) × Run (ioqueue_init zeros) (5 ∷ []) (5 ∷ []) ioq
unfolding ioqueue_init ioq_putchar ioq_getchar
put_get = (_, next (next here (putchar {c = 5} refl)) (getchar refl))

Run-fifo_example : (5 ∷ [] ≡ 5 ∷ [] ++ contents put_get.0) × (length (contents put_get.0) < bufsize)
Run-fifo_example = Run-fifo zeros put_get.1

-- A queue that is closed, and closed again.
abbrev shut : IoQueue
shut = record wrapped { closed = true }
