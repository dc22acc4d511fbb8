-- ===== src/Pipe/Tests.antt =====
-- The theorems on pipes at concrete pipes.
use tros.Prelude.{◌≡◌, refl, true, false, none, [], ◌∷◌, arith}
use tros.IoQueue.{IoQueue}
use tros.IoQueue.Contents.{IsValid}
use tros.Pipe.{
  PipeStruct, anon_pipe_read, anon_pipe_write, anon_pipe_release_reader, anon_pipe_release_writer,
}
use tros.Pipe.Transfer.{anon_pipe_write-read}
use tros.Pipe.Release.{release_once}

-- A queue that holds the character 7.
abbrev seven : IoQueue
seven = record { buf = λ i. 7; head = 5; tail = 4; closed = false }

abbrev open_pipe : PipeStruct
open_pipe = record { q = seven; has_reader = true; has_writer = true; released = 0 }

seven-IsValid : IsValid seven
seven-IsValid = omega arith

anon_pipe_write-read_example :
    let w = anon_pipe_write seven (1 ∷ 2 ∷ []) in
    let r = anon_pipe_read w.queue 3 in
    (w.waiting ≡ none) × (r.waiting ≡ none) × (r.moved ≡ 7 ∷ 1 ∷ 2 ∷ [])
anon_pipe_write-read_example =
    anon_pipe_write-read seven (1 ∷ 2 ∷ []) seven-IsValid refl (omega arith)

release_once_example :
    let r = anon_pipe_release_reader open_pipe in
    let w = anon_pipe_release_writer open_pipe in
    (r.released ≡ 0)
    × (r.q.closed ≡ true)
    × (w.released ≡ 0)
    × (w.q.closed ≡ true)
    × ((anon_pipe_release_writer r).released ≡ 1)
    × ((anon_pipe_release_reader w).released ≡ 1)
release_once_example = release_once open_pipe refl refl
