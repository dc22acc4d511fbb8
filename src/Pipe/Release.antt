-- ===== src/Pipe/Release.antt =====
-- When the memory of a pipe is given back.
use tros.Prelude.{◌+◌, ◌≡◌, true, arith}
use tros.IoQueue.{ioq_close}
use tros.Pipe.{PipeStruct, release_pipe, anon_pipe_release_reader, anon_pipe_release_writer}

-- Of a pipe with both ends open, the release of the first end closes the queue and keeps the memory,
-- and the release of the other end gives it back, once, in whichever order the ends are released.
pub release_once :
    (pp : PipeStruct)
    → pp.has_reader ≡ true
    → pp.has_writer ≡ true
    → let r = anon_pipe_release_reader pp in
      let w = anon_pipe_release_writer pp in
      (r.released ≡ pp.released)
      × (r.q.closed ≡ true)
      × (w.released ≡ pp.released)
      × (w.q.closed ≡ true)
      × ((anon_pipe_release_writer r).released ≡ pp.released + 1)
      × ((anon_pipe_release_reader w).released ≡ pp.released + 1)
unfolding anon_pipe_release_reader anon_pipe_release_writer release_pipe ioq_close
release_once pp reader writer = ground arith
