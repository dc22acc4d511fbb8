-- ===== src/Files/Ends.antt =====
-- `sys_pipe` and `sys_fd_redirect` of src/ipc/pipe.c, and what src/userprog/fork.c and
-- src/userprog/wait_exit.c do with the descriptors of a process.
use tros.Prelude.{
  ℕ, zero, suc, ◌+◌, true, Option, none, some, ltb, if◌then◌else◌, add32, sub32, Run, ok, ◌>>=◌,
  ◌>>◌, assert,
}
use tros.Pipe.{PipeStruct, create_pipe, release_pipe}
use tros.Files.{
  FileOperations, pipe_reader_ops, pipe_writer_ops, Files, minus_one, max_file_open, put, put_file,
  is_none, init_file_struct, get_free_slot_in_global, release_free_slot_in_global, pcb_fd_install,
  fd_local2global, sys_close, o_rdwr,
}

-- One end of a pipe in its slot.
abbrev pub pipe_end : Files → (gfd pp : ℕ) → FileOperations → Files
pipe_end s gfd pp ops = put_file s gfd (record (init_file_struct (s.file_table gfd)) {
  count = 1;
  fd_flag = o_rdwr;
  op = some ops;
  private_data = some pp;
})

abbrev pub put_pipe : Files → (pp : ℕ) → PipeStruct → Files
put_pipe s pp pipe = record s { pipes = put s.pipes pp pipe }

-- The two slots have been found: the result and the two descriptors.
unfoldable pub install_ends : Files → (pp reader_gfd writer_gfd : ℕ) → (ℕ × ℕ × ℕ) × Files
unfolding pcb_fd_install
install_ends s pp reader_gfd writer_gfd =
    let s1 : Files = pipe_end s reader_gfd pp pipe_reader_ops in
    let s2 : Files = put_pipe s1 pp (record (s1.pipes pp) { has_reader = true }) in
    let s3 : Files = pipe_end s2 writer_gfd pp pipe_writer_ops in
    let s4 : Files = put_pipe s3 pp (record (s3.pipes pp) { has_writer = true }) in
    let r = pcb_fd_install s4 reader_gfd in
    let w = pcb_fd_install r.1 writer_gfd in ((0, r.0, w.0), w.1)

-- `release_pipe` of the page, and -1. `pipefd` is not written.
abbrev pub no_pipe : Files → (pp : ℕ) → (ℕ × ℕ) → (ℕ × ℕ × ℕ) × Files
no_pipe s pp pipefd = ((minus_one, pipefd.0, pipefd.1), put_pipe s pp (release_pipe (s.pipes pp)))

abbrev pub writer_slot :
    Files → (pp reader_gfd : ℕ) → (ℕ × ℕ) → Option ℕ × Files → Run ((ℕ × ℕ × ℕ) × Files)
writer_slot s pp reader_gfd pipefd (none, s') = do
  s1 ← release_free_slot_in_global s' reader_gfd
  ok (no_pipe s1 pp pipefd)
writer_slot s pp reader_gfd pipefd (some writer_gfd, s') =
    ok (install_ends s' pp reader_gfd writer_gfd)

abbrev pub reader_slot : (pp : ℕ) → (ℕ × ℕ) → Option ℕ × Files → Run ((ℕ × ℕ × ℕ) × Files)
reader_slot pp pipefd (none, s) = ok (no_pipe s pp pipefd)
reader_slot pp pipefd (some reader_gfd, s) =
    writer_slot s pp reader_gfd pipefd (get_free_slot_in_global s)

-- `page` is what `get_kernel_pages` gives, and `garbage` what the buffer of the queue holds. The
-- result, what `pipefd` holds behind the call, and the state.
unfoldable pub sys_pipe :
    Files → (page : Option ℕ) → (garbage : ℕ → ℕ) → (pipefd : ℕ × ℕ) → Run ((ℕ × ℕ × ℕ) × Files)
unfolding get_free_slot_in_global install_ends release_free_slot_in_global
sys_pipe s none garbage pipefd = ok ((minus_one, pipefd.0, pipefd.1), s)
sys_pipe s (some pp) garbage pipefd =
    let s1 : Files = put_pipe s pp (create_pipe garbage) in
    reader_slot pp pipefd (get_free_slot_in_global s1)

-- `count` of a file, one up or one down.
abbrev pub atomic_inc : Files → ℕ → Files
atomic_inc s g = put_file s g (record (s.file_table g) { count = add32 (s.file_table g).count 1 })

abbrev pub atomic_dec : Files → ℕ → Files
atomic_dec s g = put_file s g (record (s.file_table g) { count = sub32 (s.file_table g).count 1 })

unfoldable pub sys_fd_redirect : Files → (old_local_fd new_local_fd : ℕ) → Run Files
unfolding fd_local2global
sys_fd_redirect s old_local_fd new_local_fd = do
  old_gfd ← fd_local2global s old_local_fd
  new_gfd ← fd_local2global s new_local_fd
  let target = if ltb new_local_fd 3 then some new_local_fd else s.fd_table new_local_fd
  let s1 : Files = record s { fd_table = put s.fd_table old_local_fd target }
  ok (atomic_inc (atomic_dec s1 old_gfd) new_gfd)

-- The loop of `update_file_open_cnts`, over the `left` descriptors from `local_fd` on.
unfoldable pub update_file_open_cnts :
    (left : ℕ) → (fd_table : ℕ → Option ℕ) → (local_fd : ℕ) → Files → Run Files
update_file_open_cnts zero fd_table local_fd s = ok s
update_file_open_cnts (suc left) fd_table local_fd s = elim (fd_table local_fd) [
  | none ↦ update_file_open_cnts left fd_table (local_fd + 1) s
  | some global_fd ↦
      assert (ltb global_fd max_file_open)
      >> update_file_open_cnts left fd_table (local_fd + 1) (atomic_inc s global_fd)
]

-- The last loop of `release_prog_resource`.
unfoldable pub close_all : (left : ℕ) → (local_fd : ℕ) → Files → Run Files
unfolding sys_close
close_all zero local_fd s = ok s
close_all (suc left) local_fd s =
    if is_none (s.fd_table local_fd)
    then close_all left (local_fd + 1) s
    else (do closed ← sys_close s local_fd; close_all left (local_fd + 1) closed.1)
