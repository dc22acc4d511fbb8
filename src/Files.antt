-- ===== src/Files.antt =====
-- The table of open files and the descriptors of a process: src/fs/file.c, and of src/fs/fs.c and
-- src/ipc/pipe.c what works on them. The table is used under `file_table_lock` (Sync).
-- The process is the running one. -1 in `fd_table` is `none`, and so is NULL as a pointer. The use of
-- NULL as the inode, the operations or the pipe of a file is a stop.
pub mod Lseek
pub mod Ends
pub mod Refs
pub mod Closing
pub mod Opening
mod Tests
use tros.Prelude.{
  ℕ, zero, suc, ◌+◌, ◌-◌, ◌*◌, ◌/◌, ◌%◌, ◌^◌, Bool, true, false, not, ◌&&◌, ◌||◌, Option, none,
  some, ltb, leb, ◌==◌, if◌then◌else◌, add32, sub32, Run, ok, panic, ◌>>=◌, ◌>>◌, assert,
}
use tros.Disk.{Buffer}
use tros.Inode.{Inode, Fs, put_inode, inode_open, inode_close}
use tros.Pipe.{PipeStruct, create_pipe, anon_pipe_release_reader, anon_pipe_release_writer}

abbrev pub max_file_open : ℕ
max_file_open = 32

abbrev pub max_files_open_per_proc : ℕ
max_files_open_per_proc = 8

-- The result -1.
abbrev pub minus_one : ℕ
minus_one = 2 ^ 32 - 1

-- The values of `struct file_operations` that there are.
pub data FileOperations : Type 0 where
  disk_file_ops pipe_reader_ops pipe_writer_ops tty_input_ops tty_output_ops : FileOperations

-- `struct file`; `count` is an `int` of 32 bits.
pub record File : Type 0 where
  pub fd_pos : ℕ
  pub fd_flag : ℕ
  pub fd_inode : Option ℕ
  pub count : ℕ
  pub op : Option FileOperations
  pub private_data : Option ℕ

pub record Files : Type 0 where
  pub fs : Fs
  pub file_table : ℕ → File
  pub fd_table : ℕ → Option ℕ
  pub pipes : ℕ → PipeStruct

-- The address of `dummy_inode`, where no other inode lies.
abbrev pub dummy_inode : ℕ
dummy_inode = 0

abbrev pub put {ℓ} : {A : Type ℓ} → (ℕ → A) → ℕ → A → ℕ → A
put f i v j = if i == j then v else f j

abbrev pub put_file : Files → (fd_idx : ℕ) → File → Files
put_file s fd_idx filp = record s { file_table = put s.file_table fd_idx filp }

-- while (fd_idx < MAX_FILE_OPEN) …
unfoldable pub file_table_init : Files → Files
file_table_init s = record s {
  file_table = λ fd_idx.
      if ltb fd_idx max_file_open
      then record (s.file_table fd_idx) { fd_inode = none }
      else s.file_table fd_idx;
}

unfoldable pub release_free_slot_in_global : Files → (fd : ℕ) → Run Files
release_free_slot_in_global s fd = do
  assert (ltb fd max_file_open)
  ok (put_file s fd (record (s.file_table fd) { fd_inode = none }))

abbrev pub is_none {ℓ} : {A : Type ℓ} → Option A → Bool
is_none none = true
is_none (some a) = false

-- The first of the `left` slots from `fd_idx` on that is free.
pub free_slot_from : (left : ℕ) → (ℕ → File) → (fd_idx : ℕ) → Option ℕ
free_slot_from zero file_table fd_idx = none
free_slot_from (suc left) file_table fd_idx =
    if is_none (file_table fd_idx).fd_inode
    then some fd_idx
    else free_slot_from left file_table (fd_idx + 1)

abbrev pub take_slot : Files → Option ℕ → Option ℕ × Files
take_slot s none = (none, s)
take_slot s (some fd_idx) =
    (some fd_idx, put_file s fd_idx (record (s.file_table fd_idx) { fd_inode = some dummy_inode }))

unfoldable pub get_free_slot_in_global : Files → Option ℕ × Files
unfolding free_slot_from
get_free_slot_in_global s = take_slot s (free_slot_from (max_file_open - 3) s.file_table 3)

pub free_fd_from : (left : ℕ) → (ℕ → Option ℕ) → (local_fd_idx : ℕ) → Option ℕ
free_fd_from zero fd_table local_fd_idx = none
free_fd_from (suc left) fd_table local_fd_idx =
    if is_none (fd_table local_fd_idx)
    then some local_fd_idx
    else free_fd_from left fd_table (local_fd_idx + 1)

abbrev pub install : Files → (globa_fd_idx : ℕ) → Option ℕ → ℕ × Files
install s globa_fd_idx none = (minus_one, s)
install s globa_fd_idx (some local_fd_idx) =
    (local_fd_idx, record s { fd_table = put s.fd_table local_fd_idx (some globa_fd_idx) })

unfoldable pub pcb_fd_install : Files → (globa_fd_idx : ℕ) → ℕ × Files
unfolding free_fd_from
pcb_fd_install s globa_fd_idx =
    install s globa_fd_idx (free_fd_from (max_files_open_per_proc - 3) s.fd_table 3)

abbrev pub init_file_struct : File → File
init_file_struct filp = record {
  fd_pos = 0;
  fd_flag = 0;
  fd_inode = filp.fd_inode;
  count = 0;
  op = none;
  private_data = none;
}

abbrev pub check_global : Option ℕ → Run ℕ
check_global none = panic
check_global (some global_fd) = assert (ltb global_fd max_file_open) >> ok global_fd

unfoldable pub fd_local2global : Files → (local_fd : ℕ) → Run ℕ
fd_local2global s local_fd = check_global (s.fd_table local_fd)

abbrev pub set_write_deny : (ℕ → Inode) → ℕ → ℕ → ℕ → Inode
set_write_deny inodes p v = put_inode inodes p (record (inodes p) { write_deny = v })

-- `disk_file_release` of a file with this `fd_inode`.
abbrev pub release_inode : Option ℕ → Files → Run (ℕ × Files)
release_inode none s = panic
release_inode (some p) s =
    let fs1 : Fs = record s.fs { inodes = set_write_deny s.fs.inodes p 0 } in
    ok (0, record s { fs = inode_close fs1 p })

unfoldable pub disk_file_release : Files → File → Run (ℕ × Files)
disk_file_release s file = release_inode file.fd_inode s

-- `anon_pipe_release_reader` or `anon_pipe_release_writer` of a file with this `private_data`.
abbrev pub release_end : (PipeStruct → PipeStruct) → Option ℕ → Files → Run (ℕ × Files)
release_end release none s = panic
release_end release (some pp) s = ok (0, record s { pipes = put s.pipes pp (release (s.pipes pp)) })

abbrev pub no_release_fn : Files → Run (ℕ × Files)
no_release_fn s = ok (minus_one, s)

-- filp->op->release(filp)
unfoldable pub release_file : Option FileOperations → Files → File → Run (ℕ × Files)
unfolding disk_file_release
release_file none s filp = panic
release_file (some disk_file_ops) s filp = disk_file_release s filp
release_file (some pipe_reader_ops) s filp =
    release_end anon_pipe_release_reader filp.private_data s
release_file (some pipe_writer_ops) s filp =
    release_end anon_pipe_release_writer filp.private_data s
release_file (some tty_input_ops) s filp = no_release_fn s
release_file (some tty_output_ops) s filp = no_release_fn s

-- The `atomic_dec` of `sys_close` and what follows it.
unfoldable pub drop_file : Files → (global_fd : ℕ) → Run (ℕ × Files)
unfolding release_file release_free_slot_in_global
drop_file s global_fd = do
  let old = s.file_table global_fd
  let filp : File = record old { count = sub32 old.count 1 }
  let s1 : Files = put_file s global_fd filp
  if filp.count == 0
      then (do
        released ← release_file filp.op s1 filp
        s2 ← release_free_slot_in_global released.1 global_fd
        ok (released.0, s2))
      else ok (0, s1)

unfoldable pub sys_close : Files → (fd : ℕ) → Run (ℕ × Files)
unfolding fd_local2global drop_file
sys_close s fd = do
  assert (ltb fd (2 ^ 31))
  global_fd ← fd_local2global s fd
  dropped ← if ltb 2 global_fd then drop_file s global_fd else ok (minus_one, s)
  let s1 : Files = dropped.1
  ok (dropped.0, record s1 { fd_table = put s1.fd_table fd none })

abbrev pub o_wronly : ℕ
o_wronly = 1

abbrev pub o_rdwr : ℕ
o_rdwr = 2

-- `file_open` once it has a slot; `kmalloced` and `inode_buf` are for `inode_open`.
unfoldable pub open_in_slot :
    Files → (fd_idx inode_no flag kmalloced : ℕ) → (inode_buf : Buffer) → Run (ℕ × Files)
unfolding inode_open pcb_fd_install
open_in_slot s fd_idx inode_no flag kmalloced inode_buf = do
  opened ← inode_open s.fs inode_no kmalloced inode_buf
  let p = opened.0
  let filp : File = record (init_file_struct (s.file_table fd_idx)) {
    fd_inode = some p;
    fd_flag = flag;
    count = 1;
    op = some disk_file_ops;
  }
  let s1 : Files = put_file (record s { fs = opened.1 }) fd_idx filp
  let deny : Fs = record s1.fs { inodes = set_write_deny s1.fs.inodes p 1 }
  if (flag == o_wronly) || (flag == o_rdwr)
      then (if (s1.fs.inodes p).write_deny == 0
          then ok (pcb_fd_install (record s1 { fs = deny }) fd_idx)
          else ok (minus_one, s1))
      else ok (pcb_fd_install s1 fd_idx)

-- `file_open` behind the search for a slot.
abbrev pub open_found :
    Option ℕ × Files → (inode_no flag kmalloced : ℕ) → (inode_buf : Buffer) → Run (ℕ × Files)
open_found (none, s) inode_no flag kmalloced inode_buf = ok (minus_one, s)
open_found (some fd_idx, s) inode_no flag kmalloced inode_buf =
    open_in_slot s fd_idx inode_no flag kmalloced inode_buf

unfoldable pub file_open :
    Files → (inode_no flag kmalloced : ℕ) → (inode_buf : Buffer) → Run (ℕ × Files)
unfolding get_free_slot_in_global open_in_slot
file_open s inode_no flag kmalloced inode_buf =
    open_found (get_free_slot_in_global s) inode_no flag kmalloced inode_buf
