-- ===== src/Files/Lseek.antt =====
-- `disk_file_lseek` of src/fs/file.c and `sys_lseek` of src/fs/fs.c. An `int32_t` is kept as its 32
-- bits.
use tros.Prelude.{
  ℕ, ◌^◌, ◌<◌, ◌≡◌, refl, Bool, true, false, not, ◌&&◌, ◌||◌, ◌⊎◌, Option, none, some, arith, ltb,
  leb, ◌==◌, if◌then◌else◌, Bool-cases, inl, inr, add32, sub32, Run, ok, panic, ◌>>=◌, ◌>>◌, assert,
}
use tros.Files.{
  FileOperations, disk_file_ops, File, Files, minus_one, put_file, is_none, fd_local2global,
}

abbrev pub is_negative : ℕ → Bool
is_negative x = leb (2 ^ 31) x

-- a > b, of two numbers with a sign
abbrev pub greater : ℕ → ℕ → Bool
greater a b = ltb (add32 b (2 ^ 31)) (add32 a (2 ^ 31))

abbrev pub seek_from : (whence fd_pos file_size offset : ℕ) → ℕ
seek_from whence fd_pos file_size offset =
    if whence == 1
    then offset
    else if whence == 2
    then add32 fd_pos offset
    else if whence == 3
    then add32 file_size offset
    else 0

-- The new position, if it is valid.
unfoldable pub disk_file_lseek : (file_size : ℕ) → File → (offset whence : ℕ) → Run (ℕ × File)
disk_file_lseek file_size filp offset whence = do
  assert (ltb 0 whence && ltb whence 4)
  let new_pos = seek_from whence filp.fd_pos file_size offset
  if is_negative new_pos || greater new_pos (sub32 file_size 1)
      then ok (minus_one, filp)
      else ok (new_pos, record filp { fd_pos = new_pos })

-- pf->op->llseek: of the files that are not on the disk, `no_llseek_fn`.
unfoldable pub llseek : Files → Option FileOperations → File → (offset whence : ℕ) → Run (ℕ × File)
unfolding disk_file_lseek
llseek s none filp offset whence = panic
llseek s (some disk_file_ops) filp offset whence = elim filp.fd_inode [
  | none ↦ panic
  | some p ↦ disk_file_lseek (s.fs.inodes p).i_size filp offset whence
]
llseek s (some _) filp offset whence = ok (minus_one, filp)

unfoldable pub sys_lseek : Files → (fd offset whence : ℕ) → Run (ℕ × Files)
unfolding llseek fd_local2global
sys_lseek s fd offset whence = if is_negative fd then ok (minus_one, s) else (do
  assert (ltb 0 whence && ltb whence 4)
  g ← fd_local2global s fd
  assert (not (is_none (s.file_table g).fd_inode))
  moved ← llseek s (s.file_table g).op (s.file_table g) offset whence
  ok (moved.0, put_file s g moved.1))

below_size :
    (new_pos file_size : ℕ)
    → file_size < 2 ^ 31
    → is_negative new_pos ≡ false
    → greater new_pos (sub32 file_size 1) ≡ false
    → new_pos < file_size
below_size new_pos file_size size pos few = ground arith

-- For a file of at most 2 ^ 31 - 1 bytes, each of the three kinds of seek returns: either a position
-- below the size, to which the file is set, or -1, and then the file is as it was.
pub disk_file_lseek-within :
    (file_size : ℕ) (filp : File) (offset whence : ℕ)
    → file_size < 2 ^ 31
    → offset < 2 ^ 32
    → 0 < whence
    → whence < 4
    → (r : ℕ) × (filp' : File) × (disk_file_lseek file_size filp offset whence ≡ ok (r, filp'))
      × ((r < file_size) × (filp' ≡ record filp { fd_pos = r }) ⊎ (r ≡ minus_one) × (filp' ≡ filp))
unfolding disk_file_lseek
disk_file_lseek-within file_size filp offset whence size off lo hi =
    let new_pos = seek_from whence filp.fd_pos file_size offset in
    let valid : (ltb 0 whence && ltb whence 4) ≡ true = ground arith in
    let small : new_pos < 2 ^ 32 = ground arith in
    elim (Bool-cases (is_negative new_pos || greater new_pos (sub32 file_size 1))) [
      | inl out ↦ (minus_one, filp, rw (valid, out) refl, inr (refl, refl))
      | inr within ↦ (
        new_pos,
        record filp { fd_pos = new_pos },
        rw (valid, within) refl,
        inl (below_size new_pos file_size size (ground arith) (ground arith), refl),
      )
    ]
