-- ===== src/Files/Refs.antt =====
-- The descriptors of the running process that refer to a slot of the file table, and the invariant
-- of the table (src/fs/file.c, src/fs/fs.c).
use tros.Prelude.{
  ℕ, zero, suc, ◌+◌, ◌<◌, ◌≤◌, ◌≡◌, ◌≢◌, ap, Bool, true, false, ◌&&◌, Option, none, some, arith,
  ltb, leb, ◌==◌, if◌then◌else◌, Bool-cases, inl, inr,
}
use mathlib.Core.Path.{subst}
use tros.Files.{
  FileOperations, disk_file_ops, pipe_reader_ops, pipe_writer_ops, tty_input_ops, tty_output_ops,
  File, Files, max_files_open_per_proc, put, is_none, free_slot_from, free_fd_from,
}

abbrev pub is_slot : Option ℕ → ℕ → Bool
is_slot none g = false
is_slot (some h) g = h == g

-- How many of the `left` descriptors from `l` on refer to slot `g`.
abbrev pub refs_from : (left : ℕ) → (ℕ → Option ℕ) → (l g : ℕ) → ℕ
refs_from zero fd_table l g = 0
refs_from (suc left) fd_table l g =
    (if is_slot (fd_table l) g then 1 else 0) + refs_from left fd_table (l + 1) g

unfoldable pub refs : (ℕ → Option ℕ) → (g : ℕ) → ℕ
refs fd_table g = refs_from max_files_open_per_proc fd_table 0 g

-- What the operations of a file need of it.
abbrev pub Serves : Option FileOperations → File → Type 0
Serves none f = ⊥
Serves (some disk_file_ops) f = is_none f.fd_inode ≡ false
Serves (some pipe_reader_ops) f = is_none f.private_data ≡ false
Serves (some pipe_writer_ops) f = is_none f.private_data ≡ false
Serves (some tty_input_ops) f = Unit
Serves (some tty_output_ops) f = Unit

-- A slot that is free has no references; one that is taken has as many as `count` says, and its
-- file can be released. `others` counts the references of the other processes.
pub record Counted (f : File) (references : ℕ) : Type 0 where
  pub free : is_none f.fd_inode ≡ true → references ≡ 0
  pub taken : is_none f.fd_inode ≡ false → (references ≢ 0) × (f.count ≡ references)
  pub served : is_none f.fd_inode ≡ false → Serves f.op f

abbrev pub Referred : Files → (others : ℕ → ℕ) → Type 0
Referred s others =
    (g : ℕ) → 3 ≤ g → g < 32 → Counted (s.file_table g) (refs s.fd_table g + others g)

refs_from-put :
    (left : ℕ) (fd_table : ℕ → Option ℕ) (l k : ℕ) (v : Option ℕ) (g : ℕ)
    → refs_from left (put fd_table k v) l g
        + (if leb l k && ltb k (l + left) then (if is_slot (fd_table k) g then 1 else 0) else 0)
      ≡ refs_from left fd_table l g
        + (if leb l k && ltb k (l + left) then (if is_slot v g then 1 else 0) else 0)
refs_from-put zero fd_table l k v g = ground arith
refs_from-put (suc left) fd_table l k v g = elim (Bool-cases (k == l)) [
  | inl here ↦
      let same : k ≡ l = ground arith in
      let e : is_slot (fd_table k) g ≡ is_slot (fd_table l) g =
        ap (λ i. is_slot (fd_table i) g) same in
      ground (arith, refs_from-put left fd_table (l + 1) k v g)
  | inr there ↦ ground (arith, refs_from-put left fd_table (l + 1) k v g)
]

-- A descriptor that is written no longer counts for its old slot, and counts for the new one.
pub refs-put :
    (fd_table : ℕ → Option ℕ) (k : ℕ) (v : Option ℕ) (g : ℕ)
    → k < 8
    → refs (put fd_table k v) g + (if is_slot (fd_table k) g then 1 else 0)
      ≡ refs fd_table g + (if is_slot v g then 1 else 0)
unfolding refs
refs-put fd_table k v g h =
    let within : (leb 0 k && ltb k (0 + 8)) ≡ true = ground arith in
    rw within at (refs_from-put 8 fd_table 0 k v g)

-- A slot or a descriptor that was found is free, and in range.
pub free_slot_from-some :
    (left : ℕ) (t : ℕ → File) (idx g : ℕ)
    → free_slot_from left t idx ≡ some g
    → (idx ≤ g) × (g < idx + left) × (is_none (t g).fd_inode ≡ true)
unfolding free_slot_from
free_slot_from-some zero t idx g e = absurd (ground arith)
free_slot_from-some (suc left) t idx g e = elim (Bool-cases (is_none (t idx).fd_inode)) [
  | inl here ↦
      let same : idx ≡ g = ground arith in
      (omega arith, omega arith, subst (λ g. is_none (t g).fd_inode ≡ true) same here)
  | inr there ↦
      let r = free_slot_from-some left t (idx + 1) g (ground arith) in
      (omega (arith, r.0), omega (arith, r.1), r.2)
]

pub free_fd_from-some :
    (left : ℕ) (t : ℕ → Option ℕ) (idx l : ℕ)
    → free_fd_from left t idx ≡ some l
    → (idx ≤ l) × (l < idx + left) × (is_none (t l) ≡ true)
unfolding free_fd_from
free_fd_from-some zero t idx l e = absurd (ground arith)
free_fd_from-some (suc left) t idx l e = elim (Bool-cases (is_none (t idx))) [
  | inl here ↦
      let same : idx ≡ l = ground arith in
      (omega arith, omega arith, subst (λ l. is_none (t l) ≡ true) same here)
  | inr there ↦
      let r = free_fd_from-some left t (idx + 1) l (ground arith) in
      (omega (arith, r.0), omega (arith, r.1), r.2)
]
