-- ===== src/Files/Tests.antt =====
-- The theorems on open files at a table with one file of the disk, and runs on it.
use tros.Prelude.{
  ℕ, ◌≡◌, ◌<◌, ◌+◌, ◌⊎◌, refl, Option, none, some, arith, ltb, ◌==◌, if◌then◌else◌, inl, inr,
  Bool-cases, ok,
}
use tros.Pipe.{create_pipe}
use tros.Inode.{find_open, inode_open}
use tros.Inode.Sample.{one_open}
use tros.Files.{
  disk_file_ops, File, Files, minus_one, put, free_slot_from, free_fd_from, sys_close, file_open,
}
use tros.Files.Refs.{refs, Referred}
use tros.Files.Closing.{sys_close-Referred}
use tros.Files.Opening.{Installed, file_open-Referred, file_open-leak}
use tros.Files.Lseek.{disk_file_lseek, disk_file_lseek-within}

abbrev closed_file : File
closed_file = record {
  fd_pos = 0;
  fd_flag = 0;
  fd_inode = none;
  count = 0;
  op = none;
  private_data = none;
}

-- The inode at 16, opened for reading.
abbrev open_file : File
open_file = record closed_file { fd_inode = some 16; count = 1; op = some disk_file_ops }

-- Slot 3 has the file, and `descriptors` are those of the process.
abbrev files : (ℕ → File) → (ℕ → Option ℕ) → Files
files t d = record {
  fs = one_open;
  file_table = t;
  fd_table = d;
  pipes = λ p. create_pipe (λ i. 0);
}

abbrev std : ℕ → Option ℕ
std l = if ltb l 3 then some l else none

abbrev with_file : Files
with_file = files (put (λ g. closed_file) 3 open_file) (λ l. if l == 4 then some 3 else std l)

abbrev without : Files
without = files (λ g. closed_file) std

-- No descriptor is free.
abbrev exhausted : Files
exhausted = files (λ g. closed_file) (λ l. some 0)

Referred-with_file : Referred with_file (λ g. 0)
unfolding refs
Referred-with_file g lo hi = elim (Bool-cases (3 == g)) [
  | inl here ↦ record {
    free = λ e. absurd (ground arith);
    taken = λ e. (ground arith, ground arith);
    served = λ e. rw here refl;
  }
  | inr there ↦ record {
    free = λ e. ground arith;
    taken = λ e. absurd (ground arith);
    served = λ e. absurd (ground arith);
  }
]

Referred-without : Referred without (λ g. 0)
unfolding refs
Referred-without g lo hi = record {
  free = λ e. ground arith;
  taken = λ e. absurd (ground arith);
  served = λ e. absurd (ground arith);
}

Referred-exhausted : Referred exhausted (λ g. 0)
unfolding refs
Referred-exhausted g lo hi = record {
  free = λ e. ground arith;
  taken = λ e. absurd (ground arith);
  served = λ e. absurd (ground arith);
}

sys_close-Referred_example :
    (ret : ℕ) × (s' : Files) × (sys_close with_file 4 ≡ ok (ret, s'))
    × (s'.fd_table 4 ≡ none)
    × Referred s' (λ g. 0)
sys_close-Referred_example =
    sys_close-Referred with_file (λ g. 0) 4 3 Referred-with_file (omega arith) refl (omega arith)
      (omega arith) (unfold refs in omega arith)

file_open-Referred_example :
    (s' : Files) × (file_open without 300 0 48 (λ i. 0) ≡ ok (3, s')) × Installed s' (λ g. 0) 3 3 16
unfolding free_slot_from free_fd_from find_open inode_open
file_open-Referred_example =
    file_open-Referred without (λ g. 0) 300 0 48 16 3 3 (λ i. 0) _ Referred-without refl refl refl
      (inl refl)

file_open-leak_example :
    (s' : Files) × (file_open exhausted 300 0 48 (λ i. 0) ≡ ok (minus_one, s'))
    × ((s'.file_table 3).fd_inode ≡ some 16)
    × (refs s'.fd_table 3 + 0 ≡ 0)
    × (¬ (Referred s' (λ g. 0)))
unfolding free_slot_from free_fd_from find_open inode_open
file_open-leak_example =
    file_open-leak exhausted (λ g. 0) 300 0 48 16 3 (λ i. 0) _ Referred-exhausted refl refl
      (inl refl)

disk_file_lseek-within_example :
    (r : ℕ) × (filp' : File) × (disk_file_lseek 10 open_file 4 1 ≡ ok (r, filp'))
    × ((r < 10) × (filp' ≡ record open_file { fd_pos = r }) ⊎ (r ≡ minus_one) × (filp' ≡ open_file))
disk_file_lseek-within_example =
    disk_file_lseek-within 10 open_file 4 1 (omega arith) (omega arith) (omega arith) (omega arith)
