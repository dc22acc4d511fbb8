-- ===== src/Files/Opening.antt =====
-- `file_open` of src/fs/file.c: the slot and the descriptor that it takes.
use tros.Prelude.{
  ℕ, ◌+◌, ◌<◌, ◌≡◌, ◌≢◌, refl, ap, ◌∙◌, true, false, ◌||◌, ◌⊎◌, Option, none, some, arith, ◌==◌,
  ==_self, if◌then◌else◌, Bool-cases, inl, inr, ok,
}
use mathlib.Core.Path.{subst}
use tros.Disk.{Buffer}
use tros.Inode.{Fs, inode_open}
use tros.Files.{
  dummy_inode, set_write_deny, disk_file_ops, File, Files, put, is_none, minus_one, free_slot_from,
  free_fd_from, get_free_slot_in_global, pcb_fd_install, open_in_slot, file_open, o_wronly, o_rdwr,
}
use tros.Files.Refs.{
  is_slot, refs, refs-put, Counted, Referred, free_slot_from-some, free_fd_from-some,
}

-- A file of the disk that has just been opened, in the slot `g`.
abbrev pub opened_file : File → (flag p : ℕ) → File
opened_file f flag p = record {
  fd_pos = 0;
  fd_flag = flag;
  fd_inode = some p;
  count = 1;
  op = some disk_file_ops;
  private_data = none;
}

is_slot_free : (o : Option ℕ) (h : ℕ) → is_none o ≡ true → is_slot o h ≡ false
is_slot_free none h e = refl
is_slot_free (some g) h e = absurd (ground arith)

-- A free slot and a free descriptor become a file with one reference.
Referred-installed :
    (s s1 : Files) (others : ℕ → ℕ) (g l : ℕ) (f : File)
    → Referred s others
    → ((h : ℕ) → s1.file_table h ≡ (if g == h then f else s.file_table h))
    → (is_none (s.file_table g).fd_inode ≡ true)
    → (is_none (s.fd_table l) ≡ true)
    → l < 8
    → Counted f 1
    → Referred (record s1 { fd_table = put s.fd_table l (some g) }) others
Referred-installed s s1 others g l f inv t free_slot free_fd small c h lo hi =
    let none_here : is_slot (s.fd_table l) h ≡ false = is_slot_free (s.fd_table l) h free_fd in
    let z : refs (put s.fd_table l (some g)) h + 0 ≡ refs (put s.fd_table l (some g)) h =
      omega arith in
    let r : refs (put s.fd_table l (some g)) h ≡ refs s.fd_table h + (if g == h then 1 else 0) =
      rw (none_here, z) at (refs-put s.fd_table l (some g) h small) in
    elim (Bool-cases (g == h)) [
      | inl here ↦
          let same : g ≡ h = ground arith in
          let one : refs (put s.fd_table l (some g)) h ≡ refs s.fd_table h + 1 = rw here at r in
          let free : refs s.fd_table h + others h ≡ 0 =
            (inv h lo hi).free
              (subst (λ h. is_none (s.file_table h).fd_inode ≡ true) same free_slot) in
          let e : refs (put s.fd_table l (some g)) h + others h ≡ 1 = omega (arith, one, free) in
          rw (t h, here, e) c
      | inr there ↦
          let e : refs (put s.fd_table l (some g)) h ≡ refs s.fd_table h =
            (rw there at r) ∙ omega arith in
          rw (t h, there, e) (inv h lo hi)
    ]

Counted-opened : (f : File) (flag p : ℕ) → Counted (opened_file f flag p) 1
Counted-opened f flag p = record {
  free = λ e. absurd (ground arith);
  taken = λ e. (ground arith, refl);
  served = λ e. refl;
}

table_twice :
    (t : ℕ → File) (g : ℕ) (a b : File) (h : ℕ)
    → put (put t g a) g b h ≡ (if g == h then b else t h)
table_twice t g a b h = elim (Bool-cases (g == h)) [
  | inl here ↦ rw here refl
  | inr there ↦ rw there refl
]

-- Descriptor `l` is one of slot `g`, which has inode `p`, and every slot has as many references as
-- its count says and is free if it has none.
pub record Installed (s : Files) (others : ℕ → ℕ) (g l p : ℕ) : Type 0 where
  pub descriptor : s.fd_table l ≡ some g
  pub inode : (s.file_table g).fd_inode ≡ some p
  pub referred : Referred s others

-- The state before the descriptor is installed.
in_slot : Files → (g flag p : ℕ) → Fs → Files
in_slot s g flag p fs2 = record {
  fs = fs2;
  file_table =
      put (put s.file_table g (record (s.file_table g) { fd_inode = some dummy_inode })) g
        (opened_file (s.file_table g) flag p);
  fd_table = s.fd_table;
  pipes = s.pipes;
}

in_slot-Installed :
    (s : Files) (others : ℕ → ℕ) (g l flag p : ℕ) (fs2 : Fs)
    → Referred s others
    → free_slot_from 29 s.file_table 3 ≡ some g
    → free_fd_from 5 s.fd_table 3 ≡ some l
    → Installed
        (record (in_slot s g flag p fs2) { fd_table = put s.fd_table l (some g) })
        others
        g
        l
        p
unfolding in_slot
in_slot-Installed s others g l flag p fs2 inv slot fd =
    let found = free_slot_from-some 29 s.file_table 3 g slot in
    let found_fd = free_fd_from-some 5 s.fd_table 3 l fd in
    record {
      descriptor = rw (==_self l) refl;
      inode = rw (==_self g) refl;
      referred =
          Referred-installed s (in_slot s g flag p fs2) others g l
            (opened_file (s.file_table g) flag p) inv (table_twice s.file_table g _ _) found.2
            found_fd.2 (omega (arith, found_fd.1)) (Counted-opened (s.file_table g) flag p);
    }

-- Where a free slot and a free descriptor are found, `inode_open` returns, and the file is opened for
-- reading or no other process writes it, `file_open` returns the descriptor, which refers to the
-- slot, the slot has the inode, and every slot has as many references as its count says and is free
-- if it has none, if that was so before.
pub file_open-Referred :
    (s : Files) (others : ℕ → ℕ) (n flag km p g l : ℕ) (buf : Buffer) (fs1 : Fs)
    → Referred s others
    → free_slot_from 29 s.file_table 3 ≡ some g
    → free_fd_from 5 s.fd_table 3 ≡ some l
    → inode_open s.fs n km buf ≡ ok (p, fs1)
    → (((flag == o_wronly) || (flag == o_rdwr)) ≡ false) ⊎ ((fs1.inodes p).write_deny ≡ 0)
    → (s' : Files) × (file_open s n flag km buf ≡ ok (l, s')) × Installed s' others g l p
unfolding file_open get_free_slot_in_global open_in_slot pcb_fd_install in_slot
file_open-Referred s others n flag km p g l buf fs1 inv slot fd opened allowed =
    elim (Bool-cases ((flag == o_wronly) || (flag == o_rdwr))) [
      | inl writes ↦
          let quiet : ((fs1.inodes p).write_deny == 0) ≡ true = ground (arith, allowed) in
          let fs2 : Fs = record fs1 { inodes = set_write_deny fs1.inodes p 1 } in
          (
            record (in_slot s g flag p fs2) { fd_table = put s.fd_table l (some g) },
            rw (slot, opened, writes, quiet, fd) refl,
            in_slot-Installed s others g l flag p fs2 inv slot fd,
          )
      | inr reads ↦ (
        record (in_slot s g flag p fs1) { fd_table = put s.fd_table l (some g) },
        rw (slot, opened, reads, fd) refl,
        in_slot-Installed s others g l flag p fs1 inv slot fd,
      )
    ]

-- Where a free slot is found and `inode_open` returns, but the process has no free descriptor, or the
-- file is opened for writing and another process writes it, `file_open` returns -1 and leaves the
-- slot taken by a file to which no descriptor of any process refers, if before every slot had as many
-- references as its count says and was free if it had none.
pub file_open-leak :
    (s : Files) (others : ℕ → ℕ) (n flag km p g : ℕ) (buf : Buffer) (fs1 : Fs)
    → Referred s others
    → free_slot_from 29 s.file_table 3 ≡ some g
    → inode_open s.fs n km buf ≡ ok (p, fs1)
    → (free_fd_from 5 s.fd_table 3 ≡ none)
      ⊎ ((((flag == o_wronly) || (flag == o_rdwr)) ≡ true) × ((fs1.inodes p).write_deny ≢ 0))
    → (s' : Files) × (file_open s n flag km buf ≡ ok (minus_one, s'))
      × ((s'.file_table g).fd_inode ≡ some p)
      × (refs s'.fd_table g + others g ≡ 0)
      × (¬ (Referred s' others))
unfolding file_open get_free_slot_in_global open_in_slot pcb_fd_install in_slot
file_open-leak s others n flag km p g buf fs1 inv slot opened why =
    elim (Bool-cases ((flag == o_wronly) || (flag == o_rdwr))) [
      | inl writes ↦ elim (Bool-cases ((fs1.inodes p).write_deny == 0)) [
        | inl quiet ↦
            let fs2 : Fs = record fs1 { inodes = set_write_deny fs1.inodes p 1 } in
            let full : free_fd_from 5 s.fd_table 3 ≡ none = ground (arith, why) in
            leak fs2 (rw (slot, opened, writes, quiet, full) refl)
        | inr denied ↦ leak fs1 (rw (slot, opened, writes, denied) refl)
      ]
      | inr reads ↦
          let full : free_fd_from 5 s.fd_table 3 ≡ none = ground (arith, why) in
          leak fs1 (rw (slot, opened, reads, full) refl)
    ]
  where
    unreferred : refs s.fd_table g + others g ≡ 0
    unreferred =
        let found = free_slot_from-some 29 s.file_table 3 g slot in
        (inv g found.0 found.1).free found.2

    leak :
        (fs2 : Fs)
        → file_open s n flag km buf ≡ ok (minus_one, in_slot s g flag p fs2)
        → (s' : Files) × (file_open s n flag km buf ≡ ok (minus_one, s'))
          × ((s'.file_table g).fd_inode ≡ some p)
          × (refs s'.fd_table g + others g ≡ 0)
          × (¬ (Referred s' others))
    leak fs2 e =
        let found = free_slot_from-some 29 s.file_table 3 g slot in
        let here : ((in_slot s g flag p fs2).file_table g).fd_inode ≡ some p =
          rw (==_self g) refl in
        (
          in_slot s g flag p fs2,
          e,
          here,
          unreferred,
          λ r. ((r g found.0 found.1).taken (ap is_none here)).0 unreferred,
        )
