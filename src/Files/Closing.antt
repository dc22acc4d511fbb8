-- ===== src/Files/Closing.antt =====
-- `sys_close` of src/fs/fs.c.
use tros.Prelude.{
  ℕ, ◌+◌, ◌<◌, ◌≤◌, ◌^◌, ◌≡◌, refl, sym, ap, true, false, Option, none, some, arith, ltb, ◌==◌,
  ==_self, if◌then◌else◌, Bool-cases, inl, inr, sub32, Run, ok,
}
use mathlib.Core.Path.{subst}
use tros.Pipe.{PipeStruct, anon_pipe_release_reader, anon_pipe_release_writer}
use tros.Files.{
  FileOperations, disk_file_ops, pipe_reader_ops, pipe_writer_ops, tty_input_ops, tty_output_ops,
  File, Files, put, put_file, is_none, release_inode, release_end, release_file, disk_file_release,
  release_free_slot_in_global, drop_file, fd_local2global, sys_close,
}
use tros.Files.Refs.{is_slot, refs, refs-put, Serves, Counted, Referred}

-- A call that returns and leaves both tables as they are.
abbrev pub Keeps : Files → Run (ℕ × Files) → Type 0
Keeps s r =
    (ret : ℕ) × (s' : Files) × (r ≡ ok (ret, s'))
    × (s'.file_table ≡ s.file_table)
    × (s'.fd_table ≡ s.fd_table)

release_inode-Keeps : (s : Files) (p : Option ℕ) → is_none p ≡ false → Keeps s (release_inode p s)
release_inode-Keeps s none h = absurd (ground arith)
release_inode-Keeps s (some p) h = (_, _, refl, refl, refl)

release_end-Keeps :
    (s : Files) (release : PipeStruct → PipeStruct) (p : Option ℕ)
    → is_none p ≡ false
    → Keeps s (release_end release p s)
release_end-Keeps s release none h = absurd (ground arith)
release_end-Keeps s release (some p) h = (_, _, refl, refl, refl)

release_file-Keeps :
    (s : Files) (f : File) (op : Option FileOperations)
    → Serves op f
    → Keeps s (release_file op s f)
unfolding release_file disk_file_release
release_file-Keeps s f none h = absurd h
release_file-Keeps s f (some disk_file_ops) h = release_inode-Keeps s f.fd_inode h
release_file-Keeps s f (some pipe_reader_ops) h =
    release_end-Keeps s anon_pipe_release_reader f.private_data h
release_file-Keeps s f (some pipe_writer_ops) h =
    release_end-Keeps s anon_pipe_release_writer f.private_data h
release_file-Keeps s f (some tty_input_ops) h = (_, _, refl, refl, refl)
release_file-Keeps s f (some tty_output_ops) h = (_, _, refl, refl, refl)

-- What `drop_file` does to the table: the slot loses a reference, and is free if it was the last.
abbrev pub dropped_file : File → File
dropped_file f =
    let g : File = record f { count = sub32 f.count 1 } in
    if g.count == 0 then record g { fd_inode = none } else g

Serves-count :
    (op : Option FileOperations) (f : File) (n : ℕ)
    → Serves op f
    → Serves op (record f { count = n })
Serves-count none f n h = h
Serves-count (some disk_file_ops) f n h = h
Serves-count (some pipe_reader_ops) f n h = h
Serves-count (some pipe_writer_ops) f n h = h
Serves-count (some tty_input_ops) f n h = h
Serves-count (some tty_output_ops) f n h = h

drop_file-table :
    (s : Files) (g : ℕ)
    → g < 32
    → Serves (s.file_table g).op (s.file_table g)
    → (ret : ℕ) × (s' : Files) × (drop_file s g ≡ ok (ret, s'))
      × ((h : ℕ)
          → s'.file_table h ≡ (if g == h then dropped_file (s.file_table g) else s.file_table h))
      × (s'.fd_table ≡ s.fd_table)
unfolding drop_file release_free_slot_in_global
drop_file-table s g small v =
    let old = s.file_table g in
    let f : File = record old { count = sub32 old.count 1 } in
    let s1 : Files = put_file s g f in
    elim (Bool-cases (sub32 old.count 1 == 0)) [
      | inl last ↦
          let (ret, s2, e, t, d) =
            release_file-Keeps s1 f old.op (Serves-count old.op old (sub32 old.count 1) v) in
          let within : ltb g 32 ≡ true = ground arith in
          (
            ret,
            put_file s2 g (record (s2.file_table g) { fd_inode = none }),
            rw (last, e, within) refl,
            λ h.
                subst
                  (λ t.
                    put t g (record (t g) { fd_inode = none }) h
                    ≡ (if g == h then dropped_file old else s.file_table h))
                  (sym t) (freed last h),
            d,
          )
      | inr more ↦ (0, s1, rw more refl, λ h. rw more refl, refl)
    ]
  where
    freed :
        sub32 (s.file_table g).count 1 == 0 ≡ true
        → (h : ℕ)
        → put
            (put s.file_table g
              (record (s.file_table g) { count = sub32 (s.file_table g).count 1 }))
            g
            (record (put s.file_table g
              (record (s.file_table g) { count = sub32 (s.file_table g).count 1 })
              g) { fd_inode = none })
            h
          ≡ (if g == h then dropped_file (s.file_table g) else s.file_table h)
    freed last h = elim (Bool-cases (g == h)) [
      | inl here ↦ rw (here, ==_self g, last) refl
      | inr there ↦ rw there refl
    ]

-- A file that loses one of its references.
Counted-dropped :
    (f : File) (n : ℕ)
    → is_none f.fd_inode ≡ false
    → n + 1 < 2 ^ 32
    → Counted f (n + 1)
    → Counted (dropped_file f) n
Counted-dropped f n live few c = elim (Bool-cases (sub32 f.count 1 == 0)) [
  | inl last ↦ rw last (record {
    free = λ e. ground (arith, c.taken live);
    taken = λ e. absurd (ground arith);
    served = λ e. absurd (ground arith);
  })
  | inr more ↦ rw more (record {
    free = λ e. absurd (ground arith);
    taken = λ e. (ground (arith, c.taken live), ground (arith, c.taken live));
    served = λ e. Serves-count f.op f (sub32 f.count 1) (c.served live);
  })
]

-- The table behind the close of descriptor `fd` of slot `g`.
Referred-dropped :
    (s s1 : Files) (others : ℕ → ℕ) (fd g : ℕ)
    → Referred s others
    → ((h : ℕ) → refs (put s.fd_table fd none) h + (if g == h then 1 else 0) ≡ refs s.fd_table h)
    → ((h : ℕ)
        → s1.file_table h ≡ (if g == h then dropped_file (s.file_table g) else s.file_table h))
    → refs s.fd_table g + others g < 2 ^ 32
    → is_none (s.file_table g).fd_inode ≡ false
    → Referred (record s1 { fd_table = put s.fd_table fd none }) others
Referred-dropped s s1 others fd g inv r t few live h lo hi = elim (Bool-cases (g == h)) [
  | inl here ↦
      let same : g ≡ h = ground arith in
      let n : ℕ = refs (put s.fd_table fd none) g + others g in
      let one : ◌≡◌ {A = ℕ} (if g == g then 1 else 0) 1 = rw (==_self g) refl in
      let e : refs s.fd_table g + others g ≡ n + 1 = omega (arith, r g, one) in
      let old : Counted (s.file_table g) (n + 1) =
        subst (Counted (s.file_table g)) e (inv g (omega arith) (omega arith)) in
      rw (t h, here)
        (subst
          (λ h.
            Counted (dropped_file (s.file_table g)) (refs (put s.fd_table fd none) h + others h))
          same (Counted-dropped (s.file_table g) n live (omega (arith, e)) old))
  | inr there ↦
      let zero_more : ◌≡◌ {A = ℕ} (if g == h then 1 else 0) 0 = rw there refl in
      let e : refs (put s.fd_table fd none) h ≡ refs s.fd_table h = omega (arith, r h, zero_more) in
      rw (t h, there, e) (inv h lo hi)
]

refs-less :
    (t : ℕ → Option ℕ) (fd g h : ℕ)
    → fd < 8
    → is_slot (t fd) h ≡ (g == h)
    → refs (put t fd none) h + (if g == h then 1 else 0) ≡ refs t h
refs-less t fd g h small e =
    let z : refs t h + 0 ≡ refs t h = omega arith in rw (e, z) at (refs-put t fd none h small)

-- The close of a descriptor of a slot that is neither standard input nor output: in a table with
-- fewer than 2 ^ 32 references to each slot, in which every slot has as many as its count says and is
-- free if it has none, `sys_close` returns, the descriptor is free, every slot has as many references
-- as its count says and is free if it has none, so that the closed one becomes free with its last.
pub sys_close-Referred :
    (s : Files) (others : ℕ → ℕ) (fd g : ℕ)
    → Referred s others
    → fd < 8
    → s.fd_table fd ≡ some g
    → 3 ≤ g
    → g < 32
    → refs s.fd_table g + others g < 2 ^ 32
    → (ret : ℕ) × (s' : Files) × (sys_close s fd ≡ ok (ret, s'))
      × (s'.fd_table fd ≡ none)
      × Referred s' others
unfolding sys_close fd_local2global
sys_close-Referred s others fd g inv small here lo hi few =
    let mine : (h : ℕ) → is_slot (s.fd_table fd) h ≡ (g == h) = λ h. ap (λ o. is_slot o h) here in
    let r : (h : ℕ)
        → refs (put s.fd_table fd none) h + (if g == h then 1 else 0) ≡ refs s.fd_table h =
      λ h. refs-less s.fd_table fd g h small (mine h) in
    let one : ◌≡◌ {A = ℕ} (if g == g then 1 else 0) 1 = rw (==_self g) refl in
    let live : is_none (s.file_table g).fd_inode ≡ false =
      elim (Bool-cases (is_none (s.file_table g).fd_inode)) [
        | inl free ↦ absurd (omega (arith, (inv g lo hi).free free, r g, one))
        | inr taken ↦ taken
      ] in
    let (ret, s1, e, t, d) = drop_file-table s g hi ((inv g lo hi).served live) in
    let t1 : ltb fd (2 ^ 31) ≡ true = ground arith in
    let t2 : ltb g 32 ≡ true = ground arith in
    let t3 : ltb 2 g ≡ true = ground arith in
    (
      ret,
      record s1 { fd_table = put s1.fd_table fd none },
      rw (t1, here, t2, t3, e) refl,
      rw (==_self fd) refl,
      subst (λ tb. Referred (record s1 { fd_table = put tb fd none }) others) (sym d)
          (Referred-dropped s s1 others fd g inv r t few live),
    )
