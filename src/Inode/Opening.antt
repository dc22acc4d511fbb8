-- ===== src/Inode/Opening.antt =====
-- The inodes in memory, under `inode_open` and `inode_close` of src/fs/inode.c.
use tros.Prelude.{
  ℕ, ◌+◌, ◌-◌, ◌<◌, ◌^◌, ◌≡◌, ◌≢◌, refl, sym, ap, ◌∙◌, false, none, some, List, [], ◌∷◌, arith,
  ◌==◌, ==_self, if◌then◌else◌, Bool-cases, Option-cases, inl, inr, sub32, add32, Run, ok,
}
use mathlib.Core.Path.{subst}
use tros.Disk.{Buffer}
use tros.Inode.{Inode, Fs, find_open, put_inode, count_open, remove, inode_open, inode_close}
use tros.Inode.Slots.{OnDisk, slot}
use tros.Inode.Sync.{inode_open-slot}

-- How often an address is in a list.
abbrev pub tally : ℕ → List ℕ → ℕ
tally p [] = 0
tally p (q ∷ qs) = (if p == q then 1 else 0) + tally p qs

-- What holds of the inodes in memory while the callers have the results `handles` of `inode_open`.
pub record Opens (fs : Fs) (handles : List ℕ) : Type 0 where
  pub listed : (p : ℕ) → tally p fs.part.open_inodes ≡ (if tally p handles == 0 then 0 else 1)
  pub counted : (p : ℕ) → tally p handles ≢ 0 → (fs.inodes p).i_open_cnts ≡ tally p handles
  pub one :
      (p q : ℕ)
      → tally p handles ≢ 0
      → tally q handles ≢ 0
      → (fs.inodes p).i_no ≡ (fs.inodes q).i_no
      → p ≡ q

tally-remove :
    (p q : ℕ) (xs : List ℕ) → tally p (remove q xs) ≡ tally p xs - (if p == q then 1 else 0)
unfolding remove
tally-remove p q [] = ground arith
tally-remove p q (x ∷ xs) = elim (Bool-cases (q == x)) [
  | inl here ↦ ground arith
  | inr there ↦ ground (arith, tally-remove p q xs)
]

find_open-some :
    (inodes : ℕ → Inode) (elems : List ℕ) (n p : ℕ)
    → find_open inodes elems n ≡ some p
    → (tally p elems ≢ 0) × ((inodes p).i_no ≡ n)
unfolding find_open
find_open-some inodes [] n p e = absurd (ground arith)
find_open-some inodes (q ∷ qs) n p e = elim (Bool-cases ((inodes q).i_no == n)) [
  | inl here ↦
      let same : q ≡ p = ground arith in
      (ground arith, subst (λ p. (inodes p).i_no ≡ n) same (ground arith))
  | inr there ↦
      let (listed, numbered) = find_open-some inodes qs n p (ground arith) in
      (ground arith, numbered)
]

find_open-none :
    (inodes : ℕ → Inode) (elems : List ℕ) (n p : ℕ)
    → find_open inodes elems n ≡ none
    → tally p elems ≢ 0
    → (inodes p).i_no ≢ n
unfolding find_open
find_open-none inodes [] n p e listed = absurd (listed refl)
find_open-none inodes (q ∷ qs) n p e listed = elim (Bool-cases ((inodes q).i_no == n)) [
  | inl here ↦ absurd (ground arith)
  | inr there ↦ elim (Bool-cases (p == q)) [
    | inl same ↦ let eq : q ≡ p = ground arith in subst (λ p. (inodes p).i_no ≢ n) eq (ground arith)
    | inr other ↦ find_open-none inodes qs n p (ground arith) (ground arith)
  ]
]

no-put :
    (inodes : ℕ → Inode) (p : ℕ) (inode : Inode) (q : ℕ)
    → inode.i_no ≡ (inodes p).i_no
    → (put_inode inodes p inode q).i_no ≡ (inodes q).i_no
no-put inodes p inode q e = elim (Bool-cases (p == q)) [
  | inl same ↦
      let eq : p ≡ q = ground arith in rw same (subst (λ q. inode.i_no ≡ (inodes q).i_no) eq e)
  | inr other ↦ rw other refl
]

cnts-put :
    (inodes : ℕ → Inode) (p : ℕ) (inode : Inode) (q : ℕ)
    → (put_inode inodes p inode q).i_open_cnts
      ≡ (if p == q then inode.i_open_cnts else (inodes q).i_open_cnts)
cnts-put inodes p inode q = elim (Bool-cases (p == q)) [
  | inl same ↦ rw same refl
  | inr other ↦ rw other refl
]

-- While the callers have `handles`, fewer than 2 ^ 32 of each inode, the close of one of them leaves
-- the inodes in memory as they are to be for the others.
pub inode_close-Opens :
    (fs : Fs) (p : ℕ) (handles : List ℕ)
    → Opens fs handles
    → tally p handles ≢ 0
    → tally p handles < 2 ^ 32
    → Opens (inode_close fs p) (remove p handles)
unfolding inode_close
inode_close-Opens fs p handles o mine few =
    elim (Bool-cases (sub32 (fs.inodes p).i_open_cnts 1 == 0)) [
      | inl last ↦ rw last (record {
        listed = λ q. ground (
          arith,
          o.listed q,
          o.counted p,
          tally-remove q p handles,
          tally-remove q p fs.part.open_inodes,
        );
        counted =
            λ q h. cnts q ∙ ground (arith, o.counted q, o.counted p, tally-remove q p handles);
        one = λ q r hq hr e.
            o.one q r (ground (arith, tally-remove q p handles))
              (ground (arith, tally-remove r p handles)) (sym (number q) ∙ e ∙ number r);
      })
      | inr more ↦ rw more (record {
        listed = λ q. ground (arith, o.listed q, o.counted p, tally-remove q p handles);
        counted =
            λ q h. cnts q ∙ ground (arith, o.counted q, o.counted p, tally-remove q p handles);
        one = λ q r hq hr e.
            o.one q r (ground (arith, tally-remove q p handles))
              (ground (arith, tally-remove r p handles)) (sym (number q) ∙ e ∙ number r);
      })
    ]
  where
    closed : Inode
    closed = record (fs.inodes p) { i_open_cnts = sub32 (fs.inodes p).i_open_cnts 1 }

    cnts :
        (q : ℕ)
        → (put_inode fs.inodes p closed q).i_open_cnts
          ≡ (if p == q then sub32 (fs.inodes p).i_open_cnts 1 else (fs.inodes q).i_open_cnts)
    cnts q = cnts-put fs.inodes p closed q

    number : (q : ℕ) → (put_inode fs.inodes p closed q).i_no ≡ (fs.inodes q).i_no
    number q = no-put fs.inodes p closed q refl

-- The address that `inode_open` returns is the inode of the number, and one more handle.
abbrev pub Opened : Run (ℕ × Fs) → (n : ℕ) → (handles : List ℕ) → Type 0
Opened r n handles =
    (p : ℕ) × (fs' : Fs) × (r ≡ ok (p, fs')) × ((fs'.inodes p).i_no ≡ n) × Opens fs' (p ∷ handles)

count_open-Opens :
    (fs : Fs) (n p : ℕ) (handles : List ℕ)
    → Opens fs handles
    → tally p handles + 1 < 2 ^ 32
    → find_open fs.inodes fs.part.open_inodes n ≡ some p
    → Opened
        (ok (p, record fs { inodes = put_inode fs.inodes p (count_open (fs.inodes p)) }))
        n
        handles
count_open-Opens fs n p handles o few e =
    let (listed, numbered) = find_open-some fs.inodes fs.part.open_inodes n p e in
    let number : (q : ℕ)
        → (put_inode fs.inodes p (count_open (fs.inodes p)) q).i_no ≡ (fs.inodes q).i_no =
      λ q. no-put fs.inodes p (count_open (fs.inodes p)) q refl in
    let cnts : (q : ℕ)
        → (put_inode fs.inodes p (count_open (fs.inodes p)) q).i_open_cnts
          ≡ (if p == q then add32 (fs.inodes p).i_open_cnts 1 else (fs.inodes q).i_open_cnts) =
      λ q. cnts-put fs.inodes p (count_open (fs.inodes p)) q in
    let mine : tally p handles ≢ 0 = ground (arith, o.listed p) in
    (
      p,
      _,
      refl,
      number p ∙ numbered,
      record {
        listed = λ q. ground (arith, o.listed q);
        counted = λ q h. cnts q ∙ ground (arith, o.counted q, o.counted p);
        one = λ q r hq hr same.
            o.one q r (ground arith) (ground arith) (sym (number q) ∙ same ∙ number r);
      },
    )

other-handle : (p q : ℕ) (hs : List ℕ) → tally p hs ≡ 0 → tally q hs ≢ 0 → (p == q) ≡ false
other-handle p q hs fresh h = elim (Bool-cases (p == q)) [
  | inl same ↦ let eq : p ≡ q = ground arith in absurd (h (subst (λ q. tally q hs ≡ 0) eq fresh))
  | inr other ↦ other
]

-- A new inode joins those in memory.
Opens-cons :
    (fs fs' : Fs) (n p : ℕ) (handles : List ℕ)
    → Opens fs handles
    → tally p handles ≡ 0
    → fs'.part.open_inodes ≡ p ∷ fs.part.open_inodes
    → ((q : ℕ) → (p == q) ≡ false → fs'.inodes q ≡ fs.inodes q)
    → (fs'.inodes p).i_no ≡ n
    → (fs'.inodes p).i_open_cnts ≡ 1
    → ((q : ℕ) → tally q handles ≢ 0 → (fs.inodes q).i_no ≢ n)
    → Opens fs' (p ∷ handles)
Opens-cons fs fs' n p handles o fresh listed others numbered opened new = record {
  listed = λ q. ground (arith, o.listed q, ap (tally q) listed);
  counted = λ q h. elim (Bool-cases (p == q)) [
    | inl same ↦
        let eq : p ≡ q = ground arith in
        subst (λ q. (fs'.inodes q).i_open_cnts ≡ tally q (p ∷ handles)) eq
          (rw (==_self p, fresh) opened)
    | inr other ↦
        let flip : (q == p) ≡ false = ground arith in
        let z : 0 + tally q handles ≡ tally q handles = omega arith in
        rw (others q other, flip, z) (o.counted q (ground arith))
  ];
  one = λ q r hq hr same. elim (Bool-cases (p == q)) [
    | inl first ↦ elim (Bool-cases (p == r)) [
      | inl second ↦ ground arith
      | inr other ↦
          let eq : q ≡ p = ground arith in
          absurd (
            new r (ground arith) (
              sym (ap (λ x. x.i_no) (others r other))
              ∙ sym same
              ∙ ap (λ q. (fs'.inodes q).i_no) eq
              ∙ numbered))
    ]
    | inr other ↦ elim (Bool-cases (p == r)) [
      | inl second ↦
          let eq : r ≡ p = ground arith in
          absurd (
            new q (ground arith) (
              sym (ap (λ x. x.i_no) (others q other))
              ∙ same
              ∙ ap (λ q. (fs'.inodes q).i_no) eq
              ∙ numbered))
      | inr third ↦
          o.one q r (ground arith) (ground arith)
            (sym (ap (λ x. x.i_no) (others q other)) ∙ same ∙ ap (λ x. x.i_no) (others r third))
    ]
  ];
}

load-Opens :
    (fs : Fs) (n p : ℕ) (buf : Buffer) (handles : List ℕ)
    → Opens fs handles
    → OnDisk fs.part
    → n < 4096
    → (slot fs.part fs.disk n).i_no ≡ n
    → tally p handles ≡ 0
    → find_open fs.inodes fs.part.open_inodes n ≡ none
    → Opened (inode_open fs n p buf) n handles
load-Opens fs n p buf handles o on small numbered fresh e =
    let (fs', e', here, listed, others) = inode_open-slot fs n p buf on small e in
    let listed_here : (q : ℕ) → tally q handles ≢ 0 → tally q fs.part.open_inodes ≢ 0 =
      λ q h. ground (arith, o.listed q) in
    (
      p,
      fs',
      e',
      here.no ∙ numbered,
      Opens-cons fs fs' n p handles o fresh listed others (here.no ∙ numbered) here.cnts
          λ q h. find_open-none fs.inodes fs.part.open_inodes n q e (listed_here q h),
    )

-- While the callers have `handles`, fewer than 2 ^ 32 - 1 of each inode: if the table lies in a
-- partition that the driver knows, the slot of a number below 4096 holds an inode of that number, and `kmalloc` gives an
-- address that is no handle, then `inode_open` of the number returns the address of an inode of that
-- number, and the inodes in memory are as they are to be with this handle as well.
pub inode_open-Opens :
    (fs : Fs) (n p : ℕ) (buf : Buffer) (handles : List ℕ)
    → Opens fs handles
    → ((q : ℕ) → tally q handles + 1 < 2 ^ 32)
    → OnDisk fs.part
    → n < 4096
    → (slot fs.part fs.disk n).i_no ≡ n
    → tally p handles ≡ 0
    → Opened (inode_open fs n p buf) n handles
unfolding inode_open
inode_open-Opens fs n p buf handles o few on small numbered fresh =
    elim (Option-cases (find_open fs.inodes fs.part.open_inodes n)) [
      | inl closed ↦ load-Opens fs n p buf handles o on small numbered fresh closed
      | inr (q, found) ↦ rw found (count_open-Opens fs n q handles o (few q) found)
    ]
