-- ===== src/Memory/PageTable.antt =====
-- The page tables of src/kernel/memory.c: what a mapping that was added is worth, and that it leaves
-- the other pages as they were.
use tros.Prelude.{
  ℕ, ◌+◌, ◌*◌, ◌/◌, ◌%◌, ◌^◌, ◌<◌, ◌≡◌, ◌≢◌, true, false, not, ◌&&◌, arith, ltb, leb, ◌==◌, ok,
  ok-injective, bind_ok, assert_ok, if_cases, inl, inr, if◌then◌else◌, ap, sym, ◌⊎◌, ◌↔◌,
}
use mathlib.Core.Path.{subst}
use tros.Memory.{
  pg_size, Memory, pde_ptr, pte_ptr, palloc, is_present, page_table_add, addr_v2p, add_entry,
  add_table, entry,
}
use tros.Memory.Release.{page_table_pte_remove}

-- The page of an address has an entry, in a table that the directory has.
abbrev pub IsMapped : Memory → ℕ → Type 0
IsMapped m vaddr =
    (is_present (m.words (pde_ptr vaddr)) ≡ true) × (is_present (m.words (pte_ptr vaddr)) ≡ true)

-- Below the addresses at which the page tables themselves are seen.
abbrev pub below_tables : ℕ
below_tables = 0xffc00000

-- The words after `page_table_add`: in a table that is there, the one entry; else a new table of
-- cleared words, at the frame `f`, with that entry.
abbrev words_there : Memory → (v p : ℕ) → ℕ → ℕ
words_there m v p a = if pte_ptr v == a then entry p else m.words a

abbrev words_new : Memory → (v p f : ℕ) → ℕ → ℕ
words_new m v p f a =
    let table = pte_ptr v / 2 ^ 12 * 2 ^ 12 in
    if pte_ptr v == a
    then entry p
    else if leb table a && ltb a (table + pg_size)
    then 0
    else if pde_ptr v == a
    then entry f
    else m.words a

Added : Memory → (v p : ℕ) → (ℕ → ℕ) → Type 0
Added m v p words =
    ((is_present (m.words (pde_ptr v)) ≡ true) × (words ≡ words_there m v p))
    ⊎ ((is_present (m.words (pde_ptr v)) ≡ false) × (f : ℕ) × (words ≡ words_new m v p f))

page_table_add-Added :
    (m m' : Memory) (v p : ℕ) → page_table_add m v p ≡ ok m' → Added m v p m'.words
unfolding page_table_add Added add_entry add_table
page_table_add-Added m m' v p e = elim (if_cases (is_present (m.words (pde_ptr v))) e) [
  | inl (here, e1) ↦
      let (absent, e2) = assert_ok (not (is_present (m.words (pte_ptr v)))) e1 in
      inl (here, sym (ap (λ n. n.words) (ok-injective e2)))
  | inr (gone, e1) ↦
      let (r, e2, e3) = bind_ok (palloc m.kernel_pool) e1 in
      inr (gone, r.0, sym (ap (λ n. n.words) (ok-injective (assert_ok _ e3).1)))
]

-- A mapping that `page_table_add` has added, for a page below the page tables and a frame at a
-- multiple of 4096, translates each address of the page to the address at the same place of the
-- frame.
pub addr_v2p-page_table_add :
    (m m' : Memory) (v u p : ℕ)
    → page_table_add m v p ≡ ok m'
    → v < below_tables
    → u / 2 ^ 12 ≡ v / 2 ^ 12
    → p % pg_size ≡ 0
    → p < 2 ^ 32
    → (addr_v2p m' u ≡ p + u % 2 ^ 12) × IsMapped m' u
unfolding Added addr_v2p
addr_v2p-page_table_add m m' v u p e h same aligned small = elim (page_table_add-Added m m' v p e) [
  | inl (here, w) ↦ ground (arith, ap (λ f. f (pte_ptr u)) w, ap (λ f. f (pde_ptr u)) w)
  | inr (gone, f, w) ↦ ground (arith, ap (λ f. f (pte_ptr u)) w, ap (λ f. f (pde_ptr u)) w)
]

pub page_table_add-IsMapped :
    (m m' : Memory) (v u p : ℕ)
    → page_table_add m v p ≡ ok m'
    → v < below_tables
    → u / 2 ^ 12 ≡ v / 2 ^ 12
    → IsMapped m' u
unfolding Added
page_table_add-IsMapped m m' v u p e h same = elim (page_table_add-Added m m' v p e) [
  | inl (here, w) ↦ ground (arith, ap (λ f. f (pte_ptr u)) w, ap (λ f. f (pde_ptr u)) w)
  | inr (gone, f, w) ↦ ground (arith, ap (λ f. f (pte_ptr u)) w, ap (λ f. f (pde_ptr u)) w)
]

-- A page that is mapped cannot be mapped again.
pub page_table_add-fresh :
    (m m' : Memory) (v u p : ℕ)
    → page_table_add m v p ≡ ok m'
    → u / 2 ^ 12 ≡ v / 2 ^ 12
    → ¬ (IsMapped m u)
unfolding page_table_add add_entry
page_table_add-fresh m m' v u p e same map =
    let e1 : pde_ptr u ≡ pde_ptr v = omega arith in
    let e2 : pte_ptr u ≡ pte_ptr v = omega arith in
    let map0 = subst (λ a. is_present (m.words a) ≡ true) e1 map.0 in
    let map1 = subst (λ a. is_present (m.words a) ≡ true) e2 map.1 in
    elim (if_cases (is_present (m.words (pde_ptr v))) e) [
      | inl (here, e3) ↦
          absurd (ground (arith, map1, (assert_ok (not (is_present (m.words (pte_ptr v)))) e3).0))
      | inr (gone, e3) ↦ absurd (ground (arith, map0, gone))
    ]

-- `page_table_add` changes neither the translation of an address of another mapped page nor that it
-- is mapped; both pages are below the page tables.
pub page_table_add-frame :
    (m m' : Memory) (v u p : ℕ)
    → page_table_add m v p ≡ ok m'
    → v < below_tables
    → u < below_tables
    → u / 2 ^ 12 ≢ v / 2 ^ 12
    → IsMapped m u
    → (addr_v2p m' u ≡ addr_v2p m u) × IsMapped m' u
unfolding Added addr_v2p
page_table_add-frame m m' v u p e h k other mapped = elim (page_table_add-Added m m' v p e) [
  | inl (here, w) ↦ ground (arith, ap (λ f. f (pte_ptr u)) w, ap (λ f. f (pde_ptr u)) w)
  | inr (gone, f, w) ↦ ground (arith, ap (λ f. f (pte_ptr u)) w, ap (λ f. f (pde_ptr u)) w)
]

-- `page_table_pte_remove` leaves no mapping for its page, and leaves every other page below the page
-- tables mapped and translated as it was.
pub page_table_pte_remove-frame :
    (m : Memory) (v u : ℕ)
    → v < below_tables
    → u < below_tables
    → (¬ (IsMapped (page_table_pte_remove m v) v))
      × (u / 2 ^ 12 ≢ v / 2 ^ 12
          → (addr_v2p (page_table_pte_remove m v) u ≡ addr_v2p m u)
            × (IsMapped (page_table_pte_remove m v) u ↔ IsMapped m u))
unfolding page_table_pte_remove addr_v2p
page_table_pte_remove-frame m v u h k = ground arith
