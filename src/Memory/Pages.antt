-- ===== src/Memory/Pages.antt =====
-- Pages of src/kernel/memory.c: what `malloc_page`, `get_a_page` and the functions like them map,
-- and which virtual addresses are reserved and released.
use tros.Prelude.{
  ℕ, zero, suc, ◌+◌, ◌-◌, ◌*◌, ◌/◌, ◌%◌, ◌^◌, ◌<◌, ◌≤◌, ◌≡◌, ◌≢◌, refl, sym, ap, ◌∙◌, true, ◌&&◌,
  Option, none, some, arith, ltb, ◌==◌, if_cases, Bool-cases, add32, ok, ok-injective, bind_ok,
  assert_ok, inl, inr,
}
use mathlib.Core.Path.{subst}
use tros.Memory.{
  pg_size, Pool, VirtualAddr, PoolFlags, pf_kernel, pf_user, Memory, pool_of, put_pool, palloc,
  page_table_add, map_page, malloc_loop, malloc_page, vaddr_get, reserve, addr_v2p, kernel_reserved,
  user_reserved, is_present, pde_ptr, pte_ptr,
}
use tros.Memory.PageTable.{
  IsMapped, below_tables, page_table_add-frame, page_table_add-IsMapped, page_table_add-fresh,
}

-- `u` is in one of the `n` pages from the page of `v` on.
abbrev pub InPages : (v n u : ℕ) → Type 0
InPages v n u = (v / 2 ^ 12 ≤ u / 2 ^ 12) × (u / 2 ^ 12 < v / 2 ^ 12 + n)

-- From `m` to `m'`, the `n` pages from `v` on were mapped, which were not mapped before, and every
-- page that was mapped still is, to the same frame.
pub record Grown (m m' : Memory) (v n : ℕ) : Type 0 where
  pub fresh : (u : ℕ) → InPages v n u → ¬ (IsMapped m u)
  pub mapped : (u : ℕ) → InPages v n u → IsMapped m' u
  pub kept :
      (u : ℕ) → u < below_tables → IsMapped m u → (addr_v2p m' u ≡ addr_v2p m u) × IsMapped m' u

-- The words decide what is mapped.
put_pool-words : (m : Memory) (pf : PoolFlags) (p : Pool) → (put_pool m pf p).words ≡ m.words
put_pool-words m pf_kernel p = refl
put_pool-words m pf_user p = refl

Grown-words : (m n m' : Memory) (v k : ℕ) → m.words ≡ n.words → Grown n m' v k → Grown m m' v k
unfolding addr_v2p
Grown-words m n m' v k e g = record {
  fresh = λ u h map. g.fresh u h (
      subst (λ w. (is_present (w (pde_ptr u)) ≡ true) × (is_present (w (pte_ptr u)) ≡ true)) e map);
  mapped = g.mapped;
  kept = λ u h map.
      subst
        (λ w.
          (addr_v2p m' u ≡ add32 (w (pte_ptr u) / 2 ^ 12 * 2 ^ 12) (u % 2 ^ 12)) × IsMapped m' u)
        (sym e)
        (g.kept u h (
          subst (λ w. (is_present (w (pde_ptr u)) ≡ true) × (is_present (w (pte_ptr u)) ≡ true)) e
            map));
}

page_table_add-Grown :
    (m m' : Memory) (v p : ℕ) → page_table_add m v p ≡ ok m' → v < below_tables → Grown m m' v 1
page_table_add-Grown m m' v p e h = record {
  fresh = λ u i. page_table_add-fresh m m' v u p e (omega arith);
  mapped = λ u i. page_table_add-IsMapped m m' v u p e h (omega arith);
  kept = λ u k map.
      page_table_add-frame m m' v u p e h k (λ same. page_table_add-fresh m m' v u p e same map)
        map;
}

map_page-Grown :
    (m m' : Memory) (pf : PoolFlags) (v : ℕ)
    → map_page m pf v ≡ ok (true, m')
    → v < below_tables
    → Grown m m' v 1
unfolding map_page
map_page-Grown m m' pf v e h =
    let (r, e1, e2) = bind_ok (palloc (pool_of m pf)) e in
    elim (if_cases (r.0 == 0) e2) [
      | inl (null, e3) ↦ absurd (ground (arith, ap (λ r. r.0) (ok-injective e3)))
      | inr (frame, e3) ↦
          let (m2, e4, e5) = bind_ok (page_table_add (put_pool m pf r.1) v r.0) e3 in
          Grown-words m (put_pool m pf r.1) m' v 1 (sym (put_pool-words m pf r.1)) (
            page_table_add-Grown (put_pool m pf r.1) m' v r.0
              (e4 ∙ ap ok (ap (λ r. r.1) (ok-injective e5))) h)
    ]

Grown-append :
    (m m1 m' : Memory) (v n : ℕ)
    → v + (n + 1) * pg_size ≤ below_tables
    → Grown m m1 v 1
    → Grown m1 m' (v + pg_size) n
    → Grown m m' v (suc n)
Grown-append m m1 m' v n low g h = record {
  fresh = λ u i map. elim (Bool-cases (ltb (v / 2 ^ 12) (u / 2 ^ 12))) [
    | inl later ↦ h.fresh u (ground arith) (g.kept u (omega arith) map).1
    | inr first ↦ g.fresh u (ground arith) map
  ];
  mapped = λ u i. elim (Bool-cases (ltb (v / 2 ^ 12) (u / 2 ^ 12))) [
    | inl later ↦ h.mapped u (ground arith)
    | inr first ↦ (h.kept u (omega arith) (g.mapped u (ground arith))).1
  ];
  kept = λ u k map.
      let (e, map1) = g.kept u k map in let (e1, map2) = h.kept u k map1 in (e1 ∙ e, map2);
}

malloc_loop-Grown :
    (cnt : ℕ) (m m' : Memory) (pf : PoolFlags) (v : ℕ)
    → malloc_loop cnt m pf v ≡ ok (true, m')
    → v + cnt * pg_size ≤ below_tables
    → Grown m m' v cnt
unfolding malloc_loop
malloc_loop-Grown zero m m' pf v e low =
    let same : m ≡ m' = ap (λ r. r.1) (ok-injective e) in
    subst (λ m'. Grown m m' v 0) same
      (record {
        fresh = λ u i map. absurd (omega arith);
        mapped = λ u i. absurd (omega arith);
        kept = λ u k map. (refl, map);
      })
malloc_loop-Grown (suc cnt) m m' pf v e low =
    let (r, e1, e2) = bind_ok (map_page m pf v) e in
    elim (if_cases r.0 e2) [
      | inl (more, e3) ↦
          let next : add32 v pg_size ≡ v + pg_size = omega arith in
          Grown-append m r.1 m' v cnt (omega arith)
            (map_page-Grown m r.1 pf v (e1 ∙ ap (λ b. ok (b, r.1)) more) (omega arith))
            (malloc_loop-Grown cnt r.1 m' pf (v + pg_size)
              (subst (λ a. malloc_loop cnt r.1 pf a ≡ ok (true, m')) next e3) (omega arith))
      | inr (stop, e3) ↦ absurd (ground (arith, ap (λ r. r.0) (ok-injective e3)))
    ]

-- `vaddr_get` maps nothing.
vaddr_get-words :
    (m : Memory) (pf : PoolFlags) (n : ℕ) (r : ℕ × Memory)
    → vaddr_get m pf n ≡ ok r
    → r.1.words ≡ m.words
unfolding vaddr_get
vaddr_get-words m pf_kernel n r e = kernel (bind_ok (reserve m.kernel_vaddr n) e)
  where
    kernel :
        (found : Option (ℕ × VirtualAddr)) × (reserve m.kernel_vaddr n ≡ ok found)
          × (ok (kernel_reserved m found) ≡ ok r)
        → r.1.words ≡ m.words
    kernel (none, e1, e2) = sym (ap (λ r. r.1.words) (ok-injective e2))
    kernel (some (a, v), e1, e2) = sym (ap (λ r. r.1.words) (ok-injective e2))
vaddr_get-words m pf_user n r e = user (bind_ok (reserve m.userprog_vaddr n) e)
  where
    user :
        (found : Option (ℕ × VirtualAddr)) × (reserve m.userprog_vaddr n ≡ ok found)
          × (user_reserved m found ≡ ok r)
        → r.1.words ≡ m.words
    user (none, e1, e2) = sym (ap (λ r. r.1.words) (ok-injective e2))
    user (some (a, v), e1, e2) =
        sym (ap (λ r. r.1.words) (ok-injective (assert_ok (ltb a (0xc0000000 - pg_size)) e2).1))

-- Where `malloc_page` returns an address other than NULL, and the pages from it on lie below the page
-- tables, these pages are mapped, were not mapped before, and every other mapping is as it was.
pub malloc_page-Grown :
    (m m' : Memory) (pf : PoolFlags) (n a : ℕ)
    → malloc_page m pf n ≡ ok (a, m')
    → a ≢ 0
    → a + n * pg_size ≤ below_tables
    → Grown m m' a n
unfolding malloc_page
malloc_page-Grown m m' pf n a e some_page low =
    let e0 = (assert_ok (ltb 0 n && ltb n 3840) e).1 in
    let (v, e1, e2) = bind_ok (vaddr_get m pf n) e0 in
    elim (if_cases (v.0 == 0) e2) [
      | inl (null, e3) ↦ absurd (some_page (sym (ap (λ r. r.0) (ok-injective e3))))
      | inr (here, e3) ↦
          let (r, e4, e5) = bind_ok (malloc_loop n v.1 pf v.0) e3 in
          let e6 = ok-injective e5 in
          elim (if_cases r.0 (ap (λ r. r.0) e6)) [
            | inl (done, same) ↦ Grown-words m v.1 m' a n (sym (vaddr_get-words m pf n v e1)) (
                malloc_loop-Grown n v.1 m' pf a
                  (subst (λ x. malloc_loop n v.1 pf x ≡ ok (true, m')) same
                    (e4 ∙ ap ok (λ i. (done i, ap (λ r. r.1) e6 i))))
                  low)
            | inr (failed, null) ↦ absurd (some_page (sym null))
          ]
    ]
