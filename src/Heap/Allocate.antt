-- ===== src/Heap/Allocate.antt =====
-- What `sys_malloc` of src/kernel/memory.c returns for a small size.
use tros.Prelude.{
  ℕ, ◌+◌, ◌<◌, ◌≤◌, ◌≡◌, ◌⊎◌, inl, inr, refl, sym, ap, true, false, not, ◌&&◌, some, List, [], ◌∷◌,
  ◌++◌, Bool-cases, arith, ltb, leb, if◌then◌else◌, get_elem?, ok,
}
use mathlib.Core.Path.{subst}
use tros.LinkList.{Ptr, Links, Ends, list_pop, list_empty}
use tros.LinkList.Chain.{mem, nodes, IsList, Linked-frame}
use tros.LinkList.Insert.{list_pop-IsList, list_empty-IsList}
use tros.Memory.{pool_of}
use tros.Heap.{
  MemBlockDesc, Heap, clear_block, flags_of, descs_of, match_desc, refill, take_block, malloc_small,
  sys_malloc,
}

-- Clearing bytes that hold no node of a list leaves the list.
clear_block-IsList :
    (h : Heap) (l : Ends) (xs : List Ptr) (addr size : ℕ)
    → IsList h.links l xs
    → ((p : Ptr) → mem p (nodes l xs) ≡ true → (p < addr) ⊎ (addr + size ≤ p))
    → IsList (clear_block h addr size).links l xs
clear_block-IsList h l xs addr size is out = record {
  linked =
      Linked-frame h.links (clear_block h addr size).links l.head (xs ++ (l.tail ∷ []))
        (λ p i. ground (arith, out p i)) (λ p i. ground (arith, out p (ground arith))) is.linked;
  distinct = is.distinct;
}

list_empty-cons :
    (m : Links) (l : Ends) (x : Ptr) (xs : List Ptr) → IsList m l (x ∷ xs) → list_empty m l ≡ false
list_empty-cons m l x xs is = elim (Bool-cases (list_empty m l)) [
  | inl e ↦ absurd (ground (arith, (list_empty-IsList m l (x ∷ xs) is).0 e))
  | inr e ↦ e
]

-- For a size from 1 to 1024 below the size of the pool, when the class of that size has a free
-- block, sys_malloc returns the first one, takes it out of the free list, and clears its words and no
-- others; here no other node of the free list lies in the block.
pub sys_malloc-first :
    (fuel : ℕ) (h : Heap) (d : MemBlockDesc) (size : ℕ) (b : Ptr) (bs : List Ptr)
    → 0 < size
    → size < (pool_of h.memory (flags_of h)).pool_size
    → size ≤ 1024
    → get_elem? (descs_of h) (match_desc (descs_of h) size 0) ≡ some d
    → IsList h.links d.free_list (b ∷ bs)
    → ((p : Ptr) → mem p (nodes d.free_list bs) ≡ true → (p < b) ⊎ (b + d.block_size ≤ p))
    → (h' : Heap) × (sys_malloc fuel h size ≡ ok (b, h'))
      × IsList h'.links d.free_list bs
      × ((a : ℕ)
          → h'.memory.words a
            ≡ (if leb b a && ltb a (b + d.block_size) then 0 else h.memory.words a))
unfolding sys_malloc malloc_small refill take_block
sys_malloc-first fuel h d size b bs pos low small class is out =
    let (first, rest) = list_pop-IsList h.links d.free_list b bs is in
    let popped = record h { links = (list_pop h.links d.free_list).1 } in
    let e1 : (not (ltb 0 size && ltb size (pool_of h.memory (flags_of h)).pool_size)) ≡ false =
      ground arith in
    let e2 : ltb 1024 size ≡ false = ground arith in
    let e3 : list_empty h.links d.free_list ≡ false = list_empty-cons h.links d.free_list b bs is in
    (
      (take_block h d).1,
      rw (e1, e2, class, e3) (ap (λ x. ok (x, (take_block h d).1)) first),
      subst (λ x. IsList (clear_block popped x d.block_size).links d.free_list bs) (sym first)
          (clear_block-IsList popped d.free_list bs b d.block_size rest out),
      λ a.
          subst
            (λ x.
              (clear_block popped x d.block_size).memory.words a
              ≡ (if leb b a && ltb a (b + d.block_size) then 0 else h.memory.words a))
            (sym first) refl,
    )
