-- ===== src/LinkList/Walk.antt =====
-- The loops along a list: searching, traversing, counting.
use tros.Prelude.{
  ℕ, zero, suc, ◌+◌, ◌<◌, ◌^◌, ◌≡◌, ap, ◌∙◌, Bool, false, List, [], ◌∷◌, ◌++◌, arith, ◌==◌,
  if◌then◌else◌, add32, length, ok,
}
use tros.LinkList.{
  Ptr, null, Links, Ends, elem_find_loop, elem_find, list_traversal_loop, list_traversal,
  list_len_loop, list_len, list_empty,
}
use tros.LinkList.Chain.{mem, Distinct, Linked, IsList, mem-append}

-- From `elem` the `next` pointers lead through `xs` to `stop`, which is none of them.
abbrev Leads : Links → Ptr → Ptr → List Ptr → Type 0
Leads m stop elem [] = elem ≡ stop
Leads m stop elem (x ∷ xs) = (elem ≡ x) × (x == stop ≡ false) × Leads m stop (m.next x) xs

Leads-from :
    (m : Links) (stop a : Ptr) (xs : List Ptr)
    → Linked m (a ∷ xs ++ (stop ∷ []))
    → Distinct (xs ++ (stop ∷ []))
    → Leads m stop (m.next a) xs
Leads-from m stop a [] (p, q, k) d = p
Leads-from m stop a (x ∷ xs) (p, q, k) (n, d) =
    (p, ground (arith, mem-append x xs (stop ∷ [])), Leads-from m stop x xs k d)

IsList-Leads :
    {m : Links} {l : Ends} {xs : List Ptr} → IsList m l xs → Leads m l.tail (m.next l.head) xs
IsList-Leads {m} {l} {xs} is = Leads-from m l.tail l.head xs is.linked is.distinct.1

elem_find_loop-mem :
    (fuel : ℕ) (m : Links) (l : Ends) (obj elem : Ptr) (xs : List Ptr)
    → length xs < fuel
    → Leads m l.tail elem xs
    → elem_find_loop fuel m l obj elem ≡ ok (mem obj xs)
unfolding elem_find_loop
elem_find_loop-mem zero m l obj elem xs h k = absurd (omega arith)
elem_find_loop-mem (suc fuel) m l obj elem [] h k = ground arith
elem_find_loop-mem (suc fuel) m l obj elem (x ∷ xs) h (e, ne, k) =
    ground (arith, elem_find_loop-mem fuel m l obj (m.next x) xs)

-- `elem_find` returns whether the node is an element, if the fuel exceeds the length.
pub elem_find-mem :
    (fuel : ℕ) (m : Links) (l : Ends) (obj : Ptr) (xs : List Ptr)
    → length xs < fuel
    → IsList m l xs
    → elem_find fuel m l obj ≡ ok (mem obj xs)
unfolding elem_find
elem_find-mem fuel m l obj xs h is =
    elem_find_loop-mem fuel m l obj (m.next l.head) xs h (IsList-Leads is)

list_len_loop-length :
    (fuel : ℕ) (m : Links) (l : Ends) (elem : Ptr) (n : ℕ) (xs : List Ptr)
    → length xs < fuel
    → n + length xs < 2 ^ 32
    → Leads m l.tail elem xs
    → list_len_loop fuel m l elem n ≡ ok (n + length xs)
unfolding list_len_loop
list_len_loop-length zero m l elem n xs h b k = absurd (omega arith)
list_len_loop-length (suc fuel) m l elem n [] h b k = ground arith
list_len_loop-length (suc fuel) m l elem n (x ∷ xs) h b (e, ne, k) =
    ground (arith, list_len_loop-length fuel m l (m.next x) (add32 n 1) xs)

-- `list_len` returns the number of elements, if it fits `uint32_t`.
pub list_len-length :
    (fuel : ℕ) (m : Links) (l : Ends) (xs : List Ptr)
    → length xs < fuel
    → length xs < 2 ^ 32
    → IsList m l xs
    → list_len fuel m l ≡ ok (length xs)
unfolding list_len
list_len-length fuel m l xs h b is =
    list_len_loop-length fuel m l (m.next l.head) 0 xs h (omega arith) (IsList-Leads is)
    ∙ ap ok (omega arith)

module _ {S : Type 0} (func : Ptr → S → Bool × S) where
  -- Calls the callback on each element in turn, up to the first for which it returns true.
  pub first_hit : List Ptr → S → Ptr × S
  first_hit [] s = (null, s)
  first_hit (x ∷ xs) s =
      let r = func x s in let rest = first_hit xs r.1 in if r.0 then (x, r.1) else rest

  list_traversal_loop-first_hit :
      (fuel : ℕ) (m : Links) (l : Ends) (elem : Ptr) (xs : List Ptr) (s : S)
      → length xs < fuel
      → Leads m l.tail elem xs
      → list_traversal_loop fuel m l func elem s ≡ ok (first_hit xs s)
  unfolding list_traversal_loop first_hit
  list_traversal_loop-first_hit zero m l elem xs s h k = absurd (omega arith)
  list_traversal_loop-first_hit (suc fuel) m l elem [] s h k = ground arith
  list_traversal_loop-first_hit (suc fuel) m l elem (x ∷ xs) s h (e, ne, k) =
      ground (arith, list_traversal_loop-first_hit fuel m l (m.next x) xs (func x s).1)

  -- `list_traversal` makes the calls of `first_hit`, and returns the element that was hit, or NULL.
  pub list_traversal-first_hit :
      (fuel : ℕ) (m : Links) (l : Ends) (xs : List Ptr) (s : S)
      → length xs < fuel
      → IsList m l xs
      → list_traversal fuel m l func s ≡ ok (first_hit xs s)
  unfolding list_traversal list_empty first_hit
  list_traversal-first_hit fuel m l [] s h is = ground (arith, IsList-Leads is)
  list_traversal-first_hit fuel m l (x ∷ xs) s h is =
      let k = IsList-Leads is in
      ground
        (arith, k.0, k.1, list_traversal_loop-first_hit fuel m l (m.next l.head) (x ∷ xs) s h k)
