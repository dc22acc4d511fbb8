-- ===== src/LinkList.antt =====
-- src/lib/kernel/list.c and include/lib/kernel/list.h: doubly linked lists between two fixed nodes.
-- A node is its address, and the `prev` and `next` of all nodes are two tables of the store. Each
-- function switches interrupts off round its writes, so that it is one step of the kernel.
pub mod Chain
pub mod Insert
pub mod Walk
mod Tests
use tros.Prelude.{
  ℕ, zero, suc, ◌≡◌, Bool, true, false, ◌==◌, if◌then◌else◌, add32, Run, ok, out_of_fuel,
}

abbrev pub Ptr : Type 0
Ptr = ℕ

abbrev pub null : Ptr
null = 0

-- `struct list_elem`, for every address.
pub record Links : Type 0 where
  pub prev : Ptr → Ptr
  pub next : Ptr → Ptr

-- `struct list`: the addresses of its two nodes.
pub record Ends : Type 0 where
  pub head : Ptr
  pub tail : Ptr

abbrev pub update : (Ptr → Ptr) → Ptr → Ptr → Ptr → Ptr
update f p v q = if p == q then v else f q

abbrev pub set_next : Ptr → Ptr → Links → Links
set_next p q m = record m { next = update m.next p q }

abbrev pub set_prev : Ptr → Ptr → Links → Links
set_prev p q m = record m { prev = update m.prev p q }

pub list_init : Links → Ends → Links
list_init m l =
    let m1 = set_prev l.head null m in
    let m2 = set_next l.head l.tail m1 in
    let m3 = set_prev l.tail l.head m2 in set_next l.tail null m3

pub list_insert_before : Links → (before elem : Ptr) → Links
list_insert_before m before elem =
    let m1 = set_next (m.prev before) elem m in
    let m2 = set_prev elem (m1.prev before) m1 in
    let m3 = set_next elem before m2 in set_prev before elem m3

pub list_push : Links → Ends → Ptr → Links
unfolding list_insert_before
list_push m plist elem = list_insert_before m (m.next plist.head) elem

pub list_append : Links → Ends → Ptr → Links
unfolding list_insert_before
list_append m plist elem = list_insert_before m plist.tail elem

pub list_remove : Links → Ptr → Links
list_remove m pelem =
    let m1 = set_next (m.prev pelem) (m.next pelem) m in set_prev (m1.next pelem) (m1.prev pelem) m1

pub list_pop : Links → Ends → Ptr × Links
unfolding list_remove
list_pop m plist = let elem = m.next plist.head in (elem, list_remove m elem)

pub list_empty : Links → Ends → Bool
list_empty m plist = m.next plist.head == plist.tail

-- while (elem != &plist->tail) { if (elem == obj_elem) return true; elem = elem->next; }
pub elem_find_loop : ℕ → Links → Ends → (obj_elem elem : Ptr) → Run Bool
elem_find_loop zero m plist obj_elem elem = out_of_fuel
elem_find_loop (suc fuel) m plist obj_elem elem =
    let next = elem_find_loop fuel m plist obj_elem (m.next elem) in
    if elem == plist.tail then ok false else if elem == obj_elem then ok true else next

pub elem_find : ℕ → Links → Ends → Ptr → Run Bool
unfolding elem_find_loop
elem_find fuel m plist obj_elem = elem_find_loop fuel m plist obj_elem (m.next plist.head)

-- The callback may change other state, of type `S`, but no links; its `arg` is part of `func`.
module _ {S : Type 0} where
  pub list_traversal_loop : ℕ → Links → Ends → (Ptr → S → Bool × S) → Ptr → S → Run (Ptr × S)
  list_traversal_loop zero m plist func elem s = out_of_fuel
  list_traversal_loop (suc fuel) m plist func elem s =
      let (hit, s') = func elem s in
      let next = list_traversal_loop fuel m plist func (m.next elem) s' in
      if elem == plist.tail then ok (null, s) else if hit then ok (elem, s') else next

  pub list_traversal : ℕ → Links → Ends → (Ptr → S → Bool × S) → S → Run (Ptr × S)
  unfolding list_traversal_loop list_empty
  list_traversal fuel m plist func s =
      let elem = m.next plist.head in
      if list_empty m plist then ok (null, s) else list_traversal_loop fuel m plist func elem s

pub list_len_loop : ℕ → Links → Ends → Ptr → ℕ → Run ℕ
list_len_loop zero m plist elem len = out_of_fuel
list_len_loop (suc fuel) m plist elem len =
    let next = list_len_loop fuel m plist (m.next elem) (add32 len 1) in
    if elem == plist.tail then ok len else next

pub list_len : ℕ → Links → Ends → Run ℕ
unfolding list_len_loop
list_len fuel m plist = list_len_loop fuel m plist (m.next plist.head) 0
