-- ===== src/LinkList/Insert.antt =====
-- Insertion and removal, as changes of the list of nodes.
use tros.Prelude.{
  ◌≡◌, refl, ap, sym, ◌≢◌, ◌↔◌, true, false, ◌||◌, List, [], ◌∷◌, ◌++◌, append_assoc, arith, ◌==◌,
}
use mathlib.Core.Path.{subst}
use tros.LinkList.{
  Ptr, Links, Ends, list_init, list_insert_before, list_push, list_append, list_remove, list_pop,
  list_empty,
}
use tros.LinkList.Chain.{
  mem, Distinct, Linked, nodes, IsList, mem-append, Linked-frame, mem-prev, Distinct-insert,
  Distinct-remove,
}

-- Inserting `e` before `b` links it between `b` and the node that was in front of it.
Linked-insert :
    (m : Links) (a : Ptr) (ps : List Ptr) (b : Ptr) (bs : List Ptr) (e : Ptr)
    → Linked m (a ∷ ps ++ (b ∷ bs))
    → Distinct (a ∷ ps ++ (b ∷ bs))
    → mem e (a ∷ ps ++ (b ∷ bs)) ≡ false
    → Linked (list_insert_before m b e) (a ∷ ps ++ (e ∷ b ∷ bs))
unfolding list_insert_before
Linked-insert m a [] b bs e (p, q, l) (n, d) fresh = (
  ground arith,
  ground arith,
  (
    ground arith,
    ground arith,
    Linked-frame m (list_insert_before m b e) b bs (λ x i. ground arith) (λ x i. ground arith) l,
  ),
)
Linked-insert m a (a' ∷ ps) b bs e (p, q, l) (n, d) fresh =
    let last = mem-prev m a' ps b bs l in
    (
      ground (arith, mem-append (m.prev b) (a' ∷ ps) (b ∷ bs)),
      ground (arith, mem-append a' ps (b ∷ bs)),
      Linked-insert m a' ps b bs e l d (ground arith),
    )

next-node :
    (m : Links) (a : Ptr) (ps : List Ptr) (e b : Ptr) (bs : List Ptr)
    → Linked m (a ∷ ps ++ (e ∷ b ∷ bs))
    → m.next e ≡ b
next-node m a [] e b bs (p, q, (r, s, l)) = r
next-node m a (a' ∷ ps) e b bs (p, q, l) = next-node m a' ps e b bs l

-- Removing `e` links its two neighbours to each other.
Linked-remove :
    (m : Links) (a : Ptr) (ps : List Ptr) (b : Ptr) (bs : List Ptr) (e : Ptr)
    → Linked m (a ∷ ps ++ (e ∷ b ∷ bs))
    → Distinct (a ∷ ps ++ (e ∷ b ∷ bs))
    → Linked (list_remove m e) (a ∷ ps ++ (b ∷ bs))
unfolding list_remove
Linked-remove m a [] b bs e (p, q, (r, s, l)) (n, (n', d)) = (
  ground arith,
  ground arith,
  Linked-frame m (list_remove m e) b bs (λ x i. ground arith) (λ x i. ground arith) l,
)
Linked-remove m a (a' ∷ ps) b bs e (p, q, l) (n, d) =
    let last = mem-prev m a' ps e (b ∷ bs) l in
    let after = next-node m a' ps e b bs l in
    (
      ground (arith, last, mem-append (m.prev e) (a' ∷ ps) (e ∷ b ∷ bs)),
      ground (arith, after, mem-append a' ps (e ∷ b ∷ bs)),
      Linked-remove m a' ps b bs e l d,
    )

nodes-split :
    (l : Ends) (xs ys : List Ptr) → nodes l (xs ++ ys) ≡ l.head ∷ xs ++ (ys ++ (l.tail ∷ []))
nodes-split l xs ys = ap (λ ns. l.head ∷ ns) (append_assoc xs ys (l.tail ∷ []))

nodes-mem :
    (l : Ends) (xs : List Ptr) (e : Ptr)
    → mem e (l.head ∷ xs ++ (l.tail ∷ [])) ≡ ((e == l.head) || mem e xs || (e == l.tail))
nodes-mem l xs e = ground (arith, mem-append e xs (l.tail ∷ []))

-- `list_init` makes an empty list, if its two nodes are different.
pub list_init-IsList : (m : Links) (l : Ends) → l.head ≢ l.tail → IsList (list_init m l) l []
unfolding list_init
list_init-IsList m l ne = record {
  linked = (ground arith, ground arith, tt);
  distinct = (ground arith, (refl, tt));
}

module _ (m : Links) (l : Ends) where
  -- `list_append` of a node that is not in the list puts it at the end.
  pub list_append-IsList :
      (xs : List Ptr) (e : Ptr)
      → IsList m l xs
      → mem e (nodes l xs) ≡ false
      → IsList (list_append m l e) l (xs ++ (e ∷ []))
  unfolding list_append
  list_append-IsList xs e is fresh = record {
    linked =
        rw (nodes-split l xs (e ∷ []))
          (Linked-insert m l.head xs l.tail [] e is.linked is.distinct fresh);
    distinct =
        subst Distinct (sym (nodes-split l xs (e ∷ [])))
          (Distinct-insert (l.head ∷ xs) (l.tail ∷ []) e fresh is.distinct);
  }

  -- `list_push` of a node that is not in the list puts it at the front.
  pub list_push-IsList :
      (xs : List Ptr) (e : Ptr)
      → IsList m l xs
      → mem e (nodes l xs) ≡ false
      → IsList (list_push m l e) l (e ∷ xs)
  unfolding list_push
  list_push-IsList [] e is fresh =
      let first : m.next l.head ≡ l.tail = is.linked.0 in
      rw first (record {
        linked = Linked-insert m l.head [] l.tail [] e is.linked is.distinct fresh;
        distinct = Distinct-insert (l.head ∷ []) (l.tail ∷ []) e fresh is.distinct;
      })
  list_push-IsList (x ∷ xs) e is fresh =
      let first : m.next l.head ≡ x = is.linked.0 in
      rw first (record {
        linked = Linked-insert m l.head [] x (xs ++ (l.tail ∷ [])) e is.linked is.distinct fresh;
        distinct = Distinct-insert (l.head ∷ []) (x ∷ xs ++ (l.tail ∷ [])) e fresh is.distinct;
      })

  Linked-removed :
      (xs ys : List Ptr) (e : Ptr)
      → Linked m (l.head ∷ xs ++ (e ∷ ys ++ (l.tail ∷ [])))
      → Distinct (l.head ∷ xs ++ (e ∷ ys ++ (l.tail ∷ [])))
      → Linked (list_remove m e) (l.head ∷ xs ++ (ys ++ (l.tail ∷ [])))
  Linked-removed xs [] e k d = Linked-remove m l.head xs l.tail [] e k d
  Linked-removed xs (y ∷ ys) e k d = Linked-remove m l.head xs y (ys ++ (l.tail ∷ [])) e k d

  -- `list_remove` of an element takes it out of its list, wherever it stands.
  pub list_remove-IsList :
      (xs ys : List Ptr) (e : Ptr)
      → IsList m l (xs ++ (e ∷ ys))
      → IsList (list_remove m e) l (xs ++ ys) × (mem e (nodes l (xs ++ ys)) ≡ false)
  list_remove-IsList xs ys e is =
      let k = rw (nodes-split l xs (e ∷ ys)) at is.linked in
      let d = subst Distinct (nodes-split l xs (e ∷ ys)) is.distinct in
      let out = Distinct-remove (l.head ∷ xs) (ys ++ (l.tail ∷ [])) e d in
      (
        record {
          linked = rw (nodes-split l xs ys) (Linked-removed xs ys e k d);
          distinct = subst Distinct (sym (nodes-split l xs ys)) out.0;
        },
        subst (λ ns. mem e ns ≡ false) (sym (nodes-split l xs ys)) out.1,
      )

  -- `list_pop` of a list that is not empty returns its first element and leaves the others.
  pub list_pop-IsList :
      (x : Ptr) (xs : List Ptr)
      → IsList m l (x ∷ xs)
      → ((list_pop m l).0 ≡ x) × IsList (list_pop m l).1 l xs
  unfolding list_pop
  list_pop-IsList x xs is =
      let first : m.next l.head ≡ x = is.linked.0 in
      (first, rw first (list_remove-IsList [] xs x is).0)

  -- `list_empty` tells whether there is no element.
  pub list_empty-IsList : (xs : List Ptr) → IsList m l xs → (list_empty m l ≡ true) ↔ (xs ≡ [])
  unfolding list_empty
  list_empty-IsList [] is = (λ e. refl, λ e. ground (arith, is.linked.0))
  list_empty-IsList (x ∷ xs) is = (
    λ e. absurd (ground (arith, is.linked.0, is.distinct, mem-append x xs (l.tail ∷ []))),
    λ e. cc,
  )

-- Two lists have no node in common.
abbrev pub Apart : List Ptr → List Ptr → Type 0
Apart ns ks = (a : Ptr) → mem a ns ≡ true → mem a ks ≡ false

neighbours :
    (m : Links) (l : Ends) (ys ws : List Ptr) (e : Ptr)
    → Linked m (l.head ∷ ys ++ (e ∷ ws ++ (l.tail ∷ [])))
    → (mem (m.prev e) (l.head ∷ ys) ≡ true) × (mem (m.next e) (ws ++ (l.tail ∷ [])) ≡ true)
neighbours m l ys [] e k =
    (mem-prev m l.head ys e (l.tail ∷ []) k, ground (arith, next-node m l.head ys e l.tail [] k))
neighbours m l ys (w ∷ ws) e k = (
  mem-prev m l.head ys e (w ∷ ws ++ (l.tail ∷ [])) k,
  ground (arith, next-node m l.head ys e w (ws ++ (l.tail ∷ [])) k),
)

module _ (m : Links) (l k : Ends) (xs zs : List Ptr) (is : IsList m l xs) (other : IsList m k zs)
    (apart : Apart (nodes k zs) (nodes l xs)) where
  -- Appending to one list leaves every other list as it is.
  pub list_append-other : (e : Ptr) → mem e (nodes k zs) ≡ false → IsList (list_append m l e) k zs
  unfolding list_append list_insert_before
  list_append-other e fresh =
      let last = mem-prev m l.head xs l.tail [] is.linked in
      record {
        linked =
            Linked-frame m (list_append m l e) k.head (zs ++ (k.tail ∷ []))
              (λ a i.
                ground (arith, apart a, mem-append (m.prev l.tail) (l.head ∷ xs) (l.tail ∷ [])))
              (λ a i. ground (arith, apart a, mem-append a (l.head ∷ xs) (l.tail ∷ [])))
              other.linked;
        distinct = other.distinct;
      }

  -- Removing an element of one list leaves every other list as it is.
  pub list_remove-other :
      (ys ws : List Ptr) (e : Ptr) → xs ≡ ys ++ (e ∷ ws) → IsList (list_remove m e) k zs
  unfolding list_remove
  list_remove-other ys ws e split =
      let whole : nodes l xs ≡ l.head ∷ ys ++ (e ∷ ws ++ (l.tail ∷ [])) =
        rw split (nodes-split l ys (e ∷ ws)) in
      let near = neighbours m l ys ws e (subst (Linked m) whole is.linked) in
      let in_front : (a : Ptr) → mem a (l.head ∷ ys) ≡ true → mem a (nodes l xs) ≡ true = λ a i.
        subst (λ ns. mem a ns ≡ true) (sym whole)
          (ground (arith, mem-append a (l.head ∷ ys) (e ∷ ws ++ (l.tail ∷ [])))) in
      let behind : (a : Ptr) → mem a (ws ++ (l.tail ∷ [])) ≡ true → mem a (nodes l xs) ≡ true =
        λ a i.
          subst (λ ns. mem a ns ≡ true) (sym whole)
            (ground (arith, mem-append a (l.head ∷ ys) (e ∷ ws ++ (l.tail ∷ [])))) in
      record {
        linked =
            Linked-frame m (list_remove m e) k.head (zs ++ (k.tail ∷ []))
              (λ a i. ground (arith, apart a, near, in_front (m.prev e)))
              (λ a i. ground (arith, apart a, near, behind (m.next e))) other.linked;
        distinct = other.distinct;
      }
