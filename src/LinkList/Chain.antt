-- ===== src/LinkList/Chain.antt =====
-- Linked nodes, as the list of their addresses.
use tros.Prelude.{
  ◌≡◌, refl, Bool, true, false, ◌||◌, List, [], ◌∷◌, ◌++◌, arith, ◌==◌, Bool-cases, inl, inr,
}
use tros.LinkList.{Ptr, Links, Ends}

abbrev pub mem : Ptr → List Ptr → Bool
mem a [] = false
mem a (x ∷ xs) = (a == x) || mem a xs

abbrev pub Distinct : List Ptr → Type 0
Distinct [] = Unit
Distinct (x ∷ xs) = (mem x xs ≡ false) × Distinct xs

-- Each node points to the one behind it, and back.
abbrev pub Linked : Links → List Ptr → Type 0
Linked m [] = Unit
Linked m (x ∷ []) = Unit
Linked m (x ∷ y ∷ ns) = (m.next x ≡ y) × (m.prev y ≡ x) × Linked m (y ∷ ns)

-- The nodes of a list, its two ends included.
abbrev pub nodes : Ends → List Ptr → List Ptr
nodes l xs = l.head ∷ xs ++ (l.tail ∷ [])

-- `l` is a list of the elements `xs`.
pub record IsList (m : Links) (l : Ends) (xs : List Ptr) : Type 0 where
  pub linked : Linked m (nodes l xs)
  pub distinct : Distinct (nodes l xs)

pub mem-append : (a : Ptr) (xs ys : List Ptr) → mem a (xs ++ ys) ≡ (mem a xs || mem a ys)
mem-append a [] ys = refl
mem-append a (x ∷ xs) ys = ground (arith, mem-append a xs ys)

pub Linked-frame :
    (m m' : Links) (x : Ptr) (ns : List Ptr)
    → ((a : Ptr) → mem a (x ∷ ns) ≡ true → m'.next a ≡ m.next a)
    → ((a : Ptr) → mem a ns ≡ true → m'.prev a ≡ m.prev a)
    → Linked m (x ∷ ns)
    → Linked m' (x ∷ ns)
Linked-frame m m' x [] f g l = tt
Linked-frame m m' x (y ∷ ns) f g (p, q, l) = (
  ground (arith, f x),
  ground (arith, g y),
  Linked-frame m m' y ns (λ a i. f a (ground arith)) (λ a i. g a (ground arith)) l,
)

-- The node before `b` is the last of those in front of it.
pub mem-prev :
    (m : Links) (a : Ptr) (ps : List Ptr) (b : Ptr) (bs : List Ptr)
    → Linked m (a ∷ ps ++ (b ∷ bs))
    → mem (m.prev b) (a ∷ ps) ≡ true
mem-prev m a [] b bs (p, q, l) = ground arith
mem-prev m a (a' ∷ ps) b bs (p, q, l) = ground (arith, mem-prev m a' ps b bs l)

pub Distinct-append :
    (xs ys : List Ptr) (a : Ptr) → Distinct (xs ++ ys) → mem a xs ≡ true → mem a ys ≡ false
Distinct-append [] ys a d h = absurd (ground arith)
Distinct-append (x ∷ xs) ys a (n, d) h = elim (Bool-cases (a == x)) [
  | inl e ↦ ground (arith, mem-append x xs ys)
  | inr ne ↦ Distinct-append xs ys a d (ground arith)
]

pub Distinct-back : (xs ys : List Ptr) → Distinct (xs ++ ys) → Distinct ys
Distinct-back [] ys d = d
Distinct-back (x ∷ xs) ys (n, d) = Distinct-back xs ys d

pub Distinct-insert :
    (xs ys : List Ptr) (e : Ptr)
    → mem e (xs ++ ys) ≡ false
    → Distinct (xs ++ ys)
    → Distinct (xs ++ (e ∷ ys))
Distinct-insert [] ys e n d = (n, d)
Distinct-insert (x ∷ xs) ys e n (n', d) = (
  ground (arith, mem-append x xs ys, mem-append x xs (e ∷ ys)),
  Distinct-insert xs ys e (ground arith) d,
)

pub Distinct-remove :
    (xs ys : List Ptr) (e : Ptr)
    → Distinct (xs ++ (e ∷ ys))
    → Distinct (xs ++ ys) × (mem e (xs ++ ys) ≡ false)
Distinct-remove [] ys e (n, d) = (d, n)
Distinct-remove (x ∷ xs) ys e (n, d) =
    let h = Distinct-remove xs ys e d in
    (
      (ground (arith, mem-append x xs ys, mem-append x xs (e ∷ ys)), h.0),
      ground (arith, h.1, mem-append x xs (e ∷ ys)),
    )
