-- ===== src/LinkList/Tests.antt =====
-- Runs of the list functions, and the theorems at a list of the nodes 10 and 20.
use tros.Prelude.{ℕ, ◌+◌, ◌≡◌, refl, Bool, false, [], ◌∷◌, ◌++◌, arith, ◌==◌, ok}
use tros.LinkList.{Ptr, null, Links, Ends, list_init, list_append, list_remove, list_traversal}
use tros.LinkList.Chain.{mem, nodes, IsList}
use tros.LinkList.Insert.{list_init-IsList, list_append-IsList, list_remove-IsList}

abbrev blank : Links
blank = record { prev = λ p. null; next = λ p. null }

abbrev ends : Ends
ends = record { head = 1; tail = 2 }

abbrev other_ends : Ends
other_ends = record { head = 3; tail = 4 }

fresh-IsList : IsList (list_init blank ends) ends []
fresh-IsList = list_init-IsList blank ends (omega arith)

one-IsList : IsList (list_append (list_init blank ends) ends 10) ends (10 ∷ [])
one-IsList = list_append-IsList (list_init blank ends) ends [] 10 fresh-IsList refl

-- The list of 10 and 20.
two : Links
unfolding list_init list_append
two = list_append (list_append (list_init blank ends) ends 10) ends 20

two-IsList : IsList two ends (10 ∷ 20 ∷ [])
unfolding two
two-IsList =
    list_append-IsList (list_append (list_init blank ends) ends 10) ends (10 ∷ []) 20 one-IsList
      refl

list_append-IsList_example : IsList (list_append two ends 30) ends ((10 ∷ 20 ∷ []) ++ (30 ∷ []))
list_append-IsList_example = list_append-IsList two ends (10 ∷ 20 ∷ []) 30 two-IsList refl

list_remove-IsList_example :
    IsList (list_remove two 20) ends (10 ∷ []) × (mem 20 (nodes ends (10 ∷ [])) ≡ false)
list_remove-IsList_example = list_remove-IsList two ends (10 ∷ []) [] 20 two-IsList

-- Counts the elements up to 20.
abbrev until_20 : Ptr → ℕ → Bool × ℕ
until_20 p n = (p == 20, n + 1)

traversal_two : list_traversal 3 two ends until_20 0 ≡ ok (20, 2)
unfolding two list_traversal
traversal_two = refl
