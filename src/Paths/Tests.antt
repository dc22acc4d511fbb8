-- ===== src/Paths/Tests.antt =====
-- Runs of path_parse and path_depth_cnt, and the theorem at the path "//ab/c/".
use tros.Prelude.{ℕ, ◌≡◌, inl, refl, none, List, [], ◌∷◌, arith, ok}
use tros.Paths.{Name, path_parse, path_depth_cnt}
use tros.Paths.Depth.{path_depth_cnt-names}

-- A buffer with something in it.
abbrev used_name : Name
used_name i = 255

abbrev two_names : List ℕ
two_names = 47 ∷ 47 ∷ 97 ∷ 98 ∷ 47 ∷ 99 ∷ 47 ∷ []

depth_two : path_depth_cnt 9 two_names used_name ≡ ok 2
unfolding path_depth_cnt
depth_two = refl

-- For the root alone the buffer is not written before it is read.
root_unwritten : path_parse (47 ∷ []) used_name ≡ ok (used_name, none)
unfolding path_parse
root_unwritten = refl

root_reads_on : path_depth_cnt 9 (47 ∷ []) used_name ≡ ok 1
unfolding path_depth_cnt
root_reads_on = refl

path_depth_cnt-names_example : path_depth_cnt 9 two_names used_name ≡ ok 2
path_depth_cnt-names_example =
    path_depth_cnt-names 9 two_names used_name
      (
        λ e. omega (arith, e),
        (
          λ e. omega (arith, e),
          (
            λ e. omega (arith, e),
            (
              λ e. omega (arith, e),
              (λ e. omega (arith, e), (λ e. omega (arith, e), (λ e. omega (arith, e), tt))),
            ),
          ),
        ),
      )
      refl (inl (λ e. omega (arith, e))) (omega arith) (omega arith)
