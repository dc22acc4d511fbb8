-- ===== src/Heap/SizeClass.antt =====
-- The sizes of blocks in src/kernel/memory.c: what `block_desc_init` sets up, and the class that
-- `sys_malloc` finds.
use tros.Prelude.{
  ℕ, zero, suc, ◌+◌, ◌*◌, ◌^◌, ◌<◌, ◌≤◌, ◌≡◌, ◌⊎◌, inl, inr, refl, sym, ap, ◌∙◌, some, List, [],
  ◌∷◌, arith, leb, if◌then◌else◌, get_elem?, Bool-cases,
}
use mathlib.Core.Path.{subst}
use tros.Memory.{pg_size}
use tros.Memory.Setup.{BlockDesc, block_desc_init, arena_size}
use tros.Heap.{MemBlockDesc, match_desc}

abbrev pub sizes_of : List MemBlockDesc → List BlockDesc
sizes_of [] = []
sizes_of (d ∷ ds) =
    record { block_size = d.block_size; blocks_per_arena = d.blocks_per_arena } ∷ sizes_of ds

-- A size class that is right for `size`: its blocks hold it, those of half the size do not unless
-- they are the smallest there are, and the blocks of an arena fit behind its head.
pub record Fitting (size i : ℕ) (d : BlockDesc) : Type 0 where
  pub size_eq : d.block_size ≡ 16 * 2 ^ i
  pub holds : size ≤ d.block_size
  pub least : (d.block_size ≡ 16) ⊎ (d.block_size < 2 * size)
  pub page : arena_size + d.blocks_per_arena * d.block_size ≤ pg_size
  pub some_block : 1 < d.blocks_per_arena

abbrev match_sizes : List BlockDesc → (size desc_idx : ℕ) → ℕ
match_sizes [] size desc_idx = desc_idx
match_sizes (d ∷ ds) size desc_idx =
    let rest = match_sizes ds size (desc_idx + 1) in
    if leb size d.block_size then desc_idx else rest

match_desc-sizes :
    (ds : List MemBlockDesc) (size i : ℕ) → match_desc ds size i ≡ match_sizes (sizes_of ds) size i
unfolding match_desc
match_desc-sizes [] size i = refl
match_desc-sizes (d ∷ ds) size i = rw (match_desc-sizes ds size (i + 1)) refl

get_elem?-sizes :
    (ds : List MemBlockDesc) (i : ℕ) (b : BlockDesc)
    → get_elem? (sizes_of ds) i ≡ some b
    → (d : MemBlockDesc) × (get_elem? ds i ≡ some d)
      × (b ≡ record { block_size = d.block_size; blocks_per_arena = d.blocks_per_arena })
get_elem?-sizes [] i b e = absurd (ground (arith, e))
get_elem?-sizes (d ∷ ds) zero b e = (d, refl, some-injective (sym e))
  where
    some-injective : {x y : BlockDesc} → some x ≡ some y → x ≡ y
    some-injective e = cc
get_elem?-sizes (d ∷ ds) (suc i) b e = get_elem?-sizes ds i b e

init_match :
    (size : ℕ)
    → 0 < size
    → size ≤ 1024
    → (b : BlockDesc) × (get_elem? block_desc_init (match_sizes block_desc_init size 0) ≡ some b)
      × Fitting size (match_sizes block_desc_init size 0) b
unfolding block_desc_init
init_match size pos small = elim (Bool-cases (leb size 16)) [
  | inl e0 ↦ rw (e0) (
    record { block_size = 16; blocks_per_arena = 255 },
    refl,
    record {
      size_eq = omega arith;
      holds = ground arith;
      least = inl refl;
      page = omega arith;
      some_block = omega arith;
    },
  )
  | inr e0 ↦ elim (Bool-cases (leb size 32)) [
    | inl e1 ↦
        rw (e0, e1)
          (
            record { block_size = 32; blocks_per_arena = 127 },
            refl,
            record {
              size_eq = omega arith;
              holds = ground arith;
              least = inr (ground arith);
              page = omega arith;
              some_block = omega arith;
            },
          )
    | inr e1 ↦ elim (Bool-cases (leb size 64)) [
      | inl e2 ↦
          rw (e0, e1, e2)
            (
              record { block_size = 64; blocks_per_arena = 63 },
              refl,
              record {
                size_eq = omega arith;
                holds = ground arith;
                least = inr (ground arith);
                page = omega arith;
                some_block = omega arith;
              },
            )
      | inr e2 ↦ elim (Bool-cases (leb size 128)) [
        | inl e3 ↦
            rw (e0, e1, e2, e3)
              (
                record { block_size = 128; blocks_per_arena = 31 },
                refl,
                record {
                  size_eq = omega arith;
                  holds = ground arith;
                  least = inr (ground arith);
                  page = omega arith;
                  some_block = omega arith;
                },
              )
        | inr e3 ↦ elim (Bool-cases (leb size 256)) [
          | inl e4 ↦
              rw (e0, e1, e2, e3, e4)
                (
                  record { block_size = 256; blocks_per_arena = 15 },
                  refl,
                  record {
                    size_eq = omega arith;
                    holds = ground arith;
                    least = inr (ground arith);
                    page = omega arith;
                    some_block = omega arith;
                  },
                )
          | inr e4 ↦ elim (Bool-cases (leb size 512)) [
            | inl e5 ↦
                rw (e0, e1, e2, e3, e4, e5)
                  (
                    record { block_size = 512; blocks_per_arena = 7 },
                    refl,
                    record {
                      size_eq = omega arith;
                      holds = ground arith;
                      least = inr (ground arith);
                      page = omega arith;
                      some_block = omega arith;
                    },
                  )
            | inr e5 ↦ elim (Bool-cases (leb size 1024)) [
              | inl e6 ↦
                  rw (e0, e1, e2, e3, e4, e5, e6)
                    (
                      record { block_size = 1024; blocks_per_arena = 3 },
                      refl,
                      record {
                        size_eq = omega arith;
                        holds = ground arith;
                        least = inr (ground arith);
                        page = omega arith;
                        some_block = omega arith;
                      },
                    )
              | inr e6 ↦ absurd (ground (arith, e6))
            ]
          ]
        ]
      ]
    ]
  ]
]

-- With the descriptors as `block_desc_init` leaves them, the loop of `sys_malloc` finds a fitting
-- class for every size from 1 to 1024.
pub match_desc-Fitting :
    (ds : List MemBlockDesc) (size : ℕ)
    → sizes_of ds ≡ block_desc_init
    → 0 < size
    → size ≤ 1024
    → (d : MemBlockDesc) × (get_elem? ds (match_desc ds size 0) ≡ some d)
      × Fitting size
          (match_desc ds size 0)
          (record { block_size = d.block_size; blocks_per_arena = d.blocks_per_arena })
match_desc-Fitting ds size set pos small =
    let i = match_desc ds size 0 in
    let same : match_sizes block_desc_init size 0 ≡ i =
      ap (λ bs. match_sizes bs size 0) (sym set) ∙ sym (match_desc-sizes ds size 0) in
    let (b, e, fits) = init_match size pos small in
    let e1 = subst (λ j. get_elem? block_desc_init j ≡ some b) same e in
    let (d, e2, e3) = get_elem?-sizes ds i b (subst (λ bs. get_elem? bs i ≡ some b) (sym set) e1) in
    (d, e2, subst (Fitting size i) e3 (subst (λ j. Fitting size j b) same fits))
