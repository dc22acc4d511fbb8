-- ===== src/Heap/Tests.antt =====
-- The theorems at a heap with two free blocks of 16 bytes.
use tros.Prelude.{
  ℕ, ◌+◌, ◌<◌, ◌≤◌, ◌≡◌, ◌⊎◌, refl, true, false, some, List, [], ◌∷◌, arith, ltb, leb, ◌==◌, ◌&&◌,
  if◌then◌else◌, get_elem?, ok,
}
use tros.Bitmap.{Bitmap}
use tros.LinkList.{Ptr, Ends}
use tros.LinkList.Chain.{mem, nodes, IsList}
use tros.Memory.{Pool}
use tros.Memory.Setup.{block_desc_init, desc_loop}
use tros.Heap.{MemBlockDesc, Heap, descs_of, match_desc, sys_malloc}
use tros.Heap.SizeClass.{sizes_of}
use tros.Heap.Allocate.{sys_malloc-first}

abbrev ends : ℕ → Ends
ends n = record { head = 0xc0005000 + n; tail = 0xc0005008 + n }

abbrev desc : (block_size blocks_per_arena n : ℕ) → MemBlockDesc
desc block_size blocks_per_arena n = record {
  block_size = block_size;
  blocks_per_arena = blocks_per_arena;
  free_list = ends n;
}

abbrev descs : List MemBlockDesc
descs =
    desc 16 255 0
    ∷ desc 32 127 32
    ∷ desc 64 63 64
    ∷ desc 128 31 96
    ∷ desc 256 15 128
    ∷ desc 512 7 160
    ∷ desc 1024 3 192
    ∷ []

abbrev no_pages : Bitmap
no_pages = record { btmp_bytes_len = 0; bits = λ i. 0 }

abbrev pool : Pool
pool = record { pool_bitmap = no_pages; phy_addr_start = 0x200000; pool_size = 0x100000 }

-- The free blocks 0xc010200c and 0xc010201c, with old contents.
abbrev heap : Heap
heap = record {
  memory = record {
    kernel_pool = pool;
    user_pool = pool;
    kernel_vaddr = record { vaddr_bitmap = no_pages; vaddr_start = 0xc0100000 };
    userprog_vaddr = record { vaddr_bitmap = no_pages; vaddr_start = 0x8048000 };
    has_pgdir = false;
    words = λ a. 7;
  };
  links = record {
    prev = λ p.
        if p == 0xc010200c
        then 0xc0005000
        else if p == 0xc010201c
        then 0xc010200c
        else if p == 0xc0005008
        then 0xc010201c
        else 0;
    next = λ p.
        if p == 0xc0005000
        then 0xc010200c
        else if p == 0xc010200c
        then 0xc010201c
        else if p == 0xc010201c
        then 0xc0005008
        else 0;
  };
  arenas = λ p. record { desc = some 0; cnt = 2; large = false };
  k_block_descs = descs;
  u_block_desc = [];
}

sizes : sizes_of descs ≡ block_desc_init
unfolding block_desc_init desc_loop
sizes = refl

smallest : get_elem? (descs_of heap) (match_desc (descs_of heap) 10 0) ≡ some (desc 16 255 0)
unfolding match_desc
smallest = refl

IsList-free : IsList heap.links (ends 0) (0xc010200c ∷ 0xc010201c ∷ [])
IsList-free = record {
  linked = (refl, refl, (refl, refl, (refl, refl, tt)));
  distinct = (refl, (refl, (refl, (refl, tt))));
}

mem-outside :
    (p : Ptr)
    → mem p (nodes (ends 0) (0xc010201c ∷ [])) ≡ true
    → (p < 0xc010200c) ⊎ (0xc010201c ≤ p)
mem-outside p i = ground arith

sys_malloc-first_example :
    (h' : Heap) × (sys_malloc 4 heap 10 ≡ ok (0xc010200c, h'))
    × IsList h'.links (ends 0) (0xc010201c ∷ [])
    × ((a : ℕ)
        → h'.memory.words a
          ≡ (if leb 0xc010200c a && ltb a (0xc010200c + 16) then 0 else heap.memory.words a))
sys_malloc-first_example =
    sys_malloc-first 4 heap (desc 16 255 0) 10 0xc010200c (0xc010201c ∷ []) (omega arith)
      (omega arith) (omega arith) smallest IsList-free mem-outside
