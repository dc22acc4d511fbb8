-- ===== src/Format/Tests.antt =====
-- The theorems on formatted partitions at one of 10000 sectors, and runs of its layout.
use tros.Prelude.{◌+◌, ◌-◌, ◌≡◌, refl, arith, ◌==◌, ◌||◌, ltb}
use tros.Bitmap.{is_set}
use tros.Disk.{Disk}
use tros.Format.{layout, block_bitmap_bit_len, block_bitmap_buf}
use tros.Format.Layout.{Fitted, layout-Fitted}
use tros.Format.Bits.{is_set-block_bitmap_buf}

abbrev blank : Disk
blank = λ lba i. 0

data_start_of_10000 : (layout 2048 10000).data_start_lba ≡ 2662
unfolding layout
data_start_of_10000 = refl

-- The first sector behind the partition has a bit, which is clear.
blocks_of_10000 : block_bitmap_bit_len 10000 ≡ 2048 + 10000 - 2662
unfolding block_bitmap_bit_len
blocks_of_10000 = refl

layout-Fitted_example : Fitted 2048 10000 (layout 2048 10000)
layout-Fitted_example = layout-Fitted 2048 10000 (omega arith) (omega arith)

is_set-block_bitmap_buf_example :
    is_set (record { btmp_bytes_len = 1536; bits = block_bitmap_buf 9386 }) 9386
    ≡ ((9386 == 0) || ltb 9386 9386)
is_set-block_bitmap_buf_example = is_set-block_bitmap_buf 9386 1536 9386 (omega arith) (omega arith)
