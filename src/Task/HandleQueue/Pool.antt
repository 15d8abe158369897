-- ===== src/Task/HandleQueue/Pool.antt =====
-- The static pool of bitmaps in src/scheduler/task/mod.rs: a bump allocator.
use hermit_kernel.Base.{ℕ, ◌+◌, ◌%◌, ◌^◌, Option, some, List}
use hermit_kernel.Base.Tests.{ltb, ◌>>◌, assert}
use hermit_kernel.Base.Lists.{replicate}

abbrev pub max_bitmap_pool : ℕ
max_bitmap_pool = 256

-- `BITMAP_POOL` and `NEXT_BITMAP_ID`
pub record BitmapPool : Type 0 where
  pub slots : List ℕ
  pub next : ℕ

abbrev pub initial_pool : BitmapPool
initial_pool = record { slots = replicate max_bitmap_pool 0; next = 0 }

unfoldable pub alloc_bitmap_id : BitmapPool → Option (ℕ × BitmapPool)
alloc_bitmap_id p = do
  let id = p.next
  assert (ltb id max_bitmap_pool)
  some (id, record p { next = (id + 1) % 2 ^ 64 })
