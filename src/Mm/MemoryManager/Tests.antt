-- ===== src/Mm/MemoryManager/Tests.antt =====
-- The memory manager at concrete inputs: two pages for 5000 bytes.
use libhermit_mpk.Prelude.{
  ◌*◌, ◌≡◌, refl, true, false, some, [], ◌∷◌, arith, align_up, align_down, ◌+◌, ◌^◌, ◌≤◌,
}
use libhermit_mpk.Mm.FreeList as free_list
use libhermit_mpk.Mm.FreeList.{entry}
use libhermit_mpk.Arch.PhysicalMem as physicalmem
use libhermit_mpk.Arch.Paging.{Cpu}
use libhermit_mpk.Arch.Paging.Entry.{set}
use libhermit_mpk.Arch.Paging.Tables.{Supplies, enough, one_more}
use libhermit_mpk.Mm.MemoryManager.{Manager, allocate}
use libhermit_mpk.Mm.MemoryManager.Allocated.{Allocated, allocate-Allocated}
use libhermit_mpk.Mm.MemoryManager.Layout.{
  reserved_space, has_enough_memory, user_heap_size, tables, reserved_space-enough,
  user_heap_size-wraps,
}

abbrev cpu : Cpu
cpu = record { gib_pages = false; width = 36 }

abbrev manager : Manager
manager = record {
  machine = record {
    memory = λ _. 0;
    frames = entry 0x100000 0x200000 ∷ [];
    flushed = [];
    ipis = 0;
  };
  addresses = entry 0x400000 0x500000 ∷ [];
}

two_pages : align_up 5000 4096 ≡ 2 * 4096
unfolding align_up align_down
two_pages = refl

supply : Supplies cpu 6 (entry 0x102000 0x200000 ∷ [])
unfolding physicalmem.allocate free_list.allocate set
supply = one_more refl refl (
    one_more refl refl
      (one_more refl refl (one_more refl refl (one_more refl refl (one_more refl refl enough)))))

allocate-Allocated_example :
    (m' : Manager) × (allocate cpu 5000 true manager ≡ some (0x400000, m'))
    × Allocated cpu 2 true 0 0x200000 0 0x500000 0x100000 0x400000 manager
        (entry 0x102000 0x200000 ∷ [])
        (entry 0x402000 0x500000 ∷ [])
        m'
unfolding free_list.allocate
allocate-Allocated_example =
    allocate-Allocated cpu 5000 1 true manager 0 0x200000 0 0x500000 0x100000 0x400000
      (entry 0x102000 0x200000 ∷ []) (entry 0x402000 0x500000 ∷ []) two_pages (omega arith)
      (omega arith, omega arith, omega arith) (refl, tt) (omega arith)
      (omega arith, omega arith, omega arith) (refl, tt) (omega arith) refl refl supply

-- With 2 GiB of memory that starts at page 3.
reserved_space-enough_example :
    (tables 512 3 524287 + tables (512 * 512) 3 524287 + tables (512 * 512 * 512) 3 524287) * 4096
    ≤ reserved_space 0x80000000
reserved_space-enough_example = reserved_space-enough 0x80000000 3 524287 (omega arith)

-- 16 MiB of which the kernel takes 8 MiB.
user_heap_size-wraps_example :
    (has_enough_memory 0x1000000 0x800000 ≡ true) × (2 ^ 63 ≤ user_heap_size 0x1000000 0x800000)
unfolding reserved_space
user_heap_size-wraps_example =
    user_heap_size-wraps 0x1000000 0x800000 (omega arith) (omega arith) (omega arith)
