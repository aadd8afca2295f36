-- ===== src/Mm/Heap/Tests.antt =====
-- The heap at concrete inputs.
use libhermit_mpk.Prelude.{align_down}
use libhermit_mpk.Prelude.{◌≡◌, refl, [], ◌∷◌, arith, align_up}
use libhermit_mpk.Mm.HoleList.{hole, Layout}
use libhermit_mpk.Mm.Heap.{Heap, alloc_bootstrap, allocate_first_fit, alloc_err, empty, init}
use libhermit_mpk.Mm.Heap.System.{IsReady}
use libhermit_mpk.Mm.Heap.Growth.{RoundTrip, heap-RoundTrip}

abbrev small_request : Layout
small_request = record { size = 100; align = 8 }

abbrev large_request : Layout
large_request = record { size = 4096; align = 8 }

-- A heap of 8 MiB at 0x400000.
abbrev ready : Heap
ready = record {
  first_block = 0x200000;
  index = 0;
  bottom = 0x400000;
  size = 0x800000;
  holes = hole 0x400000 0x800000 ∷ [];
}

ready-init : init (empty 0x200000) 0x400000 0x800000 ≡ ready
unfolding init empty
ready-init = refl

ready-IsReady : IsReady ready
ready-IsReady = omega arith

-- A request that fills the array fails, and moves the index.
abbrev exhausted : Heap
exhausted = record { first_block = 0x200000; index = 4096; bottom = 0; size = 0; holes = [] }

alloc_bootstrap_fails : alloc_bootstrap (empty 0x200000) large_request ≡ alloc_err exhausted
unfolding alloc_bootstrap empty align_up align_down
alloc_bootstrap_fails = refl

heap-RoundTrip_example :
    RoundTrip 0x300000 ready
      (record { size = 100; align = 16 })
      (allocate_first_fit ready (record { size = 100; align = 16 }))
heap-RoundTrip_example =
    heap-RoundTrip ready 0x300000 4 100 ready-IsReady (omega arith) (omega arith)
      (λ x c. ground arith)
