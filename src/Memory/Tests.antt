-- ===== src/Memory/Tests.antt =====
-- Runs of kernel/memory.c, and its theorems at concrete requests.
use pro_os.Prelude.{◌+◌, ◌-◌, ◌≡◌, refl, [], ◌∷◌, arith}
use pro_os.Memory.{Heap, heap_start, heap_end, init, align_up, kalloc, free_bytes}
use pro_os.Memory.Blocks.{IsValid, Ascending, run, run-Ascending}

abbrev fresh : Heap
fresh = record { next = heap_start; bytes = λ a. 7 }

fresh-IsValid : IsValid fresh
fresh-IsValid = omega arith

-- A heap with 32 bytes left.
abbrev almost_full : Heap
almost_full = record { next = heap_end - 32; bytes = λ a. 7 }

after_init : init almost_full ≡ fresh
unfolding init
after_init = refl

three_blocks :
    run (1 ∷ 0 ∷ 16 ∷ 17 ∷ []) fresh
    ≡ (heap_start, 1) ∷ (heap_start + 16, 16) ∷ (heap_start + 32, 17) ∷ []
unfolding run kalloc align_up
three_blocks = refl

out_of_space : run (33 ∷ 32 ∷ 1 ∷ []) almost_full ≡ (heap_end - 32, 32) ∷ []
unfolding run kalloc align_up
out_of_space = refl

free_in_the_end : free_bytes almost_full ≡ 32
unfolding free_bytes
free_in_the_end = refl

run-Ascending_example : Ascending heap_start (run (100 ∷ 20 ∷ []) fresh)
run-Ascending_example =
    run-Ascending (100 ∷ 20 ∷ []) fresh fresh-IsValid (omega arith, (omega arith, tt))
