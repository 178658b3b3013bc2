-- ===== src/Memory/Tests.antt =====
-- Runs of kMemSet, kMemCpy and kMemCmp, and their theorems at concrete memories.
use deodeok_os.Base.{◌%◌, ◌≡◌, ◌↔◌, refl, arith, [], ◌∷◌, map}
use deodeok_os.Memory.{Memory, mem_set, mem_cpy, mem_cmp}
use deodeok_os.Memory.Words.{IsByteMemory}
use deodeok_os.Memory.Copy.{mem_cpy-within}
use deodeok_os.Memory.Compare.{SameBytes, mem_cmp_iff}

-- The cells hold their addresses.
abbrev counting : Memory
counting a = a % 256

counting-IsByteMemory : IsByteMemory counting
counting-IsByteMemory a = omega arith

copied :
    map (mem_cpy counting 100 10 11).1 (99 ∷ 100 ∷ 107 ∷ 108 ∷ 110 ∷ 111 ∷ [])
    ≡ 99 ∷ 10 ∷ 17 ∷ 18 ∷ 20 ∷ 111 ∷ []
unfolding mem_cpy
copied = refl

filled :
    map (mem_set counting 100 7 10) (99 ∷ 100 ∷ 107 ∷ 108 ∷ 109 ∷ 110 ∷ [])
    ≡ 99 ∷ 7 ∷ 7 ∷ 7 ∷ 7 ∷ 110 ∷ []
unfolding mem_set
filled = refl

compared : map (mem_cmp counting 256 0) (3 ∷ 9 ∷ 256 ∷ []) ≡ 0 ∷ 0 ∷ 0 ∷ []
unfolding mem_cmp
compared = refl

mem_cpy-within_example : (mem_cpy counting 100 10 11).1 110 ≡ 20
mem_cpy-within_example =
    mem_cpy-within counting 100 10 11 110 counting-IsByteMemory (omega arith) (omega arith)

mem_cmp_iff_example : (mem_cmp counting 256 0 12 ≡ 0) ↔ SameBytes 12 counting 256 0
mem_cmp_iff_example = mem_cmp_iff counting 256 0 12 counting-IsByteMemory (omega arith)
