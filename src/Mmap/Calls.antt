-- ===== src/Mmap/Calls.antt =====
-- The handlers of lib/tinykvm/linux/system_calls.cpp on the guest's address space: mmap without a
-- file, munmap, mremap and brk. `start` is both heap_address() and mmap_start(), one member of the
-- machine. The handler of mmap gives rax and the ranges that it hands to memzero, that of mremap rax
-- and the copies that it asks for; registers, prot and the embedder's callback are left out.
use tinykvm.Prelude.{
  ℕ, ◌-◌, ◌%◌, ◌^◌, min, Bool, false, not, ◌&&◌, List, [], ◌∷◌, done, throws, ◌>>=◌, ltb, leb, ◌==◌,
  if◌then◌else◌, add64, page_size, round_up,
}
use tinykvm.Prelude.Outcome.{Outcome}
use tinykvm.MmapCache.{Range, MmapCache, MmapError}
use tinykvm.Mmap.{mmap_allocate, mmap_fixed_allocate, mmap_unmap}

abbrev pub map_failed : ℕ
map_failed = 2 ^ 64 - 1

abbrev pub page_down : ℕ → ℕ
page_down addr = addr - addr % page_size

-- Where a mapping without a file goes.
unfoldable pub place_anonymous :
    ℕ
    → (relocate_fixed : Bool) → MmapCache
    → (address length : ℕ) → (is_fixed : Bool) → Outcome MmapError MmapCache ℕ
place_anonymous start relocate_fixed c address length is_fixed =
    if not (address == 0) && (leb start address && leb (add64 address length) start)
    then (if is_fixed then done address c else mmap_allocate start c length false)
    else if not (address == 0) && (leb start address && leb (add64 address length) c.mm)
    then mmap_fixed_allocate start c address length is_fixed
    else if not (address == 0) && (ltb c.mm (add64 address length) && not relocate_fixed)
    then mmap_fixed_allocate start c address length is_fixed
    else mmap_allocate start c length false

unfoldable pub mmap_call :
    ℕ
    → (relocate_fixed : Bool) → MmapCache
    → (rdi rsi : ℕ) → (is_fixed is_anon : Bool) → Outcome MmapError MmapCache (ℕ × List Range)
mmap_call start relocate_fixed c rdi rsi is_fixed is_anon =
    let length = round_up page_size rsi in
    place_anonymous start relocate_fixed c (page_down rdi) length is_fixed >>= λ (rax, c').
    done
      (
        rax,
        if is_anon && not (rax == map_failed)
            then record { addr = rax; size = length } ∷ []
            else [],
      )
      c'

unfoldable pub munmap_call : ℕ → MmapCache → (rdi rsi : ℕ) → Outcome MmapError MmapCache ℕ
munmap_call start c rdi rsi =
    mmap_unmap start c (page_down rdi) (round_up page_size rsi) >>= λ (_, c'). done 0 c'

-- MachineException("mremap: overflow") stands beside the errors of the cache.
pub data MremapResult : Type 0 where
  remapped : (rax : ℕ) → (copied : List Range) → MmapCache → MremapResult
  overflow : MmapCache → MremapResult
  refused : MmapError → MmapCache → MremapResult

-- The old range is copied to the new one; unless MREMAP_DONTUNMAP is set, it is unmapped.
unfoldable pub move_mapping :
    ℕ → (dont_unmap : Bool) → MmapCache → (old_addr old_len new_len : ℕ) → MremapResult
move_mapping start dont_unmap c old_addr old_len new_len =
    elim (mmap_allocate start c new_len false) [
      | throws e c' ↦ refused e c'
      | done new_addr c₁ ↦
          let copied : List Range = record { addr = old_addr; size = old_len } ∷ [] in
          if dont_unmap
          then remapped new_addr copied c₁
          else elim (mmap_unmap start c₁ old_addr old_len) [
            | throws e c' ↦ refused e c'
            | done _ c₂ ↦ remapped new_addr copied c₂
          ]
    ]

unfoldable pub mremap_call :
    ℕ → MmapCache → (rdi old_len new_len : ℕ) → (is_fixed may_move dont_unmap : Bool) → MremapResult
mremap_call start c rdi old_len new_len is_fixed may_move dont_unmap =
    let old_addr = page_down rdi in
    let new_page_len = round_up page_size new_len in
    if is_fixed
    then remapped map_failed [] c
    else if add64 old_addr (round_up page_size old_len) == c.mm
    then (if ltb (add64 old_addr new_page_len) old_addr
        then overflow c
        else remapped old_addr [] (record c { mm = add64 old_addr new_page_len }))
    else if may_move
    then move_mapping start dont_unmap c old_addr old_len new_len
    else remapped (2 ^ 64 - 12) [] c

-- The end of the heap, which only grows.
unfoldable pub brk_call : (brk_address brk_end_address rdi : ℕ) → ℕ
brk_call brk_address brk_end_address rdi =
    if ltb rdi brk_address then brk_address else min rdi brk_end_address
