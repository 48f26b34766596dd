-- ===== src/Mmap.antt =====
-- The Machine members of lib/tinykvm/memory_maps.cpp: allocation of guest address space. The state is
-- the machine's MMapCache; `start` is mmap_start(), the machine's heap address.
pub mod Invariant
pub mod Allocate
pub mod Unmap
pub mod Fixed
pub mod Run
pub mod Calls
pub mod CallsRun
pub mod Tests
use tinykvm.Prelude.{
  ℕ, ◌+◌, ◌-◌, ◌*◌, ◌^◌, Bool, true, false, not, ◌&&◌, Option, none, some, List, [], done, throws,
  ◌>>=◌, ltb, leb, ◌==◌, if◌then◌else◌, add64, sub64, page_size, round_up,
}
use tinykvm.Prelude.Outcome.{Outcome}
use tinykvm.MmapCache.{
  Range, MmapCache, MmapError, below_mmap_start, exceeds_current, reuse_collision,
  current_collision, is_empty, find, find_collision, insert_free, insert_used, remove_free,
  remove_used,
}

abbrev pub huge_page_size : ℕ
huge_page_size = 0x200000

abbrev pub mmap_collision_threshold : ℕ
mmap_collision_threshold = 512 * 2 ^ 20

-- The requested size, rounded up to small or to huge pages.
abbrev pub allocation_size : ℕ → Bool → ℕ
allocation_size bytes true = round_up huge_page_size bytes
allocation_size bytes false = round_up page_size bytes

-- The tail of both ways to allocate: a used range is recorded unless it collides with another.
unfoldable pub track : MmapCache → Range → MmapError → Outcome MmapError MmapCache ℕ
track c range error =
    if c.track_used_ranges
    then elim (find_collision c.used_ranges range) [
      | some _ ↦ throws error c
      | none ↦ do (_, c') ← insert_used c range.addr range.size; done range.addr c'
    ]
    else done range.addr c

-- The range that `find` took from the free ranges is checked and handed out.
unfoldable pub reuse : ℕ → MmapCache → Range → Outcome MmapError MmapCache ℕ
reuse start c range =
    if ltb range.addr start
    then throws below_mmap_start c
    else if ltb c.mm (add64 range.addr range.size)
    then throws exceeds_current c
    else track c range reuse_collision

-- `current()` grows, for huge pages from an aligned address.
unfoldable pub grow : MmapCache → ℕ → Bool → Outcome MmapError MmapCache ℕ
grow c bytes huge =
    let result : ℕ = if huge then round_up huge_page_size (add64 c.mm bytes) else c.mm in
    track (record c { mm = add64 result bytes }) (record { addr = result; size = bytes })
      current_collision

unfoldable pub mmap_allocate : ℕ → MmapCache → ℕ → Bool → Outcome MmapError MmapCache ℕ
mmap_allocate start c bytes huge =
    let size = allocation_size bytes huge in
    let found = find c size in
    if not (is_empty found.0) && not huge
    then reuse start found.1 found.0
    else grow found.1 size huge

-- A fixed mapping is recorded where it meets no used range.
unfoldable pub track_fixed : MmapCache → ℕ → ℕ → Outcome MmapError MmapCache (Unit {0})
track_fixed c addr bytes =
    if c.track_used_ranges
    then elim (find_collision c.used_ranges (record { addr = addr; size = bytes })) [
      | some _ ↦ done tt c
      | none ↦ insert_used c addr bytes
    ]
    else done tt c

-- A mapping that ends above `current()` moves it, and the gap becomes a free range.
unfoldable pub adjust_current : MmapCache → ℕ → ℕ → Outcome MmapError MmapCache (Unit {0})
adjust_current c addr bytes =
    if ltb c.mm (add64 addr bytes) && ltb addr (add64 c.mm mmap_collision_threshold)
    then (let unused = sub64 addr c.mm in
        let moved = record c { mm = add64 addr bytes } in
        if ltb 0 unused then insert_free moved c.mm unused else done tt moved)
    else done tt c

unfoldable pub map_fixed : MmapCache → ℕ → ℕ → Outcome MmapError MmapCache ℕ
map_fixed c addr bytes = do
  (_, c₁) ← remove_free c addr bytes
  (_, c₂) ← track_fixed c₁ addr bytes
  (_, c₃) ← adjust_current c₂ addr bytes
  done addr c₃

unfoldable pub mmap_fixed_allocate : ℕ → MmapCache → ℕ → ℕ → Bool → Outcome MmapError MmapCache ℕ
mmap_fixed_allocate start c addr bytes is_fixed =
    if ltb addr start
    then throws below_mmap_start c
    else if ltb c.mm (add64 addr bytes)
    then (if ltb (add64 c.mm mmap_collision_threshold) addr
        then done addr c
        else throws exceeds_current c)
    else if is_fixed
    then map_fixed c addr (round_up page_size bytes)
    else mmap_allocate start c (round_up page_size bytes) false

-- An unmapping at the end of the area lowers `current()`; any other leaves a free range.
unfoldable pub give_back : ℕ → MmapCache → ℕ → ℕ → Outcome MmapError MmapCache Bool
give_back start c addr size =
    if (add64 addr size == c.mm) && ltb addr c.mm
    then (remove_free c addr size >>= λ (_, c').
        done true (record c' { mm = round_up page_size addr }))
    else if leb start addr
    then (insert_free c addr size >>= λ (_, c'). done false c')
    else done false c

unfoldable pub mmap_unmap : ℕ → MmapCache → ℕ → ℕ → Outcome MmapError MmapCache Bool
mmap_unmap start c addr size = do
  (relaxed, c₁) ← give_back start c addr size
  (if c₁.track_used_ranges
      then (remove_used c₁ addr size >>= λ (_, c₂). done relaxed c₂)
      else done relaxed c₁)

unfoldable pub mmap_relax : MmapCache → ℕ → ℕ → ℕ → Outcome MmapError MmapCache Bool
mmap_relax c addr size new_size =
    if (c.mm == add64 addr size) && leb new_size size
    then (let moved = record c { mm = round_up page_size (add64 addr new_size) } in
        if c.track_used_ranges
        then (do
          (_, c₁) ← remove_used moved addr size
          (_, c₂) ← insert_used c₁ addr new_size
          done true c₂)
        else done true moved)
    else done false c
