-- ===== src/MmapCache.antt =====
-- lib/tinykvm/mmap_cache.hpp and the MMapCache members of lib/tinykvm/memory_maps.cpp: the free and
-- the used ranges of the guest's mmap area. Addresses and sizes are uint64_t and wrap.
pub mod Cover
pub mod Remove
pub mod Results
use tinykvm.Prelude.{
  ℕ, ◌-◌, Bool, ◌&&◌, Option, none, some, List, [], ◌∷◌, ◌++◌, done, throws, ltb, leb, ◌==◌,
  if◌then◌else◌, length, add64, sub64,
}
use tinykvm.Prelude.Outcome.{Outcome}

pub record Range : Type 0 where
  pub addr : ℕ
  pub size : ℕ

abbrev pub is_empty : Range → Bool
is_empty r = r.size == 0

abbrev pub overlaps : Range → ℕ → ℕ → Bool
overlaps r mem memsize = ltb r.addr (add64 mem memsize) && ltb mem (add64 r.addr r.size)

pub record MmapCache : Type 0 where
  pub free_ranges : List Range
  pub used_ranges : List Range
  pub mm : ℕ
  pub track_used_ranges : Bool
  pub max_tracked_ranges : ℕ

-- The messages of the MemoryExceptions that memory_maps.cpp throws.
pub data MmapError : Type 0 where
  invalid_free_range free_collision too_many_free too_many_used failed_to_remove : MmapError
  below_mmap_start exceeds_current reuse_collision current_collision : MmapError

-- The loop of `find`: the first range that is large enough gives its front, or is erased.
unfoldable pub find_in : List Range → ℕ → Range × List Range
find_in [] size = (record { addr = 0; size = 0 }, [])
find_in (r ∷ rs) size =
    let rest = find_in rs size in
    if leb size r.size
    then (
      record { addr = r.addr; size = size },
      (if ltb size r.size
          then record { addr = add64 r.addr size; size = r.size - size } ∷ rs
          else rs),
    )
    else (rest.0, r ∷ rest.1)

unfoldable pub find : MmapCache → ℕ → Range × MmapCache
find c size =
    let found = find_in c.free_ranges size in (found.0, record c { free_ranges = found.1 })

unfoldable pub find_collision : List Range → Range → Option Range
find_collision [] r = none
find_collision (line ∷ ranges) r =
    if overlaps line r.addr r.size then some line else find_collision ranges r

-- The loop that joins a new free range to the first neighbour; `none` means that there is none.
unfoldable pub merge_free : List Range → ℕ → ℕ → Option (List Range)
merge_free [] addr size = none
merge_free (r ∷ rs) addr size =
    let rest = merge_free rs addr size in
    if add64 r.addr r.size == addr
    then some (record { addr = r.addr; size = add64 r.size size } ∷ rs)
    else if r.addr == add64 addr size
    then some (record { addr = addr; size = add64 r.size size } ∷ rs)
    else elim rest [ none ↦ none | some rs' ↦ some (r ∷ rs') ]

-- `push_back` behind the check of the table's limit.
unfoldable pub push_free : MmapCache → ℕ → ℕ → Outcome MmapError MmapCache (Unit {0})
push_free c addr size =
    if leb c.max_tracked_ranges (length c.free_ranges)
    then throws too_many_free c
    else done tt
        (record c { free_ranges = c.free_ranges ++ record { addr = addr; size = size } ∷ [] })

unfoldable pub insert_free : MmapCache → ℕ → ℕ → Outcome MmapError MmapCache (Unit {0})
unfolding push_free
insert_free c addr size =
    if ltb c.mm (add64 addr size)
    then throws invalid_free_range c
    else elim (find_collision c.free_ranges (record { addr = addr; size = size })) [
      | some _ ↦ throws free_collision c
      | none ↦ elim (merge_free c.free_ranges addr size) [
        | some rs ↦ done tt (record c { free_ranges = rs })
        | none ↦ push_free c addr size
      ]
    ]

-- The vector with its last element grown, if that ends where the new range starts.
unfoldable pub extend_back : List Range → ℕ → ℕ → Option (List Range)
extend_back [] addr size = none
extend_back (r ∷ []) addr size =
    if add64 r.addr r.size == addr
    then some (record { addr = r.addr; size = add64 r.size size } ∷ [])
    else none
extend_back (r ∷ s ∷ rs) addr size = elim (extend_back (s ∷ rs) addr size) [
  | none ↦ none
  | some rs' ↦ some (r ∷ rs')
]

unfoldable pub insert_used : MmapCache → ℕ → ℕ → Outcome MmapError MmapCache (Unit {0})
insert_used c addr size = elim (extend_back c.used_ranges addr size) [
  | some rs ↦ done tt (record c { used_ranges = rs })
  | none ↦
      if leb c.max_tracked_ranges (length c.used_ranges)
      then throws too_many_used c
      else done tt
          (record c { used_ranges = c.used_ranges ++ record { addr = addr; size = size } ∷ [] })
]

-- What the loop of `remove` leaves of one range.
unfoldable pub remove_one : Range → ℕ → ℕ → List Range
remove_one r addr size =
    if overlaps r addr size
    then (if leb addr r.addr && leb (add64 r.addr r.size) (add64 addr size)
        then []
        else if ltb addr r.addr
        then record { addr = add64 addr size; size = sub64 r.size (sub64 (add64 addr size) r.addr) }
          ∷ []
        else if sub64 addr r.addr == 0
        then []
        else record { addr = r.addr; size = sub64 addr r.addr } ∷ [])
    else r ∷ []

unfoldable pub remove_all : List Range → ℕ → ℕ → List Range
remove_all [] addr size = []
remove_all (r ∷ rs) addr size = remove_one r addr size ++ remove_all rs addr size

-- `remove_free` and `remove_used` are `remove` on the one vector or the other.
unfoldable pub remove_free : MmapCache → ℕ → ℕ → Outcome MmapError MmapCache (Unit {0})
remove_free c addr size =
    let rs = remove_all c.free_ranges addr size in
    elim (find_collision rs (record { addr = addr; size = size })) [
      | some _ ↦ throws failed_to_remove (record c { free_ranges = rs })
      | none ↦ done tt (record c { free_ranges = rs })
    ]

unfoldable pub remove_used : MmapCache → ℕ → ℕ → Outcome MmapError MmapCache (Unit {0})
remove_used c addr size =
    let rs = remove_all c.used_ranges addr size in
    elim (find_collision rs (record { addr = addr; size = size })) [
      | some _ ↦ throws failed_to_remove (record c { used_ranges = rs })
      | none ↦ done tt (record c { used_ranges = rs })
    ]
