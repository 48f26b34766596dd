-- ===== src/Mmap/Run.antt =====
-- Histories of the mmap area: the calls of the guest's system calls, one after the other.
use tinykvm.Prelude.{
  ℕ, ◌+◌, ◌%◌, ◌^◌, ◌≤◌, ◌<◌, ◌≡◌, inl, inr, Bool, true, false, List, [], ◌∷◌, arith, ltb,
  if◌then◌else◌, done, throws, round_up, page_size, add64, state_of, Bool-cases,
}
use tinykvm.Prelude.Outcome.{Outcome}
use tinykvm.MmapCache.{MmapCache, MmapError}
use tinykvm.Mmap.{
  mmap_allocate, mmap_fixed_allocate, mmap_unmap, map_fixed, mmap_collision_threshold,
}
use tinykvm.Mmap.Invariant.{IsValid}
use tinykvm.Mmap.Allocate.{Roomy, Allocates, mmap_allocate-Allocates}
use tinykvm.Mmap.Unmap.{Unmaps, mmap_unmap-Unmaps}
use tinykvm.Mmap.Fixed.{Fixes, map_fixed-Fixes}

pub data Call : Type 0 where
  allocate : ℕ → Bool → Call
  allocate_at : ℕ → ℕ → Bool → Call
  unmap : ℕ → ℕ → Call

-- The cache after a call, whether it returned or threw.
pub step : ℕ → MmapCache → Call → MmapCache
step start c (allocate bytes huge) = state_of (mmap_allocate start c bytes huge)
step start c (allocate_at addr bytes is_fixed) =
    state_of (mmap_fixed_allocate start c addr bytes is_fixed)
step start c (unmap addr size) = state_of (mmap_unmap start c addr size)

pub run : ℕ → MmapCache → List Call → MmapCache
run start c [] = c
run start c (k ∷ ks) = run start (step start c k) ks

-- What is assumed of a call: the size is not 0, the address of a mapping is page-aligned, and no end
-- wraps.
abbrev pub Permitted : MmapCache → Call → Type 0
Permitted c (allocate bytes huge) = (0 < bytes) × Roomy c bytes
Permitted c (allocate_at addr bytes is_fixed) =
    (0 < bytes) × (addr % 4096 ≡ 0) × (addr + bytes + 4096 < 2 ^ 64) × Roomy c (bytes + 4096)
Permitted c (unmap addr size) = (0 < size) × (addr + size < 2 ^ 64)

abbrev pub AllPermitted : ℕ → MmapCache → List Call → Type 0
AllPermitted start c [] = Unit {0}
AllPermitted start c (k ∷ ks) = Permitted c k × AllPermitted start (step start c k) ks

pub allocated_valid :
    (start : ℕ) (c : MmapCache) (size : ℕ) (o : Outcome MmapError MmapCache ℕ)
    → Allocates start c size o
    → IsValid (state_of o)
allocated_valid start c size (done a c') g = g.valid
allocated_valid start c size (throws e c') g = g.valid

map_fixed_valid :
    (c : MmapCache) (addr size : ℕ) (v : IsValid c) (pos : 0 < size) (below : addr + size ≤ c.mm)
    (o : Outcome MmapError MmapCache ℕ)
    → Fixes c addr size v pos below o
    → IsValid (state_of o)
map_fixed_valid c addr size v pos below (done a c') g = g.valid
map_fixed_valid c addr size v pos below (throws e c') g = g.0

pub placed_valid :
    (start : ℕ) (c : MmapCache) (addr bytes : ℕ) (is_fixed : Bool)
    → IsValid c
    → Permitted c (allocate_at addr bytes is_fixed)
    → IsValid (state_of (mmap_fixed_allocate start c addr bytes is_fixed))
unfolding mmap_fixed_allocate
placed_valid start c addr bytes is_fixed v p = elim (Bool-cases (ltb addr start)) [
  | inl low ↦ rw low v
  | inr high ↦ elim (Bool-cases (ltb c.mm (add64 addr bytes))) [
    | inl beyond ↦
        rw (high, beyond)
          (elim (Bool-cases (ltb (add64 c.mm mmap_collision_threshold) addr)) [
            | inl far ↦ rw far v
            | inr near ↦ rw near v
          ])
    | inr inside ↦ rw (high, inside) (inner is_fixed (ground (arith, p, inside)))
  ]
]
  where
    size : ℕ
    size = round_up page_size bytes

    inner :
        (b : Bool)
        → addr + bytes ≤ c.mm
        → IsValid (state_of (if b then map_fixed c addr size else mmap_allocate start c size false))
    inner true below =
        map_fixed_valid c addr size v (omega (arith, p)) (omega (arith, p, v.aligned)) _
          (map_fixed-Fixes c addr size v (omega (arith, p)) (omega (arith, p, v.aligned)))
    inner false below =
        allocated_valid start c _ _
          (mmap_allocate-Allocates start c size false v (omega (arith, p)) (omega (arith, p)))

pub unmapped_valid :
    (start : ℕ) (c : MmapCache) (addr size : ℕ)
    → IsValid c
    → 0 < size
    → addr + size < 2 ^ 64
    → IsValid (state_of (mmap_unmap start c addr size))
unmapped_valid start c addr size v pos word =
    go (mmap_unmap start c addr size) (mmap_unmap-Unmaps start c addr size v pos word)
  where
    go :
        (o : Outcome MmapError MmapCache Bool)
        → Unmaps start c addr size v pos word o
        → IsValid (state_of o)
    go (done r c') u = u.valid
    go (throws e c') u = rw (u.0) v

step-IsValid :
    (start : ℕ) (c : MmapCache) (k : Call) → IsValid c → Permitted c k → IsValid (step start c k)
unfolding step
step-IsValid start c (allocate bytes huge) v p =
    allocated_valid start c _ _ (mmap_allocate-Allocates start c bytes huge v p.0 p.1)
step-IsValid start c (allocate_at addr bytes is_fixed) v p =
    placed_valid start c addr bytes is_fixed v p
step-IsValid start c (unmap addr size) v p = unmapped_valid start c addr size v p.0 p.1

-- From a valid area, after any sequence of allocations, fixed mappings and unmappings with sizes
-- that are not 0, room for each allocation, page-aligned fixed addresses and no end that wraps,
-- returned or thrown, the area is valid: free and used ranges lie below `current()`, and no address
-- is in two of them.
pub run-IsValid :
    (start : ℕ) (c : MmapCache) (ks : List Call)
    → IsValid c
    → AllPermitted start c ks
    → IsValid (run start c ks)
unfolding run
run-IsValid start c [] v p = v
run-IsValid start c (k ∷ ks) v p =
    run-IsValid start (step start c k) ks (step-IsValid start c k v p.0) p.1
