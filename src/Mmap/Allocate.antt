-- ===== src/Mmap/Allocate.antt =====
-- mmap_allocate of lib/tinykvm/memory_maps.cpp.
use tinykvm.Prelude.{
  ℕ, ◌+◌, ◌*◌, ◌%◌, ◌^◌, ◌≤◌, ◌<◌, ◌≡◌, refl, ◌⊎◌, inl, inr, ◌≢◌, Bool, true, false, not, ◌&&◌,
  arith, ltb, length, Bool-cases, done, throws, round_up, add64,
}
use mathlib.Core.Path.{subst}
use tinykvm.Prelude.Outcome.{Outcome}
use tinykvm.MmapCache.{
  Range, MmapCache, MmapError, find, is_empty, too_many_used, below_mmap_start, reuse_collision,
  current_collision,
}
use tinykvm.MmapCache.Cover.{holds, cover, Fits}
use tinykvm.MmapCache.Results.{range}
use tinykvm.Mmap.{track, reuse, grow, mmap_allocate, allocation_size, huge_page_size}
use tinykvm.Mmap.Invariant.{IsValid, Found, find-Found, track_cases, All-Fits_mono, cover_above}

-- Room above `current()` for the request, with nothing that wraps.
abbrev pub Roomy : MmapCache → ℕ → Type 0
Roomy c bytes = c.mm + 2 * bytes + 2 ^ 23 < 2 ^ 64

pub record Allocation (c : MmapCache) (size a : ℕ) (c' : MmapCache) : Type 0 where
  pub valid : IsValid c'
  pub below : a + size ≤ c'.mm
  pub fresh : (x : ℕ) → holds (range a size) x ≡ 1 → cover c.used_ranges x ≡ 0
  pub used : (x : ℕ) → cover c'.used_ranges x ≡ cover c.used_ranges x + holds (range a size) x

-- An error leaves a valid area too.
pub record Refusal (start : ℕ) (c : MmapCache) (size : ℕ) (e : MmapError) (c' : MmapCache)
    : Type 0 where
  pub valid : IsValid c'
  pub cause :
      ((e ≡ below_mmap_start) × ((find c size).0.addr < start))
      ⊎ ((e ≡ too_many_used) × (c.max_tracked_ranges ≤ length c.used_ranges))

abbrev pub Allocates : ℕ → MmapCache → ℕ → Outcome MmapError MmapCache ℕ → Type 0
Allocates start c size (done a c') = Allocation c size a c'
Allocates start c size (throws e c') = Refusal start c size e c'

pub allocation_size_bounds :
    (bytes : ℕ) (huge : Bool)
    → 0 < bytes
    → bytes + 2 ^ 22 < 2 ^ 64
    → (bytes ≤ allocation_size bytes huge)
      × (allocation_size bytes huge < bytes + 0x200000)
      × (allocation_size bytes huge % 4096 ≡ 0)
allocation_size_bounds bytes true p h = omega arith
allocation_size_bounds bytes false p h = omega arith

-- The outcome of a call that can only fail on a full table.
abbrev Gives : MmapCache → ℕ → Outcome MmapError MmapCache ℕ → Type 0
Gives c size (done a c') = Allocation c size a c'
Gives c size (throws e c') =
    IsValid c' × (e ≡ too_many_used) × (c.max_tracked_ranges ≤ length c.used_ranges)

track-Gives :
    (c : MmapCache) (r : Range) (error : MmapError)
    → IsValid c
    → Fits c.mm r
    → ((x : ℕ) → holds r x ≡ 1 → cover c.free_ranges x + cover c.used_ranges x ≡ 0)
    → Gives c r.size (track c r error)
track-Gives c r error v f fresh = elim (track_cases c r error v f fresh) [
  | inl (e, full) ↦ rw e (v, refl, full)
  | inr (rs, e, adds, v') ↦ rw e (record {
    valid = v';
    below = f.1;
    fresh = λ x p. omega (arith, fresh x p);
    used = adds.adds;
  })
]

-- Moving `current()` up keeps the area valid.
raise-IsValid :
    (c : MmapCache) (top : ℕ)
    → IsValid c
    → c.mm ≤ top
    → top < 2 ^ 64
    → top % 4096 ≡ 0
    → IsValid (record c { mm = top })
raise-IsValid c top v le lt al = record {
  bounded = lt;
  aligned = al;
  tracks = v.tracks;
  free_fit = All-Fits_mono c.free_ranges le lt v.free_fit;
  used_fit = All-Fits_mono c.used_ranges le lt v.used_fit;
  disjoint = v.disjoint;
}

raise-Gives :
    (c : MmapCache) (a size : ℕ) (error : MmapError)
    → IsValid c
    → 0 < size
    → c.mm ≤ a
    → a + size < 2 ^ 64
    → (a + size) % 4096 ≡ 0
    → Gives c size (track (record c { mm = add64 a size }) (range a size) error)
raise-Gives c a size error v pos above lt al =
    let end : add64 a size ≡ a + size = omega arith in
    let v' : IsValid (record c { mm = a + size }) =
      raise-IsValid c (a + size) v (omega arith) lt al in
    rw end (
      go (track (record c { mm = a + size }) (range a size) error) (
        track-Gives _ (range a size) error v' (pos, omega arith, lt)
          λ x p. ground (
            arith,
            cover_above c.mm c.free_ranges x v.free_fit,
            cover_above c.mm c.used_ranges x v.used_fit,
          )))
  where
    go :
        (o : Outcome MmapError MmapCache ℕ)
        → Gives (record c { mm = a + size }) size o
        → Gives c size o
    go (done b c') g = record { valid = g.valid; below = g.below; fresh = g.fresh; used = g.used }
    go (throws e c') g = g

grow-Gives :
    (c : MmapCache) (size : ℕ) (huge : Bool)
    → IsValid c
    → 0 < size
    → size % 4096 ≡ 0
    → c.mm + 2 * size + 2 ^ 22 < 2 ^ 64
    → Gives c size (grow c size huge)
unfolding grow
grow-Gives c size true v pos al room =
    raise-Gives c (round_up huge_page_size (add64 c.mm size)) size current_collision v pos
      (omega arith) (omega arith) (omega (arith, v.aligned))
grow-Gives c size false v pos al room =
    raise-Gives c c.mm size current_collision v pos (omega arith) (omega arith)
      (omega (arith, v.aligned))

module _ (start : ℕ) (c : MmapCache) (size : ℕ) where
  grow-Allocates :
      (huge : Bool)
      → IsValid c
      → Found c size
      → 0 < size
      → size % 4096 ≡ 0
      → c.mm + 2 * size + 2 ^ 22 < 2 ^ 64
      → Allocates start c size (grow (find c size).1 size huge)
  unfolding find
  grow-Allocates huge v f pos al room =
      go (grow (find c size).1 size huge) (grow-Gives (find c size).1 size huge f.valid pos al room)
    where
      go :
          (o : Outcome MmapError MmapCache ℕ)
          → Gives (find c size).1 size o
          → Allocates start c size o
      go (done b c') g = record { valid = g.valid; below = g.below; fresh = g.fresh; used = g.used }
      go (throws e c') g = record { valid = g.0; cause = inr (g.1, g.2) }

  reuse-Allocates :
      Found c size
      → (find c size).0.size ≢ 0
      → Allocates start c size (reuse start (find c size).1 (find c size).0)
  unfolding reuse find
  reuse-Allocates f ne = elim (Bool-cases (ltb (find c size).0.addr start)) [
    | inl low ↦ rw (low, reuse) (record { valid = f.valid; cause = inl (refl, ground arith) })
    | inr high ↦
        rw (high, reuse)
          (rw inside (
            go (track (find c size).1 (find c size).0 reuse_collision) (
              track-Gives (find c size).1 (find c size).0 reuse_collision f.valid (f.fits ne)
                f.fresh)))
  ]
    where
      inside : ltb c.mm (((find c size).0.addr + (find c size).0.size) % 2 ^ 64) ≡ false
      inside = ground (arith, f.fits ne)

      go :
          (o : Outcome MmapError MmapCache ℕ)
          → Gives (find c size).1 (find c size).0.size o
          → Allocates start c size o
      go (done b c') g =
          let g' : Allocation (find c size).1 size b c' =
            subst (λ s. Allocation (find c size).1 s b c') (f.sized ne) g in
          record { valid = g'.valid; below = g'.below; fresh = g'.fresh; used = g'.used }
      go (throws e c') g = record { valid = g.0; cause = inr (g.1, g.2) }

-- From a valid area with room for it, a nonempty allocation gives page-rounded space below the new
-- `current()` that no used range held, and records it. It fails only where the table of used ranges
-- is full, or where the first free range that fits lies below `mmap_start()`. Either way the area
-- stays valid.
pub mmap_allocate-Allocates :
    (start : ℕ) (c : MmapCache) (bytes : ℕ) (huge : Bool)
    → IsValid c
    → 0 < bytes
    → Roomy c bytes
    → Allocates start c (allocation_size bytes huge) (mmap_allocate start c bytes huge)
unfolding mmap_allocate
mmap_allocate-Allocates start c bytes huge v pos room =
    elim (Bool-cases (not (is_empty (find c size).0) && not huge)) [
      | inl again ↦
          rw (again, mmap_allocate)
            (reuse-Allocates start c size found (λ e. ground (arith, again)))
      | inr new ↦
          rw (new, mmap_allocate)
            (grow-Allocates start c size huge v found (omega (arith, bounds)) bounds.2
              (omega (arith, bounds)))
    ]
  where
    size : ℕ
    size = allocation_size bytes huge

    bounds :
        (bytes ≤ allocation_size bytes huge)
        × (allocation_size bytes huge < bytes + 0x200000)
        × (allocation_size bytes huge % 4096 ≡ 0)
    bounds = allocation_size_bounds bytes huge pos (omega arith)

    found : Found c size
    found = find-Found c size v (omega (arith, bounds))
