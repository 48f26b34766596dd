-- ===== src/Mmap/Invariant.antt =====
-- The invariant of the mmap area, and how the growth of the area bears on it.
use tinykvm.Prelude.{
  ℕ, ◌+◌, ◌%◌, ◌^◌, ◌≤◌, ◌<◌, ◌≡◌, refl, ◌≢◌, ◌⊎◌, inl, inr, true, none, List, [], ◌∷◌, arith, All,
  length, done, throws,
}
use tinykvm.MmapCache.{Range, MmapCache, MmapError, find_collision, find_in, find, too_many_used}
use tinykvm.MmapCache.Cover.{holds, cover, Fits, cover-find_in, find_in-Fits, find_collision-some}
use tinykvm.MmapCache.Results.{range, Adds, insert_used_cases}
use tinykvm.Mmap.{track}

-- Free and used ranges lie below `current()`, and no address is in two of them.
pub record IsValid (c : MmapCache) : Type 0 where
  pub bounded : c.mm < 2 ^ 64
  pub aligned : c.mm % 4096 ≡ 0
  pub tracks : c.track_used_ranges ≡ true
  pub free_fit : All (Fits c.mm) c.free_ranges
  pub used_fit : All (Fits c.mm) c.used_ranges
  pub disjoint : (x : ℕ) → cover c.free_ranges x + cover c.used_ranges x ≤ 1

pub All-Fits_mono :
    {m n : ℕ} (rs : List Range) → m ≤ n → n < 2 ^ 64 → All (Fits m) rs → All (Fits n) rs
All-Fits_mono [] l h w = tt
All-Fits_mono (r ∷ rs) l h w = (omega arith, All-Fits_mono rs l h w.1)

pub cover_above : (top : ℕ) (rs : List Range) (x : ℕ) → All (Fits top) rs → top ≤ x → cover rs x ≡ 0
cover_above top [] x w h = refl
cover_above top (r ∷ rs) x w h = ground (arith, cover_above top rs x w.1 h)

-- A fresh range of the area, recorded as used: `too_many_used` is the only error.
pub track_cases :
    (c : MmapCache) (r : Range) (error : MmapError)
    → IsValid c
    → Fits c.mm r
    → ((x : ℕ) → holds r x ≡ 1 → cover c.free_ranges x + cover c.used_ranges x ≡ 0)
    → ((track c r error ≡ throws too_many_used c) × (c.max_tracked_ranges ≤ length c.used_ranges))
      ⊎ ((rs : List Range) × (track c r error ≡ done r.addr (record c { used_ranges = rs }))
          × Adds c.mm c.used_ranges r rs
          × IsValid (record c { used_ranges = rs }))
unfolding track
track_cases c r error v f fresh = elim (insert_used_cases c.mm c r.addr r.size v.used_fit f) [
  | inl (e, full) ↦ inl (ground (arith, clear), full)
  | inr (rs, e, adds) ↦ inr (
    rs,
    ground (arith, clear),
    adds,
    record {
      bounded = v.bounded;
      aligned = v.aligned;
      tracks = v.tracks;
      free_fit = v.free_fit;
      used_fit = adds.fit;
      disjoint = λ x. ground (arith, adds.adds x, v.disjoint x, fresh x);
    },
  )
]
  where
    clear : find_collision c.used_ranges r ≡ none
    clear = find_collision-some c.mm c.used_ranges r v.used_fit f (λ x p. omega (arith, fresh x p))

-- The result of `find` is a free range of that size, or empty when no free range is large enough.
pub find_in_size :
    (top : ℕ) (rs : List Range) (size : ℕ)
    → All (Fits top) rs
    → ((find_in rs size).0.size ≡ size) ⊎ ((find_in rs size) ≡ (range 0 0, rs))
unfolding find_in
find_in_size top [] size w = inr refl
find_in_size top (r ∷ rs) size w = ground (arith, find_in_size top rs size)

find_in_below :
    (top : ℕ) (rs : List Range) (size : ℕ)
    → All (Fits top) rs
    → 0 < size
    → (find_in rs size).0.size ≢ 0
    → (find_in rs size).0.addr + (find_in rs size).0.size ≤ top
unfolding find_in
find_in_below top [] size w pos h = absurd (h refl)
find_in_below top (r ∷ rs) size w pos h = ground (arith, find_in_below top rs size)

-- What is left in the free ranges after `find`, and the range that it took.
pub record Found (c : MmapCache) (size : ℕ) : Type 0 where
  pub valid : IsValid (find c size).1
  pub fits : (find c size).0.size ≢ 0 → Fits c.mm (find c size).0
  pub sized : (find c size).0.size ≢ 0 → (find c size).0.size ≡ size
  pub fresh :
      (x : ℕ)
      → holds (find c size).0 x ≡ 1
      → cover (find c size).1.free_ranges x + cover c.used_ranges x ≡ 0

pub find-Found : (c : MmapCache) (size : ℕ) → IsValid c → 0 < size → Found c size
unfolding find
find-Found c size v pos = record {
  valid = record {
    bounded = v.bounded;
    aligned = v.aligned;
    tracks = v.tracks;
    free_fit = find_in-Fits c.mm c.free_ranges size v.free_fit;
    used_fit = v.used_fit;
    disjoint = λ x. omega (arith, v.disjoint x, cover-find_in c.mm c.free_ranges size x v.free_fit);
  };
  fits = λ ne. (omega arith, find_in_below c.mm c.free_ranges size v.free_fit pos ne, v.bounded);
  sized = λ ne. ground (arith, find_in_size c.mm c.free_ranges size v.free_fit);
  fresh = λ x p. omega (arith, v.disjoint x, cover-find_in c.mm c.free_ranges size x v.free_fit);
}
