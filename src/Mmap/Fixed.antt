-- ===== src/Mmap/Fixed.antt =====
-- mmap_fixed_allocate and mmap_relax of lib/tinykvm/memory_maps.cpp.
use tinykvm.Prelude.{
  ℕ, ◌+◌, ◌%◌, ◌^◌, ◌≤◌, ◌<◌, ◌≡◌, refl, ◌⊎◌, inl, inr, true, ◌&&◌, ◌==◌, arith, leb, none,
  Bool-cases, Option-cases, done, throws, round_up, page_size, add64, List, length, state_of, ◌>>=◌,
}
use tinykvm.Prelude.Outcome.{Outcome}
use tinykvm.MmapCache.{
  Range, MmapCache, MmapError, insert_used, remove_all, find_collision, too_many_used,
}
use tinykvm.MmapCache.Cover.{holds, cover, find_collision-none}
use tinykvm.MmapCache.Remove.{cover-remove_all, remove_all-Fits}
use tinykvm.MmapCache.Results.{range, Adds, insert_used_cases, remove_free_lem, remove_used_lem}
use tinykvm.Mmap.{track_fixed, adjust_current, map_fixed, mmap_relax}
use tinykvm.Mmap.Invariant.{IsValid, cover_above}
use tinykvm.Mmap.Unmap.{All-Fits_lower}

module _ (c : MmapCache) (addr size : ℕ) (v : IsValid c) (pos : 0 < size)
    (below : addr + size ≤ c.mm) where
  -- What a fixed mapping inside the area does: its addresses are no longer free, and they become
  -- used unless some were in use before.
  pub record Fixed (a : ℕ) (c' : MmapCache) : Type 0 where
    pub valid : IsValid c'
    pub same_addr : a ≡ addr
    pub same_top : c'.mm ≡ c.mm
    pub not_free : (x : ℕ) → holds (range addr size) x ≡ 1 → cover c'.free_ranges x ≡ 0
    pub used :
        ((x : ℕ) → cover c'.used_ranges x ≡ cover c.used_ranges x)
        ⊎ ((x : ℕ) → cover c'.used_ranges x ≡ cover c.used_ranges x + holds (range addr size) x)
    pub used_if :
        find_collision c.used_ranges (range addr size) ≡ none
        → (x : ℕ) → cover c'.used_ranges x ≡ cover c.used_ranges x + holds (range addr size) x

  abbrev pub Fixes : Outcome MmapError MmapCache ℕ → Type 0
  Fixes (done a c') = Fixed a c'
  Fixes (throws e c') =
      IsValid c' × (e ≡ too_many_used) × (c.max_tracked_ranges ≤ length c.used_ranges)

  opened : MmapCache
  opened = record c { free_ranges = remove_all c.free_ranges addr size }

  opened-IsValid : IsValid opened
  unfolding opened
  opened-IsValid = record {
    bounded = v.bounded;
    aligned = v.aligned;
    tracks = v.tracks;
    free_fit = remove_all-Fits c.mm addr size (omega (arith, v.bounded)) c.free_ranges v.free_fit;
    used_fit = v.used_fit;
    disjoint = λ x. ground (
      arith,
      v.disjoint x,
      cover-remove_all c.mm addr size (omega (arith, v.bounded)) c.free_ranges x v.free_fit,
    );
  }

  opened_clear : (x : ℕ) → holds (range addr size) x ≡ 1 → cover opened.free_ranges x ≡ 0
  unfolding opened
  opened_clear x p =
      ground (
        arith,
        cover-remove_all c.mm addr size (omega (arith, v.bounded)) c.free_ranges x v.free_fit,
      )

  no_adjustment : (c' : MmapCache) → c'.mm ≡ c.mm → adjust_current c' addr size ≡ done tt c'
  unfolding adjust_current
  no_adjustment c' e = ground (arith, v.bounded)

  after_removal :
      (o : Outcome MmapError MmapCache (Unit {0}))
      → track_fixed opened addr size ≡ o
      → map_fixed c addr size ≡ (o >>= λ p. adjust_current p.1 addr size >>= λ q. done addr q.1)
  unfolding map_fixed opened
  after_removal o e =
      rw (remove_free_lem c c.mm addr size v.free_fit (omega (arith, v.bounded)), map_fixed)
        (rw e refl)

  recorded-Fixed :
      (rs : List Range)
      → Adds c.mm c.used_ranges (range addr size) rs
      → find_collision c.used_ranges (range addr size) ≡ none
      → Fixed addr (record opened { used_ranges = rs })
  unfolding opened
  recorded-Fixed rs adds clear = record {
    valid = record {
      bounded = v.bounded;
      aligned = v.aligned;
      tracks = v.tracks;
      free_fit = opened-IsValid.free_fit;
      used_fit = adds.fit;
      disjoint = λ x. ground (
        arith,
        opened-IsValid.disjoint x,
        opened_clear x,
        adds.adds x,
        find_collision-none c.mm c.used_ranges (range addr size) x v.used_fit
            (omega (arith, v.bounded)) clear,
      );
    };
    same_addr = refl;
    same_top = refl;
    not_free = opened_clear;
    used = inr adds.adds;
    used_if = λ _. adds.adds;
  }

  -- A fixed mapping inside the area takes its addresses from the free ranges, leaves `current()` and
  -- keeps the area valid. Its addresses become used if they collide with no used range, and the used
  -- ranges stay otherwise. It fails only where the table of used ranges is full.
  pub map_fixed-Fixes : Fixes (map_fixed c addr size)
  unfolding opened
  map_fixed-Fixes = elim (Option-cases (find_collision c.used_ranges (range addr size))) [
    | inr (hit, e) ↦
        rw (after_removal (done tt opened) (unfold track_fixed in ground (arith, e, v.tracks))) (
          rw (no_adjustment opened refl) (record {
            valid = opened-IsValid;
            same_addr = refl;
            same_top = refl;
            not_free = opened_clear;
            used = inl (λ x. refl);
            used_if = λ n. cc;
          }))
    | inl clear ↦
        elim (insert_used_cases c.mm opened addr size v.used_fit (pos, below, v.bounded)) [
          | inl (e, full) ↦
              rw
                (after_removal (throws too_many_used opened)
                  (unfold track_fixed in ground (arith, e, clear, v.tracks)))
                (opened-IsValid, refl, full)
          | inr (rs, e, adds) ↦
              rw
                (after_removal (done tt (record opened { used_ranges = rs }))
                  (unfold track_fixed in ground (arith, e, clear, v.tracks)))
                (rw (no_adjustment (record opened { used_ranges = rs }) refl)
                  (recorded-Fixed rs adds clear))
        ]
  ]

-- A mapping that shrinks at the end of the area lowers `current()`.
module _ (c : MmapCache) (addr size new_size : ℕ) (v : IsValid c) (pos : 0 < new_size)
    (fits : addr + size < 2 ^ 64)
    (mapped : (x : ℕ) → holds (range addr size) x ≡ 1 → cover c.free_ranges x ≡ 0) where
  lowered : ℕ
  lowered = round_up page_size (add64 addr new_size)

  module _ (e : c.mm ≡ addr + size) (le : new_size ≤ size) where
    lowered_bounds :
        (lowered ≤ c.mm) × (addr + new_size ≤ lowered) × (lowered % 4096 ≡ 0) × (lowered < 2 ^ 64)
    unfolding lowered
    lowered_bounds = omega (arith, v.aligned, v.bounded)

    kept_used : List Range
    kept_used = remove_all c.used_ranges addr size

    lowered-IsValid : IsValid (record c { mm = lowered; used_ranges = kept_used })
    unfolding kept_used
    lowered-IsValid = record {
      bounded = lowered_bounds.3;
      aligned = lowered_bounds.2;
      tracks = v.tracks;
      free_fit = All-Fits_lower c.mm lowered c.free_ranges v.free_fit lowered_bounds.3 (λ x p.
          ground (arith, lowered_bounds, mapped x, cover_above c.mm c.free_ranges x v.free_fit));
      used_fit =
          All-Fits_lower c.mm lowered (remove_all c.used_ranges addr size)
            (remove_all-Fits c.mm addr size fits c.used_ranges v.used_fit) lowered_bounds.3
            (λ x p. ground (
              arith,
              lowered_bounds,
              cover_above c.mm c.used_ranges x v.used_fit,
              cover-remove_all c.mm addr size fits c.used_ranges x v.used_fit,
            ));
      disjoint = λ x.
          ground
            (arith, v.disjoint x, cover-remove_all c.mm addr size fits c.used_ranges x v.used_fit);
    }

    relaxes :
        (o : Outcome MmapError MmapCache (Unit {0}))
        → insert_used (record c { mm = lowered; used_ranges = kept_used }) addr new_size ≡ o
        → mmap_relax c addr size new_size ≡ (o >>= λ q. done true q.1)
    unfolding mmap_relax kept_used lowered
    relaxes o d = ground (
      arith,
      d,
      v.tracks,
      remove_used_lem (record c { mm = lowered }) c.mm addr size v.used_fit fits,
    )

    shrunk : IsValid (state_of (mmap_relax c addr size new_size))
    unfolding kept_used
    shrunk =
        elim (insert_used_cases lowered (record c { mm = lowered; used_ranges = kept_used }) addr
          new_size lowered-IsValid.used_fit (pos, lowered_bounds.1, lowered_bounds.3)) [
            | inl (d, full) ↦ rw (relaxes _ d) lowered-IsValid
            | inr (rs, d, adds) ↦ rw (relaxes _ d) (record {
              bounded = lowered-IsValid.bounded;
              aligned = lowered-IsValid.aligned;
              tracks = v.tracks;
              free_fit = lowered-IsValid.free_fit;
              used_fit = adds.fit;
              disjoint = λ x. ground (
                arith,
                le,
                v.disjoint x,
                mapped x,
                adds.adds x,
                cover-remove_all c.mm addr size fits c.used_ranges x v.used_fit,
              );
            })
          ]

  -- mmap_relax keeps the area valid whether it shrinks the mapping, refuses or fails, for a new size
  -- above 0 and a mapping that does not wrap and holds no free address.
  pub mmap_relax-IsValid : IsValid (state_of (mmap_relax c addr size new_size))
  unfolding mmap_relax
  mmap_relax-IsValid = elim (Bool-cases ((c.mm == add64 addr size) && leb new_size size)) [
    | inl go ↦ shrunk (ground (arith, go)) (ground (arith, go))
    | inr stay ↦ rw (stay, mmap_relax) v
  ]
