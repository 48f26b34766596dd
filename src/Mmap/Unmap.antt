-- ===== src/Mmap/Unmap.antt =====
-- mmap_unmap of lib/tinykvm/memory_maps.cpp.
use tinykvm.Prelude.{
  ℕ, ◌+◌, ◌%◌, ◌^◌, ◌≤◌, ◌<◌, ◌≡◌, refl, sym, inl, inr, Bool, true, false, ◌==◌, arith, leb, All,
  Bool-cases, done, throws, round_up, page_size, List, [], ◌∷◌, max,
}
use tinykvm.Prelude.Outcome.{Outcome}
use tinykvm.MmapCache.{Range, MmapCache, MmapError, insert_free, remove_all}
use tinykvm.MmapCache.Cover.{holds, cover, Fits}
use tinykvm.MmapCache.Remove.{severed, cover-remove_all, remove_all-Fits}
use tinykvm.MmapCache.Results.{range, Adds, insert_free_cases, remove_free_lem, remove_used_lem}
use tinykvm.Mmap.{give_back, mmap_unmap}
use tinykvm.Mmap.Invariant.{IsValid, cover_above}

-- What stays when `current()` comes down to an address behind which nothing is recorded.
pub All-Fits_lower :
    (top low : ℕ) (rs : List Range)
    → All (Fits top) rs
    → low < 2 ^ 64
    → ((x : ℕ) → low ≤ x → cover rs x ≡ 0)
    → All (Fits low) rs
All-Fits_lower top low [] w lt e = tt
All-Fits_lower top low (r ∷ rs) w lt e = (
  (omega arith, ground (arith, e (max low r.addr)), lt),
  All-Fits_lower top low rs w.1 lt (λ x p. omega (arith, e x p)),
)

module _ (start : ℕ) (c : MmapCache) (addr size : ℕ) (v : IsValid c) (pos : 0 < size)
    (fits : addr + size < 2 ^ 64) where
  -- 1 where the address is unmapped.
  abbrev in_area : ℕ → ℕ
  in_area x = holds (range addr size) x

  -- What `mmap_unmap` promises of the address space.
  pub record Unmapped (relaxed : Bool) (c' : MmapCache) : Type 0 where
    pub valid : IsValid c'
    pub unused : (x : ℕ) → in_area x ≡ 1 → cover c'.used_ranges x ≡ 0
    pub kept :
        (x : ℕ)
        → in_area x ≡ 0
        → cover c'.used_ranges x + severed c.used_ranges addr size x ≡ cover c.used_ranges x
    pub relaxes : relaxed ≡ (addr + size == c.mm)
    pub lowered : relaxed ≡ true → c'.mm ≡ round_up page_size addr
    pub freed :
        relaxed ≡ false
        → start ≤ addr
        → (x : ℕ) → cover c'.free_ranges x ≡ cover c.free_ranges x + in_area x
    pub stays : relaxed ≡ false → addr < start → c'.free_ranges ≡ c.free_ranges

  -- The free ranges after `give_back`; `current()` may have come down.
  record Between (relaxed : Bool) (c' : MmapCache) : Type 0 where
    used_kept : c'.used_ranges ≡ c.used_ranges
    tracks : c'.track_used_ranges ≡ true
    bounded : c'.mm ≤ c.mm
    aligned : c'.mm % 4096 ≡ 0
    free_fit : All (Fits c'.mm) c'.free_ranges
    outside : (x : ℕ) → in_area x ≡ 0 → cover c'.free_ranges x ≤ cover c.free_ranges x
    inside : (x : ℕ) → cover c'.free_ranges x ≤ 1
    covers : (x : ℕ) → c'.mm ≤ x → x < c.mm → in_area x ≡ 1
    relaxes : relaxed ≡ (addr + size == c.mm)
    lowered : relaxed ≡ true → c'.mm ≡ round_up page_size addr
    freed :
        relaxed ≡ false
        → start ≤ addr
        → (x : ℕ) → cover c'.free_ranges x ≡ cover c.free_ranges x + in_area x
    stays : relaxed ≡ false → addr < start → c'.free_ranges ≡ c.free_ranges

  -- Then `remove_used` completes the unmapping.
  finish :
      (relaxed : Bool) (c₁ : MmapCache)
      → Between relaxed c₁
      → Unmapped relaxed (record c₁ { used_ranges = remove_all c₁.used_ranges addr size })
  finish relaxed c₁ b = record {
    valid = record {
      bounded = omega (arith, b.bounded, v.bounded);
      aligned = b.aligned;
      tracks = b.tracks;
      free_fit = b.free_fit;
      used_fit = rw b.used_kept (
          All-Fits_lower c.mm c₁.mm (remove_all c.used_ranges addr size)
            (remove_all-Fits c.mm addr size fits c.used_ranges v.used_fit)
            (omega (arith, b.bounded, v.bounded))
            (λ x le. ground (
              arith,
              b.covers x le,
              cover_above c.mm c.used_ranges x v.used_fit,
              cover-remove_all c.mm addr size fits c.used_ranges x v.used_fit,
            )));
      disjoint = λ x. rw b.used_kept (
          ground (
            arith,
            b.inside x,
            b.outside x,
            v.disjoint x,
            cover-remove_all c.mm addr size fits c.used_ranges x v.used_fit,
          ));
    };
    unused = λ x p.
        rw b.used_kept
          (ground (arith, cover-remove_all c.mm addr size fits c.used_ranges x v.used_fit));
    kept = λ x p.
        rw b.used_kept
          (ground (arith, cover-remove_all c.mm addr size fits c.used_ranges x v.used_fit));
    relaxes = b.relaxes;
    lowered = b.lowered;
    freed = b.freed;
    stays = b.stays;
  }

  relaxed-Between :
      addr + size ≡ c.mm
      → Between true (record c {
        free_ranges = remove_all c.free_ranges addr size;
        mm = round_up page_size addr;
      })
  relaxed-Between e = record {
    used_kept = refl;
    tracks = v.tracks;
    bounded = omega (arith, v.aligned, v.bounded);
    aligned = omega (arith, v.aligned, v.bounded);
    free_fit =
        All-Fits_lower c.mm (round_up page_size addr) (remove_all c.free_ranges addr size)
          (remove_all-Fits c.mm addr size fits c.free_ranges v.free_fit)
          (omega (arith, v.aligned, v.bounded))
          (λ x le. ground (
            arith,
            v.aligned,
            cover_above c.mm c.free_ranges x v.free_fit,
            cover-remove_all c.mm addr size fits c.free_ranges x v.free_fit,
          ));
    outside =
        λ x p. ground (arith, cover-remove_all c.mm addr size fits c.free_ranges x v.free_fit);
    inside = λ x.
        ground
          (arith, v.disjoint x, cover-remove_all c.mm addr size fits c.free_ranges x v.free_fit);
    covers = λ x p q. ground (arith, v.aligned);
    relaxes = ground arith;
    lowered = λ _. refl;
    freed = λ f _. cc;
    stays = λ f _. cc;
  }

  -- An error leaves everything as it was, and comes from the free ranges alone.
  abbrev pub Unmaps : Outcome MmapError MmapCache Bool → Type 0
  Unmaps (done relaxed c') = Unmapped relaxed c'
  Unmaps (throws e c') = (c' ≡ c) × (insert_free c addr size ≡ throws e c)

  finish-Unmaps :
      (relaxed : Bool) (c₁ : MmapCache)
      → Between relaxed c₁
      → give_back start c addr size ≡ done relaxed c₁
      → Unmaps (mmap_unmap start c addr size)
  unfolding mmap_unmap
  finish-Unmaps relaxed c₁ b e =
      let removed = remove_used_lem c₁ c.mm addr size (rw b.used_kept v.used_fit) fits in
      let whole : mmap_unmap start c addr size
          ≡ done relaxed (record c₁ { used_ranges = remove_all c₁.used_ranges addr size }) =
        ground (arith, e, removed, b.tracks) in
      rw whole (finish relaxed c₁ b)

  same-Between :
      (c₁ : MmapCache) → (addr + size == c.mm) ≡ false → c₁ ≡ c → addr < start → Between false c₁
  same-Between c₁ top e low = rw e (record {
    used_kept = refl;
    tracks = v.tracks;
    bounded = omega arith;
    aligned = v.aligned;
    free_fit = v.free_fit;
    outside = λ x p. omega arith;
    inside = λ x. omega (arith, v.disjoint x);
    covers = λ x p q. absurd (omega arith);
    relaxes = sym top;
    lowered = λ f. cc;
    freed = λ _ p. absurd (omega (arith, p, low));
    stays = λ _ _. refl;
  })

  added-Between :
      (rs : List Range)
      → (addr + size == c.mm) ≡ false
      → Adds c.mm c.free_ranges (range addr size) rs
      → ((x : ℕ) → in_area x ≡ 1 → cover c.free_ranges x ≡ 0)
      → start ≤ addr
      → Between false (record c { free_ranges = rs })
  added-Between rs top adds apart above = record {
    used_kept = refl;
    tracks = v.tracks;
    bounded = omega arith;
    aligned = v.aligned;
    free_fit = adds.fit;
    outside = λ x p. omega (arith, adds.adds x);
    inside = λ x. ground (arith, adds.adds x, apart x, v.disjoint x);
    covers = λ x p q. absurd (omega arith);
    relaxes = sym top;
    lowered = λ f. cc;
    freed = λ _ _. adds.adds;
    stays = λ _ p. absurd (omega (arith, p, above));
  }

  -- In a valid area, unmapping a range that is not empty and whose end does not wrap takes it out of
  -- use, drops beyond it only what lies behind it in a used range that it cuts, and keeps the area
  -- valid. Where the range ends at `current()`, `current()` comes down to its start, rounded up to a
  -- page; elsewhere it is returned to the free ranges if it starts at mmap_start() or above, and
  -- the free ranges stay as they were if it starts below. A refusal by the free ranges changes
  -- nothing.
  pub mmap_unmap-Unmaps : Unmaps (mmap_unmap start c addr size)
  mmap_unmap-Unmaps = elim (Bool-cases (addr + size == c.mm)) [
    | inl top ↦
        finish-Unmaps true _ (relaxed-Between (ground (arith, top))) (
          unfold give_back in ground (arith, top, remove_free_lem c c.mm addr size v.free_fit fits))
    | inr low ↦ elim (Bool-cases (leb start addr)) [
      | inr below ↦
          finish-Unmaps false c (same-Between c low refl (ground (arith, below)))
            (unfold give_back in ground (arith, low, below))
      | inl above ↦ elim (insert_free_cases c addr size v.free_fit pos fits v.bounded) [
        | inl (e, t) ↦
            let whole : mmap_unmap start c addr size ≡ throws e c =
              unfold mmap_unmap give_back in ground (arith, low, above, t) in
            rw whole (refl, t)
        | inr (rs, d, adds, below, apart) ↦
            finish-Unmaps false _ (added-Between rs low adds apart (ground (arith, above)))
              (unfold give_back in ground (arith, low, above, d))
      ]
    ]
  ]
