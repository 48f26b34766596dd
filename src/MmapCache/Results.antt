-- ===== src/MmapCache/Results.antt =====
-- The results of the operations of an MmapCache, branch by branch.
use tinykvm.Prelude.{
  ℕ, ◌+◌, ◌%◌, ◌^◌, ◌≤◌, ◌<◌, ◌≡◌, refl, ◌⊎◌, inl, inr, List, [], ◌∷◌, ◌++◌, arith, ltb, leb, All,
  length, Bool-cases, Option-cases, done, throws,
}
use tinykvm.MmapCache.{
  Range, MmapCache, MmapError, find_collision, merge_free, extend_back, insert_free, insert_used,
  remove_all, remove_free, remove_used, too_many_free, too_many_used, invalid_free_range,
  free_collision,
}
use tinykvm.MmapCache.Cover.{
  holds, cover, Fits, cover-append, All-append, cover-merge_free, merge_free-Fits,
  cover-extend_back, extend_back-Fits, find_collision-none,
}
use tinykvm.MmapCache.Remove.{remove_all-clear}

abbrev pub range : ℕ → ℕ → Range
range a s = record { addr = a; size = s }

-- The list holds what the old one held, and the new range once more.
pub record Adds (top : ℕ) (old : List Range) (r : Range) (new : List Range) : Type 0 where
  pub fit : All (Fits top) new
  pub adds : (x : ℕ) → cover new x ≡ cover old x + holds r x

Adds-push :
    (top : ℕ) (rs : List Range) (r : Range)
    → All (Fits top) rs
    → Fits top r
    → Adds top rs r (rs ++ r ∷ [])
Adds-push top rs r w f = record {
  fit = All-append (Fits top) rs (r ∷ []) w (f, tt);
  adds = λ x. omega (arith, cover-append rs (r ∷ []) x);
}

pub insert_used_cases :
    (top : ℕ) (c : MmapCache) (addr size : ℕ)
    → All (Fits top) c.used_ranges
    → Fits top (range addr size)
    → ((insert_used c addr size ≡ throws too_many_used c)
        × (c.max_tracked_ranges ≤ length c.used_ranges))
      ⊎ ((rs : List Range) × (insert_used c addr size ≡ done tt (record c { used_ranges = rs }))
          × Adds top c.used_ranges (range addr size) rs)
unfolding insert_used
insert_used_cases top c addr size w f = elim (Option-cases (extend_back c.used_ranges addr size)) [
  | inr (rs, e) ↦ inr (
    rs,
    rw (e, insert_used) refl,
    record {
      fit = extend_back-Fits top c.used_ranges addr size w f.1 e;
      adds = λ x. cover-extend_back top c.used_ranges addr size x w (omega arith) e;
    },
  )
  | inl e ↦ elim (Bool-cases (leb c.max_tracked_ranges (length c.used_ranges))) [
    | inl full ↦ inl (rw (e, insert_used) (rw full refl), ground arith)
    | inr room ↦ inr (_, rw (e, insert_used) (rw room refl), Adds-push top _ _ w f)
  ]
]

-- `insert_free` adds the new range, or throws and leaves the cache as it was.
pub insert_free_cases :
    (c : MmapCache) (addr size : ℕ)
    → All (Fits c.mm) c.free_ranges
    → 0 < size
    → addr + size < 2 ^ 64
    → c.mm < 2 ^ 64
    → ((e : MmapError) × (insert_free c addr size ≡ throws e c))
      ⊎ ((rs : List Range) × (insert_free c addr size ≡ done tt (record c { free_ranges = rs }))
          × Adds c.mm c.free_ranges (range addr size) rs
          × (addr + size ≤ c.mm)
          × ((x : ℕ) → holds (range addr size) x ≡ 1 → cover c.free_ranges x ≡ 0))
unfolding insert_free
insert_free_cases c addr size w pos h m = elim (Bool-cases (ltb c.mm ((addr + size) % 2 ^ 64))) [
  | inl over ↦ inl (invalid_free_range, rw over refl)
  | inr under ↦ elim (Option-cases (find_collision c.free_ranges (range addr size))) [
    | inr (hit, e) ↦ inl (free_collision, rw under (rw (e, insert_free) refl))
    | inl clear ↦
        let apart : (x : ℕ) → holds (range addr size) x ≡ 1 → cover c.free_ranges x ≡ 0 =
          λ x p. find_collision-none c.mm c.free_ranges (range addr size) x w h clear p in
        let below : addr + size ≤ c.mm = ground arith in
        elim (Option-cases (merge_free c.free_ranges addr size)) [
          | inr (rs, e) ↦ inr (
            rs,
            rw under (rw (clear, e, insert_free) refl),
            record {
              fit = merge_free-Fits c.mm c.free_ranges addr size w below e;
              adds = λ x. cover-merge_free c.mm c.free_ranges addr size x w h e;
            },
            below,
            apart,
          )
          | inl e ↦ elim (Bool-cases (leb c.max_tracked_ranges (length c.free_ranges))) [
            | inl full ↦ inl (too_many_free, rw under (rw (clear, e, insert_free) (rw full refl)))
            | inr room ↦ inr (
              _,
              rw under (rw (clear, e, insert_free) (rw room refl)),
              Adds-push c.mm _ _ w (pos, below, m),
              below,
              apart,
            )
          ]
        ]
  ]
]

pub remove_free_lem :
    (c : MmapCache) (top addr size : ℕ)
    → All (Fits top) c.free_ranges
    → addr + size < 2 ^ 64
    → remove_free c addr size
      ≡ done tt (record c { free_ranges = remove_all c.free_ranges addr size })
unfolding remove_free
remove_free_lem c top addr size w h =
    rw (remove_all-clear top addr size h c.free_ranges w, remove_free) refl

pub remove_used_lem :
    (c : MmapCache) (top addr size : ℕ)
    → All (Fits top) c.used_ranges
    → addr + size < 2 ^ 64
    → remove_used c addr size
      ≡ done tt (record c { used_ranges = remove_all c.used_ranges addr size })
unfolding remove_used
remove_used_lem c top addr size w h =
    rw (remove_all-clear top addr size h c.used_ranges w, remove_used) refl
