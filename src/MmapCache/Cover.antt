-- ===== src/MmapCache/Cover.antt =====
-- The ranges of an MmapCache as a multiset of addresses: how many ranges hold a given address.
use tinykvm.Prelude.{
  ℕ, ◌+◌, ◌^◌, ◌≤◌, ◌<◌, ◌≡◌, refl, inl, inr, ◌&&◌, none, some, List, [], ◌∷◌, ◌++◌, arith, ltb,
  leb, if◌then◌else◌, All, Option-cases,
}
use tinykvm.MmapCache.{Range, find_in, find_collision, merge_free, extend_back}

-- 1 where the range holds the address, else 0.
abbrev pub holds : Range → ℕ → ℕ
holds r x = if leb r.addr x && ltb x (r.addr + r.size) then 1 else 0

abbrev pub cover : List Range → ℕ → ℕ
cover [] x = 0
cover (r ∷ rs) x = holds r x + cover rs x

-- A range of the area below `top`: not empty, and its end does not wrap.
abbrev pub Fits : ℕ → Range → Type 0
Fits top r = (0 < r.size) × (r.addr + r.size ≤ top) × (top < 2 ^ 64)

pub cover-append : (rs ss : List Range) (x : ℕ) → cover (rs ++ ss) x ≡ cover rs x + cover ss x
cover-append [] ss x = omega arith
cover-append (r ∷ rs) ss x = omega (arith, cover-append rs ss x)

pub All-append : (P : Range → Type 0) (rs ss : List Range) → All P rs → All P ss → All P (rs ++ ss)
All-append P [] ss p q = q
All-append P (r ∷ rs) ss p q = (p.0, All-append P rs ss p.1 q)

-- What `find` gives out is what the free ranges lose.
pub cover-find_in :
    (top : ℕ) (rs : List Range) (size x : ℕ)
    → All (Fits top) rs
    → cover rs x ≡ cover (find_in rs size).1 x + holds (find_in rs size).0 x
unfolding find_in
cover-find_in top [] size x w = ground arith
cover-find_in top (r ∷ rs) size x w = ground (arith, cover-find_in top rs size x)

pub find_in-Fits :
    (top : ℕ) (rs : List Range) (size : ℕ) → All (Fits top) rs → All (Fits top) (find_in rs size).1
unfolding find_in
find_in-Fits top [] size w = tt
find_in-Fits top (r ∷ rs) size w = ground (arith, find_in-Fits top rs size)

-- A range that collides with none of the list shares no address with it.
pub find_collision-none :
    (top : ℕ) (rs : List Range) (r : Range) (x : ℕ)
    → All (Fits top) rs
    → r.addr + r.size < 2 ^ 64
    → find_collision rs r ≡ none
    → holds r x ≡ 1
    → cover rs x ≡ 0
unfolding find_collision
find_collision-none top [] r x w h e p = refl
find_collision-none top (s ∷ rs) r x w h e p = ground (arith, find_collision-none top rs r x)

-- A range that shares no address with the list collides with none of it.
pub find_collision-some :
    (top : ℕ) (rs : List Range) (r : Range)
    → All (Fits top) rs
    → Fits top r
    → ((x : ℕ) → holds r x ≡ 1 → cover rs x ≡ 0)
    → find_collision rs r ≡ none
unfolding find_collision
find_collision-some top [] r w f d = refl
find_collision-some top (s ∷ rs) r w f d =
    ground
      (arith, find_collision-some top rs r w.1 f (λ x p. omega (arith, d x p)), d r.addr, d s.addr)

-- `insert_free` adds the new range to a neighbour, or to none.
pub cover-merge_free :
    (top : ℕ) (rs : List Range) (addr size : ℕ) {rs' : List Range} (x : ℕ)
    → All (Fits top) rs
    → addr + size < 2 ^ 64
    → merge_free rs addr size ≡ some rs'
    → cover rs' x ≡ cover rs x + holds (record { addr = addr; size = size }) x
unfolding merge_free
cover-merge_free top [] addr size x w h e = ground arith
cover-merge_free top (r ∷ rs) addr size x w h e = elim (Option-cases (merge_free rs addr size)) [
  | inl n ↦ ground arith
  | inr (t, s) ↦ ground (arith, cover-merge_free top rs addr size {rs' = t} x)
]

pub merge_free-Fits :
    (top : ℕ) (rs : List Range) (addr size : ℕ) {rs' : List Range}
    → All (Fits top) rs
    → addr + size ≤ top
    → merge_free rs addr size ≡ some rs'
    → All (Fits top) rs'
unfolding merge_free
merge_free-Fits top [] addr size w h e = cc
merge_free-Fits top (r ∷ rs) addr size w h e = elim (Option-cases (merge_free rs addr size)) [
  | inl n ↦ ground arith
  | inr (t, s) ↦ ground (arith, merge_free-Fits top rs addr size {rs' = t})
]

pub cover-extend_back :
    (top : ℕ) (rs : List Range) (addr size : ℕ) {rs' : List Range} (x : ℕ)
    → All (Fits top) rs
    → addr + size < 2 ^ 64
    → extend_back rs addr size ≡ some rs'
    → cover rs' x ≡ cover rs x + holds (record { addr = addr; size = size }) x
unfolding extend_back
cover-extend_back top [] addr size x w h e = cc
cover-extend_back top (r ∷ []) addr size x w h e = ground arith
cover-extend_back top (r ∷ s ∷ rs) addr size x w h e =
    elim (Option-cases (extend_back (s ∷ rs) addr size)) [
      | inl n ↦ ground arith
      | inr (t, q) ↦ ground (arith, cover-extend_back top (s ∷ rs) addr size {rs' = t} x)
    ]

pub extend_back-Fits :
    (top : ℕ) (rs : List Range) (addr size : ℕ) {rs' : List Range}
    → All (Fits top) rs
    → addr + size ≤ top
    → extend_back rs addr size ≡ some rs'
    → All (Fits top) rs'
unfolding extend_back
extend_back-Fits top [] addr size w h e = cc
extend_back-Fits top (r ∷ []) addr size w h e = ground arith
extend_back-Fits top (r ∷ s ∷ rs) addr size w h e =
    elim (Option-cases (extend_back (s ∷ rs) addr size)) [
      | inl n ↦ ground arith
      | inr (t, q) ↦ ground (arith, extend_back-Fits top (s ∷ rs) addr size {rs' = t})
    ]
