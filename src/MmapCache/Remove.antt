-- ===== src/MmapCache/Remove.antt =====
-- What `remove` takes away, address by address.
use tinykvm.Prelude.{
  ℕ, ◌+◌, ◌^◌, ◌≤◌, ◌<◌, ◌≡◌, refl, ◌∙◌, ◌&&◌, none, List, [], ◌∷◌, ◌++◌, arith, ltb, leb,
  if◌then◌else◌, All,
}
use tinykvm.MmapCache.{Range, find_collision, remove_one, remove_all}
use tinykvm.MmapCache.Cover.{holds, cover, Fits, cover-append, All-append}

-- 1 where the address lies behind the removed area, in a range that starts at or before the area and
-- reaches into it.
abbrev pub severs : Range → ℕ → ℕ → ℕ → ℕ
severs r addr size x =
    if leb r.addr addr
      && ltb addr (r.addr + r.size)
      && ltb r.addr (addr + size)
      && leb (addr + size) x
    then holds r x
    else 0

abbrev pub severed : List Range → ℕ → ℕ → ℕ → ℕ
severed [] addr size x = 0
severed (r ∷ rs) addr size x = severs r addr size x + severed rs addr size x

abbrev pub Within : ℕ → ℕ → ℕ → Type 0
Within addr size x = (addr ≤ x) × (x < addr + size)

module _ (top addr size : ℕ) (h : addr + size < 2 ^ 64) where
  cover-remove_one :
      (r : Range) (x : ℕ)
      → Fits top r
      → cover (remove_one r addr size) x + severs r addr size x
        ≡ (if leb addr x && ltb x (addr + size) then 0 else holds r x)
  unfolding remove_one
  cover-remove_one r x f = ground arith

  remove_one-Fits : (r : Range) → Fits top r → All (Fits top) (remove_one r addr size)
  unfolding remove_one
  remove_one-Fits r f = ground arith

  -- Of ranges below `top`, and for an area that does not wrap, `remove` leaves nothing inside the
  -- area, and outside of it every address of a range but those that it severs: what lies behind the
  -- area, of a range that starts at or before it and reaches into it.
  pub cover-remove_all :
      (rs : List Range) (x : ℕ)
      → All (Fits top) rs
      → cover (remove_all rs addr size) x + severed rs addr size x
        ≡ (if leb addr x && ltb x (addr + size) then 0 else cover rs x)
  unfolding remove_all
  cover-remove_all [] x w = ground arith
  cover-remove_all (r ∷ rs) x w = ground (
    arith,
    cover-remove_one r x w.0,
    cover-remove_all rs x w.1,
    cover-append (remove_one r addr size) (remove_all rs addr size) x,
  )

  pub remove_all-Fits :
      (rs : List Range) → All (Fits top) rs → All (Fits top) (remove_all rs addr size)
  unfolding remove_all
  remove_all-Fits [] w = tt
  remove_all-Fits (r ∷ rs) w =
      All-append (Fits top) (remove_one r addr size) (remove_all rs addr size)
        (remove_one-Fits r w.0) (remove_all-Fits rs w.1)

find_collision-append :
    (rs ss : List Range) (r : Range)
    → find_collision rs r ≡ none
    → find_collision (rs ++ ss) r ≡ find_collision ss r
unfolding find_collision
find_collision-append [] ss r e = refl
find_collision-append (s ∷ rs) ss r e = ground (arith, find_collision-append rs ss r)

module _ (top addr size : ℕ) (h : addr + size < 2 ^ 64) where
  remove_one-clear :
      (r : Range)
      → Fits top r
      → find_collision (remove_one r addr size) (record { addr = addr; size = size }) ≡ none
  unfolding remove_one find_collision
  remove_one-clear r f = ground arith

  -- What is left never collides with the removed area, so the last check of `remove` never throws.
  pub remove_all-clear :
      (rs : List Range)
      → All (Fits top) rs
      → find_collision (remove_all rs addr size) (record { addr = addr; size = size }) ≡ none
  unfolding remove_all
  remove_all-clear [] w = unfold find_collision in refl
  remove_all-clear (r ∷ rs) w =
      find_collision-append (remove_one r addr size) (remove_all rs addr size) _
        (remove_one-clear r w.0)
      ∙ remove_all-clear rs w.1
