-- ===== src/MemoryBanks/Invariant.antt =====
-- The invariant of the memory banks, and the lookups of a bank with room.
use tinykvm.Prelude.{
  ℕ, zero, suc, ◌+◌, ◌-◌, ◌*◌, ◌/◌, ◌%◌, ◌^◌, ◌≤◌, ◌<◌, ◌≡◌, refl, inl, inr, some, List, [], ◌∷◌,
  arith, leb, All, length, get_elem?, set, Option-cases, Bool-cases,
}
use tinykvm.MemoryBanks.{MemoryBank, MemoryBanks, room_for, find_room, find_fragmented, n_hugepages}
use tinykvm.MemoryBanks.Arena.{IsBank, Chain, total_pages}

pub record IsValid (s : MemoryBanks) : Type 0 where
  pub banks : All IsBank s.m_mem
  pub chain : Chain s.arena_begin s.arena_next s.m_mem
  pub aligned : s.arena_begin % 2 ^ 21 ≡ 0
  pub counted : s.num_pages ≡ total_pages s.m_mem
  pub huge : s.hugepage_pages % 512 ≡ 0
  -- The vector never grows beyond what was reserved.
  pub reserved : length s.m_mem ≤ s.capacity
  pub reserves : s.max_pages + 2048 ≤ 2048 * s.capacity
  pub large : 2048 * length s.m_mem ≤ s.num_pages + 2048
  -- No counter wraps.
  pub small : (s.max_pages < 2 ^ 31) × (s.hugepage_pages < 2 ^ 30) × (s.num_pages < 2 ^ 31 + 2 ^ 30)

-- A bank for the request: it has room, and a huge page starts at a huge page's boundary.
pub record Fitting (pages : ℕ) (b : MemoryBank) : Type 0 where
  pub room : b.n_used + pages ≤ b.n_pages
  pub boundary : pages ≡ 512 → b.n_used % 512 ≡ 0

pub find_room-Fitting :
    (bs : List MemoryBank) (pages i : ℕ)
    → find_room bs pages ≡ some i
    → (b : MemoryBank) × (get_elem? bs i ≡ some b) × Fitting pages b
unfolding find_room
find_room-Fitting [] pages i e = absurd (ground arith)
find_room-Fitting (b ∷ bs) pages zero e = elim (Bool-cases (room_for b pages)) [
  | inl r ↦ (
    b,
    refl,
    record { room = unfold room_for in ground arith; boundary = unfold room_for in ground arith },
  )
  | inr r ↦ absurd (ground arith)
]
find_room-Fitting (b ∷ bs) pages (suc i) e =
    find_room-Fitting bs pages i
      (elim (Bool-cases (room_for b pages)) [ inl r ↦ ground arith | inr r ↦ ground arith ])

abbrev pub skip : MemoryBank → MemoryBank
skip b = record b { n_used = (b.n_used + n_hugepages - 1) / n_hugepages * n_hugepages }

pub find_fragmented_lem :
    (bs : List MemoryBank) (pages i : ℕ) (bs' : List MemoryBank)
    → find_fragmented bs pages ≡ some (i, bs')
    → (b : MemoryBank) × (get_elem? bs i ≡ some b)
      × (bs' ≡ set bs i (skip b))
      × ((skip b).n_used + pages ≤ b.n_pages)
unfolding find_fragmented
find_fragmented_lem [] pages i bs' e = absurd (ground arith)
find_fragmented_lem (b ∷ bs) pages zero bs' e =
    elim (Bool-cases (leb ((skip b).n_used + pages) b.n_pages)) [
      | inl r ↦ (b, refl, ground arith, ground arith)
      | inr r ↦ absurd (ground arith)
    ]
find_fragmented_lem (b ∷ bs) pages (suc i) bs' e =
    elim (Bool-cases (leb ((skip b).n_used + pages) b.n_pages)) [
      | inl r ↦ absurd (ground arith)
      | inr r ↦ elim (Option-cases (find_fragmented bs pages)) [
        | inl n ↦ absurd (ground arith)
        | inr (p, q) ↦
            let rest = find_fragmented_lem bs pages i p.1 (ground arith) in
            (rest.0, rest.1, ground (arith, rest.2), rest.3)
      ]
    ]
