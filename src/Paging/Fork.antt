-- ===== src/Paging/Fork.antt =====
-- The memory of a fork: which pages are tables of which level, and what their entries may hold.
use tinykvm.Prelude.{
  ℕ, ◌+◌, ◌≤◌, ◌<◌, ◌≡◌, refl, inl, inr, true, false, ◌&&◌, ◌||◌, if◌then◌else◌, arith, ◌==◌,
  Bool-cases,
}
use tinykvm.MemoryBanks.{MemoryBanks, Page}
use tinykvm.MemoryBanks.Arena.{in_use-le-one}
use tinykvm.MemoryBanks.Invariant
use tinykvm.MemoryBanks.Allocate.{Handed}
use tinykvm.Paging.Entry.{Entry}
use tinykvm.Paging.Memory.{Memory, store, fill_page}
use tinykvm.Paging.Leaf.{IsHeld, held_apart}

-- An entry of a table of level `k` (4 for the PML4, 1 for a page table), where `level` gives the
-- level of every table, and 0 of any other page.
pub record IsGood (start : ℕ) (level : ℕ → ℕ) (k : ℕ) (e : Entry) : Type 0 where
  pub private : e.present ≡ true → e.rw ≡ true → start ≤ e.addr
  pub mapped : e.cloneable ≡ true → e.present ≡ true
  pub linked :
      2 ≤ k
      → e.present ≡ true
      → (k ≡ 2 → e.ps ≡ false)
      → (level e.addr + 1 ≡ k) × ((e.rw || e.cloneable) ≡ true)
  pub root : k ≡ 4 → e.nx ≡ false

-- A VM that does not write to main memory: what is writable lies in its own banks.
pub record IsFork (m : Memory) (level : ℕ → ℕ) : Type 0 where
  pub banks : Invariant.IsValid m.banks
  pub slave : m.main_memory_writes ≡ false
  pub rooted : (level m.page_tables ≡ 4) × (m.banks.arena_begin ≤ m.page_tables)
  pub held : (p : ℕ) → 1 ≤ level p → IsHeld m.banks p
  pub good : (p j : ℕ) → 1 ≤ level p → IsGood m.banks.arena_begin level (level p) (m.words p j)

-- Main memory, below the arena of the banks, is as it was.
pub record Same (m m' : Memory) : Type 0 where
  pub begin : m'.banks.arena_begin ≡ m.banks.arena_begin
  pub main : (p j : ℕ) → p < m.banks.arena_begin → m'.words p j ≡ m.words p j

pub Same-refl : (m : Memory) → Same m m
Same-refl m = record { begin = refl; main = λ p j below. refl }

pub banks-Same :
    (m : Memory) (banks : MemoryBanks)
    → banks.arena_begin ≡ m.banks.arena_begin
    → Same m (record m { banks = banks })
banks-Same m banks e = record { begin = e; main = λ p j below. refl }

pub Same-trans : (m m₁ m₂ : Memory) → Same m m₁ → Same m₁ m₂ → Same m m₂
Same-trans m m₁ m₂ s t = record {
  begin = omega (arith, s.begin, t.begin);
  main = λ p j below. ground (arith, s.begin, s.main p j below, t.main p j);
}

pub store-Same :
    (m : Memory) (table i : ℕ) (e : Entry)
    → m.banks.arena_begin ≤ table
    → Same m (store m table i e)
store-Same m table i e private = record { begin = refl; main = λ p j below. ground arith }

pub store-IsFork :
    (m : Memory) (level : ℕ → ℕ) (table i : ℕ) (e : Entry)
    → IsFork m level
    → IsGood m.banks.arena_begin level (level table) e
    → IsFork (store m table i e) level
store-IsFork m level table i e f g = record {
  banks = f.banks;
  slave = f.slave;
  rooted = f.rooted;
  held = f.held;
  good = λ p j l. elim (Bool-cases ((p == table) && (j == i))) [
    | inl same ↦ let at : p ≡ table = ground (arith, same) in rw same (rw at g)
    | inr other ↦ rw other (f.good p j l)
  ];
}

-- The levels once the new page has become a table of level k.
abbrev pub relevel : (ℕ → ℕ) → ℕ → ℕ → ℕ → ℕ
relevel level page k p = if p == page then k else level p

pub IsGood-relevel :
    (start : ℕ) (level : ℕ → ℕ) (page k k' : ℕ) (e : Entry)
    → level page ≡ 0
    → IsGood start level k e
    → IsGood start (relevel level page k') k e
IsGood-relevel start level page k k' e free g = record {
  private = g.private;
  mapped = g.mapped;
  linked = λ l p q. ground (arith, g.linked l p q);
  root = g.root;
}

module _ (m : Memory) (level : ℕ → ℕ) (f : IsFork m level) (page : Page) (banks : MemoryBanks)
    (pages : ℕ) (pos : 0 < pages) (h : Handed m.banks pages page banks) where
  pub free_level : level page.page_addr ≡ 0
  free_level = elim (Bool-cases (level page.page_addr == 0)) [
    | inl e ↦ ground (arith, e)
    | inr e ↦ absurd (
        held_apart m.banks pages page.page_addr page banks pos h
          (f.held page.page_addr (ground (arith, e))) refl)
  ]

  pub still-IsHeld : (p : ℕ) → IsHeld m.banks p → IsHeld banks p
  still-IsHeld p held = ground (
    arith,
    held,
    h.grows p,
    h.same_begin,
    in_use-le-one banks.arena_begin banks.arena_next banks.m_mem p h.valid.chain h.valid.banks,
  )

  -- A new page filled with good entries of level k becomes a table of that level.
  pub adopt-IsFork :
      (k : ℕ) (w : ℕ → Entry)
      → ((j : ℕ) → 1 ≤ k → IsGood m.banks.arena_begin level k (w j))
      → IsFork
          (record m { banks = banks; words = fill_page m.words page.page_addr w })
          (relevel level page.page_addr k)
  adopt-IsFork k w g = record {
    banks = h.valid;
    slave = f.slave;
    rooted = ground (arith, f.rooted, free_level, h.same_begin);
    held = λ p l. elim (Bool-cases (p == page.page_addr)) [
      | inl e ↦
          let at : p ≡ page.page_addr = ground (arith, e) in ground (arith, at, h.fresh p, h.sized)
      | inr e ↦ still-IsHeld p (f.held p (ground (arith, e)))
    ];
    good = λ p j l. elim (Bool-cases (p == page.page_addr)) [
      | inl e ↦ rw e (
          rw (h.same_begin) (
            IsGood-relevel m.banks.arena_begin level page.page_addr k k (w j) free_level
              (g j (ground (arith, e)))))
      | inr e ↦ rw e (
          rw (h.same_begin) (
            IsGood-relevel m.banks.arena_begin level page.page_addr (level p) k (m.words p j)
              free_level (f.good p j (ground (arith, e)))))
    ];
  }

  pub adopt-Same :
      (w : ℕ → Entry)
      → Same m (record m { banks = banks; words = fill_page m.words page.page_addr w })
  adopt-Same w = record {
    begin = h.same_begin;
    main = λ p j below. ground (arith, h.inside, h.same_begin);
  }

  -- New pages of no table, with any bytes in them.
  pub data-IsFork :
      (w : ℕ → ℕ → Entry)
      → ((p j : ℕ) → 1 ≤ level p → w p j ≡ m.words p j)
      → IsFork (record m { banks = banks; words = w }) level
  data-IsFork w tables = record {
    banks = h.valid;
    slave = f.slave;
    rooted = omega (arith, f.rooted, h.same_begin);
    held = λ p l. still-IsHeld p (f.held p l);
    good = λ p j l. rw (tables p j l) (rw (h.same_begin) (f.good p j l));
  }
