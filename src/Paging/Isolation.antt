-- ===== src/Paging/Isolation.antt =====
-- What writable_page_at does in a fork, step by step.
use tinykvm.Prelude.{
  ℕ, ◌+◌, ◌≤◌, ◌≡◌, ◌≢◌, refl, inl, inr, Bool, true, false, done, throws, arith, ◌==◌, Bool-cases,
}
use tinykvm.MemoryBanks.{HostMemory, MemoryBanks, Page}
use tinykvm.MemoryBanks.Allocate.{Handed}
use tinykvm.Paging.Entry.{is_copy_on_write, cloned_entry}
use tinykvm.Paging.Memory.{Memory, Result, store, fill_page, page_at, has_page}
use tinykvm.Paging.Leaf.{allocate_cases}
use tinykvm.Paging.Fork.{
  IsFork, Same, Same-refl, banks-Same, Same-trans, store-Same, store-IsFork, relevel, free_level,
  adopt-IsFork, adopt-Same,
}
use tinykvm.Paging.Writable.{clone_and_update_entry, open_table}

-- A table of level `k` was opened for writing at `page`, through entry `i` of `table`.
pub record Opened (m : Memory) (table i k page : ℕ) (m' : Memory) : Type 0 where
  pub level : ℕ → ℕ
  pub fork : IsFork m' level
  pub same : Same m m'
  pub levels : (level page ≡ k) × (level table ≡ k + 1)
  pub private : m.banks.arena_begin ≤ page
  pub small : k ≡ 1 → (m'.words table i).ps ≡ false

abbrev pub Opens : Memory → ℕ → ℕ → ℕ → Result ℕ → Type 0
Opens m table i k (done page m') = Opened m table i k page m'
Opens m table i k (throws e m') = Same m m'

module _ (host : HostMemory) (never_null : (n : ℕ) (h : Bool) → host.mmap n h ≢ 0) where
  -- The store of a table cloned into a new page.
  linked-Opened :
      (m : Memory) (level : ℕ → ℕ) (table i k source : ℕ) (with_present : Bool) (new : Page)
      (banks : MemoryBanks)
      → IsFork m level
      → Handed m.banks 1 new banks
      → level table ≡ k + 1
      → m.banks.arena_begin ≤ table
      → 1 ≤ k
      → level source ≡ k
      → (k ≡ 1 → (m.words table i).ps ≡ false)
      → Opened m table i k new.page_addr (
          store
            (record m { banks = banks; words = fill_page m.words new.page_addr (m.words source) })
            table
            i
            (cloned_entry (m.words table i) new.page_addr with_present))
  linked-Opened m level table i k source with_present new banks f h lt pt pos ls small =
      let free = free_level m level f new banks 1 (omega arith) h in
      let level' = relevel level new.page_addr k in
      let m₁ : Memory = record m {
        banks = banks;
        words = fill_page m.words new.page_addr (m.words source);
      } in
      let f₁ : IsFork m₁ level' =
        adopt-IsFork m level f new banks 1 (omega arith) h k (m.words source)
          (λ j l. rw⁻¹ ls (f.good source j (omega (arith, ls, pos)))) in
      let root = f.good table i (omega (arith, lt)) in
      record {
        level = level';
        fork = store-IsFork m₁ level' table i _ f₁ (record {
          private = λ _ _. omega (arith, h.inside);
          mapped = λ e. ground arith;
          linked = λ l q _. ground (arith, free, lt);
          root = λ e. root.root (ground (arith, free, lt));
        });
        same =
            Same-trans m m₁ _ (adopt-Same m level f new banks 1 (omega arith) h (m.words source))
              (store-Same m₁ table i _ (omega (arith, h.same_begin, pt)));
        levels = ground (arith, free, lt);
        private = omega (arith, h.inside, h.same_begin);
        small = λ e. ground (arith, small e);
      }

  pub clone-Opens :
      (m : Memory) (level : ℕ → ℕ) (table i k source : ℕ) (with_present : Bool)
      → IsFork m level
      → level table ≡ k + 1
      → m.banks.arena_begin ≤ table
      → 1 ≤ k
      → level source ≡ k
      → (k ≡ 1 → (m.words table i).ps ≡ false)
      → Opens m table i k (clone_and_update_entry host m table i source with_present)
  unfolding clone_and_update_entry
  clone-Opens m level table i k source with_present f lt pt pos ls small =
      elim (allocate_cases host never_null m 1 f.banks (omega arith) (omega arith)) [
        | inl (err, banks, e, begin) ↦ rw (e, clone_and_update_entry) (banks-Same m banks begin)
        | inr (new, banks, e, h) ↦
            let free = free_level m level f new banks 1 (omega arith) h in
            let whole : clone_and_update_entry host m table i source with_present
                ≡ done new.page_addr (
                    store
                      (record m {
                        banks = banks;
                        words = fill_page m.words new.page_addr (m.words source);
                      })
                      table i (cloned_entry (m.words table i) new.page_addr with_present)) =
              let other : (table == new.page_addr) ≡ false = ground (arith, free, lt) in
              rw (e, clone_and_update_entry) (rw other refl) in
            rw whole
              (linked-Opened m level table i k source with_present new banks f h lt pt pos ls small)
      ]

  -- The table behind a present entry is left alone, if the entry is writable.
  pub same-Opened :
      (m : Memory) (level : ℕ → ℕ) (table i k : ℕ)
      → IsFork m level
      → level table ≡ k + 1
      → 1 ≤ k
      → (m.words table i).present ≡ true
      → (k ≡ 1 → (m.words table i).ps ≡ false)
      → is_copy_on_write (m.words table i) ≡ false
      → Opened m table i k (m.words table i).addr m
  same-Opened m level table i k f lt pos present small shut =
      let g = f.good table i (omega (arith, lt)) in
      let link = g.linked (omega (arith, lt, pos)) present (λ e. small (omega (arith, lt, e))) in
      let writes : (m.words table i).rw ≡ true = ground (arith, link, shut) in
      record {
        level = level;
        fork = f;
        same = Same-refl m;
        levels = (omega (arith, link, lt), lt);
        private = g.private present writes;
        small = small;
      }

  pub open_table-Opens :
      (m : Memory) (level : ℕ → ℕ) (table i k : ℕ)
      → IsFork m level
      → level table ≡ k + 1
      → m.banks.arena_begin ≤ table
      → 1 ≤ k
      → (m.words table i).present ≡ true
      → (k ≡ 1 → (m.words table i).ps ≡ false)
      → Opens m table i k (open_table host m table i (m.words table i).addr)
  unfolding open_table page_at
  open_table-Opens m level table i k f lt pt pos present small =
      elim (Bool-cases (has_page m (m.words table i).addr)) [
        | inr e ↦ rw (e, open_table) (Same-refl m)
        | inl e ↦ elim (Bool-cases (is_copy_on_write (m.words table i))) [
          | inr shut ↦
              let whole : open_table host m table i (m.words table i).addr
                  ≡ done (m.words table i).addr m =
                ground (arith, e, shut) in
              rw whole (same-Opened m level table i k f lt pos present small shut)
          | inl copied ↦
              let whole : open_table host m table i (m.words table i).addr
                  ≡ clone_and_update_entry host m table i (m.words table i).addr false =
                ground (arith, e, copied, f.slave) in
              let link =
                (f.good table i (omega (arith, lt))).linked (omega (arith, lt, pos)) present
                  (λ e. small (omega (arith, lt, e))) in
              rw whole (
                clone-Opens m level table i k (m.words table i).addr false f lt pt pos
                  (omega (arith, link, lt)) small)
        ]
      ]
