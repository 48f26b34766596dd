-- ===== src/Paging/IsolatedHuge.antt =====
-- The 2 MB pages of writable_page_at in a fork.
use mathlib.Core.Path.{ap}
use tinykvm.Prelude.{
  ℕ, ◌+◌, ◌*◌, ◌^◌, ◌≤◌, ◌<◌, ◌≡◌, ◌≢◌, refl, ◌∙◌, ◌⊎◌, inl, inr, Bool, true, false, done, throws,
  if◌then◌else◌, arith, Bool-cases,
}
use tinykvm.MemoryBanks.{HostMemory, MemoryBanks, Page}
use tinykvm.MemoryBanks.Allocate.{Handed}
use tinykvm.Paging.Entry.{
  Entry, Flags, is_flagged_page, duplicated_entry, branch_entry, split_entry,
}
use tinykvm.Paging.Memory.{
  Memory, store, update, fill_page, fill_huge, page_at, has_page, bank_error, invalid_region,
  not_writable, record_cow_leaf_user_page,
}
use tinykvm.Paging.Walk.{pt_index}
use tinykvm.Paging.Leaf.{allocate_cases}
use tinykvm.Paging.Fork.{
  IsGood, IsFork, Same, Same-refl, banks-Same, Same-trans, store-Same, store-IsFork, relevel,
  free_level, adopt-IsFork, adopt-Same,
}
use tinykvm.Paging.Isolation.{Opens}
use tinykvm.Paging.IsolatedLeaf.{Isolated, Isolates, if-Isolated, marked, written-Isolated}
use tinykvm.Paging.Writable.{WritablePage, huge_page, duplicate_huge, split_huge}

-- A store that a second store to the same entry overwrites.
overwrite_lem :
    (w : ℕ → ℕ → Entry) (table k page : ℕ) (f : ℕ → Entry) (e e' : Entry) (p j : ℕ)
    → update (fill_page (update w table k e) page f) table k e' p j
      ≡ update (fill_page w page f) table k e' p j
overwrite_lem w table k page f e e' p j = ground arith

update_self : (w : ℕ → ℕ → Entry) (table k : ℕ) (e : Entry) → update w table k e table k ≡ e
update_self w table k e = ground arith

agree-IsFork :
    (m : Memory) (level : ℕ → ℕ) (w : ℕ → ℕ → Entry)
    → IsFork m level
    → ((p j : ℕ) → w p j ≡ m.words p j)
    → IsFork (record m { words = w }) level
agree-IsFork m level w f same = record {
  banks = f.banks;
  slave = f.slave;
  rooted = f.rooted;
  held = f.held;
  good = λ p j l. rw (same p j) (f.good p j l);
}

module _ (host : HostMemory) (never_null : (n : ℕ) (h : Bool) → host.mmap n h ≢ 0) (m : Memory)
    (level : ℕ → ℕ) (pd k : ℕ) (f : IsFork m level) (ld : level pd ≡ 2)
    (private : m.banks.arena_begin ≤ pd) (present : (m.words pd k).present ≡ true) where
  pub huge_page-Isolates :
      (addr : ℕ) (verify : Flags)
      → verify.wants_rw ≡ true
      → Isolates m (huge_page host m pd k (m.words pd k).addr addr verify)
  unfolding huge_page page_at
  huge_page-Isolates addr verify writes =
      elim (Bool-cases (is_flagged_page verify (m.words pd k))) [
        | inr refused ↦
            let whole : huge_page host m pd k (m.words pd k).addr addr verify
                ≡ throws not_writable m =
              ground (arith, refused) in
            rw whole (Same-refl m)
        | inl flagged ↦ elim (Bool-cases (has_page m (m.words pd k).addr)) [
          | inr out ↦
              let whole : huge_page host m pd k (m.words pd k).addr addr verify
                  ≡ throws (invalid_region (m.words pd k).addr) m =
                ground (arith, flagged, out) in
              rw whole (Same-refl m)
          | inl inside ↦
              let owned =
                (f.good pd k (omega (arith, ld))).private present
                  (ground (arith, flagged, writes)) in
              let whole : huge_page host m pd k (m.words pd k).addr addr verify
                  ≡ done
                      (record {
                        page = (m.words pd k).addr + pt_index addr * 4096;
                        table = pd;
                        index = k;
                        page_size = 2 ^ 21;
                      })
                      m =
                ground (arith, flagged, inside) in
              rw whole
                (record { fork = (level, f); same = Same-refl m; private = omega (arith, owned) })
        ]
      ]

  -- The split of a 2 MB page makes a page table of 512 copy-on-write entries.
  pub split_huge-Opens : Opens m pd k 1 (split_huge host m pd k)
  unfolding split_huge
  split_huge-Opens =
      let m₀ : Memory = store m pd k (record (m.words pd k) { ps = false }) in
      elim (allocate_cases host never_null m₀ 1 f.banks (omega arith) (omega arith)) [
        | inl (err, banks, e, begin) ↦
            rw (e, split_huge)
              (Same-trans m m₀ _ (store-Same m pd k _ private) (banks-Same m₀ banks begin))
        | inr (new, banks, e, h) ↦
            let free = free_level m level f new banks 1 (omega arith) h in
            let e₀ : Entry = record (m.words pd k) { ps = false } in
            let w : ℕ → Entry = branch_entry e₀ in
            let m₁ : Memory = record m {
              banks = banks;
              words = fill_page m.words new.page_addr w;
            } in
            let f₁ : IsFork m₁ (relevel level new.page_addr 1) =
              adopt-IsFork m level f new banks 1 (omega arith) h 1 w (λ j l. record {
                private = λ _ q. absurd (ground (arith, q));
                mapped = λ _. refl;
                linked = λ l _ _. absurd (omega (arith, l));
                root = λ e. absurd (omega (arith, e));
              }) in
            let f₂ : IsFork (store m₁ pd k (split_entry e₀ new.page_addr))
                (relevel level new.page_addr 1) =
              store-IsFork m₁ (relevel level new.page_addr 1) pd k _ f₁ (record {
                private = λ _ _. omega (arith, h.inside);
                mapped = λ e. absurd (ground (arith, e));
                linked = λ l q _. ground (arith, free, ld);
                root = λ e. absurd (ground (arith, free, ld, e));
              }) in
            let same : Same m (store m₁ pd k (split_entry e₀ new.page_addr)) =
              Same-trans m m₁ _ (adopt-Same m level f new banks 1 (omega arith) h w)
                (store-Same m₁ pd k _ (omega (arith, h.same_begin, private))) in
            rw (e, split_huge)
              (rw (update_self m.words pd k e₀) (record {
                level = relevel level new.page_addr 1;
                fork =
                    agree-IsFork (store m₁ pd k (split_entry e₀ new.page_addr))
                      (relevel level new.page_addr 1) _ f₂
                      (λ p j.
                        overwrite_lem m.words pd k new.page_addr w e₀ (split_entry e₀ new.page_addr)
                          p j);
                same = record {
                  begin = h.same_begin;
                  main = λ p j below.
                      overwrite_lem m.words pd k new.page_addr w e₀ (split_entry e₀ new.page_addr) p
                        j
                      ∙ same.main p j below;
                };
                levels = ground (arith, free, ld);
                private = omega (arith, h.inside, h.same_begin);
                small = λ _.
                    ap (λ x. x.ps)
                      (update_self (fill_page (update m.words pd k e₀) new.page_addr w) pd k
                        (split_entry e₀ new.page_addr));
              }))
      ]

  duplicated-IsGood :
      (new : Page) (banks : MemoryBanks)
      → Handed m.banks 512 new banks
      → (m.words pd k).ps ≡ true
      → IsGood m.banks.arena_begin level (level pd) (duplicated_entry (m.words pd k) new.page_addr)
  duplicated-IsGood new banks h huge = record {
    private = λ _ _. omega (arith, h.inside, h.same_begin);
    mapped = λ e. absurd (ground (arith, e));
    linked = λ l q small. absurd (ground (arith, huge, small (omega (arith, ld))));
    root = λ e. absurd (omega (arith, ld, e));
  }

  -- The memory once the 2 MB page has been copied to a new one.
  copied-Isolated :
      (addr : ℕ) (w : ℕ → ℕ → Entry) (new : Page) (banks : MemoryBanks)
      → Handed m.banks 512 new banks
      → (m.words pd k).ps ≡ true
      → ((p j : ℕ)
          → (p < new.page_addr) ⊎ (new.page_addr + 512 * 4096 ≤ p)
          → w p j ≡ update m.words pd k (duplicated_entry (m.words pd k) new.page_addr) p j)
      → Isolated m (new.page_addr + pt_index addr * 4096) (record m { banks = banks; words = w })
  copied-Isolated addr w new banks h huge outside =
      written-Isolated m level pd k f (omega (arith, ld)) private 512 new banks (omega arith) h w
        (duplicated_entry (m.words pd k) new.page_addr) (new.page_addr + pt_index addr * 4096)
        outside (duplicated-IsGood new banks h huge) (omega arith)

  pub duplicate_huge-Isolates :
      (addr : ℕ) (verify : Flags)
      → (m.words pd k).ps ≡ true
      → Isolates m (duplicate_huge host m pd k addr verify)
  unfolding duplicate_huge page_at
  duplicate_huge-Isolates addr verify huge = elim (Bool-cases (has_page m (m.words pd k).addr)) [
    | inr out ↦
        let whole : duplicate_huge host m pd k addr verify
            ≡ throws (invalid_region (m.words pd k).addr) m =
          ground (arith, out) in
        rw whole (Same-refl m)
    | inl inside ↦ elim (allocate_cases host never_null m 512 f.banks (omega arith) (omega arith)) [
      | inl (err, banks, e, begin) ↦
          let whole : duplicate_huge host m pd k addr verify
              ≡ throws (bank_error err) (record m { banks = banks }) =
            ground (arith, inside, e) in
          rw whole (banks-Same m banks begin)
      | inr (new, banks, e, h) ↦
          let e' : Entry = duplicated_entry (m.words pd k) new.page_addr in
          let m₃ : Memory = store (record m { banks = banks }) pd k e' in
          let full : ℕ → ℕ → Entry =
            fill_huge m₃.words new.page_addr (λ p j. m₃.words ((m.words pd k).addr + p) j) in
          let m₄ : Memory = if (m.words pd k).dirty then record m₃ { words = full } else m₃ in
          let w : WritablePage = record {
            page = new.page_addr + pt_index addr * 4096;
            table = pd;
            index = k;
            page_size = 2 ^ 21;
          } in
          let plain : Isolated m w.page m₃ =
            copied-Isolated addr m₃.words new banks h huge (λ p j out. refl) in
          let filled : Isolated m w.page (record m₃ { words = full }) =
            copied-Isolated addr full new banks h huge (λ p j out. ground (arith, out)) in
          let either : Isolated m w.page m₄ =
            if-Isolated m w.page (m.words pd k).dirty (record m₃ { words = full }) m₃ filled
              plain in
          elim (Bool-cases (is_flagged_page verify e')) [
            | inr refused ↦
                let whole : duplicate_huge host m pd k addr verify ≡ throws not_writable m₃ =
                  ground (arith, inside, e, refused) in
                rw whole plain.same
            | inl flagged ↦
                let whole : duplicate_huge host m pd k addr verify
                    ≡ done w (if e'.user then record_cow_leaf_user_page m₄ addr else m₄) =
                  rw (inside, duplicate_huge) (rw e (rw (h.clean) (rw flagged refl))) in
                rw whole (marked m w.page addr m₄ e'.user either)
          ]
    ]
  ]
