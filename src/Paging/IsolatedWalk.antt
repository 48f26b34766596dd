-- ===== src/Paging/IsolatedWalk.antt =====
-- The whole of writable_page_at in a fork.
use tinykvm.Prelude.{
  ℕ, ◌*◌, ◌/◌, ◌%◌, ◌^◌, ◌≤◌, ◌≡◌, ◌≢◌, refl, inl, inr, Bool, true, false, not, ◌&&◌, ◌||◌, done,
  throws, ◌>>=◌, if◌then◌else◌, arith, Bool-cases,
}
use tinykvm.MemoryBanks.{HostMemory}
use tinykvm.Paging.Entry.{Entry, Flags, is_copy_on_write, pdpt_address}
use tinykvm.Paging.Memory.{
  Memory, Result, page_at, has_page, invalid_region, pml4_not_present, directory_not_present,
  table_not_present,
}
use tinykvm.Paging.Walk.{pml4_index, pdpt_index, pd_index, pt_index}
use tinykvm.Paging.Fork.{IsFork, Same, Same-refl, Same-trans}
use tinykvm.Paging.Isolation.{Opened, Opens, same-Opened, clone-Opens, open_table-Opens}
use tinykvm.Paging.IsolatedLeaf.{Isolates, leaf-Isolates}
use tinykvm.Paging.IsolatedHuge.{huge_page-Isolates, duplicate_huge-Isolates, split_huge-Opens}
use tinykvm.Paging.Writable.{
  WritablePage, WritablePageOptions, clone_and_update_entry, open_table, split_huge, duplicate_huge,
  after_directory, directory, writable_page_at,
}

plain_address : (e : Entry) → e.nx ≡ false → pdpt_address e ≡ e.addr
plain_address e plain = ground (arith, plain)

-- A step that keeps main memory comes first.
after-Isolates :
    (m m' : Memory) (o : Result WritablePage) → Same m m' → Isolates m' o → Isolates m o
after-Isolates m m' (done w m'') s a = record {
  fork = a.fork;
  same = Same-trans m m' m'' s a.same;
  private = omega (arith, s.begin, a.private);
}
after-Isolates m m' (throws e m'') s a = Same-trans m m' m'' s a

module _ (host : HostMemory) (never_null : (n : ℕ) (h : Bool) → host.mmap n h ≢ 0) (addr : ℕ)
    (verify : Flags) (options : WritablePageOptions) (writes : verify.wants_rw ≡ true) where
  -- The page table is open; its entry decides.
  Opened-Isolates :
      (m m' : Memory) (pd k pt frame : ℕ)
      → Opened m pd k 1 pt m'
      → Isolates m (after_directory host m' pd k pt frame addr verify options)
  unfolding after_directory
  Opened-Isolates m m' pd k pt frame o =
      rw (o.small refl, after_directory)
        (after-Isolates m m' _ o.same (
          leaf-Isolates host never_null m' o.level pt (pt_index addr) o.fork o.levels.0
            (omega (arith, o.same.begin, o.private)) (addr % 2 ^ 48 / 4096 * 4096) addr verify
            options writes))

  Opens-Isolates :
      (m : Memory) (pd k frame : ℕ) (o : Result ℕ)
      → Opens m pd k 1 o
      → Isolates m (o >>= λ (pt, m'). after_directory host m' pd k pt frame addr verify options)
  Opens-Isolates m pd k frame (done pt m') a = Opened-Isolates m m' pd k pt frame a
  Opens-Isolates m pd k frame (throws e m') a = a

  -- The page table that a split has made is cloned once more.
  cloned_again-Isolates :
      (m : Memory) (pd k frame : ℕ) (o : Result ℕ)
      → m.banks.arena_begin ≤ pd
      → Opens m pd k 1 o
      → Isolates m (
          o >>= λ (pt, m').
          (clone_and_update_entry host m' pd k pt true >>= λ (pt', m'').
          after_directory host m'' pd k pt' frame addr verify options))
  cloned_again-Isolates m pd k frame (throws e m') private a = a
  cloned_again-Isolates m pd k frame (done pt m') private a = after-Isolates m m' _ a.same (
      Opens-Isolates m' pd k frame _ (
        clone-Opens host never_null m' a.level pd k 1 pt true a.fork a.levels.1
          (omega (arith, a.same.begin, private)) (omega arith) a.levels.0 a.small))

  module _ (m : Memory) (level : ℕ → ℕ) (pd : ℕ) (f : IsFork m level) (ld : level pd ≡ 2)
      (private : m.banks.arena_begin ≤ pd) where
    -- The entry of the page directory that the address selects.
    abbrev selected : Entry
    selected = m.words pd (pd_index addr)

    shut-Isolates :
        selected.present ≡ true
        → is_copy_on_write selected ≡ false
        → Isolates m (
            after_directory host m pd
              (pd_index addr)
              selected.addr
              selected.addr
              addr
              verify
              options)
    unfolding after_directory
    shut-Isolates present shut = elim (Bool-cases selected.ps) [
      | inl huge ↦
          rw (huge, after_directory)
            (huge_page-Isolates host never_null m level pd (pd_index addr) f ld private present addr
              verify writes)
      | inr small ↦ Opened-Isolates m m pd (pd_index addr) selected.addr selected.addr (
          same-Opened host never_null m level pd (pd_index addr) 1 f ld (omega arith) present
            (λ _. small) shut)
    ]

    copied-Isolates :
        selected.present ≡ true
        → has_page m selected.addr ≡ true
        → is_copy_on_write selected ≡ true
        → Isolates m (directory host m pd addr verify options)
    unfolding directory page_at
    copied-Isolates present inside cow = elim (Bool-cases selected.ps) [
      | inr small ↦
          let whole : directory host m pd addr verify options ≡ (
              clone_and_update_entry host m pd (pd_index addr) selected.addr true >>= λ (pt, m').
              after_directory host m' pd (pd_index addr) pt selected.addr addr verify options) =
            ground (arith, present, inside, cow, small, f.slave) in
          let link =
            (f.good pd (pd_index addr) (omega (arith, ld))).linked (omega (arith, ld)) present
              (λ _. small) in
          rw whole (
            Opens-Isolates m pd (pd_index addr) selected.addr _ (
              clone-Opens host never_null m level pd (pd_index addr) 1 selected.addr true f ld
                private (omega arith) (omega (arith, link, ld)) (λ _. small)))
      | inl huge ↦ elim (Bool-cases m.split_hugepages) [
        | inl splits ↦
            let whole : directory host m pd addr verify options ≡ (
                split_huge host m pd (pd_index addr) >>= λ (pt, m').
                (clone_and_update_entry host m' pd (pd_index addr) pt true >>= λ (pt', m'').
                after_directory host m'' pd (pd_index addr) pt' selected.addr addr verify
                  options)) =
              ground (arith, present, inside, cow, huge, splits, f.slave) in
            rw whole (
              cloned_again-Isolates m pd (pd_index addr) selected.addr _ private
                (split_huge-Opens host never_null m level pd (pd_index addr) f ld private present))
        | inr copies ↦
            let whole : directory host m pd addr verify options
                ≡ duplicate_huge host m pd (pd_index addr) addr verify =
              ground (arith, present, inside, cow, huge, copies, f.slave) in
            rw whole (
              duplicate_huge-Isolates host never_null m level pd (pd_index addr) f ld private
                present addr verify huge)
      ]
    ]

    directory-Isolates : Isolates m (directory host m pd addr verify options)
    unfolding directory page_at
    directory-Isolates = elim (Bool-cases (selected.present || selected.cloneable)) [
      | inr e ↦
          let whole : directory host m pd addr verify options ≡ throws table_not_present m =
            ground (arith, e) in
          rw whole (Same-refl m)
      | inl e ↦
          let present : selected.present ≡ true =
            ground (arith, e, (f.good pd (pd_index addr) (omega (arith, ld))).mapped) in
          elim (Bool-cases (has_page m selected.addr)) [
            | inr out ↦
                let whole : directory host m pd addr verify options
                    ≡ throws (invalid_region selected.addr) m =
                  ground (arith, present, out) in
                rw whole (Same-refl m)
            | inl inside ↦ elim (Bool-cases (is_copy_on_write selected)) [
              | inl cow ↦ copied-Isolates present inside cow
              | inr shut ↦
                  let whole : directory host m pd addr verify options
                      ≡ after_directory host m pd (pd_index addr) selected.addr selected.addr addr
                          verify options =
                    ground (arith, present, inside, shut) in
                  rw whole (shut-Isolates present shut)
            ]
          ]
    ]

  -- The flag for the gigapages of a remote VM.
  abbrev noted : Bool → Memory → Memory
  noted cloned m = if cloned then record m { remote_must_update_gigapages = true } else m

  noted-IsFork :
      (cloned : Bool) (m : Memory) (level : ℕ → ℕ) → IsFork m level → IsFork (noted cloned m) level
  noted-IsFork false m level f = f
  noted-IsFork true m level f = record {
    banks = f.banks;
    slave = f.slave;
    rooted = f.rooted;
    held = f.held;
    good = f.good;
  }

  noted-Same : (cloned : Bool) (m m' : Memory) → Same m m' → Same m (noted cloned m')
  noted-Same false m m' s = s
  noted-Same true m m' s = record { begin = s.begin; main = s.main }

  -- The page directory is open.
  third-Isolates :
      (m : Memory) (pdpt j : ℕ) (cloned : Bool) (o : Result ℕ)
      → Opens m pdpt j 2 o
      → Isolates m (o >>= λ (pd, m'). directory host (noted cloned m') pd addr verify options)
  third-Isolates m pdpt j cloned (throws e m') a = a
  third-Isolates m pdpt j cloned (done pd m') a =
      after-Isolates m (noted cloned m') _ (noted-Same cloned m m' a.same) (
        directory-Isolates (noted cloned m') a.level pd (noted-IsFork cloned m' a.level a.fork)
          a.levels.0 (omega (arith, (noted-Same cloned m m' a.same).begin, a.private)))

  -- What follows the PML4 level.
  abbrev after_pml4 : ℕ → Memory → Result WritablePage
  after_pml4 pdpt m =
      let e = m.words pdpt (pdpt_index addr) in
      if e.present
      then (do
        (pd, m') ← open_table host m pdpt (pdpt_index addr) e.addr
        directory host (noted (is_copy_on_write e && not m.main_memory_writes) m') pd addr verify
            options)
      else throws directory_not_present m

  second-Isolates :
      (m m' : Memory) (pml4 i pdpt : ℕ)
      → Opened m pml4 i 3 pdpt m'
      → Isolates m (after_pml4 pdpt m')
  second-Isolates m m' pml4 i pdpt a = elim (Bool-cases (m'.words pdpt (pdpt_index addr)).present) [
    | inr e ↦ rw e a.same
    | inl e ↦ rw e (
        after-Isolates m m' _ a.same (
          third-Isolates m' pdpt (pdpt_index addr) _ _ (
            open_table-Opens host never_null m' a.level pdpt (pdpt_index addr) 2 a.fork a.levels.0
              (omega (arith, a.same.begin, a.private)) (omega arith) e
              (λ q. absurd (omega (arith, q))))))
  ]

  first-Isolates :
      (m : Memory) (pml4 i : ℕ) (o : Result ℕ)
      → Opens m pml4 i 3 o
      → Isolates m (o >>= λ (pdpt, m'). after_pml4 pdpt m')
  first-Isolates m pml4 i (throws e m') a = a
  first-Isolates m pml4 i (done pdpt m') a = second-Isolates m m' pml4 i pdpt a

  pub writable_page_at-Isolates :
      (m : Memory) (level : ℕ → ℕ)
      → IsFork m level
      → Isolates m (writable_page_at host m addr verify options)
  unfolding writable_page_at page_at
  writable_page_at-Isolates m level f =
      let e : Entry = m.words m.page_tables (pml4_index addr) in
      elim (Bool-cases (has_page m m.page_tables)) [
        | inr out ↦
            let whole : writable_page_at host m addr verify options
                ≡ throws (invalid_region m.page_tables) m =
              ground (arith, out) in
            rw whole (Same-refl m)
        | inl inside ↦ elim (Bool-cases e.present) [
          | inr missing ↦
              let whole : writable_page_at host m addr verify options ≡ throws pml4_not_present m =
                ground (arith, inside, missing) in
              rw whole (Same-refl m)
          | inl present ↦
              let plain : e.nx ≡ false =
                (f.good m.page_tables (pml4_index addr) (omega (arith, f.rooted))).root
                  (f.rooted.0) in
              let whole : writable_page_at host m addr verify options ≡ (
                  open_table host m m.page_tables (pml4_index addr) e.addr >>= λ (pdpt, m').
                  after_pml4 pdpt m') =
                rw (inside, writable_page_at) (rw (plain_address e plain) (rw present refl)) in
              rw whole (
                first-Isolates m m.page_tables (pml4_index addr) _ (
                  open_table-Opens host never_null m level m.page_tables (pml4_index addr) 3 f
                    (omega (arith, f.rooted)) (f.rooted.1) (omega arith) present
                    (λ q. absurd (omega (arith, q)))))
        ]
      ]
