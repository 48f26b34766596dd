-- ===== src/Paging/IsolatedLeaf.antt =====
-- The page table level of writable_page_at in a fork, and the 2 MB pages.
use tinykvm.Prelude.{
  ℕ, ◌+◌, ◌*◌, ◌≤◌, ◌<◌, ◌≡◌, ◌≢◌, refl, ◌⊎◌, inl, inr, Bool, true, false, not, ◌||◌, done, throws,
  if◌then◌else◌, arith, ◌==◌, Bool-cases,
}
use tinykvm.MemoryBanks.{HostMemory, MemoryBanks, Page}
use tinykvm.MemoryBanks.Allocate.{Handed}
use tinykvm.Paging.Entry.{Entry, Flags, is_copy_on_write, cloned_entry, is_flagged_page}
use tinykvm.Paging.Memory.{
  Memory, Result, store, update, fill_page, page_at, has_page, invalid_region, not_writable,
  record_cow_leaf_user_page,
}
use tinykvm.Paging.Leaf.{allocate_cases}
use tinykvm.Paging.Fork.{
  IsGood, IsFork, Same, Same-refl, banks-Same, Same-trans, store-Same, store-IsFork, data-IsFork,
}
use tinykvm.Paging.Writable.{
  WritablePage, WritablePageOptions, clone_and_update_entry, zero_and_update_entry,
  unsafe_update_entry, copy_leaf, leaf,
}

-- A page was made writable without a change of main memory.
pub record Isolated (m : Memory) (page : ℕ) (m' : Memory) : Type 0 where
  pub fork : (level : ℕ → ℕ) × IsFork m' level
  pub same : Same m m'
  pub private : m.banks.arena_begin ≤ page

abbrev pub Isolates : Memory → Result WritablePage → Type 0
Isolates m (done w m') = Isolated m w.page m'
Isolates m (throws e m') = Same m m'

pub recorded-Isolated :
    (m : Memory) (page addr : ℕ) (m' : Memory)
    → Isolated m page m'
    → Isolated m page (record_cow_leaf_user_page m' addr)
unfolding record_cow_leaf_user_page
recorded-Isolated m page addr m' a =
    let whole : record_cow_leaf_user_page m' addr
        ≡ record m' { cow_written_pages = (record_cow_leaf_user_page m' addr).cow_written_pages } =
      ground arith in
    let g : IsFork m' a.fork.0 = a.fork.1 in
    rw whole (record {
      fork = (
        a.fork.0,
        record {
          banks = g.banks;
          slave = g.slave;
          rooted = g.rooted;
          held = g.held;
          good = g.good;
        },
      );
      same = record { begin = a.same.begin; main = a.same.main };
      private = a.private;
    })

-- The page is recorded if it is a user page.
pub if-Isolated :
    (m : Memory) (page : ℕ) (test : Bool) (m₁ m₂ : Memory)
    → Isolated m page m₁
    → Isolated m page m₂
    → Isolated m page (if test then m₁ else m₂)
if-Isolated m page true m₁ m₂ a b = a
if-Isolated m page false m₁ m₂ a b = b

pub marked :
    (m : Memory) (page addr : ℕ) (m' : Memory) (user : Bool)
    → Isolated m page m'
    → Isolated m page (if user then record_cow_leaf_user_page m' addr else m')
marked m page addr m' user a =
    if-Isolated m page user (record_cow_leaf_user_page m' addr) m'
      (recorded-Isolated m page addr m' a) a

-- The test of the flags at the end.
pub flagged-Isolates :
    (m : Memory) (w : WritablePage) (m' : Memory) (flagged : Bool)
    → Isolated m w.page m'
    → Isolates m (if flagged then done w m' else throws not_writable m')
flagged-Isolates m w m' true a = a
flagged-Isolates m w m' false a = a.same

module _ (m : Memory) (level : ℕ → ℕ) (table i : ℕ) (f : IsFork m level) (held : 1 ≤ level table)
    (private : m.banks.arena_begin ≤ table) (pages : ℕ) (new : Page) (banks : MemoryBanks)
    (pos : 0 < pages) (h : Handed m.banks pages new banks) where
  -- No table lies in the new pages.
  tables_apart : (p : ℕ) → 1 ≤ level p → (p < new.page_addr) ⊎ (new.page_addr + pages * 4096 ≤ p)
  tables_apart p l = ground (arith, f.held p l, h.fresh p, h.sized, h.inside, h.same_begin)

  -- New pages were given any bytes, and an entry of a table was set to them.
  filled-Isolated :
      (w : ℕ → ℕ → Entry) (e : Entry) (page : ℕ)
      → ((p j : ℕ) → (p < new.page_addr) ⊎ (new.page_addr + pages * 4096 ≤ p) → w p j ≡ m.words p j)
      → IsGood banks.arena_begin level (level table) e
      → new.page_addr ≤ page
      → Isolated m page (store (record m { banks = banks; words = w }) table i e)
  filled-Isolated w e page outside good le =
      let m₁ : Memory = record m { banks = banks; words = w } in
      let f₁ : IsFork m₁ level =
        data-IsFork m level f new banks pages pos h w (λ p j l. outside p j (tables_apart p l)) in
      let same₁ : Same m m₁ = record {
        begin = h.same_begin;
        main = λ p j below. outside p j (inl (omega (arith, h.inside, h.same_begin, below)));
      } in
      record {
        fork = (level, store-IsFork m₁ level table i e f₁ good);
        same =
            Same-trans m m₁ _ same₁
              (store-Same m₁ table i e (omega (arith, h.same_begin, private)));
        private = omega (arith, h.inside, h.same_begin, le);
      }

  -- The same in one step.
  pub written-Isolated :
      (w : ℕ → ℕ → Entry) (e : Entry) (page : ℕ)
      → ((p j : ℕ)
          → (p < new.page_addr) ⊎ (new.page_addr + pages * 4096 ≤ p)
          → w p j ≡ update m.words table i e p j)
      → IsGood m.banks.arena_begin level (level table) e
      → new.page_addr ≤ page
      → Isolated m page (record m { banks = banks; words = w })
  written-Isolated w e page outside good le =
      let m₁ : Memory = store m table i e in
      let f₁ : IsFork m₁ level = store-IsFork m level table i e f good in
      record {
        fork = (
          level,
          data-IsFork m₁ level f₁ new banks pages pos h w (λ p j l. outside p j (tables_apart p l)),
        );
        same = record {
          begin = h.same_begin;
          main = λ p j below.
              let out = outside p j (inl (omega (arith, h.inside, h.same_begin, below))) in
              ground (arith, out, private, below);
        };
        private = omega (arith, h.inside, h.same_begin, le);
      }

abbrev Frees : Memory → Result ℕ → Type 0
Frees m (done page m') = Isolated m page m'
Frees m (throws e m') = Same m m'

module _ (host : HostMemory) (never_null : (n : ℕ) (h : Bool) → host.mmap n h ≢ 0) (m : Memory)
    (level : ℕ → ℕ) (pt i : ℕ) (f : IsFork m level) (lt : level pt ≡ 1)
    (private : m.banks.arena_begin ≤ pt) where
  cloned-IsGood :
      (new : Page) (banks : MemoryBanks)
      → Handed m.banks 1 new banks
      → IsGood banks.arena_begin level (level pt) (cloned_entry (m.words pt i) new.page_addr true)
  cloned-IsGood new banks h = record {
    private = λ _ _. omega (arith, h.inside);
    mapped = λ e. ground arith;
    linked = λ l q small. absurd (omega (arith, lt, l));
    root = λ e. absurd (omega (arith, lt, e));
  }

  pt_apart :
      (new : Page) (banks : MemoryBanks)
      → Handed m.banks 1 new banks
      → (pt == new.page_addr) ≡ false
  pt_apart new banks h = ground (
    arith,
    tables_apart m level pt i f (omega (arith, lt)) private 1 new banks (omega arith) h pt
        (omega (arith, lt)),
  )

  zero-Frees : Frees m (zero_and_update_entry host m pt i true)
  unfolding zero_and_update_entry
  zero-Frees = elim (allocate_cases host never_null m 1 f.banks (omega arith) (omega arith)) [
    | inl (err, banks, e, begin) ↦ rw (e, zero_and_update_entry) (banks-Same m banks begin)
    | inr (new, banks, e, h) ↦
        rw (e, zero_and_update_entry)
          (rw (h.clean) (
            filled-Isolated m level pt i f (omega (arith, lt)) private 1 new banks (omega arith) h
              m.words _ new.page_addr (λ p j out. refl) (cloned-IsGood new banks h) (omega arith)))
  ]

  unsafe-Frees : Frees m (unsafe_update_entry host m pt i true)
  unfolding unsafe_update_entry
  unsafe-Frees = elim (allocate_cases host never_null m 1 f.banks (omega arith) (omega arith)) [
    | inl (err, banks, e, begin) ↦ rw (e, unsafe_update_entry) (banks-Same m banks begin)
    | inr (new, banks, e, h) ↦
        rw (e, unsafe_update_entry)
          (filled-Isolated m level pt i f (omega (arith, lt)) private 1 new banks (omega arith) h
            m.words _ new.page_addr (λ p j out. refl) (cloned-IsGood new banks h) (omega arith))
  ]

  clone-Frees : (source : ℕ) → Frees m (clone_and_update_entry host m pt i source true)
  unfolding clone_and_update_entry
  clone-Frees source =
      elim (allocate_cases host never_null m 1 f.banks (omega arith) (omega arith)) [
        | inl (err, banks, e, begin) ↦ rw (e, clone_and_update_entry) (banks-Same m banks begin)
        | inr (new, banks, e, h) ↦
            rw (e, clone_and_update_entry)
              (rw (pt_apart new banks h) (
                filled-Isolated m level pt i f (omega (arith, lt)) private 1 new banks (omega arith)
                  h (fill_page m.words new.page_addr (m.words source)) _ new.page_addr
                  (λ p j out. ground (arith, out)) (cloned-IsGood new banks h) (omega arith)))
      ]

  copy_leaf-Frees :
      (source : ℕ) (options : WritablePageOptions)
      → (m.words pt i).present ≡ true
      → Frees m (copy_leaf host m pt i source options)
  unfolding copy_leaf
  copy_leaf-Frees source options present = elim (Bool-cases options.allow_dirty) [
    | inl loose ↦
        let whole : copy_leaf host m pt i source options ≡ unsafe_update_entry host m pt i true =
          ground (arith, f.slave, loose) in
        rw whole unsafe-Frees
    | inr exact ↦ elim (Bool-cases (options.zeroes || not (m.words pt i).dirty)) [
      | inl zero ↦
          let whole : copy_leaf host m pt i source options
              ≡ zero_and_update_entry host m pt i true =
            ground (arith, f.slave, exact, zero) in
          rw whole zero-Frees
      | inr keep ↦
          let whole : copy_leaf host m pt i source options
              ≡ clone_and_update_entry host m pt i source true =
            ground (arith, f.slave, exact, keep, present) in
          rw whole (clone-Frees source)
    ]
  ]

  pub leaf-Isolates :
      (base addr : ℕ) (verify : Flags) (options : WritablePageOptions)
      → verify.wants_rw ≡ true
      → Isolates m (leaf host m pt i base addr verify options)
  unfolding leaf page_at
  leaf-Isolates base addr verify options writes =
      elim (Bool-cases ((m.words pt i).present || (m.words pt i).cloneable)) [
        | inr e ↦ rw (e, leaf) (Same-refl m)
        | inl e ↦
            let present : (m.words pt i).present ≡ true =
              ground (arith, e, (f.good pt i (omega (arith, lt))).mapped) in
            elim (Bool-cases (has_page m (m.words pt i).addr)) [
              | inr out ↦
                  let whole : leaf host m pt i base addr verify options
                      ≡ throws (invalid_region (m.words pt i).addr) m =
                    ground (arith, present, out) in
                  rw whole (Same-refl m)
              | inl inside ↦ elim (Bool-cases (is_copy_on_write (m.words pt i))) [
                | inl cow ↦
                    go present inside cow (copy_leaf host m pt i (m.words pt i).addr options) refl
                      (copy_leaf-Frees (m.words pt i).addr options present)
                | inr shut ↦ elim (Bool-cases (is_flagged_page verify (m.words pt i))) [
                  | inr refused ↦
                      let whole : leaf host m pt i base addr verify options
                          ≡ throws not_writable m =
                        ground (arith, present, inside, shut, refused) in
                      rw whole (Same-refl m)
                  | inl flagged ↦
                      let whole : leaf host m pt i base addr verify options
                          ≡ done
                              (record {
                                page = (m.words pt i).addr;
                                table = pt;
                                index = i;
                                page_size = 4096;
                              })
                              m =
                        ground (arith, present, inside, shut, flagged) in
                      rw whole (record {
                        fork = (level, f);
                        same = Same-refl m;
                        private =
                            (f.good pt i (omega (arith, lt))).private present
                              (ground (arith, flagged, writes));
                      })
                ]
              ]
            ]
      ]
    where
      go :
          (m.words pt i).present ≡ true
          → has_page m (m.words pt i).addr ≡ true
          → is_copy_on_write (m.words pt i) ≡ true
          → (o : Result ℕ) → copy_leaf host m pt i (m.words pt i).addr options ≡ o
          → Frees m o
          → Isolates m (leaf host m pt i base addr verify options)
      go present inside cow (throws err m') q a =
          let whole : leaf host m pt i base addr verify options ≡ throws err m' =
            ground (arith, present, inside, cow, q) in
          rw whole a
      go present inside cow (done page m') q a =
          let m'' : Memory =
            if (m'.words pt i).user then record_cow_leaf_user_page m' addr else m' in
          let w : WritablePage = record { page = page; table = pt; index = i; page_size = 4096 } in
          let whole : leaf host m pt i base addr verify options ≡ (
              if is_flagged_page verify (m''.words pt i)
              then done w m''
              else throws not_writable m'') =
            ground (arith, present, inside, cow, q) in
          rw whole (
            flagged-Isolates m w m'' (is_flagged_page verify (m''.words pt i))
              (marked m page addr m' (m'.words pt i).user a))
