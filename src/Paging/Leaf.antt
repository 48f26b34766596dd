-- ===== src/Paging/Leaf.antt =====
-- The 4 kB level of writable_page_at.
use tinykvm.Prelude.{
  ℕ, ◌+◌, ◌≤◌, ◌<◌, ◌≡◌, ◌≢◌, refl, ap, ◌⊎◌, inl, inr, Bool, true, false, not, ◌&&◌, ◌||◌, done,
  throws, arith, ltb, Bool-cases, u64,
}
use tinykvm.Prelude.Outcome.{Outcome}
use tinykvm.MemoryBanks.{HostMemory, MemoryBanks, Page, BankError, new_pages}
use tinykvm.MemoryBanks.Arena.{in_use}
use tinykvm.MemoryBanks.Invariant
use tinykvm.MemoryBanks.Allocate.{Refuses, Handed, Hands, new_pages-Hands}
use tinykvm.Paging.Entry.{zero_entry, unlock_identity_mapped_entry}
use tinykvm.Paging.Memory.{
  Memory, Result, store, update, increment_unlocked_pages, allocate, out_of_unlocked, bank_error,
}
use tinykvm.Paging.Writable.{
  WritablePageOptions, clone_and_update_entry, zero_and_update_entry, unsafe_update_entry,
  copy_leaf,
}

-- No new page can fall on this one: it lies below the arena, or in its handed-out part.
abbrev pub IsHeld : MemoryBanks → ℕ → Type 0
IsHeld s p = (in_use s.m_mem p ≡ 1) ⊎ (p < s.arena_begin)

pub held_apart :
    (s : MemoryBanks) (pages p : ℕ) (page : Page) (s' : MemoryBanks)
    → 0 < pages
    → Handed s pages page s'
    → IsHeld s p
    → page.page_addr ≢ p
held_apart s pages p page s' pos h held e =
    ground (arith, h.fresh page.page_addr, h.inside, h.sized, h.same_begin, e)

module _ (host : HostMemory) (never_null : (n : ℕ) (h : Bool) → host.mmap n h ≢ 0) where
  refused_begin :
      (s : MemoryBanks) (err : BankError) (s' : MemoryBanks)
      → Refuses host s err s'
      → s'.arena_begin ≡ s.arena_begin
  refused_begin s err s' (inl h) = ap (λ x. x.arena_begin) h.1
  refused_begin s err s' (inr h) = ap (λ x. x.arena_begin) h.2

  pub allocate_cases :
      (m : Memory) (pages : ℕ)
      → Invariant.IsValid m.banks
      → 0 < pages
      → pages ≤ 512
      → ((err : BankError) × (banks : MemoryBanks) × (allocate host m pages
            ≡ throws (bank_error err) (record m { banks = banks }))
          × (banks.arena_begin ≡ m.banks.arena_begin))
        ⊎ ((page : Page) × (banks : MemoryBanks) × (allocate host m pages
              ≡ done page (record m { banks = banks }))
            × Handed m.banks pages page banks)
  unfolding allocate
  allocate_cases m pages v pos few =
      go (new_pages host m.banks pages) refl
        (new_pages-Hands host never_null m.banks pages v pos few)
    where
      go :
          (o : Outcome BankError MemoryBanks Page)
          → new_pages host m.banks pages ≡ o
          → Hands host m.banks pages o
          → ((err : BankError) × (banks : MemoryBanks) × (allocate host m pages
                ≡ throws (bank_error err) (record m { banks = banks }))
              × (banks.arena_begin ≡ m.banks.arena_begin))
            ⊎ ((page : Page) × (banks : MemoryBanks) × (allocate host m pages
                  ≡ done page (record m { banks = banks }))
                × Handed m.banks pages page banks)
      go (done page banks) e h = inr (page, banks, rw (e, allocate) refl, h)
      go (throws err banks) e h =
          inl (err, banks, rw (e, allocate) refl, refused_begin m.banks err banks h)

-- Memory that no page of the arena has been made of reads as zeros, as the host's mmap() gives it.
abbrev pub IsZeroed : Memory → Type 0
IsZeroed m =
    (p j : ℕ) → m.banks.arena_begin ≤ p → in_use m.banks.m_mem p ≡ 0 → m.words p j ≡ zero_entry

-- A master VM that writes to its own memory.
abbrev pub is_writing_master : Memory → Bool
is_writing_master m = m.forkable_master && m.main_memory_writes

-- The words of `w` that stand outside entry `i` of `table`, in pages that were there before.
abbrev pub Keeps : Memory → ℕ → ℕ → Memory → Type 0
Keeps m table i m' =
    (p j : ℕ) → IsHeld m.banks p → ((p ≢ table) ⊎ (j ≢ i)) → m'.words p j ≡ m.words p j

-- The page behind entry `i` of the page table `pt` has been made writable.
pub record Copied (m : Memory) (pt i source : ℕ) (options : WritablePageOptions) (page : ℕ)
    (m' : Memory) : Type 0 where
  pub writable : ((m'.words pt i).rw ≡ true) × ((m'.words pt i).present ≡ true)
  pub private : (m'.words pt i).cloneable ≡ false
  pub framed : (m'.words pt i).addr ≡ page
  pub same_rights :
      ((m'.words pt i).user ≡ (m.words pt i).user) × ((m'.words pt i).nx ≡ (m.words pt i).nx)
  pub unlocked : is_writing_master m ≡ true → page ≡ source
  pub copied :
      (m.words pt i).dirty ≡ true
      → options.zeroes ≡ false
      → options.allow_dirty ≡ false
      → (j : ℕ) → m'.words page j ≡ m.words source j
  pub zeroed :
      is_writing_master m ≡ false
      → options.allow_dirty ≡ false
      → (options.zeroes || not (m.words pt i).dirty) ≡ true
      → (j : ℕ) → m'.words page j ≡ zero_entry
  pub isolated : Keeps m pt i m'

abbrev pub Copies : Memory → ℕ → ℕ → ℕ → WritablePageOptions → Result ℕ → Type 0
Copies m pt i source options (done page m') = Copied m pt i source options page m'
Copies m pt i source options (throws e m') = Keeps m pt i m'

module _ (host : HostMemory) (never_null : (n : ℕ) (h : Bool) → host.mmap n h ≢ 0) (m : Memory)
    (pt i source : ℕ) (options : WritablePageOptions) (v : Invariant.IsValid m.banks)
    (pt_held : IsHeld m.banks pt) (source_held : IsHeld m.banks source) (apart : pt ≢ source)
    (present : (m.words pt i).present ≡ true) (direct : (m.words pt i).addr ≡ source) where
  clone-Copies :
      is_writing_master m ≡ false
      → (options.zeroes || not (m.words pt i).dirty) ≡ false
      → Copies m pt i source options (clone_and_update_entry host m pt i source true)
  unfolding clone_and_update_entry
  clone-Copies slave keep =
      elim (allocate_cases host never_null m 1 v (omega arith) (omega arith)) [
        | inl (err, banks, e, begin) ↦ rw (e, clone_and_update_entry) (λ p j held other. refl)
        | inr (new, banks, e, h) ↦
            let pt_new : new.page_addr ≢ pt =
              held_apart m.banks 1 pt new banks (omega arith) h pt_held in
            let source_new : new.page_addr ≢ source =
              held_apart m.banks 1 source new banks (omega arith) h source_held in
            rw (e, clone_and_update_entry)
              (record {
                writable = ground arith;
                private = ground arith;
                framed = ground arith;
                same_rights = ground arith;
                unlocked = λ w. absurd (ground (arith, w, slave));
                copied = λ d z a j. ground arith;
                zeroed = λ f a z j. ground arith;
                isolated = λ p j held other.
                    let p_new : new.page_addr ≢ p =
                      held_apart m.banks 1 p new banks (omega arith) h held in
                    ground arith;
              })
      ]

  zero-Copies :
      IsZeroed m
      → is_writing_master m ≡ false
      → options.allow_dirty ≡ false
      → (options.zeroes || not (m.words pt i).dirty) ≡ true
      → Copies m pt i source options (zero_and_update_entry host m pt i true)
  unfolding zero_and_update_entry
  zero-Copies zeros slave exact zero =
      elim (allocate_cases host never_null m 1 v (omega arith) (omega arith)) [
        | inl (err, banks, e, begin) ↦ rw (e, zero_and_update_entry) (λ p j held other. refl)
        | inr (new, banks, e, h) ↦
            let pt_new : new.page_addr ≢ pt =
              held_apart m.banks 1 pt new banks (omega arith) h pt_held in
            let zero_page : (j : ℕ) → m.words new.page_addr j ≡ zero_entry = λ j.
              zeros new.page_addr j (omega (arith, h.inside, h.same_begin))
                ((h.fresh new.page_addr (omega arith) (omega (arith, h.sized))).0) in
            rw (e, zero_and_update_entry)
              (rw (h.clean) (record {
                writable = ground arith;
                private = ground arith;
                framed = ground arith;
                same_rights = ground arith;
                unlocked = λ w. absurd (ground (arith, w, slave));
                copied = λ d z a j. ground arith;
                zeroed = λ f a z j. ground (arith, zero_page j);
                isolated = λ p j held other. ground arith;
              }))
      ]

  unsafe-Copies :
      is_writing_master m ≡ false
      → options.allow_dirty ≡ true
      → Copies m pt i source options (unsafe_update_entry host m pt i true)
  unfolding unsafe_update_entry
  unsafe-Copies slave loose =
      elim (allocate_cases host never_null m 1 v (omega arith) (omega arith)) [
        | inl (err, banks, e, begin) ↦ rw (e, unsafe_update_entry) (λ p j held other. refl)
        | inr (new, banks, e, h) ↦
            rw (e, unsafe_update_entry)
              (record {
                writable = ground arith;
                private = ground arith;
                framed = ground arith;
                same_rights = ground arith;
                unlocked = λ w. absurd (ground (arith, w, slave));
                copied = λ d z a j. ground arith;
                zeroed = λ f a z j. ground arith;
                isolated = λ p j held other. ground arith;
              })
      ]

  unlocked-Copied :
      (m' : Memory)
      → m'.words ≡ update m.words pt i (unlock_identity_mapped_entry (m.words pt i))
      → is_writing_master m ≡ true
      → Copied m pt i source options source m'
  unlocked-Copied m' e master = record {
    writable = rw e (ground arith);
    private = rw e (ground arith);
    framed = rw e (ground arith);
    same_rights = rw e (ground arith);
    unlocked = λ _. refl;
    copied = λ d z a j. rw e (ground arith);
    zeroed = λ f a z j. ground arith;
    isolated = λ p j held other. rw e (ground arith);
  }

  -- Where the entry i of the page table pt is present, frames `source`, and is to be copied: either
  -- the entry becomes writable and private and frames the returned page, with its other rights kept,
  -- or it throws. A master VM that writes to its own memory gets `source` back as it is, also where
  -- zeros were asked for; otherwise, without allow_dirty, the page holds the bytes of `source` if the
  -- entry was dirty and zeros were not asked for, and zeros if not; with allow_dirty nothing is said
  -- of its bytes. On every branch all other words of the pages held before are as they were. The banks are
  -- valid, unused memory reads as zeros, the host's mmap() never returns null, and `pt` and `source`
  -- are two pages that no new page can fall on.
  pub copy_leaf-Copies :
      IsZeroed m → Copies m pt i source options (copy_leaf host m pt i source options)
  unfolding copy_leaf increment_unlocked_pages
  copy_leaf-Copies zeros = elim (Bool-cases (is_writing_master m)) [
    | inl master ↦
        let unlocked : Memory = store m pt i (unlock_identity_mapped_entry (m.words pt i)) in
        elim (Bool-cases (ltb m.banks.max_pages (u64 (m.unlocked_pages + 1)))) [
          | inl over ↦
              let whole : copy_leaf host m pt i source options
                  ≡ throws out_of_unlocked
                      (record unlocked { unlocked_pages = u64 (m.unlocked_pages + 1) }) =
                ground (arith, master, over) in
              rw whole (λ p j held other. ground arith)
          | inr few ↦
              let whole : copy_leaf host m pt i source options
                  ≡ done source (record unlocked { unlocked_pages = u64 (m.unlocked_pages + 1) }) =
                ground (arith, master, few) in
              rw whole (unlocked-Copied _ refl master)
        ]
    | inr slave ↦ elim (Bool-cases options.allow_dirty) [
      | inl loose ↦
          let whole : copy_leaf host m pt i source options ≡ unsafe_update_entry host m pt i true =
            ground (arith, slave, loose) in
          rw whole (unsafe-Copies slave loose)
      | inr exact ↦ elim (Bool-cases (options.zeroes || not (m.words pt i).dirty)) [
        | inl zero ↦
            let whole : copy_leaf host m pt i source options
                ≡ zero_and_update_entry host m pt i true =
              ground (arith, slave, exact, zero) in
            rw whole (zero-Copies zeros slave exact zero)
        | inr keep ↦
            let whole : copy_leaf host m pt i source options
                ≡ clone_and_update_entry host m pt i source true =
              ground (arith, slave, exact, keep, present) in
            rw whole (clone-Copies slave keep)
      ]
    ]
  ]
