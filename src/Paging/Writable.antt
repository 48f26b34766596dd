-- ===== src/Paging/Writable.antt =====
-- writable_page_at of lib/tinykvm/amd64/paging.cpp: the walk that copies what is marked for
-- copy-on-write, level by level. The host is a parameter (MemoryBanks.HostMemory).
use tinykvm.Prelude.{
  ℕ, ◌+◌, ◌*◌, ◌/◌, ◌%◌, ◌^◌, Bool, true, false, not, ◌&&◌, ◌||◌, done, throws, ◌>>=◌,
  if◌then◌else◌,
}
use tinykvm.MemoryBanks.{HostMemory}
use tinykvm.Paging.Entry.{
  Flags, zero_entry, is_flagged_page, is_copy_on_write, pdpt_address, unlock_identity_mapped_entry,
  cloned_entry, split_entry, branch_entry, duplicated_entry,
}
use tinykvm.Paging.Memory.{
  Memory, Result, page_at, store, fill_page, fill_huge, page_duplicate, page_memzero,
  record_cow_leaf_user_page, increment_unlocked_pages, allocate, pml4_not_present,
  directory_not_present, table_not_present, entry_not_present, not_writable,
}
use tinykvm.Paging.Walk.{pml4_index, pdpt_index, pd_index, pt_index}

-- WritablePage: the page, where its entry stands, and the size.
pub record WritablePage : Type 0 where
  pub page : ℕ
  pub table : ℕ
  pub index : ℕ
  pub page_size : ℕ

pub record WritablePageOptions : Type 0 where
  pub zeroes : Bool
  pub allow_dirty : Bool

module _ (host : HostMemory) where
  -- clone_and_update_entry, for the entry table[i] and its page `source`.
  unfoldable pub clone_and_update_entry : Memory → ℕ → ℕ → ℕ → Bool → Result ℕ
  clone_and_update_entry m table i source with_present = do
    (new, m₁) ← allocate host m 1
    let m₂ = page_duplicate m₁ new.page_addr source
    let e = m₂.words table i
    done new.page_addr (store m₂ table i (cloned_entry e new.page_addr with_present))

  unfoldable pub zero_and_update_entry : Memory → ℕ → ℕ → Bool → Result ℕ
  zero_and_update_entry m table i with_present = do
    (new, m₁) ← allocate host m 1
    let m₂ = if new.dirty then page_memzero m₁ new.page_addr else m₁
    let e = m₂.words table i
    done new.page_addr (store m₂ table i (cloned_entry e new.page_addr with_present))

  unfoldable pub unsafe_update_entry : Memory → ℕ → ℕ → Bool → Result ℕ
  unsafe_update_entry m table i with_present = do
    (new, m₁) ← allocate host m 1
    let e = m₁.words table i
    done new.page_addr (store m₁ table i (cloned_entry e new.page_addr with_present))

  -- The PML4 and the PDPT level: the table behind table[i], made writable.
  unfoldable pub open_table : Memory → ℕ → ℕ → ℕ → Result ℕ
  open_table m table i child = do
    (source, m₁) ← page_at m child
    let e = m₁.words table i
    (if is_copy_on_write e
        then (if m₁.main_memory_writes
            then done source (store m₁ table i (unlock_identity_mapped_entry e))
            else clone_and_update_entry m₁ table i source false)
        else done source m₁)

  -- The 2 MB page of pd[k], split into 512 copy-on-write entries of a new page table.
  unfoldable pub split_huge : Memory → ℕ → ℕ → Result ℕ
  split_huge m pd k = do
    (new, m₁) ← allocate host (store m pd k (record (m.words pd k) { ps = false })) 1
    let e = m₁.words pd k
    let m₂ = record m₁ { words = fill_page m₁.words new.page_addr (branch_entry e) }
    done new.page_addr (store m₂ pd k (split_entry e new.page_addr))

  -- The 2 MB page of pd[k], duplicated into a new huge page.
  unfoldable pub duplicate_huge : Memory → ℕ → ℕ → ℕ → Flags → Result WritablePage
  duplicate_huge m pd k addr verify = do
    let e = m.words pd k
    (source, m₁) ← page_at m e.addr
    (new, m₂) ← allocate host m₁ 512
    let e' = duplicated_entry e new.page_addr
    let m₃ = store m₂ pd k e'
    let m₄ =
        if e.dirty
        then record m₃ { words = fill_huge m₃.words new.page_addr (λ p j. m₃.words (source + p) j) }
        else if new.dirty
        then record m₃ { words = fill_huge m₃.words new.page_addr (λ p j. zero_entry) }
        else m₃
    (if is_flagged_page verify e'
        then done
            (record {
              page = new.page_addr + pt_index addr * 4096;
              table = pd;
              index = k;
              page_size = 2 ^ 21;
            })
            (if e'.user then record_cow_leaf_user_page m₄ addr else m₄)
        else throws not_writable m₃)

  -- A 2 MB page that is no longer copy-on-write.
  unfoldable pub huge_page : Memory → ℕ → ℕ → ℕ → ℕ → Flags → Result WritablePage
  huge_page m pd k frame addr verify =
      if is_flagged_page verify (m.words pd k)
      then (do
        (page, m₁) ← page_at m frame
        done
            (record {
              page = page + pt_index addr * 4096;
              table = pd;
              index = k;
              page_size = 2 ^ 21;
            })
            m₁)
      else throws not_writable m

  -- The page of a 4 kB entry, if it is copy-on-write, is made writable by one of five ways.
  unfoldable pub copy_leaf : Memory → ℕ → ℕ → ℕ → WritablePageOptions → Result ℕ
  copy_leaf m pt i source options =
      let e = m.words pt i in
      if m.forkable_master && m.main_memory_writes
      then (do
        (_, m₁) ← increment_unlocked_pages (store m pt i (unlock_identity_mapped_entry e)) 1
        done source m₁)
      else if options.allow_dirty
      then unsafe_update_entry m pt i true
      else if options.zeroes || not e.dirty
      then zero_and_update_entry m pt i true
      else if e.present
      then clone_and_update_entry m pt i source true
      else (do
        (target, m₁) ← page_at m e.addr
        done source (
            store (page_duplicate m₁ target source) pt i
              (record e { cloneable = false; rw = true; present = true })))

  unfoldable pub leaf : Memory → ℕ → ℕ → ℕ → ℕ → Flags → WritablePageOptions → Result WritablePage
  leaf m pt i base addr verify options =
      let e = m.words pt i in
      if e.present || e.cloneable
      then (do
        (source, m₁) ← page_at m (if e.present then e.addr else base)
        (page, m₂) ←
            (if is_copy_on_write e
              then (do
                (page, m₃) ← copy_leaf m₁ pt i source options
                done page (if (m₃.words pt i).user then record_cow_leaf_user_page m₃ addr else m₃))
              else done source m₁)
        (if is_flagged_page verify (m₂.words pt i)
            then done (record { page = page; table = pt; index = i; page_size = 4096 }) m₂
            else throws not_writable m₂))
      else throws entry_not_present m

  -- What follows the label entry_is_no_longer_copy_on_write.
  unfoldable pub after_directory :
      Memory → ℕ → ℕ → ℕ → ℕ → ℕ → Flags → WritablePageOptions → Result WritablePage
  after_directory m pd k pt frame addr verify options =
      if (m.words pd k).ps
      then huge_page m pd k frame addr verify
      else leaf m pt (pt_index addr) (addr % 2 ^ 48 / 4096 * 4096) addr verify options

  -- The PD level.
  unfoldable pub directory : Memory → ℕ → ℕ → Flags → WritablePageOptions → Result WritablePage
  directory m pd addr verify options =
      let k = pd_index addr in
      let e = m.words pd k in
      if e.present || e.cloneable
      then (do
        (pt, m₁) ← page_at m (if e.present then e.addr else addr % 2 ^ 48 / 2 ^ 21 * 2 ^ 21)
        (if is_copy_on_write e
            then (if m₁.main_memory_writes
                then (let m₂ = store m₁ pd k (unlock_identity_mapped_entry e) in
                    if e.ps
                    then (do
                      (_, m₃) ← increment_unlocked_pages m₂ 512
                      after_directory m₃ pd k pt e.addr addr verify options)
                    else after_directory m₂ pd k pt e.addr addr verify options)
                else if m₁.split_hugepages && e.ps
                then (do
                  (pt', m₂) ← split_huge m₁ pd k
                  (pt'', m₃) ← clone_and_update_entry m₂ pd k pt' true
                  after_directory m₃ pd k pt'' e.addr addr verify options)
                else if e.ps
                then duplicate_huge m₁ pd k addr verify
                else (do
                  (pt', m₂) ← clone_and_update_entry m₁ pd k pt true
                  after_directory m₂ pd k pt' e.addr addr verify options))
            else after_directory m₁ pd k pt e.addr addr verify options))
      else throws table_not_present m

  unfoldable pub writable_page_at : Memory → ℕ → Flags → WritablePageOptions → Result WritablePage
  writable_page_at m addr verify options = do
    (pml4, m₀) ← page_at m m.page_tables
    let e₁ = m₀.words pml4 (pml4_index addr)
    (if e₁.present
        then (do
          (pdpt, m₁) ← open_table m₀ pml4 (pml4_index addr) (pdpt_address e₁)
          let e₂ = m₁.words pdpt (pdpt_index addr)
          (if e₂.present
              then (do
                (pd, m₂) ← open_table m₁ pdpt (pdpt_index addr) e₂.addr
                let cloned = is_copy_on_write e₂ && not m₁.main_memory_writes
                let m₃ = if cloned then record m₂ { remote_must_update_gigapages = true } else m₂
                directory m₃ pd addr verify options)
              else throws directory_not_present m₁))
        else throws pml4_not_present m₀)
