-- ===== src/Paging/Memory.antt =====
-- The memory that the page tables live in: vMemory as lib/tinykvm/amd64/paging.cpp uses it. A page is
-- named by its guest-physical address, and holds 512 words. The VM has no remote VM.
use tinykvm.Prelude.{
  ℕ, ◌+◌, ◌-◌, Bool, false, ◌&&◌, ◌||◌, List, [], ◌∷◌, done, throws, ltb, leb, ◌==◌, if◌then◌else◌,
  u64, add64,
}
use tinykvm.Prelude.Outcome.{Outcome}
use tinykvm.MemoryBanks.{HostMemory, MemoryBank, MemoryBanks, Page, BankError, within, new_pages}
use tinykvm.Paging.Entry.{Entry, zero_entry}

-- An element of mmap_ranges; what it is a view of does not matter here.
pub record VirtualMem : Type 0 where
  pub physbase : ℕ
  pub size : ℕ

pub record Memory : Type 0 where
  pub words : ℕ → ℕ → Entry
  pub banks : MemoryBanks
  pub physbase : ℕ
  pub size : ℕ
  pub mmap_ranges : List VirtualMem
  pub page_tables : ℕ
  pub unlocked_pages : ℕ
  pub cow_written_pages : List ℕ
  pub main_memory_writes : Bool
  pub split_hugepages : Bool
  pub forkable_master : Bool
  pub forked : Bool
  pub remote_must_update_gigapages : Bool

pub data PagingError : Type 0 where
  invalid_region : ℕ → PagingError
  pml4_not_present directory_not_present table_not_present entry_not_present : PagingError
  not_readable not_writable unlocked_without_writes out_of_unlocked assertion : PagingError
  bank_error : BankError → PagingError

abbrev pub Result : Type 0 → Type 0
Result A = Outcome PagingError Memory A

unfoldable pub any_bank : List MemoryBank → ℕ → ℕ → Bool
any_bank [] addr n = false
any_bank (b ∷ bs) addr n = within b addr n || any_bank bs addr n

unfoldable pub any_range : List VirtualMem → ℕ → Bool
any_range [] addr = false
any_range (r ∷ rs) addr =
    (leb r.physbase addr && ltb addr (add64 r.physbase r.size)) || any_range rs addr

-- vMemory::within.
abbrev pub main_within : Memory → ℕ → ℕ → Bool
main_within m addr n =
    leb m.physbase addr && leb (add64 addr n) (add64 m.physbase m.size) && leb addr (add64 addr n)

-- vMemory::page_at: which addresses have a page at all.
unfoldable pub has_page : Memory → ℕ → Bool
unfolding any_bank any_range
has_page m addr =
    main_within m addr 4096 || any_bank m.banks.m_mem addr 4096 || any_range m.mmap_ranges addr

unfoldable pub page_at : Memory → ℕ → Result ℕ
page_at m addr = if has_page m addr then done addr m else throws (invalid_region addr) m

abbrev pub update : (ℕ → ℕ → Entry) → ℕ → ℕ → Entry → ℕ → ℕ → Entry
update w page i e p j = if (p == page) && (j == i) then e else w p j

-- table[i] = e
abbrev pub store : Memory → ℕ → ℕ → Entry → Memory
store m table i e = record m { words = update m.words table i e }

-- page_duplicate, page_memzero, and a page filled entry by entry.
abbrev pub fill_page : (ℕ → ℕ → Entry) → ℕ → (ℕ → Entry) → ℕ → ℕ → Entry
fill_page w page f p j = if p == page then f j else w p j

abbrev pub page_duplicate : Memory → ℕ → ℕ → Memory
page_duplicate m dest source = record m { words = fill_page m.words dest (m.words source) }

abbrev pub page_memzero : Memory → ℕ → Memory
page_memzero m dest = record m { words = fill_page m.words dest (λ j. zero_entry) }

-- The loops that duplicate or zero the 512 pages of a huge page.
abbrev pub fill_huge : (ℕ → ℕ → Entry) → ℕ → (ℕ → ℕ → Entry) → ℕ → ℕ → Entry
fill_huge w dest f p j = if leb dest p && ltb p (dest + 0x200000) then f (p - dest) j else w p j

-- vMemory::record_cow_leaf_user_page: the list stays sorted (std::lower_bound).
unfoldable pub insert_sorted : ℕ → List ℕ → List ℕ
insert_sorted a [] = a ∷ []
insert_sorted a (b ∷ bs) = let rest = insert_sorted a bs in if ltb b a then b ∷ rest else a ∷ b ∷ bs

unfoldable pub record_cow_leaf_user_page : Memory → ℕ → Memory
unfolding insert_sorted
record_cow_leaf_user_page m addr =
    if m.forked then record m { cow_written_pages = insert_sorted addr m.cow_written_pages } else m

unfoldable pub increment_unlocked_pages : Memory → ℕ → Result (Unit {0})
increment_unlocked_pages m pages =
    let m' = record m { unlocked_pages = u64 (m.unlocked_pages + pages) } in
    if m.main_memory_writes
    then (if ltb m.banks.max_pages m'.unlocked_pages then throws out_of_unlocked m' else done tt m')
    else throws unlocked_without_writes m

-- vMemory::new_page and new_hugepage, for a host.
unfoldable pub allocate : HostMemory → Memory → ℕ → Result Page
allocate host m pages = elim (new_pages host m.banks pages) [
  | done page banks ↦ done page (record m { banks = banks })
  | throws e banks ↦ throws (bank_error e) (record m { banks = banks })
]
