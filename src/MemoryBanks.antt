-- ===== src/MemoryBanks.antt =====
-- lib/tinykvm/memory_bank.hpp and memory_bank.cpp: the working memory of a VM, in banks of pages
-- that are handed out in order. The host's mmap() and KVM's answer to install_memory() are
-- parameters, and a bank's `mem` is a host address. `m_mem` is a list, a reference to a bank is its
-- index, and `slots` is what install_memory() has installed.
pub mod Arena
pub mod Invariant
pub mod Allocate
pub mod Run
pub mod Tests
use tinykvm.Prelude.{
  ℕ, suc, ◌+◌, ◌-◌, ◌*◌, ◌/◌, ◌%◌, ◌^◌, max, Bool, true, false, not, ◌&&◌, ◌||◌, Option, none, some,
  List, [], ◌∷◌, ◌++◌, map, done, throws, ◌>>=◌, ltb, leb, ◌==◌, if◌then◌else◌, length, get_elem?,
  set, u16, u32, page_size,
}
use tinykvm.Prelude.Outcome.{Outcome}

pub record MemoryBank : Type 0 where
  pub mem : ℕ
  pub addr : ℕ
  pub n_used : ℕ
  pub n_dirty : ℕ
  pub n_pages : ℕ
  pub idx : ℕ

-- A memory region that the machine has installed.
pub record Slot : Type 0 where
  pub slot_idx : ℕ
  pub physbase : ℕ
  pub ptr : ℕ
  pub region_size : ℕ

pub record MemoryBanks : Type 0 where
  pub m_mem : List MemoryBank
  pub arena_begin : ℕ
  pub arena_next : ℕ
  pub next_idx : ℕ
  pub hugepage_pages : ℕ
  pub num_pages : ℕ
  pub max_pages : ℕ
  pub capacity : ℕ
  pub slots : List Slot

pub record Page : Type 0 where
  pub pmem : ℕ
  pub page_addr : ℕ
  pub size : ℕ
  pub dirty : Bool

pub data BankError : Type 0 where
  already_allocated hugepages_not_multiple allocation_failed out_of_memory not_installed
        assertion_failed :
      BankError

abbrev pub n_pages_per_bank : ℕ
n_pages_per_bank = 2048

abbrev pub n_hugepages : ℕ
n_hugepages = 512

abbrev pub first_bank_idx : ℕ
first_bank_idx = 2

abbrev pub arena_base_address : ℕ
arena_base_address = 0x7000000000

-- MAP_FAILED, (void *) -1.
abbrev pub map_failed : ℕ
map_failed = 2 ^ 64 - 1

abbrev pub bank_size : MemoryBank → ℕ
bank_size b = b.n_pages * 4096

abbrev pub within : MemoryBank → ℕ → ℕ → Bool
within b a s =
    leb b.addr a
    && leb ((a + s) % 2 ^ 64) ((b.addr + bank_size b) % 2 ^ 64)
    && leb a ((a + s) % 2 ^ 64)

unfoldable pub room_for : MemoryBank → ℕ → Bool
room_for b pages =
    if (pages == n_hugepages) && not (b.n_used % n_hugepages == 0)
    then false
    else leb (b.n_used + pages) b.n_pages

-- MemoryBank::get_next_page; `none` is the failed assertion.
unfoldable pub get_next_page : MemoryBank → ℕ → Option (Page × MemoryBank)
get_next_page b pages =
    if leb (b.n_used + pages) b.n_pages
    then some (
      record {
        pmem = b.mem + page_size * b.n_used;
        page_addr = b.addr + page_size * b.n_used;
        size = pages * page_size;
        dirty = ltb b.n_used b.n_dirty;
      },
      record b { n_used = b.n_used + pages; n_dirty = max (b.n_used + pages) b.n_dirty },
    )
    else none

unfoldable pub using_hugepages : MemoryBanks → Bool
using_hugepages s = ltb 0 s.hugepage_pages

unfoldable pub set_max_pages : MemoryBanks → ℕ → ℕ → Outcome BankError MemoryBanks (Unit {0})
set_max_pages s new_max new_hugepages =
    let s' = record s { max_pages = u32 new_max; hugepage_pages = u32 new_hugepages } in
    let banks = u32 (s'.max_pages + n_pages_per_bank - 1) / n_pages_per_bank in
    let room = banks + 1 + (if ltb 0 s'.hugepage_pages then 1 else 0) in
    if s'.hugepage_pages % n_hugepages == 0
    then done tt (record s' { capacity = max s.capacity room })
    else throws hugepages_not_multiple s'

-- The constructor, from the four options that it reads.
unfoldable pub new_banks : ℕ → ℕ → ℕ → ℕ → Outcome BankError MemoryBanks (Unit {0})
new_banks vmem_base_address dylink_address_hint max_cow_mem hugepages_arena_size =
    let high = not (vmem_base_address == 0) || leb 0x1000000000 dylink_address_hint in
    let begin = if high then arena_base_address + 0x800000000 else arena_base_address in
    let s : MemoryBanks = record {
      m_mem = [];
      arena_begin = begin;
      arena_next = begin;
      next_idx = first_bank_idx;
      hugepage_pages = 0;
      num_pages = 0;
      max_pages = 0;
      capacity = 0;
      slots = [];
    } in
    set_max_pages s (max_cow_mem / page_size) (hugepages_arena_size / page_size)

unfoldable pub init_from : MemoryBanks → MemoryBanks → Outcome BankError MemoryBanks (Unit {0})
init_from s other =
    let s' = record s { arena_begin = other.arena_begin; arena_next = other.arena_next } in
    elim s.m_mem [ [] ↦ done tt s' | b ∷ bs ↦ throws already_allocated s' ]

unfoldable pub find_room : List MemoryBank → ℕ → Option ℕ
find_room [] pages = none
find_room (b ∷ bs) pages =
    let rest = find_room bs pages in
    if room_for b pages then some 0 else elim rest [ none ↦ none | some i ↦ some (suc i) ]

-- The loop that skips the rest of a started huge page.
unfoldable pub find_fragmented : List MemoryBank → ℕ → Option (ℕ × List MemoryBank)
find_fragmented [] pages = none
find_fragmented (b ∷ bs) pages =
    let rest = find_fragmented bs pages in
    let n_used = (b.n_used + n_hugepages - 1) / n_hugepages * n_hugepages in
    if leb (n_used + pages) b.n_pages
    then some (0, record b { n_used = n_used } ∷ bs)
    else elim rest [ none ↦ none | some (i, bs') ↦ some (suc i, b ∷ bs') ]

unfoldable pub last_resort : MemoryBanks → ℕ → Outcome BankError MemoryBanks ℕ
last_resort s pages =
    if pages == n_hugepages
    then elim (find_fragmented s.m_mem pages) [
      | none ↦ throws out_of_memory s
      | some (i, bs) ↦ done i (record s { m_mem = bs })
    ]
    else throws out_of_memory s

-- m_mem.emplace_back(...) and m_idx++.
abbrev pub push_bank : MemoryBanks → ℕ → ℕ → ℕ → MemoryBanks
push_bank s mem addr pages = record s {
  m_mem =
      s.m_mem
      ++ record {
        mem = mem;
        addr = addr;
        n_used = 0;
        n_dirty = 0;
        n_pages = pages;
        idx = s.next_idx;
      }
        ∷ [];
  next_idx = u16 (s.next_idx + 1);
}

-- The region of a new bank.
abbrev pub bank_slot : MemoryBanks → ℕ → ℕ → ℕ → Slot
bank_slot s mem addr pages = record {
  slot_idx = s.next_idx;
  physbase = addr;
  ptr = mem;
  region_size = pages * page_size;
}

-- The host: `mmap size huge` is what mmap() returns, with or without MAP_HUGETLB, and `installs` is
-- whether KVM accepts a region beside those that it has.
pub record HostMemory : Type 0 where
  pub mmap : ℕ → Bool → ℕ
  pub installs : List Slot → Slot → Bool

module _ (host : HostMemory) where
  -- The new bank behind the others; the result is its index. Where KVM refuses its region,
  -- install_memory() throws, and the bank stays.
  unfoldable pub add_bank : MemoryBanks → ℕ → ℕ → ℕ → Outcome BankError MemoryBanks ℕ
  add_bank s mem addr pages =
      let slot = bank_slot s mem addr pages in
      if host.installs s.slots slot
      then done (length s.m_mem) (record (push_bank s mem addr pages) { slots = slot ∷ s.slots })
      else throws not_installed (push_bank s mem addr pages)

  unfoldable pub try_alloc : ℕ → Bool → ℕ
  try_alloc n try_hugepages =
      let ptr : ℕ =
        if try_hugepages && (n == 512) then host.mmap (n * page_size) true else map_failed in
      if ptr == map_failed then host.mmap (n * page_size) false else ptr

  unfoldable pub allocate_new_bank : MemoryBanks → ℕ → ℕ → Outcome BankError MemoryBanks ℕ
  allocate_new_bank s addr pages =
      let try_hugepages = (length s.m_mem == 0) && using_hugepages s in
      let wanted : ℕ = if try_hugepages then s.hugepage_pages else pages in
      let mem = try_alloc wanted try_hugepages in
      let again = try_alloc 16 false in
      let few = record s { hugepage_pages = 0 } in
      if mem == 0
      then (if again == 0 then throws allocation_failed few else add_bank few again addr 16)
      else add_bank s mem addr wanted

  unfoldable pub grow_banks : MemoryBanks → Outcome BankError MemoryBanks ℕ
  grow_banks s = do
    (i, s') ← allocate_new_bank s s.arena_next n_pages_per_bank
    elim (get_elem? s'.m_mem i) [
      | none ↦ throws assertion_failed s'
      | some b ↦ done i (record s' {
        num_pages = u32 (s'.num_pages + b.n_pages);
        arena_next = s'.arena_next + bank_size b;
      })
    ]

  unfoldable pub get_available_bank : MemoryBanks → ℕ → Outcome BankError MemoryBanks ℕ
  get_available_bank s pages = elim (find_room s.m_mem pages) [
    | some i ↦ done i s
    | none ↦ if ltb s.num_pages s.max_pages then grow_banks s else last_resort s pages
  ]

  -- vMemory::new_page (1) and vMemory::new_hugepage (512).
  unfoldable pub new_pages : MemoryBanks → ℕ → Outcome BankError MemoryBanks Page
  new_pages s pages = do
    (i, s') ← get_available_bank s pages
    elim (get_elem? s'.m_mem i) [
      | none ↦ throws assertion_failed s'
      | some b ↦ elim (get_next_page b pages) [
        | none ↦ throws assertion_failed s'
        | some (page, b') ↦ done page (record s' { m_mem = set s'.m_mem i b' })
      ]
    ]

-- The bank with all of its pages unused and clean.
abbrev pub clean : MemoryBank → MemoryBank
clean b = record b { n_used = 0; n_dirty = 0 }

-- Every bank's memory is given back to the host, and its pages count as unused and clean.
unfoldable pub reset : MemoryBanks → ℕ → MemoryBanks
reset s max_cow_mem = record s {
  max_pages = u32 (max_cow_mem / page_size);
  m_mem = map clean s.m_mem;
}
