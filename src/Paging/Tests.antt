-- ===== src/Paging/Tests.antt =====
-- Requests of writable pages at a small fork, and the theorems at concrete inputs.
use tinykvm.Prelude.{
  ℕ, ◌≡◌, ◌≢◌, refl, inr, Bool, true, false, ◌&&◌, if◌then◌else◌, [], ◌∷◌, arith, ◌==◌, done,
  throws,
}
use tinykvm.Prelude.Outcome.{Outcome}
use tinykvm.MemoryBanks.{
  HostMemory, MemoryBanks, new_pages, get_available_bank, find_room, room_for, get_next_page,
}
use tinykvm.MemoryBanks.Invariant
use tinykvm.Paging.Entry.{Entry, Flags, zero_entry}
use tinykvm.Paging.Memory.{
  Memory, PagingError, page_at, has_page, any_bank, any_range, allocate, record_cow_leaf_user_page,
  insert_sorted,
}
use tinykvm.Paging.Leaf.{Copies, IsZeroed, copy_leaf-Copies}
use tinykvm.Paging.Fork.{IsFork}
use tinykvm.Paging.IsolatedLeaf.{Isolates}
use tinykvm.Paging.IsolatedWalk.{writable_page_at-Isolates}
use tinykvm.Paging.Writable.{
  WritablePage, WritablePageOptions, clone_and_update_entry, open_table, directory, after_directory,
  leaf, copy_leaf, writable_page_at,
}

abbrev host : HostMemory
host = record { mmap = λ n h. 0x10000; installs = λ slots slot. true }

host_never_null : (n : ℕ) (h : Bool) → host.mmap n h ≢ 0
host_never_null n h e = absurd (omega arith)

abbrev fork_banks : MemoryBanks
fork_banks = record {
  m_mem =
      record {
        mem = 0x10000;
        addr = 0x7000000000;
        n_used = 3;
        n_dirty = 3;
        n_pages = 2048;
        idx = 2;
      }
      ∷ [];
  arena_begin = 0x7000000000;
  arena_next = 0x7000800000;
  next_idx = 3;
  hugepage_pages = 0;
  num_pages = 2048;
  max_pages = 2048;
  capacity = 2;
  slots = [];
}

fork_banks-IsValid : Invariant.IsValid fork_banks
fork_banks-IsValid = record {
  banks = omega arith;
  chain = (refl, refl);
  aligned = refl;
  counted = refl;
  huge = refl;
  reserved = omega arith;
  reserves = omega arith;
  large = omega arith;
  small = omega arith;
}

-- A dirty copy-on-write entry of a user page.
abbrev shared : ℕ → Entry
shared a = record zero_entry {
  addr = a;
  present = true;
  user = true;
  dirty = true;
  cloneable = true;
}

-- The PML4 is the fork's own; the tables at 0x2000, 0x3000 and 0x4000 are the master's.
abbrev fork_words : ℕ → ℕ → Entry
fork_words p j =
    if (p == 0x7000000000) && (j == 0)
    then shared 0x2000
    else if (p == 0x2000) && (j == 0)
    then shared 0x3000
    else if (p == 0x3000) && (j == 1)
    then shared 0x4000
    else if (p == 0x4000) && (j == 2)
    then shared 0x9000
    else if p == 0x9000
    then shared 0x5000
    else zero_entry

abbrev fork_level : ℕ → ℕ
fork_level p =
    if p == 0x7000000000
    then 4
    else if p == 0x2000
    then 3
    else if p == 0x3000
    then 2
    else if p == 0x4000
    then 1
    else 0

abbrev fork : Memory
fork = record {
  words = fork_words;
  banks = fork_banks;
  physbase = 0;
  size = 0x10000;
  mmap_ranges = [];
  page_tables = 0x7000000000;
  unlocked_pages = 0;
  cow_written_pages = [];
  main_memory_writes = false;
  split_hugepages = true;
  forkable_master = false;
  forked = true;
  remote_must_update_gigapages = false;
}

fork-IsFork : IsFork fork fork_level
fork-IsFork = record {
  banks = fork_banks-IsValid;
  slave = refl;
  rooted = (refl, omega arith);
  held = λ p l. ground arith;
  good = λ p j l. record {
    private = λ a b. ground arith;
    mapped = λ a. ground arith;
    linked = λ a b c. ground arith;
    root = λ a. ground arith;
  };
}

fork-IsZeroed : IsZeroed fork
fork-IsZeroed p j above unused = ground arith

abbrev wants_write : Flags
wants_write = record { wants_present = true; wants_rw = true; wants_user = true; wants_nx = false }

abbrev defaults : WritablePageOptions
defaults = record { zeroes = false; allow_dirty = false }

writable_page_at-Isolates_example :
    Isolates fork (writable_page_at host fork 0x202000 wants_write defaults)
writable_page_at-Isolates_example =
    writable_page_at-Isolates host host_never_null 0x202000 wants_write defaults refl fork
      fork_level fork-IsFork

copy_leaf-Copies_example :
    Copies fork 0x4000 2 0x9000 defaults (copy_leaf host fork 0x4000 2 0x9000 defaults)
copy_leaf-Copies_example =
    copy_leaf-Copies host host_never_null fork 0x4000 2 0x9000 defaults fork_banks-IsValid
      (inr (omega arith)) (inr (omega arith)) (λ e. absurd (omega arith)) refl refl fork-IsZeroed

abbrev returned : Outcome PagingError Memory WritablePage → ℕ
returned (done w m) = w.page
returned (throws e m) = 0

-- The PDPT, the page directory and the page table are cloned, then the page.
fork_write : returned (writable_page_at host fork 0x202000 wants_write defaults) ≡ 0x7000006000
unfolding writable_page_at page_at has_page any_bank any_range open_table clone_and_update_entry
    directory after_directory leaf copy_leaf record_cow_leaf_user_page insert_sorted allocate
    new_pages get_available_bank find_room room_for get_next_page
fork_write = refl
