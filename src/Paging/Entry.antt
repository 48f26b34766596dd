-- ===== src/Paging/Entry.antt =====
-- A 64-bit word of a page table, and the flag operations of lib/tinykvm/amd64/paging.cpp. A word is
-- written as its fields: the bits 0 to 11 and 63 as flags (PDE64_CLONEABLE is bit 11), and the rest,
-- `word & PDE64_ADDR_MASK`, as an address. Data pages hold such words too.
use Prim.Native.Nat.{bit_or}
use tinykvm.Prelude.{ℕ, ◌+◌, ◌*◌, ◌^◌, Bool, true, false, not, ◌&&◌, ◌||◌, if◌then◌else◌}

pub record Entry : Type 0 where
  pub addr : ℕ
  pub present : Bool
  pub rw : Bool
  pub user : Bool
  pub write_through : Bool
  pub cache_disable : Bool
  pub accessed : Bool
  pub dirty : Bool
  pub ps : Bool
  pub global : Bool
  pub bit_9 : Bool
  pub bit_10 : Bool
  pub cloneable : Bool
  pub nx : Bool

-- The word 0.
abbrev pub zero_entry : Entry
zero_entry = record {
  addr = 0;
  present = false;
  rw = false;
  user = false;
  write_through = false;
  cache_disable = false;
  accessed = false;
  dirty = false;
  ps = false;
  global = false;
  bit_9 = false;
  bit_10 = false;
  cloneable = false;
  nx = false;
}

-- A set of flags to test for: those of PRESENT, RW, USER and NX that the callers ask for.
pub record Flags : Type 0 where
  pub wants_present : Bool
  pub wants_rw : Bool
  pub wants_user : Bool
  pub wants_nx : Bool

-- (entry & flags) == flags.
abbrev pub is_flagged_page : Flags → Entry → Bool
is_flagged_page f e =
    (not f.wants_present || e.present)
    && (not f.wants_rw || e.rw)
    && (not f.wants_user || e.user)
    && (not f.wants_nx || e.nx)

abbrev pub is_copy_on_write : Entry → Bool
is_copy_on_write e = e.cloneable && not e.rw

-- The address in a PML4 entry, which is not masked with PDE64_ADDR_MASK: the bit 63 stays.
abbrev pub pdpt_address : Entry → ℕ
pdpt_address e = e.addr + (if e.nx then 2 ^ 63 else 0)

abbrev pub unlock_identity_mapped_entry : Entry → Entry
unlock_identity_mapped_entry e = record e {
  cloneable = false;
  global = false;
  rw = true;
  present = true;
}

-- page.addr | (entry & PDE64_CLONED_MASK) | flags, for the flags RW or RW | PRESENT.
abbrev pub cloned_entry : Entry → ℕ → Bool → Entry
cloned_entry e page with_present = record e {
  addr = page;
  cloneable = false;
  global = false;
  rw = true;
  present = e.present || with_present;
}

-- `entry & PDE64_PD_SPLIT_MASK`: the flags but RW, CLONEABLE and G.
abbrev pub split_flags : Entry → Entry
split_flags e = record e { addr = 0; rw = false; cloneable = false; global = false }

-- One of the 512 entries that a split 2 MB page becomes.
abbrev pub branch_entry : Entry → ℕ → Entry
branch_entry e i = record (split_flags e) {
  addr = bit_or e.addr (i * 4096);
  ps = false;
  cloneable = true;
  global = true;
  present = true;
}

-- The 2 MB entry after the split: it points to the page table at `page`.
abbrev pub split_entry : Entry → ℕ → Entry
split_entry e page = record (split_flags e) { addr = page; ps = false; rw = true; present = true }

-- The 2 MB entry after its memory was duplicated to `page`: writable, and no longer dirty.
abbrev pub duplicated_entry : Entry → ℕ → Entry
duplicated_entry e page = record (split_flags e) {
  addr = page;
  dirty = false;
  rw = true;
  present = true;
}

-- WritablePage::set_dirty.
abbrev pub set_dirty : Entry → Entry
set_dirty e = record e { dirty = true }
