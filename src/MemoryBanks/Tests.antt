-- ===== src/MemoryBanks/Tests.antt =====
-- Runs of the memory banks, and the theorems at concrete inputs.
use tinykvm.Prelude.{
  ℕ, ◌%◌, ◌≤◌, ◌≡◌, ◌≢◌, refl, Bool, false, [], ◌∷◌, arith, done, length, ◌==◌, state_of,
}
use tinykvm.MemoryBanks.{
  HostMemory, MemoryBanks, grow_banks, allocate_new_bank, using_hugepages, room_for, find_room,
  get_next_page, add_bank, try_alloc, get_available_bank, new_pages, map_failed, reset,
}
use tinykvm.MemoryBanks.Arena.{in_use}
use tinykvm.MemoryBanks.Invariant.{IsValid}
use tinykvm.MemoryBanks.Allocate.{Hands, new_pages-Hands}
use tinykvm.MemoryBanks.Run.{
  reset-IsValid, run, run_banks-IsValid, page, huge_page, reset_to, AllowsAll, step, is_refused,
}

-- A host that maps everything at one address.
abbrev host : HostMemory
host = record { mmap = λ n h. 0x10000; installs = λ slots slot. slot.ptr % 4096 == 0 }

host_never_null : (n : ℕ) (h : Bool) → host.mmap n h ≢ 0
host_never_null n h e = absurd (omega arith)

-- One bank, of which three pages are in use, and no room for another bank.
abbrev one_bank : MemoryBanks
one_bank = record {
  m_mem =
      record {
        mem = 0x10000;
        addr = 0x7000000000;
        n_used = 3;
        n_dirty = 3;
        n_pages = 2048;
        idx = 2;
      }
      ∷ [];
  arena_begin = 0x7000000000;
  arena_next = 0x7000800000;
  next_idx = 3;
  hugepage_pages = 0;
  num_pages = 2048;
  max_pages = 2048;
  capacity = 2;
  slots = [];
}

one_bank-IsValid : IsValid one_bank
one_bank-IsValid = record {
  banks = omega arith;
  chain = (refl, refl);
  aligned = refl;
  counted = refl;
  huge = refl;
  reserved = omega arith;
  reserves = omega arith;
  large = omega arith;
  small = omega arith;
}

fourth_page :
    new_pages host one_bank 1
    ≡ done
        (record { pmem = 0x13000; page_addr = 0x7000003000; size = 4096; dirty = false })
        (record one_bank {
          m_mem =
              record {
                mem = 0x10000;
                addr = 0x7000000000;
                n_used = 4;
                n_dirty = 4;
                n_pages = 2048;
                idx = 2;
              }
              ∷ [];
        })
unfolding new_pages get_available_bank find_room room_for get_next_page
fourth_page = refl

-- A host that has no memory left.
abbrev full_host : HostMemory
full_host = record { mmap = λ n h. map_failed; installs = λ slots slot. slot.ptr % 4096 == 0 }

-- A failed mmap() is MAP_FAILED, not null: the bank is made all the same, and stays when
-- install_memory() throws, where the arena does not grow.
failure_unseen :
    let s = state_of (grow_banks full_host one_bank) in
    (length s.m_mem ≡ 2) × (s.arena_next ≡ one_bank.arena_next) × (s.num_pages ≡ 2048)
unfolding grow_banks allocate_new_bank add_bank try_alloc using_hugepages
failure_unseen = (refl, refl, refl)

new_pages-Hands_example : Hands host one_bank 512 (new_pages host one_bank 512)
new_pages-Hands_example =
    new_pages-Hands host host_never_null one_bank 512 one_bank-IsValid (omega arith) (omega arith)

reset-IsValid_example :
    IsValid (reset one_bank 0x400000) × ((x : ℕ) → in_use (reset one_bank 0x400000).m_mem x ≡ 0)
reset-IsValid_example = reset-IsValid one_bank 0x400000 one_bank-IsValid (omega arith)

run_banks-IsValid_example :
    IsValid (run host one_bank (reset_to 0x1000 ∷ huge_page ∷ page ∷ []))
    × (length (run host one_bank (reset_to 0x1000 ∷ huge_page ∷ page ∷ [])).m_mem
        ≤ (run host one_bank (reset_to 0x1000 ∷ huge_page ∷ page ∷ [])).capacity)
unfolding AllowsAll step is_refused reset new_pages get_available_bank find_room room_for
    get_next_page
run_banks-IsValid_example =
    run_banks-IsValid host host_never_null one_bank (reset_to 0x1000 ∷ huge_page ∷ page ∷ [])
      one_bank-IsValid (omega arith, (refl, (refl, tt)))
