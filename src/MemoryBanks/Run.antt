-- ===== src/MemoryBanks/Run.antt =====
-- The life of the memory banks: construction, allocation and reset.
use mathlib.Core.List.{map}
use tinykvm.Prelude.{
  ℕ, ◌+◌, ◌/◌, ◌%◌, ◌^◌, ◌≤◌, ◌<◌, ◌≡◌, ◌≢◌, inl, inr, refl, sym, ap, ◌∙◌, Bool, true, false, List,
  [], ◌∷◌, arith, ◌==◌, All, length, done, throws, state_of,
}
use tinykvm.Prelude.Outcome.{Outcome}
use tinykvm.MemoryBanks.{
  HostMemory, MemoryBank, MemoryBanks, Page, BankError, bank_size, clean, reset, new_banks,
  set_max_pages, new_pages, not_installed,
}
use tinykvm.MemoryBanks.Arena.{IsBank, Chain, in_use, total_pages}
use tinykvm.MemoryBanks.Invariant.{IsValid}
use tinykvm.MemoryBanks.Allocate.{Hands, new_pages-Hands}

map-clean : (bs : List MemoryBank) → All IsBank bs → All IsBank (map clean bs)
map-clean [] w = tt
map-clean (b ∷ bs) w =
    (record { used = omega arith; clean = omega arith; whole = w.0.whole }, map-clean bs w.1)

Chain-map : (a z : ℕ) (bs : List MemoryBank) → Chain a z bs → Chain a z (map clean bs)
Chain-map a z [] c = c
Chain-map a z (b ∷ bs) c = (c.0, Chain-map (a + bank_size b) z bs c.1)

total_pages-map : (bs : List MemoryBank) → total_pages (map clean bs) ≡ total_pages bs
total_pages-map [] = refl
total_pages-map (b ∷ bs) = omega (arith, total_pages-map bs)

length-map-clean : (bs : List MemoryBank) → length (map clean bs) ≡ length bs
length-map-clean [] = refl
length-map-clean (b ∷ bs) = omega (arith, length-map-clean bs)

in_use-map : (bs : List MemoryBank) (x : ℕ) → in_use (map clean bs) x ≡ 0
in_use-map [] x = refl
in_use-map (b ∷ bs) x = ground (arith, in_use-map bs x)

-- A reset that does not raise the limit keeps the banks valid, and leaves no page in use.
pub reset-IsValid :
    (s : MemoryBanks) (max_cow_mem : ℕ)
    → IsValid s
    → max_cow_mem / 4096 ≤ s.max_pages
    → IsValid (reset s max_cow_mem) × ((x : ℕ) → in_use (reset s max_cow_mem).m_mem x ≡ 0)
unfolding reset
reset-IsValid s max_cow_mem v le = (
  record {
    banks = map-clean s.m_mem v.banks;
    chain = Chain-map s.arena_begin s.arena_next s.m_mem v.chain;
    aligned = v.aligned;
    counted = omega (arith, v.counted, total_pages-map s.m_mem);
    huge = v.huge;
    reserved = omega (arith, v.reserved, length-map-clean s.m_mem);
    reserves = omega (arith, v.reserves, v.small, le);
    large = omega (arith, v.large, length-map-clean s.m_mem);
    small = (omega (arith, v.small, le), v.small.1, v.small.2);
  },
  λ x. in_use-map s.m_mem x,
)

abbrev Starts : Outcome BankError MemoryBanks (Unit {0}) → Type 0
Starts (done _ s) = IsValid s × (s.m_mem ≡ [])
Starts (throws e s) = ⊥

-- With whole huge pages and a limit that its counters can hold, the constructor does not throw and
-- the empty banks are valid.
pub new_banks-IsValid :
    (vmem_base dylink_hint max_cow_mem hugepages_size : ℕ)
    → max_cow_mem / 4096 < 2 ^ 31
    → hugepages_size / 4096 < 2 ^ 30
    → hugepages_size / 4096 % 512 ≡ 0
    → Starts (new_banks vmem_base dylink_hint max_cow_mem hugepages_size)
unfolding new_banks set_max_pages
new_banks-IsValid a b m h p q r = rw whole (
  record {
    banks = tt;
    chain = refl;
    aligned = ground arith;
    counted = refl;
    huge = omega (arith, r, q);
    reserved = omega arith;
    reserves = ground (arith, p);
    large = omega arith;
    small = (omega (arith, p), omega (arith, q), omega arith);
  },
  refl,
)
  where
    whole : ((h / 4096) % 2 ^ 32 % 512 == 0) ≡ true
    whole = ground (arith, r, q)

pub data Op : Type 0 where
  page huge_page : Op
  reset_to : ℕ → Op

unfoldable pub is_refused : Outcome BankError MemoryBanks Page → Bool
is_refused (throws not_installed s) = true
is_refused _ = false

module _ (host : HostMemory) where
  unfoldable pub step : MemoryBanks → Op → MemoryBanks
  step s page = state_of (new_pages host s 1)
  step s huge_page = state_of (new_pages host s 512)
  step s (reset_to max_cow_mem) = reset s max_cow_mem

  unfoldable pub run : MemoryBanks → List Op → MemoryBanks
  run s [] = s
  run s (o ∷ os) = run (step s o) os

  -- No reset raises the limit, and KVM refuses no region.
  abbrev pub Allows : MemoryBanks → Op → Type 0
  Allows s page = is_refused (new_pages host s 1) ≡ false
  Allows s huge_page = is_refused (new_pages host s 512) ≡ false
  Allows s (reset_to m) = m / 4096 ≤ s.max_pages

  unfoldable pub AllowsAll : MemoryBanks → List Op → Type 0
  AllowsAll s [] = Unit {0}
  AllowsAll s (o ∷ os) = Allows s o × AllowsAll (step s o) os

module _ (host : HostMemory) (never_null : (n : ℕ) (h : Bool) → host.mmap n h ≢ 0) where
  handed_valid :
      (s : MemoryBanks) (pages : ℕ) (o : Outcome BankError MemoryBanks Page)
      → IsValid s
      → is_refused o ≡ false
      → Hands host s pages o
      → IsValid (state_of o)
  unfolding is_refused
  handed_valid s pages (done p s') v r h = h.valid
  handed_valid s pages (throws e s') v r (inl h) = rw (h.1) v
  handed_valid s pages (throws e s') v r (inr h) =
      let same : is_refused (throws e s') ≡ true = ap (λ x. is_refused (throws x s')) h.0 in
      absurd (ground (arith, sym same ∙ r))

  -- From valid banks, over any sequence of page and huge page requests and of resets that do not
  -- raise the limit, where the host's mmap() never returns null and KVM refuses no region, the banks
  -- stay valid, and their vector never outgrows the capacity that was reserved for it.
  pub run_banks-IsValid :
      (s : MemoryBanks) (os : List Op)
      → IsValid s
      → AllowsAll host s os
      → IsValid (run host s os) × (length (run host s os).m_mem ≤ (run host s os).capacity)
  unfolding run step AllowsAll
  run_banks-IsValid s [] v l = (v, v.reserved)
  run_banks-IsValid s (page ∷ os) v l =
      run_banks-IsValid (step host s page) os
        (handed_valid s 1 _ v l.0
          (new_pages-Hands host never_null s 1 v (omega arith) (omega arith)))
        l.1
  run_banks-IsValid s (huge_page ∷ os) v l =
      run_banks-IsValid (step host s huge_page) os
        (handed_valid s 512 _ v l.0
          (new_pages-Hands host never_null s 512 v (omega arith) (omega arith)))
        l.1
  run_banks-IsValid s (reset_to m ∷ os) v l =
      run_banks-IsValid (step host s (reset_to m)) os (reset-IsValid s m v l.0).0 l.1
