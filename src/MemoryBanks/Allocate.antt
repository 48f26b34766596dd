-- ===== src/MemoryBanks/Allocate.antt =====
-- Requests of pages: get_available_bank and get_next_page of lib/tinykvm/memory_bank.cpp.
use tinykvm.Prelude.{
  ℕ, ◌+◌, ◌*◌, ◌%◌, ◌^◌, ◌≤◌, ◌<◌, ◌≡◌, ◌≢◌, ◌⊎◌, refl, inl, inr, Bool, true, false, ◌&&◌, some, [],
  ◌∷◌, arith, ltb, ◌==◌, if◌then◌else◌, length, get_elem?, set, Option-cases, Bool-cases, done,
  throws, u32, length-append,
}
use tinykvm.Prelude.Outcome.{Outcome}
use tinykvm.MemoryBanks.{
  HostMemory, MemoryBank, MemoryBanks, Page, BankError, find_room, find_fragmented, n_hugepages,
  get_next_page, try_alloc, add_bank, allocate_new_bank, grow_banks, last_resort,
  get_available_bank, new_pages, using_hugepages, out_of_memory, not_installed, push_bank,
  bank_slot,
}
use tinykvm.Prelude.{max, length-set, get_elem?-set_self, get_elem?-lt}
use tinykvm.MemoryBanks.Arena.{
  IsBank, in_use, in_use-le-one, get_elem?-inside, in_use-set, Chain-set, All-set, total_pages-set,
  Chain-append, in_use-append, total_pages-append, All-push, get_elem?-length,
}
use tinykvm.MemoryBanks.Invariant.{IsValid, Fitting, find_room-Fitting, find_fragmented_lem, skip}

-- A bank has been found; until its pages are taken only the skipped ones have gone.
record Available (s : MemoryBanks) (pages i : ℕ) (s' : MemoryBanks) : Type 0 where
  valid : IsValid s'
  bank : MemoryBank
  found : get_elem? s'.m_mem i ≡ some bank
  fitting : Fitting pages bank
  grows : (x : ℕ) → in_use s.m_mem x ≤ in_use s'.m_mem x
  same_begin : s'.arena_begin ≡ s.arena_begin

-- The pages of the next bank.
abbrev pub new_size : MemoryBanks → ℕ
new_size s = if (length s.m_mem == 0) && using_hugepages s then s.hugepage_pages else 2048

-- What mmap() gave for it.
abbrev pub new_mem : HostMemory → MemoryBanks → ℕ
new_mem host s = try_alloc host (new_size s) ((length s.m_mem == 0) && using_hugepages s)

-- Nothing has changed, or KVM has refused the region of a new bank, which stays behind the others.
abbrev pub Refuses : HostMemory → MemoryBanks → BankError → MemoryBanks → Type 0
Refuses host s e s' =
    ((e ≡ out_of_memory) × (s' ≡ s))
    ⊎ ((e ≡ not_installed)
        × (host.installs s.slots (bank_slot s (new_mem host s) s.arena_next (new_size s)) ≡ false)
        × (s' ≡ push_bank s (new_mem host s) s.arena_next (new_size s)))

abbrev Offers : HostMemory → MemoryBanks → ℕ → Outcome BankError MemoryBanks ℕ → Type 0
Offers host s pages (done i s') = Available s pages i s'
Offers host s pages (throws e s') = Refuses host s e s'

replace-IsValid :
    (s : MemoryBanks) (i : ℕ) {b : MemoryBank} (b' : MemoryBank)
    → IsValid s
    → get_elem? s.m_mem i ≡ some b
    → b'.addr ≡ b.addr
    → b'.n_pages ≡ b.n_pages
    → IsBank b'
    → IsValid (record s { m_mem = set s.m_mem i b' })
replace-IsValid s i b' v e p q w = record {
  banks = All-set IsBank s.m_mem i b' v.banks w;
  chain = Chain-set s.arena_begin s.arena_next s.m_mem i b' v.chain e p q;
  aligned = v.aligned;
  counted = omega (arith, v.counted, total_pages-set s.m_mem i b' e q);
  huge = v.huge;
  reserved = omega (arith, v.reserved, length-set s.m_mem i b');
  reserves = v.reserves;
  large = omega (arith, v.large, length-set s.m_mem i b');
  small = v.small;
}

skipped-Available :
    (s : MemoryBanks) (pages i : ℕ) (b : MemoryBank)
    → IsValid s
    → get_elem? s.m_mem i ≡ some b
    → (skip b).n_used + pages ≤ b.n_pages
    → Available s pages i (record s { m_mem = set s.m_mem i (skip b) })
skipped-Available s pages i b v e room =
    let inside = get_elem?-inside s.arena_begin s.arena_next s.m_mem i v.chain v.banks e in
    let w : IsBank b = inside.2 in
    record {
      valid = replace-IsValid s i (skip b) v e refl refl (record {
        used = omega (arith, w.used);
        clean = omega (arith, w.clean);
        whole = w.whole;
      });
      bank = skip b;
      found = get_elem?-set_self s.m_mem i (skip b) (get_elem?-lt s.m_mem i e);
      fitting = record { room = room; boundary = λ _. omega arith };
      grows = λ x. ground (arith, in_use-set s.m_mem i (skip b) x e);
      same_begin = refl;
    }

last_resort-Offers :
    (host : HostMemory) (s : MemoryBanks) (pages : ℕ)
    → IsValid s
    → Offers host s pages (last_resort s pages)
unfolding last_resort
last_resort-Offers host s pages v = elim (Bool-cases (pages == n_hugepages)) [
  | inr small ↦ rw small (inl (refl, refl))
  | inl huge ↦ elim (Option-cases (find_fragmented s.m_mem pages)) [
    | inl n ↦ rw (huge) (rw (n, last_resort) (inl (refl, refl)))
    | inr ((i, bs), e) ↦
        let (b, at, same, room) = find_fragmented_lem s.m_mem pages i bs e in
        rw (huge) (rw (e, last_resort) (rw same (skipped-Available s pages i b v at room)))
  ]
]

record NewSize (s : MemoryBanks) (n : ℕ) : Type 0 where
  enough : 512 ≤ n
  whole : n % 512 ≡ 0
  small : n < 2 ^ 30
  later : length s.m_mem ≢ 0 → 2048 ≤ n

new_size-NewSize : (s : MemoryBanks) → IsValid s → NewSize s (new_size s)
unfolding using_hugepages
new_size-NewSize s v = record {
  enough = ground (arith, v.huge);
  whole = ground (arith, v.huge);
  small = ground (arith, v.small);
  later = λ ne. ground arith;
}

-- The banks with one more.
abbrev grown : MemoryBanks → ℕ → ℕ → MemoryBanks
grown s mem n = record (push_bank s mem s.arena_next n) {
  slots = bank_slot s mem s.arena_next n ∷ s.slots;
  num_pages = u32 (s.num_pages + n);
  arena_next = s.arena_next + n * 4096;
}

-- The bank that is added.
abbrev new_bank : MemoryBanks → ℕ → ℕ → MemoryBank
new_bank s mem n = record {
  mem = mem;
  addr = s.arena_next;
  n_used = 0;
  n_dirty = 0;
  n_pages = n;
  idx = s.next_idx;
}

grown-Available :
    (s : MemoryBanks) (pages mem n : ℕ)
    → IsValid s
    → s.num_pages < s.max_pages
    → pages ≤ 512
    → NewSize s n
    → Available s pages (length s.m_mem) (grown s mem n)
grown-Available s pages mem n v more few w = record {
  valid = record {
    banks =
        All-push IsBank s.m_mem _ v.banks
          (record { used = omega arith; clean = omega arith; whole = w.whole });
    chain = Chain-append s.arena_begin s.arena_next s.m_mem _ v.chain refl;
    aligned = v.aligned;
    counted =
        ground (arith, v.counted, v.small, w.small, total_pages-append s.m_mem (new_bank s mem n));
    huge = v.huge;
    reserved = ground (arith, v.reserves, v.large, length-append s.m_mem (new_bank s mem n ∷ []));
    reserves = v.reserves;
    large =
        ground (
          arith,
          v.large,
          v.small,
          w.small,
          w.later,
          length-append s.m_mem (new_bank s mem n ∷ []),
        );
    small = (v.small.0, v.small.1, omega (arith, v.small, w.small));
  };
  bank = new_bank s mem n;
  found = get_elem?-length s.m_mem _;
  fitting = record { room = omega (arith, w.enough); boundary = λ _. refl };
  grows = λ x. omega (arith, in_use-append s.m_mem (new_bank s mem n) x);
  same_begin = refl;
}

-- Pages of the arena that were in use by nobody, clean, and for a huge page on its boundary.
pub record Handed (s : MemoryBanks) (pages : ℕ) (page : Page) (s' : MemoryBanks) : Type 0 where
  pub valid : IsValid s'
  pub sized : page.size ≡ pages * 4096
  pub clean : page.dirty ≡ false
  pub inside : (s'.arena_begin ≤ page.page_addr) × (page.page_addr + page.size ≤ s'.arena_next)
  pub boundary : (page.page_addr % 4096 ≡ 0) × (pages ≡ 512 → page.page_addr % 2 ^ 21 ≡ 0)
  pub fresh :
      (x : ℕ)
      → page.page_addr ≤ x
      → x < page.page_addr + page.size
      → (in_use s.m_mem x ≡ 0) × (in_use s'.m_mem x ≡ 1)
  pub grows : (x : ℕ) → in_use s.m_mem x ≤ in_use s'.m_mem x
  pub same_begin : s'.arena_begin ≡ s.arena_begin

abbrev pub Hands : HostMemory → MemoryBanks → ℕ → Outcome BankError MemoryBanks Page → Type 0
Hands host s pages (done page s') = Handed s pages page s'
Hands host s pages (throws e s') = Refuses host s e s'

-- The bank and the page, once the bank is found.
abbrev taken : MemoryBank → ℕ → MemoryBank
taken b pages = record b { n_used = b.n_used + pages; n_dirty = max (b.n_used + pages) b.n_dirty }

abbrev page_of : MemoryBank → ℕ → Page
page_of b pages = record {
  pmem = b.mem + 4096 * b.n_used;
  page_addr = b.addr + 4096 * b.n_used;
  size = pages * 4096;
  dirty = ltb b.n_used b.n_dirty;
}

taken-Handed :
    (s : MemoryBanks) (pages i : ℕ) (s' : MemoryBanks) (a : Available s pages i s')
    → 0 < pages
    → Handed s pages
        (page_of a.bank pages)
        (record s' { m_mem = set s'.m_mem i (taken a.bank pages) })
taken-Handed s pages i s' a pos =
    let v : IsValid s' = a.valid in
    let inside = get_elem?-inside s'.arena_begin s'.arena_next s'.m_mem i v.chain v.banks a.found in
    let w : IsBank a.bank = inside.2 in
    let v' : IsValid (record s' { m_mem = set s'.m_mem i (taken a.bank pages) }) =
      replace-IsValid s' i (taken a.bank pages) v a.found refl refl (record {
        used = omega (arith, a.fitting.room);
        clean = omega (arith, w.clean);
        whole = w.whole;
      }) in
    record {
      valid = v';
      sized = refl;
      clean = ground (arith, w.clean);
      inside = (omega (arith, inside), omega (arith, inside, a.fitting.room));
      boundary = (
        omega (arith, inside.3 v.aligned),
        λ e. omega (arith, inside.3 v.aligned, a.fitting.boundary e),
      );
      fresh = λ x p q. ground (
        arith,
        a.grows x,
        in_use-set s'.m_mem i (taken a.bank pages) x a.found,
        in_use-le-one s'.arena_begin s'.arena_next (set s'.m_mem i (taken a.bank pages)) x v'.chain
            v'.banks,
      );
      grows = λ x. ground (arith, a.grows x, in_use-set s'.m_mem i (taken a.bank pages) x a.found);
      same_begin = a.same_begin;
    }

module _ (host : HostMemory) (never_null : (n : ℕ) (h : Bool) → host.mmap n h ≢ 0) where
  try_alloc-ne-zero : (n : ℕ) (h : Bool) → try_alloc host n h ≢ 0
  unfolding try_alloc
  try_alloc-ne-zero n h e = ground (arith, never_null (n * 4096) true, never_null (n * 4096) false)

  allocate_new_bank_lem :
      (s : MemoryBanks) (addr : ℕ)
      → allocate_new_bank host s addr 2048 ≡ add_bank host s (new_mem host s) addr (new_size s)
  unfolding allocate_new_bank
  allocate_new_bank_lem s addr =
      ground (arith, try_alloc-ne-zero (new_size s) ((length s.m_mem == 0) && using_hugepages s))

  grow_banks-Offers :
      (s : MemoryBanks) (pages : ℕ)
      → IsValid s
      → s.num_pages < s.max_pages
      → pages ≤ 512
      → Offers host s pages (grow_banks host s)
  unfolding grow_banks add_bank
  grow_banks-Offers s pages v more few =
      let mem = new_mem host s in
      let n = new_size s in
      let e = allocate_new_bank_lem s s.arena_next in
      elim (Bool-cases (host.installs s.slots (bank_slot s mem s.arena_next n))) [
        | inl accepted ↦
            let whole : grow_banks host s ≡ done (length s.m_mem) (grown s mem n) =
              let added : allocate_new_bank host s s.arena_next 2048
                  ≡ done (length s.m_mem) (record (push_bank s mem s.arena_next n) {
                    slots = bank_slot s mem s.arena_next n ∷ s.slots;
                  }) =
                rw e (rw (accepted, add_bank) refl) in
              ground (arith, added, get_elem?-length s.m_mem (new_bank s mem n)) in
            rw whole (grown-Available s pages mem n v more few (new_size-NewSize s v))
        | inr refused ↦
            let whole : grow_banks host s ≡ throws not_installed (push_bank s mem s.arena_next n) =
              rw (e, grow_banks) (rw (refused, add_bank) refl) in
            rw whole (inr (refl, refused, refl))
      ]

  get_available_bank-Offers :
      (s : MemoryBanks) (pages : ℕ)
      → IsValid s
      → pages ≤ 512
      → Offers host s pages (get_available_bank host s pages)
  unfolding get_available_bank
  get_available_bank-Offers s pages v few = elim (Option-cases (find_room s.m_mem pages)) [
    | inr (i, e) ↦
        let (b, at, fit) = find_room-Fitting s.m_mem pages i e in
        rw (e, get_available_bank)
          (record {
            valid = v;
            bank = b;
            found = at;
            fitting = fit;
            grows = λ x. omega arith;
            same_begin = refl;
          })
    | inl e ↦ elim (Bool-cases (ltb s.num_pages s.max_pages)) [
      | inl more ↦
          rw (e, get_available_bank) (rw more (grow_banks-Offers s pages v (ground arith) few))
      | inr full ↦ rw (e, get_available_bank) (rw full (last_resort-Offers host s pages v))
    ]
  ]

  -- From valid banks, a request of a page or of up to 512 pages hands out memory inside the arena
  -- that nobody uses, clean and on its boundary, with every page that was in use still in use and
  -- the banks valid; or it throws out of memory and changes nothing; or KVM refuses the region of a
  -- new bank, which then stays in the vector with nothing else changed but the next index. No
  -- assertion fails, for any host whose mmap() never returns a null pointer.
  pub new_pages-Hands :
      (s : MemoryBanks) (pages : ℕ)
      → IsValid s
      → 0 < pages
      → pages ≤ 512
      → Hands host s pages (new_pages host s pages)
  unfolding new_pages
  new_pages-Hands s pages v pos few =
      go (get_available_bank host s pages) refl (get_available_bank-Offers s pages v few)
    where
      go :
          (o : Outcome BankError MemoryBanks ℕ)
          → get_available_bank host s pages ≡ o
          → Offers host s pages o
          → Hands host s pages (new_pages host s pages)
      go (done i s') e a =
          let whole : new_pages host s pages
              ≡ done (page_of a.bank pages)
                  (record s' { m_mem = set s'.m_mem i (taken a.bank pages) }) =
            unfold get_next_page in ground (arith, e, a.found, a.fitting.room) in
          rw whole (taken-Handed s pages i s' a pos)
      go (throws e s') q a = rw (q, new_pages) a
